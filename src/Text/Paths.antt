-- ===== src/Text/Paths.antt =====
-- The parts of a path by the rules of `std::path` on Unix.
use virturust.Base.{[], ◌∷◌, Option, none, some, ◌==◌, if◌then◌else◌}
use virturust.Text.{Text, codes, text_eq, is_empty}
use virturust.Text.Files.{FilePath}
use virturust.Text.Case.{reverse}

-- A path from its end: slashes and single dots behind its last component are dropped. The last
-- slash of a path is its root.
unfoldable pub trim_back : Text → Text
trim_back [] = []
trim_back (c ∷ []) = c ∷ []
trim_back (c ∷ d ∷ r) =
    let rest = trim_back (d ∷ r) in
    if c == b'/'
    then rest
    else if c == b'.'
    then (if d == b'/' then rest else c ∷ d ∷ r)
    else c ∷ d ∷ r

-- The last component of a path from its end, and what is in front of it, the slash included.
unfoldable pub take_component : Text → Text → Text × Text
take_component [] name = (name, [])
take_component (c ∷ r) name =
    let rest = take_component r (c ∷ name) in if c == b'/' then (name, c ∷ r) else rest

-- `path.parent()`
unfoldable pub parent : FilePath → Option FilePath
parent p = elim (trim_back (reverse p [])) [
  | [] ↦ none
  | c ∷ r ↦ if c == b'/' then none else some (reverse (trim_back (take_component (c ∷ r) []).1) [])
]

-- A component that is neither a dot nor two.
unfoldable pub normal : Text → Option Text
normal name =
    if is_empty name
    then none
    else if text_eq name (codes ".")
    then none
    else if text_eq name (codes "..")
    then none
    else some name

-- `path.file_name()`
unfoldable pub file_name : FilePath → Option Text
file_name p = normal (take_component (trim_back (reverse p [])) []).0

-- A name from its end, parted at its last dot.
unfoldable pub part_at_dot : Text → Text → Option (Text × Text)
part_at_dot [] ext = none
part_at_dot (c ∷ r) ext =
    let rest = part_at_dot r (c ∷ ext) in if c == b'.' then some (reverse r [], ext) else rest

-- The stem and the extension: a dot at the start of a name begins no extension.
unfoldable pub stem_and_extension : Text → Text × Option Text
stem_and_extension name = elim (part_at_dot (reverse name []) []) [
  | none ↦ (name, none)
  | some (stem, ext) ↦ if is_empty stem then (name, none) else (stem, some ext)
]

-- `path.file_stem()`
unfoldable pub file_stem : FilePath → Option Text
file_stem p = elim (file_name p) [ none ↦ none | some name ↦ some (stem_and_extension name).0 ]

-- `path.extension()`
unfoldable pub extension : FilePath → Option Text
extension p = elim (file_name p) [ none ↦ none | some name ↦ (stem_and_extension name).1 ]
