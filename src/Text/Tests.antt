-- ===== src/Text/Tests.antt =====
-- The parts of paths at small examples.
use virturust.Base.{◌≡◌, refl, [], none, some}
use virturust.Text.{codes, text_eq, is_empty}
use virturust.Text.Case.{reverse}
use virturust.Text.Paths.{
  trim_back, take_component, parent, normal, file_name, part_at_dot, stem_and_extension, file_stem,
  extension,
}

parent_padded : parent (codes "/a//b/./") ≡ some (codes "/a")
unfolding parent trim_back take_component reverse
parent_padded = refl

parent_relative : parent (codes "a") ≡ some []
unfolding parent trim_back take_component reverse
parent_relative = refl

parent_root : parent (codes "//") ≡ none
unfolding parent trim_back take_component reverse
parent_root = refl

extension_last : extension (codes "x.d/Corten.a.jsonc") ≡ some (codes "jsonc")
unfolding extension file_name normal trim_back take_component reverse stem_and_extension part_at_dot
    text_eq is_empty
extension_last = refl

stem_hidden : file_stem (codes "/x/.profile") ≡ some (codes ".profile")
unfolding file_stem file_name normal trim_back take_component reverse stem_and_extension part_at_dot
    text_eq is_empty
stem_hidden = refl
