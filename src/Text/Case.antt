-- ===== src/Text/Case.antt =====
-- `to_lowercase` and suffixes of std's `str`.
use virturust.Base.{
  ℕ, ◌+◌, ◌-◌, Bool, true, false, ◌&&◌, ◌||◌, List, [], ◌∷◌, ◌++◌, Option, none, some, leb, ◌==◌,
  if◌then◌else◌, map,
}
use virturust.Text.{Text, text_eq, starts_with, is_empty, is_whitespace}

-- The lower case of a letter. A letter beyond ASCII whose lower case is not ASCII stays as it is,
-- which no comparison with an ASCII word tells apart; the Kelvin sign has the lower case k.
unfoldable pub lower_char : ℕ → ℕ
lower_char c = if leb b'A' c && leb c b'Z' then c + 32 else if c == 0x212a then b'k' else c

-- `s.to_lowercase()` where the result is compared with ASCII words.
unfoldable pub to_lowercase : Text → Text
to_lowercase s = map lower_char s

unfoldable pub reverse : Text → Text → Text
reverse [] out = out
reverse (c ∷ s) out = reverse s (c ∷ out)

-- `s.ends_with(suffix)`
unfoldable pub ends_with : Text → Text → Bool
ends_with s suffix = starts_with (reverse s []) (reverse suffix [])

-- `s.contains(c)` for a character.
unfoldable pub contains_char : ℕ → Text → Bool
contains_char c [] = false
contains_char c (d ∷ s) = let rest = contains_char c s in if d == c then true else rest

-- `s.trim_start_matches('/')`
unfoldable pub trim_slashes : Text → Text
trim_slashes [] = []
trim_slashes (c ∷ s) = let rest = trim_slashes s in if c == b'/' then rest else c ∷ s

-- `parts.join(sep)`
unfoldable pub join_with : Text → List Text → Text
join_with sep [] = []
join_with sep (s ∷ []) = s
join_with sep (s ∷ t ∷ ss) = s ++ (sep ++ join_with sep (t ∷ ss))

-- Whether a text is one of some.
unfoldable pub is_among : Text → List Text → Bool
is_among s [] = false
is_among s (t ∷ ts) = let rest = is_among s ts in if text_eq s t then true else rest

abbrev pub get_or : {A : Type 0} → A → Option A → A
get_or default none = default
get_or default (some a) = a

-- `s.contains(t)`
unfoldable pub contains_text : Text → Text → Bool
contains_text [] t = starts_with [] t
contains_text (c ∷ s) t =
    let rest = contains_text s t in if starts_with (c ∷ s) t then true else rest

-- What `s.find(t)` leaves of a text, from the first place on.
unfoldable pub from_first : Text → Text → Option Text
from_first [] t = if starts_with [] t then some [] else none
from_first (c ∷ s) t =
    let rest = from_first s t in if starts_with (c ∷ s) t then some (c ∷ s) else rest

-- The words of a text between its blanks, the first being the one that is going on.
unfoldable pub words_from : Text → Text × List Text
words_from [] = ([], [])
words_from (c ∷ s) =
    let (w, ws) = words_from s in
    if is_whitespace c then ([], if is_empty w then ws else w ∷ ws) else (c ∷ w, ws)

-- `s.split_whitespace()`
unfoldable pub split_whitespace : Text → List Text
split_whitespace s = let (w, ws) = words_from s in if is_empty w then ws else w ∷ ws

-- The upper case of a letter. A letter beyond ASCII whose upper case is not ASCII stays as it is,
-- which no comparison with an ASCII word tells apart.
unfoldable pub upper_char : ℕ → Text
upper_char c =
    if leb b'a' c && leb c b'z'
    then (c - 32) ∷ []
    else if c == 0x131
    then b'I' ∷ []
    else if c == 0x17f
    then b'S' ∷ []
    else if c == 0xdf
    then b'S' ∷ b'S' ∷ []
    else if c == 0xfb00
    then b'F' ∷ b'F' ∷ []
    else if c == 0xfb01
    then b'F' ∷ b'I' ∷ []
    else if c == 0xfb02
    then b'F' ∷ b'L' ∷ []
    else if c == 0xfb03
    then b'F' ∷ b'F' ∷ b'I' ∷ []
    else if c == 0xfb04
    then b'F' ∷ b'F' ∷ b'L' ∷ []
    else if (c == 0xfb05) || (c == 0xfb06)
    then b'S' ∷ b'T' ∷ []
    else c ∷ []

-- `s.to_uppercase()` where the result is compared with ASCII words.
unfoldable pub to_uppercase : Text → Text
to_uppercase [] = []
to_uppercase (c ∷ s) = upper_char c ++ to_uppercase s
