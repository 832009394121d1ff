-- ===== src/Config/Memory.antt =====
-- `parse_memory` and `parse_image_ref` of src/config.rs.
use virturust.Base.{
  ℕ, ◌*◌, ◌≤◌, ◌≡◌, ◌||◌, [], ◌∷◌, ◌++◌, Option, none, some, arith, ltb, ◌==◌, if◌then◌else◌,
  Result, ok, err, empty_memory, invalid_memory, memory_overflow,
}
use virturust.Text.{Text, codes, trim, is_empty}
use virturust.Text.Splitting.{split_once, Lacks, split_once-append, split_once-Lacks}
use virturust.Text.Number.{u64_max, parse_uint}

-- `s.as_bytes().last()` with the text before it.
unfoldable pub split_last : Text → Option (Text × ℕ)
split_last [] = none
split_last (c ∷ []) = some ([], c)
split_last (c ∷ d ∷ s) = elim (split_last (d ∷ s)) [
  | none ↦ none
  | some (init, z) ↦ some (c ∷ init, z)
]

-- The multiplier that a suffix stands for.
unfoldable pub multiplier : ℕ → Option ℕ
multiplier c =
    if (c == b'k') || (c == b'K')
    then some 1024
    else if (c == b'm') || (c == b'M')
    then some (1024 * 1024)
    else if (c == b'g') || (c == b'G')
    then some (1024 * 1024 * 1024)
    else none

-- `(num_str, multiplier)`
unfoldable pub unit_of : Text → Text × ℕ
unit_of s = elim (split_last s) [
  | none ↦ (s, 1)
  | some (init, z) ↦ elim (multiplier z) [ none ↦ (s, 1) | some m ↦ (init, m) ]
]

-- `num.checked_mul(multiplier)`
unfoldable pub checked_mul : ℕ → ℕ → Result ℕ
checked_mul num factor =
    if ltb u64_max (num * factor) then err memory_overflow else ok (num * factor)

-- `parse_memory` behind its `let s = s.trim()`.
unfoldable pub parse_trimmed : Text → Result ℕ
parse_trimmed s = if is_empty s then err empty_memory else elim (parse_uint u64_max (unit_of s).0) [
  | none ↦ err invalid_memory
  | some num ↦ checked_mul num (unit_of s).1
]

unfoldable pub parse_memory : Text → Result ℕ
parse_memory s = parse_trimmed (trim s)

unfoldable pub parse_image_ref : Text → Text × Text
parse_image_ref image = elim (split_once b':' image) [
  | some (name, tag) ↦ (name, tag)
  | none ↦ (image, codes "latest")
]

-- An accepted memory limit is a `u64`: the product did not wrap.
parse_memory-le : (t : Text) {r : ℕ} → parse_memory t ≡ ok r → r ≤ u64_max
unfolding parse_memory parse_trimmed checked_mul
parse_memory-le t h = ground arith

-- For a name without a colon, name:tag is taken apart behind the name, and the name alone
-- has the tag latest.
parse_image_ref_lem :
    (name tag : Text)
    → Lacks b':' name
    → (parse_image_ref (name ++ b':' ∷ tag) ≡ (name, tag))
      × (parse_image_ref name ≡ (name, codes "latest"))
unfolding parse_image_ref
parse_image_ref_lem name tag h = (
  ground (arith, split_once-append b':' name tag h),
  ground (arith, split_once-Lacks b':' name h),
)
