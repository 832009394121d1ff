-- ===== src/Namespace/Lookup.antt =====
-- The look-up of a name in a file of users or groups.
use virturust.Base.{
  ℕ, ◌≤◌, ◌≡◌, refl, ap, ◌∙◌, Bool, true, false, List, [], ◌∷◌, ◌++◌, map, Option, none, some, All,
  arith, if◌then◌else◌, Error, Result, ok, err, bad_number,
}
use virturust.Text.{Text, text_eq}
use virturust.Text.Splitting.{split, Lacks, split-append}
use virturust.Text.Number.{u32_max, parse_uint, to_string, parse_uint-to_string, to_string-Lacks}
use virturust.Namespace.User.{name_and_id, id_in_line, find_id}

-- A user or a group: the fields up to the number, and the text behind it.
pub record Account : Type 0 where
  pub name : Text
  pub password : Text
  pub id : ℕ
  pub others : Text

-- The line of an account.
abbrev pub line_of : Account → Text
line_of a = a.name ++ b':' ∷ (a.password ++ b':' ∷ (to_string a.id ++ b':' ∷ a.others))

-- Fields without a colon and a number that is a `u32`.
pub record IsValid (a : Account) : Type 0 where
  pub name_lacks : Lacks b':' a.name
  pub password_lacks : Lacks b':' a.password
  pub id_le : a.id ≤ u32_max

-- The first account of a name.
abbrev pub id_of : Error → Text → List Account → Result ℕ
id_of missing name [] = err missing
id_of missing name (a ∷ accounts) =
    if text_eq a.name name then ok a.id else id_of missing name accounts

split-line_of :
    (a : Account)
    → IsValid a
    → split b':' (line_of a) ≡ a.name ∷ a.password ∷ to_string a.id ∷ split b':' a.others
split-line_of a v =
    rw
      (
        split-append b':' a.name _ v.name_lacks,
        split-append b':' a.password _ v.password_lacks,
        split-append b':' (to_string a.id) _ (to_string-Lacks b':' a.id (omega arith)),
      )
      refl

id_in_line-line_of :
    (a : Account) (name : Text)
    → IsValid a
    → id_in_line name (line_of a) ≡ (if text_eq a.name name then some (to_string a.id) else none)
unfolding id_in_line name_and_id
id_in_line-line_of a name v =
    ap
      (λ fields. elim (name_and_id fields) as (λ _. Option Text) [
        | none ↦ none
        | some (field, id) ↦ if text_eq field name then some id else none
      ])
      (split-line_of a v)

-- In a file of well-formed lines, a name has the number of its first line, and there is no other
-- failure than that the name is missing.
pub find_id-line_of :
    (missing : Error) (name : Text) (accounts : List Account)
    → All IsValid accounts
    → find_id missing name (map line_of accounts) ≡ id_of missing name accounts
unfolding find_id
find_id-line_of missing name [] v = refl
find_id-line_of missing name (a ∷ accounts) (va, vs) =
    ap
      (λ o. elim o as (λ _. Result ℕ) [
        | none ↦ find_id missing name (map line_of accounts)
        | some id ↦ elim (parse_uint u32_max id) [ none ↦ err bad_number | some n ↦ ok n ]
      ])
      (id_in_line-line_of a name va)
    ∙ by_name (text_eq a.name name) (find_id-line_of missing name accounts vs)
  where
    by_name :
        (b : Bool) {rest found : Result ℕ}
        → rest ≡ found
        → (elim (if b then some (to_string a.id) else none) as (λ _. Result ℕ) [
          | none ↦ rest
          | some id ↦ elim (parse_uint u32_max id) [ none ↦ err bad_number | some n ↦ ok n ]
        ])
          ≡ (if b then ok a.id else found)
    by_name true e =
        ap (λ o. elim o as (λ _. Result ℕ) [ none ↦ err bad_number | some n ↦ ok n ])
          (parse_uint-to_string u32_max a.id va.id_le)
    by_name false e = e
