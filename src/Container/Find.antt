-- ===== src/Container/Find.antt =====
-- `find_container` of src/container.rs. The entries of the directory are given in the order in
-- which they are read, each with the name in its config.json if that can be loaded.
use virturust.Base.{
  ◌≡◌, Bool, true, false, ◌||◌, List, [], ◌∷◌, ◌++◌, Option, none, some, if◌then◌else◌, All,
}
use virturust.Text.{Text, text_eq, starts_with}

pub record Entry : Type 0 where
  pub file_name : Text
  pub name : Option Text

-- The name in the configuration.
unfoldable pub is_named_as : Option Text → Text → Bool
is_named_as none name_or_id = false
is_named_as (some n) name_or_id = text_eq n name_or_id

-- The three tests of the loop.
unfoldable pub matches : Entry → Text → Bool
matches entry name_or_id =
    text_eq entry.file_name name_or_id
    || (starts_with entry.file_name name_or_id || is_named_as entry.name name_or_id)

-- `none` where no entry matches.
unfoldable pub find_container : List Entry → Text → Option Entry
find_container [] name_or_id = none
find_container (entry ∷ entries) name_or_id =
    let rest = find_container entries name_or_id in
    if matches entry name_or_id then some entry else rest

-- The entries before the first match, the match, and those after it.
abbrev pub FirstMatch : List Entry → Text → Entry → Type 0
FirstMatch entries name_or_id entry =
    (before after : List Entry) × (entries ≡ before ++ entry ∷ after)
    × (matches entry name_or_id ≡ true)
    × All (λ e. matches e name_or_id ≡ false) before

abbrev pub NoMatch : List Entry → Text → Type 0
NoMatch entries name_or_id = All (λ e. matches e name_or_id ≡ false) entries
