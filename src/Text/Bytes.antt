-- ===== src/Text/Bytes.antt =====
-- Slices of std's `str` by bytes.
use virturust.Base.{ℕ, zero, suc, ◌-◌, [], ◌∷◌, Option, none, some, ltb, if◌then◌else◌, panicked}
use virturust.Text.{Text}
use virturust.Sys.{Action, pure, throw}

-- The bytes of a character in UTF-8.
abbrev utf8_len : ℕ → ℕ
utf8_len c = if ltb c 0x80 then 1 else if ltb c 0x800 then 2 else if ltb c 0x10000 then 3 else 4

-- `&s[..s.len().min(n)]`; `none` stands for the panic where a character lies across the end.
unfoldable pub byte_prefix : ℕ → Text → Option Text
byte_prefix n [] = some []
byte_prefix zero (c ∷ s) = some []
byte_prefix (suc n) (c ∷ s) =
    let rest = byte_prefix (suc n - utf8_len c) s in
    if ltb (suc n) (utf8_len c) then none else elim rest [ none ↦ none | some p ↦ some (c ∷ p) ]

-- The prefix, or the panic.
unfoldable pub cut_bytes : ℕ → Text → Action Text
cut_bytes n s = elim (byte_prefix n s) [ none ↦ throw panicked | some p ↦ pure p ]
