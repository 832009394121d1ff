-- ===== src/Text/Splitting.antt =====
-- `split`, `splitn` and `split_once` at one character.
use virturust.Base.{
  ℕ, zero, suc, ◌≡◌, ◌≢◌, refl, true, false, List, [], ◌∷◌, ◌++◌, Option, none, some, arith, ◌==◌,
  if◌then◌else◌, All,
}
use virturust.Text.{Text}

-- Puts a character before the first part.
abbrev onto : ℕ → List Text → List Text
onto c [] = (c ∷ []) ∷ []
onto c (p ∷ ps) = (c ∷ p) ∷ ps

-- `s.split(sep).collect()`
unfoldable pub split : ℕ → Text → List Text
split sep [] = [] ∷ []
split sep (c ∷ s) = let rest = split sep s in if c == sep then [] ∷ rest else onto c rest

-- `s.splitn(n, sep).collect()`: the last part takes the rest.
unfoldable pub splitn : ℕ → ℕ → Text → List Text
splitn zero sep s = []
splitn (suc zero) sep s = s ∷ []
splitn (suc (suc n)) sep [] = [] ∷ []
splitn (suc (suc n)) sep (c ∷ s) = elim (c == sep) [
  | true ↦ [] ∷ splitn (suc n) sep s
  | false ↦ onto c (splitn (suc (suc n)) sep s)
]

-- `s.split_once(sep)`
unfoldable pub split_once : ℕ → Text → Option (Text × Text)
split_once sep [] = none
split_once sep (c ∷ s) =
    let rest = split_once sep s in
    if c == sep then some ([], s) else elim rest [ none ↦ none | some (a, b) ↦ some (c ∷ a, b) ]

abbrev pub Lacks : ℕ → Text → Type 0
Lacks sep = All (λ c. c ≢ sep)

pub split-Lacks : (sep : ℕ) (a : Text) → Lacks sep a → split sep a ≡ a ∷ []
unfolding split
split-Lacks sep [] h = refl
split-Lacks sep (c ∷ a) h = ground (arith, split-Lacks sep a)

pub split-append : (sep : ℕ) (a b : Text) → Lacks sep a → split sep (a ++ sep ∷ b) ≡ a ∷ split sep b
unfolding split
split-append sep [] b h = ground arith
split-append sep (c ∷ a) b h = ground (arith, split-append sep a b)

pub splitn-append :
    (n sep : ℕ) (a b : Text)
    → Lacks sep a
    → splitn (suc (suc n)) sep (a ++ sep ∷ b) ≡ a ∷ splitn (suc n) sep b
unfolding splitn
splitn-append n sep [] b h = ground arith
splitn-append n sep (c ∷ a) b h = ground (arith, splitn-append n sep a b)

pub splitn-Lacks : (n sep : ℕ) (a : Text) → Lacks sep a → splitn (suc (suc n)) sep a ≡ a ∷ []
unfolding splitn
splitn-Lacks n sep [] h = refl
splitn-Lacks n sep (c ∷ a) h = ground (arith, splitn-Lacks n sep a)

pub split_once-append :
    (sep : ℕ) (a b : Text) → Lacks sep a → split_once sep (a ++ sep ∷ b) ≡ some (a, b)
unfolding split_once
split_once-append sep [] b h = ground arith
split_once-append sep (c ∷ a) b h = ground (arith, split_once-append sep a b)

pub split_once-Lacks : (sep : ℕ) (a : Text) → Lacks sep a → split_once sep a ≡ none
unfolding split_once
split_once-Lacks sep [] h = refl
split_once-Lacks sep (c ∷ a) h = ground (arith, split_once-Lacks sep a)
