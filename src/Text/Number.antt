-- ===== src/Text/Number.antt =====
-- `str::parse` at the unsigned integer types and their decimal print.
use virturust.Base.{
  ℕ, zero, suc, ◌+◌, ◌-◌, ◌*◌, ◌/◌, ◌%◌, ◌≤◌, ◌<◌, ◌≡◌, ◌≢◌, ◌∙◌, ap, sym, subst, Bool, true, false,
  ◌||◌, [], ◌∷◌, Option, none, some, arith, ltb, ◌==◌, if◌then◌else◌, All, Bool-cases, ◌⊎◌, inl,
  inr,
}
use mathlib.Core.List.{cons-ne-nil}
use virturust.Text.{Text, is_whitespace}
use virturust.Text.Trimming.{IsSolid}
use virturust.Text.Splitting.{Lacks}

abbrev pub u64_max : ℕ
u64_max = 18446744073709551615

abbrev pub u32_max : ℕ
u32_max = 4294967295

abbrev pub u16_max : ℕ
u16_max = 65535

abbrev pub u8_max : ℕ
u8_max = 255

-- The digits behind a value, with `checked_mul` and `checked_add` against the type's maximum.
unfoldable pub parse_digits : ℕ → Text → ℕ → Option ℕ
parse_digits max [] n = some n
parse_digits max (c ∷ s) n =
    let rest = parse_digits max s (n * 10 + (c - b'0')) in
    if ltb c b'0' || ltb b'9' c then none else if ltb max (n * 10 + (c - b'0')) then none else rest

-- `s.parse::<uN>().ok()`: an optional plus sign, then one digit or more.
unfoldable pub parse_uint : ℕ → Text → Option ℕ
unfolding parse_digits
parse_uint max [] = none
parse_uint max (c ∷ []) = if c == b'+' then none else parse_digits max (c ∷ []) 0
parse_uint max (c ∷ d ∷ s) =
    if c == b'+' then parse_digits max (d ∷ s) 0 else parse_digits max (c ∷ d ∷ s) 0

parse_digits-le :
    (max : ℕ) (s : Text) (n : ℕ) {r : ℕ} → n ≤ max → parse_digits max s n ≡ some r → r ≤ max
unfolding parse_digits
parse_digits-le max [] n h e = ground arith
parse_digits-le max (c ∷ s) n {r} h e =
    ground (arith, parse_digits-le max s (n * 10 + (c - b'0')) {r = r})

-- A parsed number fits its type.
pub parse_uint-le : (max : ℕ) (s : Text) {r : ℕ} → parse_uint max s ≡ some r → r ≤ max
unfolding parse_uint
parse_uint-le max [] e = cc
parse_uint-le max (c ∷ []) {r} e = ground (arith, parse_digits-le max (c ∷ []) 0 {r = r})
parse_uint-le max (c ∷ d ∷ s) {r} e =
    ground (arith, parse_digits-le max (c ∷ d ∷ s) 0 {r = r}, parse_digits-le max (d ∷ s) 0 {r = r})

-- Puts the digits of `n` in front of a text; the fuel bounds how many there are.
emit : (fuel n : ℕ) → Text → Text
emit zero n out = out
emit (suc fuel) n out = elim (n == 0) [
  | true ↦ out
  | false ↦ emit fuel (n / 10) ((b'0' + n % 10) ∷ out)
]

-- `n.to_string()`
unfoldable pub to_string : ℕ → Text
unfolding emit
to_string n = if n == 0 then b'0' ∷ [] else emit n n []

emit_step :
    (fuel n : ℕ) (out : Text) (b : Bool)
    → (n == 0) ≡ b
    → emit (suc fuel) n out ≡ (if b then out else emit fuel (n / 10) ((b'0' + n % 10) ∷ out))
unfolding emit
emit_step fuel n out true e =
    ap
      (λ b. elim b as (λ _. Text) [
        | true ↦ out
        | false ↦ emit fuel (n / 10) ((b'0' + n % 10) ∷ out)
      ])
      e
emit_step fuel n out false e =
    ap
      (λ b. elim b as (λ _. Text) [
        | true ↦ out
        | false ↦ emit fuel (n / 10) ((b'0' + n % 10) ∷ out)
      ])
      e

-- Reading the last digit of `n` after the digits before it gives `n`.
parse_digits_last :
    (max n : ℕ) (out : Text)
    → n ≤ max
    → parse_digits max ((b'0' + n % 10) ∷ out) (n / 10) ≡ parse_digits max out n
unfolding parse_digits
parse_digits_last max n out h = let e : n / 10 * 10 + n % 10 ≡ n = omega arith in ground (arith, e)

parse_digits-emit :
    (fuel max n : ℕ) (out : Text)
    → n ≤ fuel
    → n ≤ max
    → parse_digits max (emit fuel n out) 0 ≡ parse_digits max out n
unfolding emit
parse_digits-emit zero max n out le fits = ap (parse_digits max out) (omega arith)
parse_digits-emit (suc fuel) max n out le fits = elim (Bool-cases (n == 0)) [
  | inl z ↦
      ap (λ t. parse_digits max t 0) (emit_step fuel n out true z)
      ∙ ap (parse_digits max out) (zero_of n z)
  | inr p ↦
      ap (λ t. parse_digits max t 0) (emit_step fuel n out false p)
      ∙ parse_digits-emit fuel max (n / 10) ((b'0' + n % 10) ∷ out) (omega arith) (omega arith)
      ∙ parse_digits_last max n out fits
]
  where
    zero_of : (m : ℕ) → (m == 0) ≡ true → 0 ≡ m
    zero_of m z = ground arith

abbrev pub IsDigit : ℕ → Type 0
IsDigit c = (b'0' ≤ c) × (c ≤ b'9')

-- One digit or more.
abbrev pub AreDigits : Text → Type 0
AreDigits [] = ⊥
AreDigits (c ∷ s) = All IsDigit (c ∷ s)

emit-AreDigits : (fuel n : ℕ) (out : Text) → AreDigits out → AreDigits (emit fuel n out)
unfolding emit
emit-AreDigits zero n out h = h
emit-AreDigits (suc fuel) n out h = elim (Bool-cases (n == 0)) [
  | inl z ↦ subst AreDigits (sym (emit_step fuel n out true z)) h
  | inr p ↦
      subst AreDigits (sym (emit_step fuel n out false p))
        (emit-AreDigits fuel (n / 10) ((b'0' + n % 10) ∷ out) (longer n out h))
]
  where
    longer : (m : ℕ) (out : Text) → AreDigits out → AreDigits ((b'0' + m % 10) ∷ out)
    longer m [] h = elim h [ ]
    longer m (c ∷ out) h = (omega arith, h)

pub to_string-AreDigits : (n : ℕ) → AreDigits (to_string n)
unfolding to_string emit
to_string-AreDigits zero = (omega arith, tt)
to_string-AreDigits (suc n) =
    subst AreDigits (sym shape)
      (emit-AreDigits n (suc n / 10) ((b'0' + suc n % 10) ∷ []) (omega arith, tt))
  where
    nonzero : (suc n == 0) ≡ false
    nonzero = ground arith

    shape : to_string (suc n) ≡ emit n (suc n / 10) ((b'0' + suc n % 10) ∷ [])
    shape = rw nonzero (emit_step n (suc n) [] false nonzero)

parse_uint_digits : (max : ℕ) (s : Text) → AreDigits s → parse_uint max s ≡ parse_digits max s 0
unfolding parse_uint
parse_uint_digits max [] h = elim h [ ]
parse_uint_digits max (c ∷ []) h = ground arith
parse_uint_digits max (c ∷ d ∷ s) h = ground arith

-- A printed number is read back at every type that it fits.
pub parse_uint-to_string : (max n : ℕ) → n ≤ max → parse_uint max (to_string n) ≡ some n
unfolding to_string parse_digits
parse_uint-to_string max n fits =
    rw (parse_uint_digits max (to_string n) (to_string-AreDigits n)) (go (Bool-cases (n == 0)))
  where
    go : ((n == 0) ≡ true) ⊎ ((n == 0) ≡ false) → parse_digits max (to_string n) 0 ≡ some n
    go (inl z) = ground arith
    go (inr p) = rw p (ground (arith, parse_digits-emit n max n [] (omega arith) fits))

digits-AreSolid : (s : Text) → All IsDigit s → IsSolid s
unfolding is_whitespace
digits-AreSolid [] h = tt
digits-AreSolid (c ∷ s) (hc, hs) = (ground arith, digits-AreSolid s hs)

pub to_string-IsSolid : (n : ℕ) → IsSolid (to_string n)
to_string-IsSolid n = solid_of (to_string n) (to_string-AreDigits n)
  where
    solid_of : (s : Text) → AreDigits s → IsSolid s
    solid_of [] h = elim h [ ]
    solid_of (c ∷ s) h = digits-AreSolid (c ∷ s) h

pub to_string-ne-nil : (n : ℕ) → to_string n ≢ []
to_string-ne-nil n = nonempty (to_string n) (to_string-AreDigits n)
  where
    nonempty : (s : Text) → AreDigits s → s ≢ []
    nonempty [] h = elim h [ ]
    nonempty (c ∷ s) h = cons-ne-nil c s

-- A printed number holds no character that is not a digit.
pub to_string-Lacks : (sep n : ℕ) → b'9' < sep → Lacks sep (to_string n)
to_string-Lacks sep n h = lacks_of (to_string n) (to_string-AreDigits n)
  where
    all_lack : (s : Text) → All IsDigit s → Lacks sep s
    all_lack [] k = tt
    all_lack (c ∷ s) (hc, hs) = (ground arith, all_lack s hs)

    lacks_of : (s : Text) → AreDigits s → Lacks sep s
    lacks_of [] k = elim k [ ]
    lacks_of (c ∷ s) k = all_lack (c ∷ s) k
