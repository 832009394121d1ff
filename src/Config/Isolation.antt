-- ===== src/Config/Isolation.antt =====
-- Where the containers of the users of one data directory lie.
use mathlib.Core.List.{append_cancel_left, append_cancel_right}
use virturust.Base.{
  ℕ, zero, suc, ◌≤◌, ◌≡◌, ◌∙◌, refl, sym, ap, true, false, inl, inr, [], ◌∷◌, ◌++◌, append_assoc,
  Option, some, arith, ◌==◌, if◌then◌else◌, Bool-cases,
}
use virturust.Text.{Text, codes, text_eq, text_eq→eq, text_eq_refl}
use virturust.Text.Number.{
  u32_max, to_string, parse_uint, parse_uint-to_string, AreDigits, to_string-AreDigits,
}
use virturust.Text.Files.{FilePath, is_absolute, join, needs_slash, needs_slash-append}
use virturust.Config.Dirs.{Environment, data_dir, real_uid, user_dir, containers_dir}

-- The environment in which CORTEN_REAL_UID is a given id.
abbrev pub user_env : Option Text → ℕ → Environment
user_env dir uid = record { data_dir_var = dir; real_uid_var = some (to_string uid) }

to_string_inj : (m n : ℕ) → m ≤ u32_max → n ≤ u32_max → to_string m ≡ to_string n → m ≡ n
to_string_inj m n hm hn e = ground (
  arith,
  parse_uint-to_string u32_max m hm,
  parse_uint-to_string u32_max n hn,
  ap (parse_uint u32_max) e,
)

to_string_zero : to_string 0 ≡ codes "0"
unfolding to_string
to_string_zero = refl

is_zero_uid : (n : ℕ) → n ≤ u32_max → text_eq (to_string n) (codes "0") ≡ (n == 0)
is_zero_uid zero h = rw to_string_zero (text_eq_refl (codes "0"))
is_zero_uid (suc n) h = elim (Bool-cases (text_eq (to_string (suc n)) (codes "0"))) [
  | inl e ↦ absurd (
      omega (
        arith,
        to_string_inj (suc n) 0 h (omega arith)
            (text_eq→eq (to_string (suc n)) (codes "0") e ∙ sym to_string_zero),
      ))
  | inr e ↦ e ∙ ground arith
]

-- The directory up to the part that a user chooses.
abbrev stem : FilePath → FilePath
stem d = if needs_slash d then d ++ b'/' ∷ [] else d

-- What follows it.
abbrev branch : ℕ → FilePath
branch zero = codes "containers"
branch (suc n) = codes "users/" ++ (to_string (suc n) ++ codes "/containers")

join-stem : (d s : FilePath) → is_absolute s ≡ false → join d s ≡ stem d ++ s
unfolding join
join-stem d s h = ground (arith, append_assoc d (b'/' ∷ []) s)

needs_slash_users : (p : FilePath) → needs_slash (p ++ codes "users") ≡ true
needs_slash_users p = needs_slash-append p b'u' (codes "sers") ∙ (unfold needs_slash in refl)

needs_slash_cons : (c : ℕ) (s : Text) → AreDigits s → needs_slash (c ∷ s) ≡ true
unfolding needs_slash
needs_slash_cons c [] h = elim h [ ]
needs_slash_cons c (d ∷ []) h = ground arith
needs_slash_cons c (d ∷ e ∷ s) h = needs_slash_cons d (e ∷ s) h.1

needs_slash_digits : (p : FilePath) (s : Text) → AreDigits s → needs_slash (p ++ b'/' ∷ s) ≡ true
needs_slash_digits p s h = needs_slash-append p b'/' s ∙ needs_slash_cons b'/' s h

join_slash :
    (a b : FilePath) → needs_slash a ≡ true → is_absolute b ≡ false → join a b ≡ a ++ b'/' ∷ b
unfolding join
join_slash a b h k = ground arith

digits_relative : (s : Text) → AreDigits s → is_absolute s ≡ false
digits_relative [] h = elim h [ ]
digits_relative (c ∷ s) h = ground arith

-- The three joins of `user_dir` and `containers_dir`, spelt out.
join_user :
    (d u : FilePath)
    → AreDigits u
    → join (join (join d (codes "users")) u) (codes "containers")
      ≡ stem d ++ (codes "users/" ++ (u ++ codes "/containers"))
join_user d u h =
    rw
      (
        join-stem d (codes "users") refl,
        join_slash (stem d ++ codes "users") u (needs_slash_users (stem d)) (digits_relative u h),
        join_slash ((stem d ++ codes "users") ++ b'/' ∷ u) (codes "containers")
            (needs_slash_digits (stem d ++ codes "users") u h) refl,
      )
      (simp append_assoc)

containers_dir-stem :
    (dir : Option Text) (n : ℕ)
    → n ≤ u32_max
    → containers_dir (user_env dir n) ≡ stem (data_dir (user_env dir 0)) ++ branch n
unfolding containers_dir real_uid user_dir data_dir
containers_dir-stem dir zero h =
    let d = data_dir (user_env dir 0) in
    ground (arith, is_zero_uid 0 h, join-stem d (codes "containers") refl)
containers_dir-stem dir (suc n) h =
    let d = data_dir (user_env dir 0) in
    ground
      (arith, is_zero_uid (suc n) h, join_user d (to_string (suc n)) (to_string-AreDigits (suc n)))

abbrev first : Text → ℕ
first [] = 0
first (c ∷ s) = c

branch_inj : (m n : ℕ) → m ≤ u32_max → n ≤ u32_max → branch m ≡ branch n → m ≡ n
branch_inj zero zero hm hn e = refl
branch_inj zero (suc n) hm hn e = absurd (omega (arith, ap first e))
branch_inj (suc m) zero hm hn e = absurd (omega (arith, ap first e))
branch_inj (suc m) (suc n) hm hn e = to_string_inj (suc m) (suc n) hm hn (
    append_cancel_right (to_string (suc m)) (to_string (suc n)) (codes "/containers")
      (append_cancel_left (codes "users/") _ _ e))

-- For one data directory: two values of CORTEN_REAL_UID that are printed u32s, 0 among them, lead to
-- different directories of containers. Nothing is said of who sets the variable.
pub containers_dir_inj :
    (dir : Option Text) (m n : ℕ)
    → m ≤ u32_max
    → n ≤ u32_max
    → containers_dir (user_env dir m) ≡ containers_dir (user_env dir n)
    → m ≡ n
containers_dir_inj dir m n hm hn e = branch_inj m n hm hn (
    append_cancel_left (stem (data_dir (user_env dir 0))) (branch m) (branch n)
      (sym (containers_dir-stem dir m hm) ∙ e ∙ containers_dir-stem dir n hn))
