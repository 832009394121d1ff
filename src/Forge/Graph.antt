-- ===== src/Forge/Graph.antt =====
-- The graph of dependencies, and sets of names.
use virturust.Base.{
  ℕ, suc, ◌≤◌, ◌<◌, ◌≡◌, inl, inr, refl, sym, true, false, not, ◌&&◌, ◌||◌, List, [], ◌∷◌, ◌++◌,
  arith, if◌then◌else◌, All, length, Bool-cases, subst, append-nil, append_assoc,
}
use virturust.Text.{Text, text_eq, text_eq→eq, text_eq_refl, text_eq_sym}
use virturust.Forge.{Services, contains, contains_key, remove, deps_of}

-- `b` is a dependency of `a`.
abbrev pub Depends : Services → Text → Text → Type 0
Depends services a b = contains (deps_of services a) b ≡ true

-- A chain of one dependency or more.
pub data Reaches (services : Services) (a : Text) : Text → Type 0 where
  direct : {b : Text} → Depends services a b → Reaches services a b
  further : {b c : Text} → Reaches services a b → Depends services b c → Reaches services a c

-- All names of a list are in a set.
abbrev pub Within : List Text → List Text → Type 0
Within xs set = All (λ x. contains set x ≡ true) xs

-- In an order of start, behind the services `seen`, every service stands behind its dependencies.
abbrev pub DepsFirst : Services → List Text → List Text → Type 0
DepsFirst services seen [] = Unit
DepsFirst services seen (x ∷ xs) =
    Within (deps_of services x) seen × DepsFirst services (seen ++ x ∷ []) xs

-- No name occurs twice.
abbrev pub IsDistinct : List Text → Type 0
IsDistinct [] = Unit
IsDistinct (x ∷ xs) = (contains xs x ≡ false) × IsDistinct xs

pub contains-append :
    (xs ys : List Text) (x : Text) → contains (xs ++ ys) x ≡ (contains xs x || contains ys x)
unfolding contains
contains-append [] ys x = refl
contains-append (y ∷ xs) ys x = ground (arith, contains-append xs ys x)

pub contains-remove :
    (x : Text) (v : List Text) (y : Text)
    → contains (remove x v) y ≡ (not (text_eq x y) && contains v y)
unfolding contains remove
contains-remove x [] y = ground arith
contains-remove x (z ∷ v) y = ground (
  arith,
  contains-remove x v y,
  text_eq→eq z x,
  text_eq→eq x y,
  text_eq→eq z y,
  text_eq_refl x,
  text_eq_sym x z,
)

pub Within-refl : (xs : List Text) → Within xs xs
Within-refl xs = go xs xs (λ x h. h)
  where
    go :
        (ys zs : List Text)
        → ((x : Text) → contains ys x ≡ true → contains zs x ≡ true)
        → Within ys zs
    go [] zs h = tt
    go (y ∷ ys) zs h = (
      h y (unfold contains in rw (text_eq_refl y)),
      go ys zs (λ x k. h x (unfold contains in ground (arith, k))),
    )

-- The services that are not on the stack.
pub free : Services → List Text → ℕ
free [] v = 0
free ((k, s) ∷ m) v = if contains v k then free m v else suc (free m v)

pub free-le-length : (m : Services) (v : List Text) → free m v ≤ length m
unfolding free
free-le-length [] v = omega arith
free-le-length ((k, s) ∷ m) v = ground (arith, free-le-length m v)

pub free_cong :
    (m : Services) (v w : List Text)
    → ((x : Text) → contains v x ≡ contains w x)
    → free m v ≡ free m w
unfolding free
free_cong [] v w h = refl
free_cong ((k, s) ∷ m) v w h = ground (arith, free_cong m v w h, h k)

free_cons-le : (m : Services) (v : List Text) (x : Text) → free m (x ∷ v) ≤ free m v
unfolding free contains
free_cons-le [] v x = omega arith
free_cons-le ((k, s) ∷ m) v x = ground (arith, free_cons-le m v x)

pub free_cons-lt :
    (m : Services) (v : List Text) (x : Text)
    → contains_key m x ≡ true
    → contains v x ≡ false
    → free m (x ∷ v) < free m v
unfolding free contains contains_key
free_cons-lt [] v x h n = cc
free_cons-lt ((k, s) ∷ m) v x h n = elim (Bool-cases (text_eq k x)) [
  | inl e ↦ ground (arith, free_cons-le m v x, text_eq→eq k x e, text_eq_refl x)
  | inr d ↦ ground (arith, free_cons-lt m v x, free_cons-le m v x)
]

Within-append : (xs ys set : List Text) → Within xs set → Within xs (set ++ ys)
Within-append [] ys set h = tt
Within-append (x ∷ xs) ys set (hx, hs) =
    (ground (arith, contains-append set ys x), Within-append xs ys set hs)

pub Within-grows :
    (xs v w : List Text)
    → ((x : Text) → contains v x ≡ true → contains w x ≡ true)
    → Within xs v
    → Within xs w
Within-grows [] v w g h = tt
Within-grows (x ∷ xs) v w g (hx, hs) = (g x hx, Within-grows xs v w g hs)

-- One more service behind its dependencies.
pub DepsFirst-snoc :
    (services : Services) (seen xs : List Text) (x : Text)
    → DepsFirst services seen xs
    → Within (deps_of services x) (seen ++ xs)
    → DepsFirst services seen (xs ++ x ∷ [])
DepsFirst-snoc services seen [] x h w =
    (subst (Within (deps_of services x)) (append-nil seen) w, tt)
DepsFirst-snoc services seen (y ∷ xs) x (hy, hs) w = (
  hy,
  DepsFirst-snoc services (seen ++ y ∷ []) xs x hs
      (subst (Within (deps_of services x)) (sym (append_assoc seen (y ∷ []) xs)) w),
)

pub IsDistinct-snoc :
    (xs : List Text) (x : Text) → IsDistinct xs → contains xs x ≡ false → IsDistinct (xs ++ x ∷ [])
unfolding contains
IsDistinct-snoc [] x h n = (refl, tt)
IsDistinct-snoc (y ∷ xs) x (hy, hs) n = (
  ground (arith, contains-append xs (x ∷ []) y, text_eq_sym x y),
  IsDistinct-snoc xs x hs (ground arith),
)
