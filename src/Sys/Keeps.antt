-- ===== src/Sys/Keeps.antt =====
-- What an action leaves in the history, by one rule for each way to build an action.
use virturust.Base.{◌≡◌, refl, Bool, true, false, ◌||◌, List, [], ◌∷◌, Error, Result, ok, err}
use virturust.Text.Files.{FilePath}
use virturust.Sys.{
  read_dir, Call, History, Kernel, Action, pure, throw, ignore, and_then, ◌>>=◌, perform, attempt,
  require, drop_answer, fetch, ask, acquire, list_dir, when, for_each,
}

-- Some call of the history passes a test.
unfoldable pub occurs : (Call → Bool) → History → Bool
occurs p [] = false
occurs p (c ∷ h) = p c || occurs p h

-- Whatever the kernel answers, what has happened before the action is in the history after it.
pub record Keeps {A : Type 0} (m : Action A) : Type 0 where
  pub at :
      (p : Call → Bool) (k : Kernel) (h : History) → occurs p h ≡ true → occurs p (m k h).1 ≡ true

later : (b : Bool) {c : Bool} → c ≡ true → (b || c) ≡ true
later true h = refl
later false h = h

module _ {A : Type 0} where
  pub Keeps-pure : (a : A) → Keeps (pure a)
  Keeps-pure a = record { at = λ p k h e. e }

  pub Keeps-throw : (e : Error) → Keeps (throw {A = A} e)
  Keeps-throw e = record { at = λ p k h e. e }

  pub Keeps-ignore : (m : Action A) → Keeps m → Keeps (ignore m)
  Keeps-ignore m km = record { at = km.at }

module _ (c : Call) where
  pub Keeps-perform : Keeps (perform c)
  unfolding perform occurs
  Keeps-perform = record { at = λ p k h e. later (p c) e }

  pub Keeps-attempt : (e : Error) → Keeps (attempt e c)
  unfolding attempt occurs
  Keeps-attempt e' = record { at = λ p k h e. later (p c) e }

  pub Keeps-drop_answer : Keeps (drop_answer c)
  unfolding drop_answer occurs
  Keeps-drop_answer = record { at = λ p k h e. later (p c) e }

  pub Keeps-fetch : Keeps (fetch c)
  unfolding fetch occurs
  Keeps-fetch = record { at = λ p k h e. later (p c) e }

  pub Keeps-ask : Keeps (ask c)
  unfolding ask occurs
  Keeps-ask = record { at = λ p k h e. later (p c) e }

  pub Keeps-acquire : Keeps (acquire c)
  unfolding acquire occurs
  Keeps-acquire = record { at = λ p k h e. later (p c) e }

pub Keeps-list_dir : (p : FilePath) → Keeps (list_dir p)
unfolding list_dir occurs
Keeps-list_dir q = record { at = λ p k h e. later (p (read_dir q)) e }

pub Keeps-require : (e : Error) (b : Bool) → Keeps (require e b)
unfolding require
Keeps-require e b = record { at = λ p k h x. x }

pub Keeps-when : (b : Bool) (m : Action (Unit {0})) → Keeps m → Keeps (when b m)
Keeps-when true m km = km
Keeps-when false m km = Keeps-pure tt

module _ {A B : Type 0} where
  pub Keeps-and_then :
      (r : Result A) (f : A → Action B) → ((a : A) → Keeps (f a)) → Keeps (and_then r f)
  Keeps-and_then (ok a) f kf = kf a
  Keeps-and_then (err e) f kf = Keeps-throw e

  pub Keeps-bind :
      (m : Action A) (f : A → Action B) → Keeps m → ((a : A) → Keeps (f a)) → Keeps (m >>= f)
  Keeps-bind m f km kf = record {
    at = λ p k h e. (Keeps-and_then (m k h).0 f kf).at p k (m k h).1 (km.at p k h e);
  }

pub Keeps-for_each :
    {A : Type 0} (xs : List A) (f : A → Action (Unit {0}))
    → ((x : A) → Keeps (f x))
    → Keeps (for_each xs f)
unfolding for_each
Keeps-for_each [] f kf = Keeps-pure tt
Keeps-for_each (x ∷ xs) f kf =
    Keeps-bind (f x) (λ _. for_each xs f) (kf x) (λ _. Keeps-for_each xs f kf)

pub ruleset keeps_rules = (
  Keeps-pure, Keeps-throw, Keeps-ignore, Keeps-perform, Keeps-attempt, Keeps-drop_answer,
  Keeps-fetch, Keeps-ask, Keeps-acquire, Keeps-list_dir, Keeps-require, Keeps-when, Keeps-bind,
  Keeps-for_each,
)

-- A successful chain, taken apart.
pub >>=-eq-ok_act :
    {A B : Type 0} (m : Action A) (f : A → Action B) (k : Kernel) (h : History) {b : B}
    → ((m >>= f) k h).0 ≡ ok b
    → (a : A) × ((m k h).0 ≡ ok a) × ((m >>= f) k h ≡ f a k (m k h).1)
>>=-eq-ok_act {A} {B} m f k h {b} e = go (m k h) e
  where
    go :
        (r : Result A × History)
        → (and_then r.0 f k r.1).0 ≡ ok b
        → (a : A) × (r.0 ≡ ok a) × (and_then r.0 f k r.1 ≡ f a k r.1)
    go (ok a, h') e' = (a, refl, refl)
    go (err x, h') e' = cc

-- What the rest of a successful chain ends in, the chain ends in.
pub then_ok :
    {A B : Type 0} (Q : Result B × History → Type 0) (m : Action A) (f : A → Action B) (k : Kernel)
    (h : History) {b : B}
    → ((m >>= f) k h).0 ≡ ok b
    → ((a : A) → (m k h).0 ≡ ok a → (f a k (m k h).1).0 ≡ ok b → Q (f a k (m k h).1))
    → Q ((m >>= f) k h)
then_ok {A} {B} Q m f k h {b} e q = go (m k h) e q
  where
    go :
        (r : Result A × History)
        → (and_then r.0 f k r.1).0 ≡ ok b
        → ((a : A) → r.0 ≡ ok a → (f a k r.1).0 ≡ ok b → Q (f a k r.1))
        → Q (and_then r.0 f k r.1)
    go (ok a, h') e' q' = q' a refl e'
    go (err x, h') e' q' = cc

-- A call that an action begins with has happened after it.
pub first_occurs :
    {B : Type 0} (p : Call → Bool) (e : Error) (c : Call) (f : Unit {0} → Action B) (k : Kernel)
    (h : History)
    → p c ≡ true
    → ((a : Unit {0}) → Keeps (f a))
    → occurs p ((attempt e c >>= f) k h).1 ≡ true
unfolding attempt
first_occurs p e c f k h pc kf =
    (Keeps-and_then (attempt e c k h).0 f kf).at p k (c ∷ h) (unfold occurs in rw pc)
