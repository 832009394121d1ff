-- ===== src/Sys/Only.antt =====
-- Actions that make calls of one kind only, by one rule for each way to build an action.
use virturust.Base.{◌≡◌, Bool, true, false, List, [], ◌∷◌, Result, ok, err, Error, if◌then◌else◌}
use virturust.Text.Files.{FilePath}
use virturust.Sys.{
  Call, History, Kernel, Action, pure, throw, ignore, and_then, ◌>>=◌, perform, attempt, require,
  drop_answer, fetch, ask, acquire, list_dir, read_dir, when, for_each,
}

-- The history grows by calls that pass a test.
pub data Grows (safe : Call → Bool) (h : History) : History → Type 0 where
  same : Grows safe h h
  more : {h' : History} (c : Call) → safe c ≡ true → Grows safe h h' → Grows safe h (c ∷ h')

pub Grows-trans :
    {safe : Call → Bool} {h h' h'' : History}
    → Grows safe h h'
    → Grows safe h' h''
    → Grows safe h h''
Grows-trans g same = g
Grows-trans g (more c s g') = more c s (Grows-trans g g')

-- What each such call keeps is kept.
pub Grows-keeps :
    {safe : Call → Bool} (Q : History → Type 0)
    → ((c : Call) (h : History) → safe c ≡ true → Q h → Q (c ∷ h))
    → {h h' : History} → Grows safe h h'
    → Q h
    → Q h'
Grows-keeps Q step same q = q
Grows-keeps Q step (more {h'} c s g) q = step c h' s (Grows-keeps Q step g q)

-- Whatever the kernel answers, the action makes such calls only.
pub record Only (safe : Call → Bool) {A : Type 0} (m : Action A) : Type 0 where
  pub at : (k : Kernel) (h : History) → Grows safe h (m k h).1

module _ (safe : Call → Bool) {A : Type 0} where
  pub Only-pure : (a : A) → Only safe (pure a)
  Only-pure a = record { at = λ k h. same }

  pub Only-throw : (e : Error) → Only safe (throw {A = A} e)
  Only-throw e = record { at = λ k h. same }

  pub Only-ignore : (m : Action A) → Only safe m → Only safe (ignore m)
  Only-ignore m om = record { at = om.at }

module _ (safe : Call → Bool) (c : Call) (s : safe c ≡ true) where
  pub Only-perform : Only safe (perform c)
  unfolding perform
  Only-perform = record { at = λ k h. more c s same }

  pub Only-attempt : (e : Error) → Only safe (attempt e c)
  unfolding attempt
  Only-attempt e = record { at = λ k h. more c s same }

  pub Only-drop_answer : Only safe (drop_answer c)
  unfolding drop_answer
  Only-drop_answer = record { at = λ k h. more c s same }

  pub Only-fetch : Only safe (fetch c)
  unfolding fetch
  Only-fetch = record { at = λ k h. more c s same }

  pub Only-ask : Only safe (ask c)
  unfolding ask
  Only-ask = record { at = λ k h. more c s same }

  pub Only-acquire : Only safe (acquire c)
  unfolding acquire
  Only-acquire = record { at = λ k h. more c s same }

pub Only-list_dir :
    (safe : Call → Bool) (p : FilePath) → safe (read_dir p) ≡ true → Only safe (list_dir p)
unfolding list_dir
Only-list_dir safe p s = record { at = λ k h. more (read_dir p) s same }

pub Only-require : (safe : Call → Bool) (e : Error) (b : Bool) → Only safe (require e b)
unfolding require
Only-require safe e b = record { at = λ k h. same }

pub Only-when :
    (safe : Call → Bool) (b : Bool) (m : Action (Unit {0})) → Only safe m → Only safe (when b m)
Only-when safe true m om = om
Only-when safe false m om = Only-pure safe tt

pub Only-if :
    (safe : Call → Bool) {A : Type 0} (b : Bool) (m n : Action A)
    → Only safe m
    → Only safe n
    → Only safe (if b then m else n)
Only-if safe true m n om on = om
Only-if safe false m n om on = on

module _ (safe : Call → Bool) {A B : Type 0} where
  pub Only-and_then :
      (r : Result A) (f : A → Action B) → ((a : A) → Only safe (f a)) → Only safe (and_then r f)
  Only-and_then (ok a) f of = of a
  Only-and_then (err e) f of = Only-throw safe e

  pub Only-bind :
      (m : Action A) (f : A → Action B)
      → Only safe m
      → ((a : A) → Only safe (f a))
      → Only safe (m >>= f)
  Only-bind m f om of = record {
    at = λ k h. Grows-trans (om.at k h) ((Only-and_then (m k h).0 f of).at k (m k h).1);
  }

pub Only-for_each :
    (safe : Call → Bool) {A : Type 0} (xs : List A) (f : A → Action (Unit {0}))
    → ((x : A) → Only safe (f x))
    → Only safe (for_each xs f)
unfolding for_each
Only-for_each safe [] f of = Only-pure safe tt
Only-for_each safe (x ∷ xs) f of =
    Only-bind safe (f x) (λ _. for_each xs f) (of x) (λ _. Only-for_each safe xs f of)

pub ruleset only_rules = (
  Only-pure, Only-throw, Only-ignore, Only-perform, Only-attempt, Only-drop_answer, Only-fetch,
  Only-ask, Only-acquire, Only-list_dir, Only-require, Only-when, Only-if, Only-bind, Only-for_each,
)
