-- ===== src/Sys/Loops.antt =====
-- The calls of a loop whose rounds make known calls.
use virturust.Base.{◌≡◌, refl, sym, ap, ◌∙◌, List, [], ◌∷◌, ◌++◌, ok}
use virturust.Sys.{Call, History, Kernel, Action, for_each}
use virturust.Sys.Trace.{onto, onto-append}
use virturust.Sys.Keeps.{>>=-eq-ok_act}

module _ {A : Type 0} where
  -- The calls of all rounds.
  abbrev pub all_calls : (A → List Call) → List A → List Call
  all_calls f [] = []
  all_calls f (x ∷ xs) = f x ++ all_calls f xs

  -- A loop that succeeds makes the calls of its rounds, if each round that succeeds makes its own.
  pub for_each_calls :
      (xs : List A) (f : A → Action (Unit {0})) (c : A → List Call)
      → ((x : A) (k : Kernel) (h : History) (u : Unit {0})
          → (f x k h).0 ≡ ok u
          → (f x k h).1 ≡ onto h (c x))
      → (k : Kernel) (h : History) {u : Unit {0}} → (for_each xs f k h).0 ≡ ok u
      → (for_each xs f k h).1 ≡ onto h (all_calls c xs)
  unfolding for_each
  for_each_calls [] f c each k h e = refl
  for_each_calls (x ∷ xs) f c each k h e =
      let (u, e1, e2) = >>=-eq-ok_act (f x) (λ _. for_each xs f) k h e in
      ap (λ r. r.1) e2
      ∙ for_each_calls xs f c each k (f x k h).1 (sym (ap (λ r. r.0) e2) ∙ e)
      ∙ ap (λ h'. onto h' (all_calls c xs)) (each x k h u e1)
      ∙ sym (onto-append h (c x) (all_calls c xs))
