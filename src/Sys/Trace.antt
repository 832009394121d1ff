-- ===== src/Sys/Trace.antt =====
-- The calls of an action in the order in which they are made, and loops of calls.
use virturust.Base.{◌≡◌, refl, List, [], ◌∷◌, ◌++◌, map, ok}
use virturust.Sys.{Call, History, Kernel, drop_answer, for_each}

-- `onto h cs` is the history behind `h` once the calls `cs` are made in their order.
abbrev pub onto : History → List Call → History
onto h [] = h
onto h (c ∷ cs) = onto (c ∷ h) cs

pub onto-append : (h : History) (xs ys : List Call) → onto h (xs ++ ys) ≡ onto (onto h xs) ys
onto-append h [] ys = refl
onto-append h (c ∷ xs) ys = onto-append (c ∷ h) xs ys

pub for_each-drop_answer :
    {A : Type 0} (xs : List A) (c : A → Call) (k : Kernel) (h : History)
    → for_each xs (λ x. drop_answer (c x)) k h ≡ (ok tt, onto h (map c xs))
unfolding for_each drop_answer
for_each-drop_answer [] c k h = refl
for_each-drop_answer (x ∷ xs) c k h = for_each-drop_answer xs c k (c x ∷ h)
