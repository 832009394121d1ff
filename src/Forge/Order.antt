-- ===== src/Forge/Order.antt =====
-- What `resolve_order` returns, and when it fails.
use virturust.Base.{
  ◌+◌, ◌≡◌, inl, inr, refl, sym, ap, ◌∙◌, Bool, true, false, ◌||◌, List, [], ◌∷◌, arith, All,
  length, Bool-cases, subst, Error, Result, ok, err, ◌>>=◌, circular_dependency, unknown_service,
}
use virturust.Text.{Text, text_eq, text_eq→eq, text_eq_refl}
use virturust.Forge.{
  Services, State, contains, contains_key, keys, start, topo_sort, sort_all, resolve_order,
}
use virturust.Forge.Graph.{Depends, Reaches, Within, DepsFirst, IsDistinct, free-le-length}
use virturust.Forge.Sort.{IsSound, Explains, Outcome, Outcome-bind, Extends-refl, topo_sort-Outcome}

contains_key-keys : (m : Services) (x : Text) → contains_key m x ≡ contains (keys m) x
unfolding contains_key contains
contains_key-keys [] x = refl
contains_key-keys ((k, s) ∷ m) x = ap (λ b. text_eq k x || b) (contains_key-keys m x)

module _ (services : Services) where
  -- Between the rounds of the outer loop the stack is empty.
  sort_all-Outcome :
      (names : List Text) (st : State)
      → All (λ x. contains_key services x ≡ true) names
      → IsSound services st
      → ((x : Text) → contains st.visiting x ≡ false)
      → Outcome services names st (sort_all (length services + 1) services names st)
  unfolding sort_all
  sort_all-Outcome [] st h sound empty = (sound, Extends-refl st, tt)
  sort_all-Outcome (name ∷ names) st (hn, hs) sound empty =
      Outcome-bind services (name ∷ []) names st (topo_sort (length services + 1) services name st)
        (sort_all (length services + 1) services names)
        (topo_sort-Outcome services (length services + 1) name st (record {
          fueled = omega (arith, free-le-length services st.visiting);
          is_service = hn;
          sound = sound;
          stack = λ x h. absurd (clash (empty x) h);
        }))
        (λ st' sound' ext. sort_all-Outcome names st' hs sound' (λ x. ext.same_stack x ∙ empty x))
    where
      clash : {b : Bool} → b ≡ false → b ≡ true → ⊥
      clash p q = cc

  keys_known :
      (m : Services)
      → ((x : Text) → contains (keys m) x ≡ true → contains_key services x ≡ true)
      → All (λ x. contains_key services x ≡ true) (keys m)
  unfolding contains
  keys_known [] h = tt
  keys_known ((k, s) ∷ m) h =
      (h k (ground (arith, text_eq_refl k)), keys_known m (λ x e. h x (ground (arith, e))))

  start-IsSound : IsSound services start
  start-IsSound = record { placed = λ x. refl; deps_first = tt; distinct = tt; known = tt }

  run_Outcome :
      Outcome services
        (keys services)
        start
        (sort_all (length services + 1) services (keys services) start)
  run_Outcome =
      sort_all-Outcome (keys services) start
        (keys_known services (λ x h. contains_key-keys services x ∙ h)) start-IsSound
        (λ x. unfold contains in refl)

-- The services of a starting order.
pub record IsStartOrder (services : Services) (order : List Text) : Type 0 where
  pub deps_first : DepsFirst services [] order
  pub distinct : IsDistinct order
  pub complete : (x : Text) → contains order x ≡ contains_key services x

Within-contains :
    (names order : List Text) (x : Text)
    → Within names order
    → contains names x ≡ true
    → contains order x ≡ true
unfolding contains
Within-contains [] order x w h = cc
Within-contains (y ∷ names) order x (wy, w) h = elim (Bool-cases (text_eq y x)) [
  | inl e ↦ subst (λ z. contains order z ≡ true) (text_eq→eq y x e) wy
  | inr n ↦ Within-contains names order x w (ground arith)
]

All-contains :
    (services : Services) (order : List Text) (x : Text)
    → All (λ y. contains_key services y ≡ true) order
    → contains order x ≡ true
    → contains_key services x ≡ true
unfolding contains
All-contains services [] x w h = cc
All-contains services (y ∷ order) x (wy, w) h = elim (Bool-cases (text_eq y x)) [
  | inl e ↦ subst (λ z. contains_key services z ≡ true) (text_eq→eq y x e) wy
  | inr n ↦ All-contains services order x w (ground arith)
]

eq_of_iff : (a b : Bool) → (a ≡ true → b ≡ true) → (b ≡ true → a ≡ true) → a ≡ b
eq_of_iff true b f g = sym (f refl)
eq_of_iff false true f g = g refl
eq_of_iff false false f g = refl

module _ (services : Services) where
  -- An order that is returned holds every service once, and each behind all that it depends on.
  pub resolve_order_sound :
      (order : List Text) → resolve_order services ≡ ok order → IsStartOrder services order
  unfolding resolve_order
  resolve_order_sound order h =
      go (sort_all (length services + 1) services (keys services) start) (run_Outcome services) h
    where
      go :
          (r : Result State)
          → Outcome services (keys services) start r
          → (r >>= λ st. ok st.order) ≡ ok order
          → IsStartOrder services order
      go (err e) o k = cc
      go (ok st) (sound, ext, within) k = subst (IsStartOrder services) (same k) (record {
        deps_first = sound.deps_first;
        distinct = sound.distinct;
        complete = λ x.
            eq_of_iff (contains st.order x) (contains_key services x)
              (All-contains services st.order x sound.known)
              (λ e.
                Within-contains (keys services) st.order x within
                  (sym (contains_key-keys services x) ∙ e));
      })
        where
          same : {a b : List Text} → ok a ≡ ok b → a ≡ b
          same e = cc

  -- A failure names its cause: a service that depends on itself, directly or through others, or a
  -- dependency that is no service. There is no other failure; the fuel never runs out.
  pub resolve_order_fails : (e : Error) → resolve_order services ≡ err e → Explains services e
  unfolding resolve_order
  resolve_order_fails e h =
      go (sort_all (length services + 1) services (keys services) start) (run_Outcome services) h
    where
      go :
          (r : Result State)
          → Outcome services (keys services) start r
          → (r >>= λ st. ok st.order) ≡ err e
          → Explains services e
      go (ok st) o k = cc
      go (err e') o k = subst (Explains services) (same k) o
        where
          same : ◌≡◌ {A = Result (List Text)} (err e') (err e) → e' ≡ e
          same p = cc

  Explains-fails :
      (e : Error)
      → ((x : Text) → ¬ Reaches services x x)
      → ((x d : Text) → Depends services x d → contains_key services d ≡ true)
      → ¬ Explains services e
  Explains-fails circular_dependency acyclic known (x, r) = acyclic x r
  Explains-fails unknown_service acyclic known (x, d, dep, n) = clash (known x d dep) n
    where
      clash : {b : Bool} → b ≡ true → b ≡ false → ⊥
      clash p q = cc
  Explains-fails _ acyclic known h = h

  -- Where no service depends on itself through any chain, and every dependency is a service, an
  -- order is returned.
  pub resolve_order_total :
      ((x : Text) → ¬ Reaches services x x)
      → ((x d : Text) → Depends services x d → contains_key services d ≡ true)
      → (order : List Text) × (resolve_order services ≡ ok order)
  resolve_order_total acyclic known = go (resolve_order services) refl
    where
      go :
          (r : Result (List Text))
          → resolve_order services ≡ r
          → (order : List Text) × (resolve_order services ≡ ok order)
      go (ok order) e = (order, e)
      go (err x) e = absurd (Explains-fails x acyclic known (resolve_order_fails x e))
