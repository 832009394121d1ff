-- ===== src/Forge/Sort.antt =====
-- What a call of `topo_sort` does, by one induction on the fuel.
use virturust.Base.{
  ℕ, zero, suc, ◌<◌, ◌≡◌, inl, inr, refl, sym, ◌∙◌, true, false, List, [], ◌∷◌, ◌++◌, arith, All,
  Bool-cases, subst, All-append, Error, Result, ok, err, ◌>>=◌, circular_dependency,
  unknown_service,
}
use virturust.Text.{Text, text_eq, text_eq→eq, text_eq_refl}
use virturust.Forge.{
  Services, State, contains, contains_key, deps_of, visit_deps, finish, topo_sort,
}
use virturust.Forge.Graph.{
  Depends, Reaches, direct, further, Within, DepsFirst, IsDistinct, contains-append,
  contains-remove, Within-refl, free, free_cong, free_cons-lt, Within-grows, DepsFirst-snoc,
  IsDistinct-snoc,
}

-- Between two calls: the visited services are those in the order, and the order is right so far.
pub record IsSound (services : Services) (st : State) : Type 0 where
  pub placed : (x : Text) → contains st.visited x ≡ contains st.order x
  pub deps_first : DepsFirst services [] st.order
  pub distinct : IsDistinct st.order
  pub known : All (λ x. contains_key services x ≡ true) st.order

-- What a finished call has done to the state: it kept the stack, and placed no service of the stack.
pub record Extends (st st' : State) : Type 0 where
  pub grows : (x : Text) → contains st.order x ≡ true → contains st'.order x ≡ true
  pub same_stack : (x : Text) → contains st'.visiting x ≡ contains st.visiting x
  pub kept_off :
      (x : Text) → contains st.visiting x ≡ true → contains st'.order x ≡ contains st.order x

-- When `topo_sort` may be called for a service: the stack leads to it, and the fuel is enough.
pub record IsReady (services : Services) (fuel : ℕ) (name : Text) (st : State) : Type 0 where
  pub fueled : free services st.visiting < fuel
  pub is_service : contains_key services name ≡ true
  pub sound : IsSound services st
  pub stack : (x : Text) → contains st.visiting x ≡ true → Reaches services x name

-- Why a sort fails.
abbrev pub Explains : Services → Error → Type 0
Explains services circular_dependency = (x : Text) × Reaches services x x
Explains services unknown_service =
    (x : Text) × (d : Text) × Depends services x d × (contains_key services d ≡ false)
Explains services _ = ⊥

-- The outcome of the calls that place the services `names`.
abbrev pub Outcome : Services → List Text → State → Result State → Type 0
Outcome services names st (ok st') = IsSound services st' × Extends st st' × Within names st'.order
Outcome services names st (err e) = Explains services e

Within-both : (xs ys set : List Text) → Within xs set → Within ys set → Within (xs ++ ys) set
Within-both [] ys set a b = b
Within-both (x ∷ xs) ys set (ax, a) b = (ax, Within-both xs ys set a b)

pub Extends-refl : (st : State) → Extends st st
Extends-refl st = record { grows = λ x h. h; same_stack = λ x. refl; kept_off = λ x h. refl }

Extends-trans : {s t u : State} → Extends s t → Extends t u → Extends s u
Extends-trans {s} {t} {u} a b = record {
  grows = λ x h. b.grows x (a.grows x h);
  same_stack = λ x. b.same_stack x ∙ a.same_stack x;
  kept_off = λ x h. b.kept_off x (a.same_stack x ∙ h) ∙ a.kept_off x h;
}

module _ (services : Services) where
  -- The outcome of a chain of two steps.
  pub Outcome-bind :
      (names more : List Text) (st : State) (r : Result State) (next : State → Result State)
      → Outcome services names st r
      → ((st' : State)
          → IsSound services st'
          → Extends st st'
          → Outcome services more st' (next st'))
      → Outcome services (names ++ more) st (r >>= next)
  Outcome-bind names more st (err e) next h k = h
  Outcome-bind names more st (ok st') next (sound, ext, within) k = go (next st') (k st' sound ext)
    where
      go : (r : Result State) → Outcome services more st' r → Outcome services (names ++ more) st r
      go (err e) o = o
      go (ok st'') (sound', ext', within') = (
        sound',
        Extends-trans ext ext',
        Within-both names more st''.order
            (Within-grows names st'.order st''.order ext'.grows within) within',
      )

  module _ (fuel : ℕ) (call : Text → State → Result State) (name : Text)
      (spec : (dep : Text) (st : State)
        → IsReady services fuel dep st
        → Outcome services (dep ∷ []) st (call dep st)) where
    -- The loop over the dependencies of `name`, whose entry is on the stack.
    visit_deps-Outcome :
        (deps : List Text) (st : State)
        → Within deps (deps_of services name)
        → free services st.visiting < fuel
        → IsSound services st
        → ((x : Text) (d : Text)
            → contains st.visiting x ≡ true
            → Depends services name d
            → Reaches services x d)
        → Outcome services deps st (visit_deps services call deps st)
    unfolding visit_deps
    visit_deps-Outcome [] st w f sound stack = (sound, Extends-refl st, tt)
    visit_deps-Outcome (dep ∷ deps) st (here, w) f sound stack =
        elim (Bool-cases (contains_key services dep)) [
          | inl k ↦ rw k (
              Outcome-bind (dep ∷ []) deps st (call dep st) (visit_deps services call deps)
                (spec dep st (record {
                  fueled = f;
                  is_service = k;
                  sound = sound;
                  stack = λ x h. stack x dep h here;
                }))
                (λ st' sound' ext.
                  visit_deps-Outcome deps st' w
                    (subst (λ n. n < fuel)
                      (sym (free_cong services st'.visiting st.visiting ext.same_stack)) f)
                    sound' (λ x d h. stack x d (sym (ext.same_stack x) ∙ h))))
          | inr n ↦ rw n (name, dep, here, n)
        ]

abbrev pub push_visiting : Text → State → State
push_visiting name st = record st { visiting = name ∷ st.visiting }

module _ (services : Services) (name : Text) (st : State)
    (unvisited : contains st.visited name ≡ false) (off_stack : contains st.visiting name ≡ false)
    (is_service : contains_key services name ≡ true) (before : IsSound services st) where
  -- The service is pushed once its dependencies are placed.
  finish-Outcome :
      (st' : State)
      → IsSound services st'
      → Extends (push_visiting name st) st'
      → Within (deps_of services name) st'.order
      → Outcome services (name ∷ []) st (ok (finish name st'))
  unfolding finish contains
  finish-Outcome st' sound ext within =
      let absent : contains st'.order name ≡ false =
        ext.kept_off name (rw (text_eq_refl name)) ∙ sym (before.placed name) ∙ unvisited in
      (
        record {
          placed = λ x. ground (arith, contains-append st'.order (name ∷ []) x, sound.placed x);
          deps_first = DepsFirst-snoc services [] st'.order name sound.deps_first within;
          distinct = IsDistinct-snoc st'.order name sound.distinct absent;
          known = All-append _ st'.order (name ∷ []) sound.known (is_service, tt);
        },
        record {
          grows = λ x h. ground (arith, contains-append st'.order (name ∷ []) x, ext.grows x h);
          same_stack = λ x. ground (
            arith,
            contains-remove name st'.visiting x,
            ext.same_stack x,
            text_eq→eq name x,
            off_stack,
          );
          kept_off = λ x h. ground (
            arith,
            contains-append st'.order (name ∷ []) x,
            ext.kept_off x,
            text_eq→eq name x,
            off_stack,
          );
        },
        (ground (arith, contains-append st'.order (name ∷ []) name, text_eq_refl name), tt),
      )

  bind_finish-Outcome :
      (r : Result State)
      → Outcome services (deps_of services name) (push_visiting name st) r
      → Outcome services (name ∷ []) st (r >>= λ st'. ok (finish name st'))
  bind_finish-Outcome (err e) h = h
  bind_finish-Outcome (ok st') (sound, ext, within) = finish-Outcome st' sound ext within

pub topo_sort-Outcome :
    (services : Services) (fuel : ℕ) (name : Text) (st : State)
    → IsReady services fuel name st
    → Outcome services (name ∷ []) st (topo_sort fuel services name st)
unfolding topo_sort
topo_sort-Outcome services zero name st ready = absurd (omega arith)
topo_sort-Outcome services (suc fuel) name st ready = elim (Bool-cases (contains st.visited name)) [
  | inl old ↦ rw old (ready.sound, Extends-refl st, (sym (ready.sound.placed name) ∙ old, tt))
  | inr new ↦ rw new (elim (Bool-cases (contains st.visiting name)) [
    | inl cyclic ↦ rw cyclic (name, ready.stack name cyclic)
    | inr off ↦ rw off (
        bind_finish-Outcome services name st new off ready.is_service ready.sound
          (visit_deps services (topo_sort fuel services) (deps_of services name)
            (push_visiting name st))
          (visit_deps-Outcome services fuel (topo_sort fuel services) name
            (topo_sort-Outcome services fuel) (deps_of services name) (push_visiting name st)
            (Within-refl (deps_of services name)) (shrink off) (push_sound ready.sound)
            (push_stack ready.stack)))
  ])
]
  where
    shrink : contains st.visiting name ≡ false → free services (name ∷ st.visiting) < fuel
    shrink off =
        omega (arith, free_cons-lt services st.visiting name ready.is_service off, ready.fueled)

    push_sound : IsSound services st → IsSound services (push_visiting name st)
    push_sound s = record {
      placed = s.placed;
      deps_first = s.deps_first;
      distinct = s.distinct;
      known = s.known;
    }

    push_stack :
        ((x : Text) → contains st.visiting x ≡ true → Reaches services x name)
        → (x d : Text) → contains (name ∷ st.visiting) x ≡ true
        → Depends services name d
        → Reaches services x d
    push_stack stack x d on dep = elim (Bool-cases (text_eq name x)) [
      | inl e ↦ subst (λ y. Reaches services y d) (text_eq→eq name x e) (direct dep)
      | inr n ↦ further (stack x (unfold contains in ground arith)) dep
    ]
