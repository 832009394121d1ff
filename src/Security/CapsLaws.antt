-- ===== src/Security/CapsLaws.antt =====
-- Which capabilities a container keeps.
use virturust.Base.{
  ℕ, zero, suc, ◌+◌, ◌/◌, ◌%◌, ◌^◌, ◌≤◌, ◌<◌, ◌≡◌, refl, ap, ◌∙◌, Bool, true, false, not, ◌&&◌, ◌∷◌,
  map, arith, leb, ◌==◌, ==_iff, if◌then◌else◌, Bool-cases, inl, inr, ok, err, capset_failed,
}
use virturust.Sys.{
  Call, History, Kernel, drop_answer, attempt, ambient_clear, bounding_drop, ambient_raise, capset,
}
use virturust.Sys.Trace.{onto, for_each-drop_answer}
use virturust.Security.Caps.{
  cap_last_cap, default_caps, contains, caps_to_drop, cap_mask, drop_bounding, raise_ambient,
  drop_capabilities,
}

-- The test holds for a number of numbers from the first on.
abbrev holds_from : (first count : ℕ) → (ℕ → Bool) → Bool
holds_from first zero test = true
holds_from first (suc count) test = test first && holds_from (first + 1) count test

holds_at :
    (first count : ℕ) (test : ℕ → Bool) (x : ℕ)
    → holds_from first count test ≡ true
    → first ≤ x
    → x < first + count
    → test x ≡ true
holds_at first zero test x h ge lt = absurd (omega arith)
holds_at first (suc count) test x h ge lt = elim (Bool-cases (x == first)) [
  | inl e ↦ ap test ((==_iff x first).0 e) ∙ (both (test first) h).0
  | inr n ↦ holds_at (first + 1) count test x (both (test first) h).1 (beyond n) (omega arith)
]
  where
    both : (a : Bool) {b : Bool} → (a && b) ≡ true → (a ≡ true) × (b ≡ true)
    both true h' = (refl, h')
    both false h' = cc

    beyond : (x == first) ≡ false → first + 1 ≤ x
    beyond n = ground arith

abbrev bit : ℕ → ℕ → ℕ
bit x i = x / 2 ^ i % 2

abbrev same : Bool → Bool → Bool
same true b = b
same false b = not b

same→eq : (a b : Bool) → same a b ≡ true → a ≡ b
same→eq true b h = ground arith
same→eq false b h = ground arith

contains-caps_to_drop_ge :
    (rounds cap c : ℕ) → cap + rounds ≤ c → contains (caps_to_drop rounds cap) c ≡ false
unfolding caps_to_drop contains
contains-caps_to_drop_ge zero cap c h = refl
contains-caps_to_drop_ge (suc rounds) cap c h =
    ground (arith, contains-caps_to_drop_ge rounds (cap + 1) c)

drop_table :
    holds_from 0 41 (λ c. same (contains (caps_to_drop 41 0) c) (not (contains default_caps c)))
    ≡ true
unfolding caps_to_drop contains
drop_table = refl

-- The bounding set loses exactly the capabilities up to the last one that are not default ones.
contains-caps_to_drop :
    (c : ℕ)
    → contains (caps_to_drop (cap_last_cap + 1) 0) c
      ≡ (leb c cap_last_cap && not (contains default_caps c))
contains-caps_to_drop c = elim (Bool-cases (leb c 40)) [
  | inl h ↦ rw h (
      same→eq _ _ (
        holds_at 0 41 (λ x. same (contains (caps_to_drop 41 0) x) (not (contains default_caps x))) c
          drop_table (omega arith) (ground arith)))
  | inr h ↦ rw h (contains-caps_to_drop_ge 41 0 c (ground arith))
]

-- The write of the mask, its low and its high word.
abbrev pub set_mask : Call
set_mask = capset (cap_mask % 2 ^ 32) (cap_mask / 2 ^ 32 % 2 ^ 32)

-- The ambient set is cleared and the bounding capabilities are dropped.
abbrev pub lowered : History → History
lowered h = onto (ambient_clear ∷ h) (map bounding_drop (caps_to_drop (cap_last_cap + 1) 0))

drop_bounding_lem :
    (k : Kernel) (h : History) → drop_bounding k (ambient_clear ∷ h) ≡ (ok tt, lowered h)
unfolding drop_bounding
drop_bounding_lem k h =
    for_each-drop_answer (caps_to_drop (cap_last_cap + 1) 0) bounding_drop k (ambient_clear ∷ h)

raise_ambient_lem :
    (k : Kernel) (h : History)
    → raise_ambient k h ≡ (ok tt, onto h (map ambient_raise default_caps))
unfolding raise_ambient
raise_ambient_lem k h = for_each-drop_answer default_caps ambient_raise k h

pub drop_capabilities_lem :
    (k : Kernel) (h : History)
    → drop_capabilities k h ≡ (
        if k.succeeds (lowered h) set_mask
        then (ok tt, onto (set_mask ∷ lowered h) (map ambient_raise default_caps))
        else (err capset_failed, set_mask ∷ lowered h))
unfolding drop_capabilities attempt drop_answer
drop_capabilities_lem k h =
    rw (drop_bounding_lem k h) (elim (Bool-cases (k.succeeds (lowered h) set_mask)) [
      | inl y ↦ rw y (raise_ambient_lem k (set_mask ∷ lowered h))
      | inr n ↦ rw n
    ])
