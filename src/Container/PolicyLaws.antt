-- ===== src/Container/PolicyLaws.antt =====
-- Restart policies: their texts, and how often they restart.
use virturust.Base.{
  ℕ, zero, suc, ◌≤◌, ◌<◌, ◌≡◌, refl, ap, Bool, true, false, not, ◌&&◌, ◌||◌, ◌++◌, Option, none,
  some, arith, ◌==◌, ltb,
}
use virturust.Text.{Text, codes, text_eq, is_empty, strip_prefix}
use virturust.Text.Number.{u32_max, to_string, parse_uint-to_string}
use virturust.Container.Policy.{
  RestartPolicy, no, always, on_failure, max_retries, failure_policy, parse_restart_policy,
  should_restart,
}

-- The text of a policy, as it is given on the command line.
abbrev pub print_policy : RestartPolicy → Text
print_policy no = codes "no"
print_policy always = codes "always"
print_policy (on_failure max) = codes "on-failure:" ++ to_string max

-- The number in a policy fits a `u32`.
abbrev pub IsValid : RestartPolicy → Type 0
IsValid no = Unit {0}
IsValid always = Unit {0}
IsValid (on_failure max) = max ≤ u32_max

-- The text of a policy whose number fits a `u32` is read back as that policy.
pub parse_restart_policy-print_policy :
    (policy : RestartPolicy) → IsValid policy → parse_restart_policy (print_policy policy) ≡ policy
unfolding parse_restart_policy text_eq is_empty strip_prefix failure_policy max_retries
parse_restart_policy-print_policy no v = refl
parse_restart_policy-print_policy always v = refl
parse_restart_policy-print_policy (on_failure max) v =
    ap (λ o. on_failure (elim o as (λ _. ℕ) [ none ↦ 0 | some n ↦ n ]))
      (parse_uint-to_string u32_max max v)

-- How many restarts a policy allows at most, `none` if it does not limit them.
abbrev pub limit : RestartPolicy → Option ℕ
limit no = some 0
limit always = none
limit (on_failure zero) = none
limit (on_failure (suc max)) = some (suc max)

-- A policy with a limit restarts only below it.
pub should_restart-lt :
    (policy : RestartPolicy) (n exit count : ℕ)
    → limit policy ≡ some n
    → should_restart policy exit count ≡ true
    → count < n
unfolding should_restart
should_restart-lt no n exit count e r = cc
should_restart-lt always n exit count e r = cc
should_restart-lt (on_failure zero) n exit count e r = cc
should_restart-lt (on_failure (suc max)) n exit count e r =
    below (ap (λ o. elim o as (λ _. ℕ) [ none ↦ 0 | some m ↦ m ]) e) (last (not (exit == 0)) r)
  where
    last : (a : Bool) {b : Bool} → (a && b) ≡ true → b ≡ true
    last true h = h
    last false h = cc

    below : suc max ≡ n → (((suc max) == 0) || ltb count (suc max)) ≡ true → count < n
    below eq h = ground arith
