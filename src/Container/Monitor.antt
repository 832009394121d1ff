-- ===== src/Container/Monitor.antt =====
-- The loop of `run`: when it ends, and with what.
use virturust.Base.{
  ℕ, zero, suc, ◌+◌, ◌≤◌, ◌<◌, ◌^◌, ◌≡◌, ◌≢◌, refl, ap, sym, subst, ◌∙◌, Bool, true, false, Option,
  none, some, arith, Result, ok, err, if◌then◌else◌, ◌==◌,
}
use virturust.Text.Files.{FilePath}
use virturust.Sys.{History, Kernel, Action, pure, drop_answer, acquire, fork, ◌>>=◌, ◌>>◌}
use virturust.Sys.Keeps.{>>=-eq-ok_act}
use virturust.Config.{ContainerConfig, ContainerState}
use virturust.Cgroup.{Cgroup}
use virturust.Container.Policy.{
  RestartPolicy, no, always, on_failure, parse_restart_policy, should_restart, next_count,
}
use virturust.Container.PolicyLaws.{limit, should_restart-lt}
use virturust.Container.Metadata.{Host}
use virturust.Container.Setup.{Prepared, prepare}
use virturust.Container.Round.{run_round}
use virturust.Container.Run.{
  announce_restart, monitor, finish, conclude, supervise, after_fork, run_rounds,
}

next_count_small : (count : ℕ) → count + 1 < 2 ^ 32 → next_count count ≡ count + 1
next_count_small count lt = omega arith

-- What the end of the loop says of the exit code, by the policy.
abbrev pub Ends : RestartPolicy → ℕ → Type 0
Ends no exit = Unit {0}
Ends always exit = ⊥
Ends (on_failure zero) exit = exit ≡ 0
Ends (on_failure (suc max)) exit = Unit {0}

should_restart-Ends :
    (policy : RestartPolicy) (exit count : ℕ)
    → should_restart policy exit count ≡ false
    → Ends policy exit
unfolding should_restart
should_restart-Ends no exit count e = tt
should_restart-Ends always exit count e = cc
should_restart-Ends (on_failure zero) exit count e = ground arith
should_restart-Ends (on_failure (suc max)) exit count e = tt

if_ne :
    (b : Bool) (m n : Action (Option ℕ)) (k : Kernel) (h : History)
    → (m k h).0 ≢ ok none
    → (n k h).0 ≢ ok none
    → ((if b then m else n) k h).0 ≢ ok none
if_ne true m n k h x y = x
if_ne false m n k h x y = y

module _ {F : Type 0} (host : Host F) (config : ContainerConfig F) (detach : Bool) where
  -- What a round is followed by, where the rounds after it end.
  after_round :
      (rounds n count : ℕ) (root : FilePath) (cgroup : Option Cgroup) (policy : RestartPolicy)
      (done : ContainerState × ℕ) (again : Bool) (k : Kernel) (h : History)
      → limit policy ≡ some n
      → should_restart policy done.1 count ≡ again
      → (count < n
          → (h' : History)
          → (monitor host config detach rounds root cgroup policy done.0 (next_count count) k h').0
            ≢ ok none)
      → ((elim again as (λ _. Action (Option (ContainerState × ℕ))) [
        | false ↦ pure (some done)
        | true ↦ do
          announce_restart host config detach (next_count count)
          monitor host config detach rounds root cgroup policy done.0 (next_count count)
      ])
          k h).0
        ≢ ok none
  after_round rounds n count root cgroup policy done false k h lim s rest x = cc
  after_round rounds n count root cgroup policy done true k h lim s rest x =
      let (u, e3, e4) =
        >>=-eq-ok_act (announce_restart host config detach (next_count count)) _ k h x in
      rest (should_restart-lt policy n done.1 count lim s) _ (sym (ap (λ r. r.0) e4) ∙ x)

  monitor_ends :
      (rounds n count : ℕ) (root : FilePath) (cgroup : Option Cgroup) (policy : RestartPolicy)
      (state : ContainerState) (k : Kernel) (h : History)
      → limit policy ≡ some n
      → n < 2 ^ 32
      → count ≤ n
      → count + rounds ≡ n + 1
      → (monitor host config detach rounds root cgroup policy state count k h).0 ≢ ok none
  unfolding monitor
  monitor_ends zero n count root cgroup policy state k h lim small le eq e = absurd (omega arith)
  monitor_ends (suc rounds) n count root cgroup policy state k h lim small le eq e =
      let (done, e1, e2) =
        >>=-eq-ok_act (run_round host config detach root cgroup state count) _ k h e in
      after_round rounds n count root cgroup policy done (should_restart policy done.1 count) k _
        lim refl
        (λ lt h'.
          monitor_ends rounds n (next_count count) root cgroup policy done.0 k h' lim small
            (subst (λ c. c ≤ n) (sym (next_count_small count (omega arith))) (omega arith))
            (ap (λ c. c + rounds) (next_count_small count (omega arith)) ∙ omega arith))
        (sym (ap (λ r. r.0) e2) ∙ e)

  conclude_ends :
      (cgroup : Option Cgroup) (r : Option (ContainerState × ℕ)) (k : Kernel) (h : History)
      → r ≢ none
      → (conclude host config detach cgroup r k h).0 ≢ ok none
  unfolding conclude
  conclude_ends cgroup none k h ne e = ne refl
  conclude_ends cgroup (some (state, exit)) k h ne e =
      let (u, e1, e2) = >>=-eq-ok_act (finish host config detach cgroup state exit) _ k h e in
      absurd_some exit (sym (ap (λ r. r.0) e2) ∙ e)
    where
      absurd_some : (exit' : ℕ) → ◌≡◌ {A = Result (Option ℕ)} (ok (some exit')) (ok none) → ⊥
      absurd_some exit' x = cc

  supervise_ends :
      (n : ℕ) (p : Prepared) (k : Kernel) (h : History)
      → limit (parse_restart_policy config.restart_policy) ≡ some n
      → n < 2 ^ 32
      → (supervise host config detach (n + 1) p k h).0 ≢ ok none
  unfolding supervise
  supervise_ends n p k h lim small e =
      let (r, e1, e2) =
        >>=-eq-ok_act
          (monitor host config detach (n + 1) p.rootfs p.cgroup
            (parse_restart_policy config.restart_policy) p.state 0)
          _ k h e in
      conclude_ends p.cgroup r k _
        (λ none_.
          monitor_ends (n + 1) n 0 p.rootfs p.cgroup (parse_restart_policy config.restart_policy)
            p.state k h lim small (omega arith) (omega arith) (e1 ∙ ap ok none_))
        (sym (ap (λ x. x.0) e2) ∙ e)

  after_fork_ends :
      (n : ℕ) (p : Prepared) (forked : Option ℕ) (k : Kernel) (h : History)
      → limit (parse_restart_policy config.restart_policy) ≡ some n
      → n < 2 ^ 32
      → (after_fork host config detach (n + 1) p forked k h).0 ≢ ok none
  unfolding after_fork drop_answer
  after_fork_ends n p none k h lim small = λ e. cc
  after_fork_ends n p (some pid) k h lim small =
      if_ne (pid == 0) _ _ k h (supervise_ends n p k _ lim small) (λ e. cc)

  -- Whatever the kernel answers: a run whose restart policy allows at most n restarts, fewer
  -- than 2 ^ 32, is over after n + 1 rounds, with an exit code or with an error, both in the
  -- foreground and detached.
  pub run_rounds_ends :
      (n : ℕ) (k : Kernel) (h : History)
      → limit (parse_restart_policy config.restart_policy) ≡ some n
      → n < 2 ^ 32
      → (run_rounds host config detach (n + 1) k h).0 ≢ ok none
  unfolding run_rounds
  run_rounds_ends n k h lim small e =
      let (p, e1, e2) = >>=-eq-ok_act (prepare host config) _ k h e in
      by_mode detach p _ (sym (ap (λ r. r.0) e2) ∙ e)
    where
      by_mode :
          (b : Bool) (p : Prepared) (h' : History)
          → ((elim b as (λ _. Action (Option ℕ)) [
            | false ↦ supervise host config detach (n + 1) p
            | true ↦ acquire fork >>= after_fork host config detach (n + 1) p
          ])
              k h').0
            ≢ ok none
      by_mode false p h' x = supervise_ends n p k h' lim small x
      by_mode true p h' x =
          let (forked, e3, e4) =
            >>=-eq-ok_act (acquire fork) (after_fork host config detach (n + 1) p) k h' x in
          after_fork_ends n p forked k _ lim small (sym (ap (λ r. r.0) e4) ∙ x)

  stops_after :
      (rounds count : ℕ) (root : FilePath) (cgroup : Option Cgroup) (policy : RestartPolicy)
      (done : ContainerState × ℕ) (again : Bool) (k : Kernel) (h : History)
      {last : ContainerState × ℕ}
      → should_restart policy done.1 count ≡ again
      → ((h' : History)
          → (monitor host config detach rounds root cgroup policy done.0 (next_count count) k h').0
            ≡ ok (some last)
          → Ends policy last.1)
      → ((elim again as (λ _. Action (Option (ContainerState × ℕ))) [
        | false ↦ pure (some done)
        | true ↦ do
          announce_restart host config detach (next_count count)
          monitor host config detach rounds root cgroup policy done.0 (next_count count)
      ])
          k h).0
        ≡ ok (some last)
      → Ends policy last.1
  stops_after rounds count root cgroup policy done false k h {last} s rest x =
      subst (λ d. Ends policy d.1) same (should_restart-Ends policy done.1 count s)
    where
      same : done ≡ last
      same =
          ap
            (λ r. elim r as (λ _. ContainerState × ℕ) [
              | ok o ↦ elim o as (λ _. ContainerState × ℕ) [ none ↦ done | some d ↦ d ]
              | err y ↦ done
            ])
            x
  stops_after rounds count root cgroup policy done true k h s rest x =
      let (u, e3, e4) =
        >>=-eq-ok_act (announce_restart host config detach (next_count count)) _ k h x in
      rest _ (sym (ap (λ r. r.0) e4) ∙ x)

  -- Whatever the kernel answers and however often the loop goes round: where it ends with an exit
  -- code, the policy is not to restart always, and if it is to restart on failures without a limit
  -- then the exit code is 0.
  pub monitor_stops :
      (rounds count : ℕ) (root : FilePath) (cgroup : Option Cgroup) (policy : RestartPolicy)
      (state : ContainerState) (k : Kernel) (h : History) {last : ContainerState × ℕ}
      → (monitor host config detach rounds root cgroup policy state count k h).0 ≡ ok (some last)
      → Ends policy last.1
  unfolding monitor
  monitor_stops zero count root cgroup policy state k h e = cc
  monitor_stops (suc rounds) count root cgroup policy state k h e =
      let (done, e1, e2) =
        >>=-eq-ok_act (run_round host config detach root cgroup state count) _ k h e in
      stops_after rounds count root cgroup policy done (should_restart policy done.1 count) k _ refl
        (λ h' e'. monitor_stops rounds (next_count count) root cgroup policy done.0 k h' e')
        (sym (ap (λ r. r.0) e2) ∙ e)
