-- ===== src/Container/Waiting.antt =====
-- The wait of `stop` ends within the timeout.
use virturust.Base.{
  ℕ, zero, suc, ◌+◌, ◌-◌, ◌*◌, ◌/◌, ◌≤◌, ◌<◌, ◌≡◌, refl, Bool, true, false, ◌∷◌, arith, ok, leb,
}
use virturust.Sys.{
  Call, History, Kernel, Action, pure, ◌>>=◌, ◌>>◌, perform, ask, drop_answer, clock, kill, sleep,
}
use virturust.Container.Metadata.{is_process_alive}
use virturust.Container.Stop.{force_kill, await_exit}

abbrev pub duration : Call → ℕ
duration (sleep n) = n
duration c = 0

-- The clock never goes back, and a sleep takes its time.
abbrev pub Ticks : Kernel → Type 0
Ticks k = (h : History) (c : Call) → k.number h clock + duration c ≤ k.number (c ∷ h) clock

force_kill_ok : (pid : ℕ) (k : Kernel) (h : History) → (force_kill pid k h).0 ≡ ok tt
unfolding force_kill drop_answer
force_kill_ok pid k h = refl

-- What follows the look at the clock.
by_clock :
    (rounds pid timeout start : ℕ) (late : Bool) (k : Kernel) (h : History)
    → (late ≡ false → (await_exit rounds pid timeout start k (sleep 200 ∷ h)).0 ≡ ok tt)
    → ((elim late as (λ _. Action (Unit {0})) [
      | true ↦ force_kill pid
      | false ↦ do drop_answer (sleep 200); await_exit rounds pid timeout start
    ])
        k h).0
      ≡ ok tt
unfolding drop_answer
by_clock rounds pid timeout start true k h rest = force_kill_ok pid k h
by_clock rounds pid timeout start false k h rest = rest refl

-- What follows the question whether the process is alive.
by_life :
    (rounds pid timeout start : ℕ) (alive : Bool) (k : Kernel) (h : History)
    → (leb timeout ((k.number h clock - start) / 1000) ≡ false
        → (await_exit rounds pid timeout start k (sleep 200 ∷ clock ∷ h)).0 ≡ ok tt)
    → ((elim alive as (λ _. Action (Unit {0})) [
      | false ↦ pure tt
      | true ↦ do
        now ← ask clock
        elim (leb timeout ((now - start) / 1000)) as (λ _. Action (Unit {0})) [
          | true ↦ force_kill pid
          | false ↦ do drop_answer (sleep 200); await_exit rounds pid timeout start
        ]
    ])
        k h).0
      ≡ ok tt
unfolding ask
by_life rounds pid timeout start false k h rest = refl
by_life rounds pid timeout start true k h rest =
    by_clock rounds pid timeout start (leb timeout ((k.number h clock - start) / 1000)) k
      (clock ∷ h) rest

not_late :
    (timeout now start : ℕ)
    → leb timeout ((now - start) / 1000) ≡ false
    → now < start + 1000 * timeout
not_late timeout now start e = ground arith

await_exit_ends :
    (rounds pid timeout start : ℕ) (k : Kernel) (h : History)
    → Ticks k
    → start + 1000 * timeout ≤ k.number h clock + 200 * rounds
    → (await_exit (suc rounds) pid timeout start k h).0 ≡ ok tt
unfolding await_exit is_process_alive perform
await_exit_ends zero pid timeout start k h ticks le =
    by_life zero pid timeout start (k.succeeds h (kill pid 0)) k (kill pid 0 ∷ h)
      (λ e. absurd (too_soon (not_late timeout _ start e) (ticks h (kill pid 0))))
  where
    too_soon :
        k.number (kill pid 0 ∷ h) clock < start + 1000 * timeout
        → k.number h clock + 0 ≤ k.number (kill pid 0 ∷ h) clock
        → ⊥
    too_soon lt tick = omega arith
await_exit_ends (suc rounds) pid timeout start k h ticks le =
    by_life (suc rounds) pid timeout start (k.succeeds h (kill pid 0)) k (kill pid 0 ∷ h) (λ e.
      await_exit_ends rounds pid timeout start k (sleep 200 ∷ clock ∷ kill pid 0 ∷ h) ticks (
        later (ticks h (kill pid 0)) (ticks (kill pid 0 ∷ h) clock)
          (ticks (clock ∷ kill pid 0 ∷ h) (sleep 200))))
  where
    later :
        k.number h clock + 0 ≤ k.number (kill pid 0 ∷ h) clock
        → k.number (kill pid 0 ∷ h) clock + 0 ≤ k.number (clock ∷ kill pid 0 ∷ h) clock
        → k.number (clock ∷ kill pid 0 ∷ h) clock + 200
          ≤ k.number (sleep 200 ∷ clock ∷ kill pid 0 ∷ h) clock
        → start + 1000 * timeout
          ≤ k.number (sleep 200 ∷ clock ∷ kill pid 0 ∷ h) clock + 200 * rounds
    later a b c = omega arith

-- Where the clock never goes back and a sleep takes its time, the wait of `stop` begun at the
-- time `start` ends without an error within five rounds a second of the timeout and one more,
-- whether or not the process ever goes away.
pub await_exit_ok :
    (pid timeout start : ℕ) (k : Kernel) (h : History)
    → Ticks k
    → start ≤ k.number h clock
    → (await_exit (suc (5 * timeout)) pid timeout start k h).0 ≡ ok tt
await_exit_ok pid timeout start k h ticks le =
    await_exit_ends (5 * timeout) pid timeout start k h ticks (omega arith)
