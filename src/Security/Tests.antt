-- ===== src/Security/Tests.antt =====
-- The filter, run by an interpreter of filters, and the theorems at examples.
use virturust.Base.{
  ℕ, zero, suc, ◌+◌, ◌≡◌, refl, ap, subst, sym, ◌∙◌, inl, inr, Bool-cases, List, [], ◌∷◌, none,
  some, arith, ◌==◌, if◌then◌else◌, get_elem?,
}
use virturust.Security.Caps.{contains}
use virturust.Security.Filter.{
  SockFilter, ld_abs, jeq, ret, build_filter, blocked_syscalls, seccomp_ret_eperm,
  seccomp_ret_allow,
}
use virturust.Security.FilterLaws.{Interpreter, eval-build_filter}

-- Runs the rest of a program behind the instructions to skip.
abbrev exec : List SockFilter → ℕ → ℕ → ℕ → ℕ
exec [] nr acc skip = 0
exec (i ∷ f) nr acc (suc skip) = exec f nr acc skip
exec (i ∷ f) nr acc zero =
    let loaded = exec f nr nr 0 in
    let next = exec f nr acc i.jf in
    let jumped = exec f nr acc i.jt in
    if i.code == ld_abs
    then loaded
    else if i.code == jeq
    then (if acc == i.k then jumped else next)
    else i.k

some_inj : {x i : SockFilter} → some x ≡ some i → x ≡ i
some_inj {x} e = ap (λ o. elim o as (λ _. SockFilter) [ none ↦ x | some y ↦ y ]) e

exec_load :
    (f : List SockFilter) (nr acc pc : ℕ) (i : SockFilter)
    → get_elem? f pc ≡ some i
    → i.code ≡ ld_abs
    → i.k ≡ 0
    → exec f nr acc pc ≡ exec f nr nr (pc + 1)
exec_load [] nr acc pc i e c z = cc
exec_load (x ∷ f) nr acc zero i e c z = rw (ap (λ y. y.code) (some_inj e) ∙ c) refl
exec_load (x ∷ f) nr acc (suc pc) i e c z =
    exec_load f nr acc pc i e c z ∙ ap (exec (x ∷ f) nr nr) moved
  where
    moved : suc (pc + 1) ≡ suc pc + 1
    moved = omega arith

abbrev jump : ℕ → ℕ → ℕ → SockFilter
jump jt jf k = record { code = jeq; jt = jt; jf = jf; k = k }

exec_here :
    (jt jf k : ℕ) (f : List SockFilter) (nr acc : ℕ)
    → exec (jump jt jf k ∷ f) nr acc 0
      ≡ exec (jump jt jf k ∷ f) nr acc (0 + 1 + (if acc == k then jt else jf))
exec_here jt jf k f nr acc = elim (Bool-cases (acc == k)) [
  | inl y ↦ rw y (ap (exec (jump jt jf k ∷ f) nr acc) (succ_eq jt))
  | inr n ↦ rw n (ap (exec (jump jt jf k ∷ f) nr acc) (succ_eq jf))
]
  where
    succ_eq : (n : ℕ) → suc n ≡ 1 + n
    succ_eq n = omega arith

exec_at_jump :
    (x : SockFilter) (f : List SockFilter) (nr acc : ℕ)
    → x.code ≡ jeq
    → exec (x ∷ f) nr acc 0 ≡ exec (x ∷ f) nr acc (0 + 1 + (if acc == x.k then x.jt else x.jf))
exec_at_jump x f nr acc c =
    subst
      (λ c'.
        let y : SockFilter = record { code = c'; jt = x.jt; jf = x.jf; k = x.k } in
        exec (y ∷ f) nr acc 0 ≡ exec (y ∷ f) nr acc (0 + 1 + (if acc == x.k then x.jt else x.jf)))
      (sym c) (exec_here x.jt x.jf x.k f nr acc)

exec_jump :
    (f : List SockFilter) (nr acc pc : ℕ) (i : SockFilter)
    → get_elem? f pc ≡ some i
    → i.code ≡ jeq
    → exec f nr acc pc ≡ exec f nr acc (pc + 1 + (if acc == i.k then i.jt else i.jf))
exec_jump [] nr acc pc i e c = cc
exec_jump (x ∷ f) nr acc zero i e c =
    subst
      (λ y.
        exec (x ∷ f) nr acc 0 ≡ exec (x ∷ f) nr acc (0 + 1 + (if acc == y.k then y.jt else y.jf)))
      (some_inj e) (exec_at_jump x f nr acc (ap (λ y. y.code) (some_inj e) ∙ c))
exec_jump (x ∷ f) nr acc (suc pc) i e c =
    exec_jump f nr acc pc i e c
    ∙ ap (exec (x ∷ f) nr acc) (moved (if acc == i.k then i.jt else i.jf))
  where
    moved : (n : ℕ) → suc (pc + 1 + n) ≡ suc pc + 1 + n
    moved n = omega arith

exec_return :
    (f : List SockFilter) (nr acc pc : ℕ) (i : SockFilter)
    → get_elem? f pc ≡ some i
    → i.code ≡ ret
    → exec f nr acc pc ≡ i.k
exec_return [] nr acc pc i e c = cc
exec_return (x ∷ f) nr acc zero i e c =
    rw (ap (λ y. y.code) (some_inj e) ∙ c) (ap (λ y. y.k) (some_inj e))
exec_return (x ∷ f) nr acc (suc pc) i e c = exec_return f nr acc pc i e c

abbrev interpreter : Interpreter
interpreter = record { eval = exec; loads = exec_load; jumps = exec_jump; returns = exec_return }

eval-build_filter_example :
    exec (build_filter blocked_syscalls) 169 0 0
    ≡ (if contains blocked_syscalls 169 then seccomp_ret_eperm else seccomp_ret_allow)
eval-build_filter_example = eval-build_filter interpreter blocked_syscalls 169 0 (omega arith)
