-- ===== src/Security/FilterLaws.antt =====
-- What the filter answers for each system call.
use virturust.Base.{
  ℕ, zero, suc, ◌+◌, ◌%◌, ◌<◌, ◌≡◌, refl, List, [], ◌∷◌, ◌++◌, append_assoc, some, arith, ◌==◌,
  if◌then◌else◌, length, get_elem?, length-append, Bool-cases, inl, inr, ◌∙◌, sym, ap,
}
use virturust.Security.Caps.{contains}
use virturust.Security.Filter.{
  SockFilter, ld_abs, jeq, ret, seccomp_ret_allow, seccomp_ret_eperm, load_nr, check, give, checks,
  build_filter,
}

-- The kernel's interpreter of filters, by the three rules that the filter relies on: what it
-- returns for a call number, from an accumulator and a position in the program.
pub record Interpreter : Type 0 where
  pub eval : (program : List SockFilter) (nr acc pc : ℕ) → ℕ
  pub loads :
      (f : List SockFilter) (nr acc pc : ℕ) (i : SockFilter)
      → get_elem? f pc ≡ some i
      → i.code ≡ ld_abs
      → i.k ≡ 0
      → eval f nr acc pc ≡ eval f nr nr (pc + 1)
  pub jumps :
      (f : List SockFilter) (nr acc pc : ℕ) (i : SockFilter)
      → get_elem? f pc ≡ some i
      → i.code ≡ jeq
      → eval f nr acc pc ≡ eval f nr acc (pc + 1 + (if acc == i.k then i.jt else i.jf))
  pub returns :
      (f : List SockFilter) (nr acc pc : ℕ) (i : SockFilter)
      → get_elem? f pc ≡ some i
      → i.code ≡ ret
      → eval f nr acc pc ≡ i.k

get_elem?-append :
    (pre : List SockFilter) (x : SockFilter) (post : List SockFilter) (pc : ℕ)
    → pc ≡ length pre
    → get_elem? (pre ++ x ∷ post) pc ≡ some x
get_elem?-append [] x post zero e = refl
get_elem?-append [] x post (suc pc) e = absurd (omega arith)
get_elem?-append (y ∷ pre) x post zero e = absurd (omega arith)
get_elem?-append (y ∷ pre) x post (suc pc) e = get_elem?-append pre x post pc (omega arith)

length-checks : (blocked : List ℕ) → length (checks blocked) ≡ length blocked
unfolding checks
length-checks [] = refl
length-checks (nr ∷ rest) = ap suc (length-checks rest)

abbrev verdicts : List SockFilter
verdicts = give seccomp_ret_allow ∷ give seccomp_ret_eperm ∷ []

module _ (m : Interpreter) (nr : ℕ) where
  open m use {eval, loads, jumps, returns}

  -- At the first verdict the call is allowed, at the second it is refused.
  eval_allow :
      (pre : List SockFilter) (pc : ℕ)
      → pc ≡ length pre
      → eval (pre ++ verdicts) nr nr pc ≡ seccomp_ret_allow
  eval_allow pre pc e =
      returns (pre ++ verdicts) nr nr pc (give seccomp_ret_allow)
        (get_elem?-append pre (give seccomp_ret_allow) (give seccomp_ret_eperm ∷ []) pc e) refl

  eval_deny :
      (pre : List SockFilter) (pc : ℕ)
      → pc ≡ length pre + 1
      → eval (pre ++ verdicts) nr nr pc ≡ seccomp_ret_eperm
  eval_deny pre pc e =
      returns (pre ++ verdicts) nr nr pc (give seccomp_ret_eperm)
        (rw (sym (append_assoc pre (give seccomp_ret_allow ∷ []) (give seccomp_ret_eperm ∷ []))) (
          get_elem?-append (pre ++ give seccomp_ret_allow ∷ []) (give seccomp_ret_eperm) [] pc
            (omega (arith, length-append pre (give seccomp_ret_allow ∷ [])))))
        refl

  -- One check: it jumps to the refusal, or falls through to what is behind it.
  eval_check :
      (pre post : List SockFilter) (b left pc : ℕ)
      → left < 256
      → pc ≡ length pre
      → eval (pre ++ check b left ∷ post) nr nr pc
        ≡ eval (pre ++ check b left ∷ post) nr nr (pc + 1 + (if nr == b then left else 0))
  eval_check pre post b left pc h e =
      let fits : left % 256 ≡ left = omega arith in
      jumps (pre ++ check b left ∷ post) nr nr pc (check b left)
        (get_elem?-append pre (check b left) post pc e) refl
      ∙ ap
          (λ (l : ℕ). eval (pre ++ check b left ∷ post) nr nr (pc + 1 + (if nr == b then l else 0)))
          fits

  eval_checks :
      (pre : List SockFilter) (blocked : List ℕ) (pc : ℕ)
      → length blocked < 256
      → pc ≡ length pre
      → eval (pre ++ (checks blocked ++ verdicts)) nr nr pc
        ≡ (if contains blocked nr then seccomp_ret_eperm else seccomp_ret_allow)
  unfolding checks contains
  eval_checks pre [] pc h e = eval_allow pre pc e
  eval_checks pre (b ∷ rest) pc h e =
      eval_check pre (checks rest ++ verdicts) b (length (b ∷ rest)) pc h e
      ∙ branch (
          eval_checks (pre ++ check b (length (b ∷ rest)) ∷ []) rest (pc + 1 + 0) (omega arith)
            (omega (arith, length-append pre (check b (length (b ∷ rest)) ∷ []))))
    where
      here : SockFilter
      here = check b (length (b ∷ rest))

      branch :
          eval ((pre ++ here ∷ []) ++ (checks rest ++ verdicts)) nr nr (pc + 1 + 0)
            ≡ (if contains rest nr then seccomp_ret_eperm else seccomp_ret_allow)
          → eval
              (pre ++ here ∷ (checks rest ++ verdicts))
              nr
              nr
              (pc + 1 + (if nr == b then length (b ∷ rest) else 0))
            ≡ (if contains (b ∷ rest) nr then seccomp_ret_eperm else seccomp_ret_allow)
      branch ih = elim (Bool-cases (nr == b)) [
        | inl y ↦ rw y (
            let d =
              eval_deny (pre ++ here ∷ checks rest) (pc + 1 + length (b ∷ rest))
                (omega (arith, length-append pre (here ∷ checks rest), length-checks rest)) in
            ground (arith, d, append_assoc pre (here ∷ checks rest) verdicts))
        | inr n ↦ rw n (ground (arith, ih, append_assoc pre (here ∷ []) (checks rest ++ verdicts)))
      ]

-- Run by any interpreter with these rules, the filter for at most 255 calls refuses each of them
-- with EPERM and allows every other call.
pub eval-build_filter :
    (m : Interpreter) (blocked : List ℕ) (nr acc : ℕ)
    → length blocked < 256
    → m.eval (build_filter blocked) nr acc 0
      ≡ (if contains blocked nr then seccomp_ret_eperm else seccomp_ret_allow)
unfolding build_filter
eval-build_filter m blocked nr acc h =
    m.loads (load_nr ∷ (checks blocked ++ verdicts)) nr acc 0 load_nr refl refl refl
    ∙ eval_checks m nr (load_nr ∷ []) blocked 1 h refl
