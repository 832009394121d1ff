-- ===== src/Namespace/Exec.antt =====
-- What has happened before the command of a container runs.
use virturust.Network.Outputs.{Keeps-output}
use virturust.Base.{
  ◌==◌, ==_refl, ◌%◌, ◌/◌, ◌^◌, ◌&&◌, ap, ℕ, ◌≡◌, refl, Bool, true, false, not, ◌||◌, List, [], ◌∷◌,
  Option, none, some, arith, Result, Bool-cases, inl, inr, map, Error, panicked, io_error,
  unknown_user, unknown_group,
}
use virturust.Text.{Text, is_empty}
use virturust.Text.Files.{lines}
use virturust.Text.Number.{parse_uint, u32_max}
use virturust.Text.Splitting.{split_once}
use virturust.Security.Caps.{
  cap_mask, default_caps, drop_bounding, raise_ambient, drop_capabilities,
}
use virturust.Security.CapsLaws.{set_mask, lowered, drop_capabilities_lem}
use virturust.Security.Filter.{apply_seccomp_filter}
use virturust.Security.Hardening.{mask_path, make_readonly, mask_paths}
use virturust.Sys.{
  Call, History, Kernel, Action, pure, throw, ◌>>◌, drop_answer, capset, no_new_privs, pivot_root,
  ambient_raise, require, setenv, fetch,
}
use virturust.Sys.Trace.{onto}
use virturust.Sys.Keeps.{first_occurs, occurs, Keeps, keeps_rules, Keeps-bind, Keeps-fetch}
use virturust.Namespace.User.{
  find_id, apply_user, apply_parts, switch, uid_of, gid_of, lookup_uid, lookup_gid, lift,
}
use virturust.Namespace.Child.{
  ChildArgs, has_null, setup_loopback, apply_env, set_surroundings, harden, restrict, redirect,
  check_args, prepare_exec,
}

-- The write of the default capabilities' mask.
abbrev pub is_capset : Call → Bool
is_capset (capset low high) = (low == cap_mask % 2 ^ 32) && (high == cap_mask / 2 ^ 32 % 2 ^ 32)
is_capset _ = false

abbrev pub is_no_new_privs : Call → Bool
is_no_new_privs no_new_privs = true
is_no_new_privs _ = false

abbrev pub is_pivot_root : Call → Bool
is_pivot_root (pivot_root new old) = true
is_pivot_root _ = false

pub Keeps-apply_seccomp_filter : Keeps apply_seccomp_filter
unfolding apply_seccomp_filter
Keeps-apply_seccomp_filter = search keeps_rules

Keeps-check_args : (args : List Text) → Keeps (check_args args)
unfolding check_args
Keeps-check_args [] = search keeps_rules
Keeps-check_args (cmd ∷ args) = search keeps_rules

Keeps-redirect : (slave log : Option ℕ) → Keeps (redirect slave log)
unfolding redirect
Keeps-redirect (some s) log = search keeps_rules depth 12
Keeps-redirect none (some fd) = search keeps_rules depth 8
Keeps-redirect none none = search keeps_rules

pub Keeps-prepare_exec : (args : ChildArgs) (log : Option ℕ) → Keeps (prepare_exec args log)
unfolding prepare_exec
Keeps-prepare_exec args log = search (keeps_rules, Keeps-check_args, Keeps-redirect) depth 12

Keeps-lift : (r : Result ℕ) → Keeps (lift r)
unfolding lift
Keeps-lift r = record { at = λ p k h e. e }

Keeps-mask_paths : Keeps mask_paths
unfolding mask_paths mask_path make_readonly
Keeps-mask_paths = search keeps_rules depth 12

Keeps-lookup :
    (e : Error) (o : Option Text) (f : Text → Result ℕ)
    → Keeps {A = ℕ} (elim o as (λ _. Action ℕ) [ none ↦ throw e | some text ↦ lift (f text) ])
Keeps-lookup e none f = search keeps_rules
Keeps-lookup e (some text) f = Keeps-lift (f text)

Keeps-lookup_uid : (u : Text) → Keeps (lookup_uid u)
unfolding lookup_uid
Keeps-lookup_uid u =
    Keeps-bind (fetch _) _ (Keeps-fetch _)
      (λ o. Keeps-lookup io_error o (λ t. find_id unknown_user u (lines t)))

Keeps-lookup_gid : (u : Text) → Keeps (lookup_gid u)
unfolding lookup_gid
Keeps-lookup_gid u =
    Keeps-bind (fetch _) _ (Keeps-fetch _)
      (λ o. Keeps-lookup io_error o (λ t. find_id unknown_group u (lines t)))

Keeps-parsed :
    (o : Option ℕ) (other : Action ℕ)
    → Keeps other
    → Keeps (elim o [ some n ↦ pure n | none ↦ other ])
Keeps-parsed none other k = k
Keeps-parsed (some n) other k = search keeps_rules

Keeps-uid_of : (u : Text) → Keeps (uid_of u)
unfolding uid_of
Keeps-uid_of u = Keeps-parsed (parse_uint u32_max u) (lookup_uid u) (Keeps-lookup_uid u)

Keeps-gid_of : (u : Text) → Keeps (gid_of u)
unfolding gid_of
Keeps-gid_of u = Keeps-parsed (parse_uint u32_max u) (lookup_gid u) (Keeps-lookup_gid u)

Keeps-switch : (u : ℕ) (g : Option ℕ) → Keeps (switch u g)
unfolding switch
Keeps-switch u none = search keeps_rules
Keeps-switch u (some g) = search keeps_rules

Keeps-apply_parts : (u : Text) (g : Option Text) → Keeps (apply_parts u g)
unfolding apply_parts
Keeps-apply_parts u none = search (keeps_rules, Keeps-uid_of, Keeps-switch)
Keeps-apply_parts u (some g) = search (keeps_rules, Keeps-uid_of, Keeps-gid_of, Keeps-switch)

Keeps-apply_user : (spec : Text) → Keeps (apply_user spec)
unfolding apply_user
Keeps-apply_user spec = Keeps-apply_parts _ _

Keeps-drop_capabilities : Keeps drop_capabilities
unfolding drop_capabilities drop_bounding raise_ambient
Keeps-drop_capabilities = search keeps_rules depth 8

pub Keeps-restrict : (args : ChildArgs) → Keeps (restrict args)
unfolding restrict harden
Keeps-restrict args =
    search
      (
        keeps_rules, Keeps-mask_paths, Keeps-apply_user, Keeps-drop_capabilities,
        Keeps-apply_seccomp_filter,
      )
      depth 8

Keeps-apply_env : (entry : Text) → Keeps (apply_env entry)
unfolding apply_env
Keeps-apply_env entry = go (split_once b'=' entry)
  where
    go :
        (o : Option (Text × Text))
        → Keeps (elim o [
          | none ↦ pure tt
          | some (key, value) ↦ do
            require panicked (not (is_empty key || has_null key || has_null value))
            drop_answer (setenv key value)
        ])
    go none = search keeps_rules
    go (some (key, value)) = search keeps_rules

pub Keeps-set_surroundings : (args : ChildArgs) → Keeps (set_surroundings args)
unfolding set_surroundings setup_loopback
Keeps-set_surroundings args = search (keeps_rules, Keeps-apply_env, Keeps-output) depth 10

occurs-onto :
    (p : Call → Bool) (cs : List Call) (h : History)
    → occurs p h ≡ true
    → occurs p (onto h cs) ≡ true
occurs-onto p [] h e = e
occurs-onto p (c ∷ cs) h e = occurs-onto p cs (c ∷ h) (unfold occurs in ground (arith, e))

is_capset-set_mask : is_capset set_mask ≡ true
is_capset-set_mask = rw (==_refl (cap_mask % 2 ^ 32), ==_refl (cap_mask / 2 ^ 32 % 2 ^ 32)) refl

mask_occurs : (h : History) → occurs is_capset (set_mask ∷ h) ≡ true
unfolding occurs
mask_occurs h = ap (λ b. b || occurs is_capset h) is_capset-set_mask

-- The mask of the default capabilities is written, whether or not the kernel takes it.
pub capset_occurs : (k : Kernel) (h : History) → occurs is_capset (drop_capabilities k h).1 ≡ true
capset_occurs k h =
    rw (drop_capabilities_lem k h) (elim (Bool-cases (k.succeeds (lowered h) set_mask)) [
      | inl y ↦ rw y (
          occurs-onto is_capset (map ambient_raise default_caps) (set_mask ∷ lowered h)
            (mask_occurs (lowered h)))
      | inr n ↦ rw n (mask_occurs (lowered h))
    ])

pub no_new_privs_occurs :
    (k : Kernel) (h : History) → occurs is_no_new_privs (apply_seccomp_filter k h).1 ≡ true
unfolding apply_seccomp_filter
no_new_privs_occurs k h =
    first_occurs is_no_new_privs _ no_new_privs _ k h refl (λ _. search keeps_rules)
