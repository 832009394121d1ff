-- ===== src/Namespace/Hardened.antt =====
-- The command of a container never runs before the container's own root and restrictions are in place.
use virturust.Base.{◌≡◌, refl, Bool, true, false, not, List, ◌∷◌, Result, ok}
use virturust.Text.{Text, is_empty}
use virturust.Text.Files.{FilePath}
use virturust.Security.Caps.{drop_capabilities}
use virturust.Security.Hardening.{mask_paths}
use virturust.Sys.{History, Kernel, Action, ignore, attempt, when, exec}
use virturust.Sys.Keeps.{first_occurs, occurs, keeps_rules, then_ok}
use virturust.Config.{VolumeMount}
use virturust.Filesystem.{prepare_mounts, make_old_root, swap_root, setup_container_fs}
use virturust.Namespace.User.{apply_user}
use virturust.Namespace.Child.{
  ChildArgs, await_parent, set_surroundings, harden, restrict, prepare_exec, child_main,
}
use virturust.Namespace.Exec.{
  is_capset, is_no_new_privs, is_pivot_root, Keeps-prepare_exec, Keeps-restrict,
  Keeps-set_surroundings, Keeps-apply_seccomp_filter, capset_occurs, no_new_privs_occurs,
}

-- Both restrictions have been asked for.
abbrev Restricted : History → Type 0
Restricted h = (occurs is_capset h ≡ true) × (occurs is_no_new_privs h ≡ true)

harden-Restricted : (k : Kernel) (h : History) → Restricted (harden k h).1
unfolding harden
harden-Restricted k h = (
  Keeps-apply_seccomp_filter.at is_capset k (drop_capabilities k h).1 (capset_occurs k h),
  no_new_privs_occurs k (drop_capabilities k h).1,
)

when-true :
    (b : Bool) (m : Action (Unit {0})) (k : Kernel) (h : History)
    → b ≡ false
    → Restricted (m k h).1
    → Restricted (when (not b) m k h).1
when-true false m k h e r = r
when-true true m k h e r = cc

restrict-Restricted :
    (args : ChildArgs) (k : Kernel) (h : History)
    → args.privileged ≡ false
    → (restrict args k h).0 ≡ ok tt
    → Restricted (restrict args k h).1
unfolding restrict
restrict-Restricted args k h priv e =
    then_ok (λ r. Restricted r.1) (when (not args.privileged) (ignore mask_paths)) _ k h e
      (λ _ _ e'.
        then_ok (λ r. Restricted r.1) (when (not (is_empty args.user)) (apply_user args.user)) _ k _
          e' (λ _ _ _. when-true args.privileged harden k _ priv (harden-Restricted k _)))

swap_root-occurs :
    (rootfs : FilePath) (k : Kernel) (h : History)
    → occurs is_pivot_root (swap_root rootfs k h).1 ≡ true
unfolding swap_root
swap_root-occurs rootfs k h = first_occurs is_pivot_root _ _ _ k h refl (λ _. search keeps_rules)

setup_container_fs-occurs :
    (rootfs : FilePath) (volumes : List VolumeMount) (k : Kernel) (h : History)
    → (setup_container_fs rootfs volumes k h).0 ≡ ok tt
    → occurs is_pivot_root (setup_container_fs rootfs volumes k h).1 ≡ true
unfolding setup_container_fs
setup_container_fs-occurs rootfs volumes k h e =
    then_ok (λ r. occurs is_pivot_root r.1 ≡ true) (prepare_mounts rootfs volumes) _ k h e
      (λ _ _ e'.
        then_ok (λ r. occurs is_pivot_root r.1 ≡ true) (make_old_root rootfs) _ k _ e'
          (λ _ _ _. swap_root-occurs rootfs k _))

-- What has happened before the command took over.
abbrev pub Sealed : List Text → History → Type 0
Sealed command h =
    (rest : History) × (h ≡ exec command ∷ rest)
    × (occurs is_pivot_root rest ≡ true)
    × (occurs is_capset rest ≡ true)
    × (occurs is_no_new_privs rest ≡ true)

-- Whatever the kernel answers: where the start of a container that is not privileged ends in its
-- command taking over the process, that is the last call, and before it the calls were made that
-- change the root, write the mask of the default capabilities and give up new privileges.
pub child_main_hardens :
    (args : ChildArgs) (k : Kernel) (h : History)
    → args.privileged ≡ false
    → (child_main args k h).0 ≡ ok tt
    → Sealed args.command (child_main args k h).1
unfolding child_main attempt
child_main_hardens args k h priv e = then_ok Q (await_parent args) _ k h e (λ log _ e1.
    then_ok Q (setup_container_fs args.rootfs args.volumes) _ k _ e1 (λ _ mounted e2.
      then_ok Q (set_surroundings args) _ k _ e2 (λ _ _ e3.
        then_ok Q (restrict args) _ k _ e3 (λ _ restricted e4.
          then_ok Q (prepare_exec args log) _ k _ e4 (λ _ _ _.
            let r = restrict-Restricted args k _ priv restricted in
            let kept = Keeps-prepare_exec args log in
            (
              _,
              refl,
              kept.at is_pivot_root k _ (
                  (Keeps-restrict args).at is_pivot_root k _ (
                    (Keeps-set_surroundings args).at is_pivot_root k _
                      (setup_container_fs-occurs args.rootfs args.volumes k _ mounted))),
              kept.at is_capset k _ r.0,
              kept.at is_no_new_privs k _ r.1,
            ))))))
  where
    Q : Result (Unit {0}) × History → Type 0
    Q r = Sealed args.command r.1
