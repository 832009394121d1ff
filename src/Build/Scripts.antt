-- ===== src/Build/Scripts.antt =====
-- What the set-up commands of a build run, and what a build that succeeds ends with.
use virturust.Base.{
  ◌≡◌, refl, sym, ap, ◌∙◌, Bool, List, [], ◌∷◌, ◌++◌, map, append_assoc, append-nil, Option, none,
  some, arith, ok, ℕ, panicked, null_byte, setup_failed,
}
use virturust.Text.{Text, codes}
use virturust.Text.Files.{FilePath}
use virturust.Sys.{History, Kernel, acquire, require, for_each, fork_chroot}
use virturust.Sys.Keeps.{>>=-eq-ok_act, then_ok}
use virturust.Build.Shell.{
  are_c_texts, chroot_env, shell_command, shell_argv, await_child, run_in_chroot_with_env,
  run_in_chroot,
}
use virturust.Build.Steps.{run_setup, run_setup_commands}

-- The scripts of the shells that were forked into a root, the first one first.
unfoldable pub scripts : History → List (FilePath × List Text)
scripts [] = []
scripts (fork_chroot rootfs argv env ∷ h) = scripts h ++ (rootfs, argv) ∷ []
scripts (c ∷ h) = scripts h

abbrev pub setup_script : FilePath → Text → FilePath × List Text
setup_script rootfs cmd = (rootfs, shell_argv (shell_command (codes "sh") (codes "-c" ∷ cmd ∷ [])))

scripts-await_child :
    (pid : Option ℕ) (k : Kernel) (h : History) → scripts (await_child pid k h).1 ≡ scripts h
unfolding await_child acquire require scripts
scripts-await_child none k h = refl
scripts-await_child (some pid) k h = ground arith

-- A command that ends normally in the root has forked its shell there, and none besides.
scripts-run_in_chroot :
    (rootfs cmd : Text) (args : List Text) (k : Kernel) (h : History) {b : Bool}
    → (run_in_chroot rootfs cmd args k h).0 ≡ ok b
    → scripts (run_in_chroot rootfs cmd args k h).1
      ≡ scripts h ++ (rootfs, shell_argv (shell_command cmd args)) ∷ []
unfolding run_in_chroot run_in_chroot_with_env require acquire scripts
scripts-run_in_chroot rootfs cmd args k h e =
    then_ok (λ r. scripts r.1 ≡ scripts h ++ (rootfs, shell_argv (shell_command cmd args)) ∷ [])
      (require panicked (are_c_texts (shell_command cmd args ∷ chroot_env []))) _ k h e
      (λ _ _ e1.
        then_ok (λ r. scripts r.1 ≡ scripts h ++ (rootfs, shell_argv (shell_command cmd args)) ∷ [])
          (require null_byte (are_c_texts (rootfs ∷ []))) _ k h e1
          (λ _ _ e2. scripts-await_child _ k _))

scripts-run_setup :
    (rootfs : FilePath) (cmd : Text) (k : Kernel) (h : History) {u : Unit {0}}
    → (run_setup rootfs cmd k h).0 ≡ ok u
    → scripts (run_setup rootfs cmd k h).1 ≡ scripts h ++ setup_script rootfs cmd ∷ []
unfolding run_setup require
scripts-run_setup rootfs cmd k h e =
    let (b, e1, e2) =
      >>=-eq-ok_act (run_in_chroot rootfs (codes "sh") (codes "-c" ∷ cmd ∷ []))
        (λ done. require setup_failed done) k h e in
    ap (λ r. scripts r.1) e2
    ∙ scripts-run_in_chroot rootfs (codes "sh") (codes "-c" ∷ cmd ∷ []) k h e1

-- Whatever the kernel answers: where the set-up succeeds it has forked one shell a command into the
-- root, in the order of the commands, and none besides.
pub scripts-run_setup_commands :
    (rootfs : FilePath) (cmds : List Text) (k : Kernel) (h : History) {u : Unit {0}}
    → (run_setup_commands rootfs cmds k h).0 ≡ ok u
    → scripts (run_setup_commands rootfs cmds k h).1 ≡ scripts h ++ map (setup_script rootfs) cmds
unfolding run_setup_commands for_each
scripts-run_setup_commands rootfs [] k h e = sym (append-nil (scripts h))
scripts-run_setup_commands rootfs (cmd ∷ cmds) k h e =
    let (u, e1, e2) =
      >>=-eq-ok_act (run_setup rootfs cmd) (λ _. for_each cmds (run_setup rootfs)) k h e in
    ap (λ r. scripts r.1) e2
    ∙ scripts-run_setup_commands rootfs cmds k (run_setup rootfs cmd k h).1
        (sym (ap (λ r. r.0) e2) ∙ e)
    ∙ ap (λ ss. ss ++ map (setup_script rootfs) cmds) (scripts-run_setup rootfs cmd k h e1)
    ∙ append_assoc (scripts h) (setup_script rootfs cmd ∷ []) (map (setup_script rootfs) cmds)
