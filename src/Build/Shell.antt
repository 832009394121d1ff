-- ===== src/Build/Shell.antt =====
-- `run_in_chroot_with_env` of src/build.rs.
use virturust.Base.{
  ℕ, Bool, true, false, ◌||◌, ◌%◌, List, [], ◌∷◌, ◌++◌, map, Option, none, some, if◌then◌else◌,
  ◌==◌, fork_failed, abnormal_end, panicked, null_byte,
}
use virturust.Text.{Text, codes}
use virturust.Text.Files.{FilePath}
use virturust.Text.Case.{contains_char, join_with}
use virturust.Sys.{
  Action, pure, throw, ◌>>=◌, ◌>>◌, perform, require, drop_answer, acquire, setgid, setuid, chroot,
  chdir, execve, exit, fork_chroot, wait_child,
}
use virturust.Container.Round.{wait_status}

-- Whether an argument holds a blank or one of the five characters that are looked for.
unfoldable pub needs_quotes : Text → Bool
needs_quotes a =
    contains_char 32 a
    || (contains_char 39 a
        || (contains_char 34 a
            || (contains_char b'$' a || (contains_char 92 a || contains_char b'*' a))))

-- `a.replace('\'', "'\\''")`
unfoldable pub escape_quotes : Text → Text
escape_quotes [] = []
escape_quotes (c ∷ a) =
    let rest = escape_quotes a in if c == 39 then 39 ∷ 92 ∷ 39 ∷ 39 ∷ rest else c ∷ rest

unfoldable pub escape_arg : Text → Text
escape_arg a = if needs_quotes a then 39 ∷ (escape_quotes a ++ 39 ∷ []) else a

-- What the shell is given behind `-c`.
unfoldable pub shell_command : Text → List Text → Text
shell_command cmd [] = cmd
shell_command cmd (a ∷ args) = cmd ++ 32 ∷ join_with (codes " ") (map escape_arg (a ∷ args))

abbrev pub env_entry : Text × Text → Text
env_entry (k, v) = k ++ b'=' ∷ v

unfoldable pub chroot_env : List (Text × Text) → List Text
chroot_env env =
    codes "PATH=/usr/local/sbin:/usr/local/bin:/usr/sbin:/usr/bin:/sbin:/bin"
    ∷ codes "HOME=/root"
    ∷ map env_entry env

-- No text holds the character 0, which ends a text of C.
unfoldable pub are_c_texts : List Text → Bool
are_c_texts [] = true
are_c_texts (s ∷ ss) = let rest = are_c_texts ss in if contains_char 0 s then false else rest

abbrev pub shell_argv : Text → List Text
shell_argv script = codes "/bin/sh" ∷ codes "-c" ∷ script ∷ []

-- The child of the fork: a call that fails ends it with 127.
unfoldable pub end_unless : Bool → Action (Unit {0}) → Action (Unit {0})
end_unless true rest = rest
end_unless false rest = drop_answer (exit 127)

unfoldable pub chroot_child : FilePath → List Text → List Text → Action (Unit {0})
chroot_child rootfs argv env = do
  drop_answer (setgid 0)
  drop_answer (setuid 0)
  entered ← perform (chroot rootfs)
  end_unless entered (do
    moved ← perform (chdir (codes "/"))
    end_unless moved (do replaced ← perform (execve argv env); end_unless replaced (pure tt)))

-- The parent, which waits: whether the status is 0.
unfoldable pub await_child : Option ℕ → Action Bool
await_child none = throw fork_failed
await_child (some pid) = do
  status ← acquire (wait_child pid)
  require abnormal_end ((wait_status status % 128) == 0)
  pure (wait_status status == 0)

unfoldable pub run_in_chroot_with_env :
    FilePath → Text → List Text → List (Text × Text) → Action Bool
run_in_chroot_with_env rootfs cmd args env = do
  require panicked (are_c_texts (shell_command cmd args ∷ chroot_env env))
  require null_byte (are_c_texts (rootfs ∷ []))
  pid ← acquire (fork_chroot rootfs (shell_argv (shell_command cmd args)) (chroot_env env))
  await_child pid

unfoldable pub run_in_chroot : FilePath → Text → List Text → Action Bool
run_in_chroot rootfs cmd args = run_in_chroot_with_env rootfs cmd args []
