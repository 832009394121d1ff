-- ===== src/Namespace/Child.antt =====
-- `child_main` of src/namespace.rs. A run that ends in `ok` is one in which the command has taken
-- over the process.
use Prim.Native.Nat.{bit_or}
use virturust.Base.{
  ℕ, Bool, not, ◌||◌, List, [], ◌∷◌, Option, none, some, ltb, if◌then◌else◌, map, sync_failed,
  bad_hostname, hostname_failed, chdir_failed, no_command, exec_failed, null_byte, panicked,
  command_failed,
}
use virturust.Text.{Text, codes, is_empty}
use virturust.Text.Files.{FilePath}
use virturust.Text.Splitting.{split_once}
use virturust.Security.Caps.{contains, drop_capabilities}
use virturust.Security.Filter.{apply_seccomp_filter}
use virturust.Security.Hardening.{mask_paths, ms_rdonly, ms_remount, ms_bind}
use virturust.Network.Command.{output, started}
use virturust.Sys.{
  Action, pure, throw, ◌>>=◌, ◌>>◌, attempt, require, drop_answer, ignore, for_each, when, acquire,
  setsid, control_terminal, close, read_sync, sethostname, write_file, setenv, chdir, mount, dup2,
  exec,
}
use virturust.Config.{VolumeMount}
use virturust.Filesystem.{setup_container_fs}
use virturust.Namespace.User.{apply_user}

pub record ChildArgs : Type 0 where
  pub rootfs : FilePath
  pub hostname : Text
  pub command : List Text
  pub sync_pipe_rd : ℕ
  pub volumes : List VolumeMount
  pub env : List Text
  pub working_dir : Text
  pub user : Text
  pub network_mode : Text
  pub stdout_log : Text
  pub stderr_log : Text
  pub rootless : Bool
  pub privileged : Bool
  pub read_only : Bool
  pub pty_slave_fd : Option ℕ

abbrev pub has_null : Text → Bool
has_null s = contains s 0

-- `set_var` panics at an empty key and at a null byte; an entry with no `=` is passed over.
unfoldable pub apply_env : Text → Action (Unit {0})
apply_env entry = elim (split_once b'=' entry) [
  | none ↦ pure tt
  | some (key, value) ↦ do
    require panicked (not (is_empty key || has_null key || has_null value))
    drop_answer (setenv key value)
]

-- The log file is opened before the root changes; `none` if it is not wanted or cannot be created.
unfoldable pub open_log : Text → Action (Option ℕ)
open_log path = if is_empty path then pure none else acquire (write_file path [])

-- Only a program that cannot be started is an error.
unfoldable pub setup_loopback : Action (Unit {0})
setup_loopback = do
  o ← output (codes "ip") (map codes ("link" ∷ "set" ∷ "lo" ∷ "up" ∷ []))
  require command_failed (started o)

-- `child_main` up to the container's file system.
unfoldable pub await_parent : ChildArgs → Action (Option ℕ)
await_parent args = do
  attempt sync_failed read_sync
  drop_answer (close args.sync_pipe_rd)
  require bad_hostname (not (has_null args.hostname))
  attempt hostname_failed (sethostname args.hostname)
  open_log args.stdout_log

-- From the loopback interface to the read-only root.
unfoldable pub set_surroundings : ChildArgs → Action (Unit {0})
set_surroundings args = do
  ignore setup_loopback
  for_each args.env apply_env
  when (not (is_empty args.working_dir)) (attempt chdir_failed (chdir args.working_dir))
  when args.read_only
      (drop_answer (mount [] (codes "/") [] (bit_or ms_remount (bit_or ms_rdonly ms_bind))))

-- The two steps that follow the change of user.
unfoldable pub harden : Action (Unit {0})
harden = do ignore drop_capabilities; ignore apply_seccomp_filter

unfoldable pub restrict : ChildArgs → Action (Unit {0})
restrict args = do
  when (not args.privileged) (ignore mask_paths)
  when (not (is_empty args.user)) (apply_user args.user)
  when (not args.privileged) harden

-- The terminal's slave end, or else the log file, becomes the standard output and error.
unfoldable pub redirect : Option ℕ → Option ℕ → Action (Unit {0})
redirect (some slave) log = do
  drop_answer setsid
  drop_answer (control_terminal slave)
  drop_answer (dup2 slave 0)
  drop_answer (dup2 slave 1)
  drop_answer (dup2 slave 2)
  when (ltb 2 slave) (drop_answer (close slave))
redirect none (some fd) = do
  drop_answer (dup2 fd 1)
  drop_answer (dup2 fd 2)
  drop_answer (close fd)
redirect none none = pure tt

-- The arguments are checked for null bytes: an error for the first, a panic for the others.
unfoldable pub check_args : List Text → Action (Unit {0})
check_args [] = throw no_command
check_args (cmd ∷ args) = do
  require null_byte (not (has_null cmd))
  for_each args (λ a. require panicked (not (has_null a)))

-- The arguments, the environment and the standard streams of the command.
unfoldable pub prepare_exec : ChildArgs → Option ℕ → Action (Unit {0})
prepare_exec args log = do
  check_args args.command
  drop_answer
      (setenv (codes "PATH") (codes "/usr/local/sbin:/usr/local/bin:/usr/sbin:/usr/bin:/sbin:/bin"))
  drop_answer (setenv (codes "TERM") (codes "xterm-256color"))
  drop_answer (setenv (codes "ENV") (codes "/etc/profile.d/corten.sh"))
  redirect args.pty_slave_fd log

unfoldable pub child_main : ChildArgs → Action (Unit {0})
child_main args = do
  log ← await_parent args
  setup_container_fs args.rootfs args.volumes
  set_surroundings args
  restrict args
  prepare_exec args log
  attempt exec_failed (exec args.command)
