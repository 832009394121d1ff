-- ===== src/Sys.antt =====
-- The calls that the program makes of the kernel, the file system and other programs. What they
-- answer is not the program's: a `Kernel` chooses each answer, and may look at all calls before it.
pub mod Trace
pub mod Keeps
pub mod Store
pub mod Loops
pub mod Only
pub mod Obliging
use virturust.Base.{
  ℕ, Bool, true, false, List, [], ◌∷◌, Option, none, some, Error, Result, ok, err, guard,
  if◌then◌else◌,
}
use virturust.Text.{Text}
use virturust.Text.Files.{FilePath}

pub data Call : Type 0 where
  -- another program, with its arguments
  run : Text → List Text → Call
  -- files
  write_file : FilePath → Text → Call
  read_file exists create_dir_all remove_dir remove_dir_all remove_file : FilePath → Call
  copy_file symlink : FilePath → FilePath → Call
  -- mounts: source, target, type, flags
  mount : Text → FilePath → Text → ℕ → Call
  umount : FilePath → Call
  pivot_root : FilePath → FilePath → Call
  -- path, mode, major, minor
  mknod : FilePath → ℕ → ℕ → ℕ → Call
  chdir : FilePath → Call
  -- security: effective, permitted and inheritable, low and high words alike
  ambient_clear no_new_privs : Call
  bounding_drop ambient_raise : ℕ → Call
  capset : (low high : ℕ) → Call
  -- the instructions as quadruples of numbers
  seccomp : List (ℕ × ℕ × ℕ × ℕ) → Call
  -- processes
  setgid setuid : ℕ → Call
  sethostname : Text → Call
  setenv : Text → Text → Call
  exec : List Text → Call
  fork pipe getuid getgid : Call
  clone : (flags : ℕ) → Call
  read_sync : Call
  signal_child : Call
  wait_child : ℕ → Call
  kill : (pid signal : ℕ) → Call
  print : Text → Call
  -- milliseconds
  sleep : ℕ → Call
  -- a monotonic clock in milliseconds, and the time of day in seconds
  clock unix_time errno : Call
  dup2 : (from to : ℕ) → Call
  setsid : Call
  -- a UDP socket on an address
  bind_udp : Text → Call
  control_terminal close : (fd : ℕ) → Call
  -- a client for requests, a request of an address that is answered with success, and the bytes of the answer
  http_client : Call
  download : Text → Call
  body : Text → Call
  -- an archive that is unpacked by a library: its bytes and the directory
  unpack_tar_gz : (ownerships : Bool) → Text → FilePath → Call
  -- a program that is fed bytes: its start, the bytes, its end with status 0
  spawn : Text → List Text → Call
  feed : Text → Call
  await_program : Call
  -- the code with which the program ended, if no signal ended it
  exit_code : Call
  -- a fork whose child becomes root, changes its root and executes the arguments with the
  -- environment
  fork_chroot : FilePath → List Text → List Text → Call
  chroot : FilePath → Call
  exit : ℕ → Call
  execve : List Text → List Text → Call
  -- files once more: a directory's entries, a test, a new file, its length
  read_dir is_dir is_file create_file open_file file_len read_link permissions : FilePath → Call
  set_permissions seek_end read_line modified : FilePath → Call
  -- a file from a position to its end, of which the lines that are no text are left out
  read_from : FilePath → ℕ → Call
  set_len : FilePath → ℕ → Call
  -- the ids of the process, and an id for a container
  geteuid setresgid setresuid new_uuid : Call

-- The calls so far, the last one first.
abbrev pub History : Type 0
History = List Call

pub data FileKind : Type 0 where
  directory link regular : FileKind

-- What a directory lists: a name, and its kind if that can be found out.
pub record DirEntry : Type 0 where
  pub name : Text
  pub kind : Option FileKind

pub record Kernel : Type 0 where
  -- whether a call succeeds
  pub succeeds : History → Call → Bool
  -- the text that a call delivers, if it succeeds
  pub contents : History → Call → Option Text
  -- the number that a call delivers
  pub number : History → Call → ℕ
  -- the entries of a directory that can be read, each of which may fail to be read
  pub entries : History → FilePath → List (Option DirEntry)

abbrev pub Action : Type 0 → Type 0
Action A = Kernel → History → Result A × History

module _ {A : Type 0} where
  abbrev pub pure : A → Action A
  pure a k h = (ok a, h)

  abbrev pub throw : Error → Action A
  throw e k h = (err e, h)

  -- `.ok()`: the error is dropped.
  abbrev pub ignore : Action A → Action (Unit {0})
  ignore m k h = (ok tt, (m k h).1)

-- The question mark on a result.
abbrev pub of_result : {A : Type 0} → Result A → Action A
of_result r k h = (r, h)

-- `if let Ok(a) = m`
abbrev pub ok_of : {A : Type 0} → Action A → Action (Option A)
ok_of m k h = (ok (elim (m k h).0 [ ok a ↦ some a | err e ↦ none ]), (m k h).1)

module _ {A B : Type 0} where
  abbrev pub and_then : Result A → (A → Action B) → Action B
  and_then (ok a) f = f a
  and_then (err e) f = throw e

  infixl 5 ◌>>=◌ ◌>>◌
  abbrev pub ◌>>=◌ : Action A → (A → Action B) → Action B
  ◌>>=◌ m f k h = and_then (m k h).0 f k (m k h).1

  abbrev pub ◌>>◌ : Action A → Action B → Action B
  ◌>>◌ m n = m >>= λ _. n

-- A call whose success the program looks at.
unfoldable pub perform : Call → Action Bool
perform c k h = (ok (k.succeeds h c), c ∷ h)

-- A call whose failure is the given error.
unfoldable pub attempt : Error → Call → Action (Unit {0})
attempt e c k h = (guard e (k.succeeds h c), c ∷ h)

-- A test that the program makes itself.
unfoldable pub require : Error → Bool → Action (Unit {0})
require e b k h = (guard e b, h)

-- A call whose answer the program drops.
unfoldable pub drop_answer : Call → Action (Unit {0})
drop_answer c k h = (ok tt, c ∷ h)

unfoldable pub fetch : Call → Action (Option Text)
fetch c k h = (ok (k.contents h c), c ∷ h)

unfoldable pub ask : Call → Action ℕ
ask c k h = (ok (k.number h c), c ∷ h)

-- The entries of a directory, if it can be read.
unfoldable pub list_dir : FilePath → Action (Option (List (Option DirEntry)))
list_dir p k h =
    (ok (if k.succeeds h (read_dir p) then some (k.entries h p) else none), read_dir p ∷ h)

-- A call that delivers a number if it succeeds.
unfoldable pub acquire : Call → Action (Option ℕ)
acquire c k h = (ok (if k.succeeds h c then some (k.number h c) else none), c ∷ h)

abbrev pub when : Bool → Action (Unit {0}) → Action (Unit {0})
when true m = m
when false m = pure tt

module _ {A : Type 0} where
  -- `for x in xs { … }`
  unfoldable pub for_each : List A → (A → Action (Unit {0})) → Action (Unit {0})
  for_each [] f = pure tt
  for_each (x ∷ xs) f = f x >> for_each xs f
