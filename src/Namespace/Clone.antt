-- ===== src/Namespace/Clone.antt =====
-- `create_namespaced_process` of src/namespace.rs.
use Prim.Native.Nat.{bit_or, bit_and}
use virturust.Base.{
  ℕ, ◌≡◌, refl, Bool, true, false, not, Option, none, some, if◌then◌else◌, clone_failed,
}
use virturust.Text.{codes, text_eq}
use virturust.Sys.{Action, pure, throw, ◌>>=◌, acquire, clone}
use virturust.Namespace.Child.{ChildArgs}

abbrev pub clone_newpid : ℕ
clone_newpid = 0x20000000

abbrev pub clone_newns : ℕ
clone_newns = 0x00020000

abbrev pub clone_newuts : ℕ
clone_newuts = 0x04000000

abbrev pub clone_newipc : ℕ
clone_newipc = 0x08000000

abbrev pub clone_newnet : ℕ
clone_newnet = 0x40000000

abbrev pub clone_newuser : ℕ
clone_newuser = 0x10000000

abbrev pub sigchld : ℕ
sigchld = 17

abbrev pub base_flags : ℕ
base_flags =
    bit_or clone_newpid (bit_or clone_newns (bit_or clone_newuts (bit_or clone_newipc sigchld)))

-- `flags |= flag` under a condition
abbrev pub with_flag : Bool → ℕ → ℕ → ℕ
with_flag true flag flags = bit_or flags flag
with_flag false flag flags = flags

unfoldable pub clone_flags : Bool → Bool → ℕ
clone_flags shares_host_network rootless =
    with_flag rootless clone_newuser (with_flag (not shares_host_network) clone_newnet base_flags)

unfoldable pub pid_of_clone : Option ℕ → Action ℕ
pid_of_clone none = throw clone_failed
pid_of_clone (some pid) = pure pid

unfoldable pub create_namespaced_process : ChildArgs → Action ℕ
create_namespaced_process args =
    acquire (clone (clone_flags (text_eq args.network_mode (codes "host")) args.rootless))
    >>= pid_of_clone

abbrev pub Has : ℕ → ℕ → Type 0
Has flag flags = bit_and flags flag ≡ flag

-- Whatever the options: the container's process gets process, mount, host-name and IPC namespaces
-- of its own; it keeps the host's network exactly when it shares it on purpose, and it gets a user
-- namespace exactly when it is rootless.
clone_flags_lem :
    (shares rootless : Bool)
    → Has clone_newpid (clone_flags shares rootless)
      × Has clone_newns (clone_flags shares rootless)
      × Has clone_newuts (clone_flags shares rootless)
      × Has clone_newipc (clone_flags shares rootless)
      × (bit_and (clone_flags shares rootless) clone_newnet ≡ (if shares then 0 else clone_newnet))
      × (bit_and (clone_flags shares rootless) clone_newuser
          ≡ (if rootless then clone_newuser else 0))
unfolding clone_flags
clone_flags_lem true true = (refl, refl, refl, refl, refl, refl)
clone_flags_lem true false = (refl, refl, refl, refl, refl, refl)
clone_flags_lem false true = (refl, refl, refl, refl, refl, refl)
clone_flags_lem false false = (refl, refl, refl, refl, refl, refl)
