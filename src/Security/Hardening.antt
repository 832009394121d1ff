-- ===== src/Security/Hardening.antt =====
-- `mask_paths` of src/security.rs.
use Prim.Native.Nat.{bit_or}
use virturust.Base.{ℕ, List, [], ◌∷◌}
use virturust.Text.{codes}
use virturust.Text.Files.{FilePath}
use virturust.Sys.{Action, ◌>>=◌, ◌>>◌, perform, drop_answer, for_each, when, exists, mount}

-- The mount flags of `libc` that the program uses.
abbrev pub ms_rdonly : ℕ
ms_rdonly = 1

abbrev pub ms_nosuid : ℕ
ms_nosuid = 2

abbrev pub ms_nodev : ℕ
ms_nodev = 4

abbrev pub ms_noexec : ℕ
ms_noexec = 8

abbrev pub ms_remount : ℕ
ms_remount = 32

abbrev pub ms_bind : ℕ
ms_bind = 4096

abbrev pub ms_rec : ℕ
ms_rec = 16384

abbrev pub ms_private : ℕ
ms_private = 262144

abbrev pub ms_strictatime : ℕ
ms_strictatime = 16777216

abbrev pub mask_targets : List FilePath
mask_targets =
    codes "/proc/kcore"
    ∷ codes "/proc/keys"
    ∷ codes "/proc/timer_list"
    ∷ codes "/proc/sched_debug"
    ∷ codes "/sys/firmware"
    ∷ []

abbrev pub readonly_paths : List FilePath
readonly_paths = codes "/proc/sys" ∷ codes "/proc/irq" ∷ codes "/proc/bus" ∷ []

unfoldable pub mask_path : FilePath → Action (Unit {0})
mask_path path = do
  there ← perform (exists path)
  when there (drop_answer (mount (codes "/dev/null") path [] ms_bind))

unfoldable pub make_readonly : FilePath → Action (Unit {0})
make_readonly path = do
  there ← perform (exists path)
  when there (do
    drop_answer (mount path path [] (bit_or ms_bind ms_rec))
    drop_answer (mount [] path [] (bit_or ms_bind (bit_or ms_remount (bit_or ms_rdonly ms_rec)))))

unfoldable pub mask_paths : Action (Unit {0})
mask_paths = do for_each mask_targets mask_path; for_each readonly_paths make_readonly
