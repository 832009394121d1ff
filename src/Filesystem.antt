-- ===== src/Filesystem.antt =====
-- src/filesystem.rs: the mounts of a container.
pub mod Volumes
mod Tests
use Prim.Native.Nat.{bit_or}
use mathlib.Core.List.{reverse}
use virturust.Base.{
  ℕ, not, List, [], ◌∷◌, ◌++◌, ◌==◌, if◌then◌else◌, null_byte, mount_failed, create_dir_failed,
  pivot_root_failed, rootfs_missing, chdir_failed, ◌||◌, ◌&&◌,
}
use virturust.Text.{Text, codes}
use virturust.Text.Files.{FilePath, join, is_absolute}
use virturust.Security.Caps.{contains}
use virturust.Security.Hardening.{
  ms_rdonly, ms_nosuid, ms_nodev, ms_noexec, ms_remount, ms_bind, ms_rec, ms_private,
  ms_strictatime,
}
use virturust.Sys.{
  Action, ◌>>=◌, ◌>>◌, perform, attempt, require, drop_answer, ask, ignore, for_each, when, mount,
  umount, pivot_root, mknod, symlink, exists, create_dir_all, remove_dir, chdir, errno,
}
use virturust.Config.{VolumeMount}

-- `path_to_cstring(path)?` refuses a path with a null byte.
unfoldable pub path_to_cstring : FilePath → Action (Unit {0})
path_to_cstring path = require null_byte (not (contains path 0))

unfoldable pub bind_mount : FilePath → FilePath → Action (Unit {0})
bind_mount source target = do
  path_to_cstring source
  path_to_cstring target
  attempt mount_failed (mount source target [] (bit_or ms_bind ms_rec))

unfoldable pub mount_fs : Text → FilePath → Text → ℕ → Action (Unit {0})
mount_fs source target fstype flags = do
  path_to_cstring target
  attempt mount_failed (mount source target fstype flags)

unfoldable pub mount_none : FilePath → ℕ → Action (Unit {0})
mount_none target flags = attempt mount_failed (mount [] target [] flags)

unfoldable pub remount_readonly : FilePath → Action (Unit {0})
remount_readonly target = do
  path_to_cstring target
  attempt mount_failed (mount [] target [] (bit_or ms_bind (bit_or ms_remount ms_rdonly)))

-- A device node: name, mode, major and minor.
pub record Device : Type 0 where
  pub name : Text
  pub mode : ℕ
  pub major : ℕ
  pub minor : ℕ

abbrev pub devices : List Device
devices =
    record { name = codes "null"; mode = 0o666; major = 1; minor = 3 }
    ∷ record { name = codes "zero"; mode = 0o666; major = 1; minor = 5 }
    ∷ record { name = codes "random"; mode = 0o666; major = 1; minor = 8 }
    ∷ record { name = codes "urandom"; mode = 0o666; major = 1; minor = 9 }
    ∷ record { name = codes "tty"; mode = 0o666; major = 5; minor = 0 }
    ∷ record { name = codes "console"; mode = 0o600; major = 5; minor = 1 }
    ∷ []

-- `S_IFCHR | mode`
abbrev pub char_device : ℕ → ℕ
char_device mode = bit_or 0o020000 mode

-- EPERM is answered by a bind mount of the host's device, where there is one.
unfoldable pub bind_host_device : FilePath → Text → ℕ → Action (Unit {0})
bind_host_device path name code = when (code == 1) (do
  there ← perform (exists (join (codes "/dev") name))
  when there (bind_mount (join (codes "/dev") name) path))

unfoldable pub make_device : FilePath → Device → Action (Unit {0})
make_device dev_dir d = do
  path_to_cstring (join dev_dir d.name)
  made ← perform (mknod (join dev_dir d.name) (char_device d.mode) d.major d.minor)
  when (not made) (do code ← ask errno; bind_host_device (join dev_dir d.name) d.name code)

unfoldable pub setup_minimal_dev : FilePath → Action (Unit {0})
setup_minimal_dev dev_dir = do
  ignore (mount_fs (codes "tmpfs") dev_dir (codes "tmpfs") (bit_or ms_nosuid ms_strictatime))
  for_each devices (make_device dev_dir)
  attempt create_dir_failed (create_dir_all (join dev_dir (codes "pts")))
  ignore (
      mount_fs (codes "devpts") (join dev_dir (codes "pts")) (codes "devpts")
        (bit_or ms_nosuid ms_noexec))
  drop_answer (symlink (codes "pts/ptmx") (join dev_dir (codes "ptmx")))
  attempt create_dir_failed (create_dir_all (join dev_dir (codes "shm")))
  ignore (
      mount_fs (codes "tmpfs") (join dev_dir (codes "shm")) (codes "tmpfs")
        (bit_or ms_nosuid (bit_or ms_nodev ms_noexec)))
  drop_answer (symlink (codes "/proc/self/fd") (join dev_dir (codes "fd")))
  drop_answer (symlink (codes "/proc/self/fd/0") (join dev_dir (codes "stdin")))
  drop_answer (symlink (codes "/proc/self/fd/1") (join dev_dir (codes "stdout")))
  drop_answer (symlink (codes "/proc/self/fd/2") (join dev_dir (codes "stderr")))

unfoldable pub mount_special_filesystems : FilePath → Action (Unit {0})
mount_special_filesystems rootfs = do
  attempt create_dir_failed (create_dir_all (join rootfs (codes "proc")))
  mount_fs (codes "proc") (join rootfs (codes "proc")) (codes "proc")
      (bit_or ms_nosuid (bit_or ms_noexec ms_nodev))
  attempt create_dir_failed (create_dir_all (join rootfs (codes "sys")))
  mount_fs (codes "sysfs") (join rootfs (codes "sys")) (codes "sysfs")
      (bit_or ms_nosuid (bit_or ms_noexec (bit_or ms_nodev ms_rdonly)))
  attempt create_dir_failed (create_dir_all (join rootfs (codes "dev")))
  setup_minimal_dev (join rootfs (codes "dev"))

-- Leading slashes and dot segments of a path.
unfoldable pub strip_slashes : FilePath → FilePath
strip_slashes [] = []
strip_slashes (c ∷ []) = if (c == b'/') || (c == b'.') then [] else c ∷ []
strip_slashes (c ∷ d ∷ p) =
    let rest = strip_slashes (d ∷ p) in
    if (c == b'/') || ((c == b'.') && (d == b'/')) then rest else c ∷ d ∷ p

-- `path.strip_prefix("/").unwrap_or(path)`; what is left has no slash or dot segment at its ends.
unfoldable pub strip_root : FilePath → FilePath
strip_root path =
    if is_absolute path then reverse (strip_slashes (reverse (strip_slashes path))) else path

abbrev pub mount_target : FilePath → VolumeMount → FilePath
mount_target rootfs vol = join rootfs (strip_root vol.container_path)

-- One round of the loop of `mount_volumes`.
unfoldable pub mount_volume : FilePath → VolumeMount → Action (Unit {0})
mount_volume rootfs vol = do
  attempt create_dir_failed (create_dir_all (mount_target rootfs vol))
  bind_mount vol.host_path (mount_target rootfs vol)
  when vol.read_only (remount_readonly (mount_target rootfs vol))

unfoldable pub mount_volumes : FilePath → List VolumeMount → Action (Unit {0})
mount_volumes rootfs volumes = for_each volumes (mount_volume rootfs)

-- The steps of `setup_container_fs` up to the mounts of the volumes.
unfoldable pub prepare_mounts : FilePath → List VolumeMount → Action (Unit {0})
prepare_mounts rootfs volumes = do
  there ← perform (exists rootfs)
  require rootfs_missing there
  mount_none (codes "/") (bit_or ms_rec ms_private)
  bind_mount rootfs rootfs
  mount_special_filesystems rootfs
  mount_volumes rootfs volumes

-- The mount point of the old root, and the two paths as C strings.
unfoldable pub make_old_root : FilePath → Action (Unit {0})
make_old_root rootfs = do
  attempt create_dir_failed (create_dir_all (join rootfs (codes "old_root")))
  path_to_cstring rootfs
  path_to_cstring (join rootfs (codes "old_root"))

-- `pivot_root` and what follows it.
unfoldable pub swap_root : FilePath → Action (Unit {0})
swap_root rootfs = do
  attempt pivot_root_failed (pivot_root rootfs (join rootfs (codes "old_root")))
  attempt chdir_failed (chdir (codes "/"))
  drop_answer (umount (codes "/old_root"))
  drop_answer (remove_dir (codes "/old_root"))

unfoldable pub setup_container_fs : FilePath → List VolumeMount → Action (Unit {0})
setup_container_fs rootfs volumes = do
  prepare_mounts rootfs volumes
  make_old_root rootfs
  swap_root rootfs

unfoldable pub overlay_options : FilePath → FilePath → Text
overlay_options image_rootfs overlay_dir =
    codes "lowerdir="
    ++ (image_rootfs
        ++ (codes ",upperdir="
            ++ (join overlay_dir (codes "upper")
                ++ (codes ",workdir=" ++ join overlay_dir (codes "work")))))

-- The options stand in the place of the mount's source.
unfoldable pub setup_overlay : FilePath → FilePath → Action (Unit {0})
setup_overlay image_rootfs overlay_dir = do
  attempt create_dir_failed (create_dir_all (join overlay_dir (codes "upper")))
  attempt create_dir_failed (create_dir_all (join overlay_dir (codes "work")))
  attempt create_dir_failed (create_dir_all (join overlay_dir (codes "merged")))
  path_to_cstring (join overlay_dir (codes "merged"))
  require null_byte (not (contains (overlay_options image_rootfs overlay_dir) 0))
  attempt mount_failed (
      mount (overlay_options image_rootfs overlay_dir) (join overlay_dir (codes "merged"))
        (codes "overlay") 0)

unfoldable pub cleanup_overlay : FilePath → Action (Unit {0})
cleanup_overlay overlay_dir = do
  there ← perform (exists (join overlay_dir (codes "merged")))
  when there (do
    path_to_cstring (join overlay_dir (codes "merged"))
    drop_answer (umount (join overlay_dir (codes "merged"))))
