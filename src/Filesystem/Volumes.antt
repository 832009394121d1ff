-- ===== src/Filesystem/Volumes.antt =====
-- The mounts of the volumes.
use Prim.Native.Nat.{bit_or}
use virturust.Base.{Bool, true, false, List, [], ◌∷◌}
use virturust.Text.Files.{FilePath}
use virturust.Sys.{Call, mount, create_dir_all}
use virturust.Security.Hardening.{ms_rdonly, ms_remount, ms_bind, ms_rec}
use virturust.Config.{VolumeMount}
use virturust.Filesystem.{mount_target}

-- A volume that is read-only is mounted again as such.
abbrev pub remount_calls : Bool → FilePath → List Call
remount_calls true target = mount [] target [] (bit_or ms_bind (bit_or ms_remount ms_rdonly)) ∷ []
remount_calls false target = []

-- What is called for a volume.
abbrev pub volume_calls : FilePath → VolumeMount → List Call
volume_calls rootfs vol =
    create_dir_all (mount_target rootfs vol)
    ∷ mount vol.host_path (mount_target rootfs vol) [] (bit_or ms_bind ms_rec)
    ∷ remount_calls vol.read_only (mount_target rootfs vol)
