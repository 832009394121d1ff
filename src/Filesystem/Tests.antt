-- ===== src/Filesystem/Tests.antt =====
-- The mounts of a read-only volume.
use virturust.Base.{true}
use virturust.Text.{codes}
use virturust.Config.{VolumeMount}

abbrev data_volume : VolumeMount
data_volume = record { host_path = codes "/srv"; container_path = codes "/data"; read_only = true }
