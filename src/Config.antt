-- ===== src/Config.antt =====
-- src/config.rs: the configuration types; the parsers and directories are in the children.
pub mod Memory
pub mod Ports
pub mod Volumes
pub mod Dirs
pub mod Isolation
mod Tests
use virturust.Base.{ℕ, Bool, List, Option}
use virturust.Text.{Text, codes}
use virturust.Text.Files.{FilePath}

-- The quota is an `f64`, of a type `F` that the model leaves open.
pub record ResourceLimits (F : Type 0) : Type 0 where
  pub memory_bytes : Option ℕ
  pub cpu_quota : Option F
  pub pids_max : Option ℕ

pub record VolumeMount : Type 0 where
  pub host_path : FilePath
  pub container_path : FilePath
  pub read_only : Bool

pub record PortMapping : Type 0 where
  pub host_ip : Text
  pub host_port : ℕ
  pub container_port : ℕ

pub record ContainerConfig (F : Type 0) : Type 0 where
  pub id : Text
  pub name : Text
  pub image : Text
  pub command : List Text
  pub hostname : Text
  pub resources : ResourceLimits F
  pub rootfs : FilePath
  pub volumes : List VolumeMount
  pub env : List Text
  pub working_dir : Text
  pub user : Text
  pub network_mode : Text
  pub ports : List PortMapping
  pub restart_policy : Text
  pub rootless : Bool
  pub privileged : Bool
  pub read_only : Bool
  pub auto_remove : Bool

pub data ContainerStatus : Type 0 where
  created running stopped : ContainerStatus

-- `Display` of the status.
unfoldable pub status_text : ContainerStatus → Text
status_text created = codes "created"
status_text running = codes "running"
status_text stopped = codes "stopped"

-- An exit code is the `i32` in the range 0 to 255 that the wait status gives.
pub record ContainerState : Type 0 where
  pub status : ContainerStatus
  pub pid : Option ℕ
  pub created_at : ℕ
  pub started_at : Option ℕ
  pub finished_at : Option ℕ
  pub exit_code : Option ℕ
