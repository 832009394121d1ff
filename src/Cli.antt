-- ===== src/Cli.antt =====
-- src/cli.rs: the command line as the argument parser gives it. The defaults of options that are not
-- given are the parser's. The number of processors is an `f64`, of a type that is left open.
use virturust.Base.{ℕ, Bool, List, Option}
use virturust.Text.{Text}

pub record RunArgs (F : Type 0) : Type 0 where
  pub image : Text
  pub command : List Text
  pub memory : Option Text
  pub cpus : Option F
  pub pids_limit : Option ℕ
  pub hostname : Option Text
  pub name : Option Text
  pub volumes : List Text
  pub network : Text
  pub publish : List Text
  pub detach : Bool
  pub interactive : Bool
  pub tty : Bool
  pub restart : Text
  pub rootless : Bool
  pub rm : Bool
  pub env : List Text
  pub env_file : Option Text
  pub privileged : Bool
  pub read_only : Bool
  pub entrypoint : Option Text

pub record PullArgs : Type 0 where
  pub image : Text

pub record StopArgs : Type 0 where
  pub name : Text
  pub time : ℕ

pub record InspectArgs : Type 0 where
  pub name : Text

pub record RmArgs : Type 0 where
  pub name : Text

pub record NetworkCreateArgs : Type 0 where
  pub name : Text

pub record NetworkRmArgs : Type 0 where
  pub name : Text

pub data NetworkCommands : Type 0 where
  network_create : NetworkCreateArgs → NetworkCommands
  network_ls : NetworkCommands
  network_rm : NetworkRmArgs → NetworkCommands

pub record NetworkArgs : Type 0 where
  pub command : NetworkCommands

pub record LogsArgs : Type 0 where
  pub name : Text
  pub follow : Bool
  pub tail : ℕ

pub record ExecArgs : Type 0 where
  pub name : Text
  pub command : List Text
  pub interactive : Bool
  pub tty : Bool

pub record BuildArgs : Type 0 where
  pub path : Text
  pub dry_run : Bool

pub data ImageCommands : Type 0 where
  image_prune : ImageCommands

pub record ImageSubArgs : Type 0 where
  pub command : ImageCommands

pub data SystemCommands : Type 0 where
  system_prune : SystemCommands

pub record SystemSubArgs : Type 0 where
  pub command : SystemCommands

pub record StatsArgs : Type 0 where
  pub name : Option Text
  pub no_stream : Bool

pub record KillArgs : Type 0 where
  pub name : Text
  pub signal : Text

pub record CpArgs : Type 0 where
  pub src : Text
  pub dst : Text

pub record ComposeUpArgs : Type 0 where
  pub detach : Bool

pub record ComposeLogsArgs : Type 0 where
  pub service : Option Text
  pub follow : Bool

pub data ComposeCommands : Type 0 where
  forge_up : ComposeUpArgs → ComposeCommands
  forge_down : ComposeCommands
  forge_ps : ComposeCommands
  forge_logs : ComposeLogsArgs → ComposeCommands

pub record ComposeArgs : Type 0 where
  pub command : ComposeCommands
  pub file : Text

pub record VolumeCreateArgs : Type 0 where
  pub name : Text
  pub size : Option Text

pub record VolumeRmArgs : Type 0 where
  pub name : Text

pub record VolumeInspectArgs : Type 0 where
  pub name : Text

pub record VolumeResizeArgs : Type 0 where
  pub name : Text
  pub size : Text

pub data VolumeCommands : Type 0 where
  volume_create : VolumeCreateArgs → VolumeCommands
  volume_ls : VolumeCommands
  volume_rm : VolumeRmArgs → VolumeCommands
  volume_inspect : VolumeInspectArgs → VolumeCommands
  volume_resize : VolumeResizeArgs → VolumeCommands
  volume_prune : VolumeCommands

pub record VolumeSubArgs : Type 0 where
  pub command : VolumeCommands

pub record MlogsArgs : Type 0 where
  pub containers : List Text
  pub files : List Text
  pub dirs : List Text
  pub grep : Option Text
  pub tail : ℕ

pub record SnapshotCreateArgs : Type 0 where
  pub container : Text
  pub name : Text

pub record SnapshotRestoreArgs : Type 0 where
  pub container : Text
  pub name : Text

pub record SnapshotLsArgs : Type 0 where
  pub container : Text

pub record SnapshotRmArgs : Type 0 where
  pub container : Text
  pub name : Text

pub record SnapshotDiffArgs : Type 0 where
  pub container : Text
  pub name : Text

pub data SnapshotCommands : Type 0 where
  snapshot_create : SnapshotCreateArgs → SnapshotCommands
  snapshot_restore : SnapshotRestoreArgs → SnapshotCommands
  snapshot_ls : SnapshotLsArgs → SnapshotCommands
  snapshot_rm : SnapshotRmArgs → SnapshotCommands
  snapshot_diff : SnapshotDiffArgs → SnapshotCommands

pub record SnapshotSubArgs : Type 0 where
  pub command : SnapshotCommands

pub data Commands (F : Type 0) : Type 0 where
  cmd_run : RunArgs F → Commands F
  cmd_pull : PullArgs → Commands F
  cmd_images : Commands F
  cmd_ps : Commands F
  cmd_stop : StopArgs → Commands F
  cmd_inspect : InspectArgs → Commands F
  cmd_rm : RmArgs → Commands F
  cmd_network : NetworkArgs → Commands F
  cmd_logs : LogsArgs → Commands F
  cmd_exec : ExecArgs → Commands F
  cmd_build : BuildArgs → Commands F
  cmd_image : ImageSubArgs → Commands F
  cmd_system : SystemSubArgs → Commands F
  cmd_stats : StatsArgs → Commands F
  cmd_kill : KillArgs → Commands F
  cmd_cp : CpArgs → Commands F
  cmd_forge : ComposeArgs → Commands F
  cmd_volume : VolumeSubArgs → Commands F
  cmd_mlogs : MlogsArgs → Commands F
  cmd_snapshot : SnapshotSubArgs → Commands F

pub record Cli (F : Type 0) : Type 0 where
  pub command : Commands F
  pub verbose : Bool
