-- ===== src/Command/Dispatch.antt =====
-- `main` of src/main.rs: the gate of the group, and the command that is chosen.
use virturust.Base.{ℕ, List, Option, none, some}
use virturust.Text.{Text}
use virturust.Text.Number.{to_string}
use virturust.Text.Case.{to_uppercase}
use virturust.Sys.{Action, ◌>>=◌, ◌>>◌}
use virturust.Config.Dirs.{Environment, volumes_dir}
use virturust.Forge.{Services}
use virturust.Cli.{
  Cli, Commands, KillArgs, RmArgs, ImageSubArgs, SystemSubArgs, image_prune, system_prune, cmd_run,
  cmd_pull, cmd_images, cmd_ps, cmd_stop, cmd_inspect, cmd_rm, cmd_network, cmd_logs, cmd_exec,
  cmd_build, cmd_image, cmd_system, cmd_stats, cmd_kill, cmd_cp, cmd_forge, cmd_volume, cmd_mlogs,
  cmd_snapshot,
}
use virturust.Build.{BuildConfig, Parsers}
use virturust.Container.Metadata.{Host}
use virturust.Container.Locate.{find_dir}
use virturust.Image.{ImageHost}
use virturust.Command.Privileges.{Accounts, main_with, require_privileges}
use virturust.Command.Signals.{kill_container}
use virturust.Command.Remove.{remove_container}
use virturust.Command.Sizes.{Decimals}
use virturust.Command.Stats.{Quotients}
use virturust.Command.Run
use virturust.Command.Images
use virturust.Command.Inspect
use virturust.Command.Files
use virturust.Command.Stats
use virturust.Command.Forge
use virturust.Command.Resize
use virturust.Command.Mlogs
use virturust.Command.Diff
use virturust.Command.System

-- What the commands use of other code, and the bounds of their loops.
pub record Program (F : Type 0) : Type 0 where
  pub host : Host F
  pub images : ImageHost
  pub accounts : Accounts
  pub build_parsers : Parsers BuildConfig
  pub forge_parsers : Parsers Services
  pub parse_cpus : Text → Option F
  pub show_cpus : F → Text
  pub debug : List Text → Text
  pub decimals : Decimals
  pub quotients : Quotients
  pub rounds : ℕ
  pub depth : ℕ

module _ {F : Type 0} (p : Program F) where
  unfoldable pub kill_command : KillArgs → Action (Unit {0})
  kill_command args = do
    require_privileges
    dir ← find_dir p.host args.name
    kill_container p.host dir (to_uppercase args.signal)

  unfoldable pub rm_command : RmArgs → Action (Unit {0})
  rm_command args = do dir ← find_dir p.host args.name; remove_container p.host dir

  unfoldable pub image_command : ImageSubArgs → Action (Unit {0})
  image_command args = elim args.command [ image_prune ↦ Images.cmd_image_prune p.images ]

  unfoldable pub system_command : SystemSubArgs → Action (Unit {0})
  system_command args = elim args.command [
    | system_prune ↦ System.cmd_system_prune p.host p.images p.rounds
  ]

  -- The `match` on the command.
  unfoldable pub dispatch : Commands F → Action (Unit {0})
  dispatch (cmd_run args) = Run.cmd_run p.host p.images p.rounds args
  dispatch (cmd_pull args) = Images.cmd_pull p.images args
  dispatch cmd_images = Images.cmd_images p.images
  dispatch cmd_ps = Inspect.cmd_ps p.host
  dispatch (cmd_stop args) = Inspect.cmd_stop p.host p.rounds args
  dispatch (cmd_inspect args) = Inspect.cmd_inspect p.host p.decimals p.debug p.show_cpus args
  dispatch (cmd_rm args) = rm_command args
  dispatch (cmd_network args) = Images.cmd_network p.host.network_json args.command
  dispatch (cmd_logs args) = Files.cmd_logs p.host p.rounds args
  dispatch (cmd_exec args) = Inspect.cmd_exec p.host args
  dispatch (cmd_build args) = Images.cmd_build p.images p.build_parsers p.depth args
  dispatch (cmd_image args) = image_command args
  dispatch (cmd_system args) = system_command args
  dispatch (cmd_stats args) = Stats.cmd_stats p.host p.decimals p.quotients p.rounds args
  dispatch (cmd_kill args) = kill_command args
  dispatch (cmd_cp args) = Files.cmd_cp p.host p.depth args
  dispatch (cmd_forge args) =
      Forge.cmd_forge p.host p.images p.parse_cpus p.rounds p.forge_parsers args.file args.command
  dispatch (cmd_volume args) =
      Resize.cmd_volume p.decimals (volumes_dir p.host.env) p.depth args.command
  dispatch (cmd_mlogs args) = Mlogs.cmd_mlogs p.host p.images p.depth p.rounds args
  dispatch (cmd_snapshot args) = Diff.cmd_snapshot p.host p.decimals p.depth args.command

-- The environment once the variable is set.
unfoldable pub real_env : ℕ → Environment → Environment
real_env uid env = record {
  data_dir_var = env.data_dir_var;
  real_uid_var = elim env.real_uid_var [ none ↦ some (to_string uid) | some value ↦ some value ];
}

module _ {F : Type 0} (p : Program F) where
  abbrev pub for_user : ℕ → Program F
  for_user uid = record p {
    host = record p.host { env = real_env uid p.host.env };
    images = record p.images { env = real_env uid p.images.env };
  }

  unfoldable pub main : Cli F → Action (Unit {0})
  main cli =
      main_with p.accounts p.host.env.real_uid_var (λ uid. dispatch (for_user uid) cli.command)
