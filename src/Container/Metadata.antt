-- ===== src/Container/Metadata.antt =====
-- The metadata of a container on disk in src/container.rs.
use virturust.Base.{ℕ, Bool, Option, none, some, io_error}
use virturust.Text.{Text, codes}
use virturust.Text.Files.{FilePath, join}
use virturust.Sys.{Action, pure, throw, ◌>>=◌, perform, attempt, fetch, read_file, write_file, kill}
use virturust.Config.{ContainerConfig, ContainerState}
use virturust.Config.Dirs.{Environment}
use virturust.Network.Named.{Json}

-- What the container code uses of other code: `serde_json`, the numbers of the processor quota and
-- the environment.
pub record Host (F : Type 0) : Type 0 where
  pub print_config : ContainerConfig F → Text
  pub parse_config : Text → Option (ContainerConfig F)
  pub print_state : ContainerState → Text
  pub parse_state : Text → Option ContainerState
  pub network_json : Json
  pub quota_of : F → ℕ
  pub env : Environment

abbrev pub state_path : FilePath → FilePath
state_path dir = join dir (codes "state.json")

abbrev pub config_path : FilePath → FilePath
config_path dir = join dir (codes "config.json")

module _ {A : Type 0} where
  unfoldable pub parse_file : (Text → Option A) → Option Text → Action A
  parse_file parse none = throw io_error
  parse_file parse (some text) = elim (parse text) [ none ↦ throw io_error | some a ↦ pure a ]

module _ {F : Type 0} (host : Host F) where
  unfoldable pub save_state : FilePath → ContainerState → Action (Unit {0})
  save_state dir state = attempt io_error (write_file (state_path dir) (host.print_state state))

  unfoldable pub load_state : FilePath → Action ContainerState
  load_state dir = fetch (read_file (state_path dir)) >>= parse_file host.parse_state

  unfoldable pub load_config : FilePath → Action (ContainerConfig F)
  load_config dir = fetch (read_file (config_path dir)) >>= parse_file host.parse_config

-- A process is alive if a signal can be sent to it.
unfoldable pub is_process_alive : ℕ → Action Bool
is_process_alive pid = perform (kill pid 0)
