-- ===== src/Command/Removal.antt =====
-- A container that runs is not removed.
use virturust.Base.{Bool, not, Option, io_error, container_running}
use virturust.Text.Files.{FilePath}
use virturust.Sys.{History, Kernel, Action, ◌>>=◌, ◌>>◌, require, attempt, remove_dir_all}
use virturust.Config.{ContainerConfig, ContainerState}
use virturust.Container.Metadata.{Host, load_state, load_config}
use virturust.Command.Remove.{is_live_state, announce_removal}

module _ {F : Type 0} (host : Host F) (dir : FilePath) (k : Kernel) (h : History) where
  -- The histories behind the two files that are read.
  abbrev pub after_config : History
  after_config = (load_config host dir k h).1

  abbrev pub after_state : History
  after_state = (load_state host dir k after_config).1

  -- `remove_container` from the state on, and from the answer whether the container is live on.
  decided : ContainerConfig F → Bool → Action (Unit {0})
  decided config live = do
    require container_running (not live)
    attempt io_error (remove_dir_all dir)
    announce_removal host config

  judged : ContainerConfig F → Option ContainerState → Action (Unit {0})
  judged config state = is_live_state state >>= decided config
