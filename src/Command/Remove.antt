-- ===== src/Command/Remove.antt =====
-- `cmd_rm` of src/main.rs behind the search for the container, and the live status of `cmd_ps`.
use virturust.Base.{
  ℕ, Bool, false, not, ◌++◌, Option, none, some, leb, length, take, container_running, io_error,
  panicked,
}
use virturust.Text.{codes}
use virturust.Text.Files.{FilePath}
use virturust.Sys.{
  ok_of, Action, pure, ◌>>=◌, ◌>>◌, attempt, require, drop_answer, remove_dir_all, print,
}
use virturust.Config.{ContainerConfig, ContainerState, ContainerStatus, running}
use virturust.Container.Metadata.{Host, load_state, load_config, is_process_alive}

-- Whether a container is running by its state, and its process is alive.
unfoldable pub is_live : ContainerStatus → Option ℕ → Action Bool
is_live running (some pid) = is_process_alive pid
is_live _ _ = pure false

unfoldable pub is_live_state : Option ContainerState → Action Bool
is_live_state none = pure false
is_live_state (some state) = is_live state.status state.pid

module _ {F : Type 0} (host : Host F) where
  unfoldable pub announce_removal : ContainerConfig F → Action (Unit {0})
  announce_removal config = do
    require panicked (leb 12 (length config.id))
    drop_answer (
        print (
          codes "Removed container: "
          ++ (config.name ++ (codes " (" ++ (take 12 config.id ++ codes ")\n")))))

  unfoldable pub remove_container : FilePath → Action (Unit {0})
  remove_container dir = do
    config ← load_config host dir
    state ← ok_of (load_state host dir)
    live ← is_live_state state
    require container_running (not live)
    attempt io_error (remove_dir_all dir)
    announce_removal config
