-- ===== src/Container/Round.antt =====
-- One round of the loop of `run` in src/container.rs, without a terminal: the container's process
-- is created, connected, released, waited for and cleaned up behind.
use virturust.Base.{
  ℕ, Bool, true, false, not, ◌&&◌, ◌||◌, List, [], ◌∷◌, ◌++◌, Option, none, some, if◌then◌else◌,
  ◌==◌, pipe_failed,
}
use virturust.Text.{Text, codes, is_empty}
use virturust.Text.Files.{FilePath, join}
use virturust.Text.Number.{to_string}
use virturust.Sys.{
  Action, pure, throw, ◌>>=◌, ◌>>◌, drop_answer, ignore, when, ask, acquire, unix_time, pipe, close,
  signal_child, wait_child, print,
}
use virturust.Config.{ContainerConfig, ContainerState, PortMapping, running}
use virturust.Cgroup.{Cgroup, add_process}
use virturust.Namespace.Child.{ChildArgs}
use virturust.Namespace.Clone.{create_namespaced_process}
use virturust.Network.Ports.{setup_port_forwarding, cleanup_port_forwarding}
use virturust.Network.Veth.{setup_container_network, cleanup_container_network}
use virturust.Network.Dns.{setup_named_network_dns}
use virturust.Network.Lifecycle.{setup_container_named_network, register_container_in_network}
use virturust.Container.Policy.{exit_code_of}
use virturust.Container.Metadata.{Host, save_state}
use virturust.Container.Setup.{
  is_mode, is_named_network, when_some, container_dir, setup_uid_gid_mappings,
}

abbrev pub no_ports : List PortMapping → Bool
no_ports [] = true
no_ports (p ∷ ports) = false

-- The read end of a pipe, whose write end is kept by the parent.
unfoldable pub pipe_end : Option ℕ → Action ℕ
pipe_end none = throw pipe_failed
pipe_end (some fd) = pure fd

-- A wait that fails leaves the status at 0.
abbrev pub wait_status : Option ℕ → ℕ
wait_status none = 0
wait_status (some status) = status

abbrev pub running_state : ContainerState → ℕ → ℕ → ContainerState
running_state state child_pid now = record {
  status = running;
  pid = some child_pid;
  created_at = state.created_at;
  started_at = some now;
  finished_at = state.finished_at;
  exit_code = state.exit_code;
}

module _ {F : Type 0} (host : Host F) (config : ContainerConfig F) (detach : Bool) where
  -- A log of the container's directory, if the container is detached.
  abbrev pub log_file : Text → Text
  log_file name = if detach then join (container_dir host config) name else []

  unfoldable pub child_args : FilePath → ℕ → ChildArgs
  child_args root fd = record {
    rootfs = root;
    hostname = config.hostname;
    command = config.command;
    sync_pipe_rd = fd;
    volumes = config.volumes;
    env = config.env;
    working_dir = config.working_dir;
    user = config.user;
    network_mode = config.network_mode;
    stdout_log = log_file (codes "stdout.log");
    stderr_log = log_file (codes "stderr.log");
    rootless = config.rootless;
    privileged = config.privileged;
    read_only = config.read_only;
    pty_slave_fd = none;
  }

  unfoldable pub start_child : FilePath → Action ℕ
  start_child root = do
    fds ← acquire pipe
    fd ← pipe_end fds
    child_pid ← create_namespaced_process (child_args root fd)
    drop_answer (close fd)
    pure child_pid

  unfoldable pub publish : Text → Action (Unit {0})
  publish ip = when (not (no_ports config.ports)) (setup_port_forwarding ip config.ports)

  unfoldable pub join_bridge : ℕ → Action Text
  join_bridge child_pid = do
    net ← setup_container_network config.id child_pid
    publish net.ip
    pure net.ip

  unfoldable pub join_named_network : FilePath → ℕ → Action Text
  join_named_network root child_pid = do
    net ← setup_container_named_network host.network_json config.network_mode config.id child_pid
    ignore (register_container_in_network host.network_json config.network_mode config.name net.ip)
    ignore (setup_named_network_dns host.network_json root config.network_mode config.name net.ip)
    publish net.ip
    pure net.ip

  -- The container's address, empty without a network of its own.
  unfoldable pub connect_network : FilePath → ℕ → Action Text
  connect_network root child_pid =
      if is_mode config (codes "bridge") && not config.rootless
      then join_bridge child_pid
      else if is_named_network config && not config.rootless
      then join_named_network root child_pid
      else pure []

  unfoldable pub mark_running : ContainerState → ℕ → ℕ → Action ContainerState
  mark_running state child_pid restart_count = do
    now ← ask unix_time
    save_state host (container_dir host config) (running_state state child_pid now)
    when (restart_count == 0) (
        drop_answer (
          print (
            codes "Container '"
            ++ (config.name ++ (codes "' started (PID " ++ (to_string child_pid ++ codes ")\n"))))))
    pure (running_state state child_pid now)

  unfoldable pub disconnect : Text → Action (Unit {0})
  disconnect ip = when (not config.rootless) (do
    when (not (no_ports config.ports) && not (is_empty ip))
        (ignore (cleanup_port_forwarding ip config.ports))
    when (is_mode config (codes "bridge") || is_named_network config)
        (ignore (cleanup_container_network config.id)))

  -- The state of the running container and its exit code.
  unfoldable pub run_round :
      FilePath → Option Cgroup → ContainerState → ℕ → Action (ContainerState × ℕ)
  run_round root cgroup state restart_count = do
    child_pid ← start_child root
    when_some cgroup (λ cg. add_process cg child_pid)
    when config.rootless (setup_uid_gid_mappings child_pid)
    ip ← connect_network root child_pid
    drop_answer signal_child
    marked ← mark_running state child_pid restart_count
    status ← acquire (wait_child child_pid)
    disconnect ip
    pure (marked, exit_code_of (wait_status status))
