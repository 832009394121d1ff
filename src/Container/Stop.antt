-- ===== src/Container/Stop.antt =====
-- `stop` of src/container.rs.
use virturust.Base.{
  ℕ, zero, suc, ◌-◌, ◌/◌, true, false, ◌++◌, Option, none, some, leb, no_pid, out_of_fuel,
}
use virturust.Text.{Text, codes}
use virturust.Text.Files.{FilePath}
use virturust.Text.Number.{to_string}
use virturust.Sys.{
  Action, pure, throw, ◌>>=◌, ◌>>◌, drop_answer, ignore, when, ask, clock, unix_time, kill, print,
  sleep,
}
use virturust.Config.{ContainerConfig, ContainerState, stopped}
use virturust.Cgroup.{create, destroy}
use virturust.Network.Veth.{cleanup_container_network}
use virturust.Container.Metadata.{Host, save_state, load_state, load_config, is_process_alive}
use virturust.Container.Setup.{is_mode}

-- The state with its exit code as it was.
abbrev pub stopped_at : ContainerState → ℕ → ContainerState
stopped_at state now = record {
  status = stopped;
  pid = state.pid;
  created_at = state.created_at;
  started_at = state.started_at;
  finished_at = some now;
  exit_code = state.exit_code;
}

-- SIGKILL after the timeout.
unfoldable pub force_kill : ℕ → Action (Unit {0})
force_kill pid = do
  drop_answer (print (codes "Timeout reached, sending SIGKILL...\n"))
  drop_answer (kill pid 9)
  drop_answer (sleep 100)

-- The loop that waits for the process, for a number of rounds; the clock counts milliseconds.
unfoldable pub await_exit : ℕ → ℕ → ℕ → ℕ → Action (Unit {0})
await_exit zero pid timeout start = throw out_of_fuel
await_exit (suc rounds) pid timeout start = do
  alive ← is_process_alive pid
  elim alive [
    | false ↦ pure tt
    | true ↦ do
      now ← ask clock
      elim (leb timeout ((now - start) / 1000)) [
        | true ↦ force_kill pid
        | false ↦ do drop_answer (sleep 200); await_exit rounds pid timeout start
      ]
  ]

module _ {F : Type 0} (host : Host F) where
  abbrev pub print_stopped : ContainerConfig F → Text → Text
  print_stopped config what = codes "Container '" ++ (config.name ++ what)

  unfoldable pub already_stopped : FilePath → ContainerConfig F → ContainerState → Action (Unit {0})
  already_stopped dir config state = do
    now ← ask unix_time
    save_state host dir (stopped_at state now)
    drop_answer (print (print_stopped config (codes "' is already stopped.\n")))

  unfoldable pub stop_process :
      ℕ → FilePath → ℕ → ContainerConfig F → ContainerState → ℕ → Action (Unit {0})
  stop_process rounds dir timeout config state pid = do
    drop_answer (
        print (
          codes "Stopping container '"
          ++ (config.name
              ++ (codes "' (PID "
                  ++ (to_string pid
                      ++ (codes ")... (" ++ (to_string timeout ++ codes "s timeout)\n")))))))
    drop_answer (kill pid 15)
    start ← ask clock
    await_exit rounds pid timeout start
    now ← ask unix_time
    save_state host dir (stopped_at state now)
    when (is_mode config (codes "bridge")) (ignore (cleanup_container_network config.id))
    ignore (create config.id >>= destroy)
    drop_answer (print (print_stopped config (codes "' stopped.\n")))

  unfoldable pub stop_pid :
      ℕ → FilePath → ℕ → ContainerConfig F → ContainerState → Option ℕ → Action (Unit {0})
  stop_pid rounds dir timeout config state none = throw no_pid
  stop_pid rounds dir timeout config state (some pid) = do
    alive ← is_process_alive pid
    elim alive [
      | false ↦ already_stopped dir config state
      | true ↦ stop_process rounds dir timeout config state pid
    ]

  unfoldable pub stop : ℕ → FilePath → ℕ → Action (Unit {0})
  stop rounds dir timeout = do
    config ← load_config host dir
    state ← load_state host dir
    stop_pid rounds dir timeout config state state.pid
