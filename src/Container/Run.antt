-- ===== src/Container/Run.antt =====
-- `run` of src/container.rs: the loop of the restart policy and what follows it.
use virturust.Base.{
  ℕ, zero, suc, Bool, true, false, not, ◌&&◌, [], ◌∷◌, ◌++◌, Option, none, some, if◌then◌else◌,
  ◌==◌, fork_failed,
}
use virturust.Text.{codes}
use virturust.Text.Files.{FilePath, join}
use virturust.Text.Number.{to_string}
use virturust.Sys.{
  Action, pure, throw, ◌>>=◌, ◌>>◌, drop_answer, ignore, when, ask, acquire, unix_time, fork,
  setsid, close, print, sleep, remove_dir_all,
}
use virturust.Config.{ContainerConfig, ContainerState, stopped}
use virturust.Cgroup.{Cgroup, destroy}
use virturust.Filesystem.{cleanup_overlay}
use virturust.Network.Lifecycle.{unregister_container_from_network}
use virturust.Container.Policy.{RestartPolicy, parse_restart_policy, should_restart, next_count}
use virturust.Container.Metadata.{Host, save_state}
use virturust.Container.Setup.{is_named_network, when_some, container_dir, Prepared, prepare}
use virturust.Container.Round.{run_round}

abbrev pub stopped_state : ContainerState → ℕ → ℕ → ContainerState
stopped_state state exit now = record {
  status = stopped;
  pid = state.pid;
  created_at = state.created_at;
  started_at = state.started_at;
  finished_at = some now;
  exit_code = some exit;
}

module _ {F : Type 0} (host : Host F) (config : ContainerConfig F) (detach : Bool) where
  unfoldable pub announce_restart : ℕ → Action (Unit {0})
  announce_restart count = do
    drop_answer (
        print (
          codes "Container '"
          ++ (config.name
              ++ (codes "' restarting (attempt " ++ (to_string count ++ codes ")...\n")))))
    drop_answer (sleep 1000)

  -- The loop for a number of rounds: `none` if it is still going on after them.
  unfoldable pub monitor :
      ℕ
      → FilePath
      → Option Cgroup
      → RestartPolicy
      → ContainerState
      → ℕ
      → Action (Option (ContainerState × ℕ))
  monitor zero root cgroup policy state count = pure none
  monitor (suc rounds) root cgroup policy state count = do
    done ← run_round host config detach root cgroup state count
    elim (should_restart policy done.1 count) [
      | false ↦ pure (some done)
      | true ↦ do
        announce_restart (next_count count)
        monitor rounds root cgroup policy done.0 (next_count count)
    ]

  -- What follows the loop.
  unfoldable pub finish : Option Cgroup → ContainerState → ℕ → Action (Unit {0})
  finish cgroup state exit = do
    now ← ask unix_time
    save_state host (container_dir host config) (stopped_state state exit now)
    when (is_named_network config && not config.rootless) (
        ignore
          (unregister_container_from_network host.network_json config.network_mode config.name))
    ignore (cleanup_overlay (join (container_dir host config) (codes "overlay")))
    when_some cgroup (λ cg. ignore (destroy cg))
    when config.auto_remove (drop_answer (remove_dir_all (container_dir host config)))

  -- The end of the loop, if it has ended.
  unfoldable pub conclude : Option Cgroup → Option (ContainerState × ℕ) → Action (Option ℕ)
  conclude cgroup none = pure none
  conclude cgroup (some (state, exit)) = do finish cgroup state exit; pure (some exit)

  unfoldable pub supervise : ℕ → Prepared → Action (Option ℕ)
  supervise rounds p =
      monitor rounds p.rootfs p.cgroup (parse_restart_policy config.restart_policy) p.state 0
      >>= conclude p.cgroup

  -- The process that `fork` returns 0 to goes on as the monitor.
  unfoldable pub after_fork : ℕ → Prepared → Option ℕ → Action (Option ℕ)
  after_fork rounds p none = throw fork_failed
  after_fork rounds p (some pid) =
      if pid == 0
      then (do
        drop_answer setsid
        drop_answer (close 0)
        drop_answer (close 1)
        drop_answer (close 2)
        supervise rounds p)
      else (do drop_answer (print (config.id ++ (10 ∷ []))); pure (some 0))

  -- The exit code, or `none` if the container still runs after the number of rounds.
  unfoldable pub run_rounds : ℕ → Action (Option ℕ)
  run_rounds rounds = do
    p ← prepare host config
    elim detach [ false ↦ supervise rounds p | true ↦ acquire fork >>= after_fork rounds p ]
