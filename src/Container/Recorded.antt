-- ===== src/Container/Recorded.antt =====
-- What a run that has ended leaves of its state.
use virturust.Base.{ℕ, ◌≡◌, Bool, true}
use virturust.Sys.{History}
use virturust.Sys.Keeps.{occurs, Keeps}
use virturust.Config.{ContainerConfig, ContainerState}
use virturust.Cgroup.{Cgroup}
use virturust.Network.Registry.{is_write}
use virturust.Container.Metadata.{Host, state_path}
use virturust.Container.Setup.{container_dir}
use virturust.Container.Run.{stopped_state}

module _ {F : Type 0} (host : Host F) (config : ContainerConfig F) (detach : Bool) where
  -- The state file says that the container has stopped with the exit code.
  abbrev pub Records : ℕ → History → Type 0
  Records code h =
      (state : ContainerState) × (now : ℕ) × (occurs
          (is_write (state_path (container_dir host config))
            (host.print_state (stopped_state state code now)))
          h
        ≡ true)
