-- ===== src/Command/System.antt =====
-- `cmd_system_prune` of src/main.rs.
use virturust.Base.{
  ℕ, ◌+◌, Bool, true, false, List, [], ◌∷◌, Option, none, some, io_error, out_of_fuel,
}
use virturust.Text.{codes}
use virturust.Text.Files.{FilePath, join}
use virturust.Text.Number.{to_string}
use virturust.Sys.{
  Action, pure, throw, ok_of, ◌>>=◌, ◌>>◌, perform, require, drop_answer, DirEntry, exists,
  remove_dir_all,
}
use virturust.Config.{ContainerState, ContainerStatus, stopped}
use virturust.Config.Dirs.{containers_dir}
use virturust.Image.{ImageHost, entries_of}
use virturust.Network.Flush.{flush_port_forwarding, cleanup_stale_veths}
use virturust.Container.Metadata.{Host, load_state}
use virturust.Command.Images.{cmd_image_prune}
use virturust.Command.Volume.{say}

abbrev pub is_stopped : ContainerStatus → Bool
is_stopped stopped = true
is_stopped _ = false

-- A container is removed if its state can be loaded and says that it is stopped.
unfoldable pub prune_stopped : FilePath → Option ContainerState → Action ℕ
prune_stopped path none = pure 0
prune_stopped path (some state) = elim (is_stopped state.status) [
  | false ↦ pure 0
  | true ↦ do drop_answer (remove_dir_all path); pure 1
]

module _ {F : Type 0} (host : Host F) (images : ImageHost) where
  unfoldable pub prune_containers : FilePath → List (Option DirEntry) → Action ℕ
  prune_containers dir [] = pure 0
  prune_containers dir (none ∷ entries) = throw io_error
  prune_containers dir (some entry ∷ entries) = do
    state ← ok_of (load_state host (join dir entry.name))
    one ← prune_stopped (join dir entry.name) state
    rest ← prune_containers dir entries
    pure (one + rest)

  unfoldable pub prune_if_there : FilePath → Bool → Action ℕ
  prune_if_there dir false = pure 0
  prune_if_there dir true = do entries ← entries_of dir; prune_containers dir entries

  -- For a number of rounds of the loops over the rules.
  unfoldable pub cmd_system_prune : ℕ → Action (Unit {0})
  cmd_system_prune rounds = do
    there ← perform (exists (containers_dir host.env))
    removed ← prune_if_there (containers_dir host.env) there
    say (codes "Removed " ∷ to_string removed ∷ codes " stopped container(s)." ∷ [])
    flushed ← flush_port_forwarding rounds
    require out_of_fuel flushed
    cleanup_stale_veths
    cmd_image_prune images
