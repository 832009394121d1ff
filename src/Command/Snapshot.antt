-- ===== src/Command/Snapshot.antt =====
-- `cmd_snapshot` of src/main.rs: the changes of a container's root as archives.
use virturust.Base.{
  ℕ, zero, suc, Bool, true, false, not, List, [], ◌∷◌, ◌++◌, Option, none, some, io_error,
  no_overlay, already_exists, not_found, tar_failed, container_running, out_of_fuel,
}
use virturust.Text.{Text, codes}
use virturust.Text.Files.{FilePath, join}
use virturust.Sys.{
  Action, pure, throw, ◌>>=◌, ◌>>◌, perform, attempt, require, when, acquire, list_dir, DirEntry,
  run, exists, is_dir, create_dir_all, remove_dir_all, remove_file, file_len,
}
use virturust.Config.{ContainerStatus, running}
use virturust.Cli.{SnapshotCreateArgs, SnapshotRestoreArgs, SnapshotRmArgs}
use virturust.Container.Metadata.{Host, load_state}
use virturust.Container.Locate.{find_dir}
use virturust.Command.Sizes.{Decimals, format_size, len_or_zero}
use virturust.Command.Volume.{say}

abbrev pub upper_of : FilePath → FilePath
upper_of dir = join (join dir (codes "overlay")) (codes "upper")

abbrev pub snap_dir : FilePath → FilePath
snap_dir dir = join dir (codes "snapshots")

abbrev pub snap_path : FilePath → Text → FilePath
snap_path dir name = join (snap_dir dir) (name ++ codes ".tar.gz")

abbrev pub is_running : ContainerStatus → Bool
is_running running = true
is_running _ = false

-- What a container's root has changed, packed.
unfoldable pub create_in : Decimals → FilePath → SnapshotCreateArgs → Action (Unit {0})
create_in dec dir a = do
  changed ← perform (exists (upper_of dir))
  require no_overlay changed
  attempt io_error (create_dir_all (snap_dir dir))
  taken ← perform (exists (snap_path dir a.name))
  require already_exists (not taken)
  attempt tar_failed (
      run (codes "tar")
        (codes "czf" ∷ snap_path dir a.name ∷ codes "-C" ∷ upper_of dir ∷ codes "." ∷ []))
  len ← acquire (file_len (snap_path dir a.name))
  say (
      codes "Created snapshot '"
      ∷ a.name
      ∷ codes "' for container '"
      ∷ a.container
      ∷ codes "'"
      ∷ [])
  say (codes "  Size: " ∷ format_size dec (len_or_zero len) ∷ [])
  say (codes "  Path: " ∷ snap_path dir a.name ∷ [])

module _ {F : Type 0} (host : Host F) where
  -- The changes of a container that does not run, replaced by those of a snapshot.
  unfoldable pub restore_in : FilePath → SnapshotRestoreArgs → Action (Unit {0})
  restore_in dir a = do
    there ← perform (exists (snap_path dir a.name))
    require not_found there
    state ← load_state host dir
    require container_running (not (is_running state.status))
    changed ← perform (exists (upper_of dir))
    when changed (attempt io_error (remove_dir_all (upper_of dir)))
    attempt io_error (create_dir_all (upper_of dir))
    attempt tar_failed
        (run (codes "tar") (codes "xzf" ∷ snap_path dir a.name ∷ codes "-C" ∷ upper_of dir ∷ []))
    say (
        codes "Restored container '"
        ∷ a.container
        ∷ codes "' to snapshot '"
        ∷ a.name
        ∷ codes "'"
        ∷ [])

  unfoldable pub snapshot_create : Decimals → SnapshotCreateArgs → Action (Unit {0})
  snapshot_create dec a = do dir ← find_dir host a.container; create_in dec dir a

  unfoldable pub snapshot_restore : SnapshotRestoreArgs → Action (Unit {0})
  snapshot_restore a = do dir ← find_dir host a.container; restore_in dir a

  unfoldable pub snapshot_rm : SnapshotRmArgs → Action (Unit {0})
  snapshot_rm a = do
    dir ← find_dir host a.container
    there ← perform (exists (snap_path dir a.name))
    require not_found there
    attempt io_error (remove_file (snap_path dir a.name))
    say (codes "Removed snapshot '" ∷ a.name ∷ codes "'" ∷ [])

-- The files below a directory by their names relative to the base, a directory with a slash. One
-- entry: what it adds, `call` being the recursive call.
unfoldable pub list_one :
    (FilePath → Text → Action (List Text)) → FilePath → Text → Option DirEntry → Action (List Text)
list_one call dir relative none = pure []
list_one call dir relative (some entry) = do
  is_a_dir ← perform (is_dir (join dir entry.name))
  elim is_a_dir [
    | false ↦ pure ((relative ++ entry.name) ∷ [])
    | true ↦ do
      inner ← call (join dir entry.name) (relative ++ (entry.name ++ codes "/"))
      pure ((relative ++ (entry.name ++ codes "/")) ∷ inner)
  ]

unfoldable pub list_all :
    (FilePath → Text → Action (List Text))
    → FilePath
    → Text
    → List (Option DirEntry)
    → Action (List Text)
list_all call dir relative [] = pure []
list_all call dir relative (entry ∷ entries) = do
  first ← list_one call dir relative entry
  rest ← list_all call dir relative entries
  pure (first ++ rest)

unfoldable pub list_given :
    (FilePath → Text → Action (List Text))
    → FilePath
    → Text
    → Option (List (Option DirEntry))
    → Action (List Text)
list_given call dir relative none = pure []
list_given call dir relative (some entries) = list_all call dir relative entries

-- On fuel that bounds how deep the directories are nested; `relative` is what the base's path leaves
-- of the directory's.
unfoldable pub list_files_recursive : ℕ → FilePath → Text → Action (List Text)
list_files_recursive zero dir relative = throw out_of_fuel
list_files_recursive (suc fuel) dir relative = do
  entries ← list_dir dir
  list_given (list_files_recursive fuel) dir relative entries
