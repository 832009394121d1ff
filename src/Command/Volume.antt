-- ===== src/Command/Volume.antt =====
-- `cmd_volume` of src/main.rs: creation, removal, pruning, and what is printed of volumes.
use virturust.Base.{
  ℕ, ◌+◌, ◌-◌, ◌*◌, ◌/◌, ltb, Bool, true, false, not, List, [], ◌∷◌, ◌++◌, Option, none, some,
  length, if◌then◌else◌, io_error, already_exists, not_found, mkfs_failed,
}
use virturust.Text.{Text, codes}
use virturust.Text.Files.{FilePath, join}
use virturust.Text.Number.{to_string}
use virturust.Text.Case.{ends_with, join_with}
use virturust.Sys.{
  Action, pure, throw, of_result, ◌>>=◌, ◌>>◌, perform, attempt, require, drop_answer, when,
  for_each, acquire, list_dir, DirEntry, exists, create_dir_all, create_file, set_len, remove_file,
  remove_dir_all, file_len, print,
}
use virturust.Config.Memory.{parse_memory}
use virturust.Network.Command.{output, successful, started}
use virturust.Image.{entry_kind, entries_of}
use virturust.Cli.{VolumeCreateArgs, VolumeRmArgs, VolumeInspectArgs}
use virturust.Command.Sizes.{Decimals, format_size, pad, dashes, len_or_zero, dir_size}

abbrev pub vol_path : FilePath → Text → FilePath
vol_path vdir name = join vdir name

abbrev pub img_path : FilePath → Text → FilePath
img_path vdir name = join vdir (name ++ codes ".img")

-- `a.exists() || b.exists()`
unfoldable pub either_exists : FilePath → FilePath → Action Bool
either_exists a b = do
  there ← perform (exists a)
  elim there [ true ↦ pure true | false ↦ perform (exists b) ]

abbrev pub say : List Text → Action (Unit {0})
say parts = drop_answer (print (join_with [] parts ++ 10 ∷ []))

-- A run whose result is dropped.
unfoldable pub try_run : Text → List Text → Action (Unit {0})
try_run program args = do o ← output program args; pure tt

-- A run that must be started, and whose status only matters to the log.
unfoldable pub must_start : Text → List Text → Action (Unit {0})
must_start program args = do o ← output program args; require io_error (started o)

-- The image is made a file system, or else removed.
unfoldable pub keep_image : FilePath → Bool → Action (Unit {0})
keep_image img true = pure tt
keep_image img false = do drop_answer (remove_file img); throw mkfs_failed

unfoldable pub format_image : FilePath → Action (Unit {0})
format_image img = do
  o ← output (codes "mkfs.ext4") (codes "-q" ∷ codes "-F" ∷ img ∷ [])
  require mkfs_failed (started o)
  keep_image img (successful o)

abbrev pub loop_mount : FilePath → FilePath → List Text
loop_mount img vol = codes "-o" ∷ codes "loop" ∷ img ∷ vol ∷ []

-- `max(size_bytes / (1024 * 1024), 1)`
abbrev megabytes : ℕ → ℕ
megabytes size = if ltb (size / (1024 * 1024)) 1 then 1 else size / (1024 * 1024)

unfoldable pub create_sized : FilePath → Text → Text → Action (Unit {0})
create_sized vdir name size = do
  size_bytes ← of_result (parse_memory size)
  attempt io_error (create_file (img_path vdir name))
  attempt io_error (set_len (img_path vdir name) size_bytes)
  format_image (img_path vdir name)
  attempt io_error (create_dir_all (vol_path vdir name))
  must_start (codes "mount") (loop_mount (img_path vdir name) (vol_path vdir name))
  say (
      codes "Created sized volume: "
      ∷ name
      ∷ codes " ("
      ∷ to_string (megabytes size_bytes)
      ∷ codes " MB)"
      ∷ [])
  say (codes "  Image: " ∷ img_path vdir name ∷ [])
  say (codes "  Mount: " ∷ vol_path vdir name ∷ [])

unfoldable pub create_by_size : FilePath → Text → Option Text → Action (Unit {0})
create_by_size vdir name (some size) = create_sized vdir name size
create_by_size vdir name none = do
  attempt io_error (create_dir_all (vol_path vdir name))
  say (codes "Created volume: " ∷ name ∷ [])

unfoldable pub volume_create : FilePath → VolumeCreateArgs → Action (Unit {0})
volume_create vdir a = do
  attempt io_error (create_dir_all vdir)
  taken ← either_exists (vol_path vdir a.name) (img_path vdir a.name)
  require already_exists (not taken)
  create_by_size vdir a.name a.size

unfoldable pub volume_rm : FilePath → VolumeRmArgs → Action (Unit {0})
volume_rm vdir a = do
  there ← either_exists (vol_path vdir a.name) (img_path vdir a.name)
  require not_found there
  try_run (codes "umount") (vol_path vdir a.name ∷ [])
  drop_answer (remove_dir_all (vol_path vdir a.name))
  drop_answer (remove_file (img_path vdir a.name))
  say (codes "Removed volume: " ∷ a.name ∷ [])

-- The directory of a volume and its image, whether or not there is one.
unfoldable pub prune_volume : FilePath → Text → Action ℕ
prune_volume vdir name = do
  try_run (codes "umount") (join vdir name ∷ [])
  drop_answer (remove_dir_all (join vdir name))
  drop_answer (remove_file (img_path vdir name))
  say (codes "Removed: " ∷ name ∷ [])
  pure 1

unfoldable pub prune_kind : FilePath → Text × Bool → Action ℕ
prune_kind vdir (name, true) = prune_volume vdir name
prune_kind vdir (name, false) = pure 0

-- An image is removed; the kind of all else is looked at.
unfoldable pub prune_entry : FilePath → Option DirEntry → Action ℕ
prune_entry vdir none = throw io_error
prune_entry vdir (some entry) =
    if ends_with entry.name (codes ".img")
    then (do drop_answer (remove_file (join vdir entry.name)); pure 0)
    else (entry_kind (some entry) >>= prune_kind vdir)

unfoldable pub prune_entries : FilePath → List (Option DirEntry) → Action ℕ
prune_entries vdir [] = pure 0
prune_entries vdir (entry ∷ entries) = do
  one ← prune_entry vdir entry
  rest ← prune_entries vdir entries
  pure (one + rest)

unfoldable pub prune_if : FilePath → Bool → Action (Unit {0})
prune_if vdir false = say (codes "No volumes to prune." ∷ [])
prune_if vdir true = do
  entries ← entries_of vdir
  removed ← prune_entries vdir entries
  say (codes "Removed " ∷ to_string removed ∷ codes " volume(s)." ∷ [])

unfoldable pub volume_prune : FilePath → Action (Unit {0})
volume_prune vdir = do there ← perform (exists vdir); prune_if vdir there

module _ (dec : Decimals) (depth : ℕ) (vdir : FilePath) where
  -- The kind of a volume and its size, by whether it has an image.
  unfoldable pub size_of : Text → Bool → Action (Text × Text)
  size_of name true = do
    len ← acquire (file_len (img_path vdir name))
    used ← dir_size depth (join vdir name)
    pure (
      codes "sized",
      dec.one_place used (1024 * 1024)
          ++ (codes "/" ++ (dec.no_place (len_or_zero len) (1024 * 1024) ++ codes "M")),
    )
  size_of name false = do
    used ← dir_size depth (join vdir name)
    pure (codes "dir", format_size dec used)

  unfoldable pub list_kind : Text × Bool → Action (Unit {0})
  list_kind (name, false) = pure tt
  list_kind (name, true) = do
    sized ← perform (exists (img_path vdir name))
    size ← size_of name sized
    say (
        pad 20 name
        ∷ codes " "
        ∷ pad 10 size.0
        ∷ codes " "
        ∷ pad 12 size.1
        ∷ codes " "
        ∷ join vdir name
        ∷ [])

  unfoldable pub list_entry : Option DirEntry → Action (Unit {0})
  list_entry none = throw io_error
  list_entry (some entry) =
      if ends_with entry.name (codes ".img")
      then pure tt
      else (entry_kind (some entry) >>= list_kind)

  unfoldable pub list_volumes : Action (Unit {0})
  list_volumes = do entries ← entries_of vdir; for_each entries list_entry

  unfoldable pub volume_ls : Action (Unit {0})
  volume_ls = do
    say (
        pad 20 (codes "NAME")
        ∷ codes " "
        ∷ pad 10 (codes "TYPE")
        ∷ codes " "
        ∷ pad 12 (codes "SIZE/LIMIT")
        ∷ codes " PATH"
        ∷ [])
    say (dashes 70 ∷ [])
    there ← perform (exists vdir)
    when there list_volumes

  abbrev pub both_sizes : ℕ → List Text
  both_sizes n = format_size dec n ∷ codes " (" ∷ to_string n ∷ codes " bytes)" ∷ []

  unfoldable pub inspect_kind : Text → Bool → Action (Unit {0})
  inspect_kind name true = do
    len ← acquire (file_len (img_path vdir name))
    used ← dir_size depth (vol_path vdir name)
    say (codes "Type:      sized (loopback ext4)" ∷ [])
    say (codes "Image:     " ∷ img_path vdir name ∷ [])
    say (codes "Limit:     " ∷ both_sizes (len_or_zero len))
    say (codes "Used:      " ∷ both_sizes used)
    say (codes "Available: " ∷ format_size dec (len_or_zero len - used) ∷ [])
  inspect_kind name false = do
    used ← dir_size depth (vol_path vdir name)
    say (codes "Type:      directory (no limit)" ∷ [])
    say (codes "Used:      " ∷ both_sizes used)

  unfoldable pub count_entries : Option (List (Option DirEntry)) → ℕ
  count_entries none = 0
  count_entries (some entries) = length entries

  unfoldable pub volume_inspect : VolumeInspectArgs → Action (Unit {0})
  volume_inspect a = do
    there ← either_exists (vol_path vdir a.name) (img_path vdir a.name)
    require not_found there
    say (codes "Name:      " ∷ a.name ∷ [])
    say (codes "Path:      " ∷ vol_path vdir a.name ∷ [])
    sized ← perform (exists (img_path vdir a.name))
    inspect_kind a.name sized
    entries ← list_dir (vol_path vdir a.name)
    say (codes "Entries:   " ∷ to_string (count_entries entries) ∷ [])
