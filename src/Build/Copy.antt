-- ===== src/Build/Copy.antt =====
-- `copy_dir_all` of src/build.rs and `copy_dir_for_cp` of src/main.rs.
use virturust.Base.{ℕ, zero, suc, Bool, true, false, List, [], ◌∷◌, Option, io_error, out_of_fuel}
use virturust.Text.{Text}
use virturust.Text.Files.{FilePath, join}
use virturust.Sys.{Action, pure, throw, ◌>>=◌, ◌>>◌, attempt, DirEntry, create_dir_all, copy_file}
use virturust.Image.{entry_kind, entries_of}

-- One entry: a directory goes to the recursive call, all else is copied.
unfoldable pub copy_entry :
    (FilePath → FilePath → Action (Unit {0}))
    → FilePath
    → FilePath
    → Text × Bool
    → Action (Unit {0})
copy_entry call src dst (name, true) = call (join src name) (join dst name)
copy_entry call src dst (name, false) = attempt io_error (copy_file (join src name) (join dst name))

unfoldable pub copy_entries :
    (FilePath → FilePath → Action (Unit {0}))
    → FilePath
    → FilePath
    → List (Option DirEntry)
    → Action (Unit {0})
copy_entries call src dst [] = pure tt
copy_entries call src dst (entry ∷ entries) = do
  kind ← entry_kind entry
  copy_entry call src dst kind
  copy_entries call src dst entries

-- On fuel that bounds how deep the directories are nested.
unfoldable pub copy_dir_all : ℕ → FilePath → FilePath → Action (Unit {0})
copy_dir_all zero src dst = throw out_of_fuel
copy_dir_all (suc fuel) src dst = do
  attempt io_error (create_dir_all dst)
  entries ← entries_of src
  copy_entries (copy_dir_all fuel) src dst entries

unfoldable pub copy_dir_for_cp : ℕ → FilePath → FilePath → Action (Unit {0})
copy_dir_for_cp depth src dst = copy_dir_all depth src dst
