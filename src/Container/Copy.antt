-- ===== src/Container/Copy.antt =====
-- `copy_dir_recursive` of src/container.rs.
use virturust.Base.{
  ℕ, zero, suc, List, [], ◌∷◌, Option, none, some, io_error, create_dir_failed, out_of_fuel,
}
use virturust.Text.{Text}
use virturust.Text.Files.{FilePath, join}
use virturust.Sys.{
  Action, pure, throw, ◌>>=◌, ◌>>◌, attempt, drop_answer, fetch, DirEntry, FileKind, directory,
  link, regular, create_dir_all, copy_file, symlink, read_link, permissions, set_permissions,
}
use virturust.Image.{entries_of}

-- `entry?` and `entry.file_type()?`
unfoldable pub entry_type : Option DirEntry → Action (Text × FileKind)
entry_type none = throw io_error
entry_type (some entry) = elim entry.kind [ none ↦ throw io_error | some t ↦ pure (entry.name, t) ]

-- A link to the same target, which may fail to be made.
unfoldable pub copy_link : FilePath → Option FilePath → Action (Unit {0})
copy_link dst none = throw io_error
copy_link dst (some target) = drop_answer (symlink target dst)

-- One entry: a directory goes to the recursive call, a link is made anew, all else is copied.
unfoldable pub copy_one :
    (FilePath → FilePath → Action (Unit {0}))
    → FilePath
    → FilePath
    → Text × FileKind
    → Action (Unit {0})
copy_one call src dst (name, directory) = call (join src name) (join dst name)
copy_one call src dst (name, link) = fetch (read_link (join src name)) >>= copy_link (join dst name)
copy_one call src dst (name, regular) = attempt io_error (copy_file (join src name) (join dst name))

unfoldable pub copy_all :
    (FilePath → FilePath → Action (Unit {0}))
    → FilePath
    → FilePath
    → List (Option DirEntry)
    → Action (Unit {0})
copy_all call src dst [] = pure tt
copy_all call src dst (entry ∷ entries) = do
  kind ← entry_type entry
  copy_one call src dst kind
  copy_all call src dst entries

-- On fuel that bounds how deep the directories are nested.
unfoldable pub copy_dir_recursive : ℕ → FilePath → FilePath → Action (Unit {0})
copy_dir_recursive zero src dst = throw out_of_fuel
copy_dir_recursive (suc fuel) src dst = do
  attempt create_dir_failed (create_dir_all dst)
  entries ← entries_of src
  copy_all (copy_dir_recursive fuel) src dst entries
  attempt io_error (permissions src)
  attempt io_error (set_permissions dst)

-- A path of Linux has at most 4096 bytes, so no directory is nested deeper.
abbrev pub path_depth : ℕ
path_depth = 4096
