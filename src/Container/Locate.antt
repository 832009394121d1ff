-- ===== src/Container/Locate.antt =====
-- `find_container` of src/container.rs on the disk.
use virturust.Base.{
  Bool, true, false, ◌||◌, List, [], ◌∷◌, Option, none, some, if◌then◌else◌, io_error, not_found,
}
use virturust.Text.{Text, text_eq, starts_with}
use virturust.Text.Files.{FilePath, join}
use virturust.Sys.{Action, pure, throw, ok_of, ◌>>=◌, perform, DirEntry, exists}
use virturust.Config.{ContainerConfig}
use virturust.Config.Dirs.{containers_dir}
use virturust.Image.{entries_of}
use virturust.Container.Metadata.{Host, load_config, config_path}

module _ {F : Type 0} (host : Host F) where
  -- The name in a configuration that could be loaded.
  unfoldable pub has_name : Text → Option (ContainerConfig F) → Bool
  has_name name_or_id none = false
  has_name name_or_id (some config) = text_eq config.name name_or_id

  -- The third test of the loop: the name in the configuration of a directory.
  unfoldable pub is_named_dir : Text → FilePath → Bool → Action Bool
  is_named_dir name_or_id path false = pure false
  is_named_dir name_or_id path true = do
    config ← ok_of (load_config host path)
    pure (has_name name_or_id config)

  -- The three tests.
  unfoldable pub matches_entry : FilePath → Text → Text → Action Bool
  matches_entry dir name_or_id name =
      if text_eq name name_or_id || starts_with name name_or_id
      then pure true
      else (perform (exists (config_path (join dir name)))
          >>= is_named_dir name_or_id (join dir name))

  unfoldable pub search_dir : FilePath → Text → List (Option DirEntry) → Action FilePath
  search_dir dir name_or_id [] = throw not_found
  search_dir dir name_or_id (none ∷ entries) = throw io_error
  search_dir dir name_or_id (some entry ∷ entries) = do
    found ← matches_entry dir name_or_id entry.name
    elim found [ true ↦ pure (join dir entry.name) | false ↦ search_dir dir name_or_id entries ]

  unfoldable pub search_if : FilePath → Text → Bool → Action FilePath
  search_if dir name_or_id false = throw not_found
  search_if dir name_or_id true = do entries ← entries_of dir; search_dir dir name_or_id entries

  unfoldable pub find_dir : Text → Action FilePath
  find_dir name_or_id = do
    there ← perform (exists (containers_dir host.env))
    search_if (containers_dir host.env) name_or_id there
