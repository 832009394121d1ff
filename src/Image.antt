-- ===== src/Image.antt =====
-- src/image.rs: the images on disk. Their configuration, and the questions about them; the pull
-- from the mirrors is in the children.
pub mod Mirror
pub mod Pull
pub mod Left
pub mod Tries
mod Tests
use virturust.Base.{
  Bool, true, false, List, [], ◌∷◌, ◌++◌, Option, none, some, ok, if◌then◌else◌, io_error,
}
use virturust.Text.{Text, codes}
use virturust.Text.Files.{FilePath, join}
use virturust.Sys.{
  Action, pure, throw, ◌>>=◌, perform, fetch, list_dir, DirEntry, FileKind, directory, exists,
  read_file,
}
use virturust.Config.Dirs.{Environment, images_dir}

pub record ImageConfig : Type 0 where
  pub env : List Text
  pub cmd : List Text
  pub entrypoint : List Text
  pub working_dir : Text
  pub user : Text
  pub log_files : List Text
  pub log_dirs : List Text

-- `ImageConfig::default()`
abbrev pub no_config : ImageConfig
no_config = record {
  env = [];
  cmd = [];
  entrypoint = [];
  working_dir = [];
  user = [];
  log_files = [];
  log_dirs = [];
}

-- What the image code uses of other code: the environment, `std::env::consts::ARCH` and
-- `serde_json`.
pub record ImageHost : Type 0 where
  pub env : Environment
  pub arch : Text
  pub print_image : ImageConfig → Text
  pub parse_image : Text → Option ImageConfig

module _ (host : ImageHost) where
  -- `images_dir().join(name).join(tag)`
  abbrev pub image_dir : Text → Text → FilePath
  image_dir name tag = join (join (images_dir host.env) name) tag

  unfoldable pub image_rootfs : Text → Text → FilePath
  image_rootfs name tag = join (image_dir name tag) (codes "rootfs")

  unfoldable pub image_exists : Text → Text → Action Bool
  image_exists name tag = perform (exists (join (image_dir name tag) (codes "rootfs")))

  abbrev pub config_or_default : Option Text → ImageConfig
  config_or_default none = no_config
  config_or_default (some text) = elim (host.parse_image text) [ none ↦ no_config | some c ↦ c ]

  unfoldable pub load_image_config : Text → Text → Action ImageConfig
  load_image_config name tag = do
    text ← fetch (read_file (join (image_dir name tag) (codes "config.json")))
    pure (config_or_default text)

abbrev pub is_directory : FileKind → Bool
is_directory directory = true
is_directory _ = false

-- `entry?` and `entry.file_type()?`
unfoldable pub entry_kind : Option DirEntry → Action (Text × Bool)
entry_kind none = throw io_error
entry_kind (some entry) = elim entry.kind [
  | none ↦ throw io_error
  | some kind ↦ pure (entry.name, is_directory kind)
]

unfoldable pub entries_given : Option (List (Option DirEntry)) → Action (List (Option DirEntry))
entries_given none = throw io_error
entries_given (some entries) = pure entries

-- `read_dir(p)?`
unfoldable pub entries_of : FilePath → Action (List (Option DirEntry))
entries_of p = list_dir p >>= entries_given

abbrev pub image_if : Bool → Text → Text → List (Text × Text)
image_if true name tag = (name, tag) ∷ []
image_if false name tag = []

-- The tags of a name: the directories with a root.
unfoldable pub tag_image : FilePath → Text → Text × Bool → Action (List (Text × Text))
tag_image dir name (tag, false) = pure []
tag_image dir name (tag, true) = do
  there ← perform (exists (join (join dir tag) (codes "rootfs")))
  pure (image_if there name tag)

unfoldable pub tags_of : FilePath → Text → List (Option DirEntry) → Action (List (Text × Text))
tags_of dir name [] = pure []
tags_of dir name (entry ∷ entries) = do
  kind ← entry_kind entry
  image ← tag_image dir name kind
  rest ← tags_of dir name entries
  pure (image ++ rest)

unfoldable pub name_images : FilePath → Text × Bool → Action (List (Text × Text))
name_images dir (name, false) = pure []
name_images dir (name, true) = do
  entries ← entries_of (join dir name)
  tags_of (join dir name) name entries

unfoldable pub names_of : FilePath → List (Option DirEntry) → Action (List (Text × Text))
names_of dir [] = pure []
names_of dir (entry ∷ entries) = do
  kind ← entry_kind entry
  images ← name_images dir kind
  rest ← names_of dir entries
  pure (images ++ rest)

unfoldable pub images_in : FilePath → Bool → Action (List (Text × Text))
images_in dir false = pure []
images_in dir true = do entries ← entries_of dir; names_of dir entries

unfoldable pub list_images : Environment → Action (List (Text × Text))
list_images env = do there ← perform (exists (images_dir env)); images_in (images_dir env) there
