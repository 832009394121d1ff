-- ===== src/Config/Dirs.antt =====
-- The directories of src/config.rs. The environment variables that they read are arguments.
use virturust.Base.{Option, none, some, if◌then◌else◌}
use virturust.Text.{Text, codes, text_eq}
use virturust.Text.Files.{FilePath, join}

-- `CORTEN_DATA_DIR` and `CORTEN_REAL_UID`; a value that is not Unicode counts as unset.
pub record Environment : Type 0 where
  pub data_dir_var : Option Text
  pub real_uid_var : Option Text

unfoldable pub data_dir : Environment → FilePath
data_dir env = elim env.data_dir_var [ none ↦ codes "/var/lib/corten" | some dir ↦ dir ]

-- `env::var("CORTEN_REAL_UID").unwrap_or("0")`
unfoldable pub real_uid : Environment → Text
real_uid env = elim env.real_uid_var [ none ↦ codes "0" | some uid ↦ uid ]

unfoldable pub user_dir : Environment → FilePath
user_dir env = join (join (data_dir env) (codes "users")) (real_uid env)

unfoldable pub volumes_dir : Environment → FilePath
volumes_dir env =
    if text_eq (real_uid env) (codes "0")
    then join (data_dir env) (codes "volumes")
    else join (join (join (data_dir env) (codes "users")) (real_uid env)) (codes "volumes")

unfoldable pub images_dir : Environment → FilePath
images_dir env = join (data_dir env) (codes "images")

unfoldable pub containers_dir : Environment → FilePath
containers_dir env =
    if text_eq (real_uid env) (codes "0")
    then join (data_dir env) (codes "containers")
    else join (user_dir env) (codes "containers")
