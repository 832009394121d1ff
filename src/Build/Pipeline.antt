-- ===== src/Build/Pipeline.antt =====
-- `build_image` of src/build.rs.
use virturust.Base.{ℕ, not, List, [], map, Option, none, some, io_error}
use virturust.Text.{Text, codes}
use virturust.Text.Files.{FilePath, join}
use virturust.Text.Case.{get_or}
use virturust.Sys.{Action, pure, ◌>>◌, attempt, when, write_file}
use virturust.Command.Merge.{no_items}
use virturust.Image.{ImageConfig, ImageHost, image_dir}
use virturust.Image.Pull.{renew_dir}
use virturust.Build.{
  BuildConfig, PackagesSection, FilesSection, SetupSection, ContainerSection, LogsSection,
}
use virturust.Build.Shell.{env_entry}
use virturust.Build.Bootstrap.{bootstrap_rootfs}
use virturust.Build.Steps.{install_packages, copy_files, run_setup_commands, clean_package_cache}

-- The image's name, or else the system.
abbrev pub name_of : BuildConfig → Text
name_of config = elim config.image [ none ↦ config.base.system | some i ↦ i.name ]

abbrev pub tag_of : BuildConfig → Text
tag_of config = elim config.image [ none ↦ config.base.version | some i ↦ i.tag ]

unfoldable pub install_step : Text → FilePath → Option PackagesSection → Action (Unit {0})
install_step system rootfs none = pure tt
install_step system rootfs (some packages) =
    when (not (no_items packages.install)) (install_packages system rootfs packages.install)

unfoldable pub copy_step : ℕ → FilePath → FilePath → Option FilesSection → Action (Unit {0})
copy_step depth toml_dir rootfs none = pure tt
copy_step depth toml_dir rootfs (some files) = copy_files depth toml_dir rootfs files.copy

unfoldable pub setup_step : FilePath → Option SetupSection → Action (Unit {0})
setup_step rootfs none = pure tt
setup_step rootfs (some setup) = run_setup_commands rootfs setup.run

abbrev pub env_entries : Option (List (Text × Text)) → List Text
env_entries none = []
env_entries (some env) = map env_entry env

-- A field of the section that may be missing, or else the default.
abbrev pub from_container :
    {A : Type 0} → A → (ContainerSection → Option A) → Option ContainerSection → A
from_container default field none = default
from_container default field (some c) = get_or default (field c)

abbrev pub from_logs : (LogsSection → List Text) → Option LogsSection → List Text
from_logs field none = []
from_logs field (some logs) = field logs

unfoldable pub image_config_of : BuildConfig → ImageConfig
image_config_of config = record {
  env = env_entries config.env;
  cmd = from_container [] (λ c. c.command) config.container;
  entrypoint = [];
  working_dir = from_container [] (λ c. c.workdir) config.container;
  user = from_container [] (λ c. c.user) config.container;
  log_files = from_logs (λ l. l.files) config.logs;
  log_dirs = from_logs (λ l. l.dirs) config.logs;
}

module _ (host : ImageHost) (depth : ℕ) where
  abbrev pub build_dir : BuildConfig → FilePath
  build_dir config = image_dir host (name_of config) (tag_of config)

  abbrev pub build_rootfs : BuildConfig → FilePath
  build_rootfs config = join (build_dir config) (codes "rootfs")

  unfoldable pub build_image : BuildConfig → FilePath → Action FilePath
  build_image config toml_dir = do
    renew_dir (build_rootfs config)
    bootstrap_rootfs host.arch config.base.system config.base.version (build_rootfs config)
    install_step config.base.system (build_rootfs config) config.packages
    copy_step depth toml_dir (build_rootfs config) config.files
    setup_step (build_rootfs config) config.setup
    clean_package_cache config.base.system (build_rootfs config)
    attempt io_error (
        write_file (join (build_dir config) (codes "config.json"))
          (host.print_image (image_config_of config)))
    pure (build_rootfs config)
