-- ===== src/Build/Steps.antt =====
-- The steps of a build behind the base system in src/build.rs.
use virturust.Base.{
  ℕ, Bool, true, false, List, [], ◌∷◌, Option, none, some, if◌then◌else◌, io_error, install_failed,
  unsupported_manager, setup_failed,
}
use virturust.Text.{Text, codes, text_eq}
use virturust.Text.Files.{FilePath, join}
use virturust.Text.Case.{trim_slashes}
use virturust.Text.Paths.{parent}
use virturust.Sys.{
  Action, pure, throw, ignore, ◌>>=◌, ◌>>◌, perform, attempt, require, drop_answer, when, for_each,
  exists, is_dir, create_dir_all, remove_dir_all, copy_file,
}
use virturust.Build.{FileCopy, detect_package_manager}
use virturust.Build.Shell.{run_in_chroot, run_in_chroot_with_env}
use virturust.Build.Copy.{copy_dir_all}

abbrev pub quiet_apt : List (Text × Text)
quiet_apt = (codes "DEBIAN_FRONTEND", codes "noninteractive") ∷ []

abbrev pub forget : {A : Type 0} → Action A → Action (Unit {0})
forget m = ignore m

-- A command in the root that must end with status 0.
unfoldable pub must_run : FilePath → Text → List Text → List (Text × Text) → Action (Unit {0})
must_run rootfs cmd args env = do
  done ← run_in_chroot_with_env rootfs cmd args env
  require install_failed done

unfoldable pub install_packages : Text → FilePath → List Text → Action (Unit {0})
install_packages system rootfs packages =
    let manager = detect_package_manager system in
    if text_eq manager (codes "apk")
    then must_run rootfs (codes "apk") (codes "add" ∷ codes "--no-cache" ∷ packages) []
    else if text_eq manager (codes "apt")
    then (do
      updated ←
          run_in_chroot_with_env rootfs (codes "apt-get") (codes "update" ∷ codes "-qq" ∷ [])
            quiet_apt
      must_run rootfs (codes "apt-get") (codes "install" ∷ codes "-y" ∷ codes "-qq" ∷ packages)
          quiet_apt)
    else if text_eq manager (codes "dnf")
    then must_run rootfs (codes "dnf") (codes "install" ∷ codes "-y" ∷ packages) []
    else throw unsupported_manager

unfoldable pub make_parent : Option FilePath → Action (Unit {0})
make_parent none = pure tt
make_parent (some dir) = attempt io_error (create_dir_all dir)

-- A directory with all that is in it, or a file.
unfoldable pub copy_source : ℕ → FilePath → FilePath → Bool → Action (Unit {0})
copy_source depth src dest true = copy_dir_all depth src dest
copy_source depth src dest false = attempt io_error (copy_file src dest)

unfoldable pub set_owner : FilePath → Text → Option Text → Action (Unit {0})
set_owner rootfs dest none = pure tt
set_owner rootfs dest (some owner) =
    forget (run_in_chroot rootfs (codes "chown") (codes "-R" ∷ owner ∷ dest ∷ []))

-- A source that is missing is skipped.
unfoldable pub copy_one : ℕ → FilePath → FilePath → FileCopy → Action (Unit {0})
copy_one depth toml_dir rootfs f =
    let src = join toml_dir f.src in
    let dest = join rootfs (trim_slashes f.dest) in
    perform (exists src) >>= λ there. when there (do
      make_parent (parent dest)
      dir ← perform (is_dir src)
      copy_source depth src dest dir
      set_owner rootfs f.dest f.owner)

unfoldable pub copy_files : ℕ → FilePath → FilePath → List FileCopy → Action (Unit {0})
copy_files depth toml_dir rootfs files = for_each files (copy_one depth toml_dir rootfs)

-- One command of the set-up, run by a shell in the root.
unfoldable pub run_setup : FilePath → Text → Action (Unit {0})
run_setup rootfs cmd_str = do
  done ← run_in_chroot rootfs (codes "sh") (codes "-c" ∷ cmd_str ∷ [])
  require setup_failed done

unfoldable pub run_setup_commands : FilePath → List Text → Action (Unit {0})
run_setup_commands rootfs commands = for_each commands (run_setup rootfs)

unfoldable pub renew_lists : FilePath → Action (Unit {0})
renew_lists lists = do
  there ← perform (exists lists)
  when there (do drop_answer (remove_dir_all lists); drop_answer (create_dir_all lists))

-- Nothing that fails here is an error.
unfoldable pub clean_package_cache : Text → FilePath → Action (Unit {0})
clean_package_cache system rootfs =
    let manager = detect_package_manager system in
    if text_eq manager (codes "apk")
    then forget (run_in_chroot rootfs (codes "rm") (codes "-rf" ∷ codes "/var/cache/apk/*" ∷ []))
    else if text_eq manager (codes "apt")
    then (do
      forget (run_in_chroot rootfs (codes "apt-get") (codes "clean" ∷ []))
      renew_lists (join rootfs (codes "var/lib/apt/lists")))
    else if text_eq manager (codes "dnf")
    then forget (run_in_chroot rootfs (codes "dnf") (codes "clean" ∷ codes "all" ∷ []))
    else pure tt
