-- ===== src/Image/Pull.antt =====
-- `pull_image` of src/image.rs with the addresses of its mirrors.
use virturust.Base.{
  ℕ, List, [], ◌∷◌, map, Option, none, some, if◌then◌else◌, io_error, clean_failed,
  create_dir_failed, debootstrap_failed, unsupported_version, unsupported_image,
}
use virturust.Text.{Text, codes, text_eq}
use virturust.Text.Files.{FilePath, join}
use virturust.Text.Number.{to_string}
use virturust.Text.Case.{to_lowercase, is_among, join_with}
use virturust.Sys.{
  Action, pure, throw, ◌>>=◌, ◌>>◌, perform, attempt, drop_answer, when, run, exists,
  remove_dir_all, create_dir_all, copy_file, write_file,
}
use virturust.Image.{ImageConfig, ImageHost, image_dir}
use virturust.Image.Mirror.{download_and_extract_tarball}

unfoldable pub native_arch : Text → Text
native_arch arch =
    if text_eq arch (codes "x86_64")
    then codes "x86_64"
    else if text_eq arch (codes "aarch64")
    then codes "aarch64"
    else codes "x86_64"

unfoldable pub deb_arch : Text → Text
deb_arch arch =
    if text_eq arch (codes "x86_64")
    then codes "amd64"
    else if text_eq arch (codes "aarch64")
    then codes "arm64"
    else codes "amd64"

unfoldable pub default_image_config : ImageConfig
default_image_config = record {
  env = codes "PATH=/usr/local/sbin:/usr/local/bin:/usr/sbin:/usr/bin:/sbin:/bin" ∷ [];
  cmd = codes "/bin/sh" ∷ [];
  entrypoint = [];
  working_dir = [];
  user = [];
  log_files = [];
  log_dirs = [];
}

-- The parts of a formatted text, one behind the other.
abbrev pub concat : List Text → Text
concat ts = join_with [] ts

-- A tag, or the newest version for `latest`.
abbrev pub version_or : Text → Text → Text
version_or newest tag = if text_eq tag (codes "latest") then newest else tag

unfoldable pub alpine_url : Text → Text → ℕ → Text
alpine_url version arch patch = concat (
    codes "https://dl-cdn.alpinelinux.org/alpine/v"
    ∷ version
    ∷ codes "/releases/"
    ∷ arch
    ∷ codes "/alpine-minirootfs-"
    ∷ version
    ∷ codes "."
    ∷ to_string patch
    ∷ codes "-"
    ∷ arch
    ∷ codes ".tar.gz"
    ∷ [])

unfoldable pub pull_alpine : Text → Text → FilePath → Action (Unit {0})
pull_alpine arch tag rootfs =
    download_and_extract_tarball
      (map (alpine_url (version_or (codes "3.20") tag) (native_arch arch))
        (0 ∷ 1 ∷ 2 ∷ 3 ∷ 4 ∷ 5 ∷ []))
      rootfs

-- The version and the code name.
unfoldable pub ubuntu_release : Text → Option (Text × Text)
ubuntu_release tag =
    if is_among tag (codes "latest" ∷ codes "24.04" ∷ codes "noble" ∷ [])
    then some (codes "24.04", codes "noble")
    else if is_among tag (codes "22.04" ∷ codes "jammy" ∷ [])
    then some (codes "22.04", codes "jammy")
    else if is_among tag (codes "20.04" ∷ codes "focal" ∷ [])
    then some (codes "20.04", codes "focal")
    else none

unfoldable pub ubuntu_urls : Text → Text → Text → List Text
ubuntu_urls arch version codename =
    concat (
      codes "https://cloud-images.ubuntu.com/"
      ∷ codename
      ∷ codes "/current/"
      ∷ codename
      ∷ codes "-server-cloudimg-"
      ∷ arch
      ∷ codes "-root.tar.xz"
      ∷ [])
    ∷ concat (
        codes "https://cloud-images.ubuntu.com/minimal/releases/"
        ∷ codename
        ∷ codes "/release/ubuntu-"
        ∷ version
        ∷ codes "-minimal-cloudimg-"
        ∷ arch
        ∷ codes "-root.tar.xz"
        ∷ [])
    ∷ []

unfoldable pub pull_release : Text → FilePath → Option (Text × Text) → Action (Unit {0})
pull_release arch rootfs none = throw unsupported_version
pull_release arch rootfs (some (version, codename)) =
    download_and_extract_tarball (ubuntu_urls (deb_arch arch) version codename) rootfs

unfoldable pub pull_ubuntu : Text → Text → FilePath → Action (Unit {0})
pull_ubuntu arch tag rootfs = pull_release arch rootfs (ubuntu_release tag)

unfoldable pub debian_suite : Text → Text
debian_suite tag =
    if is_among tag (codes "latest" ∷ codes "12" ∷ codes "bookworm" ∷ [])
    then codes "bookworm"
    else if is_among tag (codes "11" ∷ codes "bullseye" ∷ [])
    then codes "bullseye"
    else tag

unfoldable pub pull_debian : Text → FilePath → Action (Unit {0})
pull_debian tag rootfs =
    attempt debootstrap_failed
      (run (codes "debootstrap") (codes "--variant=minbase" ∷ debian_suite tag ∷ rootfs ∷ []))

unfoldable pub fedora_url : Text → Text → Text
fedora_url version arch = concat (
    codes "https://kojipkgs.fedoraproject.org/packages/Fedora-Container-Base/"
    ∷ version
    ∷ codes "/20240912.n.0/images/Fedora-Container-Base-"
    ∷ version
    ∷ codes "-20240912.n.0."
    ∷ arch
    ∷ codes ".tar.xz"
    ∷ [])

unfoldable pub pull_fedora : Text → Text → FilePath → Action (Unit {0})
pull_fedora arch tag rootfs =
    download_and_extract_tarball (fedora_url (version_or (codes "41") tag) (native_arch arch) ∷ [])
      rootfs

unfoldable pub pull_arch : FilePath → Action (Unit {0})
pull_arch rootfs =
    download_and_extract_tarball
      (codes "https://geo.mirror.pkgbuild.com/iso/latest/archlinux-bootstrap-x86_64.tar.zst"
        ∷ codes "https://geo.mirror.pkgbuild.com/iso/latest/archlinux-bootstrap-x86_64.tar.gz"
        ∷ [])
      rootfs

unfoldable pub musl_suffix : Text → Text
musl_suffix arch =
    if text_eq (native_arch arch) (codes "x86_64")
    then codes "x86_64-musl"
    else codes "aarch64-musl"

unfoldable pub void_url : Text → Text → Text
void_url suffix date = concat (
    codes "https://repo-default.voidlinux.org/live/current/void-"
    ∷ suffix
    ∷ codes "-ROOTFS-"
    ∷ date
    ∷ codes ".tar.xz"
    ∷ [])

unfoldable pub pull_void : Text → FilePath → Action (Unit {0})
pull_void arch rootfs =
    download_and_extract_tarball
      (void_url (musl_suffix arch) (codes "20240314")
        ∷ void_url (musl_suffix arch) (codes "20230628")
        ∷ [])
      rootfs

-- By the lower-case name.
unfoldable pub pull_distro : Text → Text → Text → FilePath → Action (Unit {0})
pull_distro arch name tag rootfs =
    if text_eq name (codes "alpine")
    then pull_alpine arch tag rootfs
    else if text_eq name (codes "ubuntu")
    then pull_ubuntu arch tag rootfs
    else if text_eq name (codes "debian")
    then pull_debian tag rootfs
    else if text_eq name (codes "fedora")
    then pull_fedora arch tag rootfs
    else if is_among name (codes "archlinux" ∷ codes "arch" ∷ [])
    then pull_arch rootfs
    else if is_among name (codes "void" ∷ codes "voidlinux" ∷ [])
    then pull_void arch rootfs
    else throw unsupported_image

-- An empty directory in the place of what was there.
unfoldable pub renew_dir : FilePath → Action (Unit {0})
renew_dir dir = do
  there ← perform (exists dir)
  when there (attempt clean_failed (remove_dir_all dir))
  attempt create_dir_failed (create_dir_all dir)

-- The name servers of the host, whose copy may fail.
unfoldable pub copy_resolv_conf : FilePath → Action (Unit {0})
copy_resolv_conf rootfs = do
  drop_answer (create_dir_all (join rootfs (codes "etc")))
  there ← perform (exists (codes "/etc/resolv.conf"))
  when there (
      drop_answer (
        copy_file (codes "/etc/resolv.conf")
          (join (join rootfs (codes "etc")) (codes "resolv.conf"))))

module _ (host : ImageHost) where
  unfoldable pub pull_image : Text → Text → Action FilePath
  pull_image name tag = do
    renew_dir (join (image_dir host name tag) (codes "rootfs"))
    pull_distro host.arch (to_lowercase name) tag (join (image_dir host name tag) (codes "rootfs"))
    copy_resolv_conf (join (image_dir host name tag) (codes "rootfs"))
    attempt io_error (
        write_file (join (image_dir host name tag) (codes "config.json"))
          (host.print_image default_image_config))
    pure (join (image_dir host name tag) (codes "rootfs"))
