-- ===== src/Build/Bootstrap.antt =====
-- The base system of an image in src/build.rs.
use virturust.Base.{
  true, ◌&&◌, ◌||◌, [], ◌∷◌, map, if◌then◌else◌, debootstrap_failed, dnf_failed, unsupported_system,
  extract_failed, panicked,
}
use virturust.Text.{Text, codes, text_eq}
use virturust.Text.Files.{FilePath}
use virturust.Text.Case.{to_lowercase, is_among}
use virturust.Sys.{Action, throw, ◌>>◌, attempt, run, http_client, unpack_tar_gz}
use virturust.Image.Mirror.{try_urls}
use virturust.Image.Pull.{native_arch, alpine_url, copy_resolv_conf}

-- The archive, and the name servers of the host.
unfoldable pub unpack_alpine : FilePath → Text → Text → Action (Unit {0})
unpack_alpine rootfs url bytes = do
  attempt extract_failed (unpack_tar_gz true bytes rootfs)
  copy_resolv_conf rootfs

unfoldable pub bootstrap_alpine : Text → Text → FilePath → Action (Unit {0})
bootstrap_alpine arch version rootfs = do
  attempt panicked http_client
  try_urls (unpack_alpine rootfs) (map (alpine_url version (native_arch arch)) (0 ∷ 1 ∷ 2 ∷ 3 ∷ []))

-- By the system as it is written, and the version.
unfoldable pub suite_of : Text → Text → Text
suite_of system version =
    if text_eq system (codes "ubuntu") && text_eq version (codes "24.04")
    then codes "noble"
    else if text_eq system (codes "ubuntu") && text_eq version (codes "22.04")
    then codes "jammy"
    else if text_eq system (codes "ubuntu") && text_eq version (codes "20.04")
    then codes "focal"
    else if text_eq system (codes "debian")
        && (text_eq version (codes "12") || text_eq version (codes "bookworm"))
    then codes "bookworm"
    else if text_eq system (codes "debian")
        && (text_eq version (codes "11") || text_eq version (codes "bullseye"))
    then codes "bullseye"
    else version

unfoldable pub mirror_of : Text → Text
mirror_of system =
    if text_eq system (codes "ubuntu")
    then codes "http://archive.ubuntu.com/ubuntu"
    else codes "http://deb.debian.org/debian"

unfoldable pub bootstrap_debootstrap : Text → Text → FilePath → Action (Unit {0})
bootstrap_debootstrap system version rootfs = attempt debootstrap_failed (
    run (codes "debootstrap")
      (codes "--variant=minbase" ∷ suite_of system version ∷ rootfs ∷ mirror_of system ∷ []))

unfoldable pub bootstrap_dnf : Text → FilePath → Action (Unit {0})
bootstrap_dnf version rootfs = attempt dnf_failed (
    run (codes "dnf") (
      codes "--installroot"
      ∷ rootfs
      ∷ codes "--releasever"
      ∷ version
      ∷ codes "install"
      ∷ codes "-y"
      ∷ codes "bash"
      ∷ codes "coreutils"
      ∷ []))

-- The lower-case name chooses the way, which is given the name as it is written.
unfoldable pub bootstrap_rootfs : Text → Text → Text → FilePath → Action (Unit {0})
bootstrap_rootfs arch system version rootfs =
    let name = to_lowercase system in
    if is_among name (codes "alpine" ∷ [])
    then bootstrap_alpine arch version rootfs
    else if is_among name (codes "ubuntu" ∷ codes "debian" ∷ [])
    then bootstrap_debootstrap system version rootfs
    else if is_among name (codes "fedora" ∷ codes "rhel" ∷ codes "centos" ∷ [])
    then bootstrap_dnf version rootfs
    else throw unsupported_system
