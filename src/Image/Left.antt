-- ===== src/Image/Left.antt =====
-- What a pull leaves on the disk, whether it succeeds or not.
use virturust.Base.{
  ◌≡◌, ◌≢◌, ap, Bool, true, false, List, [], ◌∷◌, Option, none, some, arith, if◌then◌else◌, ok, err,
  inl, inr, ◌⊎◌, io_error, clean_failed, create_dir_failed, Result,
}
use virturust.Text.{Text, codes, text_eq, text_eq_refl}
use virturust.Text.Files.{FilePath, join}
use virturust.Text.Case.{to_lowercase}
use virturust.Sys.{
  Call, History, Kernel, Action, and_then, ◌>>=◌, ◌>>◌, perform, attempt, pure, write_file, fetch,
  download, body, exists, remove_dir_all, create_dir_all,
}
use virturust.Sys.Only.{Grows-keeps, Only, Only-bind, only_rules}
use virturust.Image.{ImageHost, image_dir, image_exists}
use virturust.Image.Mirror.{
  extract_with, extract_tar_xz, extract_tar_zst, extract, with_body, try_urls,
  download_and_extract_tarball,
}
use virturust.Image.Pull.{
  default_image_config, pull_alpine, pull_release, pull_ubuntu, pull_debian, pull_fedora, pull_arch,
  pull_void, pull_distro, renew_dir, copy_resolv_conf, pull_image,
}

-- Not a removal of a directory.
abbrev pub no_removal : Call → Bool
no_removal (remove_dir_all p) = false
no_removal c = true

-- Whether a directory was made and none removed since.
unfoldable pub made : FilePath → History → Bool
made p [] = false
made p (create_dir_all q ∷ h) = let rest = made p h in if text_eq p q then true else rest
made p (remove_dir_all q ∷ h) = false
made p (c ∷ h) = made p h

-- A directory that was made exists until a directory is removed.
abbrev pub KeepsDirs : Kernel → FilePath → Type 0
KeepsDirs k p = (h : History) → made p h ≡ true → k.succeeds h (exists p) ≡ true

made-step :
    (p : FilePath) (c : Call) (h : History)
    → no_removal c ≡ true
    → made p h ≡ true
    → made p (c ∷ h) ≡ true
unfolding made
made-step p c h s m = ground (arith, m)

Only-extract : (rootfs : FilePath) (url bytes : Text) → Only no_removal (extract rootfs url bytes)
unfolding extract extract_tar_xz extract_tar_zst extract_with
Only-extract rootfs url bytes = search (only_rules) depth 12

Only-with_body :
    (use_bytes : Text → Action (Unit {0})) (bytes : Option Text)
    → ((b : Text) → Only no_removal (use_bytes b))
    → Only no_removal (with_body use_bytes bytes)
unfolding with_body
Only-with_body use_bytes none o = search only_rules
Only-with_body use_bytes (some bytes) o = o bytes

Only-answered :
    (rootfs : FilePath) (url : Text) (rest : Action (Unit {0})) (answered : Bool)
    → Only no_removal rest
    → Only no_removal (elim answered as (λ _. Action (Unit {0})) [
      | true ↦ fetch (body url) >>= with_body (extract rootfs url)
      | false ↦ rest
    ])
Only-answered rootfs url rest true o = search (only_rules, Only-with_body, Only-extract) depth 8
Only-answered rootfs url rest false o = o

Only-try_urls :
    (rootfs : FilePath) (urls : List Text) → Only no_removal (try_urls (extract rootfs) urls)
unfolding try_urls
Only-try_urls rootfs [] = search only_rules
Only-try_urls rootfs (url ∷ urls) =
    Only-bind no_removal (perform (download url)) _ (search only_rules) (λ answered.
      Only-answered rootfs url (try_urls (extract rootfs) urls) answered
        (Only-try_urls rootfs urls))

Only-download :
    (urls : List Text) (rootfs : FilePath)
    → Only no_removal (download_and_extract_tarball urls rootfs)
unfolding download_and_extract_tarball
Only-download urls rootfs = search (only_rules, Only-try_urls) depth 8

Only-pull_release :
    (arch : Text) (rootfs : FilePath) (release : Option (Text × Text))
    → Only no_removal (pull_release arch rootfs release)
unfolding pull_release
Only-pull_release arch rootfs none = search only_rules
Only-pull_release arch rootfs (some r) = Only-download _ rootfs

Only-pull_distro :
    (arch name tag : Text) (rootfs : FilePath) → Only no_removal (pull_distro arch name tag rootfs)
unfolding pull_distro pull_alpine pull_ubuntu pull_debian pull_fedora pull_arch pull_void
Only-pull_distro arch name tag rootfs =
    search (only_rules, Only-download, Only-pull_release) depth 16

Only-copy_resolv_conf : (rootfs : FilePath) → Only no_removal (copy_resolv_conf rootfs)
unfolding copy_resolv_conf
Only-copy_resolv_conf rootfs = search (only_rules) depth 10

-- What the directory's renewal gives.
Renewed : FilePath → Result (Unit {0}) × History → Type 0
Renewed p (ok u, h) = made p h ≡ true
Renewed p (err e, h) = (e ≡ clean_failed) ⊎ (e ≡ create_dir_failed)

renew_dir-Renewed : (p : FilePath) (k : Kernel) (h : History) → Renewed p (renew_dir p k h)
unfolding renew_dir Renewed perform attempt made
renew_dir-Renewed p k h = ground (arith, text_eq_refl p)

-- The answer of `exists` for a root that was made.
there_lem :
    (host : ImageHost) (name tag : Text) (k : Kernel) (h : History)
    → KeepsDirs k (join (image_dir host name tag) (codes "rootfs"))
    → made (join (image_dir host name tag) (codes "rootfs")) h ≡ true
    → (image_exists host name tag k h).0 ≡ ok true
unfolding image_exists perform
there_lem host name tag k h keeps m = ap ok (keeps h m)

-- `pull_image` behind the renewal of the root.
fill : ImageHost → Text → Text → Action FilePath
fill host name tag = do
  pull_distro host.arch (to_lowercase name) tag (join (image_dir host name tag) (codes "rootfs"))
  copy_resolv_conf (join (image_dir host name tag) (codes "rootfs"))
  attempt io_error (
      write_file (join (image_dir host name tag) (codes "config.json"))
        (host.print_image default_image_config))
  pure (join (image_dir host name tag) (codes "rootfs"))

Only-fill : (host : ImageHost) (name tag : Text) → Only no_removal (fill host name tag)
unfolding fill
Only-fill host name tag = search (only_rules, Only-pull_distro, Only-copy_resolv_conf) depth 10

module _ (host : ImageHost) (name tag : Text) (k : Kernel) where
  filled :
      (r : Result (Unit {0}) × History)
      → KeepsDirs k (join (image_dir host name tag) (codes "rootfs"))
      → Renewed (join (image_dir host name tag) (codes "rootfs")) r
      → (and_then r.0 (λ _. fill host name tag) k r.1).0 ≢ err clean_failed
      → (and_then r.0 (λ _. fill host name tag) k r.1).0 ≢ err create_dir_failed
      → (image_exists host name tag k (and_then r.0 (λ _. fill host name tag) k r.1).1).0 ≡ ok true
  unfolding Renewed
  filled (ok u, h) keeps m c1 c2 = there_lem host name tag k (fill host name tag k h).1 keeps (
      Grows-keeps (λ h'. made (join (image_dir host name tag) (codes "rootfs")) h' ≡ true)
        (made-step (join (image_dir host name tag) (codes "rootfs")))
        ((Only-fill host name tag).at k h) m)
  filled (err e, h) keeps (inl p) c1 c2 = absurd (c1 (ap err p))
  filled (err e, h) keeps (inr p) c1 c2 = absurd (c2 (ap err p))

  -- Where a directory that was made exists until one is removed: a pull that ends with anything but
  -- the errors of clearing and making the root leaves an image that counts as there.
  pub image_exists-pull_image :
      (h : History)
      → KeepsDirs k (join (image_dir host name tag) (codes "rootfs"))
      → (pull_image host name tag k h).0 ≢ err clean_failed
      → (pull_image host name tag k h).0 ≢ err create_dir_failed
      → (image_exists host name tag k (pull_image host name tag k h).1).0 ≡ ok true
  unfolding pull_image fill
  image_exists-pull_image h keeps c1 c2 =
      filled (renew_dir (join (image_dir host name tag) (codes "rootfs")) k h) keeps
        (renew_dir-Renewed (join (image_dir host name tag) (codes "rootfs")) k h) c1 c2
