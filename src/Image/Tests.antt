-- ===== src/Image/Tests.antt =====
-- The theorems on images at small examples.
use virturust.Base.{
  ◌≡◌, ◌≢◌, refl, sym, ◌∙◌, if◌then◌else◌, Bool, true, false, [], ◌∷◌, none, some, ok, err, Result,
  clean_failed, create_dir_failed, unsupported_image,
}
use virturust.Text.{codes, text_eq, text_eq_refl}
use virturust.Text.Files.{FilePath, join, needs_slash}
use virturust.Text.Case.{lower_char, to_lowercase, is_among}
use virturust.Sys.{Call, History, Kernel, http_client, download, body, exists, attempt, perform}
use virturust.Config.Dirs.{images_dir, data_dir}
use virturust.Image.{ImageHost, image_dir, image_exists}
use virturust.Image.Mirror.{extract, download_and_extract_tarball}
use virturust.Image.Pull.{renew_dir, pull_distro, pull_image}
use virturust.Image.Left.{made, KeepsDirs, image_exists-pull_image}
use virturust.Image.Tries.{download_takes_first}

-- A kernel that answers one address with success, and to which a directory exists that was made.
abbrev choosy_kernel : FilePath → Kernel
choosy_kernel p = record {
  succeeds = answer;
  contents = λ h c. some (1 ∷ 2 ∷ []);
  number = λ h c. 0;
  entries = λ h q. [];
}
  where
    answer : History → Call → Bool
    answer h (download url) = text_eq url (codes "b")
    answer h (exists q) = if text_eq p q then made p h else false
    answer h c = true

download_takes_first_example :
    download_and_extract_tarball
      (codes "a" ∷ codes "b" ∷ codes "c" ∷ [])
      (codes "/r")
      (choosy_kernel [])
      []
    ≡ extract
        (codes "/r")
        (codes "b")
        (1 ∷ 2 ∷ [])
        (choosy_kernel [])
        (body (codes "b") ∷ download (codes "b") ∷ download (codes "a") ∷ http_client ∷ [])
unfolding text_eq
download_takes_first_example =
    download_takes_first (choosy_kernel []) [] (codes "/r") refl (codes "a" ∷ []) (codes "b")
      (codes "c" ∷ []) (1 ∷ 2 ∷ []) (refl, tt) refl refl

abbrev image_host : ImageHost
image_host = record {
  env = record { data_dir_var = none; real_uid_var = none };
  arch = codes "x86_64";
  print_image = λ c. c.user;
  parse_image = λ t. none;
}

abbrev root : FilePath
root = join (image_dir image_host (codes "gentoo") (codes "1")) (codes "rootfs")

keeps_dirs : KeepsDirs (choosy_kernel root) root
keeps_dirs h m = rw (text_eq_refl root) m

refused_pull :
    (pull_image image_host (codes "gentoo") (codes "1") (choosy_kernel root) []).0
    ≡ err unsupported_image
unfolding pull_image renew_dir pull_distro to_lowercase lower_char text_eq is_among attempt perform
    join needs_slash images_dir data_dir made
refused_pull = refl

abbrev refusal : Result FilePath
refusal = err unsupported_image

not_clean : refusal ≢ err clean_failed
not_clean = λ e. cc

not_make : refusal ≢ err create_dir_failed
not_make = λ e. cc

image_exists-pull_image_example :
    (image_exists image_host
      (codes "gentoo")
      (codes "1")
      (choosy_kernel root)
      (pull_image image_host (codes "gentoo") (codes "1") (choosy_kernel root) []).1).0
    ≡ ok true
image_exists-pull_image_example =
    image_exists-pull_image image_host (codes "gentoo") (codes "1") (choosy_kernel root) []
      keeps_dirs (λ e. not_clean (sym refused_pull ∙ e)) (λ e. not_make (sym refused_pull ∙ e))
