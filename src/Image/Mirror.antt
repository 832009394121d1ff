-- ===== src/Image/Mirror.antt =====
-- `download_and_extract_tarball` of src/image.rs.
use virturust.Base.{
  true, false, ◌||◌, List, [], ◌∷◌, Option, none, some, if◌then◌else◌, io_error, client_failed,
  download_failed, extract_failed, tar_failed,
}
use virturust.Text.{Text, codes}
use virturust.Text.Files.{FilePath}
use virturust.Text.Case.{ends_with}
use virturust.Sys.{
  Action, throw, ◌>>=◌, ◌>>◌, perform, attempt, fetch, http_client, download, body, unpack_tar_gz,
  spawn, feed, await_program,
}

-- The system's `tar` with the archive on its standard input.
unfoldable pub extract_with : List Text → Text → Action (Unit {0})
extract_with args bytes = do
  attempt tar_failed (spawn (codes "tar") args)
  attempt io_error (feed bytes)
  attempt tar_failed await_program

unfoldable pub extract_tar_xz : Text → FilePath → Action (Unit {0})
extract_tar_xz bytes rootfs =
    extract_with (codes "xJf" ∷ codes "-" ∷ codes "-C" ∷ rootfs ∷ []) bytes

unfoldable pub extract_tar_zst : Text → FilePath → Action (Unit {0})
extract_tar_zst bytes rootfs =
    extract_with (codes "--zstd" ∷ codes "-xf" ∷ codes "-" ∷ codes "-C" ∷ rootfs ∷ []) bytes

-- By the suffix of the address.
unfoldable pub extract : FilePath → Text → Text → Action (Unit {0})
extract rootfs url bytes =
    if ends_with url (codes ".tar.gz") || ends_with url (codes ".tgz")
    then attempt extract_failed (unpack_tar_gz true bytes rootfs)
    else if ends_with url (codes ".tar.xz")
    then extract_tar_xz bytes rootfs
    else if ends_with url (codes ".tar.zst")
    then extract_tar_zst bytes rootfs
    else attempt extract_failed (unpack_tar_gz false bytes rootfs)

-- The rest of an answer, which may still fail to arrive.
unfoldable pub with_body : (Text → Action (Unit {0})) → Option Text → Action (Unit {0})
with_body use_bytes none = throw download_failed
with_body use_bytes (some bytes) = use_bytes bytes

-- The loop over the addresses: the first answer with success is the last request.
unfoldable pub try_urls : (Text → Text → Action (Unit {0})) → List Text → Action (Unit {0})
try_urls use_bytes [] = throw download_failed
try_urls use_bytes (url ∷ urls) = do
  answered ← perform (download url)
  elim answered [
    | true ↦ fetch (body url) >>= with_body (use_bytes url)
    | false ↦ try_urls use_bytes urls
  ]

unfoldable pub download_and_extract_tarball : List Text → FilePath → Action (Unit {0})
download_and_extract_tarball urls rootfs = do
  attempt client_failed http_client
  try_urls (extract rootfs) urls
