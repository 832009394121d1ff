-- ===== src/Image/Tries.antt =====
-- Which of several addresses a download takes.
use virturust.Base.{
  ◌≡◌, refl, ap, ◌∙◌, true, false, List, [], ◌∷◌, ◌++◌, map, some, err, download_failed,
  client_failed, Result, ok, Bool, guard,
}
use virturust.Text.{Text}
use virturust.Text.Files.{FilePath}
use virturust.Sys.{
  History, Kernel, Action, and_then, ◌>>=◌, perform, attempt, fetch, http_client, download, body,
}
use virturust.Sys.Trace.{onto}
use virturust.Image.Mirror.{extract, with_body, try_urls, download_and_extract_tarball}

-- Each request of the addresses, made one behind the other, is not answered with success.
abbrev pub Refuses : Kernel → History → List Text → Type 0
Refuses k h [] = Unit
Refuses k h (url ∷ urls) = (k.succeeds h (download url) ≡ false) × Refuses k (download url ∷ h) urls

module _ (k : Kernel) (use_bytes : Text → Text → Action (Unit {0})) where
  -- The loop's round by the answer to its request.
  answer : Text → List Text → Result Bool × History → Result (Unit {0}) × History
  answer url urls r =
      and_then r.0
        (λ answered. elim answered as (λ _. Action (Unit {0})) [
          | true ↦ fetch (body url) >>= with_body (use_bytes url)
          | false ↦ try_urls use_bytes urls
        ])
        k r.1

  refused_lem :
      (h : History) (url : Text) (urls : List Text)
      → k.succeeds h (download url) ≡ false
      → try_urls use_bytes (url ∷ urls) k h ≡ try_urls use_bytes urls k (download url ∷ h)
  unfolding try_urls perform answer
  refused_lem h url urls e = ap (λ b. answer url urls (ok b, download url ∷ h)) e

  answered_lem :
      (h : History) (url : Text) (urls : List Text) (bytes : Text)
      → k.succeeds h (download url) ≡ true
      → k.contents (download url ∷ h) (body url) ≡ some bytes
      → try_urls use_bytes (url ∷ urls) k h ≡ use_bytes url bytes k (body url ∷ download url ∷ h)
  unfolding try_urls perform answer fetch with_body
  answered_lem h url urls bytes e d =
      ap (λ b. answer url urls (ok b, download url ∷ h)) e
      ∙ ap (λ o. with_body (use_bytes url) o k (body url ∷ download url ∷ h)) d

  try_urls_first :
      (h : History) (bad : List Text) (url : Text) (rest : List Text) (bytes : Text)
      → Refuses k h bad
      → k.succeeds (onto h (map download bad)) (download url) ≡ true
      → k.contents (download url ∷ onto h (map download bad)) (body url) ≡ some bytes
      → try_urls use_bytes (bad ++ url ∷ rest) k h
        ≡ use_bytes url bytes k (body url ∷ download url ∷ onto h (map download bad))
  try_urls_first h [] url rest bytes r e d = answered_lem h url rest bytes e d
  try_urls_first h (b ∷ bad) url rest bytes (rb, r) e d =
      refused_lem h b (bad ++ url ∷ rest) rb
      ∙ try_urls_first (download b ∷ h) bad url rest bytes r e d

  try_urls_none :
      (h : History) (urls : List Text)
      → Refuses k h urls
      → try_urls use_bytes urls k h ≡ (err download_failed, onto h (map download urls))
  try_urls_none h [] r = unfold try_urls in refl
  try_urls_none h (u ∷ urls) (ru, r) =
      refused_lem h u urls ru ∙ try_urls_none (download u ∷ h) urls r

module _ (k : Kernel) (h : History) (rootfs : FilePath)
    (client : k.succeeds h http_client ≡ true) where
  -- The client is made first, whatever follows.
  client_lem :
      (urls : List Text)
      → download_and_extract_tarball urls rootfs k h
        ≡ try_urls (extract rootfs) urls k (http_client ∷ h)
  unfolding download_and_extract_tarball attempt
  client_lem urls =
      ap
        (λ b.
          and_then (guard client_failed b) (λ _. try_urls (extract rootfs) urls) k
            (http_client ∷ h))
        client

  -- Of several addresses, where the requests of some are not answered with success and the request
  -- of the next one is: the archive of that one is extracted, and no other address is asked.
  pub download_takes_first :
      (bad : List Text) (url : Text) (rest : List Text) (bytes : Text)
      → Refuses k (http_client ∷ h) bad
      → k.succeeds (onto (http_client ∷ h) (map download bad)) (download url) ≡ true
      → k.contents (download url ∷ onto (http_client ∷ h) (map download bad)) (body url)
        ≡ some bytes
      → download_and_extract_tarball (bad ++ url ∷ rest) rootfs k h
        ≡ extract rootfs url bytes k
            (body url ∷ download url ∷ onto (http_client ∷ h) (map download bad))
  download_takes_first bad url rest bytes r e d =
      client_lem (bad ++ url ∷ rest)
      ∙ try_urls_first k (extract rootfs) (http_client ∷ h) bad url rest bytes r e d

  -- Where no request is answered with success, the download fails behind the last one.
  download_fails :
      (urls : List Text)
      → Refuses k (http_client ∷ h) urls
      → download_and_extract_tarball urls rootfs k h
        ≡ (err download_failed, onto (http_client ∷ h) (map download urls))
  download_fails urls r =
      client_lem urls ∙ try_urls_none k (extract rootfs) (http_client ∷ h) urls r
