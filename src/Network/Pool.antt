-- ===== src/Network/Pool.antt =====
-- The allocators of src/network.rs over many calls.
use virturust.Base.{
  ℕ, zero, suc, ◌+◌, ◌≤◌, ◌≡◌, refl, sym, ap, subst, ◌∙◌, ◌⊎◌, inl, inr, true, List, [], ◌∷◌, none,
  some, map, append-nil, arith, ok, err, leb, bad_number, ◌<◌, pool_exhausted,
}
use virturust.Text.{Text, codes, trim}
use virturust.Text.Files.{FilePath}
use virturust.Text.Number.{
  to_string, parse_uint, u8_max, parse_uint-to_string, to_string-IsSolid, to_string-ne-nil,
}
use virturust.Text.Trimming.{trim_padded}
use virturust.Sys.{
  History, Kernel, Action, pure, throw, and_then, ◌>>=◌, perform, attempt, require, fetch, exists,
  read_file, write_file, create_dir_all,
}
use virturust.Sys.Store.{stored, is_some, StoresFile, stored-write_file}
use virturust.Network.Command.{network_state_dir, next_ip_file, numbered}
use virturust.Network.Addresses.{parse_octet, read_octet, advance, allocate_ip}

trim-to_string : (n : ℕ) → trim (to_string n) ≡ to_string n
trim-to_string n =
    ap trim (sym (append-nil (to_string n)))
    ∙ trim_padded [] (to_string n) [] tt (to_string-IsSolid n) (to_string-ne-nil n) tt

parse_octet-to_string :
    (n : ℕ) (k : Kernel) (h : History) → n ≤ 255 → parse_octet (some (to_string n)) k h ≡ (ok n, h)
unfolding parse_octet
parse_octet-to_string n k h le =
    ap (λ o. (elim o as (λ _. Action ℕ) [ none ↦ throw bad_number | some m ↦ pure m ]) k h)
      (ap (parse_uint u8_max) (trim-to_string n) ∙ parse_uint-to_string u8_max n le)

-- The next octet that the file stands for; a missing file stands for the first.
abbrev pub Next : FilePath → ℕ → ℕ → History → Type 0
Next p first n h = ((stored p h ≡ none) × (n ≡ first)) ⊎ (stored p h ≡ some (to_string n))

-- What reading the file yields, and that the file is not changed.
abbrev Reads : FilePath → ℕ → ℕ → Kernel → History → Type 0
Reads p first n k h =
    (h' : History) × (read_octet (k.succeeds h (exists p)) p first k (exists p ∷ h) ≡ (ok n, h'))
    × (stored p h' ≡ stored p h)

read_octet_lem :
    (p : FilePath) (first n : ℕ) (k : Kernel) (h : History)
    → StoresFile k p
    → Next p first n h
    → n ≤ 255
    → Reads p first n k h
unfolding read_octet fetch stored
read_octet_lem p first n k h s (inl (e, eq)) le = (
  exists p ∷ h,
  ap (λ b. read_octet b p first k (exists p ∷ h)) (s.sees h ∙ ap is_some e)
      ∙ ap (λ m. (ok m, exists p ∷ h)) (sym eq),
  refl,
)
read_octet_lem p first n k h s (inr e) le = (
  read_file p ∷ exists p ∷ h,
  ap (λ b. read_octet b p first k (exists p ∷ h)) (s.sees h ∙ ap is_some e)
      ∙ ap (λ o. parse_octet o k (read_file p ∷ exists p ∷ h)) (s.reads (exists p ∷ h) ∙ e)
      ∙ parse_octet-to_string n k (read_file p ∷ exists p ∷ h) le,
  refl,
)

leb-true : (n : ℕ) → n ≤ 254 → leb n 254 ≡ true
leb-true n le = ground arith

advance_ok :
    (p : FilePath) (n : ℕ) (k : Kernel) (h : History)
    → StoresFile k p
    → n ≤ 254
    → advance p n k h ≡ (ok n, write_file p (to_string (n + 1)) ∷ h)
unfolding advance attempt require
advance_ok p n k h s le = rw (leb-true n le, s.writes h (to_string (n + 1)))

advance_exhausted :
    (p : FilePath) (n : ℕ) (k : Kernel) (h : History)
    → 254 < n
    → advance p n k h ≡ (err pool_exhausted, h)
unfolding advance attempt require
advance_exhausted p n k h lt = ground arith

-- The action that `allocate_ip` is, once the file has been read.
allocate_ip_read :
    (n : ℕ) (k : Kernel) (h h' : History)
    → StoresFile k next_ip_file
    → read_octet
        (k.succeeds (create_dir_all network_state_dir ∷ h) (exists next_ip_file))
        next_ip_file
        2
        k
        (exists next_ip_file ∷ create_dir_all network_state_dir ∷ h)
      ≡ (ok n, h')
    → allocate_ip k h
      ≡ (advance next_ip_file n >>= λ octet. pure (numbered (codes "10.0.42.") octet)) k h'
unfolding allocate_ip attempt perform
allocate_ip_read n k h h' s e = rw (s.makes_dirs h network_state_dir, e)

allocate_ip_ok :
    (n : ℕ) (k : Kernel) (h : History)
    → StoresFile k next_ip_file
    → Next next_ip_file 2 n h
    → n ≤ 254
    → (h' : History) × (allocate_ip k h ≡ (ok (numbered (codes "10.0.42.") n), h'))
      × Next next_ip_file 2 (n + 1) h'
unfolding stored
allocate_ip_ok n k h s next le =
    go (
      read_octet_lem next_ip_file 2 n k (create_dir_all network_state_dir ∷ h) s next (omega arith))
  where
    go :
        Reads next_ip_file 2 n k (create_dir_all network_state_dir ∷ h)
        → (h' : History) × (allocate_ip k h ≡ (ok (numbered (codes "10.0.42.") n), h'))
          × Next next_ip_file 2 (n + 1) h'
    go (h1, e, same) = (
      write_file next_ip_file (to_string (n + 1)) ∷ h1,
      allocate_ip_read n k h h1 s e
          ∙ ap (λ r. and_then r.0 (λ octet. pure (numbered (codes "10.0.42.") octet)) k r.1)
              (advance_ok next_ip_file n k h1 s le),
      inr (stored-write_file next_ip_file (to_string (n + 1)) h1),
    )

allocate_ip_exhausted :
    (k : Kernel) (h : History)
    → StoresFile k next_ip_file
    → Next next_ip_file 2 255 h
    → (h' : History) × (allocate_ip k h ≡ (err pool_exhausted, h')) × Next next_ip_file 2 255 h'
unfolding stored
allocate_ip_exhausted k h s (inl (e, n)) = absurd (omega arith)
allocate_ip_exhausted k h s (inr e) = go (
    read_octet_lem next_ip_file 2 255 k (create_dir_all network_state_dir ∷ h) s (inr e)
      (omega arith))
  where
    go :
        Reads next_ip_file 2 255 k (create_dir_all network_state_dir ∷ h)
        → (h' : History) × (allocate_ip k h ≡ (err pool_exhausted, h')) × Next next_ip_file 2 255 h'
    go (h1, e1, same) = (
      h1,
      allocate_ip_read 255 k h h1 s e1
          ∙ ap (λ r. and_then r.0 (λ octet. pure (numbered (codes "10.0.42.") octet)) k r.1)
              (advance_exhausted next_ip_file 255 k h1 (omega arith)),
      inr (same ∙ e),
    )

-- `count` calls of `allocate_ip`, and what they hand out.
unfoldable pub allocate_times : ℕ → Action (List Text)
allocate_times zero = pure []
allocate_times (suc count) = do ip ← allocate_ip; rest ← allocate_times count; pure (ip ∷ rest)

-- `count` octets from `n` upwards.
abbrev pub upward : ℕ → ℕ → List ℕ
upward n zero = []
upward n (suc count) = n ∷ upward (n + 1) count

abbrev pub address : ℕ → Text
address n = numbered (codes "10.0.42.") n

-- What `count` calls hand out from `n` on, and what they leave in the file.
abbrev pub HandsOut : ℕ → ℕ → Kernel → History → Type 0
HandsOut count n k h =
    (h' : History) × (allocate_times count k h ≡ (ok (map address (upward n count)), h'))
    × Next next_ip_file 2 (n + count) h'

same-Next : {m n : ℕ} (h : History) → m ≡ n → Next next_ip_file 2 m h → Next next_ip_file 2 n h
same-Next h e next = subst (λ x. Next next_ip_file 2 x h) e next

one_more :
    (count n : ℕ) (k : Kernel) (h h1 : History)
    → allocate_ip k h ≡ (ok (address n), h1)
    → HandsOut count (n + 1) k h1
    → HandsOut (suc count) n k h
unfolding allocate_times
one_more count n k h h1 e1 (h2, e2, next) = (
  h2,
  ap (λ r. and_then r.0 (λ ip. allocate_times count >>= λ rest. pure (ip ∷ rest)) k r.1) e1
      ∙ ap (λ r. and_then r.0 (λ rest. pure (address n ∷ rest)) k r.1) e2,
  same-Next h2 (omega arith) next,
)

allocate_times_from :
    (count n : ℕ) (k : Kernel) (h : History)
    → StoresFile k next_ip_file
    → Next next_ip_file 2 n h
    → n + count ≤ 255
    → HandsOut count n k h
unfolding allocate_times
allocate_times_from zero n k h s next le = (h, refl, same-Next h (omega arith) next)
allocate_times_from (suc count) n k h s next le =
    let (h1, e1, next1) = allocate_ip_ok n k h s next (omega arith) in
    one_more count n k h h1 e1 (allocate_times_from count (n + 1) k h1 s next1 (omega arith))

-- Where no address was handed out and the file system keeps what is written: up to 253 calls of
-- `allocate_ip` hand out 10.0.42.2, 10.0.42.3 and so on, each address once, and no call fails.
pub allocate_ip_fresh :
    (count : ℕ) (k : Kernel) (h : History)
    → StoresFile k next_ip_file
    → stored next_ip_file h ≡ none
    → count ≤ 253
    → HandsOut count 2 k h
allocate_ip_fresh count k h s e le = allocate_times_from count 2 k h s (inl (e, refl)) (omega arith)

-- Where no address was handed out and the file system keeps what is written: the call after 253
-- calls of `allocate_ip` fails with the error that the pool is exhausted, and leaves the file as
-- it is, still standing for 255.
pub allocate_ip_full :
    (k : Kernel) (h : History)
    → StoresFile k next_ip_file
    → stored next_ip_file h ≡ none
    → (h' : History) × (allocate_ip k (allocate_times 253 k h).1 ≡ (err pool_exhausted, h'))
      × Next next_ip_file 2 255 h'
allocate_ip_full k h s e =
    let (h1, e1, next) = allocate_ip_fresh 253 k h s e (omega arith) in
    allocate_ip_exhausted k _ s (subst (Next next_ip_file 2 255) (sym (ap (λ r. r.1) e1)) next)
