-- ===== src/Network/Addresses.antt =====
-- The allocators of src/network.rs: `allocate_ip` and `allocate_network_octet`.
use virturust.Base.{
  ℕ, ◌+◌, Bool, true, false, ◌++◌, Option, none, some, leb, io_error, bad_number, pool_exhausted,
}
use virturust.Text.{Text, codes, trim}
use virturust.Text.Files.{FilePath}
use virturust.Text.Number.{parse_uint, u8_max, to_string}
use virturust.Sys.{
  Action, pure, throw, ◌>>=◌, ◌>>◌, perform, attempt, require, fetch, exists, read_file, write_file,
  create_dir_all,
}
use virturust.Network.Command.{network_state_dir, next_ip_file, networks_dir, numbered}

-- The next octet in a file: `first` if there is no file, an error if the file holds no `u8`.
unfoldable pub parse_octet : Option Text → Action ℕ
parse_octet none = throw io_error
parse_octet (some content) = elim (parse_uint u8_max (trim content)) [
  | none ↦ throw bad_number
  | some n ↦ pure n
]

unfoldable pub read_octet : Bool → FilePath → ℕ → Action ℕ
read_octet false path first = pure first
read_octet true path first = fetch (read_file path) >>= parse_octet

-- The same where the text is read with `unwrap_or(first)`.
unfoldable pub octet_or : ℕ → Option Text → Action ℕ
octet_or first none = throw io_error
octet_or first (some content) = elim (parse_uint u8_max (trim content)) [
  | none ↦ pure first
  | some n ↦ pure n
]

unfoldable pub read_octet_or : Bool → FilePath → ℕ → Action ℕ
read_octet_or false path first = pure first
read_octet_or true path first = fetch (read_file path) >>= octet_or first

-- An octet is handed out up to 254, and its successor written.
unfoldable pub advance : FilePath → ℕ → Action ℕ
advance path octet = do
  require pool_exhausted (leb octet 254)
  attempt io_error (write_file path (to_string (octet + 1)))
  pure octet

unfoldable pub allocate_ip : Action Text
allocate_ip = do
  attempt io_error (create_dir_all network_state_dir)
  there ← perform (exists next_ip_file)
  next ← read_octet there next_ip_file 2
  octet ← advance next_ip_file next
  pure (numbered (codes "10.0.42.") octet)

abbrev pub next_octet_file : FilePath
next_octet_file = networks_dir ++ codes "/.next_octet"

unfoldable pub allocate_network_octet : Action ℕ
allocate_network_octet = do
  attempt io_error (create_dir_all networks_dir)
  there ← perform (exists next_octet_file)
  next ← read_octet_or there next_octet_file 43
  advance next_octet_file next

-- Addresses are not reclaimed.
unfoldable pub release_ip : Text → Action (Unit {0})
release_ip container_id = pure tt
