-- ===== src/Command/Privileges.antt =====
-- Who may use the program: the start of `main`, `user_in_group` and `require_privileges` of
-- src/main.rs, and `has_cap_sys_admin` of src/config.rs.
use virturust.Base.{
  ℕ, ◌+◌, ◌-◌, ◌*◌, ◌/◌, ◌%◌, ◌^◌, Bool, true, false, ◌&&◌, List, [], ◌∷◌, Option, none, some, take,
  leb, ltb, ◌==◌, if◌then◌else◌, group_denied, privileges_missing,
}
use virturust.Text.{Text, codes, strip_prefix, trim}
use virturust.Text.Files.{lines}
use virturust.Text.Number.{to_string, u64_max}
use virturust.Sys.{
  Action, pure, throw, ◌>>=◌, ◌>>◌, require, drop_answer, ask, fetch, read_file, print, exit,
  getuid, getgid, geteuid, setresgid, setresuid, setenv,
}

-- What the C library answers: the id of a group, the name and group of a user, and all groups of a
-- user.
pub record Accounts : Type 0 where
  pub group_gid : Text → Option ℕ
  pub passwd : ℕ → Option (Text × ℕ)
  pub group_list : Text → ℕ → List ℕ

unfoldable pub contains_id : List ℕ → ℕ → Bool
contains_id [] x = false
contains_id (y ∷ ys) x = let rest = contains_id ys x in if y == x then true else rest

-- The list of the groups has room for 64.
unfoldable pub user_in_group : Accounts → ℕ → ℕ → Bool
user_in_group accounts uid target_gid = elim (accounts.passwd uid) [
  | none ↦ false
  | some (name, gid) ↦
      if gid == target_gid
      then true
      else contains_id (take 64 (accounts.group_list name gid)) target_gid
]

unfoldable pub in_corten_group : Accounts → ℕ → Option ℕ → Bool
in_corten_group accounts uid none = true
in_corten_group accounts uid (some required_gid) = user_in_group accounts uid required_gid

-- Root, or a member of the group if there is one.
unfoldable pub is_admitted : Accounts → ℕ → Bool
is_admitted accounts uid =
    if uid == 0 then true else in_corten_group accounts uid (accounts.group_gid (codes "corten"))

-- The variables are set if the first of them is unset.
unfoldable pub keep_real_user : ℕ → Option Text → Action (Unit {0})
keep_real_user uid (some value) = pure tt
keep_real_user uid none = do
  drop_answer (setenv (codes "CORTEN_REAL_UID") (to_string uid))
  gid ← ask getgid
  drop_answer (setenv (codes "CORTEN_REAL_GID") (to_string gid))

unfoldable pub elevate : ℕ → Option Text → Bool → Action (Unit {0})
elevate uid real_uid_var false = do
  drop_answer (print (codes "Permission denied: user is not in the 'corten' group.\n"))
  drop_answer (exit 1)
  throw group_denied
elevate uid real_uid_var true = do
  drop_answer setresgid
  drop_answer setresuid
  keep_real_user uid real_uid_var

-- `main` up to the logger, with the command that follows for the user.
unfoldable pub main_with : Accounts → Option Text → (ℕ → Action (Unit {0})) → Action (Unit {0})
main_with accounts real_uid_var command = do
  uid ← ask getuid
  elevate uid real_uid_var (is_admitted accounts uid)
  command uid

unfoldable pub hex_digit : ℕ → Option ℕ
hex_digit c =
    if leb b'0' c && leb c b'9'
    then some (c - b'0')
    else if leb b'a' c && leb c b'f'
    then some (c - b'a' + 10)
    else if leb b'A' c && leb c b'F'
    then some (c - b'A' + 10)
    else none

-- `checked_mul` and `checked_add` at a u64.
unfoldable pub hex_digits : Text → ℕ → Option ℕ
hex_digits [] n = some n
hex_digits (c ∷ s) n = elim (hex_digit c) [
  | none ↦ none
  | some d ↦ elim (ltb u64_max (n * 16 + d)) [ true ↦ none | false ↦ hex_digits s (n * 16 + d) ]
]

-- `u64::from_str_radix(s, 16)`
unfoldable pub parse_hex : Text → Option ℕ
parse_hex [] = none
parse_hex (c ∷ []) = hex_digits (c ∷ []) 0
parse_hex (c ∷ d ∷ s) = if c == b'+' then hex_digits (d ∷ s) 0 else hex_digits (c ∷ d ∷ s) 0

-- The number behind the label, if the line is the label's.
unfoldable pub effective_caps : Text → Option ℕ
effective_caps line = elim (strip_prefix line (codes "CapEff:\t")) [
  | none ↦ none
  | some hex ↦ parse_hex (trim hex)
]

-- Bit 21 in the first line that has a number.
unfoldable pub caps_allow : List Text → Bool
caps_allow [] = false
caps_allow (line ∷ rest) = elim (effective_caps line) [
  | none ↦ caps_allow rest
  | some caps ↦ ((caps / 2 ^ 21) % 2) == 1
]

unfoldable pub status_allows : Option Text → Bool
status_allows none = false
status_allows (some status) = caps_allow (lines status)

unfoldable pub allowed_by_status : Bool → Action Bool
allowed_by_status true = pure true
allowed_by_status false = do
  status ← fetch (read_file (codes "/proc/self/status"))
  pure (status_allows status)

unfoldable pub has_cap_sys_admin : Action Bool
has_cap_sys_admin = do euid ← ask geteuid; allowed_by_status (euid == 0)

unfoldable pub require_privileges : Action (Unit {0})
require_privileges = do allowed ← has_cap_sys_admin; require privileges_missing allowed
