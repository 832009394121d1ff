-- ===== src/Namespace/User.antt =====
-- `apply_user` and the look-ups in /etc/passwd and /etc/group.
use virturust.Base.{
  ℕ, List, [], ◌∷◌, Option, none, some, if◌then◌else◌, io_error, bad_number, unknown_user,
  unknown_group, setgid_failed, setuid_failed, Error, Result, ok, err,
}
use virturust.Text.{Text, codes, text_eq}
use virturust.Text.Files.{lines}
use virturust.Text.Splitting.{split, split_once}
use virturust.Text.Number.{u32_max, parse_uint}
use virturust.Sys.{Action, pure, throw, ◌>>=◌, ◌>>◌, fetch, attempt, read_file, setgid, setuid}

-- A line with three fields or more, as its first and third field.
unfoldable pub name_and_id : List Text → Option (Text × Text)
name_and_id (name ∷ password ∷ id ∷ rest) = some (name, id)
name_and_id _ = none

-- The id of a name in a line, if the line is the name's.
unfoldable pub id_in_line : Text → Text → Option Text
id_in_line name line = elim (name_and_id (split b':' line)) [
  | none ↦ none
  | some (field, id) ↦ if text_eq field name then some id else none
]

unfoldable pub find_id : Error → Text → List Text → Result ℕ
find_id missing name [] = err missing
find_id missing name (line ∷ rest) = elim (id_in_line name line) [
  | none ↦ find_id missing name rest
  | some id ↦ elim (parse_uint u32_max id) [ none ↦ err bad_number | some n ↦ ok n ]
]

unfoldable pub lift : Result ℕ → Action ℕ
lift r k h = (r, h)

unfoldable pub lookup_uid : Text → Action ℕ
lookup_uid username = do
  passwd ← fetch (read_file (codes "/etc/passwd"))
  elim passwd [
    | none ↦ throw io_error
    | some text ↦ lift (find_id unknown_user username (lines text))
  ]

unfoldable pub lookup_gid : Text → Action ℕ
lookup_gid groupname = do
  group ← fetch (read_file (codes "/etc/group"))
  elim group [
    | none ↦ throw io_error
    | some text ↦ lift (find_id unknown_group groupname (lines text))
  ]

-- `(user_part, group_part)`
unfoldable pub user_and_group : Text → Text × Option Text
user_and_group spec = elim (split_once b':' spec) [
  | some (u, g) ↦ (u, some g)
  | none ↦ (spec, none)
]

unfoldable pub uid_of : Text → Action ℕ
uid_of user_part = elim (parse_uint u32_max user_part) [
  | some uid ↦ pure uid
  | none ↦ lookup_uid user_part
]

unfoldable pub gid_of : Text → Action ℕ
gid_of group = elim (parse_uint u32_max group) [ some gid ↦ pure gid | none ↦ lookup_gid group ]

unfoldable pub switch : ℕ → Option ℕ → Action (Unit {0})
switch uid none = attempt setuid_failed (setuid uid)
switch uid (some gid) = do attempt setgid_failed (setgid gid); attempt setuid_failed (setuid uid)

unfoldable pub apply_parts : Text → Option Text → Action (Unit {0})
apply_parts user none = do uid ← uid_of user; switch uid none
apply_parts user (some group) = do uid ← uid_of user; gid ← gid_of group; switch uid (some gid)

unfoldable pub apply_user : Text → Action (Unit {0})
apply_user spec = apply_parts (user_and_group spec).0 (user_and_group spec).1
