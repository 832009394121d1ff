-- ===== src/Command/Diff.antt =====
-- The comparison of a container's changes with a snapshot, and the list of the snapshots, in
-- `cmd_snapshot` of src/main.rs.
use virturust.Base.{
  ℕ, zero, suc, ◌-◌, ◌/◌, Bool, true, false, ◌&&◌, List, [], ◌∷◌, ◌++◌, map, length, Option, none,
  some, ltb, leb, ◌==◌, if◌then◌else◌, io_error, not_found, panicked,
}
use virturust.Text.{Text, codes, text_eq, is_empty, strip_prefix}
use virturust.Text.Files.{FilePath, join, lines}
use virturust.Text.Number.{to_string}
use virturust.Text.Case.{is_among, reverse}
use virturust.Text.Paths.{extension}
use virturust.Sys.{
  Action, pure, throw, ◌>>=◌, ◌>>◌, perform, require, when, for_each, fetch, acquire, ask, DirEntry,
  run, exists, file_len, modified, unix_time,
}
use virturust.Cli.{
  SnapshotCommands, SnapshotDiffArgs, SnapshotLsArgs, snapshot_create, snapshot_restore,
  snapshot_ls, snapshot_rm, snapshot_diff,
}
use virturust.Container.Metadata.{Host}
use virturust.Container.Locate.{find_dir}
use virturust.Image.{entries_of}
use virturust.Command.Sizes.{Decimals, format_size, pad, dashes}
use virturust.Command.Volume.{say}
use virturust.Command.Snapshot.{upper_of, snap_dir, snap_path, list_files_recursive}
use virturust.Command.Snapshot

-- `l.trim_start_matches("./")`
unfoldable pub trim_dot_slash : Text → Text
trim_dot_slash [] = []
trim_dot_slash (c ∷ []) = c ∷ []
trim_dot_slash (c ∷ d ∷ s) =
    let rest = trim_dot_slash s in if (c == b'.') && (d == b'/') then rest else c ∷ d ∷ s

unfoldable pub without_empty : List Text → List Text
without_empty [] = []
without_empty (s ∷ ss) = let rest = without_empty ss in if is_empty s then rest else s ∷ rest

-- The names in the output of `tar tzf`.
unfoldable pub snapshot_files : Text → List Text
snapshot_files output = without_empty (map trim_dot_slash (lines output))

-- A hash set of names is a list without repetitions.
unfoldable pub to_set : List Text → List Text
to_set [] = []
to_set (x ∷ xs) = let rest = to_set xs in if is_among x rest then rest else x ∷ rest

-- `a.difference(&b)`
unfoldable pub difference : List Text → List Text → List Text
difference [] b = []
difference (x ∷ a) b = let rest = difference a b in if is_among x b then rest else x ∷ rest

-- `a.intersection(&b)`
unfoldable pub intersection : List Text → List Text → List Text
intersection [] b = []
intersection (x ∷ a) b = let rest = intersection a b in if is_among x b then x ∷ rest else rest

-- The order of texts.
unfoldable pub text_le : Text → Text → Bool
text_le [] t = true
text_le (c ∷ s) [] = false
text_le (c ∷ s) (d ∷ t) = let rest = text_le s t in if ltb c d then true else (c == d) && rest

unfoldable pub insert_text : Text → List Text → List Text
insert_text x [] = x ∷ []
insert_text x (y ∷ ys) = let rest = insert_text x ys in if text_le x y then x ∷ y ∷ ys else y ∷ rest

-- `v.sort()`
unfoldable pub sort_texts : List Text → List Text
sort_texts [] = []
sort_texts (x ∷ xs) = insert_text x (sort_texts xs)

-- The files that were added, those that were removed, and how many are in both.
pub record Diff : Type 0 where
  pub added : List Text
  pub removed : List Text
  pub common : ℕ

unfoldable pub diff_of : List Text → List Text → Diff
diff_of current snap = record {
  added = sort_texts (difference (to_set current) (to_set snap));
  removed = sort_texts (difference (to_set snap) (to_set current));
  common = length (intersection (to_set current) (to_set snap));
}

unfoldable pub print_diff : Diff → Action (Unit {0})
print_diff d = do
  for_each d.added (λ f. say ((27 ∷ codes "[32m+ ") ∷ f ∷ (27 ∷ codes "[0m") ∷ []))
  for_each d.removed (λ f. say ((27 ∷ codes "[31m- ") ∷ f ∷ (27 ∷ codes "[0m") ∷ []))
  say (
      codes "\n"
      ∷ to_string (length d.added)
      ∷ codes " added, "
      ∷ to_string (length d.removed)
      ∷ codes " removed, "
      ∷ to_string d.common
      ∷ codes " common"
      ∷ [])

unfoldable pub output_or_fail : Option Text → Action Text
output_or_fail none = throw io_error
output_or_fail (some text) = pure text

-- How long ago a snapshot was made; the difference of two u64s panics where it is negative.
unfoldable pub ago_text : ℕ → Text
ago_text ago =
    if ltb ago 60
    then to_string ago ++ codes "s ago"
    else if ltb ago 3600
    then to_string (ago / 60) ++ codes "m ago"
    else if ltb ago 86400
    then to_string (ago / 3600) ++ codes "h ago"
    else to_string (ago / 86400) ++ codes "d ago"

unfoldable pub modified_text : Option ℕ → Action Text
modified_text none = pure (codes "unknown")
modified_text (some secs) = do
  now ← ask unix_time
  require panicked (leb secs now)
  pure (ago_text (now - secs))

-- The name of an archive without all its endings.
unfoldable pub drop_prefixes : Text → ℕ → Text → Text
drop_prefixes prefix zero s = s
drop_prefixes prefix (suc fuel) s = elim (strip_prefix s prefix) [
  | none ↦ s
  | some rest ↦ drop_prefixes prefix fuel rest
]

-- `fname.trim_end_matches(".tar.gz")`
unfoldable pub snapshot_name : Text → Text
snapshot_name fname =
    reverse (drop_prefixes (reverse (codes ".tar.gz") []) (length fname) (reverse fname [])) []

abbrev is_gz : Option Text → Bool
is_gz none = false
is_gz (some ext) = text_eq ext (codes "gz")

-- The archives among the entries, each with the time of its last change.
unfoldable pub archives : FilePath → List (Option DirEntry) → Action (List (Text × Option ℕ))
archives dir [] = pure []
archives dir (none ∷ entries) = archives dir entries
archives dir (some entry ∷ entries) = do
  time ← acquire (modified (join dir entry.name))
  rest ← archives dir entries
  pure (if is_gz (extension (join dir entry.name)) then (entry.name, time) ∷ rest else rest)

-- No time comes before any time.
unfoldable pub time_le : Option ℕ → Option ℕ → Bool
time_le none b = true
time_le (some a) none = false
time_le (some a) (some b) = leb a b

unfoldable pub insert_by_time : Text × Option ℕ → List (Text × Option ℕ) → List (Text × Option ℕ)
insert_by_time x [] = x ∷ []
insert_by_time x (y ∷ ys) =
    let rest = insert_by_time x ys in if time_le x.1 y.1 then x ∷ y ∷ ys else y ∷ rest

unfoldable pub sort_by_time : List (Text × Option ℕ) → List (Text × Option ℕ)
sort_by_time [] = []
sort_by_time (x ∷ xs) = insert_by_time x (sort_by_time xs)

abbrev len_or_fail : Option ℕ → Action ℕ
len_or_fail none = throw io_error
len_or_fail (some n) = pure n

abbrev columns : Text → Text → Text → List Text
columns a b c = pad 20 a ∷ codes " " ∷ pad 12 b ∷ codes " " ∷ c ∷ []

unfoldable pub print_archive : Decimals → FilePath → Text × Option ℕ → Action (Unit {0})
print_archive dec dir (fname, time) = do
  len ← acquire (file_len (join dir fname))
  size ← len_or_fail len
  ago ← modified_text time
  say (columns (snapshot_name fname) (format_size dec size) ago)

unfoldable pub list_snapshots : Decimals → FilePath → Action (Unit {0})
list_snapshots dec dir = do
  entries ← entries_of dir
  found ← archives dir entries
  for_each (sort_by_time found) (print_archive dec dir)

module _ {F : Type 0} (host : Host F) (dec : Decimals) (depth : ℕ) where
  unfoldable pub ls_snapshots : SnapshotLsArgs → Action (Unit {0})
  ls_snapshots a = do
    dir ← find_dir host a.container
    say (columns (codes "NAME") (codes "SIZE") (codes "CREATED"))
    say (dashes 55 ∷ [])
    there ← perform (exists (snap_dir dir))
    when there (list_snapshots dec (snap_dir dir))

  -- The output of `tar` counts whatever its status is.
  unfoldable pub diff_snapshot : SnapshotDiffArgs → Action (Unit {0})
  diff_snapshot a = do
    dir ← find_dir host a.container
    there ← perform (exists (snap_path dir a.name))
    require not_found there
    current ← list_files_recursive depth (upper_of dir) []
    out ← fetch (run (codes "tar") (codes "tzf" ∷ snap_path dir a.name ∷ []))
    text ← output_or_fail out
    print_diff (diff_of current (snapshot_files text))

  unfoldable pub cmd_snapshot : SnapshotCommands → Action (Unit {0})
  cmd_snapshot (snapshot_create a) = Snapshot.snapshot_create host dec a
  cmd_snapshot (snapshot_restore a) = Snapshot.snapshot_restore host a
  cmd_snapshot (snapshot_ls a) = ls_snapshots a
  cmd_snapshot (snapshot_rm a) = Snapshot.snapshot_rm host a
  cmd_snapshot (snapshot_diff a) = diff_snapshot a
