-- ===== src/Command/Stats.antt =====
-- `cmd_stats` of src/main.rs.
use virturust.Base.{
  ℕ, zero, suc, ◌/◌, Bool, true, false, not, ◌&&◌, ◌||◌, List, [], ◌∷◌, ◌++◌, Option, none, some,
  ltb, if◌then◌else◌, io_error,
}
use virturust.Text.Bytes.{cut_bytes}
use virturust.Text.{Text, codes, text_eq, starts_with, trim}
use virturust.Text.Files.{FilePath, join, lines}
use virturust.Text.Number.{to_string, parse_uint, u64_max}
use virturust.Text.Case.{get_or, split_whitespace}
use virturust.Sys.{
  Action, pure, throw, ok_of, ◌>>=◌, ◌>>◌, perform, drop_answer, when, fetch, list_dir, DirEntry,
  exists, read_file, print, sleep,
}
use virturust.Config.{ContainerConfig, ContainerState}
use virturust.Config.Dirs.{containers_dir}
use virturust.Cli.{StatsArgs}
use virturust.Container.Metadata.{Host, load_state, load_config, is_process_alive}
use virturust.Image.{entries_of}
use virturust.Command.Sizes.{Decimals, format_bytes_short, pad, dashes}
use virturust.Command.Snapshot.{is_running}
use virturust.Command.Volume.{say}

abbrev number_in : Text → ℕ
number_in text = get_or 0 (parse_uint u64_max text)

-- A file that holds a number, or else 0.
unfoldable pub read_number : FilePath → Action ℕ
read_number path = do text ← fetch (read_file path); pure (number_in (trim (get_or [] text)))

abbrev second_number : List Text → ℕ
second_number (w ∷ v ∷ ws) = number_in v
second_number _ = 0

-- The number in the first line that has the label.
unfoldable pub cpu_usage_of : List Text → ℕ
cpu_usage_of [] = 0
cpu_usage_of (l ∷ ls) =
    let rest = cpu_usage_of ls in
    if starts_with l (codes "usage_usec") then second_number (split_whitespace l) else rest

unfoldable pub is_limit : ℕ → Bool
is_limit mem_max = ltb 0 mem_max && ltb mem_max (u64_max / 2)

abbrev pub cgroup_file : Text → Text → FilePath
cgroup_file id name = codes "/sys/fs/cgroup/corten/" ++ (id ++ (codes "/" ++ name))

-- The two floating-point quotients of a row: a percentage with one place, and seconds with two.
pub record Quotients : Type 0 where
  pub percent : ℕ → ℕ → Text
  pub seconds : ℕ → Text

abbrev columns : Text → Text → Text → Text → Text → List Text
columns a b c d e =
    pad 14 a
    ∷ codes " "
    ∷ pad 10 b
    ∷ codes " "
    ∷ pad 20 c
    ∷ codes " "
    ∷ pad 15 d
    ∷ codes " "
    ∷ pad 10 e
    ∷ []

-- A container is shown if no name is given, or by its name or the start of its id.
unfoldable pub is_shown : {F : Type 0} → Option Text → ContainerConfig F → Bool
is_shown none cfg = true
is_shown (some name) cfg = text_eq cfg.name name || starts_with cfg.id name

module _ {F : Type 0} (host : Host F) (dec : Decimals) (quotients : Quotients) where
  unfoldable pub print_stats : ContainerConfig F → Action (Unit {0})
  print_stats cfg = do
    mem_current ← read_number (cgroup_file cfg.id (codes "memory.current"))
    mem_max ← read_number (cgroup_file cfg.id (codes "memory.max"))
    pids_current ← read_number (cgroup_file cfg.id (codes "pids.current"))
    cpu_stat ← fetch (read_file (cgroup_file cfg.id (codes "cpu.stat")))
    name ← cut_bytes 13 cfg.name
    say (
        columns name (quotients.seconds (cpu_usage_of (lines (get_or [] cpu_stat))))
          (format_bytes_short dec mem_current
            ++ (codes " / "
                ++ (if is_limit mem_max then format_bytes_short dec mem_max else codes "--")))
          (if is_limit mem_max then quotients.percent mem_current mem_max else codes "--")
          (to_string pids_current))

  -- A container without a process id or with the id 0 is left out.
  unfoldable pub stats_if_alive : ContainerConfig F → Option ℕ → Action (Unit {0})
  stats_if_alive cfg none = pure tt
  stats_if_alive cfg (some zero) = pure tt
  stats_if_alive cfg (some (suc pid)) = do
    alive ← is_process_alive (suc pid)
    when alive (print_stats cfg)

  unfoldable pub stats_of : Option Text → Option (ContainerConfig F) → FilePath → Action (Unit {0})
  stats_of name none path = pure tt
  stats_of name (some cfg) path = do
    state ← ok_of (load_state host path)
    elim state [
      | none ↦ pure tt
      | some s ↦ when (is_running s.status && is_shown name cfg) (stats_if_alive cfg s.pid)
    ]

  unfoldable pub stats_entries : Option Text → FilePath → List (Option DirEntry) → Action (Unit {0})
  stats_entries name dir [] = pure tt
  stats_entries name dir (none ∷ entries) = throw io_error
  stats_entries name dir (some entry ∷ entries) = do
    cfg ← ok_of (load_config host (join dir entry.name))
    stats_of name cfg (join dir entry.name)
    stats_entries name dir entries

  unfoldable pub stats_dir : Option Text → FilePath → Action (Unit {0})
  stats_dir name dir = do entries ← entries_of dir; stats_entries name dir entries

  abbrev is_running_state : Option ContainerState → Bool
  is_running_state none = false
  is_running_state (some s) = is_running s.status

  -- The first entry that runs ends the search.
  unfoldable pub any_running : FilePath → List (Option DirEntry) → Action Bool
  any_running dir [] = pure false
  any_running dir (none ∷ entries) = any_running dir entries
  any_running dir (some entry ∷ entries) = do
    state ← ok_of (load_state host (join dir entry.name))
    elim (is_running_state state) [ true ↦ pure true | false ↦ any_running dir entries ]

  unfoldable pub any_running_in : FilePath → Option (List (Option DirEntry)) → Action Bool
  any_running_in dir none = pure false
  any_running_in dir (some entries) = any_running dir entries

  unfoldable pub containers_dir_has_running : FilePath → Action Bool
  containers_dir_has_running dir = do
    there ← perform (exists dir)
    elim there [ false ↦ pure false | true ↦ list_dir dir >>= any_running_in dir ]

  -- Whether the loop ends: `||` and `&&` ask no more than they need.
  unfoldable pub is_last : StatsArgs → Action Bool
  is_last args = elim args.no_stream [
    | true ↦ pure true
    | false ↦ elim args.name [
      | some name ↦ pure false
      | none ↦ do going ← containers_dir_has_running (containers_dir host.env); pure (not going)
    ]
  ]

  unfoldable pub show_stats : StatsArgs → Action (Unit {0})
  show_stats args = do
    when (not args.no_stream) (drop_answer (print (27 ∷ (codes "[2J" ++ 27 ∷ codes "[H"))))
    say (
        columns (codes "CONTAINER") (codes "CPU %") (codes "MEMORY") (codes "MEM %") (codes "PIDS"))
    say (dashes 70 ∷ [])
    there ← perform (exists (containers_dir host.env))
    when there (stats_dir args.name (containers_dir host.env))

  -- The loop for a number of rounds.
  unfoldable pub cmd_stats : ℕ → StatsArgs → Action (Unit {0})
  cmd_stats zero args = pure tt
  cmd_stats (suc rounds) args = do
    show_stats args
    last ← is_last args
    elim last [ true ↦ pure tt | false ↦ do drop_answer (sleep 2000); cmd_stats rounds args ]
