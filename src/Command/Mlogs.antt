-- ===== src/Command/Mlogs.antt =====
-- `cmd_mlogs` of src/main.rs.
use virturust.Base.{
  ℕ, zero, suc, ◌+◌, ◌-◌, ◌*◌, ◌%◌, Bool, true, false, not, List, [], ◌∷◌, ◌++◌, length, Option,
  none, some, get_elem?, ltb, if◌then◌else◌, io_error,
}
use virturust.Text.{Text, codes}
use virturust.Text.Files.{FilePath, lines}
use virturust.Text.Number.{to_string}
use virturust.Text.Case.{contains_text, get_or}
use virturust.Sys.{
  Action, pure, throw, ◌>>=◌, ◌>>◌, perform, drop_answer, when, for_each, fetch, acquire, exists,
  open_file, file_len, read_from, sleep,
}
use virturust.Cli.{MlogsArgs}
use virturust.Container.Metadata.{Host}
use virturust.Image.{ImageHost}
use virturust.Command.Files.{skip}
use virturust.Command.Volume.{say}
use virturust.Command.LogFiles.{Watched, watch_all}

-- The colours go round.
abbrev pub colors : List Text
colors =
    codes "[36m"
    ∷ codes "[33m"
    ∷ codes "[32m"
    ∷ codes "[35m"
    ∷ codes "[34m"
    ∷ codes "[91m"
    ∷ codes "[92m"
    ∷ codes "[93m"
    ∷ codes "[94m"
    ∷ codes "[95m"
    ∷ []

unfoldable pub color_at : ℕ → Text
color_at i = 27 ∷ get_or [] (get_elem? colors (i % 10))

abbrev pub reset : Text
reset = 27 ∷ codes "[0m"

unfoldable pub print_header : ℕ → List Watched → Action (Unit {0})
print_header i [] = pure tt
print_header i ((label, path) ∷ watched) = do
  there ← perform (exists path)
  say (
      codes "  "
      ∷ color_at i
      ∷ label
      ∷ reset
      ∷ (32 ∷ 0x2192 ∷ 32 ∷ [])
      ∷ path
      ∷ codes " ("
      ∷ (if there then codes "ok" else codes "not found")
      ∷ codes ")"
      ∷ [])
  print_header (i + 1) watched

-- A file that was opened, and how far it was read.
pub record Reader : Type 0 where
  pub label : Text
  pub color : Text
  pub path : FilePath
  pub last_pos : ℕ

unfoldable pub passes : Option Text → Text → Bool
passes none line = true
passes (some pattern) line = contains_text line pattern

-- The lines that pass, and whether there was one.
unfoldable pub print_lines : Option Text → Text → Text → List Text → Action Bool
print_lines grep color label [] = pure false
print_lines grep color label (l ∷ ls) = do
  when (passes grep l) (say (color ∷ codes "[" ∷ label ∷ codes "]" ∷ reset ∷ codes " " ∷ l ∷ []))
  rest ← print_lines grep color label ls
  pure (if passes grep l then true else rest)

-- The last lines of a file, of which so many bytes are read as may hold them.
unfoldable pub print_last : MlogsArgs → Text → Text → FilePath → ℕ → Action (Unit {0})
print_last args color label path zero = pure tt
print_last args color label path (suc n) = do
  text ← fetch (read_from path (suc n - args.tail * 200))
  printed ←
      print_lines args.grep color label
        (skip (length (lines (get_or [] text)) - args.tail) (lines (get_or [] text)))
  pure tt

unfoldable pub start_reader : MlogsArgs → ℕ → Watched → Bool → Action (List Reader)
start_reader args i (label, path) false = pure []
start_reader args i (label, path) true = do
  len ← acquire (file_len path)
  elim len [
    | none ↦ throw io_error
    | some n ↦ do
      print_last args (color_at i) label path n
      pure (record { label = label; color = color_at i; path = path; last_pos = n } ∷ [])
  ]

unfoldable pub open_reader : MlogsArgs → ℕ → Watched → Bool → Action (List Reader)
open_reader args i w false = pure []
open_reader args i w true = do opened ← perform (open_file w.1); start_reader args i w opened

unfoldable pub open_readers : MlogsArgs → ℕ → List Watched → Action (List Reader)
open_readers args i [] = pure []
open_readers args i (w ∷ watched) = do
  there ← perform (exists w.1)
  first ← open_reader args i w there
  rest ← open_readers args (i + 1) watched
  pure (first ++ rest)

-- What is new in a file, if it has grown: the reader behind it, and whether a line was printed.
unfoldable pub read_new : Option Text → Reader → ℕ → Action (Reader × Bool)
read_new grep r current = elim (ltb r.last_pos current) [
  | false ↦ pure (r, false)
  | true ↦ do
    text ← fetch (read_from r.path r.last_pos)
    printed ← print_lines grep r.color r.label (lines (get_or [] text))
    pure (record r { last_pos = current }, printed)
]

unfoldable pub poll : Option Text → List Reader → Action (List Reader × Bool)
poll grep [] = pure ([], false)
poll grep (r ∷ rs) = do
  len ← acquire (file_len r.path)
  first ← read_new grep r (get_or r.last_pos len)
  rest ← poll grep rs
  pure (first.0 ∷ rest.0, if first.1 then true else rest.1)

-- The loop without an end, for a number of rounds.
unfoldable pub tail_files : ℕ → Option Text → List Reader → Action (Unit {0})
tail_files zero grep readers = pure tt
tail_files (suc rounds) grep readers = do
  polled ← poll grep readers
  when (not polled.1) (drop_answer (sleep 200))
  tail_files rounds grep polled.0

unfoldable pub watch : ℕ → MlogsArgs → List Watched → Action (Unit {0})
watch rounds args [] =
    for_each
      (codes "No log files found. Define log sources in Corten.toml:"
        ∷ []
        ∷ codes "  [logs]"
        ∷ codes "  files = [\"/var/log/nginx/access.log\", \"/var/log/nginx/error.log\"]"
        ∷ codes "  dirs = [\"/var/log/php/\"]"
        ∷ []
        ∷ codes "Or specify at runtime:"
        ∷ codes "  corten mlogs myapp --file /var/log/nginx/error.log"
        ∷ [])
      (λ l. say (l ∷ []))
watch rounds args (w ∷ watched) = do
  say (codes "Watching " ∷ to_string (length (w ∷ watched)) ∷ codes " log file(s):" ∷ [])
  print_header 0 (w ∷ watched)
  say (codes "---" ∷ [])
  readers ← open_readers args 0 (w ∷ watched)
  say (codes "--- tailing (Ctrl+C to stop) ---" ∷ [])
  tail_files rounds args.grep readers

unfoldable pub cmd_mlogs : {F : Type 0} → Host F → ImageHost → ℕ → ℕ → MlogsArgs → Action (Unit {0})
cmd_mlogs host images depth rounds args = do
  watched ← watch_all host images depth args args.containers
  watch rounds args watched
