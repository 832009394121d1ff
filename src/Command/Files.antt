-- ===== src/Command/Files.antt =====
-- The files of a container in src/main.rs: `cmd_cp`, `cmd_logs` and the root that they look in.
use virturust.Base.{
  ℕ, zero, suc, ◌-◌, Bool, true, false, List, [], ◌∷◌, Option, none, some, length, Result, ok, err,
  io_error, bad_copy,
}
use virturust.Text.{Text, codes}
use virturust.Text.Files.{FilePath, join, lines}
use virturust.Text.Splitting.{split_once}
use virturust.Text.Case.{trim_slashes}
use virturust.Text.Paths.{parent}
use virturust.Sys.{
  Action, pure, throw, of_result, ◌>>=◌, ◌>>◌, perform, attempt, fetch, for_each, exists, is_dir,
  copy_file, read_file, drop_answer, print, sleep, open_file, seek_end, read_line,
}
use virturust.Config.{ContainerConfig}
use virturust.Cli.{CpArgs, LogsArgs}
use virturust.Container.Metadata.{Host, load_config}
use virturust.Container.Locate.{find_dir}
use virturust.Build.Copy.{copy_dir_for_cp}
use virturust.Build.Steps.{make_parent}
use virturust.Command.Volume.{say}

-- A container, a path in it, a path of the host, and whether the copy goes to the container.
pub record Transfer : Type 0 where
  pub container_name : Text
  pub container_path : Text
  pub host_path : FilePath
  pub to_container : Bool

-- The destination, if the source names no container.
unfoldable pub transfer_to : CpArgs → Option (Text × Text) → Result Transfer
transfer_to args none = err bad_copy
transfer_to args (some (name, path)) = ok (record {
  container_name = name;
  container_path = path;
  host_path = args.src;
  to_container = true;
})

unfoldable pub transfer_from : CpArgs → Option (Text × Text) → Result Transfer
transfer_from args none = transfer_to args (split_once b':' args.dst)
transfer_from args (some (name, path)) = ok (record {
  container_name = name;
  container_path = path;
  host_path = args.dst;
  to_container = false;
})

unfoldable pub parse_transfer : CpArgs → Result Transfer
parse_transfer args = transfer_from args (split_once b':' args.src)

-- The merged overlay, or else the copy, or else the root of the image.
unfoldable pub rootfs_of : {F : Type 0} → FilePath → ContainerConfig F → Action FilePath
rootfs_of dir config = do
  merged ← perform (exists (join (join dir (codes "overlay")) (codes "merged")))
  elim merged [
    | true ↦ pure (join (join dir (codes "overlay")) (codes "merged"))
    | false ↦ do
      copy ← perform (exists (join dir (codes "rootfs")))
      elim copy [ true ↦ pure (join dir (codes "rootfs")) | false ↦ pure config.rootfs ]
  ]

-- A directory with all in it, or a file, whose directory is made.
unfoldable pub copy_any : ℕ → FilePath → FilePath → Bool → Action (Unit {0})
copy_any depth src dst true = copy_dir_for_cp depth src dst
copy_any depth src dst false = do make_parent (parent dst); attempt io_error (copy_file src dst)

unfoldable pub transfer : ℕ → Transfer → FilePath → Action (Unit {0})
transfer depth t full_container_path = elim t.to_container [
  | true ↦ do
    dir ← perform (is_dir t.host_path)
    copy_any depth t.host_path full_container_path dir
    say (
        codes "Copied "
        ∷ t.host_path
        ∷ codes " -> "
        ∷ t.container_name
        ∷ codes ":"
        ∷ t.container_path
        ∷ [])
  | false ↦ do
    dir ← perform (is_dir full_container_path)
    copy_any depth full_container_path t.host_path dir
    say (
        codes "Copied "
        ∷ t.container_name
        ∷ codes ":"
        ∷ t.container_path
        ∷ codes " -> "
        ∷ t.host_path
        ∷ [])
]

-- The lines behind the first ones.
unfoldable pub skip : ℕ → List Text → List Text
skip zero ls = ls
skip (suc n) [] = []
skip (suc n) (l ∷ ls) = skip n ls

-- The last lines, all if there are fewer.
unfoldable pub tail_lines : ℕ → Text → List Text
tail_lines tail content = skip (length (lines content) - tail) (lines content)

unfoldable pub print_tail : ℕ → Option Text → Action (Unit {0})
print_tail tail none = throw io_error
print_tail tail (some content) = for_each (tail_lines tail content) (λ l. say (l ∷ []))

-- What is new: nothing, a line, or an error.
unfoldable pub follow_line : Option Text → Action (Unit {0})
follow_line none = throw io_error
follow_line (some []) = drop_answer (sleep 100)
follow_line (some (c ∷ line)) = drop_answer (print (c ∷ line))

-- The loop, which ends with an error only, for a number of rounds.
unfoldable pub follow_lines : ℕ → FilePath → Action (Unit {0})
follow_lines zero log = pure tt
follow_lines (suc rounds) log = do
  line ← fetch (read_line log)
  follow_line line
  follow_lines rounds log

unfoldable pub follow_log : ℕ → FilePath → Action (Unit {0})
follow_log rounds log = do
  attempt io_error (open_file log)
  attempt io_error (seek_end log)
  follow_lines rounds log

unfoldable pub print_log : ℕ → FilePath → LogsArgs → Bool → Action (Unit {0})
print_log rounds log args false = say (codes "No logs available for this container." ∷ [])
print_log rounds log args true = elim args.follow [
  | true ↦ follow_log rounds log
  | false ↦ fetch (read_file log) >>= print_tail args.tail
]

module _ {F : Type 0} (host : Host F) where
  unfoldable pub cmd_cp : ℕ → CpArgs → Action (Unit {0})
  cmd_cp depth args = do
    t ← of_result (parse_transfer args)
    dir ← find_dir host t.container_name
    config ← load_config host dir
    rootfs ← rootfs_of dir config
    transfer depth t (join rootfs (trim_slashes t.container_path))

  -- For a number of rounds of `--follow`.
  unfoldable pub cmd_logs : ℕ → LogsArgs → Action (Unit {0})
  cmd_logs rounds args = do
    dir ← find_dir host args.name
    there ← perform (exists (join dir (codes "stdout.log")))
    print_log rounds (join dir (codes "stdout.log")) args there
