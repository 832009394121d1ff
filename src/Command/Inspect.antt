-- ===== src/Command/Inspect.antt =====
-- The commands on one container in src/main.rs: `cmd_ps`, `cmd_stop`, `cmd_inspect` and `cmd_exec`.
use virturust.Base.{
  ℕ, Bool, true, false, not, List, [], ◌∷◌, ◌++◌, map, take, leb, length, Option, none, some,
  if◌then◌else◌, io_error, no_pid, not_running, panicked,
}
use virturust.Text.{Text, codes, is_empty}
use virturust.Text.Files.{FilePath, join}
use virturust.Text.Number.{to_string}
use virturust.Sys.{
  Action, pure, throw, ok_of, ◌>>=◌, ◌>>◌, perform, require, drop_answer, when, for_each, DirEntry,
  exists, acquire, spawn, exit, attempt, exit_code,
}
use virturust.Config.{
  ContainerConfig, ContainerState, ContainerStatus, VolumeMount, PortMapping, running, stopped,
  status_text,
}
use virturust.Config.Dirs.{containers_dir}
use virturust.Cli.{StopArgs, InspectArgs, ExecArgs}
use virturust.Container.Metadata.{Host, load_state, load_config, is_process_alive}
use virturust.Container.Locate.{find_dir}
use virturust.Container.Stop.{stop}
use virturust.Image.{entries_of}
use virturust.Command.Privileges.{require_privileges}
use virturust.Command.Sizes.{Decimals, format_bytes, pad, dashes}
use virturust.Command.Volume.{say}

-- The status of a container whose state says that it runs and whose process is gone is stopped.
unfoldable pub live_status : ContainerStatus → Option ℕ → Action ContainerStatus
live_status running (some pid) = do
  alive ← is_process_alive pid
  pure (if alive then running else stopped)
live_status status _ = pure status

abbrev pub number_or_dash : Option ℕ → Text
number_or_dash none = codes "-"
number_or_dash (some n) = to_string n

abbrev columns : Text → Text → Text → Text → Text → List Text
columns a b c d e =
    pad 14 a
    ∷ codes " "
    ∷ pad 15 b
    ∷ codes " "
    ∷ pad 20 c
    ∷ codes " "
    ∷ pad 10 d
    ∷ codes " "
    ∷ pad 10 e
    ∷ []

module _ {F : Type 0} (host : Host F) where
  -- A row of the table; the slice of the id panics where it is short.
  unfoldable pub print_row : ContainerConfig F → ContainerState → Action (Unit {0})
  print_row config state = do
    status ← live_status state.status state.pid
    require panicked (leb 12 (length config.id))
    say (
        columns (take 12 config.id) config.name config.image (status_text status)
          (number_or_dash state.exit_code))

  -- Whether a container was printed; one whose files cannot be loaded is left out.
  unfoldable pub row_of : Option (ContainerConfig F) → FilePath → Action Bool
  row_of none path = pure false
  row_of (some config) path = do
    state ← ok_of (load_state host path)
    elim state [ none ↦ pure false | some s ↦ do print_row config s; pure true ]

  unfoldable pub rows : FilePath → List (Option DirEntry) → Bool → Action Bool
  rows dir [] found = pure found
  rows dir (none ∷ entries) found = throw io_error
  rows dir (some entry ∷ entries) found = do
    config ← ok_of (load_config host (join dir entry.name))
    printed ← row_of config (join dir entry.name)
    rows dir entries (if printed then true else found)

  unfoldable pub ps_table : FilePath → Action (Unit {0})
  ps_table dir = do
    say (
        columns (codes "CONTAINER ID") (codes "NAME") (codes "IMAGE") (codes "STATUS")
          (codes "EXIT CODE"))
    say (dashes 70 ∷ [])
    entries ← entries_of dir
    found ← rows dir entries false
    when (not found) (say (codes "No containers found." ∷ []))

  unfoldable pub cmd_ps : Action (Unit {0})
  cmd_ps = do
    there ← perform (exists (containers_dir host.env))
    elim there [
      | false ↦ say (codes "No containers found." ∷ [])
      | true ↦ ps_table (containers_dir host.env)
    ]

  unfoldable pub cmd_stop : ℕ → StopArgs → Action (Unit {0})
  cmd_stop rounds args = do
    require_privileges
    dir ← find_dir host args.name
    stop host rounds dir args.time

  unfoldable pub live_pid : ContainerStatus → Option ℕ → Action ℕ
  live_pid running (some pid) = do alive ← is_process_alive pid; require not_running alive; pure pid
  live_pid running none = throw no_pid
  live_pid _ _ = throw not_running

  unfoldable pub nsenter_args : ℕ → List Text → List Text
  nsenter_args pid command =
      codes "--target"
      ∷ to_string pid
      ∷ codes "--mount"
      ∷ codes "--uts"
      ∷ codes "--ipc"
      ∷ codes "--net"
      ∷ codes "--pid"
      ∷ codes "--"
      ∷ command

  -- A program that a signal ended has no code.
  abbrev pub code_or_one : Option ℕ → ℕ
  code_or_one none = 1
  code_or_one (some code) = code

  -- The variables of the program's environment are left out.
  unfoldable pub cmd_exec : ExecArgs → Action (Unit {0})
  cmd_exec args = do
    require_privileges
    dir ← find_dir host args.name
    state ← load_state host dir
    pid ← live_pid state.status state.pid
    attempt io_error (spawn (codes "nsenter") (nsenter_args pid args.command))
    code ← acquire exit_code
    drop_answer (exit (code_or_one code))

  unfoldable pub print_section : Text → List Text → Action (Unit {0})
  print_section title [] = pure tt
  print_section title (l ∷ ls) = do
    say []
    say (title ∷ [])
    for_each (l ∷ ls) (λ x. say (codes "  " ∷ x ∷ []))

  unfoldable pub port_line : PortMapping → Text
  port_line port =
      port.host_ip
      ++ (codes ":"
          ++ (to_string port.host_port ++ (codes " -> " ++ to_string port.container_port)))

  unfoldable pub volume_line : VolumeMount → Text
  volume_line vol =
      vol.host_path
      ++ (codes " -> "
          ++ (vol.container_path
              ++ (codes " (" ++ ((if vol.read_only then codes "ro" else codes "rw") ++ codes ")"))))

  abbrev or_unlimited : Option Text → Text
  or_unlimited none = codes "unlimited"
  or_unlimited (some text) = text

  abbrev shown : {A : Type 0} → (A → Text) → Option A → Option Text
  shown show none = none
  shown show (some a) = some (show a)

  -- `{:?}` of the command and `{}` of a floating-point number are the formatter's.
  unfoldable pub print_config :
      Decimals
      → (List Text → Text)
      → (F → Text)
      → ContainerConfig F
      → ContainerState
      → ContainerStatus
      → Action (Unit {0})
  print_config dec debug show_cpus cfg state status = do
    say (codes "Container:    " ∷ cfg.id ∷ [])
    say (codes "Name:         " ∷ cfg.name ∷ [])
    say (codes "Image:        " ∷ cfg.image ∷ [])
    say (codes "Command:      " ∷ debug cfg.command ∷ [])
    say (codes "Hostname:     " ∷ cfg.hostname ∷ [])
    say (codes "Status:       " ∷ status_text status ∷ [])
    say (codes "PID:          " ∷ number_or_dash state.pid ∷ [])
    say (codes "Created:      " ∷ to_string state.created_at ∷ [])
    say (codes "Started:      " ∷ number_or_dash state.started_at ∷ [])
    say (codes "Finished:     " ∷ number_or_dash state.finished_at ∷ [])
    say (codes "Exit code:    " ∷ number_or_dash state.exit_code ∷ [])
    say []
    say (codes "Resource limits:" ∷ [])
    say (
        codes "  Memory:     "
        ∷ or_unlimited (shown (format_bytes dec) cfg.resources.memory_bytes)
        ∷ [])
    say (codes "  CPUs:       " ∷ or_unlimited (shown show_cpus cfg.resources.cpu_quota) ∷ [])
    say (codes "  PIDs max:   " ∷ or_unlimited (shown to_string cfg.resources.pids_max) ∷ [])
    print_section (codes "Environment:") cfg.env
    when (not (is_empty cfg.working_dir)) (say (codes "WorkingDir:   " ∷ cfg.working_dir ∷ []))
    when (not (is_empty cfg.user)) (say (codes "User:         " ∷ cfg.user ∷ []))
    say (codes "Network:      " ∷ cfg.network_mode ∷ [])
    say (codes "Restart:      " ∷ cfg.restart_policy ∷ [])
    when cfg.rootless (say (codes "Rootless:     yes" ∷ []))
    print_section (codes "Ports:") (map port_line cfg.ports)
    print_section (codes "Volumes:") (map volume_line cfg.volumes)
    say []
    say (codes "Rootfs:       " ∷ cfg.rootfs ∷ [])

  unfoldable pub cmd_inspect :
      Decimals → (List Text → Text) → (F → Text) → InspectArgs → Action (Unit {0})
  cmd_inspect dec debug show_cpus args = do
    dir ← find_dir host args.name
    cfg ← load_config host dir
    state ← load_state host dir
    status ← live_status state.status state.pid
    print_config dec debug show_cpus cfg state status
