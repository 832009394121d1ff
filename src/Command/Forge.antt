-- ===== src/Command/Forge.antt =====
-- `cmd_forge` of src/main.rs, with `parse_forge_file` and `print_forge_summary` of src/compose.rs.
use virturust.Base.{
  ℕ, Bool, true, false, not, List, [], ◌∷◌, ◌++◌, map, length, Option, none, some, if◌then◌else◌,
  Result, ok, err, io_error, bad_config, not_found, panicked,
}
use virturust.Text.{Text, codes, text_eq}
use virturust.Text.Files.{FilePath, join, lines}
use virturust.Text.Number.{to_string}
use virturust.Text.Case.{get_or, join_with}
use virturust.Text.Paths.{file_stem}
use virturust.Sys.{
  Action, pure, throw, ignore, ok_of, of_result, ◌>>=◌, ◌>>◌, perform, require, drop_answer, when,
  for_each, fetch, exists, read_file, remove_dir_all,
}
use virturust.Config.{ContainerConfig, ContainerState, VolumeMount, PortMapping, status_text}
use virturust.Config.Memory.{parse_image_ref}
use virturust.Forge.{Service, Services, get, resolve_order}
use virturust.Build.{Parsers, parse_by_extension}
use virturust.Build.Shell.{env_entry}
use virturust.Image.{ImageConfig, ImageHost, image_rootfs, load_image_config}
use virturust.Cli.{ComposeCommands, forge_up, forge_down, forge_ps, forge_logs}
use virturust.Container.Metadata.{Host, load_state}
use virturust.Container.Locate.{find_dir}
use virturust.Container.Run.{run_rounds}
use virturust.Container.Stop.{stop}
use virturust.Network.Lifecycle.{create_network, remove_network}
use virturust.Command.Merge.{no_items}
use virturust.Command.Privileges.{require_privileges}
use virturust.Command.Run.{parse_optional, parse_volumes, parse_ports, new_id, ensure_image}
use virturust.Command.Sizes.{pad, dashes}
use virturust.Command.Volume.{say}

abbrev or_bad : {A : Type 0} → Option A → Result A
or_bad none = err bad_config
or_bad (some a) = ok a

unfoldable pub parse_forge_file : Parsers Services → FilePath → Option Text → Result Services
parse_forge_file parsers path none = err io_error
parse_forge_file parsers path (some content) = or_bad (parse_by_extension parsers path content)

abbrev listed : Text → List Text → Text
listed label [] = []
listed label (x ∷ xs) = label ++ join_with (codes ", ") (x ∷ xs)

abbrev mem_text : Option Text → Text
mem_text none = []
mem_text (some m) = codes " mem: " ++ m

unfoldable pub summary_line : Text × Service → Text
summary_line (name, svc) = join_with [] (
    codes "  "
    ∷ name
    ∷ codes ": "
    ∷ get_or (codes "(build)") svc.image
    ∷ listed (codes " ports: ") svc.ports
    ∷ listed (codes " depends_on: ") svc.depends_on
    ∷ mem_text svc.memory
    ∷ [])

unfoldable pub print_forge_summary : Services → Action (Unit {0})
print_forge_summary services = do
  say (codes "Services (" ∷ to_string (length services) ∷ codes "):" ∷ [])
  for_each services (λ s. say (summary_line s ∷ []))

-- `comp.services[name]`
unfoldable pub service_at : Services → Text → Action Service
service_at services name = elim (get services name) [ none ↦ throw panicked | some s ↦ pure s ]

unfoldable pub project_of : FilePath → Text
project_of path = get_or (codes "corten") (file_stem path)

abbrev pub container_name_of : Text → Text → Service → Text
container_name_of project name svc = get_or (project ++ (codes "-" ++ name)) svc.container_name

-- The service's command, or else the image's, or else a shell.
unfoldable pub service_command : Option (List Text) → List Text → List Text
service_command (some command) cmd = command
service_command none cmd = if not (no_items cmd) then cmd else codes "/bin/sh" ∷ []

module _ {F : Type 0} (host : Host F) (images : ImageHost) (parse_cpus : Text → Option F) where
  abbrev cpus_of : Option Text → Option F
  cpus_of none = none
  cpus_of (some text) = parse_cpus text

  -- The image of a service by its reference.
  abbrev pub image_of : Service → Text
  image_of svc = get_or (codes "alpine") svc.image

  unfoldable pub service_config :
      Text
      → Text
      → Service
      → ImageConfig
      → Option ℕ
      → List VolumeMount
      → List PortMapping
      → Text
      → ContainerConfig F
  service_config project name svc img memory volumes ports id = record {
    id = id;
    name = container_name_of project name svc;
    image = image_of svc;
    command = service_command svc.command img.cmd;
    hostname = get_or name svc.hostname;
    resources = record { memory_bytes = memory; cpu_quota = cpus_of svc.cpus; pids_max = none };
    rootfs =
        image_rootfs images (parse_image_ref (image_of svc)).0 (parse_image_ref (image_of svc)).1;
    volumes = volumes;
    env = img.env ++ map env_entry svc.env;
    working_dir = get_or img.working_dir svc.working_dir;
    user = get_or img.user svc.user;
    network_mode = get_or (project ++ codes "_default") svc.network;
    ports = ports;
    restart_policy = get_or (codes "no") svc.restart;
    rootless = false;
    privileged = svc.privileged;
    read_only = svc.read_only;
    auto_remove = false;
  }

  -- One service, detached, with a number of rounds for its restart loop.
  unfoldable pub start_service : ℕ → Services → Text → Text → Action (Unit {0})
  start_service rounds services project name = do
    svc ← service_at services name
    ensure_image images (parse_image_ref (image_of svc))
    img ←
        load_image_config images (parse_image_ref (image_of svc)).0
          (parse_image_ref (image_of svc)).1
    memory ← parse_optional svc.memory
    volumes ← parse_volumes host.env svc.volumes
    ports ← parse_ports svc.ports
    id ← new_id
    say (codes "  Starting " ∷ name ∷ codes " (" ∷ image_of svc ∷ codes ")..." ∷ [])
    code ← run_rounds host (service_config project name svc img memory volumes ports id) true rounds
    say (codes "  Started " ∷ container_name_of project name svc ∷ [])

  unfoldable pub load_forge : Parsers Services → FilePath → Action Services
  load_forge parsers path = do
    there ← perform (exists path)
    require not_found there
    content ← fetch (read_file path)
    of_result (parse_forge_file parsers path content)

  -- The services of the file in the order of their dependencies.
  unfoldable pub forge_up_all : ℕ → Parsers Services → FilePath → Action (Unit {0})
  forge_up_all rounds parsers path = do
    require_privileges
    services ← load_forge parsers path
    order ← of_result (resolve_order services)
    say (codes "Starting " ∷ to_string (length services) ∷ codes " services..." ∷ [])
    print_forge_summary services
    say []
    ignore (create_network host.network_json (project_of path ++ codes "_default"))
    for_each order (start_service rounds services (project_of path))
    say (codes "\nAll services started." ∷ [])

  -- A container that is found is stopped and removed, whatever fails.
  unfoldable pub remove_found : ℕ → Text → Option FilePath → Action (Unit {0})
  remove_found rounds name none = pure tt
  remove_found rounds name (some dir) = do
    say (codes "  Stopping " ∷ name ∷ codes "..." ∷ [])
    ignore (stop host rounds dir 10)
    drop_answer (remove_dir_all dir)
    say (codes "  Removed " ∷ name ∷ [])

  unfoldable pub stop_service : ℕ → Services → Text → Text → Action (Unit {0})
  stop_service rounds services project name = do
    svc ← service_at services name
    dir ← ok_of (find_dir host (container_name_of project name svc))
    remove_found rounds (container_name_of project name svc) dir

  abbrev pub backwards : List Text → List Text → List Text
  backwards [] out = out
  backwards (x ∷ xs) out = backwards xs (x ∷ out)

  unfoldable pub forge_down_all : ℕ → Parsers Services → FilePath → Action (Unit {0})
  forge_down_all rounds parsers path = do
    require_privileges
    services ← load_forge parsers path
    order ← of_result (resolve_order services)
    for_each (backwards order []) (stop_service rounds services (project_of path))
    ignore (remove_network host.network_json (project_of path ++ codes "_default"))
    say (codes "All services stopped and removed." ∷ [])

  abbrev status_or_unknown : Option ContainerState → Text
  status_or_unknown none = codes "unknown"
  status_or_unknown (some state) = status_text state.status

  unfoldable pub service_status : Option FilePath → Action Text
  service_status none = pure (codes "not created")
  service_status (some dir) = do state ← ok_of (load_state host dir); pure (status_or_unknown state)

  abbrev columns : Text → Text → Text → List Text
  columns a b c = pad 20 a ∷ codes " " ∷ pad 15 b ∷ codes " " ∷ pad 10 c ∷ []

  unfoldable pub print_service : Text → Text × Service → Action (Unit {0})
  print_service project (name, svc) = do
    dir ← ok_of (find_dir host (container_name_of project name svc))
    status ← service_status dir
    say (columns name (container_name_of project name svc) status)

  unfoldable pub forge_ps_all : Parsers Services → FilePath → Action (Unit {0})
  forge_ps_all parsers path = do
    services ← load_forge parsers path
    say (columns (codes "SERVICE") (codes "CONTAINER") (codes "STATUS"))
    say (dashes 50 ∷ [])
    for_each services (print_service (project_of path))

  unfoldable pub print_lines : Text → Option Text → Action (Unit {0})
  print_lines name none = throw io_error
  print_lines name (some content) =
      for_each (lines content) (λ l. say (name ∷ codes " | " ∷ l ∷ []))

  unfoldable pub service_logs : Text → Option FilePath → Action (Unit {0})
  service_logs name none = pure tt
  service_logs name (some dir) = do
    there ← perform (exists (join dir (codes "stdout.log")))
    when there (fetch (read_file (join dir (codes "stdout.log"))) >>= print_lines name)

  abbrev is_wanted : Option Text → Text → Bool
  is_wanted none name = true
  is_wanted (some target) name = text_eq name target

  unfoldable pub log_service : Text → Option Text → Text × Service → Action (Unit {0})
  log_service project target (name, svc) =
      when (is_wanted target name)
        (do dir ← ok_of (find_dir host (container_name_of project name svc)); service_logs name dir)

  unfoldable pub forge_logs_all : Parsers Services → FilePath → Option Text → Action (Unit {0})
  forge_logs_all parsers path target = do
    services ← load_forge parsers path
    for_each services (log_service (project_of path) target)

  unfoldable pub cmd_forge : ℕ → Parsers Services → FilePath → ComposeCommands → Action (Unit {0})
  cmd_forge rounds parsers file (forge_up a) = forge_up_all rounds parsers file
  cmd_forge rounds parsers file forge_down = forge_down_all rounds parsers file
  cmd_forge rounds parsers file forge_ps = forge_ps_all parsers file
  cmd_forge rounds parsers file (forge_logs a) = forge_logs_all parsers file a.service
