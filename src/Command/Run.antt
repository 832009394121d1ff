-- ===== src/Command/Run.antt =====
-- `cmd_run` of src/main.rs, without a terminal.
use virturust.Base.{ℕ, Bool, false, not, List, [], ◌∷◌, Option, none, some, take, io_error}
use virturust.Text.{Text}
use virturust.Text.Files.{FilePath}
use virturust.Text.Case.{get_or}
use virturust.Sys.{
  Action, pure, throw, of_result, ◌>>=◌, ◌>>◌, when, drop_answer, fetch, exists, create_dir_all,
  read_file, exit, new_uuid,
}
use virturust.Config.{ContainerConfig, VolumeMount, PortMapping}
use virturust.Config.Dirs.{Environment, volumes_dir}
use virturust.Config.Memory.{parse_memory, parse_image_ref}
use virturust.Config.Ports.{parse_port}
use virturust.Config.Volumes.{parse_volume}
use virturust.Cli.{RunArgs}
use virturust.Container.Metadata.{Host}
use virturust.Container.Run.{run_rounds}
use virturust.Image.{ImageConfig, ImageHost, image_exists, image_rootfs, load_image_config}
use virturust.Image.Pull.{pull_image}
use virturust.Command.Merge.{resolve_command, merge_env}
use virturust.Command.Privileges.{require_privileges}

-- A value that may be missing, parsed.
unfoldable pub parse_optional : Option Text → Action (Option ℕ)
parse_optional none = pure none
parse_optional (some s) = do n ← of_result (parse_memory s); pure (some n)

-- The disk of `parse_volume` is the kernel with the calls made so far; whether a directory exists
-- is asked without a trace.
unfoldable pub parse_volume_on_disk : Environment → Text → Action VolumeMount
parse_volume_on_disk env s k h =
    parse_volume (λ disk p. k.succeeds disk (exists p))
      (λ p disk. (k.succeeds disk (create_dir_all p), create_dir_all p ∷ disk)) (volumes_dir env) s
      h

unfoldable pub parse_volumes : Environment → List Text → Action (List VolumeMount)
parse_volumes env [] = pure []
parse_volumes env (s ∷ ss) = do
  v ← parse_volume_on_disk env s
  vs ← parse_volumes env ss
  pure (v ∷ vs)

unfoldable pub parse_ports : List Text → Action (List PortMapping)
parse_ports [] = pure []
parse_ports (s ∷ ss) = do p ← of_result (parse_port s); ps ← parse_ports ss; pure (p ∷ ps)

unfoldable pub given_content : Option Text → Action (Option Text)
given_content none = throw io_error
given_content (some content) = pure (some content)

-- The content of the environment file, if one is given.
unfoldable pub read_env_file : Option FilePath → Action (Option Text)
read_env_file none = pure none
read_env_file (some path) = fetch (read_file path) >>= given_content

-- An id for a container: an UUID has 36 characters.
unfoldable pub text_of : Option Text → Text
text_of none = []
text_of (some id) = id

unfoldable pub new_id : Action Text
new_id = do id ← fetch new_uuid; pure (text_of id)

module _ (images : ImageHost) where
  -- The image is pulled where it is not there.
  unfoldable pub ensure_image : Text × Text → Action (Unit {0})
  ensure_image (name, tag) = do
    there ← image_exists images name tag
    when (not there) (do pulled ← pull_image images name tag; pure tt)

module _ {F : Type 0} (host : Host F) (images : ImageHost) where
  -- What the command line, the image's configuration and the parsed values give together.
  unfoldable pub config_of :
      RunArgs F
      → Text
      → ImageConfig
      → Option ℕ
      → Option Text
      → List VolumeMount
      → List PortMapping
      → ContainerConfig F
  config_of args id img memory env_file volumes ports = record {
    id = id;
    name = get_or (take 12 id) args.name;
    image = args.image;
    command = resolve_command args.entrypoint args.command img.entrypoint img.cmd;
    hostname = get_or (take 12 id) args.hostname;
    resources = record { memory_bytes = memory; cpu_quota = args.cpus; pids_max = args.pids_limit };
    rootfs = image_rootfs images (parse_image_ref args.image).0 (parse_image_ref args.image).1;
    volumes = volumes;
    env = merge_env img.env env_file args.env;
    working_dir = img.working_dir;
    user = img.user;
    network_mode = args.network;
    ports = ports;
    restart_policy = args.restart;
    rootless = args.rootless;
    privileged = args.privileged;
    read_only = args.read_only;
    auto_remove = args.rm;
  }

  -- The configuration of the container to run.
  unfoldable pub resolve_run : RunArgs F → Action (ContainerConfig F)
  resolve_run args = do
    when (not args.rootless) require_privileges
    ensure_image images (parse_image_ref args.image)
    img ← load_image_config images (parse_image_ref args.image).0 (parse_image_ref args.image).1
    memory ← parse_optional args.memory
    id ← new_id
    env_file ← read_env_file args.env_file
    volumes ← parse_volumes host.env args.volumes
    ports ← parse_ports args.publish
    pure (config_of args id img memory env_file volumes ports)

  unfoldable pub exit_with : Bool → Option ℕ → Action (Unit {0})
  exit_with false (some code) = drop_answer (exit code)
  exit_with _ _ = pure tt

  -- The command for a number of rounds of the restart loop.
  unfoldable pub cmd_run : ℕ → RunArgs F → Action (Unit {0})
  cmd_run rounds args = do
    config ← resolve_run args
    code ← run_rounds host config args.detach rounds
    exit_with args.detach code
