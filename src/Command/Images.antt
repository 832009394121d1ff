-- ===== src/Command/Images.antt =====
-- The commands on images and networks in src/main.rs: `cmd_pull`, `cmd_images`, `cmd_image_prune`,
-- `cmd_build` and `cmd_network`.
use virturust.Base.{
  ℕ, ◌+◌, Bool, true, false, List, [], ◌∷◌, ◌++◌, length, Option, none, some, if◌then◌else◌,
  io_error, not_found,
}
use virturust.Text.{Text, codes}
use virturust.Text.Files.{FilePath, join}
use virturust.Text.Number.{to_string}
use virturust.Text.Case.{get_or}
use virturust.Text.Paths.{parent}
use virturust.Sys.{
  Action, pure, throw, of_result, ◌>>=◌, ◌>>◌, perform, require, drop_answer, for_each, fetch,
  DirEntry, exists, is_dir, read_file, remove_dir_all,
}
use virturust.Config.Memory.{parse_image_ref}
use virturust.Image.{ImageHost, image_rootfs, list_images, entries_of}
use virturust.Image.Pull.{pull_image}
use virturust.Build.{BuildConfig, Parsers, parse_build_config, validate_build_config}
use virturust.Build.Plan.{print_build_plan}
use virturust.Build.Pipeline.{build_image}
use virturust.Network.Command.{networks_dir}
use virturust.Network.Named.{NetworkInfo, Json}
use virturust.Network.Lifecycle.{create_network, remove_network}
use virturust.Cli.{PullArgs, BuildArgs, NetworkCommands, network_create, network_ls, network_rm}
use virturust.Command.Privileges.{require_privileges}
use virturust.Command.Sizes.{pad, dashes}
use virturust.Command.Volume.{say}

unfoldable pub cmd_pull : ImageHost → PullArgs → Action (Unit {0})
cmd_pull host args = do
  require_privileges
  pulled ← pull_image host (parse_image_ref args.image).0 (parse_image_ref args.image).1
  pure tt

abbrev two_columns : Text → Text → List Text
two_columns a b = pad 30 a ∷ codes " " ∷ pad 15 b ∷ []

unfoldable pub print_images : List (Text × Text) → Action (Unit {0})
print_images [] = say (codes "No images found. Pull one with: corten pull <image>" ∷ [])
print_images (image ∷ images) = do
  say (two_columns (codes "IMAGE") (codes "TAG"))
  say (dashes 45 ∷ [])
  for_each (image ∷ images) (λ i. say (two_columns i.0 i.1))

unfoldable pub cmd_images : ImageHost → Action (Unit {0})
cmd_images host = do images ← list_images host.env; print_images images

-- The directory of the tag, and how many were removed.
unfoldable pub remove_parent : Text × Text → Option FilePath → Action ℕ
remove_parent image none = pure 0
remove_parent image (some dir) = do
  drop_answer (remove_dir_all dir)
  say (codes "Removed: " ∷ image.0 ∷ codes ":" ∷ image.1 ∷ [])
  pure 1

unfoldable pub remove_images : ImageHost → List (Text × Text) → Action ℕ
remove_images host [] = pure 0
remove_images host (image ∷ images) = do
  one ← remove_parent image (parent (image_rootfs host image.0 image.1))
  rest ← remove_images host images
  pure (one + rest)

unfoldable pub prune_images : ImageHost → List (Text × Text) → Action (Unit {0})
prune_images host [] = say (codes "No images to prune." ∷ [])
prune_images host (image ∷ images) = do
  removed ← remove_images host (image ∷ images)
  say (codes "Removed " ∷ to_string removed ∷ codes " image(s)." ∷ [])

unfoldable pub cmd_image_prune : ImageHost → Action (Unit {0})
cmd_image_prune host = do images ← list_images host.env; prune_images host images

-- The first build file that is there, or else the first name.
unfoldable pub choose_build_file : FilePath → Action FilePath
choose_build_file path = do
  toml ← perform (exists (join path (codes "Corten.toml")))
  elim toml [
    | true ↦ pure (join path (codes "Corten.toml"))
    | false ↦ do
      jsonc ← perform (exists (join path (codes "Corten.jsonc")))
      elim jsonc [
        | true ↦ pure (join path (codes "Corten.jsonc"))
        | false ↦ do
          json ← perform (exists (join path (codes "Corten.json")))
          pure (join path (if json then codes "Corten.json" else codes "Corten.toml"))
      ]
  ]

unfoldable pub build_file : FilePath → Action FilePath
build_file path = do
  dir ← perform (is_dir path)
  elim dir [ true ↦ choose_build_file path | false ↦ pure path ]

unfoldable pub build_unless_dry : ImageHost → ℕ → BuildConfig → FilePath → Bool → Action (Unit {0})
build_unless_dry host depth config toml_path true = print_build_plan config
build_unless_dry host depth config toml_path false = do
  require_privileges
  built ← build_image host depth config (get_or (codes ".") (parent toml_path))
  pure tt

unfoldable pub cmd_build : ImageHost → Parsers BuildConfig → ℕ → BuildArgs → Action (Unit {0})
cmd_build host parsers depth args = do
  toml_path ← build_file args.path
  there ← perform (exists toml_path)
  require not_found there
  content ← fetch (read_file toml_path)
  config ← of_result (parse_build_config parsers toml_path content)
  of_result (validate_build_config config)
  build_unless_dry host depth config toml_path args.dry_run

-- The metadata of a network that can be read and parsed.
unfoldable pub parsed_network : Json → Option Text → List NetworkInfo
parsed_network json none = []
parsed_network json (some text) = elim (json.parse text) [ none ↦ [] | some info ↦ info ∷ [] ]

unfoldable pub network_if : Json → FilePath → Bool → Action (List NetworkInfo)
network_if json meta false = pure []
network_if json meta true = do text ← fetch (read_file meta); pure (parsed_network json text)

unfoldable pub networks_of : Json → List (Option DirEntry) → Action (List NetworkInfo)
networks_of json [] = pure []
networks_of json (none ∷ entries) = throw io_error
networks_of json (some entry ∷ entries) = do
  there ← perform (exists (join (join networks_dir entry.name) (codes "network.json")))
  one ← network_if json (join (join networks_dir entry.name) (codes "network.json")) there
  rest ← networks_of json entries
  pure (one ++ rest)

unfoldable pub networks_if : Json → Bool → Action (List NetworkInfo)
networks_if json false = pure []
networks_if json true = do entries ← entries_of networks_dir; networks_of json entries

unfoldable pub list_networks : Json → Action (List NetworkInfo)
list_networks json = do there ← perform (exists networks_dir); networks_if json there

abbrev network_columns : Text → Text → Text → Text → List Text
network_columns a b c d =
    pad 20 a ∷ codes " " ∷ pad 15 b ∷ codes " " ∷ pad 20 c ∷ codes " " ∷ d ∷ []

unfoldable pub print_networks : List NetworkInfo → Action (Unit {0})
print_networks [] =
    say (codes "No networks found. Create one with: corten network create <name>" ∷ [])
print_networks (net ∷ nets) = do
  say (network_columns (codes "NAME") (codes "BRIDGE") (codes "SUBNET") (codes "CONTAINERS"))
  say (dashes 65 ∷ [])
  for_each (net ∷ nets)
      (λ n. say (network_columns n.name n.bridge n.subnet (to_string (length n.containers))))

unfoldable pub cmd_network : Json → NetworkCommands → Action (Unit {0})
cmd_network json (network_create a) = do
  require_privileges
  info ← create_network json a.name
  say (
      codes "Created network '"
      ∷ info.name
      ∷ codes "' (bridge="
      ∷ info.bridge
      ∷ codes ", subnet="
      ∷ info.subnet
      ∷ codes ")"
      ∷ [])
cmd_network json network_ls = do nets ← list_networks json; print_networks nets
cmd_network json (network_rm a) = do
  require_privileges
  remove_network json a.name
  say (codes "Removed network '" ∷ a.name ∷ codes "'" ∷ [])
