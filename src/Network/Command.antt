-- ===== src/Network/Command.antt =====
-- `run_cmd` and the constants of src/network.rs.
use virturust.Base.{
  ℕ, Bool, true, false, List, ◌∷◌, ◌++◌, Option, none, some, ok, if◌then◌else◌, command_failed,
}
use virturust.Text.{Text, codes}
use virturust.Text.Files.{FilePath}
use virturust.Text.Number.{to_string}
use virturust.Sys.{Action, attempt, ignore, run}

abbrev pub bridge_subnet : Text
bridge_subnet = codes "10.0.42.0/24"

abbrev pub bridge_ip : Text
bridge_ip = codes "10.0.42.1"

abbrev pub bridge_ip_cidr : Text
bridge_ip_cidr = codes "10.0.42.1/24"

abbrev pub bridge_name : Text
bridge_name = codes "corten0"

abbrev pub network_state_dir : FilePath
network_state_dir = codes "/var/lib/corten/network"

abbrev pub next_ip_file : FilePath
next_ip_file = codes "/var/lib/corten/network/next_ip"

abbrev pub networks_dir : FilePath
networks_dir = codes "/var/lib/corten/networks"

-- A run of another program succeeds when the program is found and ends with status 0.
unfoldable pub run_cmd : Text → List Text → Action (Unit {0})
run_cmd program args = attempt command_failed (run program args)

-- `run_cmd(…).ok()`
unfoldable pub try_cmd : Text → List Text → Action (Unit {0})
try_cmd program args = ignore (run_cmd program args)

-- `.output()`: `none` if the program cannot be started, else whether its status is 0.
unfoldable pub output : Text → List Text → Action (Option Bool)
output program args k h = (
  ok (
      if k.succeeds h (run program args)
      then some true
      else elim (k.contents h (run program args)) [ none ↦ none | some text ↦ some false ]),
  run program args ∷ h,
)

-- `.output().map(|o| o.status.success()).unwrap_or(false)`
abbrev pub successful : Option Bool → Bool
successful (some b) = b
successful none = false

-- `.output().is_ok()`
abbrev pub started : Option Bool → Bool
started (some b) = true
started none = false

-- `{prefix}{n}`
abbrev pub numbered : Text → ℕ → Text
numbered prefix n = prefix ++ to_string n
