-- ===== src/Command/Tests.antt =====
-- The theorems on the commands at small examples.
use virturust.Base.{
  ℕ, ◌+◌, ◌≡◌, refl, true, false, not, ◌&&◌, List, [], ◌∷◌, length, none, some, err, group_denied,
}
use virturust.Text.{Text, codes}
use virturust.Text.Case.{is_among}
use virturust.Sys.{Kernel, getuid, print, exit}
use virturust.Cli.{Cli, cmd_ps}
use virturust.Command.Dispatch.{Program, main}
use virturust.Command.Gate.{denial, main_denies}
use virturust.Command.Diff.{to_set, diff_of}
use virturust.Command.DiffLaws.{diff_of_lem}
use virturust.Config.{ContainerConfig, ContainerState, running}
use virturust.Container.Metadata.{Host}

abbrev config : ContainerConfig ℕ
config = record {
  id = codes "0123456789abcdef";
  name = codes "web";
  image = codes "alpine";
  command = codes "/bin/sh" ∷ [];
  hostname = codes "web";
  resources = record { memory_bytes = none; cpu_quota = none; pids_max = none };
  rootfs = codes "/r";
  volumes = [];
  env = [];
  working_dir = [];
  user = [];
  network_mode = codes "none";
  ports = [];
  restart_policy = codes "no";
  rootless = false;
  privileged = false;
  read_only = false;
  auto_remove = false;
}

abbrev state : ContainerState
state = record {
  status = running;
  pid = some 41;
  created_at = 1;
  started_at = some 2;
  finished_at = none;
  exit_code = none;
}

abbrev host : Host ℕ
host = record {
  print_config = λ c. c.name;
  parse_config = λ t. some config;
  print_state = λ s. [];
  parse_state = λ t. some state;
  network_json = record { print = λ i. i.name; parse = λ t. none };
  quota_of = λ f. f;
  env = record { data_dir_var = none; real_uid_var = none };
}

abbrev broken_kernel : Kernel
broken_kernel = record {
  succeeds = λ h c. false;
  contents = λ h c. some [];
  number = λ h c. 0;
  entries = λ h p. [];
}

abbrev two_files : List Text
two_files = codes "a" ∷ codes "b" ∷ []

abbrev one_file : List Text
one_file = codes "a" ∷ []

-- A user with the id 1000.
abbrev user_kernel : Kernel
user_kernel = record {
  succeeds = λ h c. true;
  contents = λ h c. some [];
  number = λ h c. 1000;
  entries = λ h p. [];
}

abbrev cli : Cli ℕ
cli = record { command = cmd_ps; verbose = false }

abbrev program : Program ℕ
program = record {
  host = host;
  images = record {
    env = host.env;
    arch = codes "x86_64";
    print_image = λ c. c.user;
    parse_image = λ t. none;
  };
  accounts = record {
    group_gid = λ name. some 50;
    passwd = λ uid. some (codes "eve", 1000);
    group_list = λ name gid. 100 ∷ [];
  };
  build_parsers = record { from_json = λ t. none; from_toml = λ t. none };
  forge_parsers = record { from_json = λ t. none; from_toml = λ t. none };
  parse_cpus = λ t. none;
  show_cpus = λ n. [];
  debug = λ ts. [];
  decimals = record { one_place = λ a b. []; no_place = λ a b. [] };
  quotients = record { percent = λ a b. []; seconds = λ a. [] };
  rounds = 1;
  depth = 1;
}

diff_of_lem_example :
    (is_among (codes "b") (diff_of two_files one_file).added
      ≡ (is_among (codes "b") two_files && not (is_among (codes "b") one_file)))
    × (is_among (codes "b") (diff_of two_files one_file).removed
        ≡ (is_among (codes "b") one_file && not (is_among (codes "b") two_files)))
    × (length (diff_of two_files one_file).added + (diff_of two_files one_file).common
        ≡ length (to_set two_files))
diff_of_lem_example = diff_of_lem two_files one_file (codes "b")

main_denies_example :
    main program cli user_kernel [] ≡ (err group_denied, exit 1 ∷ print denial ∷ getuid ∷ [])
main_denies_example =
    main_denies program cli user_kernel [] 50 1000 (codes "eve") (λ e. cc) refl refl (λ e. cc)
      ((λ e. cc), tt)
