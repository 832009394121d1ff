-- ===== src/Container/Tests.antt =====
-- Small containers, and the theorems at them.
use virturust.Base.{
  ℕ, suc, ◌+◌, ◌*◌, ◌≡◌, ◌≢◌, refl, true, false, List, [], ◌∷◌, none, some, arith, ok, map,
}
use virturust.Text.{codes, text_eq, is_empty, strip_prefix}
use virturust.Text.Number.{parse_uint, parse_digits}
use virturust.Sys.{History, Kernel, DirEntry, directory}
use virturust.Config.Dirs.{containers_dir}
use virturust.Container.Locate.{find_dir}
use virturust.Container.Located.{Files, view, found_or_not, find_dir-find_container}
use virturust.Sys.Obliging.{obliging_kernel}
use virturust.Config.{ContainerConfig}
use virturust.Container.Policy.{
  always, on_failure, parse_restart_policy, failure_policy, max_retries, should_restart,
  exit_code_of,
}
use virturust.Container.PolicyLaws.{print_policy, limit, parse_restart_policy-print_policy}
use virturust.Container.Metadata.{Host, save_state}
use virturust.Container.Find.{Entry, find_container}
use virturust.Container.Stop.{await_exit}
use virturust.Container.Waiting.{duration, await_exit_ok}
use virturust.Container.Setup.{created_state}
use virturust.Container.Round.{
  pipe_end, child_args, start_child, connect_network, mark_running, disconnect, run_round,
  running_state,
}
use virturust.Container.Run.{announce_restart, monitor, run_rounds}
use virturust.Namespace.Clone.{pid_of_clone, create_namespaced_process}
use virturust.Sys.{attempt, drop_answer, acquire, ask}
use virturust.Container.Monitor.{Ends, run_rounds_ends, monitor_stops}

parse_restart_policy-print_policy_example :
    parse_restart_policy (print_policy (on_failure 3)) ≡ on_failure 3
parse_restart_policy-print_policy_example =
    parse_restart_policy-print_policy (on_failure 3) (omega arith)

-- A prefix of another container's id comes before an exact name.
abbrev entries : List Entry
entries =
    record { file_name = codes "abc1"; name = some (codes "web") }
    ∷ record { file_name = codes "def2"; name = some (codes "ab") }
    ∷ []

-- A kernel in which no process ever goes away, and whose clock counts the time that is slept.
abbrev slept : History → ℕ
slept [] = 0
slept (c ∷ h) = slept h + duration c

abbrev patient_kernel : Kernel
patient_kernel = record {
  succeeds = λ h c. true;
  contents = λ h c. none;
  number = λ h c. slept h;
  entries = λ h p. [];
}

await_exit_ok_example : (await_exit (suc (5 * 2)) 9 2 0 patient_kernel []).0 ≡ ok tt
await_exit_ok_example = await_exit_ok 9 2 0 patient_kernel [] (λ h c. omega arith) (omega arith)

abbrev config : ContainerConfig ℕ
config = record {
  id = codes "0123456789abcdef";
  name = codes "web";
  image = codes "alpine";
  command = codes "/bin/sh" ∷ [];
  hostname = codes "web";
  resources = record { memory_bytes = none; cpu_quota = none; pids_max = none };
  rootfs = codes "/r";
  volumes = [];
  env = [];
  working_dir = [];
  user = [];
  network_mode = codes "none";
  ports = [];
  restart_policy = codes "on-failure:2";
  rootless = false;
  privileged = false;
  read_only = false;
  auto_remove = false;
}

abbrev host : Host ℕ
host = record {
  print_config = λ c. c.name;
  parse_config = λ t. some config;
  print_state = λ s. [];
  parse_state = λ t. none;
  network_json = record { print = λ i. i.name; parse = λ t. none };
  quota_of = λ f. f;
  env = record { data_dir_var = none; real_uid_var = none };
}

policy_limit : limit (parse_restart_policy config.restart_policy) ≡ some 2
unfolding parse_restart_policy failure_policy max_retries text_eq is_empty strip_prefix parse_uint
    parse_digits
policy_limit = refl

run_rounds_ends_example : (run_rounds host config true (2 + 1) obliging_kernel []).0 ≢ ok none
run_rounds_ends_example =
    run_rounds_ends host config true 2 obliging_kernel [] policy_limit (omega arith)

-- A kernel in which every process ends with status 0.
abbrev quiet_kernel : Kernel
quiet_kernel = record {
  succeeds = λ h c. true;
  contents = λ h c. some [];
  number = λ h c. 0;
  entries = λ h p. [];
}

ended :
    (monitor host config false 2 (codes "/r") none always (created_state 5) 0 quiet_kernel []).0
    ≡ ok none
unfolding monitor run_round start_child pipe_end child_args create_namespaced_process pid_of_clone
    connect_network mark_running disconnect save_state announce_restart should_restart exit_code_of
    text_eq is_empty attempt drop_answer acquire ask
ended = refl

finished :
    (monitor host config false 2
      (codes "/r")
      none
      (on_failure 0)
      (created_state 5)
      0
      quiet_kernel
      []).0
    ≡ ok (some (running_state (created_state 5) 0 0, 0))
unfolding monitor run_round start_child pipe_end child_args create_namespaced_process pid_of_clone
    connect_network mark_running disconnect save_state announce_restart should_restart exit_code_of
    text_eq is_empty attempt drop_answer acquire ask
finished = refl

monitor_stops_example : Ends (on_failure 0) 0
monitor_stops_example =
    monitor_stops host config false 2 0 (codes "/r") none (on_failure 0) (created_state 5)
      quiet_kernel [] {last = (running_state (created_state 5) 0 0, 0)} finished

abbrev one_dir : DirEntry
one_dir = record { name = codes "abc1"; kind = some directory }

-- A kernel with one container, whose directory is listed wherever one is read.
abbrev listing_kernel : Kernel
listing_kernel = record {
  succeeds = λ h c. true;
  contents = λ h c. some [];
  number = λ h c. 0;
  entries = λ h p. some one_dir ∷ [];
}

abbrev files : Files
files = record { there = λ p. true; text = λ p. some [] }

find_dir-find_container_example :
    (find_dir host (codes "web") listing_kernel []).0
    ≡ found_or_not host files listing_kernel
        (record { sees = λ h p. refl; reads = λ h p. refl })
        (codes "web")
        (containers_dir host.env)
        (find_container
          (map (view host files (containers_dir host.env)) (one_dir ∷ []))
          (codes "web"))
find_dir-find_container_example =
    find_dir-find_container host files listing_kernel
      (record { sees = λ h p. refl; reads = λ h p. refl }) (codes "web") (one_dir ∷ []) [] refl
      (λ h. refl) (λ h. refl)
