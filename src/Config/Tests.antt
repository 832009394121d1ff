-- ===== src/Config/Tests.antt =====
-- Command-line values, and the theorems at them.
use virturust.Base.{ℕ, ◌≡◌, refl, Bool, true, false, List, [], ◌∷◌, none, arith, ok}
use virturust.Text.{
  codes, text_eq, starts_with, trim, trim_start, trim_end, is_empty, is_whitespace,
}
use virturust.Text.Files.{FilePath, is_absolute, join, needs_slash}
use virturust.Text.Splitting.{Lacks, split, splitn}
use virturust.Text.Number.{parse_uint, parse_digits}
use virturust.Config.{VolumeMount, PortMapping}
use virturust.Config.Memory.{
  multiplier, unit_of, split_last, checked_mul, parse_trimmed, parse_memory,
}
use virturust.Config.Ports.{
  parse_u16, port_of_parts, dispatch_parts, parse_port, IsValid, print_port, parse_port-print_port,
}
use virturust.Config.Volumes.{
  volume_parts, is_named, mount_of, named_volume, resolve_host, parse_parts, parse_volume,
  parse_volume_sound, unset, ro_flag, print_volume, parse_volume-print_volume, parse_volume_named,
}
use virturust.Config.Isolation.{containers_dir_inj}

program : Unit {0}
unfolding parse_memory parse_trimmed unit_of split_last multiplier checked_mul trim trim_start
    trim_end is_whitespace is_empty parse_uint parse_digits parse_port dispatch_parts port_of_parts
    parse_u16 split splitn parse_volume parse_parts volume_parts resolve_host named_volume mount_of
    is_named text_eq starts_with join needs_slash
program = tt

parse_memory-mebi : parse_memory (codes " 64M ") ≡ ok 67108864
unfolding program
parse_memory-mebi = refl

abbrev web_port : PortMapping
web_port = record { host_ip = codes "0.0.0.0"; host_port = 8080; container_port = 80 }

parse_port-web : parse_port (codes "8080:80") ≡ ok web_port
unfolding program
parse_port-web = refl

web_port-IsValid : IsValid web_port
web_port-IsValid = record {
  host_pos = omega arith;
  host_le = omega arith;
  container_pos = omega arith;
  container_le = omega arith;
}

abbrev any_host : Lacks b':' (codes "0.0.0.0")
any_host = (
  λ e. omega (arith, e),
  (
    λ e. omega (arith, e),
    (
      λ e. omega (arith, e),
      (
        λ e. omega (arith, e),
        (λ e. omega (arith, e), (λ e. omega (arith, e), (λ e. omega (arith, e), tt))),
      ),
    ),
  ),
)

parse_port-print_port_example : parse_port (print_port web_port) ≡ ok web_port
parse_port-print_port_example = parse_port-print_port web_port web_port-IsValid any_host

-- A disk is the list of the directories on it; each can be created.
abbrev Disk : Type 0
Disk = List FilePath

abbrev exists : Disk → FilePath → Bool
exists [] p = false
exists (q ∷ d) p = true

abbrev create_dir_all : FilePath → Disk → Bool × Disk
create_dir_all p d = (true, p ∷ d)

abbrev data_mount : VolumeMount
data_mount = record { host_path = codes "/v/d"; container_path = codes "/x"; read_only = true }

parse_volume-data :
    (parse_volume exists create_dir_all (codes "/v") (codes "d:/x:ro") []).0 ≡ ok data_mount
unfolding program
parse_volume-data = refl

parse_volume_sound_example : (is_absolute (codes "/v/d") ≡ true) × (is_absolute (codes "/x") ≡ true)
parse_volume_sound_example =
    parse_volume_sound exists create_dir_all (codes "/v") (codes "d:/x:ro") [] {m = data_mount}
      parse_volume-data

abbrev lacks_x : Lacks b':' (codes "/x")
lacks_x = (λ e. omega (arith, e), (λ e. omega (arith, e), tt))

abbrev lacks_d : Lacks b':' (codes "d")
lacks_d = (λ e. omega (arith, e), tt)

parse_volume-print_volume_example :
    parse_volume exists create_dir_all
      (codes "/v")
      (print_volume (codes "/x") (codes "/x") ro_flag)
      []
    ≡ (ok (record { host_path = codes "/x"; container_path = codes "/x"; read_only = true }), [])
parse_volume-print_volume_example =
    parse_volume-print_volume exists create_dir_all (codes "/v") (codes "/x") (codes "/x") ro_flag
      [] lacks_x lacks_x refl refl

d-is_named : is_named (codes "d") ≡ true
unfolding is_named starts_with
d-is_named = refl

parse_volume_named_example :
    parse_volume exists create_dir_all (codes "/v") (print_volume (codes "d") (codes "/x") unset) []
    ≡ (
      ok (record {
        host_path = join (codes "/v") (codes "d");
        container_path = codes "/x";
        read_only = false;
      }),
      join (codes "/v") (codes "d") ∷ [],
    )
parse_volume_named_example =
    parse_volume_named exists create_dir_all (codes "/v") (codes "d") (codes "/x") unset [] lacks_d
      lacks_x d-is_named refl refl

containers_dir_inj_example : ◌≡◌ {A = ℕ} 1000 1000
containers_dir_inj_example = containers_dir_inj none 1000 1000 (omega arith) (omega arith) refl
