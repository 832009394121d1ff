-- ===== src/Base/Results.antt =====
-- `anyhow::Result`: a value, or an error. An error is named for the message that it carries; the
-- contexts that the callers wrap around it are dropped.
use mathlib.Core.Bool.{Bool, true, false}

pub data Error : Type 0 where
  empty_memory invalid_memory memory_overflow : Error
  bad_volume_option bad_volume_format relative_container_path relative_host_path : Error
  volume_create_failed : Error
  bad_port_format bad_host_port bad_container_port zero_host_port zero_container_port : Error
  circular_dependency unknown_service out_of_fuel : Error
  io_error bad_number pool_exhausted : Error
  command_failed : Error
  already_exists not_found has_active_containers : Error
  no_pid container_running : Error
  capset_failed no_new_privs_failed seccomp_failed : Error
  unknown_user unknown_group setgid_failed setuid_failed : Error
  sync_failed bad_hostname hostname_failed chdir_failed no_command exec_failed : Error
  null_byte mount_failed create_dir_failed pivot_root_failed rootfs_missing panicked : Error
  unsupported_image unsupported_version unsupported_system empty_destination : Error
  fork_failed pipe_failed clone_failed : Error
  group_denied privileges_missing : Error
  clean_failed client_failed download_failed extract_failed tar_failed debootstrap_failed : Error
  bad_config install_failed unsupported_manager setup_failed abnormal_end dnf_failed : Error
  mkfs_failed resize_failed not_sized not_running bad_copy no_overlay unknown_signal : Error

pub data Result {ℓ} (A : Type ℓ) : Type ℓ where
  ok : A → Result A
  err : Error → Result A

module _ {ℓ} {A B : Type ℓ} where
  -- The question mark: an error ends the chain.
  infixl 5 ◌>>=◌
  abbrev pub ◌>>=◌ : Result A → (A → Result B) → Result B
  err failure >>= next = err failure
  ok value >>= next = next value

-- `if !test { return Err(e) }`
abbrev pub guard : Error → Bool → Result (Unit {0})
guard failure false = err failure
guard failure true = ok tt
