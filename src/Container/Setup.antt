-- ===== src/Container/Setup.antt =====
-- `run` of src/container.rs up to its loop: the metadata, the root, the network and the cgroup.
use virturust.Base.{
  ℕ, Bool, true, false, not, ◌&&◌, ◌||◌, ◌++◌, Option, none, some, if◌then◌else◌, ok, err, io_error,
  create_dir_failed,
}
use virturust.Text.{Text, codes, text_eq}
use virturust.Text.Files.{FilePath, join}
use virturust.Text.Number.{to_string}
use virturust.Sys.{
  Action, pure, ◌>>=◌, ◌>>◌, attempt, drop_answer, ignore, when, ask, write_file, create_dir_all,
  unix_time, getuid, getgid,
}
use virturust.Config.{ContainerConfig, ContainerState, created}
use virturust.Config.Dirs.{containers_dir}
use virturust.Filesystem.{setup_overlay}
use virturust.Network.Bridge.{ensure_bridge, setup_nat}
use virturust.Network.Veth.{setup_container_dns}
use virturust.Cgroup.{Cgroup, create, set_memory_limit, set_cpu_limit, set_pids_limit}
use virturust.Container.Copy.{copy_dir_recursive, path_depth}
use virturust.Container.Metadata.{Host, save_state, config_path}

-- `m.is_ok()`
abbrev pub succeeded : {A : Type 0} → Action A → Action Bool
succeeded m k h = (ok (elim (m k h).0 [ ok a ↦ true | err e ↦ false ]), (m k h).1)

-- A limit that is set.
abbrev pub when_some : {A : Type 0} → Option A → (A → Action (Unit {0})) → Action (Unit {0})
when_some none f = pure tt
when_some (some a) f = f a

abbrev pub created_state : ℕ → ContainerState
created_state now = record {
  status = created;
  pid = none;
  created_at = now;
  started_at = none;
  finished_at = none;
  exit_code = none;
}

-- What the loop starts with.
pub record Prepared : Type 0 where
  pub rootfs : FilePath
  pub state : ContainerState
  pub cgroup : Option Cgroup

module _ {F : Type 0} where
  abbrev pub is_mode : ContainerConfig F → Text → Bool
  is_mode config mode = text_eq config.network_mode mode

  -- Neither bridge, none nor host.
  abbrev pub is_named_network : ContainerConfig F → Bool
  is_named_network config = not (
      is_mode config (codes "bridge")
      || is_mode config (codes "none")
      || is_mode config (codes "host"))

  -- The root by an overlay, or else by a copy.
  unfoldable pub choose_rootfs : ContainerConfig F → FilePath → Bool → Action FilePath
  choose_rootfs config dir true = pure (join (join dir (codes "overlay")) (codes "merged"))
  choose_rootfs config dir false = do
    copy_dir_recursive path_depth config.rootfs (join dir (codes "rootfs"))
    pure (join dir (codes "rootfs"))

  unfoldable pub prepare_rootfs : ContainerConfig F → FilePath → Action FilePath
  prepare_rootfs config dir = do
    overlay ←
        (if config.rootless
          then pure false
          else succeeded (setup_overlay config.rootfs (join dir (codes "overlay"))))
    choose_rootfs config dir overlay

  abbrev pub profile_text : ContainerConfig F → Text
  profile_text config =
      codes "export PS1='[corten:"
      ++ (config.name ++ codes "] \\w \\$ '\nexport TERM=xterm-256color\n")

  -- The name servers and the shell profile, whose failures are dropped.
  unfoldable pub furnish_rootfs : ContainerConfig F → FilePath → Action (Unit {0})
  furnish_rootfs config rootfs = do
    when (not (is_mode config (codes "none")) && not config.rootless)
        (ignore (setup_container_dns rootfs))
    drop_answer (create_dir_all (join rootfs (codes "etc/profile.d")))
    drop_answer (
        write_file (join (join rootfs (codes "etc/profile.d")) (codes "corten.sh"))
          (profile_text config))

  unfoldable pub create_cgroup : Host F → ContainerConfig F → Bool → Action (Option Cgroup)
  create_cgroup host config true = pure none
  create_cgroup host config false = do
    cg ← create config.id
    when_some config.resources.memory_bytes (set_memory_limit cg)
    when_some config.resources.cpu_quota (set_cpu_limit host.quota_of cg)
    when_some config.resources.pids_max (set_pids_limit cg)
    pure (some cg)

  abbrev pub container_dir : Host F → ContainerConfig F → FilePath
  container_dir host config = join (containers_dir host.env) config.id

  unfoldable pub prepare : Host F → ContainerConfig F → Action Prepared
  prepare host config = do
    attempt create_dir_failed (create_dir_all (container_dir host config))
    attempt io_error
        (write_file (config_path (container_dir host config)) (host.print_config config))
    root ← prepare_rootfs config (container_dir host config)
    furnish_rootfs config root
    now ← ask unix_time
    save_state host (container_dir host config) (created_state now)
    when (is_mode config (codes "bridge") && not config.rootless) (do ensure_bridge; setup_nat)
    cg ← create_cgroup host config config.rootless
    pure (record { rootfs = root; state = created_state now; cgroup = cg })

abbrev pub proc_file : ℕ → Text → FilePath
proc_file pid name = codes "/proc/" ++ (to_string pid ++ (codes "/" ++ name))

unfoldable pub setup_uid_gid_mappings : ℕ → Action (Unit {0})
setup_uid_gid_mappings child_pid = do
  uid ← ask getuid
  gid ← ask getgid
  attempt io_error (write_file (proc_file child_pid (codes "setgroups")) (codes "deny"))
  attempt io_error (
      write_file (proc_file child_pid (codes "uid_map"))
        (codes "0 " ++ (to_string uid ++ codes " 1")))
  attempt io_error (
      write_file (proc_file child_pid (codes "gid_map"))
        (codes "0 " ++ (to_string gid ++ codes " 1")))
