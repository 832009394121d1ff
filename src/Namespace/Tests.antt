-- ===== src/Namespace/Tests.antt =====
-- The start of a small container, and the theorems at it.
use virturust.Base.{arith, map, unknown_user, ◌≡◌, refl, false, [], ◌∷◌, none, ok}
use virturust.Text.{codes}
use virturust.Sys.{attempt, perform, drop_answer, require, acquire, for_each, fetch, ask}
use virturust.Sys.Obliging.{obliging_kernel}
use virturust.Filesystem.{
  path_to_cstring, bind_mount, mount_fs, mount_none, remount_readonly, bind_host_device,
  make_device, setup_minimal_dev, mount_special_filesystems, strip_slashes, strip_root,
  mount_volume, mount_volumes, prepare_mounts, make_old_root, swap_root, setup_container_fs,
  overlay_options, setup_overlay, cleanup_overlay,
}
use virturust.Security.Caps.{
  contains, caps_to_drop, cap_mask, drop_bounding, raise_ambient, drop_capabilities,
}
use virturust.Security.Filter.{checks, build_filter, apply_seccomp_filter}
use virturust.Security.Hardening.{mask_path, make_readonly, mask_paths}
use virturust.Namespace.Child.{
  ChildArgs, apply_env, open_log, setup_loopback, await_parent, set_surroundings, harden, restrict,
  redirect, check_args, prepare_exec, child_main,
}
use virturust.Namespace.User.{
  name_and_id, id_in_line, find_id, lift, lookup_uid, lookup_gid, user_and_group, uid_of, gid_of,
  switch, apply_parts, apply_user,
}
use virturust.Text.Files.{join, needs_slash}
use virturust.Text.Splitting.{split_once}
use virturust.Text.{is_empty}
use virturust.Namespace.Hardened.{Sealed, child_main_hardens}
use virturust.Namespace.Lookup
use virturust.Namespace.Lookup.{Account, line_of, id_of, find_id-line_of}

abbrev args : ChildArgs
args = record {
  rootfs = codes "/r";
  hostname = codes "web";
  command = codes "/bin/sh" ∷ [];
  sync_pipe_rd = 3;
  volumes = [];
  env = codes "A=b" ∷ [];
  working_dir = [];
  user = [];
  network_mode = codes "bridge";
  stdout_log = [];
  stderr_log = [];
  rootless = false;
  privileged = false;
  read_only = false;
  pty_slave_fd = none;
}

starts : (child_main args obliging_kernel []).0 ≡ ok tt
unfolding path_to_cstring bind_mount mount_fs mount_none remount_readonly bind_host_device
    make_device setup_minimal_dev mount_special_filesystems strip_slashes strip_root mount_volume
    mount_volumes prepare_mounts make_old_root swap_root setup_container_fs overlay_options
    setup_overlay cleanup_overlay contains caps_to_drop cap_mask drop_bounding raise_ambient
    drop_capabilities checks build_filter apply_seccomp_filter mask_path make_readonly mask_paths
    apply_env open_log setup_loopback await_parent set_surroundings harden restrict redirect
    check_args prepare_exec child_main name_and_id id_in_line find_id lift lookup_uid lookup_gid
    user_and_group uid_of gid_of switch apply_parts apply_user join needs_slash split_once is_empty
    attempt perform drop_answer require acquire for_each fetch ask
starts = refl

child_main_hardens_example : Sealed args.command (child_main args obliging_kernel []).1
child_main_hardens_example = child_main_hardens args obliging_kernel [] refl starts

abbrev web_account : Account
web_account = record {
  name = codes "web";
  password = codes "x";
  id = 1000;
  others = codes "1000::/:/bin/sh";
}

web_account-IsValid : Lookup.IsValid web_account
web_account-IsValid = record {
  name_lacks = (λ e. omega (arith, e), (λ e. omega (arith, e), (λ e. omega (arith, e), tt)));
  password_lacks = (λ e. omega (arith, e), tt);
  id_le = omega arith;
}

find_id-line_of_example :
    find_id unknown_user (codes "web") (map line_of (web_account ∷ []))
    ≡ id_of unknown_user (codes "web") (web_account ∷ [])
find_id-line_of_example =
    find_id-line_of unknown_user (codes "web") (web_account ∷ []) (web_account-IsValid, tt)
