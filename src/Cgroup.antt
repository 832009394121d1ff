-- ===== src/Cgroup.antt =====
-- src/cgroup.rs: the resource limits of a container.
use virturust.Base.{ℕ, ◌++◌, io_error, create_dir_failed}
use virturust.Text.{Text, codes}
use virturust.Text.Files.{FilePath, join}
use virturust.Text.Number.{to_string}
use virturust.Sys.{
  Action, pure, ◌>>=◌, ◌>>◌, perform, attempt, drop_answer, when, exists, create_dir_all,
  write_file, remove_dir,
}

pub record Cgroup : Type 0 where
  pub path : FilePath

abbrev pub corten_cgroup : FilePath
corten_cgroup = join (codes "/sys/fs/cgroup") (codes "corten")

unfoldable pub create : Text → Action Cgroup
create container_id = do
  attempt create_dir_failed (create_dir_all (join corten_cgroup container_id))
  drop_answer (
      write_file (join corten_cgroup (codes "cgroup.subtree_control")) (codes "+memory +cpu +pids"))
  pure (record { path = join corten_cgroup container_id })

-- One of the control files of the group.
abbrev pub write_control : Cgroup → Text → Text → Action (Unit {0})
write_control cg file value = attempt io_error (write_file (join cg.path file) value)

unfoldable pub set_memory_limit : Cgroup → ℕ → Action (Unit {0})
set_memory_limit cg bytes = write_control cg (codes "memory.max") (to_string bytes)

-- The quota is `cpus * 100000` cut to a whole number, of a type of numbers that is left open.
unfoldable pub set_cpu_limit : {F : Type 0} → (F → ℕ) → Cgroup → F → Action (Unit {0})
set_cpu_limit quota_of cg cpus =
    write_control cg (codes "cpu.max") (to_string (quota_of cpus) ++ codes " 100000")

unfoldable pub set_pids_limit : Cgroup → ℕ → Action (Unit {0})
set_pids_limit cg max = write_control cg (codes "pids.max") (to_string max)

unfoldable pub add_process : Cgroup → ℕ → Action (Unit {0})
add_process cg pid = write_control cg (codes "cgroup.procs") (to_string pid)

unfoldable pub destroy : Cgroup → Action (Unit {0})
destroy cg = do there ← perform (exists cg.path); when there (attempt io_error (remove_dir cg.path))
