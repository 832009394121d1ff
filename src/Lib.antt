-- ===== src/Lib.antt =====
-- Corten, a container runtime: a verification of the program under src/.
--
-- The program starts a container for each `run`. The command line gives an image, limits, volumes,
-- ports and a restart policy. src/config.rs parses these values and says where the data of a user
-- lie; src/compose.rs orders the services of a forge file, whose comments src/lib.rs strips first.
-- src/container.rs then saves the metadata, mounts a root (src/filesystem.rs), sets up the bridge
-- (src/network.rs) and the cgroup (src/cgroup.rs), and goes round a loop: it clones a process into
-- new namespaces (src/namespace.rs), connects it, releases it, waits for it, and asks the restart
-- policy whether to start over. The new process mounts its file systems, changes its root, drops
-- its privileges (src/security.rs) and executes the command.
--
-- Files:
--   Base         shared names, tests on numbers, results and the errors of all components
--   Text         texts as lists of character codes; numbers, paths, lines and splitting of std
--   Sys          the calls that the program makes: an action takes a kernel, which answers every
--                call as it likes from what happened before, and the history of calls
--   Jsonc        strip_jsonc_comments of src/lib.rs
--   Config       src/config.rs: types (Config), parse_memory and parse_image_ref (Memory),
--                parse_port (Ports), parse_volume (Volumes), the directories (Dirs, Isolation)
--   Cli          src/cli.rs: the command line as records and data types
--   Security     src/security.rs: drop_capabilities (Caps), apply_seccomp_filter (Filter), mask_paths
--                (Hardening)
--   Forge        src/compose.rs: resolve_order and topo_sort
--   Filesystem   src/filesystem.rs: setup_container_fs, setup_overlay, cleanup_overlay
--   Namespace    src/namespace.rs: apply_user (User), child_main (Child), create_namespaced_process
--                (Clone)
--   Network      src/network.rs: ensure_bridge and setup_nat (Bridge), the allocators (Addresses), the
--                veth pair (Veth), published ports (Ports), named networks (Named, Dns, Lifecycle)
--                and the clean-up of `system prune` (Flush)
--   Cgroup       src/cgroup.rs
--   Image        src/image.rs: the images on disk (Image), the loop over the mirrors (Mirror),
--                pull_image (Pull)
--   Build        src/build.rs: the build file (Build, Plan), commands in the root (Shell), the base
--                system (Bootstrap), copies (Copy), the other steps (Steps), build_image (Pipeline)
--   Command      src/main.rs: main (Privileges, Dispatch), cmd_run (Run, Merge), cmd_kill (Signals),
--                cmd_rm (Remove), cmd_ps, cmd_stop, cmd_inspect and cmd_exec (Inspect), cmd_cp and
--                cmd_logs (Files), cmd_pull, cmd_images, cmd_build, cmd_image_prune and cmd_network
--                (Images), cmd_volume (Volume, Resize, Sizes), cmd_snapshot (Snapshot, Diff), cmd_stats
--                (Stats), cmd_mlogs (LogFiles, Mlogs), cmd_system_prune (System), cmd_forge (Forge)
--   Container    src/container.rs: the restart policy (Policy), the metadata (Metadata),
--                find_container (Find as a search in a list, Locate on the disk), run (Setup, Copy,
--                Round, Run) and stop (Stop)
--
-- The other files of a directory hold its theorems, and each Tests its examples.
--
-- State and operations. What a function of the source changes outside its own variables is a call
-- to the kernel, to the disk or to another program, and each is a constructor of `Sys.Call`. The
-- history is the list of all calls in their order, so a statement about what has happened is one
-- about the history, and a statement for every kernel covers every failure of every call. A question
-- mark operator is the bind of `Sys`, `.ok()` is `ignore` or a call whose answer is dropped. The
-- messages of errors are cut down to one constructor for each, and log output is left out.
-- `topo_sort` mutates a record of the order and two sets. The disk of `parse_volume` is a parameter.
--
-- Fuel. `topo_sort` runs on one more than the number of services, and the restart loop and the wait of
-- `stop` on a number of rounds, which the entries on their termination show to be enough. The walks
-- over directories run on a bound of their nesting, which the entry on `copy_dir_all` shows to be enough
-- and which Linux bounds by the length of a path. The loops that follow logs and show statistics have
-- no end in the source and run for a number of rounds. The loops that delete the rules of published
-- ports run for a number of rounds too, and the entry on `flush_chain` says which is enough where a
-- deletion deletes. All other loops are structural.
--
-- Numbers are natural numbers with the bounds of the source's types tested where they are parsed; the
-- count of restarts wraps at 2 ^ 32. A process id and a pid file hold no negative number. The quota of
-- processor time is a floating-point number in the source and of a type left open here, with its cast
-- a parameter; serde_json is a pair of functions.
--
-- Requests, archives, tar and the package managers are calls. The parsers of JSON and TOML, the accounts
-- of the C library, the print of floating-point numbers and `{:?}` are parameters. A file that is open
-- is known by its path.
--
-- Not modelled: the terminal of `run -it` and the environment of nsenter; the logger; and the progress
-- messages of pulls and builds. The child that clone or fork creates and its parent are modelled each by
-- itself. Of `to_lowercase` and `to_uppercase` only what a comparison with an ASCII word can tell is
-- kept.
pub mod Base
pub mod Text
pub mod Jsonc
pub mod Config
pub mod Sys
pub mod Security
pub mod Forge
pub mod Filesystem
pub mod Namespace
pub mod Network
pub mod Cgroup
pub mod Container
pub mod Command
pub mod Image
pub mod Build
pub mod Cli
