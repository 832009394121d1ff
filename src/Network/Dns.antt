-- ===== src/Network/Dns.antt =====
-- The name server of a named network in src/network.rs.
use virturust.Base.{
  ℕ, Bool, true, false, not, List, [], ◌∷◌, ◌++◌, Option, none, some, map, io_error, command_failed,
}
use virturust.Text.{Text, codes, trim}
use virturust.Text.Files.{FilePath, join}
use virturust.Text.Number.{parse_uint}
use virturust.Sys.{
  Action, pure, throw, ◌>>=◌, ◌>>◌, perform, attempt, drop_answer, fetch, when, exists, read_file,
  write_file, remove_file, create_dir_all, kill, bind_udp,
}
use virturust.Network.Command.{output}
use virturust.Network.Named.{NetworkInfo, Containers, Json, network_dir, load_network}

abbrev pub hosts_file : Text → FilePath
hosts_file network = join (network_dir network) (codes "dnsmasq.hosts")

abbrev pub pid_file : Text → FilePath
pid_file network = join (network_dir network) (codes "dnsmasq.pid")

-- One line for each container, `{ip} {name}`.
unfoldable pub hosts_of : Containers → Text
hosts_of [] = []
hosts_of ((name, ip) ∷ m) = ip ++ (codes " " ++ (name ++ (10 ∷ hosts_of m)))

-- The `i32` in a pid file, which holds no sign.
unfoldable pub pid_in : Option Text → Option ℕ
pid_in none = none
pid_in (some text) = parse_uint 2147483647 (trim text)

unfoldable pub dnsmasq_args : Text → Text → List Text → List Text
dnsmasq_args gateway network options =
    (codes "--conf-file=/dev/null" ∷ options)
    ++ (map codes ("--no-resolv" ∷ "--no-hosts" ∷ "--bind-dynamic" ∷ [])
        ++ ((codes "--listen-address=" ++ gateway)
            ∷ (codes "--addn-hosts=" ++ hosts_file network)
            ∷ (codes "--pid-file=" ++ pid_file network)
            ∷ []))

-- Whether the process of a pid file is alive.
unfoldable pub is_alive : Option ℕ → Action Bool
is_alive none = pure false
is_alive (some pid) = perform (kill pid 0)

-- Whether dnsmasq runs by its pid file; a stale file is removed.
unfoldable pub runs_by_file : Text → Bool → Action Bool
runs_by_file network false = pure false
runs_by_file network true = do
  text ← fetch (read_file (pid_file network))
  alive ← is_alive (pid_in text)
  when (not alive) (drop_answer (remove_file (pid_file network)))
  pure alive

-- dnsmasq is started, and once more as root if its status is not 0.
unfoldable pub start_after : Text → NetworkInfo → Option Bool → Action (Unit {0})
start_after network info none = throw command_failed
start_after network info (some true) = pure tt
start_after network info (some false) = do
  again ← output (codes "dnsmasq") (dnsmasq_args info.gateway network (codes "--user=root" ∷ []))
  pure tt

-- An address that cannot be bound has a server already.
unfoldable pub serve : Text → NetworkInfo → Action (Unit {0})
serve network info = do
  free ← perform (bind_udp (info.gateway ++ codes ":53"))
  when free (do
    attempt io_error (write_file (hosts_file network) (hosts_of info.containers))
    result ← output (codes "dnsmasq") (dnsmasq_args info.gateway network [])
    start_after network info result)

unfoldable pub start_network_dns : Text → NetworkInfo → Action (Unit {0})
start_network_dns network info = do
  there ← perform (exists (pid_file network))
  running ← runs_by_file network there
  when (not running) (serve network info)

-- A signal to the process of a pid file, if it can be read.
unfoldable pub signal_pid : ℕ → Option ℕ → Action (Unit {0})
signal_pid signal none = pure tt
signal_pid signal (some pid) = drop_answer (kill pid signal)

unfoldable pub reload_or_start : Text → NetworkInfo → Bool → Action (Unit {0})
reload_or_start network info true = do
  text ← fetch (read_file (pid_file network))
  signal_pid 1 (pid_in text)
reload_or_start network info false = start_network_dns network info

unfoldable pub update_network_dns : Text → NetworkInfo → Action (Unit {0})
update_network_dns network info = do
  attempt io_error (write_file (hosts_file network) (hosts_of info.containers))
  there ← perform (exists (pid_file network))
  reload_or_start network info there

unfoldable pub stop_network_dns : Text → Action (Unit {0})
stop_network_dns network = do
  there ← perform (exists (pid_file network))
  when there (do
    text ← fetch (read_file (pid_file network))
    signal_pid 15 (pid_in text)
    drop_answer (remove_file (pid_file network)))

module _ (json : Json) where
  unfoldable pub setup_named_network_dns : FilePath → Text → Text → Text → Action (Unit {0})
  setup_named_network_dns rootfs network own_name own_ip = do
    info ← load_network json network
    drop_answer (create_dir_all (join rootfs (codes "etc")))
    attempt io_error (
        write_file (join (join rootfs (codes "etc")) (codes "resolv.conf"))
          (codes "nameserver " ++ (info.gateway ++ 10 ∷ [])))
    attempt io_error (
        write_file (join (join rootfs (codes "etc")) (codes "hosts"))
          (codes "127.0.0.1\tlocalhost\n" ++ (own_ip ++ (9 ∷ own_name ++ 10 ∷ []))))
    start_network_dns network info
