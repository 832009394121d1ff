-- ===== src/Network/Lifecycle.antt =====
-- Named networks in src/network.rs: creation, removal, and the containers that join and leave.
use virturust.Base.{
  ℕ, Bool, true, false, not, List, [], ◌∷◌, ◌++◌, Option, none, some, get_elem?, io_error,
  bad_number, already_exists, not_found, has_active_containers, create_dir_failed,
}
use virturust.Text.{Text, codes}
use virturust.Text.Files.{FilePath}
use virturust.Text.Bytes.{cut_bytes}
use virturust.Text.Splitting.{split}
use virturust.Text.Number.{parse_uint, u8_max}
use virturust.Sys.{
  Action, pure, throw, ◌>>=◌, ◌>>◌, perform, attempt, require, drop_answer, when, exists,
  write_file, create_dir_all, remove_dir_all,
}
use virturust.Network.Command.{networks_dir, run_cmd, try_cmd, output, numbered}
use virturust.Network.Addresses.{allocate_network_octet, read_octet_or, advance}
use virturust.Network.Veth.{ContainerNetwork, short_id, veth_host_of, connect, configure}
use virturust.Network.Named.{
  Containers, NetworkInfo, Json, insert, remove, with_containers, network_dir, meta_path,
  load_network, save_network,
}
use virturust.Network.Dns.{hosts_file, dnsmasq_args, update_network_dns, stop_network_dns}

abbrev pub has_none : Containers → Bool
has_none [] = true
has_none (c ∷ m) = false

-- The metadata of a network with the given start of its name and third octet.
unfoldable pub info_of : Text → Text → ℕ → NetworkInfo
info_of network prefix octet = record {
  name = network;
  bridge = codes "corten-" ++ prefix;
  subnet = numbered (codes "10.0.") octet ++ codes ".0/24";
  gateway = numbered (codes "10.0.") octet ++ codes ".1";
  containers = [];
}

abbrev pub nat_rule : Text → Text → List Text
nat_rule command subnet =
    codes "-t"
    ∷ codes "nat"
    ∷ command
    ∷ codes "POSTROUTING"
    ∷ codes "-s"
    ∷ subnet
    ∷ codes "-j"
    ∷ codes "MASQUERADE"
    ∷ []

-- The bridge, its rule, and the name server, whose failure is only logged.
unfoldable pub raise_network : Text → NetworkInfo → Action (Unit {0})
raise_network network info = do
  run_cmd (codes "ip")
      (codes "link" ∷ codes "add" ∷ info.bridge ∷ codes "type" ∷ codes "bridge" ∷ [])
  run_cmd (codes "ip")
      (codes "addr" ∷ codes "add" ∷ (info.gateway ++ codes "/24") ∷ codes "dev" ∷ info.bridge ∷ [])
  run_cmd (codes "ip") (codes "link" ∷ codes "set" ∷ info.bridge ∷ codes "up" ∷ [])
  try_cmd (codes "iptables") (nat_rule (codes "-A") info.subnet)
  drop_answer (write_file (hosts_file network) [])
  dns ← output (codes "dnsmasq") (dnsmasq_args info.gateway network [])
  pure tt

-- The third field of the gateway.
unfoldable pub third_octet : NetworkInfo → Option ℕ
third_octet info = elim (get_elem? (split b'.' info.gateway) 2) [
  | none ↦ none
  | some s ↦ parse_uint u8_max s
]

-- `{NETWORKS_DIR}/{network_name}/next_ip`
abbrev pub next_ip_of : Text → FilePath
next_ip_of network = networks_dir ++ (codes "/" ++ (network ++ codes "/next_ip"))

unfoldable pub allocate_in : Text → Option ℕ → Action Text
allocate_in network none = throw bad_number
allocate_in network (some third) = do
  there ← perform (exists (next_ip_of network))
  next ← read_octet_or there (next_ip_of network) 2
  octet ← advance (next_ip_of network) next
  pure (numbered (numbered (codes "10.0.") third ++ codes ".") octet)

module _ (json : Json) where
  unfoldable pub create_network : Text → Action NetworkInfo
  create_network network = do
    attempt create_dir_failed (create_dir_all networks_dir)
    there ← perform (exists (network_dir network))
    require already_exists (not there)
    attempt io_error (create_dir_all (network_dir network))
    octet ← allocate_network_octet
    prefix ← cut_bytes 10 network
    raise_network network (info_of network prefix octet)
    attempt io_error (write_file (meta_path network) (json.print (info_of network prefix octet)))
    pure (info_of network prefix octet)

  unfoldable pub remove_network : Text → Action (Unit {0})
  remove_network network = do
    there ← perform (exists (network_dir network))
    require not_found there
    info ← load_network json network
    require has_active_containers (has_none info.containers)
    stop_network_dns network
    try_cmd (codes "ip") (codes "link" ∷ codes "del" ∷ info.bridge ∷ [])
    try_cmd (codes "iptables") (nat_rule (codes "-D") info.subnet)
    attempt io_error (remove_dir_all (network_dir network))

  unfoldable pub register_container_in_network : Text → Text → Text → Action (Unit {0})
  register_container_in_network network container ip = do
    info ← load_network json network
    save_network json (with_containers info (insert container ip info.containers))
    update_network_dns network (with_containers info (insert container ip info.containers))

  unfoldable pub unregister_container_from_network : Text → Text → Action (Unit {0})
  unregister_container_from_network network container = do
    info ← load_network json network
    save_network json (with_containers info (remove container info.containers))
    update_network_dns network (with_containers info (remove container info.containers))
    when (has_none (remove container info.containers)) (stop_network_dns network)

  unfoldable pub setup_container_named_network : Text → Text → ℕ → Action ContainerNetwork
  setup_container_named_network network container_id child_pid = do
    info ← load_network json network
    id ← short_id container_id
    connect info.bridge id child_pid
    address ← allocate_in network (third_octet info)
    configure child_pid address info.gateway
    pure (record { ip = address; bridge = info.bridge; veth_host = veth_host_of id })
