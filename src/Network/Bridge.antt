-- ===== src/Network/Bridge.antt =====
-- `ensure_bridge` and `setup_nat` of src/network.rs.
use virturust.Base.{
  Bool, true, false, not, List, [], ◌∷◌, ◌++◌, Option, none, some, map, command_failed, io_error,
}
use virturust.Text.{Text, codes}
use virturust.Sys.{Action, pure, throw, ◌>>=◌, ◌>>◌, attempt, drop_answer, when, write_file}
use virturust.Network.Command.{
  bridge_subnet, bridge_ip_cidr, bridge_name, run_cmd, try_cmd, output, successful, started,
}

abbrev accept_rule : Text → Text → Text → List Text
accept_rule command chain side =
    command ∷ chain ∷ side ∷ bridge_subnet ∷ codes "-j" ∷ codes "ACCEPT" ∷ []

abbrev masquerade_rule : Text → List Text
masquerade_rule command =
    map codes ("-t" ∷ "nat" ∷ [])
    ++ (command
        ∷ codes "POSTROUTING"
        ∷ codes "-s"
        ∷ bridge_subnet
        ∷ codes "-j"
        ∷ codes "MASQUERADE"
        ∷ [])

-- The bridge is created unless `ip link show` finds it; it is an error if `ip` cannot be started.
unfoldable pub create_bridge : Option Bool → Action (Unit {0})
create_bridge none = throw command_failed
create_bridge (some true) = pure tt
create_bridge (some false) = do
  run_cmd (codes "ip")
      (codes "link" ∷ codes "add" ∷ bridge_name ∷ codes "type" ∷ codes "bridge" ∷ [])
  run_cmd (codes "ip")
      (codes "addr" ∷ codes "add" ∷ bridge_ip_cidr ∷ codes "dev" ∷ bridge_name ∷ [])
  run_cmd (codes "ip") (codes "link" ∷ codes "set" ∷ bridge_name ∷ codes "up" ∷ [])

-- With firewalld, the bridge joins the trusted zone.
unfoldable pub trust_bridge : Action (Unit {0})
trust_bridge = do
  state ← output (codes "firewall-cmd") (codes "--state" ∷ [])
  when (successful state) (do
    try_cmd (codes "firewall-cmd")
        (codes "--zone=trusted" ∷ (codes "--add-interface=" ++ bridge_name) ∷ [])
    try_cmd (codes "firewall-cmd") (codes "--zone=trusted" ∷ codes "--add-masquerade" ∷ []))

-- With Docker, the bridge's traffic is accepted in Docker's own chain, once.
unfoldable pub accept_in_docker_chain : Action (Unit {0})
accept_in_docker_chain = do
  chain ← output (codes "iptables") (codes "-L" ∷ codes "DOCKER-USER" ∷ codes "-n" ∷ [])
  when (successful chain) (do
    rule ← output (codes "iptables") (accept_rule (codes "-C") (codes "DOCKER-USER") (codes "-s"))
    when (not (successful rule)) (do
      try_cmd (codes "iptables") (accept_rule (codes "-I") (codes "DOCKER-USER") (codes "-s"))
      try_cmd (codes "iptables") (accept_rule (codes "-I") (codes "DOCKER-USER") (codes "-d"))))

unfoldable pub ensure_bridge : Action (Unit {0})
ensure_bridge = do
  shown ← output (codes "ip") (codes "link" ∷ codes "show" ∷ bridge_name ∷ [])
  create_bridge shown
  attempt io_error (write_file (codes "/proc/sys/net/ipv4/ip_forward") (codes "1"))
  drop_answer (write_file (codes "/proc/sys/net/ipv4/conf/all/route_localnet") (codes "1"))
  trust_bridge
  accept_in_docker_chain
  drop_answer (write_file (codes "/proc/sys/net/bridge/bridge-nf-call-iptables") (codes "0"))
  drop_answer (write_file (codes "/proc/sys/net/bridge/bridge-nf-call-ip6tables") (codes "0"))

unfoldable pub accept_forward : Action (Unit {0})
accept_forward = do
  try_cmd (codes "iptables") (accept_rule (codes "-A") (codes "FORWARD") (codes "-s"))
  try_cmd (codes "iptables") (accept_rule (codes "-A") (codes "FORWARD") (codes "-d"))

-- The masquerade rule, unless it is there.
unfoldable pub nat_by_iptables : Action (Unit {0})
nat_by_iptables = do
  there ← output (codes "iptables") (masquerade_rule (codes "-C"))
  when (not (successful there))
      (do try_cmd (codes "iptables") (masquerade_rule (codes "-A")); accept_forward)

abbrev nft_rule : List Text → List Text
nft_rule rest = map codes ("add" ∷ "rule" ∷ "ip" ∷ "corten" ∷ []) ++ rest

unfoldable pub nat_by_nft : Action (Unit {0})
nat_by_nft = do
  try_cmd (codes "nft") (map codes ("add" ∷ "table" ∷ "ip" ∷ "corten" ∷ []))
  try_cmd (codes "nft") (
      map codes (
        "add" ∷ "chain" ∷ "ip" ∷ "corten" ∷ "postrouting"
        ∷ "{ type nat hook postrouting priority 100 ; }" ∷ []))
  try_cmd (codes "nft") (
      nft_rule (
        codes "postrouting" ∷ codes "ip" ∷ codes "saddr" ∷ bridge_subnet ∷ codes "masquerade" ∷ []))
  try_cmd (codes "nft") (
      map codes (
        "add" ∷ "chain" ∷ "ip" ∷ "corten" ∷ "forward" ∷ "{ type filter hook forward priority 0 ; }"
        ∷ []))
  try_cmd (codes "nft") (
      nft_rule (codes "forward" ∷ codes "ip" ∷ codes "saddr" ∷ bridge_subnet ∷ codes "accept" ∷ []))
  try_cmd (codes "nft") (
      nft_rule (codes "forward" ∷ codes "ip" ∷ codes "daddr" ∷ bridge_subnet ∷ codes "accept" ∷ []))

-- The second and third method, and what is left when no tool can be started.
unfoldable pub nat_without_firewalld : Action (Unit {0})
nat_without_firewalld = do
  iptables ← output (codes "iptables") (codes "--version" ∷ [])
  elim (started iptables) [
    | true ↦ nat_by_iptables
    | false ↦ do
      nft ← output (codes "nft") (codes "list" ∷ codes "ruleset" ∷ [])
      elim (started nft) [ true ↦ nat_by_nft | false ↦ accept_forward ]
  ]

unfoldable pub setup_nat : Action (Unit {0})
setup_nat = do
  state ← output (codes "firewall-cmd") (codes "--state" ∷ [])
  when (not (successful state)) nat_without_firewalld
