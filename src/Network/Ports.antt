-- ===== src/Network/Ports.antt =====
-- `setup_port_forwarding` and `cleanup_port_forwarding` of src/network.rs.
use virturust.Base.{List, [], ◌∷◌, ◌++◌}
use virturust.Text.{Text, codes}
use virturust.Text.Number.{to_string}
use virturust.Sys.{Action, ◌>>◌, for_each}
use virturust.Config.{PortMapping}
use virturust.Network.Command.{bridge_name, run_cmd, try_cmd, numbered}

-- `{container_ip}:{container_port}`
abbrev pub destination : Text → PortMapping → Text
destination ip port = numbered (ip ++ codes ":") port.container_port

-- What follows the chain in both DNAT rules.
abbrev pub dnat : Text → PortMapping → List Text
dnat ip port =
    codes "-p"
    ∷ codes "tcp"
    ∷ codes "--dport"
    ∷ to_string port.host_port
    ∷ codes "-j"
    ∷ codes "DNAT"
    ∷ codes "--to-destination"
    ∷ destination ip port
    ∷ []

abbrev pub nat_table : Text → Text → List Text → List Text
nat_table command chain rest = codes "-t" ∷ codes "nat" ∷ command ∷ chain ∷ rest

abbrev pub return_masquerade : Text → PortMapping → List Text
return_masquerade ip port =
    codes "-d"
    ∷ ip
    ∷ codes "-s"
    ∷ codes "127.0.0.0/8"
    ∷ codes "-p"
    ∷ codes "tcp"
    ∷ codes "--dport"
    ∷ to_string port.container_port
    ∷ codes "-j"
    ∷ codes "MASQUERADE"
    ∷ []

abbrev pub forward_to : Text → PortMapping → List Text
forward_to ip port =
    codes "-I"
    ∷ codes "FORWARD"
    ∷ codes "-d"
    ∷ ip
    ∷ codes "-o"
    ∷ bridge_name
    ∷ codes "-p"
    ∷ codes "tcp"
    ∷ codes "--dport"
    ∷ to_string port.container_port
    ∷ codes "-j"
    ∷ codes "ACCEPT"
    ∷ []

abbrev pub forward_from : Text → List Text
forward_from ip =
    codes "-I"
    ∷ codes "FORWARD"
    ∷ codes "-s"
    ∷ ip
    ∷ codes "-i"
    ∷ bridge_name
    ∷ codes "-m"
    ∷ codes "conntrack"
    ∷ codes "--ctstate"
    ∷ codes "ESTABLISHED,RELATED"
    ∷ codes "-j"
    ∷ codes "ACCEPT"
    ∷ []

-- One round of the loop: only the first rule must succeed.
unfoldable pub publish_port : Text → PortMapping → Action (Unit {0})
publish_port ip port = do
  run_cmd (codes "iptables") (nat_table (codes "-I") (codes "PREROUTING") (dnat ip port))
  try_cmd (codes "iptables") (nat_table (codes "-I") (codes "OUTPUT") (dnat ip port))
  try_cmd (codes "iptables")
      (nat_table (codes "-I") (codes "POSTROUTING") (return_masquerade ip port))
  try_cmd (codes "iptables") (forward_to ip port)
  try_cmd (codes "iptables") (forward_from ip)

unfoldable pub setup_port_forwarding : Text → List PortMapping → Action (Unit {0})
setup_port_forwarding container_ip ports = for_each ports (publish_port container_ip)

-- The rule in OUTPUT is named with the host's address, with which it was not inserted.
unfoldable pub withdraw_port : Text → PortMapping → Action (Unit {0})
withdraw_port ip port = do
  try_cmd (codes "iptables") (nat_table (codes "-D") (codes "PREROUTING") (dnat ip port))
  try_cmd (codes "iptables")
      (nat_table (codes "-D") (codes "OUTPUT") (codes "-d" ∷ port.host_ip ∷ dnat ip port))

unfoldable pub cleanup_port_forwarding : Text → List PortMapping → Action (Unit {0})
cleanup_port_forwarding container_ip ports = for_each ports (withdraw_port container_ip)
