-- ===== src/Network/Rules.antt =====
-- The firewall rules of published ports: the commands that set them up and those that remove them.
use virturust.Base.{List, [], ◌∷◌}
use virturust.Text.{Text, codes}
use virturust.Sys.{Call, run}
use virturust.Config.{PortMapping}
use virturust.Network.Ports.{dnat, nat_table, return_masquerade, forward_to, forward_from}

-- The five rules of a port, in the order in which they are inserted.
abbrev pub rules : Text → PortMapping → List Call
rules ip port =
    run (codes "iptables") (nat_table (codes "-I") (codes "PREROUTING") (dnat ip port))
    ∷ run (codes "iptables") (nat_table (codes "-I") (codes "OUTPUT") (dnat ip port))
    ∷ run (codes "iptables")
        (nat_table (codes "-I") (codes "POSTROUTING") (return_masquerade ip port))
    ∷ run (codes "iptables") (forward_to ip port)
    ∷ run (codes "iptables") (forward_from ip)
    ∷ []

abbrev pub removals : Text → PortMapping → List Call
removals ip port =
    run (codes "iptables") (nat_table (codes "-D") (codes "PREROUTING") (dnat ip port))
    ∷ run (codes "iptables")
        (nat_table (codes "-D") (codes "OUTPUT") (codes "-d" ∷ port.host_ip ∷ dnat ip port))
    ∷ []
