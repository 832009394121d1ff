-- ===== src/Network/Veth.antt =====
-- The network of a container in src/network.rs: the veth pair, its address, and the name servers.
use virturust.Base.{ℕ, [], ◌∷◌, ◌++◌, leb, length, take, panicked, io_error, create_dir_failed}
use virturust.Text.{Text, codes}
use virturust.Text.Files.{FilePath, join}
use virturust.Text.Number.{to_string}
use virturust.Sys.{
  Action, pure, ◌>>=◌, ◌>>◌, perform, attempt, require, ignore, when, exists, create_dir_all,
  copy_file,
}
use virturust.Network.Command.{bridge_ip, bridge_name, run_cmd, try_cmd, output, successful}
use virturust.Network.Addresses.{allocate_ip, release_ip}

pub record ContainerNetwork : Type 0 where
  pub ip : Text
  pub bridge : Text
  pub veth_host : Text

-- `&container_id[..8]`
unfoldable pub short_id : Text → Action Text
short_id container_id = do
  require panicked (leb 8 (length container_id))
  pure (take 8 container_id)

abbrev pub veth_host_of : Text → Text
veth_host_of id = codes "veth-" ++ id

abbrev pub veth_peer_of : Text → Text
veth_peer_of id = codes "peer-" ++ id

-- `--net=/proc/{child_pid}/ns/net`
abbrev pub net_ns : ℕ → Text
net_ns child_pid = codes "--net=/proc/" ++ (to_string child_pid ++ codes "/ns/net")

-- Steps 1 to 5: the pair is made, one end joins the bridge, the other becomes the container's eth0.
unfoldable pub connect : Text → Text → ℕ → Action (Unit {0})
connect bridge id child_pid = do
  try_cmd (codes "ip") (codes "link" ∷ codes "del" ∷ veth_host_of id ∷ [])
  run_cmd (codes "ip") (
      codes "link"
      ∷ codes "add"
      ∷ veth_host_of id
      ∷ codes "type"
      ∷ codes "veth"
      ∷ codes "peer"
      ∷ codes "name"
      ∷ veth_peer_of id
      ∷ [])
  run_cmd (codes "ip") (codes "link" ∷ codes "set" ∷ veth_host_of id ∷ codes "master" ∷ bridge ∷ [])
  run_cmd (codes "ip") (codes "link" ∷ codes "set" ∷ veth_host_of id ∷ codes "up" ∷ [])
  run_cmd (codes "ip")
      (codes "link" ∷ codes "set" ∷ veth_peer_of id ∷ codes "netns" ∷ to_string child_pid ∷ [])
  run_cmd (codes "nsenter") (
      net_ns child_pid
      ∷ codes "ip"
      ∷ codes "link"
      ∷ codes "set"
      ∷ veth_peer_of id
      ∷ codes "name"
      ∷ codes "eth0"
      ∷ [])

-- Step 7: the address, the interface and the default route.
unfoldable pub configure : ℕ → Text → Text → Action (Unit {0})
configure child_pid ip gateway = do
  run_cmd (codes "nsenter") (
      net_ns child_pid
      ∷ codes "ip"
      ∷ codes "addr"
      ∷ codes "add"
      ∷ (ip ++ codes "/24")
      ∷ codes "dev"
      ∷ codes "eth0"
      ∷ [])
  run_cmd (codes "nsenter")
      (net_ns child_pid ∷ codes "ip" ∷ codes "link" ∷ codes "set" ∷ codes "eth0" ∷ codes "up" ∷ [])
  run_cmd (codes "nsenter") (
      net_ns child_pid
      ∷ codes "ip"
      ∷ codes "route"
      ∷ codes "add"
      ∷ codes "default"
      ∷ codes "via"
      ∷ gateway
      ∷ [])

unfoldable pub setup_container_network : Text → ℕ → Action ContainerNetwork
setup_container_network container_id child_pid = do
  id ← short_id container_id
  connect bridge_name id child_pid
  address ← allocate_ip
  configure child_pid address bridge_ip
  pure (record { ip = address; bridge = bridge_name; veth_host = veth_host_of id })

-- Without a resolv.conf on the host, nothing is copied.
unfoldable pub setup_container_dns : FilePath → Action (Unit {0})
setup_container_dns rootfs = do
  there ← perform (exists (codes "/etc/resolv.conf"))
  when there (do
    attempt create_dir_failed (create_dir_all (join rootfs (codes "etc")))
    attempt io_error (
        copy_file (codes "/etc/resolv.conf")
          (join (join rootfs (codes "etc")) (codes "resolv.conf"))))

unfoldable pub cleanup_container_network : Text → Action (Unit {0})
cleanup_container_network container_id = do
  id ← short_id container_id
  shown ← output (codes "ip") (codes "link" ∷ codes "show" ∷ veth_host_of id ∷ [])
  when (successful shown) (try_cmd (codes "ip") (codes "link" ∷ codes "del" ∷ veth_host_of id ∷ []))
  ignore (release_ip container_id)
