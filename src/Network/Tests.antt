-- ===== src/Network/Tests.antt =====
-- The theorems on the network at small examples.
use virturust.Base.{
  ℕ, zero, suc, List, map, ◌++◌, ap, ◌∙◌, ◌≢◌, some, ◌≡◌, refl, [], ◌∷◌, none, arith, ok, err,
  pool_exhausted,
}
use virturust.Text.{Text, codes}
use virturust.Sys.{write_file, fetch, History}
use virturust.Sys.Store.{stored-write_file, stored, storing_kernel, storing_kernel-StoresFile}
use virturust.Sys.Obliging.{obliging_kernel}
use virturust.Config.{PortMapping}
use virturust.Network.Command.{next_ip_file}
use virturust.Network.Addresses.{allocate_ip}
use virturust.Network.Pool.{Next, HandsOut, allocate_times, allocate_ip_fresh, allocate_ip_full}
use virturust.Network.Named.{
  Containers, with_containers, meta_path, NetworkInfo, Json, get, insert, parse_info, load_network,
}
use virturust.Network.Lifecycle.{register_container_in_network}
use virturust.Network.Members.{
  ReadsBack, join_at, leave, after_all, change_all, load_network-change_all,
}
use virturust.Network.Registry.{Saves, register_container_in_network_lem}

nothing_stored : stored next_ip_file [] ≡ none
unfolding stored
nothing_stored = refl

allocate_ip_fresh_example : HandsOut 3 2 storing_kernel []
allocate_ip_fresh_example =
    allocate_ip_fresh 3 storing_kernel [] (storing_kernel-StoresFile next_ip_file) nothing_stored
      (omega arith)

allocate_ip_full_example :
    (h' : History) × (allocate_ip storing_kernel (allocate_times 253 storing_kernel []).1
      ≡ (err pool_exhausted, h'))
    × Next next_ip_file 2 255 h'
allocate_ip_full_example =
    allocate_ip_full storing_kernel [] (storing_kernel-StoresFile next_ip_file) nothing_stored

abbrev web_port : PortMapping
web_port = record { host_ip = codes "0.0.0.0"; host_port = 8080; container_port = 80 }

abbrev web_ip : Text
web_ip = codes "10.0.42.2"

abbrev backend : NetworkInfo
backend = record {
  name = codes "backend";
  bridge = codes "corten-backend";
  subnet = codes "10.0.43.0/24";
  gateway = codes "10.0.43.1";
  containers = (codes "db", codes "10.0.43.2") ∷ [];
}

abbrev json : Json
json = record { print = λ i. i.bridge; parse = λ text. some backend }

loaded : (load_network json (codes "backend") obliging_kernel []).0 ≡ ok backend
unfolding load_network parse_info fetch
loaded = refl

register_container_in_network_lem_example :
    Saves json backend
      (insert (codes "web") (codes "10.0.43.3") backend.containers)
      (register_container_in_network json
        (codes "backend")
        (codes "web")
        (codes "10.0.43.3")
        obliging_kernel
        []).1
    × (get (insert (codes "web") (codes "10.0.43.3") backend.containers) (codes "web")
        ≡ some (codes "10.0.43.3"))
    × ((other : Text)
        → codes "web" ≢ other
        → get (insert (codes "web") (codes "10.0.43.3") backend.containers) other
          ≡ get backend.containers other)
register_container_in_network_lem_example =
    register_container_in_network_lem json (codes "backend") (codes "web") obliging_kernel []
      backend (codes "10.0.43.3") loaded

-- The texts of the metadata, each with its characters raised by one and a 0 behind it.
abbrev framed : List Text → Text
framed [] = []
framed (t ∷ ts) = map suc t ++ 0 ∷ framed ts

abbrev onto_first : ℕ → List Text → List Text
onto_first c [] = (c ∷ []) ∷ []
onto_first c (t ∷ ts) = (c ∷ t) ∷ ts

abbrev pieces : Text → List Text
pieces [] = []
pieces (zero ∷ s) = [] ∷ pieces s
pieces (suc c ∷ s) = onto_first c (pieces s)

pieces-frame : (t : Text) (s : Text) → pieces (map suc t ++ 0 ∷ s) ≡ t ∷ pieces s
pieces-frame [] s = refl
pieces-frame (c ∷ t) s = ap (onto_first c) (pieces-frame t s)

pieces-framed : (ts : List Text) → pieces (framed ts) ≡ ts
pieces-framed [] = refl
pieces-framed (t ∷ ts) = pieces-frame t (framed ts) ∙ ap (λ rest. t ∷ rest) (pieces-framed ts)

abbrev flat : Containers → List Text
flat [] = []
flat ((name, ip) ∷ m) = name ∷ ip ∷ flat m

abbrev pairs : List Text → Containers
pairs [] = []
pairs (name ∷ []) = []
pairs (name ∷ ip ∷ ts) = (name, ip) ∷ pairs ts

pairs-flat : (m : Containers) → pairs (flat m) ≡ m
pairs-flat [] = refl
pairs-flat ((name, ip) ∷ m) = ap (λ rest. (name, ip) ∷ rest) (pairs-flat m)

-- A printer and a reader of the containers of the network.
abbrev framing : Json
framing = record {
  print = λ info. framed (flat info.containers);
  parse = λ text. some (with_containers backend (pairs (pieces text)));
}

framing-ReadsBack : ReadsBack framing backend
framing-ReadsBack m = (
  m,
  ap (λ ts. some (with_containers backend (pairs ts))) (pieces-framed (flat m))
      ∙ ap (λ m'. some (with_containers backend m')) (pairs-flat m),
  refl,
)

abbrev created : History
created = write_file (meta_path (codes "backend")) (framing.print backend) ∷ []

load_network-change_all_example :
    (m : Containers) × ((load_network framing
        (codes "backend")
        storing_kernel
        (change_all framing
          (codes "backend")
          (join_at (codes "web") (codes "10.0.43.3") ∷ leave (codes "db") ∷ [])
          storing_kernel
          created).1).0
      ≡ ok (with_containers backend m))
    × (get m
        ≡ after_all
            (join_at (codes "web") (codes "10.0.43.3") ∷ leave (codes "db") ∷ [])
            (get backend.containers))
load_network-change_all_example =
    load_network-change_all framing backend storing_kernel framing-ReadsBack
      (storing_kernel-StoresFile (meta_path (codes "backend")))
      (join_at (codes "web") (codes "10.0.43.3") ∷ leave (codes "db") ∷ []) (get backend.containers)
      created
      (
        backend.containers,
        stored-write_file (meta_path (codes "backend")) (framing.print backend) [],
        refl,
      )
