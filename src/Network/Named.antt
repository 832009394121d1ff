-- ===== src/Network/Named.antt =====
-- Named networks in src/network.rs: their metadata on disk.
use virturust.Base.{List, [], ◌∷◌, Option, none, some, if◌then◌else◌, io_error}
use virturust.Text.{Text, codes, text_eq}
use virturust.Text.Files.{FilePath, join}
use virturust.Sys.{Action, pure, throw, ◌>>=◌, attempt, fetch, read_file, write_file}
use virturust.Network.Command.{networks_dir}

-- The hash map of the containers is a list of its entries, the first of a name being the one in the map.
abbrev pub Containers : Type 0
Containers = List (Text × Text)

pub record NetworkInfo : Type 0 where
  pub name : Text
  pub bridge : Text
  pub subnet : Text
  pub gateway : Text
  pub containers : Containers

unfoldable pub get : Containers → Text → Option Text
get [] name = none
get ((key, ip) ∷ m) name = if text_eq key name then some ip else get m name

unfoldable pub remove : Text → Containers → Containers
remove name [] = []
remove name ((key, ip) ∷ m) =
    let rest = remove name m in if text_eq key name then rest else (key, ip) ∷ rest

-- `insert` puts a new value in the place of the old one.
unfoldable pub insert : Text → Text → Containers → Containers
insert name ip m = (name, ip) ∷ remove name m

abbrev pub with_containers : NetworkInfo → Containers → NetworkInfo
with_containers info m = record {
  name = info.name;
  bridge = info.bridge;
  subnet = info.subnet;
  gateway = info.gateway;
  containers = m;
}

-- `serde_json`: the text of the metadata, and back.
pub record Json : Type 0 where
  pub print : NetworkInfo → Text
  pub parse : Text → Option NetworkInfo

abbrev pub network_dir : Text → FilePath
network_dir name = join networks_dir name

abbrev pub meta_path : Text → FilePath
meta_path name = join (network_dir name) (codes "network.json")

module _ (json : Json) where
  unfoldable pub parse_info : Option Text → Action NetworkInfo
  parse_info none = throw io_error
  parse_info (some text) = elim (json.parse text) [ none ↦ throw io_error | some info ↦ pure info ]

  unfoldable pub load_network : Text → Action NetworkInfo
  load_network name = fetch (read_file (meta_path name)) >>= parse_info

  unfoldable pub save_network : NetworkInfo → Action (Unit {0})
  save_network info = attempt io_error (write_file (meta_path info.name) (json.print info))
