-- ===== src/Config/Ports.antt =====
-- `parse_port` of src/config.rs.
use virturust.Base.{
  ℕ, ◌≤◌, ◌<◌, ◌≡◌, List, [], ◌∷◌, ◌++◌, none, some, arith, ◌==◌, if◌then◌else◌, Result, ok, err,
  bad_port_format, bad_host_port, bad_container_port, zero_host_port, zero_container_port, Error,
  ◌>>=◌,
}
use virturust.Text.{Text, codes}
use virturust.Text.Splitting.{split, Lacks, split-append, split-Lacks}
use virturust.Text.Number.{
  u16_max, parse_uint, parse_uint-le, to_string, parse_uint-to_string, to_string-Lacks,
}
use virturust.Config.{PortMapping}

-- `s.parse::<u16>()` with its error.
unfoldable pub parse_u16 : Error → Text → Result ℕ
parse_u16 e s = elim (parse_uint u16_max s) [ none ↦ err e | some n ↦ ok n ]

-- `parse_port` behind the split into an address and two numbers.
unfoldable pub port_of_parts : Text → Text → Text → Result PortMapping
port_of_parts host_ip host_port_str container_port_str = do
  host_port ← parse_u16 bad_host_port host_port_str
  container_port ← parse_u16 bad_container_port container_port_str
  if host_port == 0
      then err zero_host_port
      else if container_port == 0
      then err zero_container_port
      else ok (record { host_ip = host_ip; host_port = host_port; container_port = container_port })

unfoldable pub dispatch_parts : List Text → Result PortMapping
dispatch_parts (host ∷ container ∷ []) = port_of_parts (codes "0.0.0.0") host container
dispatch_parts (ip ∷ host ∷ container ∷ []) = port_of_parts ip host container
dispatch_parts _ = err bad_port_format

unfoldable pub parse_port : Text → Result PortMapping
parse_port s = dispatch_parts (split b':' s)

-- Both ports are nonzero `u16`s.
pub record IsValid (m : PortMapping) : Type 0 where
  pub host_pos : 0 < m.host_port
  pub host_le : m.host_port ≤ u16_max
  pub container_pos : 0 < m.container_port
  pub container_le : m.container_port ≤ u16_max

parse_u16-le : (e : Error) (s : Text) {n : ℕ} → parse_u16 e s ≡ ok n → n ≤ u16_max
unfolding parse_u16
parse_u16-le e s {n} h = ground (arith, parse_uint-le u16_max s {r = n})

port_of_parts-IsValid : (ip a b : Text) {m : PortMapping} → port_of_parts ip a b ≡ ok m → IsValid m
unfolding port_of_parts
port_of_parts-IsValid ip a b {m} h = ground (
  arith,
  parse_u16-le bad_host_port a {n = m.host_port},
  parse_u16-le bad_container_port b {n = m.container_port},
)

dispatch_parts-IsValid : (ps : List Text) {m : PortMapping} → dispatch_parts ps ≡ ok m → IsValid m
unfolding dispatch_parts
dispatch_parts-IsValid (a ∷ b ∷ []) h = port_of_parts-IsValid _ a b h
dispatch_parts-IsValid (ip ∷ a ∷ b ∷ []) h = port_of_parts-IsValid ip a b h
dispatch_parts-IsValid [] h = cc
dispatch_parts-IsValid (a ∷ []) h = cc
dispatch_parts-IsValid (a ∷ b ∷ c ∷ d ∷ ps) h = cc

-- Every accepted mapping has a host port and a container port from 1 to 65535.
parse_port-IsValid : (s : Text) {m : PortMapping} → parse_port s ≡ ok m → IsValid m
unfolding parse_port
parse_port-IsValid s h = dispatch_parts-IsValid (split b':' s) h

-- A mapping as it is written on the command line.
abbrev pub print_port : PortMapping → Text
print_port m = m.host_ip ++ b':' ∷ (to_string m.host_port ++ b':' ∷ to_string m.container_port)

parse_u16-to_string : (e : Error) (n : ℕ) → n ≤ u16_max → parse_u16 e (to_string n) ≡ ok n
unfolding parse_u16
parse_u16-to_string e n h = ground (arith, parse_uint-to_string u16_max n h)

port_of_parts-to_string :
    (m : PortMapping)
    → IsValid m
    → port_of_parts m.host_ip (to_string m.host_port) (to_string m.container_port) ≡ ok m
unfolding port_of_parts
port_of_parts-to_string m v =
    rw
      (
        parse_u16-to_string bad_host_port m.host_port v.host_le,
        parse_u16-to_string bad_container_port m.container_port v.container_le,
      )
      (ground arith)

-- A valid mapping whose address holds no colon is read back from its print.
pub parse_port-print_port :
    (m : PortMapping) → IsValid m → Lacks b':' m.host_ip → parse_port (print_port m) ≡ ok m
unfolding parse_port dispatch_parts
parse_port-print_port m v h =
    rw
      (
        split-append b':' m.host_ip _ h,
        split-append b':' (to_string m.host_port) _
            (to_string-Lacks b':' m.host_port (omega arith)),
        split-Lacks b':' (to_string m.container_port)
            (to_string-Lacks b':' m.container_port (omega arith)),
      )
      (port_of_parts-to_string m v)
