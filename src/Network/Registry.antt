-- ===== src/Network/Registry.antt =====
-- The containers of a named network: what registering and unregistering leave in its metadata.
use virturust.Base.{
  ℕ, ◌&&◌, ok, io_error, ◌≡◌, ◌≢◌, refl, sym, ap, subst, ◌∙◌, Bool, true, false, [], ◌∷◌, Option,
  none, some, arith, Bool-cases, inl, inr, if◌then◌else◌,
}
use virturust.Text.{Text, text_eq, text_eq_refl, text_eq→eq}
use virturust.Text.Files.{FilePath}
use virturust.Sys.{Call, History, Kernel, Action, pure, throw, and_then, ◌>>=◌, write_file}
use virturust.Sys.Keeps.{occurs, Keeps, keeps_rules, first_occurs}
use virturust.Network.Outputs.{Keeps-output}
use virturust.Network.Named.{
  Containers, NetworkInfo, Json, get, remove, insert, with_containers, meta_path, parse_info,
  load_network, save_network,
}
use virturust.Network.Dns.{
  is_alive, runs_by_file, start_after, serve, start_network_dns, signal_pid, reload_or_start,
  update_network_dns, stop_network_dns,
}
use virturust.Network.Lifecycle.{register_container_in_network, unregister_container_from_network}

pub get-remove_same : (m : Containers) (name : Text) → get (remove name m) name ≡ none
unfolding get remove
get-remove_same [] name = refl
get-remove_same ((key, ip) ∷ m) name = ground (arith, get-remove_same m name)

text_eq_apart : (a b c : Text) → a ≢ b → text_eq c a ≡ true → text_eq c b ≡ false
text_eq_apart a b c ne e = elim (Bool-cases (text_eq c b)) [
  | inl y ↦ absurd (ne (sym (text_eq→eq c a e) ∙ text_eq→eq c b y))
  | inr n ↦ n
]

pub get-remove_other :
    (m : Containers) (name other : Text) → name ≢ other → get (remove name m) other ≡ get m other
unfolding get remove
get-remove_other [] name other ne = refl
get-remove_other ((key, ip) ∷ m) name other ne = elim (Bool-cases (text_eq key name)) [
  | inl y ↦ rw (y, text_eq_apart name other key ne y) (get-remove_other m name other ne)
  | inr n ↦
      rw n (
        ap (λ rest. if text_eq key other then some ip else rest) (get-remove_other m name other ne))
]

-- In the place of an entry there is a new one, and all others are where they were.
get-insert :
    (m : Containers) (name ip other : Text)
    → (get (insert name ip m) name ≡ some ip)
      × (name ≢ other → get (insert name ip m) other ≡ get m other)
unfolding insert get
get-insert m name ip other = (
  rw (text_eq_refl name) refl,
  λ ne.
      rw (text_eq_apart name other name ne (text_eq_refl name)) (get-remove_other m name other ne),
)

-- A write of a text to a path.
abbrev pub is_write : FilePath → Text → Call → Bool
is_write path text (write_file p t) = text_eq path p && text_eq text t
is_write path text c = false

pub is_write_refl : (path text : Text) → is_write path text (write_file path text) ≡ true
is_write_refl path text = rw (text_eq_refl path, text_eq_refl text) refl

Keeps-is_alive : (pid : Option ℕ) → Keeps (is_alive pid)
unfolding is_alive
Keeps-is_alive none = search keeps_rules
Keeps-is_alive (some pid) = search keeps_rules

Keeps-signal_pid : (signal : ℕ) (pid : Option ℕ) → Keeps (signal_pid signal pid)
unfolding signal_pid
Keeps-signal_pid signal none = search keeps_rules
Keeps-signal_pid signal (some pid) = search keeps_rules

Keeps-runs_by_file : (network : Text) (there : Bool) → Keeps (runs_by_file network there)
unfolding runs_by_file
Keeps-runs_by_file network false = search keeps_rules
Keeps-runs_by_file network true = search (keeps_rules, Keeps-is_alive)

Keeps-start_after :
    (network : Text) (info : NetworkInfo) (r : Option Bool) → Keeps (start_after network info r)
unfolding start_after
Keeps-start_after network info none = search keeps_rules
Keeps-start_after network info (some true) = search keeps_rules
Keeps-start_after network info (some false) = search (keeps_rules, Keeps-output)

Keeps-start_network_dns :
    (network : Text) (info : NetworkInfo) → Keeps (start_network_dns network info)
unfolding start_network_dns serve
Keeps-start_network_dns network info =
    search (keeps_rules, Keeps-runs_by_file, Keeps-start_after, Keeps-output) depth 10

Keeps-reload_or_start :
    (network : Text) (info : NetworkInfo) (there : Bool)
    → Keeps (reload_or_start network info there)
unfolding reload_or_start
Keeps-reload_or_start network info true = search (keeps_rules, Keeps-signal_pid)
Keeps-reload_or_start network info false = Keeps-start_network_dns network info

Keeps-update_network_dns :
    (network : Text) (info : NetworkInfo) → Keeps (update_network_dns network info)
unfolding update_network_dns
Keeps-update_network_dns network info = search (keeps_rules, Keeps-reload_or_start) depth 8

Keeps-stop_network_dns : (network : Text) → Keeps (stop_network_dns network)
unfolding stop_network_dns
Keeps-stop_network_dns network = search (keeps_rules, Keeps-signal_pid) depth 8

Keeps-parse_info : (json : Json) (text : Option Text) → Keeps (parse_info json text)
unfolding parse_info
Keeps-parse_info json none = search keeps_rules
Keeps-parse_info json (some text) = go (json.parse text)
  where
    go :
        (o : Option NetworkInfo)
        → Keeps (elim o as (λ _. Action NetworkInfo) [ none ↦ throw io_error | some i ↦ pure i ])
    go none = search keeps_rules
    go (some i) = search keeps_rules

Keeps-load_network : (json : Json) (network : Text) → Keeps (load_network json network)
unfolding load_network
Keeps-load_network json network = search (keeps_rules, Keeps-parse_info json) depth 6

pub Keeps-unregister :
    (json : Json) (network container : Text)
    → Keeps (unregister_container_from_network json network container)
unfolding unregister_container_from_network save_network
Keeps-unregister json network container =
    search (keeps_rules, Keeps-load_network, Keeps-update_network_dns, Keeps-stop_network_dns) depth
      8

-- What has happened after the rest of a chain has happened after the chain.
after_ok :
    {A B : Type 0} (p : Call → Bool) (m : Action A) (f : A → Action B) (k : Kernel) (h : History)
    (a : A)
    → (m k h).0 ≡ ok a
    → occurs p (f a k (m k h).1).1 ≡ true
    → occurs p ((m >>= f) k h).1 ≡ true
after_ok p m f k h a e x = subst (λ r. occurs p (and_then r f k (m k h).1).1 ≡ true) (sym e) x

-- What is written of the metadata of a network.
abbrev pub Saves : Json → NetworkInfo → Containers → History → Type 0
Saves json info m h =
    occurs (is_write (meta_path info.name) (json.print (with_containers info m))) h ≡ true

module _ (json : Json) (network container : Text) (k : Kernel) (h : History)
    (info : NetworkInfo) where
  -- Whatever the kernel answers: where the metadata of the network can be loaded, registering a
  -- container writes the metadata with the container at its address and all others where they were.
  pub register_container_in_network_lem :
      (ip : Text)
      → (load_network json network k h).0 ≡ ok info
      → Saves json info
          (insert container ip info.containers)
          (register_container_in_network json network container ip k h).1
        × (get (insert container ip info.containers) container ≡ some ip)
        × ((other : Text)
            → container ≢ other
            → get (insert container ip info.containers) other ≡ get info.containers other)
  unfolding register_container_in_network save_network
  register_container_in_network_lem ip e = (
    after_ok _ (load_network json network) _ k h info e (
        first_occurs _ io_error
          (write_file (meta_path info.name)
            (json.print (with_containers info (insert container ip info.containers))))
          _ k _
          (is_write_refl (meta_path info.name)
            (json.print (with_containers info (insert container ip info.containers))))
          (λ _.
            Keeps-update_network_dns network
              (with_containers info (insert container ip info.containers)))),
    (get-insert info.containers container ip container).0,
    λ other. (get-insert info.containers container ip other).1,
  )

  -- Whatever the kernel answers: where the metadata of the network can be loaded, unregistering a
  -- container writes the metadata without the container and with all others where they were.
  unregister_container_from_network_lem :
      (load_network json network k h).0 ≡ ok info
      → Saves json info
          (remove container info.containers)
          (unregister_container_from_network json network container k h).1
        × (get (remove container info.containers) container ≡ none)
        × ((other : Text)
            → container ≢ other
            → get (remove container info.containers) other ≡ get info.containers other)
  unfolding unregister_container_from_network save_network
  unregister_container_from_network_lem e = (
    after_ok _ (load_network json network) _ k h info e (
        first_occurs _ io_error
          (write_file (meta_path info.name)
            (json.print (with_containers info (remove container info.containers))))
          _ k _
          (is_write_refl (meta_path info.name)
            (json.print (with_containers info (remove container info.containers))))
          (λ _. search (keeps_rules, Keeps-update_network_dns, Keeps-stop_network_dns))),
    get-remove_same info.containers container,
    λ other ne. get-remove_other info.containers container other ne,
  )
