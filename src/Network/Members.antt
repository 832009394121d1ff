-- ===== src/Network/Members.antt =====
-- The containers of a named network in src/network.rs over many joins and leaves, against a map
-- from names to addresses.
use virturust.Base.{
  ◌≡◌, refl, sym, ap, subst, ◌∙◌, Bool, true, false, List, [], ◌∷◌, Option, none, some, Bool-cases,
  inl, inr, if◌then◌else◌, ok, io_error,
}
use virturust.Text.{Text, text_eq, text_eq_refl, text_eq→eq}
use virturust.Sys.{
  History, Kernel, Action, ◌>>=◌, ignore, pure, throw, attempt, fetch, when, for_each, read_file,
  write_file,
}
use virturust.Sys.Only.{Grows-keeps, only_rules}
use virturust.Sys.Store.{stored, StoresFile, stored-write_file}
use virturust.Network.Named.{
  Containers, NetworkInfo, Json, get, remove, insert, with_containers, meta_path, parse_info,
  load_network, save_network,
}
use virturust.Network.Dns.{update_network_dns, stop_network_dns}
use virturust.Network.Lifecycle.{
  has_none, register_container_in_network, unregister_container_from_network,
}
use virturust.Network.Registry.{get-remove_same, get-remove_other}
use virturust.Network.Spared.{
  stored-step, Spares, Spares-update_network_dns, Spares-stop_network_dns,
}

-- A container joins at an address, or leaves.
pub data Change : Type 0 where
  join_at : Text → Text → Change
  leave : Text → Change

-- The abstract view: the address of each name.
abbrev pub Members : Type 0
Members = Text → Option Text

abbrev pub after : Change → Members → Members
after (join_at name ip) m other = if text_eq name other then some ip else m other
after (leave name) m other = if text_eq name other then none else m other

abbrev pub after_all : List Change → Members → Members
after_all [] m = m
after_all (c ∷ cs) m = after_all cs (after c m)

abbrev changed : Change → Containers → Containers
changed (join_at name ip) m = insert name ip m
changed (leave name) m = remove name m

get-remove :
    (m : Containers) (name other : Text)
    → get (remove name m) other ≡ after (leave name) (get m) other
get-remove m name other = elim (Bool-cases (text_eq name other)) [
  | inl y ↦
      rw y (
        subst (λ x. get (remove name m) x ≡ none) (text_eq→eq name other y)
          (get-remove_same m name))
  | inr n ↦ rw n (get-remove_other m name other (λ e. differs e n))
]
  where
    differs : name ≡ other → text_eq name other ≡ false → ⊥
    differs e n = cc (text_eq_refl name)

get-changed : (c : Change) (m : Containers) → get (changed c m) ≡ after c (get m)
unfolding insert get
get-changed (join_at name ip) m i other = go (text_eq name other) refl i
  where
    go :
        (b : Bool)
        → text_eq name other ≡ b
        → (if b then some ip else get (remove name m) other) ≡ (if b then some ip else get m other)
    go true e = refl
    go false e = get-remove m name other ∙ rw e refl
get-changed (leave name) m i other = get-remove m name other i

-- What is read of printed metadata is the metadata, up to the order of the containers.
abbrev pub ReadsBack : Json → NetworkInfo → Type 0
ReadsBack json info =
    (m : Containers)
    → (m' : Containers) × (json.parse (json.print (with_containers info m))
        ≡ some (with_containers info m'))
      × (get m' ≡ get m)

-- The metadata on disk stands for the members.
abbrev pub Holds : Json → NetworkInfo → Members → History → Type 0
Holds json info members h =
    (m : Containers) × (stored (meta_path info.name) h ≡ some (json.print (with_containers info m)))
    × (get m ≡ members)

module _ (json : Json) where
  -- A container joins at an address or leaves, as the code does it.
  unfoldable pub change : Text → Change → Action (Unit {0})
  change network (join_at name ip) = register_container_in_network json network name ip
  change network (leave name) = unregister_container_from_network json network name

  -- One change after the other, whether those before succeed or fail.
  unfoldable pub change_all : Text → List Change → Action (Unit {0})
  change_all network changes = for_each changes (λ c. ignore (change network c))

  -- What follows the load of the metadata.
  finish : NetworkInfo → Change → Action (Unit {0})
  finish info (join_at name ip) =
      update_network_dns info.name (with_containers info (insert name ip info.containers))
  finish info (leave name) =
      update_network_dns info.name (with_containers info (remove name info.containers)) >>= λ _.
      when (has_none (remove name info.containers)) (stop_network_dns info.name)

  Spares-finish : (info : NetworkInfo) (c : Change) → Spares info.name (finish info c)
  unfolding finish
  Spares-finish info (join_at name ip) = Spares-update_network_dns info.name _
  Spares-finish info (leave name) =
      search (only_rules, Spares-update_network_dns, Spares-stop_network_dns) depth 6

  module _ (info : NetworkInfo) (k : Kernel) (back : ReadsBack json info)
      (s : StoresFile k (meta_path info.name)) where
    loads :
        (m m' : Containers) (h : History)
        → stored (meta_path info.name) h ≡ some (json.print (with_containers info m))
        → json.parse (json.print (with_containers info m)) ≡ some (with_containers info m')
        → load_network json info.name k h
          ≡ (ok (with_containers info m'), read_file (meta_path info.name) ∷ h)
    unfolding load_network parse_info fetch
    loads m m' h e p =
        ap (λ o. parse_info json o k (read_file (meta_path info.name) ∷ h)) (s.reads h ∙ e)
        ∙ ap
            (λ o.
              (elim o as (λ _. Action NetworkInfo) [ none ↦ throw io_error | some i ↦ pure i ]) k
                (read_file (meta_path info.name) ∷ h))
            p

    change_eq :
        (c : Change) (m : Containers) (h h' : History)
        → load_network json info.name k h ≡ (ok (with_containers info m), h')
        → change info.name c k h
          ≡ finish (with_containers info m) c k (
              write_file (meta_path info.name) (json.print (with_containers info (changed c m)))
              ∷ h')
    unfolding change finish register_container_in_network unregister_container_from_network
        save_network attempt
    change_eq (join_at name ip) m h h' e =
        rw (e, s.writes h' (json.print (with_containers info (insert name ip m)))) refl
    change_eq (leave name) m h h' e =
        rw (e, s.writes h' (json.print (with_containers info (remove name m)))) refl

    change-Holds :
        (c : Change) (members : Members) (h : History)
        → Holds json info members h
        → Holds json info (after c members) (change info.name c k h).1
    change-Holds c members h (m, e, g) =
        let (m', p, g') = back m in
        (
          changed c m',
          subst
              (λ r.
                stored (meta_path info.name) r.1
                ≡ some (json.print (with_containers info (changed c m'))))
              (sym (change_eq c m' h _ (loads m m' h e p)))
              (Grows-keeps
                (λ h'.
                  stored (meta_path info.name) h'
                  ≡ some (json.print (with_containers info (changed c m'))))
                (stored-step (meta_path info.name) _)
                ((Spares-finish (with_containers info m') c).at k _)
                (stored-write_file (meta_path info.name) _ _)),
          get-changed c m' ∙ ap (after c) (g' ∙ g),
        )

    change_all-Holds :
        (changes : List Change) (members : Members) (h : History)
        → Holds json info members h
        → Holds json info (after_all changes members) (change_all info.name changes k h).1
    unfolding change_all for_each
    change_all-Holds [] members h holds = holds
    change_all-Holds (c ∷ cs) members h holds =
        change_all-Holds cs (after c members) (change info.name c k h).1
          (change-Holds c members h holds)

-- Where the file system keeps the metadata and what is read of printed metadata is the metadata, up
-- to the order of the containers: after any sequence of joins and leaves, each of which may fail at
-- the name server, the metadata can be loaded, is that of the network, and gives each name the
-- address that it has in the map to which the same sequence is applied.
pub load_network-change_all :
    (json : Json) (info : NetworkInfo) (k : Kernel)
    → ReadsBack json info
    → StoresFile k (meta_path info.name)
    → (changes : List Change) (members : Members) (h : History) → Holds json info members h
    → (m : Containers) × ((load_network json info.name k
          (change_all json info.name changes k h).1).0
        ≡ ok (with_containers info m))
      × (get m ≡ after_all changes members)
load_network-change_all json info k back s changes members h holds =
    let (m, e, g) = change_all-Holds json info k back s changes members h holds in
    let (m', p, g') = back m in
    (
      m',
      ap (λ r. r.0) (loads json info k back s m m' (change_all json info.name changes k h).1 e p),
      g' ∙ g,
    )
