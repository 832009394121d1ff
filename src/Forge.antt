-- ===== src/Forge.antt =====
-- src/compose.rs: the services of a forge file and the order in which they are started.
pub mod Graph
pub mod Sort
pub mod Order
mod Tests
use virturust.Base.{
  ℕ, zero, suc, ◌+◌, Bool, true, false, not, ◌||◌, List, [], ◌∷◌, ◌++◌, map, length, Option, none,
  some, if◌then◌else◌, Result, ok, err, ◌>>=◌, circular_dependency, unknown_service, out_of_fuel,
  ◌==◌,
}
use virturust.Text.{Text, text_eq}

-- The hash map of the environment is a list of its entries.
pub record Service : Type 0 where
  pub image : Option Text
  pub build : Option Text
  pub command : Option (List Text)
  pub entrypoint : Option Text
  pub env : List (Text × Text)
  pub ports : List Text
  pub volumes : List Text
  pub network : Option Text
  pub depends_on : List Text
  pub restart : Option Text
  pub container_name : Option Text
  pub memory : Option Text
  pub cpus : Option Text
  pub hostname : Option Text
  pub working_dir : Option Text
  pub user : Option Text
  pub privileged : Bool
  pub read_only : Bool

-- The hash map of the services, as its entries in the order in which it is iterated.
abbrev pub Services : Type 0
Services = List (Text × Service)

unfoldable pub get : Services → Text → Option Service
get [] name = none
get ((k, s) ∷ m) name = if text_eq k name then some s else get m name

unfoldable pub contains_key : Services → Text → Bool
contains_key [] name = false
contains_key ((k, s) ∷ m) name = text_eq k name || contains_key m name

-- A hash set of names as a list.
unfoldable pub contains : List Text → Text → Bool
contains [] x = false
contains (y ∷ ys) x = text_eq y x || contains ys x

unfoldable pub remove : Text → List Text → List Text
remove x [] = []
remove x (y ∷ ys) = let rest = remove x ys in if text_eq y x then rest else y ∷ rest

-- What `topo_sort` mutates.
pub record State : Type 0 where
  pub order : List Text
  pub visited : List Text
  pub visiting : List Text

-- The loop over `depends_on`; `call` is the recursive call.
unfoldable pub visit_deps :
    Services → (Text → State → Result State) → List Text → State → Result State
visit_deps services call [] st = ok st
visit_deps services call (dep ∷ deps) st =
    if not (contains_key services dep)
    then err unknown_service
    else (call dep st >>= visit_deps services call deps)

-- `depends_on` of a service that is there.
unfoldable pub deps_of : Services → Text → List Text
deps_of services name = elim (get services name) [ none ↦ [] | some s ↦ s.depends_on ]

-- `visiting.remove(name); visited.insert(name); order.push(name)`
unfoldable pub finish : Text → State → State
finish name st = record {
  order = st.order ++ name ∷ [];
  visited = name ∷ st.visited;
  visiting = remove name st.visiting;
}

-- `topo_sort`, on fuel that bounds how deep the calls go.
unfoldable pub topo_sort : ℕ → Services → Text → State → Result State
topo_sort zero services name st = err out_of_fuel
topo_sort (suc fuel) services name st =
    if contains st.visited name
    then ok st
    else if contains st.visiting name
    then err circular_dependency
    else (visit_deps services (topo_sort fuel services) (deps_of services name)
          (record st { visiting = name ∷ st.visiting })
        >>= λ st'. ok (finish name st'))

-- The loop over `services.keys()`.
unfoldable pub sort_all : ℕ → Services → List Text → State → Result State
sort_all fuel services [] st = ok st
sort_all fuel services (name ∷ names) st =
    topo_sort fuel services name st >>= sort_all fuel services names

abbrev pub keys : Services → List Text
keys [] = []
keys ((k, s) ∷ m) = k ∷ keys m

abbrev pub start : State
start = record { order = []; visited = []; visiting = [] }

-- The calls go no deeper than there are services.
unfoldable pub resolve_order : Services → Result (List Text)
resolve_order services =
    sort_all (length services + 1) services (keys services) start >>= λ st. ok st.order
