-- ===== src/Forge/Tests.antt =====
-- Small forge files, and the theorems at them.
use virturust.Base.{
  ◌≡◌, refl, false, List, [], ◌∷◌, none, some, ok, err, circular_dependency, unknown_service, arith,
}
use virturust.Text.{Text, codes, text_eq}
use virturust.Forge.{
  Service, Services, get, contains, contains_key, remove, visit_deps, deps_of, finish, topo_sort,
  sort_all, resolve_order,
}
use virturust.Forge.Graph.{Reaches, Depends}
use virturust.Forge.Order.{
  IsStartOrder, resolve_order_sound, resolve_order_fails, resolve_order_total,
}

abbrev service : List Text → Service
service deps = record {
  image = some (codes "alpine");
  build = none;
  command = none;
  entrypoint = none;
  env = [];
  ports = [];
  volumes = [];
  network = none;
  depends_on = deps;
  restart = none;
  container_name = none;
  memory = none;
  cpus = none;
  hostname = none;
  working_dir = none;
  user = none;
  privileged = false;
  read_only = false;
}

abbrev web_and_db : Services
web_and_db =
    (codes "web", service (codes "db" ∷ codes "cache" ∷ []))
    ∷ (codes "db", service [])
    ∷ (codes "cache", service (codes "db" ∷ []))
    ∷ []

abbrev looped : Services
looped = (codes "a", service (codes "a" ∷ [])) ∷ []

program : Unit {0}
unfolding resolve_order sort_all topo_sort finish deps_of visit_deps remove contains contains_key
    get text_eq
program = tt

resolve_order-web_and_db :
    resolve_order web_and_db ≡ ok (codes "db" ∷ codes "cache" ∷ codes "web" ∷ [])
unfolding program
resolve_order-web_and_db = refl

resolve_order-looped : resolve_order looped ≡ err circular_dependency
unfolding program
resolve_order-looped = refl

resolve_order_dangling :
    resolve_order ((codes "a", service (codes "b" ∷ [])) ∷ []) ≡ err unknown_service
unfolding program
resolve_order_dangling = refl

resolve_order_sound_example :
    IsStartOrder web_and_db (codes "db" ∷ codes "cache" ∷ codes "web" ∷ [])
resolve_order_sound_example = resolve_order_sound web_and_db _ resolve_order-web_and_db

resolve_order_fails_example : (x : Text) × Reaches looped x x
resolve_order_fails_example = resolve_order_fails looped circular_dependency resolve_order-looped

abbrev alone : Services
alone = (codes "a", service []) ∷ []

no_deps : (x d : Text) → ¬ Depends alone x d
unfolding deps_of get contains
no_deps x d h = ground arith

no_chain : (x : Text) {y : Text} → ¬ Reaches alone x y
no_chain x (Reaches.direct h) = no_deps x _ h
no_chain x (Reaches.further r h) = no_deps _ _ h

resolve_order_total_example : (order : List Text) × (resolve_order alone ≡ ok order)
resolve_order_total_example =
    resolve_order_total alone (λ x. no_chain x) (λ x d h. absurd (no_deps x d h))
