-- ===== src/Network/Report.antt =====
-- network/manager.go: what the manager tells of its servers.
use mathlib.Core.List.{lookup}
use yaice.Base.{◌≡◌, ◌↔◌, ◌≢◌, refl, false, List, [], ◌∷◌, map, Option, none, some, arith}
use yaice.Base.Lists.{All}
use yaice.Network.{
  Services, Manager, server_info, get_server_status, get_server, first_unhealthy, health,
}
use yaice.Utils.Tool.{Text, text_discrete}

abbrev pub map_option : {A B : Type 0} → (A → B) → Option A → Option B
map_option f none = none
map_option f (some a) = some (f a)

module _ {S : Type 0} (services : Services S) where
  lookup-status :
      (name : Text) (servers : List (Text × S))
      → lookup text_discrete name (map (λ e. (e.0, server_info services e.1)) servers)
        ≡ map_option (server_info services) (lookup text_discrete name servers)
  unfolding lookup
  lookup-status name [] = refl
  lookup-status name (e ∷ servers) = ground (arith, lookup-status name servers)

  healthy_iff :
      (servers : List (Text × S))
      → (first_unhealthy services servers ≡ none)
        ↔ All (λ e. services.health e.1 ≢ some false) servers
  unfolding first_unhealthy
  healthy_iff [] = ground arith
  healthy_iff (e ∷ servers) = ground (arith, healthy_iff servers)

module _ {S C : Type 0} (services : Services S) where
  -- The status has an entry for exactly the servers of the manager, and in it -1 for a server that does not
  -- count its connections and false for one without a health check.
  pub get_server_status-get_server :
      (name : Text) (m : Manager S C)
      → lookup text_discrete name (get_server_status services m)
        ≡ map_option (server_info services) (get_server name m)
  unfolding get_server_status get_server
  get_server_status-get_server name m = lookup-status services name m.servers

  -- The manager is healthy exactly where no server has a health check that fails.
  pub health_iff :
      (m : Manager S C)
      → (health services m ≡ none) ↔ All (λ e. services.health e.1 ≢ some false) m.servers
  unfolding health
  health_iff m = healthy_iff services m.servers
