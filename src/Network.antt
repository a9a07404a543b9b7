-- ===== src/Network.antt =====
-- network/manager.go: the manager of the servers of a process. The servers are behind the interfaces
-- of core/server.go and core/client.go: `S` and `C` are their types, and `Services` has what the
-- manager calls. A log has the servers and clients that were closed, in order.
pub mod Servers
pub mod Starting
pub mod Lifecycle
pub mod Report
use mathlib.Core.List.{lookup}
use yaice.Base.{
  ℕ, zero, suc, ◌≡◌, refl, Bool, true, false, List, [], ◌∷◌, ◌++◌, map, Option, none, some, arith,
  not,
}
use yaice.Base.Tests.{if◌then◌else◌}
use yaice.Base.Int.{ℤ, pos, negsuc, ◌+ℤ◌, leb_ℤ}
use yaice.Base.Assoc.{insert, delete}
use yaice.Config.{TcpConfig, HttpConfig, NetworkConfig}
use yaice.Utils.Tool.{Text, text_discrete}

-- What `Listen` makes of the ports: a server with the port it has, which is not positive where it has none.
-- `NewHTTPServer` may fail. A server may lack the two methods that are looked up on it.
pub record Services (S : Type 0) : Type 0 where
  pub open_tcp : TcpConfig → S × ℤ
  pub open_http : HttpConfig → Option (S × ℤ)
  pub active_connections : S → Option ℤ
  -- Whether `Health` returns no error.
  pub health : S → Option Bool

-- "tcp_net" and "http_net".
abbrev pub tcp_network : Text
tcp_network = 116 ∷ 99 ∷ 112 ∷ 95 ∷ 110 ∷ 101 ∷ 116 ∷ []

abbrev pub http_network : Text
http_network = 104 ∷ 116 ∷ 116 ∷ 112 ∷ 95 ∷ 110 ∷ 101 ∷ 116 ∷ []

pub data StartError : Type 0 where
  tcp_error http_error : StartError

pub record Manager (S C : Type 0) : Type 0 where
  pub cancelled : Bool
  pub config : NetworkConfig
  pub servers : List (Text × S)
  pub clients : List (Text × C)
  pub is_ready : Bool
  pub has_packet : Bool

-- What `Start` leaves: the manager, the servers that were closed and the error, if there is one.
pub record Started (S C : Type 0) : Type 0 where
  pub manager : Manager S C
  pub closed : List S
  pub error : Option StartError

-- What `GetServerStatus` says of a server: -1 where it does not count its connections.
pub record ServerInfo : Type 0 where
  pub active_connections : ℤ
  pub health : Bool

unfoldable pub tcp_enabled : Option TcpConfig → Bool
tcp_enabled none = false
tcp_enabled (some t) = t.enabled

unfoldable pub http_enabled : Option HttpConfig → Bool
http_enabled none = false
http_enabled (some h) = h.enabled

module _ {S : Type 0} (services : Services S) where
  unfoldable pub total_connections : List (Text × S) → ℤ
  total_connections [] = pos 0
  total_connections (e ∷ servers) = elim (services.active_connections e.1) [
    | none ↦ total_connections servers
    | some n ↦ n +ℤ total_connections servers
  ]

  unfoldable pub server_info : S → ServerInfo
  server_info server = record {
    active_connections = elim (services.active_connections server) [ none ↦ negsuc 0 | some n ↦ n ];
    health = elim (services.health server) [ none ↦ false | some ok ↦ ok ];
  }

  -- The name of the first server whose `Health` fails.
  unfoldable pub first_unhealthy : List (Text × S) → Option Text
  first_unhealthy [] = none
  first_unhealthy (e ∷ servers) = elim (services.health e.1) [
    | none ↦ first_unhealthy servers
    | some true ↦ first_unhealthy servers
    | some false ↦ some e.0
  ]

module _ {S C : Type 0} where
  unfoldable pub new_manager : NetworkConfig → Bool → Manager S C
  new_manager config has_packet = record {
    cancelled = false;
    config = config;
    servers = [];
    clients = [];
    is_ready = false;
    has_packet = has_packet;
  }

  -- `rollbackServers`, with the servers it closes.
  unfoldable pub rollback_servers : List Text → Manager S C → Manager S C × List S
  rollback_servers [] m = (m, [])
  rollback_servers (name ∷ names) m =
      let rest =
        rollback_servers names (record m { servers = delete text_discrete name m.servers }) in
      elim (lookup text_discrete name m.servers) [
        | none ↦ rollback_servers names m
        | some server ↦ (rest.0, server ∷ rest.1)
      ]

  -- `Stop`, with the servers and the clients it closes.
  unfoldable pub stop : Manager S C → Manager S C × (List S × List C)
  stop m =
      if m.is_ready
      then (
        record m { cancelled = true; servers = []; clients = []; is_ready = false },
        (map (λ e. e.1) m.servers, map (λ e. e.1) m.clients),
      )
      else (m, ([], []))

  unfoldable pub get_server : Text → Manager S C → Option S
  get_server server_type m = lookup text_discrete server_type m.servers

  unfoldable pub is_server_enabled : Text → Manager S C → Bool
  unfolding tcp_enabled http_enabled
  is_server_enabled server_type m = elim (text_discrete server_type tcp_network) [
    | yes _ ↦ tcp_enabled m.config.tcp
    | no _ ↦ elim (text_discrete server_type http_network) [
      | yes _ ↦ http_enabled m.config.http
      | no _ ↦ false
    ]
  ]

module _ {S C : Type 0} (services : Services S) where
  -- `startTCPServerLocked` with its configuration, which is not nil.
  unfoldable pub start_tcp_server_locked : TcpConfig → Manager S C → Manager S C × Bool
  start_tcp_server_locked t m =
      let opened = services.open_tcp t in
      let packed = record m { has_packet = true } in
      if leb_ℤ opened.1 (pos 0) then (packed, false) else (
        record packed {
          servers = insert text_discrete tcp_network opened.0 m.servers;
          config = record m.config { tcp = some (record t { port = opened.1 }) };
        },
        true,
      )

  unfoldable pub start_http_server_locked : HttpConfig → Manager S C → Manager S C × Bool
  start_http_server_locked h m = elim (services.open_http h) [
    | none ↦ (m, false)
    | some opened ↦ if leb_ℤ opened.1 (pos 0) then (m, false) else (
      record m {
        servers = insert text_discrete http_network opened.0 m.servers;
        config = record m.config { http = some (record h { port = opened.1 }) };
      },
      true,
    )
  ]

  -- The part of `Start` for the TCP server, with the names it has started.
  unfoldable pub start_tcp : Option TcpConfig → Manager S C → Manager S C × (List Text × Bool)
  unfolding start_tcp_server_locked
  start_tcp none m = (m, ([], true))
  start_tcp (some t) m =
      if t.enabled
      then (let started = start_tcp_server_locked t m in
          if started.1 then (started.0, (tcp_network ∷ [], true)) else (started.0, ([], false)))
      else (m, ([], true))

  unfoldable pub start_http : Option HttpConfig → Manager S C → Manager S C × Bool
  unfolding start_http_server_locked
  start_http none m = (m, true)
  start_http (some h) m = if h.enabled then start_http_server_locked h m else (m, true)

  unfoldable pub start : Manager S C → Started S C
  unfolding start_tcp start_http rollback_servers
  start m =
      let tcp = start_tcp m.config.tcp m in
      let http = start_http tcp.0.config.http tcp.0 in
      let tcp_back = rollback_servers tcp.1.0 tcp.0 in
      let http_back = rollback_servers tcp.1.0 http.0 in
      if m.is_ready
      then record { manager = m; closed = []; error = none }
      else if not tcp.1.1
      then record { manager = tcp_back.0; closed = tcp_back.1; error = some tcp_error }
      else if not http.1
      then record { manager = http_back.0; closed = http_back.1; error = some http_error }
      else record { manager = record http.0 { is_ready = true }; closed = []; error = none }

  unfoldable pub get_active_connections : Manager S C → ℤ
  unfolding total_connections
  get_active_connections m = total_connections services m.servers

  unfoldable pub get_server_status : Manager S C → List (Text × ServerInfo)
  unfolding server_info
  get_server_status m = map (λ e. (e.0, server_info services e.1)) m.servers

  unfoldable pub health : Manager S C → Option Text
  unfolding first_unhealthy
  health m = first_unhealthy services m.servers
