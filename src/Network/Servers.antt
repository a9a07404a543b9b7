-- ===== src/Network/Servers.antt =====
-- network/manager.go over the servers of network/tcp_net and network/http_net, and handleFixedRate of
-- service.go, which has the manager check the connections.
use mathlib.Core.List.{lookup}
use yaice.Base.{◌≡◌, refl, sym, ap₂, ◌∙◌, if_pos, if_neg, List, [], ◌∷◌, map, Option, none, some}
use yaice.Base.Tests.{eq-of_some}
use yaice.Base.Int.{ℤ}
use yaice.Base.Assoc.{keys}
use mathlib.Core.List.{Nodup}
use yaice.Http.{HttpServer}
use yaice.Network.{Manager, get_server, tcp_network}
use yaice.Tcp.Expiry.{unless_expired, get_conn-check_conns}
use yaice.Tcp.Server.{Server, get_conn, check_conns}
use yaice.Utils.Tool.{Text, text_discrete, Run, returns, panics}

-- A server of the map: a TCP server with the time-out of its configuration, or an HTTP server.
pub data NetServer (D H : Type 0) : Type 0 where
  tcp : ℤ → Server D → NetServer D H
  http : HttpServer H → NetServer D H

module _ {D H : Type 0} where
  -- `CheckConns` of a server at a time; an HTTP server has no such method.
  unfoldable pub check_server : ℤ → NetServer D H → NetServer D H
  check_server now (tcp timeout s) = tcp timeout (check_conns now timeout s).0
  check_server now (http s) = http s

  -- The changes of the servers of a map, each by its name.
  lookup-map :
      (name : Text) (f : Text → NetServer D H → NetServer D H)
      (servers : List (Text × NetServer D H)) (found : NetServer D H)
      → lookup text_discrete name servers ≡ some found
      → lookup text_discrete name (map (λ e. (e.0, f e.0 e.1)) servers) ≡ some (f name found)
  unfolding lookup
  lookup-map name f [] found there = cc
  lookup-map name f (e ∷ servers) found there = elim (text_discrete name e.0) [
    | yes same ↦ rw (if_pos (text_discrete name e.0) same) (
        ap₂ (λ (n : Text) (s : NetServer D H). some (f n s)) (sym same)
          (eq-of_some (sym (if_pos (text_discrete name e.0) same _ _) ∙ there)))
    | no apart ↦
        rw (if_neg (text_discrete name e.0) apart) (
          lookup-map name f servers found (sym (if_neg (text_discrete name e.0) apart _ _) ∙ there))
  ]

module _ {D H C : Type 0} (clock : Text → ℤ) where
  -- The clock is read for each server.
  unfoldable pub check_server_connections : Manager (NetServer D H) C → Manager (NetServer D H) C
  unfolding check_server
  check_server_connections m = record m {
    servers = map (λ e. (e.0, check_server (clock e.0) e.1)) m.servers;
  }

  -- `handleFixedRate`, which dereferences the manager.
  unfoldable pub handle_fixed_rate :
      Option (Manager (NetServer D H) C) → Run (Option (Manager (NetServer D H) C))
  unfolding check_server_connections
  handle_fixed_rate none = panics
  handle_fixed_rate (some m) = returns (some (check_server_connections m))

  get_server-check_server_connections :
      (name : Text) (m : Manager (NetServer D H) C) (found : NetServer D H)
      → get_server name m ≡ some found
      → get_server name (check_server_connections m) ≡ some (check_server (clock name) found)
  unfolding get_server check_server_connections
  get_server-check_server_connections name m found there =
      lookup-map name (λ n s. check_server (clock n) s) m.servers found there

  -- Of a manager with a TCP server whose connections are each registered once, a tick of the frame timer
  -- takes those connections out of the registry that were last active more than the server's time-out
  -- ago, and no other, and leaves each HTTP server as it is.
  pub handle_fixed_rate-get_conn :
      (timeout : ℤ) (s : Server D) (m : Manager (NetServer D H) C)
      → get_server tcp_network m ≡ some (tcp timeout s)
      → Nodup (keys s.active_conns)
      → (m' : Manager (NetServer D H) C) × (s' : Server D) × (handle_fixed_rate (some m)
          ≡ returns (some m'))
        × (get_server tcp_network m' ≡ some (tcp timeout s'))
        × ((guid : ℤ)
            → get_conn guid s' ≡ unless_expired (clock tcp_network) timeout (get_conn guid s))
        × ((name : Text) (h : HttpServer H)
            → get_server name m ≡ some (http h)
            → get_server name m' ≡ some (http h))
  unfolding handle_fixed_rate
  handle_fixed_rate-get_conn timeout s m there once = (
    check_server_connections m,
    (check_conns (clock tcp_network) timeout s).0,
    refl,
    get_server-check_server_connections tcp_network m (tcp timeout s) there,
    λ guid. get_conn-check_conns (clock tcp_network) timeout guid s once,
    λ name h e. get_server-check_server_connections name m (http h) e,
  )
