-- ===== src/Tests/Servers.antt =====
-- The theorem on a tick of the frame timer over the servers, at a concrete manager.
use mathlib.Core.List.{lookup, Nodup, Nodup-nil, Nodup-cons, not-mem-nil, mem_of_ne_of_mem}
use yaice.Base.{ℕ, ◌≡◌, refl, true, false, [], ◌∷◌, none, some, arith, ap, ℕ_discrete}
use yaice.Base.Int.{ℤ, pos, negsuc}
use yaice.Base.Assoc.{keys}
use yaice.Config.{NetworkConfig}
use yaice.Http.{HttpServer}
use yaice.Network.{Manager, get_server, tcp_network}
use yaice.Network.Servers.{NetServer, tcp, http, handle_fixed_rate, handle_fixed_rate-get_conn}
use yaice.Tcp.Conn.{new_conn}
use yaice.Tcp.Expiry.{unless_expired}
use yaice.Tcp.Server.{Server, get_conn}
use yaice.Utils.Tool.{Text, text_discrete, returns}

-- Two connections, of which the first was active at the time 100 and the second at the time 190.
abbrev two_conns : Server ℕ
two_conns = record {
  conn_count = pos 2;
  max_conn_count = pos 10000;
  active_conns = (pos 3, new_conn (pos 3) (pos 100)) ∷ (pos 4, new_conn (pos 4) (pos 190)) ∷ [];
  is_running = true;
}

abbrev bare_network : NetworkConfig
bare_network = record { token_sign_str = []; tcp = none; http = none }

abbrev tcp_manager : Manager (NetServer ℕ ℕ) ℕ
tcp_manager = record {
  cancelled = false;
  config = bare_network;
  servers = (tcp_network, tcp (pos 60) two_conns) ∷ [];
  clients = [];
  is_ready = true;
  has_packet = false;
}

abbrev magnitude : ℤ → ℕ
magnitude (pos n) = n
magnitude (negsuc n) = n

abbrev late : Text → ℤ
late name = pos 200

once : Nodup (keys two_conns.active_conns)
once = Nodup-cons.1 (
  λ at. not-mem-nil (mem_of_ne_of_mem (λ e. absurd (omega (arith, ap magnitude e))) at),
  Nodup-cons.1 (λ at. not-mem-nil at, Nodup-nil),
)

tcp_server-there : get_server tcp_network tcp_manager ≡ some (tcp (pos 60) two_conns)
unfolding get_server lookup text_discrete ℕ_discrete
tcp_server-there = refl

handle_fixed_rate-get_conn_example :
    (m' : Manager (NetServer ℕ ℕ) ℕ) × (s' : Server ℕ) × (handle_fixed_rate late (some tcp_manager)
      ≡ returns (some m'))
    × (get_server tcp_network m' ≡ some (tcp (pos 60) s'))
    × ((guid : ℤ) → get_conn guid s' ≡ unless_expired (pos 200) (pos 60) (get_conn guid two_conns))
    × ((name : Text) (h : HttpServer ℕ)
        → get_server name tcp_manager ≡ some (http h)
        → get_server name m' ≡ some (http h))
handle_fixed_rate-get_conn_example =
    handle_fixed_rate-get_conn late (pos 60) two_conns tcp_manager tcp_server-there once
