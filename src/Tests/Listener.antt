-- ===== src/Tests/Listener.antt =====
-- The theorems on the accept loop and `Close` of network/tcp_net/server.go at concrete servers.
use yaice.Base.{ℕ, ◌≡◌, refl, Bool, true, false, List, [], ◌∷◌, none, arith}
use yaice.Base.Int.{pos, int32, int64, ◌+ℤ◌, ℤ_discrete}
use yaice.Base.Assoc.{insert, delete}
use yaice.Tcp.Server.{
  accept_conn, add_conn, check_conns, expired_guids, is_expired_conn, close_guids, remove_conn,
  get_conn,
}
use yaice.Tcp.Conn.{Conn, new_conn}
use yaice.Tcp.Listener.{
  Acceptor, accepted, accept_failed, handled, close_server, ServerEvent, at_listener, token_added,
  checked, Tally, server_turns, server_turn, accept_turn, pull,
}
use yaice.Tcp.Listener.Limit.{IsTallied, server_turns-IsTallied}
use yaice.Tcp.Listener.Closing.{IsShut, handled_all, close_server-returns}
use yaice.Utils.Tool.{returns}

abbrev first_conn : Conn ℕ
first_conn = new_conn (pos 3) (pos 100)

abbrev allow_all : Conn ℕ → Bool
allow_all conn = true

-- A server for two connections, on which nobody has called yet.
abbrev listening : Acceptor ℕ
listening = record {
  server = record {
    conn_count = pos 0;
    max_conn_count = pos 2;
    active_conns = [];
    is_running = true;
  };
  listener_open = true;
  loop_ended = false;
  handling = [];
}

-- A server with two connections, of which one has a goroutine; the other came by the check of a token.
abbrev serving : Acceptor ℕ
serving = record listening {
  server = record listening.server {
    conn_count = pos 2;
    active_conns = (pos 3, first_conn) ∷ (pos 9, new_conn (pos 4) (pos 100)) ∷ [];
  };
  handling = pos 3 ∷ [];
}

-- Two connections fill the server and one is refused; a token check adds a third, which a check of the
-- connections removes with another one, whose goroutine ends after that.
abbrev many_events : List (ServerEvent ℕ)
many_events =
    at_listener (accepted first_conn)
    ∷ at_listener (accepted (new_conn (pos 4) (pos 101)))
    ∷ at_listener (accepted (new_conn (pos 5) (pos 102)))
    ∷ token_added (new_conn (pos 6) (pos 100))
    ∷ checked (pos 111) (pos 10)
    ∷ at_listener (handled 1)
    ∷ at_listener (accept_failed false)
    ∷ []

abbrev at_first : Tally ℕ
at_first = record { acceptor = listening; token_adds = 0; check_removals = 0 }

abbrev at_last : Tally ℕ
at_last = server_turns allow_all many_events at_first

listening-IsTallied : IsTallied 2 at_first
listening-IsTallied = record { balance = refl; limit = refl; over = ground arith }

at_last-counts : (at_last.token_adds ≡ 1) × (at_last.check_removals ≡ 2)
unfolding server_turns server_turn accept_turn accept_conn add_conn check_conns expired_guids
    is_expired_conn close_guids remove_conn get_conn new_conn pull insert delete int32 int64 ◌+ℤ◌
    ℤ_discrete
at_last-counts = (refl, refl)

server_turns-IsTallied_example : IsTallied 2 at_last
server_turns-IsTallied_example =
    server_turns-IsTallied 2 allow_all many_events at_first (omega (arith, at_last-counts.0))
      (omega (arith, at_last-counts.1)) listening-IsTallied

close_server-returns_example :
    (t : Acceptor ℕ) × (close_server allow_all
        (accept_failed true ∷ handled_all (pos 3 ∷ []))
        false
        serving
      ≡ returns (t, none))
    × IsShut t
    × (t.handling ≡ [])
unfolding new_conn
close_server-returns_example = close_server-returns allow_all serving true refl (refl, (refl, tt))
