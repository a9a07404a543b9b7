-- ===== src/Tcp/Listener.antt =====
-- network/tcp_net/server.go: the accept loop with the goroutines of its connections, and `Close`.
-- What the socket and the scheduler do is a list of events; an event that cannot happen changes nothing.
pub mod Limit
pub mod Closing
use yaice.Base.{ℕ, zero, suc, ◌+◌, Bool, true, false, not, ◌&&◌, List, [], ◌∷◌, Option, none, some}
use yaice.Base.Tests.{if◌then◌else◌}
use yaice.Base.Lists.{length}
use yaice.Base.Int.{ℤ}
use yaice.Tcp.Conn.{Conn, close}
use yaice.Tcp.Server.{Server, accept_conn, add_conn, remove_conn, expired_guids, check_conns}
use yaice.Utils.Tool.{Run, returns, panics, blocks, after_return}

-- The part of a server for the accept loop: `handling` has the session ids of the connections whose goroutines have not ended.
pub record Acceptor (D : Type 0) : Type 0 where
  pub server : Server D
  pub listener_open : Bool
  pub loop_ended : Bool
  pub handling : List ℤ

-- What `AcceptTCP` gives, a connection or an error, which is or is not `net.ErrClosed`, and the end of
-- one of the goroutines.
pub data AcceptEvent (D : Type 0) : Type 0 where
  accepted : Conn D → AcceptEvent D
  accept_failed : Bool → AcceptEvent D
  handled : ℕ → AcceptEvent D

pub data ServerEvent (D : Type 0) : Type 0 where
  at_listener : AcceptEvent D → ServerEvent D
  token_added : Conn D → ServerEvent D
  checked : ℤ → ℤ → ServerEvent D

-- A server with the numbers of connections that token checks have added and `CheckConns` has removed.
pub record Tally (D : Type 0) : Type 0 where
  pub acceptor : Acceptor D
  pub token_adds : ℕ
  pub check_removals : ℕ

pub data CloseError : Type 0 where
  not_running close_timeout : CloseError

-- One of the running goroutines, and the others.
unfoldable pub pull : ℕ → List ℤ → Option (ℤ × List ℤ)
pull k [] = none
pull zero (guid ∷ rest) = some (guid, rest)
pull (suc k) (guid ∷ rest) = elim (pull k rest) [
  | none ↦ none
  | some (found, others) ↦ some (found, guid ∷ others)
]

abbrev all_ended : List ℤ → Bool
all_ended [] = true
all_ended (_ ∷ _) = false

module _ {D : Type 0} where
  -- A connection after the tests of the limit and of the application.
  abbrev pub register_conn : Conn D → Server D × Bool → Acceptor D → Acceptor D
  register_conn conn (s, false) a = record a { server = s }
  register_conn conn (s, true) a = record a { server = s; handling = conn.session_id ∷ a.handling }

  -- The deferred call of a goroutine.
  abbrev pub end_handling : Option (ℤ × List ℤ) → Acceptor D → Acceptor D
  end_handling none a = a
  end_handling (some (guid, rest)) a = record a {
    server = remove_conn guid a.server;
    handling = rest;
  }

  -- A turn of `acceptLoop`, or the end of a goroutine that it has started.
  unfoldable pub accept_turn : (Conn D → Bool) → AcceptEvent D → Acceptor D → Acceptor D
  unfolding accept_conn pull
  accept_turn allowed (accepted conn) a =
      if a.listener_open && not a.loop_ended
      then register_conn conn (accept_conn allowed conn a.server) a
      else a
  accept_turn allowed (accept_failed is_closed) a =
      if a.server.is_running && not is_closed then a else record a { loop_ended = true }
  accept_turn allowed (handled k) a = end_handling (pull k a.handling) a

  -- The loop and its goroutines by themselves, while nothing else changes the registry.
  unfoldable pub accept_loop : (Conn D → Bool) → List (AcceptEvent D) → Acceptor D → Acceptor D
  unfolding accept_turn
  accept_loop allowed [] a = a
  accept_loop allowed (e ∷ events) a = accept_loop allowed events (accept_turn allowed e a)

  -- A server among all that changes its count: the accept loop with its goroutines, `AddConn` by the
  -- check of a token, and `CheckConns`.
  unfoldable pub server_turn : (Conn D → Bool) → ServerEvent D → Tally D → Tally D
  unfolding accept_turn add_conn check_conns
  server_turn allowed (at_listener e) t = record t { acceptor = accept_turn allowed e t.acceptor }
  server_turn allowed (token_added conn) t = record t {
    acceptor = record t.acceptor { server = add_conn conn t.acceptor.server };
    token_adds = suc t.token_adds;
  }
  server_turn allowed (checked now timeout) t =
      let s = t.acceptor.server in
      record t {
        acceptor = record t.acceptor { server = (check_conns now timeout s).0 };
        check_removals = t.check_removals + length (expired_guids now timeout s.active_conns);
      }

  unfoldable pub server_turns : (Conn D → Bool) → List (ServerEvent D) → Tally D → Tally D
  unfolding server_turn
  server_turns allowed [] t = t
  server_turns allowed (e ∷ events) t = server_turns allowed events (server_turn allowed e t)

  -- The loop that closes the connections of the copy, which are those of the registry.
  unfoldable pub close_conns : List (ℤ × Conn D) → Run (List (ℤ × Conn D))
  unfolding close
  close_conns [] = returns []
  close_conns ((guid, conn) ∷ conns) =
      let later = close_conns conns in
      after_return (λ c. after_return (λ cs. returns ((guid, c) ∷ cs)) later) (close conn)

  -- The wait for the goroutines or for the context; with neither it is for ever.
  unfoldable pub wait : Bool → Acceptor D → Run (Acceptor D × Option CloseError)
  wait timed_out a =
      if timed_out
      then returns (a, some close_timeout)
      else if a.loop_ended && all_ended a.handling
      then returns (a, none)
      else blocks

  -- `Close`, with what happens while it waits and whether its context is done then.
  unfoldable pub close_server :
      (Conn D → Bool)
      → List (AcceptEvent D)
      → Bool
      → Acceptor D
      → Run (Acceptor D × Option CloseError)
  unfolding close_conns accept_loop wait
  close_server allowed meanwhile timed_out a =
      if a.server.is_running
      then after_return
          (λ conns. wait timed_out (
            accept_loop allowed meanwhile (record a {
              server = record a.server { is_running = false; active_conns = conns };
              listener_open = false;
            })))
          (close_conns a.server.active_conns)
      else returns (a, some not_running)
