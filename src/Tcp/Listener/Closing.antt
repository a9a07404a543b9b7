-- ===== src/Tcp/Listener/Closing.antt =====
-- network/tcp_net/server.go: what `Close` leaves.
use yaice.Base.{
  zero, ◌≡◌, inl, inr, refl, ap, Bool, true, false, List, [], ◌∷◌, Option, none, some, not, ◌&&◌,
  if_pos, if_neg, arith,
}
use yaice.Base.Tests.{Bool-cases}
use yaice.Base.Lists.{All}
use yaice.Base.Assoc.{delete}
use yaice.Base.Int.{ℤ, ℤ_discrete}
use yaice.Tcp.Conn.{Conn, close, lock, unlock}
use yaice.Tcp.Server.{remove_conn}
use yaice.Tcp.Listener.{
  Acceptor, AcceptEvent, accepted, accept_failed, handled, close_timeout, pull, end_handling,
  accept_turn, accept_loop, close_conns, wait, close_server,
}
use yaice.Utils.Tool.{returns}

module _ {D : Type 0} where
  abbrev pub IsFree : ℤ × Conn D → Type 0
  IsFree e = e.1.mu_held ≡ false

  abbrev pub IsClosed : ℤ × Conn D → Type 0
  IsClosed e = e.1.is_closed ≡ true

  -- Nothing is accepted any more, and each registered connection is closed.
  pub record IsShut (a : Acceptor D) : Type 0 where
    pub stopped : a.server.is_running ≡ false
    pub deaf : a.listener_open ≡ false
    pub closed : All IsClosed a.server.active_conns

  close_once :
      (c : Conn D)
      → c.mu_held ≡ false
      → (c' : Conn D) × (close c ≡ returns c') × (c'.is_closed ≡ true)
  unfolding close lock unlock
  close_once c free = elim (Bool-cases c.is_closed) [
    | inl already ↦ (c, rw already refl, already)
    | inr opened ↦ (
      unlock (record c { is_closed = true; cancelled = true; mu_held = true; has_conn = false }),
      rw (opened, free) refl,
      refl,
    )
  ]

  close_conns-IsClosed :
      (conns : List (ℤ × Conn D))
      → All IsFree conns
      → (done : List (ℤ × Conn D)) × (close_conns conns ≡ returns done) × All IsClosed done
  unfolding close_conns
  close_conns-IsClosed [] free = ([], refl, ground arith)
  close_conns-IsClosed ((guid, conn) ∷ conns) (now, later) =
      let (c, e, ok) = close_once conn now in
      let (cs, es, oks) = close_conns-IsClosed conns later in
      ((guid, c) ∷ cs, rw (e, es) refl, (ok, oks))

  delete-IsClosed :
      (guid : ℤ) (conns : List (ℤ × Conn D))
      → All IsClosed conns
      → All IsClosed (delete ℤ_discrete guid conns)
  unfolding delete
  delete-IsClosed guid [] h = h
  delete-IsClosed guid (e ∷ conns) (h, hs) =
      let rest = delete-IsClosed guid conns hs in
      elim (ℤ_discrete e.0 guid) [
        | yes here ↦ rw (if_pos _ here) rest
        | no there ↦ rw (if_neg _ there) (h, rest)
      ]

  end_handling-IsShut :
      (o : Option (ℤ × List ℤ)) (a : Acceptor D) → IsShut a → IsShut (end_handling o a)
  unfolding remove_conn
  end_handling-IsShut none a h = h
  end_handling-IsShut (some (guid, rest)) a h = record {
    stopped = h.stopped;
    deaf = h.deaf;
    closed = delete-IsClosed guid a.server.active_conns h.closed;
  }

  accept_turn-IsShut :
      (allowed : Conn D → Bool) (e : AcceptEvent D) (a : Acceptor D)
      → IsShut a
      → IsShut (accept_turn allowed e a)
  unfolding accept_turn
  accept_turn-IsShut allowed (accepted conn) a h =
      let refused : (a.listener_open && not a.loop_ended) ≡ false =
        ap (λ b. b && not a.loop_ended) h.deaf in
      rw refused h
  accept_turn-IsShut allowed (accept_failed is_closed) a h =
      let ends : (a.server.is_running && not is_closed) ≡ false =
        ap (λ b. b && not is_closed) h.stopped in
      rw ends (record { stopped = h.stopped; deaf = h.deaf; closed = h.closed })
  accept_turn-IsShut allowed (handled k) a h = end_handling-IsShut (pull k a.handling) a h

  accept_loop-IsShut :
      (allowed : Conn D → Bool) (events : List (AcceptEvent D)) (a : Acceptor D)
      → IsShut a
      → IsShut (accept_loop allowed events a)
  unfolding accept_loop
  accept_loop-IsShut allowed [] a h = h
  accept_loop-IsShut allowed (e ∷ events) a h =
      accept_loop-IsShut allowed events (accept_turn allowed e a) (accept_turn-IsShut allowed e a h)

  -- The failure of the accept that waits, and then the end of each goroutine.
  abbrev pub handled_all : List ℤ → List (AcceptEvent D)
  handled_all [] = []
  handled_all (_ ∷ guids) = handled zero ∷ handled_all guids

  handled_all_lem :
      (allowed : Conn D → Bool) (guids : List ℤ) (a : Acceptor D)
      → a.handling ≡ guids
      → ((accept_loop allowed (handled_all guids) a).handling ≡ [])
        × ((accept_loop allowed (handled_all guids) a).loop_ended ≡ a.loop_ended)
  unfolding accept_loop accept_turn pull
  handled_all_lem allowed [] a e = (e, refl)
  handled_all_lem allowed (guid ∷ guids) a e =
      rw e (handled_all_lem allowed guids (end_handling (some (guid, guids)) a) refl)

  module _ (allowed : Conn D → Bool) (a : Acceptor D) where
    shut_down : (conns : List (ℤ × Conn D)) → Acceptor D
    shut_down conns = record a {
      server = record a.server { is_running = false; active_conns = conns };
      listener_open = false;
    }

    -- `Close` of a running server whose registered connections have free locks leaves it stopped, with its
    -- listener closed and every connection of the registry closed, whatever happens while it waits and
    -- also where its context ends the wait.
    pub close_server-IsShut :
        (meanwhile : List (AcceptEvent D))
        → a.server.is_running ≡ true
        → All IsFree a.server.active_conns
        → (t : Acceptor D) × (close_server allowed meanwhile true a
            ≡ returns (t, some close_timeout))
          × IsShut t
    unfolding close_server wait shut_down
    close_server-IsShut meanwhile running free =
        let (conns, e, ok) = close_conns-IsClosed a.server.active_conns free in
        let t = shut_down conns in
        (
          accept_loop allowed meanwhile t,
          rw (running, e) refl,
          accept_loop-IsShut allowed meanwhile t
              (record { stopped = refl; deaf = refl; closed = ok }),
        )

    -- `Close` of a running server whose registered connections have free locks returns with no error once
    -- the waiting accept has failed, with either kind of error, and each goroutine has ended. Then the
    -- server is stopped, its listener closed, no goroutine left, and each connection that is still in the
    -- registry closed; nothing is said of those that the goroutines took out of it before.
    pub close_server-returns :
        (is_closed : Bool)
        → a.server.is_running ≡ true
        → All IsFree a.server.active_conns
        → (t : Acceptor D) × (close_server allowed
              (accept_failed is_closed ∷ handled_all a.handling)
              false
              a
            ≡ returns (t, none))
          × IsShut t
          × (t.handling ≡ [])
    unfolding close_server wait shut_down accept_loop accept_turn
    close_server-returns is_closed running free =
        let (conns, e, ok) = close_conns-IsClosed a.server.active_conns free in
        let s = record (shut_down conns) { loop_ended = true } in
        let t = accept_loop allowed (handled_all a.handling) s in
        let (none_left, ended) = handled_all_lem allowed a.handling s refl in
        (
          t,
          rw (running, e, ended, none_left) refl,
          accept_loop-IsShut allowed (handled_all a.handling) s
              (record { stopped = refl; deaf = refl; closed = ok }),
          none_left,
        )
