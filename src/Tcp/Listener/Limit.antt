-- ===== src/Tcp/Listener/Limit.antt =====
-- network/tcp_net/server.go: the count of connections and its limit in the accept loop.
use mathlib.Core.Path.{subst}
use yaice.Base.{
  ℕ, zero, suc, ◌+◌, ◌≤◌, ◌<◌, ◌^◌, ◌≡◌, inl, inr, refl, Bool, false, List, [], ◌∷◌, Option, none,
  some, not, ◌&&◌, arith,
}
use yaice.Base.Tests.{Option-cases, Bool-cases}
use yaice.Base.Lists.{length}
use yaice.Base.Int.{ℤ, pos, pos_part, neg_part, ◌≤ℤ◌, ◌+ℤ◌, ◌-ℤ◌, leb_ℤ, int32, int32_of_IsInt32}
use yaice.Tcp.Conn.{Conn}
use yaice.Tcp.Server.{
  Server, accept_conn, add_conn, remove_conn, expired_guids, close_guids, check_conns,
}
use yaice.Tcp.Listener.{
  accepted, accept_failed, handled, pull, register_conn, end_handling, accept_turn, ServerEvent,
  at_listener, token_added, checked, Tally, server_turn, server_turns,
}

length-pull :
    (k : ℕ) (guids : List ℤ) (guid : ℤ) (rest : List ℤ)
    → pull k guids ≡ some (guid, rest)
    → length guids ≡ suc (length rest)
unfolding pull
length-pull k [] guid rest e = cc
length-pull zero (g ∷ guids) guid rest e = ground arith
length-pull (suc k) (g ∷ guids) guid rest e = elim (Option-cases (pull k guids)) [
  | inl e1 ↦ absurd (ground arith)
  | inr ((found, others), e1) ↦ let ih = length-pull k guids found others e1 in ground arith
]

-- A count of `n` connections and `r` removals of others, where it cannot wrap around.
abbrev IsBalanced : ℤ → ℕ → ℕ → Type 0
IsBalanced c n r = pos_part c + r ≡ neg_part c + n

IsBalanced-suc :
    (c : ℤ) (n r b : ℕ)
    → IsBalanced c n r
    → c +ℤ pos 1 ≤ℤ pos b
    → b < 2 ^ 31
    → r < 2 ^ 31
    → IsBalanced (int32 (c +ℤ pos 1)) (suc n) r × (int32 (c +ℤ pos 1) ≤ℤ pos b)
unfolding ◌+ℤ◌
IsBalanced-suc c n r b e le small few =
    rw (int32_of_IsInt32 (c +ℤ pos 1) (ground arith)) (ground arith, le)

IsBalanced-pred :
    (c : ℤ) (n r b : ℕ)
    → IsBalanced c n r
    → c ≤ℤ pos b
    → b < 2 ^ 31
    → suc r < 2 ^ 31 + n
    → IsBalanced (int32 (c -ℤ pos 1)) n (suc r) × (int32 (c -ℤ pos 1) ≤ℤ pos b)
unfolding ◌-ℤ◌ ◌+ℤ◌
IsBalanced-pred c n r b e le small few =
    rw (int32_of_IsInt32 (c -ℤ pos 1) (ground arith)) (ground arith, ground arith)

below_limit : (c limit : ℤ) (m : ℕ) → limit ≡ pos m → leb_ℤ limit c ≡ false → c +ℤ pos 1 ≤ℤ pos m
unfolding ◌+ℤ◌
below_limit c limit m e below = ground arith

suc_le : (c : ℤ) (b : ℕ) → c ≤ℤ pos b → c +ℤ pos 1 ≤ℤ pos (suc b)
unfolding ◌+ℤ◌
suc_le c b h = ground arith

le_more : (c : ℤ) (a b : ℕ) → c ≤ℤ pos a → a ≤ b → c ≤ℤ pos b
le_more c a b h le = ground arith

-- The limit is `m`. The count and the connections that `CheckConns` has removed are together the goroutines
-- of the accept loop and the connections of token checks, and the count is above the limit by no more
-- than the latter.
pub record IsCounted {D : Type 0} (m handling added removed : ℕ) (s : Server D) : Type 0 where
  pub balance : pos_part s.conn_count + removed ≡ neg_part s.conn_count + (handling + added)
  pub limit : s.max_conn_count ≡ pos m
  pub over : s.conn_count ≤ℤ pos (m + added)

abbrev pub IsTallied : {D : Type 0} → ℕ → Tally D → Type 0
IsTallied m t =
    IsCounted m (length t.acceptor.handling) t.token_adds t.check_removals t.acceptor.server

module _ {D : Type 0} (m : ℕ) where
  close_guids-IsCounted :
      (guids : List ℤ) (h a r : ℕ) (s : Server D)
      → m + a < 2 ^ 31
      → r + length guids < 2 ^ 31
      → IsCounted m h a r s
      → IsCounted m h a (r + length guids) (close_guids guids s).0
  unfolding close_guids remove_conn
  close_guids-IsCounted [] h a r s small few i = subst (λ k. IsCounted m h a k s) (omega arith) i
  close_guids-IsCounted (guid ∷ guids) h a r s small few i =
      let (e, le) =
        IsBalanced-pred s.conn_count (h + a) r (m + a) i.balance i.over small
          (omega (arith, few)) in
      subst (λ k. IsCounted m h a k (close_guids guids (remove_conn guid s)).0) (omega arith)
        (close_guids-IsCounted guids h a (suc r) (remove_conn guid s) small (omega (arith, few))
          (record { balance = e; limit = i.limit; over = le }))

  module _ (allowed : Conn D → Bool) where
    accepted-IsTallied :
        (conn : Conn D) (t : Tally D)
        → m + t.token_adds < 2 ^ 31
        → t.check_removals < 2 ^ 31
        → IsTallied m t
        → IsTallied m (record t {
          acceptor = register_conn conn (accept_conn allowed conn t.acceptor.server) t.acceptor;
        })
    unfolding accept_conn add_conn
    accepted-IsTallied conn t small few h =
        let s = t.acceptor.server in
        elim (Bool-cases (leb_ℤ s.max_conn_count s.conn_count)) [
          | inl over ↦ rw over h
          | inr below ↦ elim (Bool-cases (allowed conn)) [
            | inr refused ↦ rw (below, refused) h
            | inl ok ↦
                let room = below_limit s.conn_count s.max_conn_count m h.limit below in
                let (e, le) =
                  IsBalanced-suc s.conn_count (length t.acceptor.handling + t.token_adds)
                    t.check_removals (m + t.token_adds) h.balance
                    (le_more (s.conn_count +ℤ pos 1) m (m + t.token_adds) room (omega arith)) small
                    few in
                rw (below, ok) (record { balance = omega (arith, e); limit = h.limit; over = le })
          ]
        ]

    handled-IsTallied :
        (o : Option (ℤ × List ℤ)) (k : ℕ) (t : Tally D)
        → pull k t.acceptor.handling ≡ o
        → m + t.token_adds < 2 ^ 31
        → t.check_removals < 2 ^ 31
        → IsTallied m t
        → IsTallied m (record t { acceptor = end_handling o t.acceptor })
    unfolding remove_conn
    handled-IsTallied none k t e small few h = h
    handled-IsTallied (some (guid, rest)) k t e small few h =
        let longer = length-pull k t.acceptor.handling guid rest e in
        let (b, le) =
          IsBalanced-pred t.acceptor.server.conn_count (length t.acceptor.handling + t.token_adds)
            t.check_removals (m + t.token_adds) h.balance h.over small
            (omega (arith, few, longer)) in
        record { balance = omega (arith, b, longer); limit = h.limit; over = le }

    server_turn-IsTallied :
        (e : ServerEvent D) (t : Tally D)
        → m + (server_turn allowed e t).token_adds < 2 ^ 31
        → (server_turn allowed e t).check_removals < 2 ^ 31
        → IsTallied m t
        → IsTallied m (server_turn allowed e t)
    unfolding server_turn accept_turn add_conn check_conns
    server_turn-IsTallied (at_listener (accepted conn)) t small few h =
        elim (Bool-cases (t.acceptor.listener_open && not t.acceptor.loop_ended)) [
          | inl listens ↦ rw listens (accepted-IsTallied conn t small few h)
          | inr deaf ↦ rw deaf h
        ]
    server_turn-IsTallied (at_listener (accept_failed is_closed)) t small few h =
        elim (Bool-cases (t.acceptor.server.is_running && not is_closed)) [
          | inl again ↦ rw again h
          | inr ends ↦ rw ends (record { balance = h.balance; limit = h.limit; over = h.over })
        ]
    server_turn-IsTallied (at_listener (handled k)) t small few h =
        handled-IsTallied _ k t refl small few h
    server_turn-IsTallied (token_added conn) t small few h =
        let (e, le) =
          IsBalanced-suc t.acceptor.server.conn_count (length t.acceptor.handling + t.token_adds)
            t.check_removals (m + suc t.token_adds) h.balance
            (le_more (t.acceptor.server.conn_count +ℤ pos 1) (suc (m + t.token_adds))
              (m + suc t.token_adds) (suc_le t.acceptor.server.conn_count (m + t.token_adds) h.over)
              (omega arith))
            small few in
        record { balance = omega (arith, e); limit = h.limit; over = le }
    server_turn-IsTallied (checked now timeout) t small few h =
        close_guids-IsCounted (expired_guids now timeout t.acceptor.server.active_conns)
          (length t.acceptor.handling) t.token_adds t.check_removals t.acceptor.server small few h

    grows :
        (e : ServerEvent D) (t : Tally D)
        → (t.token_adds ≤ (server_turn allowed e t).token_adds)
          × (t.check_removals ≤ (server_turn allowed e t).check_removals)
    unfolding server_turn
    grows (at_listener e) t = ground arith
    grows (token_added conn) t = ground arith
    grows (checked now timeout) t = ground arith

    grow :
        (events : List (ServerEvent D)) (t : Tally D)
        → (t.token_adds ≤ (server_turns allowed events t).token_adds)
          × (t.check_removals ≤ (server_turns allowed events t).check_removals)
    unfolding server_turns
    grow [] t = ground arith
    grow (e ∷ events) t =
        let (a, b) = grows e t in
        let (a', b') = grow events (server_turn allowed e t) in
        (omega (arith, a, a'), omega (arith, b, b'))

    -- However accepted connections, ends of their goroutines, token checks and `CheckConns` come after each
    -- other, where the limit with the additions by token checks is below 2^31 and `CheckConns` removes
    -- fewer than 2^31: the count of the server with these removals is the number of running goroutines
    -- of accepted connections with these additions, and the count is above the limit by no more than the
    -- additions.
    pub server_turns-IsTallied :
        (events : List (ServerEvent D)) (t : Tally D)
        → m + (server_turns allowed events t).token_adds < 2 ^ 31
        → (server_turns allowed events t).check_removals < 2 ^ 31
        → IsTallied m t
        → IsTallied m (server_turns allowed events t)
    unfolding server_turns
    server_turns-IsTallied [] t small few h = h
    server_turns-IsTallied (e ∷ events) t small few h =
        let next = server_turn allowed e t in
        let (a, b) = grow events next in
        server_turns-IsTallied events next small few
          (server_turn-IsTallied e t (omega (arith, small, a)) (omega (arith, few, b)) h)
