-- ===== src/Tcp/Server.antt =====
-- network/tcp_net/server.go: the ports that are tried, and the registry of connections with its count.
-- Whether a port can be bound, and whether the application allows a connection, are parameters.
use mathlib.Core.List.{lookup}
use yaice.Base.{
  ℕ, zero, suc, ◌+◌, ◌-◌, ◌≤◌, ◌<◌, ◌≡◌, inl, inr, ap, ◌∙◌, ite, Bool, true, false, List, [], ◌∷◌,
  Option, none, some, arith,
}
use yaice.Base.Tests.{ltb, if◌then◌else◌, Bool-cases}
use yaice.Base.Int.{ℤ, pos, negsuc, ◌+ℤ◌, ◌-ℤ◌, ltb_ℤ, leb_ℤ, int32, int64, ℤ_discrete}
use yaice.Base.Assoc.{insert, delete, lookup-insert, lookup-insert_self, lookup-delete}
use yaice.Tcp.Conn.{Conn}

pub record Server (D : Type 0) : Type 0 where
  pub conn_count : ℤ
  pub max_conn_count : ℤ
  pub active_conns : List (ℤ × Conn D)
  pub is_running : Bool

-- The loop of `Listen`, for the ports from one on below the end, as many as `left` says.
unfoldable pub listen_scan : (ℕ → Bool) → ℕ → ℕ → Option ℕ
listen_scan free port zero = none
listen_scan free port (suc left) =
    let rest = listen_scan free (suc port) left in if free port then some port else rest

module _ {D : Type 0} where
  unfoldable pub new_server : Server D
  new_server = record {
    conn_count = pos 0;
    max_conn_count = pos 10000;
    active_conns = [];
    is_running = false;
  }

  -- `Listen` between two ports that are not negative: the port, or -1.
  unfoldable pub listen : (ℕ → Bool) → ℕ → ℕ → Server D → Server D × ℤ
  listen free start_port end_port s =
      if s.is_running
      then (s, negsuc 0)
      else (elim (listen_scan free start_port (end_port - start_port)) [
        | none ↦ (s, negsuc 0)
        | some port ↦ (record s { is_running = true }, pos port)
      ])

  unfoldable pub add_conn : Conn D → Server D → Server D
  add_conn conn s = record s {
    active_conns = insert ℤ_discrete conn.session_id conn s.active_conns;
    conn_count = int32 (s.conn_count +ℤ pos 1);
  }

  unfoldable pub get_conn : ℤ → Server D → Option (Conn D)
  get_conn guid s = lookup ℤ_discrete guid s.active_conns

  unfoldable pub contain_conn : ℤ → Server D → Bool
  contain_conn guid s = elim (lookup ℤ_discrete guid s.active_conns) [
    | none ↦ false
    | some _ ↦ true
  ]

  unfoldable pub remove_conn : ℤ → Server D → Server D
  remove_conn guid s = record s {
    active_conns = delete ℤ_discrete guid s.active_conns;
    conn_count = int32 (s.conn_count -ℤ pos 1);
  }

  unfoldable pub set_max_conn_count : ℤ → Server D → Server D
  set_max_conn_count count s =
      if ltb_ℤ (pos 0) count then record s { max_conn_count = count } else s

  -- A connection that `acceptLoop` accepts, which `allowed` admits: whether it is registered.
  unfoldable pub accept_conn : (Conn D → Bool) → Conn D → Server D → Server D × Bool
  unfolding add_conn
  accept_conn allowed conn s =
      if leb_ℤ s.max_conn_count s.conn_count
      then (s, false)
      else if allowed conn
      then (add_conn conn s, true)
      else (s, false)

  -- The goroutine of an accepted connection: `Start` only begins the read loop and returns, and the
  -- deferred call removes the connection.
  unfoldable pub handle_conn : Conn D → Server D → Server D
  unfolding remove_conn
  handle_conn conn s = remove_conn conn.session_id s

  -- The keys that the first loop of `CheckConns` collects.
  unfoldable pub is_expired_conn : ℤ → ℤ → Conn D → Bool
  is_expired_conn now timeout conn = ltb_ℤ (int64 (conn.last_activity +ℤ timeout)) now

  unfoldable pub expired_guids : ℤ → ℤ → List (ℤ × Conn D) → List ℤ
  unfolding is_expired_conn
  expired_guids now timeout [] = []
  expired_guids now timeout (e ∷ conns) =
      let rest = expired_guids now timeout conns in
      if is_expired_conn now timeout e.1 then e.0 ∷ rest else rest

  -- The second loop, with the connections that it closes.
  unfoldable pub close_guids : List ℤ → Server D → Server D × List (Conn D)
  unfolding remove_conn get_conn
  close_guids [] s = (s, [])
  close_guids (guid ∷ guids) s =
      let rest = close_guids guids (remove_conn guid s) in
      (rest.0, elim (get_conn guid s) [ none ↦ rest.1 | some conn ↦ conn ∷ rest.1 ])

  unfoldable pub check_conns : ℤ → ℤ → Server D → Server D × List (Conn D)
  unfolding expired_guids close_guids
  check_conns now timeout s = close_guids (expired_guids now timeout s.active_conns) s

-- Of the ports from one on, the first that is free.
pub data IsFirst (free : ℕ → Bool) (from to : ℕ) : Option ℕ → Type 0 where
  no_port : ((p : ℕ) → from ≤ p → p < to → free p ≡ false) → IsFirst free from to none
  first_port :
      (port : ℕ)
      → from ≤ port
      → port < to
      → free port ≡ true
      → ((p : ℕ) → from ≤ p → p < port → free p ≡ false)
      → IsFirst free from to (some port)

extend :
    (free : ℕ → Bool) (from to : ℕ)
    → free from ≡ false
    → (p : ℕ) → from ≤ p
    → ((q : ℕ) → suc from ≤ q → q < to → free q ≡ false)
    → p < to
    → free p ≡ false
extend free from to e p le below lt = elim (Bool-cases (ltb from p)) [
  | inl above ↦ below p (ground arith) lt
  | inr same ↦ let eq : p ≡ from = ground arith in ap free eq ∙ e
]

step-IsFirst :
    (free : ℕ → Bool) (from to : ℕ) (o : Option ℕ)
    → free from ≡ false
    → IsFirst free (suc from) to o
    → IsFirst free from to o
step-IsFirst free from to none e (no_port none_free) =
    no_port (λ p le lt. extend free from to e p le none_free lt)
step-IsFirst free from to (some _) e (first_port port le lt works below) =
    first_port port (omega arith) lt works (λ p le2 lt2. extend free from port e p le2 below lt2)

pub listen_scan-IsFirst :
    (free : ℕ → Bool) (left from to : ℕ)
    → to ≡ from + left
    → IsFirst free from to (listen_scan free from left)
unfolding listen_scan
listen_scan-IsFirst free zero from to e = no_port (λ p le lt. absurd (omega arith))
listen_scan-IsFirst free (suc left) from to e = elim (Bool-cases (free from)) [
  | inl works ↦
      rw (works)
        (first_port from (omega arith) (omega arith) works (λ p le lt. absurd (omega arith)))
  | inr taken ↦ rw (taken) (
      step-IsFirst free from to (listen_scan free (suc from) left) taken
        (listen_scan-IsFirst free left (suc from) to (omega arith)))
]

module _ {D : Type 0} where
  -- A server that is not running takes the first free port from the start port on and below the end port,
  -- the end port excluded, and then runs; where none is free, or the range is empty, it answers -1 and
  -- does not run.
  pub listen-IsFirst :
      (free : ℕ → Bool) (start_port end_port : ℕ) (s : Server D)
      → s.is_running ≡ false
      → start_port ≤ end_port
      → (o : Option ℕ) × IsFirst free start_port end_port o
        × (listen free start_port end_port s ≡ elim o [
          | none ↦ (s, negsuc 0)
          | some port ↦ (record s { is_running = true }, pos port)
        ])
  unfolding listen
  listen-IsFirst free start_port end_port s idle le = (
    listen_scan free start_port (end_port - start_port),
    listen_scan-IsFirst free (end_port - start_port) start_port end_port (omega arith),
    ground arith,
  )

  -- A connection that is accepted below the limit and allowed is registered. Once its goroutine has run,
  -- which only begins the read loop, the registry reads none for it, and for any other key what it
  -- read before the connection came.
  pub handle_conn-accept_conn :
      (allowed : Conn D → Bool) (conn : Conn D) (s : Server D) (guid : ℤ)
      → allowed conn ≡ true
      → leb_ℤ s.max_conn_count s.conn_count ≡ false
      → (accept_conn allowed conn s ≡ (add_conn conn s, true))
        × (get_conn conn.session_id (add_conn conn s) ≡ some conn)
        × (get_conn guid (handle_conn conn (add_conn conn s))
            ≡ ite (ℤ_discrete guid conn.session_id) none (get_conn guid s))
  unfolding accept_conn handle_conn remove_conn add_conn get_conn
  handle_conn-accept_conn allowed conn s guid ok room = (
    ground arith,
    lookup-insert_self ℤ_discrete conn.session_id conn s.active_conns,
    ground (
      arith,
      lookup-delete ℤ_discrete guid conn.session_id
          (insert ℤ_discrete conn.session_id conn s.active_conns),
      lookup-insert ℤ_discrete guid conn.session_id conn s.active_conns,
    ),
  )
