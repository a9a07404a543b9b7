-- ===== src/Tcp/Reader/Framing.antt =====
-- network/tcp_net/conn.go: messages behind their lengths come out of the stream whole and in order.
use mathlib.Core.List.{append-nil, append_assoc}
use yaice.Base.{
  ℕ, zero, suc, ◌+◌, ◌≤◌, ◌≡◌, refl, sym, ap, ap₂, ◌∙◌, Bool, true, false, List, [], ◌∷◌, ◌++◌,
  none, arith,
}
use yaice.Base.Lists.{length}
use yaice.Base.Int.{ℤ, pos}
use yaice.Tcp.Conn.{Conn, update_last_activity}
use yaice.Tcp.Packet.{Packet, Unpacked, refused, ignored, calls}
use yaice.Tcp.Reader.{
  Arrival, byte, Ending, ReadResult, full, with_byte, read_full, Reader, max_message, take_message,
  after_body, after_head, read_round, read_loop, react, after_call, unless_stopped,
  length_out_of_range,
}
use yaice.Utils.Bytes.{bytes_to_int, int_to_bytes, bytes_to_int-int_to_bytes}
use yaice.Utils.Tool.{Run, returns}

abbrev pub bytes_arrive : List ℕ → List Arrival → List Arrival
bytes_arrive [] wire = wire
bytes_arrive (b ∷ bytes) wire = byte b ∷ bytes_arrive bytes wire

-- A message behind its length, the first four bytes.
abbrev pub framed : List ℕ → List Arrival → List Arrival
framed m wire = bytes_arrive (int_to_bytes (pos (length m))) (bytes_arrive m wire)

abbrev pub all_framed : List (List ℕ) → List Arrival → List Arrival
all_framed [] wire = wire
all_framed (m ∷ messages) wire = framed m (all_framed messages wire)

abbrev pub IsSized : List ℕ → Type 0
IsSized m = (1 ≤ length m) × (length m ≤ max_message)

pub read_full-bytes_arrive :
    (ending : Ending) (some_read : Bool) (bytes : List ℕ) (n : ℕ) (wire : List Arrival)
    → length bytes ≡ n
    → read_full ending some_read n (bytes_arrive bytes wire) ≡ full bytes wire
unfolding read_full
read_full-bytes_arrive ending some_read [] zero wire e = refl
read_full-bytes_arrive ending some_read [] (suc n) wire e = absurd (omega arith)
read_full-bytes_arrive ending some_read (b ∷ bytes) zero wire e = absurd (omega arith)
read_full-bytes_arrive ending some_read (b ∷ bytes) (suc n) wire e =
    ap (with_byte b) (read_full-bytes_arrive ending true bytes n wire (omega arith))

length-int_to_bytes : (n : ℤ) → length (int_to_bytes n) ≡ 4
unfolding int_to_bytes
length-int_to_bytes n = refl

read_length : (n : ℕ) → n ≤ max_message → bytes_to_int (int_to_bytes (pos n)) ≡ pos n
unfolding int_to_bytes
read_length n h = bytes_to_int-int_to_bytes (pos n) [] (ground arith)

in_range : (n : ℕ) → 1 ≤ n → n ≤ max_message → length_out_of_range (pos n) ≡ false
in_range n h h2 = ground arith

module _ {D : Type 0} (pkg : Packet D) (clock : ℕ → ℤ) (set_read_deadline : ℕ → Bool) where
  -- A connection that the loop goes on reading.
  abbrev pub IsReadable : ℕ → Conn D → Type 0
  IsReadable round c =
      (c.cancelled ≡ false)
      × (c.is_closed ≡ false)
      × (c.has_conn ≡ true)
      × (set_read_deadline round ≡ true)

  -- What `Unpack` makes of a message, and the function it gives, take the connection from c to d.
  abbrev pub Handles : Unpacked D → Conn D → Conn D → Type 0
  Handles refused c d = ⊥
  Handles ignored c d = c ≡ d
  Handles (calls f) c d = f c ≡ returns d

  -- The messages have a size in range, and their handlers take the connection, each time readable,
  -- from c to d.
  abbrev pub Takes : ℕ → List (List ℕ) → Conn D → Conn D → Type 0
  Takes round [] c d = c ≡ d
  Takes round (m ∷ messages) c d =
      IsSized m
      × IsReadable round c
      × ((c' : Conn D) × Handles (pkg.unpack m) (update_last_activity (clock round) c) c'
          × Takes (suc round) messages c' d)

  -- A round on a readable connection is what it makes of the head.
  pub read_round-readable :
      (r : Reader D)
      → IsReadable r.rounds r.conn
      → read_round pkg clock set_read_deadline r
        ≡ after_head pkg clock set_read_deadline
            (read_full r.ending false pkg.get_head_len r.wire)
            r
  unfolding read_round
  read_round-readable r readable = ground arith

  after_head-sized :
      (head : List ℕ) (n : ℕ) (rest : List Arrival) (r : Reader D)
      → bytes_to_int head ≡ pos n
      → 1 ≤ n
      → n ≤ max_message
      → after_head pkg clock set_read_deadline (full head rest) r
        ≡ after_body pkg clock set_read_deadline
            (read_full r.ending false n rest)
            (record r { wire = rest })
  unfolding after_head
  after_head-sized head n rest r e h h2 = ground arith

  read_round-framed :
      (m : List ℕ) (wire : List Arrival) (r : Reader D)
      → pkg.get_head_len ≡ 4
      → IsSized m
      → IsReadable r.rounds r.conn
      → r.wire ≡ framed m wire
      → read_round pkg clock set_read_deadline r
        ≡ take_message pkg clock set_read_deadline m (record r { wire = wire })
  unfolding after_body
  read_round-framed m wire r four sized readable e =
      let head = int_to_bytes (pos (length m)) in
      let body = bytes_arrive m wire in
      read_round-readable r readable
      ∙ ap₂
          (λ (n : ℕ) (w : List Arrival).
            after_head pkg clock set_read_deadline (read_full r.ending false n w) r)
          four e
      ∙ ap (λ (x : ReadResult). after_head pkg clock set_read_deadline x r)
          (read_full-bytes_arrive r.ending false head 4 body (length-int_to_bytes _))
      ∙ after_head-sized head (length m) body r (read_length (length m) sized.1) sized.0 sized.1
      ∙ ap (λ (x : ReadResult). after_body pkg clock set_read_deadline x (record r { wire = body }))
          (read_full-bytes_arrive r.ending false m (length m) wire refl)

  abbrev after_rounds : List (List ℕ) → ℕ → ℕ
  after_rounds [] n = n
  after_rounds (m ∷ messages) n = after_rounds messages (suc n)

  -- A reader that has taken messages and left the connection as it is given.
  abbrev pub advanced : List (List ℕ) → List Arrival → Conn D → Reader D → Reader D
  advanced messages wire c r = record r {
    conn = c;
    wire = wire;
    rounds = after_rounds messages r.rounds;
    unpacked = r.unpacked ++ messages;
  }

  -- A round that goes on takes one of the fuel.
  pub continues :
      (fuel : ℕ) (r r' : Reader D)
      → read_round pkg clock set_read_deadline r ≡ (r', none)
      → read_loop pkg clock set_read_deadline (suc fuel) r
        ≡ read_loop pkg clock set_read_deadline fuel r'
  unfolding read_loop unless_stopped
  continues fuel r r' e = ap (unless_stopped (read_loop pkg clock set_read_deadline fuel)) e

  stays :
      (r : Reader D) (c : Conn D) (wire : List Arrival)
      → r.wire ≡ wire
      → r.conn ≡ c
      → r ≡ advanced [] wire c r
  stays r c wire e e2 i = record r {
    conn = e2 i;
    wire = e i;
    unpacked = sym (append-nil r.unpacked) i;
  }

  react_lem :
      (u : Unpacked D) (r : Reader D) (c : Conn D)
      → Handles u r.conn c
      → react u r ≡ (record r { conn = c }, none)
  unfolding react
  react_lem refused r c h = absurd h
  react_lem ignored r c h = ap (λ (x : Conn D). (record r { conn = x }, none)) h
  react_lem (calls f) r c h = ap (λ (x : Run (Conn D)). after_call x r) h

  take_message-Handles :
      (m : List ℕ) (r : Reader D) (c : Conn D)
      → Handles (pkg.unpack m) (update_last_activity (clock r.rounds) r.conn) c
      → take_message pkg clock set_read_deadline m r ≡ (advanced (m ∷ []) r.wire c r, none)
  unfolding take_message
  take_message-Handles m r c h = react_lem (pkg.unpack m) _ c h

  -- Where every message of a stream has a size from 1 to 1048576 bytes, stands behind its length, and its
  -- handler leaves the connection open, the loop takes them all, one in each round, in order and whole:
  -- after as many rounds it is where it would be on the rest of the stream.
  pub read_loop-all_framed :
      (messages : List (List ℕ)) (fuel : ℕ) (r : Reader D) (c : Conn D) (wire : List Arrival)
      → pkg.get_head_len ≡ 4
      → r.wire ≡ all_framed messages wire
      → Takes r.rounds messages r.conn c
      → read_loop pkg clock set_read_deadline (length messages + fuel) r
        ≡ read_loop pkg clock set_read_deadline fuel (advanced messages wire c r)
  unfolding read_loop
  read_loop-all_framed [] fuel r c wire four e takes =
      ap₂ (read_loop pkg clock set_read_deadline) (omega arith) (stays r c wire e takes)
  read_loop-all_framed (m ∷ messages) fuel r c wire four e takes =
      let (sized, readable, (c', handles, later)) = takes in
      let rest = all_framed messages wire in
      let next = advanced (m ∷ []) rest c' r in
      let once =
        read_round-framed m rest r four sized readable e
        ∙ take_message-Handles m (record r { wire = rest }) c' handles in
      let fuel' = length messages + fuel in
      let ih = read_loop-all_framed messages fuel next c wire four refl later in
      ap (λ (n : ℕ). read_loop pkg clock set_read_deadline n r) {y = suc fuel'} (omega arith)
      ∙ continues fuel' r next once
      ∙ ih
      ∙ ap
          (λ (xs : List (List ℕ)). read_loop pkg clock set_read_deadline fuel (record next {
            conn = c;
            wire = wire;
            rounds = after_rounds messages (suc r.rounds);
            unpacked = xs;
          }))
          (append_assoc r.unpacked (m ∷ []) messages)
