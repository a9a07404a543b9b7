-- ===== src/Tcp/Reader.antt =====
-- network/tcp_net/conn.go: the goroutine that reads a connection's messages off its socket, and what it
-- does with an error. What arrives is a list of bytes, in which `silence` marks a moment at which the
-- read deadline that was set last passes; after it comes how the stream ends.
pub mod Framing
pub mod Sizes
pub mod Endings
use yaice.Base.{
  ℕ, zero, suc, ◌+◌, ◌<◌, ◌≡◌, refl, Bool, true, false, ◌||◌, List, [], ◌∷◌, ◌++◌, Option, none,
  some, arith,
}
use yaice.Base.Tests.{ltb, leb, if◌then◌else◌}
use yaice.Base.Lists.{length}
use yaice.Base.Int.{ℤ, pos, negsuc, ltb_ℤ, leb_ℤ}
use yaice.Tcp.Conn.{Conn, close, update_last_activity}
use yaice.Tcp.Packet.{Packet, Unpacked, refused, ignored, calls}
use yaice.Utils.Bytes.{bytes_to_int}
use yaice.Utils.Tool.{Run, returns, panics, blocks}

pub data Arrival : Type 0 where
  byte : ℕ → Arrival
  silence : Arrival

pub data Ending : Type 0 where
  peer_closed reset : Ending

-- The errors of `io.ReadFull`: `io.EOF` where not one byte was read, `io.ErrUnexpectedEOF` where some
-- were, a time-out, and any other error of the socket.
pub data ReadError : Type 0 where
  end_of_file unexpected_end timed_out broken : ReadError

-- What `io.ReadFull` read, or its error, with what is still to arrive: the bytes before an error are gone.
pub data ReadResult : Type 0 where
  full : List ℕ → List Arrival → ReadResult
  failed : ReadError → List Arrival → ReadResult

unfoldable pub error_at_end : Ending → Bool → ReadError
error_at_end reset some_read = broken
error_at_end peer_closed some_read = if some_read then unexpected_end else end_of_file

pub with_byte : ℕ → ReadResult → ReadResult
with_byte b (full bytes rest) = full (b ∷ bytes) rest
with_byte b (failed e rest) = failed e rest

unfoldable pub read_full : Ending → Bool → ℕ → List Arrival → ReadResult
unfolding with_byte error_at_end
read_full ending some_read zero wire = full [] wire
read_full ending some_read (suc n) [] = failed (error_at_end ending some_read) []
read_full ending some_read (suc n) (silence ∷ wire) = failed timed_out wire
read_full ending some_read (suc n) (byte b ∷ wire) = with_byte b (read_full ending true n wire)

-- Why the goroutine returned, or that it waits for ever or panics in a call that it made.
pub data Stop : Type 0 where
  context_done conn_closed no_socket no_deadline read_failed bad_length bad_message : Stop
  stuck panicked : Stop

-- The goroutine between two rounds of its loop; `unpacked` lists the messages given to `Unpack`.
pub record Reader (D : Type 0) : Type 0 where
  pub conn : Conn D
  pub wire : List Arrival
  pub ending : Ending
  pub rounds : ℕ
  pub unpacked : List (List ℕ)

abbrev pub max_message : ℕ
max_message = 1048576

abbrev pub length_out_of_range : ℤ → Bool
length_out_of_range n = leb_ℤ n (pos 0) || ltb_ℤ (pos max_message) n

-- The length of the message buffer.
abbrev pub buffer_length : ℤ → ℕ
buffer_length (pos n) = n
buffer_length (negsuc n) = 0

module _ {D : Type 0} where
  -- `handleReadError`, with whether it gives the error back.
  unfoldable pub handle_read_error : ReadError → Conn D → Run (Conn D × Bool)
  handle_read_error end_of_file c = returns (c, false)
  handle_read_error timed_out c = returns (c, false)
  handle_read_error _ c = elim (close c) [
    | returns closed ↦ returns (closed, true)
    | panics ↦ panics
    | blocks ↦ blocks
  ]

  -- The rest of a round after a failed read.
  unfoldable pub after_error : ReadError → Reader D → Reader D × Option Stop
  unfolding handle_read_error
  after_error e r = elim (handle_read_error e r.conn) [
    | returns (c, gives_back) ↦
        (record r { conn = c }, if gives_back then some read_failed else none)
    | panics ↦ (r, some panicked)
    | blocks ↦ (r, some stuck)
  ]

  -- `c.Close()` and `return`.
  unfoldable pub close_and_stop : Stop → Reader D → Reader D × Option Stop
  close_and_stop why r = elim (close r.conn) [
    | returns c ↦ (record r { conn = c }, some why)
    | panics ↦ (r, some panicked)
    | blocks ↦ (r, some stuck)
  ]

  pub after_call : Run (Conn D) → Reader D → Reader D × Option Stop
  after_call (returns c) r = (record r { conn = c }, none)
  after_call panics r = (r, some panicked)
  after_call blocks r = (r, some stuck)

  -- A call of `Close` by another goroutine, which changes nothing where it does not return.
  unfoldable pub closed_beside : Reader D → Reader D
  closed_beside r = elim (close r.conn) [
    | returns c ↦ record r { conn = c }
    | panics ↦ r
    | blocks ↦ r
  ]

  -- The part of a round that has a whole message.
  unfoldable pub react : Unpacked D → Reader D → Reader D × Option Stop
  unfolding close_and_stop after_call
  react refused r = close_and_stop bad_message r
  react ignored r = (r, none)
  react (calls f) r = after_call (f r.conn) r

  pub unless_stopped :
      (Reader D → Reader D × Option Stop) → Reader D × Option Stop → Reader D × Option Stop
  unless_stopped next (r, some why) = (r, some why)
  unless_stopped next (r, none) = next r

-- The packet of the manager, the time at each round, and whether the deadline of a round can be set.
module _ {D : Type 0} (pkg : Packet D) (clock : ℕ → ℤ) (set_read_deadline : ℕ → Bool) where
  unfoldable pub take_message : List ℕ → Reader D → Reader D × Option Stop
  unfolding react update_last_activity
  take_message message r = react (pkg.unpack message) (record r {
    conn = update_last_activity (clock r.rounds) r.conn;
    unpacked = r.unpacked ++ (message ∷ []);
    rounds = suc r.rounds;
  })

  unfoldable pub after_body : ReadResult → Reader D → Reader D × Option Stop
  unfolding take_message after_error
  after_body (full message rest) r = take_message message (record r { wire = rest })
  after_body (failed e rest) r = after_error e (record r { wire = rest; rounds = suc r.rounds })

  unfoldable pub after_head : ReadResult → Reader D → Reader D × Option Stop
  unfolding after_body after_error close_and_stop read_full
  after_head (failed e rest) r = after_error e (record r { wire = rest; rounds = suc r.rounds })
  after_head (full head rest) r =
      let msg_len = bytes_to_int head in
      if length_out_of_range msg_len
      then close_and_stop bad_length (record r { wire = rest; rounds = suc r.rounds })
      else after_body (read_full r.ending false (buffer_length msg_len) rest)
          (record r { wire = rest })

  -- One round of the loop of `readLoop`: where the goroutine is then, and why it returned if it did.
  unfoldable pub read_round : Reader D → Reader D × Option Stop
  unfolding after_head read_full
  read_round r =
      if r.conn.cancelled
      then (r, some context_done)
      else if r.conn.is_closed
      then (r, some conn_closed)
      else if r.conn.has_conn
      then (if set_read_deadline r.rounds
          then after_head (read_full r.ending false pkg.get_head_len r.wire) r
          else (r, some no_deadline))
      else (r, some no_socket)

  -- The loop for at most the given number of rounds, while no other goroutine closes the connection; `none`
  -- where it is still running then.
  unfoldable pub read_loop : ℕ → Reader D → Reader D × Option Stop
  unfolding read_round unless_stopped
  read_loop zero r = (r, none)
  read_loop (suc fuel) r = unless_stopped (read_loop fuel) (read_round r)

  -- The loop among other goroutines, such as that of `CheckConns`, for as many rounds as there are tests:
  -- whether one of them calls `Close` before the round.
  unfoldable pub read_loop_beside : List Bool → Reader D → Reader D × Option Stop
  unfolding read_round unless_stopped closed_beside
  read_loop_beside [] r = (r, none)
  read_loop_beside (closes ∷ later) r =
      unless_stopped (read_loop_beside later) (read_round (if closes then closed_beside r else r))
