-- ===== src/Tcp/Reader/Endings.antt =====
-- network/tcp_net/conn.go: how the reading of a connection goes on or stops where what arrives is not a
-- message.
use yaice.Base.{
  ℕ, zero, suc, ◌<◌, ◌≡◌, refl, ap, ◌∙◌, ◌||◌, Bool, true, false, List, [], ◌∷◌, none, some, arith,
}
use yaice.Base.Lists.{length}
use yaice.Base.Int.{ℤ}
use yaice.Tcp.Conn.{close, lock, unlock}
use yaice.Tcp.Packet.{Packet}
use yaice.Tcp.Reader.{
  Arrival, silence, Ending, ReadResult, full, failed, timed_out, with_byte, read_full, Stop,
  bad_length, Reader, after_head, after_error, handle_read_error, close_and_stop, read_round,
  length_out_of_range,
}
use yaice.Tcp.Reader.Framing.{bytes_arrive, IsReadable, read_round-readable, read_full-bytes_arrive}
use yaice.Utils.Bytes.{bytes_to_int}

read_full-silence :
    (ending : Ending) (some_read : Bool) (bytes : List ℕ) (n : ℕ) (wire : List Arrival)
    → length bytes < n
    → read_full ending some_read n (bytes_arrive bytes (silence ∷ wire)) ≡ failed timed_out wire
unfolding read_full
read_full-silence ending some_read bytes zero wire h = absurd (omega arith)
read_full-silence ending some_read [] (suc n) wire h = refl
read_full-silence ending some_read (b ∷ bytes) (suc n) wire h =
    ap (with_byte b) (read_full-silence ending true bytes n wire (omega arith))

module _ {D : Type 0} where
  close_and_stop-closed :
      (why : Stop) (r : Reader D)
      → r.conn.is_closed ≡ false
      → r.conn.mu_held ≡ false
      → close_and_stop why r ≡ (
        record r {
          conn = record r.conn {
            is_closed = true;
            cancelled = true;
            has_conn = false;
            mu_held = false;
          };
        },
        some why,
      )
  unfolding close_and_stop close lock unlock
  close_and_stop-closed why r opened free = ground arith

module _ {D : Type 0} (pkg : Packet D) (clock : ℕ → ℤ) (set_read_deadline : ℕ → Bool) where
  after_head-timed_out :
      (wire : List Arrival) (r : Reader D)
      → after_head pkg clock set_read_deadline (failed timed_out wire) r
        ≡ (record r { wire = wire; rounds = suc r.rounds }, none)
  unfolding after_head after_error handle_read_error
  after_head-timed_out wire r = refl

  after_head-bad_length :
      (head : List ℕ) (wire : List Arrival) (r : Reader D)
      → length_out_of_range (bytes_to_int head) ≡ true
      → after_head pkg clock set_read_deadline (full head wire) r
        ≡ close_and_stop bad_length (record r { wire = wire; rounds = suc r.rounds })
  unfolding after_head
  after_head-bad_length head wire r bad = ground arith

  -- Whether one of the other goroutines closes the connection.
  abbrev pub closed_by_any : List Bool → Bool
  closed_by_any [] = false
  closed_by_any (closes ∷ later) = closes || closed_by_any later

  -- A deadline that passes inside a head drops the bytes of it that were read: the next round takes its
  -- head from what comes after them, and the connection stays open.
  pub read_round-silence :
      (bytes : List ℕ) (wire : List Arrival) (r : Reader D)
      → length bytes < pkg.get_head_len
      → IsReadable pkg clock set_read_deadline r.rounds r.conn
      → r.wire ≡ bytes_arrive bytes (silence ∷ wire)
      → read_round pkg clock set_read_deadline r
        ≡ (record r { wire = wire; rounds = suc r.rounds }, none)
  read_round-silence bytes wire r short readable e =
      read_round-readable pkg clock set_read_deadline r readable
      ∙ ap (λ (x : ReadResult). after_head pkg clock set_read_deadline x r)
          (ap (read_full r.ending false pkg.get_head_len) e
            ∙ read_full-silence r.ending false bytes pkg.get_head_len wire short)
      ∙ after_head-timed_out wire r

  -- A head that says 0, a negative number or more than 1048576 closes the connection and stops the loop,
  -- and no message is unpacked.
  pub read_round-bad_length :
      (head : List ℕ) (wire : List Arrival) (r : Reader D)
      → length head ≡ pkg.get_head_len
      → length_out_of_range (bytes_to_int head) ≡ true
      → IsReadable pkg clock set_read_deadline r.rounds r.conn
      → r.conn.mu_held ≡ false
      → r.wire ≡ bytes_arrive head wire
      → read_round pkg clock set_read_deadline r ≡ (
        record r {
          wire = wire;
          rounds = suc r.rounds;
          conn = record r.conn {
            is_closed = true;
            cancelled = true;
            has_conn = false;
            mu_held = false;
          };
        },
        some bad_length,
      )
  read_round-bad_length head wire r sized bad readable free e =
      read_round-readable pkg clock set_read_deadline r readable
      ∙ ap (λ (x : ReadResult). after_head pkg clock set_read_deadline x r)
          (ap (read_full r.ending false pkg.get_head_len) e
            ∙ read_full-bytes_arrive r.ending false head pkg.get_head_len wire sized)
      ∙ after_head-bad_length head wire r bad
      ∙ close_and_stop-closed bad_length _ readable.1 free
