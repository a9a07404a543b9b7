-- ===== src/Tcp/Reader/Sizes.antt =====
-- network/tcp_net/conn.go: the sizes of the messages that the read loop unpacks.
use mathlib.Core.Path.{subst}
use yaice.Base.{
  ℕ, zero, suc, ◌≤◌, ◌≡◌, refl, sym, ap, Bool, true, false, List, [], ◌∷◌, ◌++◌, Option, none, some,
  arith,
}
use yaice.Base.Tests.{if_cases}
use yaice.Base.Lists.{length, All}
use yaice.Base.Int.{ℤ, pos, negsuc}
use yaice.Tcp.Packet.{Packet, Unpacked, refused, ignored, calls}
use yaice.Tcp.Reader.{
  Arrival, byte, silence, Ending, ReadResult, full, failed, ReadError, with_byte, read_full, Stop,
  bad_length, Reader, max_message, take_message, after_body, after_head, after_error,
  close_and_stop, read_round, read_loop, react, after_call, unless_stopped, buffer_length,
  length_out_of_range,
}
use yaice.Tcp.Reader.Framing.{IsSized}
use yaice.Utils.Bytes.{bytes_to_int}

-- A buffer that is filled has the length asked for.
abbrev Fills : ℕ → ReadResult → Type 0
Fills n (full bytes rest) = length bytes ≡ n
Fills n (failed e rest) = Unit

with_byte-Fills : (b n : ℕ) (x : ReadResult) → Fills n x → Fills (suc n) (with_byte b x)
unfolding with_byte
with_byte-Fills b n (full bytes rest) h = ap suc h
with_byte-Fills b n (failed e rest) h = h

read_full-Fills :
    (ending : Ending) (some_read : Bool) (n : ℕ) (wire : List Arrival)
    → Fills n (read_full ending some_read n wire)
unfolding read_full
read_full-Fills ending some_read zero wire = refl
read_full-Fills ending some_read (suc n) [] = tt
read_full-Fills ending some_read (suc n) (silence ∷ wire) = tt
read_full-Fills ending some_read (suc n) (byte b ∷ wire) =
    with_byte-Fills b n _ (read_full-Fills ending true n wire)

All-snoc :
    (xs : List (List ℕ)) (m : List ℕ) → All IsSized xs → IsSized m → All IsSized (xs ++ (m ∷ []))
All-snoc [] m h sized = (sized, tt)
All-snoc (x ∷ xs) m h sized = (h.0, All-snoc xs m h.1 sized)

bounds_of :
    (n : ℤ)
    → length_out_of_range n ≡ false
    → (1 ≤ buffer_length n) × (buffer_length n ≤ max_message)
bounds_of (pos n) e = ground arith
bounds_of (negsuc n) e = ground arith

module _ {D : Type 0} where
  close_and_stop-unpacked :
      (why : Stop) (r : Reader D) → (close_and_stop why r).0.unpacked ≡ r.unpacked
  unfolding close_and_stop
  close_and_stop-unpacked why r = ground arith

  after_error-unpacked : (e : ReadError) (r : Reader D) → (after_error e r).0.unpacked ≡ r.unpacked
  unfolding after_error
  after_error-unpacked e r = ground arith

  react-unpacked : (u : Unpacked D) (r : Reader D) → (react u r).0.unpacked ≡ r.unpacked
  unfolding react after_call
  react-unpacked refused r = close_and_stop-unpacked _ r
  react-unpacked ignored r = refl
  react-unpacked (calls f) r = ground arith

module _ {D : Type 0} (pkg : Packet D) (clock : ℕ → ℤ) (set_read_deadline : ℕ → Bool) where
  take_message-IsSized :
      (m : List ℕ) (r : Reader D)
      → IsSized m
      → All IsSized r.unpacked
      → All IsSized (take_message pkg clock set_read_deadline m r).0.unpacked
  unfolding take_message
  take_message-IsSized m r sized h =
      subst (All IsSized) (sym (react-unpacked (pkg.unpack m) _)) (All-snoc r.unpacked m h sized)

  after_body-IsSized :
      (x : ReadResult) (n : ℕ) (r : Reader D)
      → Fills n x
      → 1 ≤ n
      → n ≤ max_message
      → All IsSized r.unpacked
      → All IsSized (after_body pkg clock set_read_deadline x r).0.unpacked
  unfolding after_body
  after_body-IsSized (full m rest) n r fills h h2 all =
      take_message-IsSized m (record r { wire = rest }) (omega arith, omega arith) all
  after_body-IsSized (failed e rest) n r fills h h2 all =
      subst (All IsSized) (sym (after_error-unpacked e _)) all

  after_head-IsSized :
      (x : ReadResult) (r : Reader D)
      → All IsSized r.unpacked
      → All IsSized (after_head pkg clock set_read_deadline x r).0.unpacked
  unfolding after_head
  after_head-IsSized (failed e rest) r all =
      subst (All IsSized) (sym (after_error-unpacked e _)) all
  after_head-IsSized (full head rest) r all =
      let n = bytes_to_int head in
      if_cases (λ (x : Reader D × Option Stop). All IsSized x.0.unpacked) (length_out_of_range n) _
        _ (λ bad. subst (All IsSized) (sym (close_and_stop-unpacked bad_length _)) all)
        (λ good.
          let bounds = bounds_of n good in
          after_body-IsSized _ (buffer_length n) (record r { wire = rest })
            (read_full-Fills r.ending false (buffer_length n) rest) bounds.0 bounds.1 all)

  read_round-IsSized :
      (r : Reader D)
      → All IsSized r.unpacked
      → All IsSized (read_round pkg clock set_read_deadline r).0.unpacked
  unfolding read_round
  read_round-IsSized r all =
      let Kept = λ (x : Reader D × Option Stop). All IsSized x.0.unpacked in
      if_cases Kept r.conn.cancelled _ _ (λ e. all)
        (λ e.
          if_cases Kept r.conn.is_closed _ _ (λ e2. all)
            (λ e2.
              if_cases Kept r.conn.has_conn _ _
                (λ e3.
                  if_cases Kept (set_read_deadline r.rounds) _ _ (λ e4. after_head-IsSized _ r all)
                    (λ e4. all))
                (λ e3. all)))

  unless_stopped-IsSized :
      (next : Reader D → Reader D × Option Stop) (x : Reader D × Option Stop)
      → ((r : Reader D) → All IsSized r.unpacked → All IsSized (next r).0.unpacked)
      → All IsSized x.0.unpacked
      → All IsSized (unless_stopped next x).0.unpacked
  unfolding unless_stopped
  unless_stopped-IsSized next (r, some why) keeps all = all
  unless_stopped-IsSized next (r, none) keeps all = keeps r all

  -- Whatever arrives, a message that is given to `Unpack` has from 1 to 1048576 bytes.
  pub read_loop-IsSized :
      (fuel : ℕ) (r : Reader D)
      → All IsSized r.unpacked
      → All IsSized (read_loop pkg clock set_read_deadline fuel r).0.unpacked
  unfolding read_loop
  read_loop-IsSized zero r h = h
  read_loop-IsSized (suc fuel) r h =
      unless_stopped-IsSized (read_loop pkg clock set_read_deadline fuel) _ (read_loop-IsSized fuel)
        (read_round-IsSized r h)
