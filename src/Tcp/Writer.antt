-- ===== src/Tcp/Writer.antt =====
-- network/tcp_net/conn.go, `batchWriteLoop`: the loop that joins the queued messages into writes of the
-- socket. `pack` is the `Pack` of the packet that the connection is given, and each event says whether
-- the writes it needs succeed; a write that fails counts as one that hands over nothing. The timer only decides when the event `tick` comes.
pub mod Delivery
use mathlib.Core.Path.{subst}
use mathlib.Core.List.{append_assoc, append-nil}
use yaice.Base.{
  ℕ, ◌+◌, ◌<◌, ◌≡◌, refl, sym, ap, ◌∙◌, inl, inr, Bool, true, false, List, [], ◌∷◌, ◌++◌, Option,
  none, some, arith,
}
use yaice.Base.Tests.{leb, if◌then◌else◌, Bool-cases}
use yaice.Base.Lists.{length, length-append, All}
use yaice.Core.Protocol.{ServerProto}

abbrev pub batch_size : ℕ
batch_size = 8192

-- What the send queue holds: bytes, a message, or a value of another type.
pub data Item (D : Type 0) : Type 0 where
  bytes_item : List ℕ → Item D
  proto_item : ServerProto D → Item D
  other_item : Item D

pub data Event (D : Type 0) : Type 0 where
  -- The context is cancelled, or the queue closed.
  done : Bool → Event D
  -- A message comes: whether the write of the batch, and that of the message, succeed.
  message : Item D → Bool → Bool → Event D
  tick : Bool → Event D

-- `written` is what the socket has taken, `closing` whether the loop has called `Close`.
pub record Writer : Type 0 where
  pub batch : List ℕ
  pub written : List ℕ
  pub running : Bool
  pub closing : Bool

unfoldable pub is_nil : List ℕ → Bool
is_nil [] = true
is_nil (x ∷ xs) = false

-- A write that fails closes the connection and ends the loop.
unfoldable pub fail : Writer → Writer
fail w = record w { running = false; closing = true }

-- The write of the batch where it is not empty, and its reset.
unfoldable pub flush : Bool → Writer → Writer
unfolding is_nil fail
flush ok w =
    if is_nil w.batch
    then w
    else if ok
    then record w { written = w.written ++ w.batch; batch = [] }
    else fail w

unfoldable pub write_single : Bool → List ℕ → Writer → Writer
unfolding fail
write_single ok assembled w =
    if w.running then (if ok then record w { written = w.written ++ assembled } else fail w) else w

module _ {D : Type 0} (pack : ServerProto D → Option (List ℕ)) where
  unfoldable pub assemble : Item D → Option (List ℕ)
  assemble (bytes_item bytes) = some bytes
  assemble (proto_item msg) = pack msg
  assemble other_item = none

  unfoldable pub accept : Option (List ℕ) → Bool → Bool → Writer → Writer
  unfolding flush write_single
  accept none ok1 ok2 w = w
  accept (some assembled) ok1 ok2 w =
      if leb batch_size (length w.batch + length assembled)
      then write_single ok2 assembled (flush ok1 w)
      else record w { batch = w.batch ++ assembled }

  -- A turn of the loop.
  unfoldable pub turn : Event D → Writer → Writer
  unfolding assemble accept flush is_nil
  turn (done ok) w =
      if ok
      then record w { written = w.written ++ w.batch; batch = []; running = false }
      else record w { running = false }
  turn (message item ok1 ok2) w = accept (assemble item) ok1 ok2 w
  turn (tick ok) w = flush ok w

  unfoldable pub batch_write_loop : List (Event D) → Writer → Writer
  unfolding turn
  batch_write_loop [] w = w
  batch_write_loop (e ∷ events) w =
      let next = turn e w in
      let rest = batch_write_loop events next in if next.running then rest else next
