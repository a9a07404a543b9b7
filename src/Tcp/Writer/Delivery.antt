-- ===== src/Tcp/Writer/Delivery.antt =====
-- network/tcp_net/conn.go, `batchWriteLoop`: no byte is lost or sent twice.
use mathlib.Core.Path.{subst}
use mathlib.Core.List.{append_assoc, append-nil}
use yaice.Base.{
  ℕ, ◌+◌, ◌<◌, ◌≡◌, refl, sym, ap, ◌∙◌, inl, inr, Bool, true, List, [], ◌∷◌, ◌++◌, Option, none,
  some, arith,
}
use yaice.Base.Tests.{leb, Bool-cases}
use yaice.Base.Lists.{length, length-append, All}
use yaice.Core.Protocol.{ServerProto}
use yaice.Tcp.Writer.{
  batch_size, Item, Event, done, message, tick, Writer, is_nil, flush, write_single, assemble,
  accept, turn, batch_write_loop,
}

module _ {D : Type 0} (pack : ServerProto D → Option (List ℕ)) where
  -- The bytes that the events bring, in order, up to the end of the loop.
  pub offered : List (Event D) → List ℕ
  unfolding assemble
  offered [] = []
  offered (done ok ∷ events) = []
  offered (message item ok1 ok2 ∷ events) =
      elim (assemble pack item) [ none ↦ [] | some assembled ↦ assembled ] ++ offered events
  offered (tick ok ∷ events) = offered events

  -- Every write of the event succeeds.
  unfoldable pub Succeeds : Event D → Type 0
  Succeeds (done ok) = ok ≡ true
  Succeeds (message item ok1 ok2) = (ok1 ≡ true) × (ok2 ≡ true)
  Succeeds (tick ok) = ok ≡ true

  -- The loop still runs with room in the batch, and has taken `all`, written or in the batch.
  record Has (all : List ℕ) (w : Writer) : Type 0 where
    bytes : w.written ++ w.batch ≡ all
    room : length w.batch < batch_size
    alive : w.running ≡ true

  nil_of_is_nil : (xs : List ℕ) → is_nil xs ≡ true → xs ≡ []
  unfolding is_nil
  nil_of_is_nil [] e = refl
  nil_of_is_nil (x ∷ xs) e = cc

  flush-empty :
      (w : Writer) (all : List ℕ) → Has all w → Has all (flush true w) × ((flush true w).batch ≡ [])
  unfolding flush
  flush-empty w all h = elim (Bool-cases (is_nil w.batch)) [
    | inl e ↦ rw (e) (h, nil_of_is_nil w.batch e)
    | inr e ↦ rw (e) (
      record {
        bytes = append-nil (w.written ++ w.batch) ∙ h.bytes;
        room = omega arith;
        alive = h.alive;
      },
      refl,
    )
  ]

  single_running :
      (assembled : List ℕ) (w : Writer)
      → w.running ≡ true
      → write_single true assembled w ≡ record w { written = w.written ++ assembled }
  unfolding write_single
  single_running assembled w alive = ground arith

  single-Has :
      (assembled all : List ℕ) (w : Writer)
      → Has all w
      → w.batch ≡ []
      → Has (all ++ assembled) (write_single true assembled w)
  single-Has assembled all w h empty =
      let written =
        sym (append-nil w.written) ∙ ap (λ (xs : List ℕ). w.written ++ xs) (sym empty) ∙ h.bytes in
      let shorter = ap length empty in
      rw (single_running assembled w h.alive) (record {
        bytes =
            ap (λ (xs : List ℕ). (w.written ++ assembled) ++ xs) empty
            ∙ append-nil (w.written ++ assembled)
            ∙ ap (λ (xs : List ℕ). xs ++ assembled) written;
        room = h.room;
        alive = h.alive;
      })

  accept-Has :
      (o : Option (List ℕ)) (all : List ℕ) (w : Writer)
      → Has all w
      → Has (all ++ elim o [ none ↦ [] | some assembled ↦ assembled ]) (accept pack o true true w)
  unfolding accept
  accept-Has none all w h = subst (λ (xs : List ℕ). Has xs w) (sym (append-nil all)) h
  accept-Has (some assembled) all w h =
      elim (Bool-cases (leb batch_size (length w.batch + length assembled))) [
        | inl full ↦
            let flushed = flush-empty w all h in
            rw (full) (single-Has assembled all (flush true w) flushed.0 flushed.1)
        | inr fits ↦
            let longer = length-append w.batch assembled in
            rw (fits) (record {
              bytes =
                  sym (append_assoc w.written w.batch assembled)
                  ∙ ap (λ (xs : List ℕ). xs ++ assembled) h.bytes;
              room = ground arith;
              alive = h.alive;
            })
      ]

  message_turn :
      (item : Item D) (ok1 ok2 : Bool) (all : List ℕ) (w : Writer)
      → ok1 ≡ true
      → ok2 ≡ true
      → Has all w
      → Has
          (all ++ elim (assemble pack item) [ none ↦ [] | some assembled ↦ assembled ])
          (turn pack (message item ok1 ok2) w)
  unfolding turn
  message_turn item ok1 ok2 all w e1 e2 h = rw (e1, e2) (accept-Has (assemble pack item) all w h)

  tick_turn :
      (ok : Bool) (all : List ℕ) (w : Writer)
      → ok ≡ true
      → Has all w
      → Has all (turn pack (tick ok) w)
  unfolding turn
  tick_turn ok all w e h = rw (e) (flush-empty w all h).0

  still_running :
      (e : Event D) (events : List (Event D)) (w : Writer)
      → (turn pack e w).running ≡ true
      → batch_write_loop pack (e ∷ events) w ≡ batch_write_loop pack events (turn pack e w)
  unfolding batch_write_loop
  still_running e events w alive = ground arith

  loop_from :
      (events : List (Event D)) (w : Writer) (all : List ℕ)
      → Has all w
      → All Succeeds events
      → ((batch_write_loop pack events w).written ++ (batch_write_loop pack events w).batch
          ≡ all ++ offered events)
        × (length (batch_write_loop pack events w).batch < batch_size)
  unfolding batch_write_loop offered Succeeds turn
  loop_from [] w all h good = (h.bytes ∙ sym (append-nil all), h.room)
  loop_from (done ok ∷ events) w all h good =
      rw (good.0) (append-nil (w.written ++ w.batch) ∙ h.bytes ∙ sym (append-nil all), omega arith)
  loop_from (message item ok1 ok2 ∷ events) w all h good =
      let next = message_turn item ok1 ok2 all w good.0.0 good.0.1 h in
      let rest = loop_from events (turn pack (message item ok1 ok2) w) _ next good.1 in
      rw (still_running (message item ok1 ok2) events w next.alive) (
        rest.0
            ∙ append_assoc all
                (elim (assemble pack item) [ none ↦ [] | some assembled ↦ assembled ])
                (offered events),
        rest.1,
      )
  loop_from (tick ok ∷ events) w all h good =
      let next = tick_turn ok all w good.0 h in
      rw (still_running (tick ok) events w next.alive)
        (loop_from events (turn pack (tick ok) w) all next good.1)

  -- Where every write succeeds, the loop, from a batch of less than 8192 bytes, hands the bytes of its
  -- messages to the socket in their order: what is written and then the batch is what was there before
  -- and then the bytes of the events, up to the end of the loop, none lost and none twice. The batch
  -- stays below 8192 bytes.
  pub batch_write_loop-keeps :
      (events : List (Event D)) (w : Writer)
      → w.running ≡ true
      → length w.batch < batch_size
      → All Succeeds events
      → ((batch_write_loop pack events w).written ++ (batch_write_loop pack events w).batch
          ≡ (w.written ++ w.batch) ++ offered events)
        × (length (batch_write_loop pack events w).batch < batch_size)
  batch_write_loop-keeps events w alive room good =
      loop_from events w (w.written ++ w.batch)
        (record { bytes = refl; room = room; alive = alive }) good
