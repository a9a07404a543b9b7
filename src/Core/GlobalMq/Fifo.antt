-- ===== src/Core/GlobalMq/Fifo.antt =====
-- core/global_mq.go: what becomes of the messages that are sent to the queue.
use mathlib.Core.List.{append_assoc}
use yaice.Base.{
  ℕ, suc, ◌+◌, ◌-◌, ◌≤◌, ◌<◌, ◌^◌, ◌≡◌, refl, sym, ap, ◌⊎◌, ◌∙◌, inl, inr, Bool, true, false, List,
  [], ◌∷◌, ◌++◌, Option, none, some, arith,
}
use yaice.Base.Tests.{ltb, Bool-cases}
use yaice.Base.Lists.{length, length-append}
use yaice.Base.Int.{ℤ, pos, ◌+ℤ◌, int64}
use yaice.Core.GlobalMq.{GlobalMessage, GlobalMq, send_to_global_queue, receive_message}
use yaice.Utils.Tool.{Run, returns, panics, blocks}

count_one : (n : ℕ) → n < 2 ^ 63 - 1 → int64 (pos n +ℤ pos 1) ≡ pos (suc n)
unfolding int64 ◌+ℤ◌
count_one n h = ground arith

-- What happens to the queue: a message is sent to it, or a worker takes one.
pub data Request (S : Type 0) : Type 0 where
  offer : S → Option (List ℕ) → ℤ → ℤ → ℤ → Request S
  take_one : Request S

-- The queue, with the messages it has accepted, those that the workers have taken, and the number of
-- messages offered.
pub record Log (S V : Type 0) : Type 0 where
  pub mq : GlobalMq S V
  pub received : List (GlobalMessage S)
  pub taken : List (GlobalMessage S)
  pub offered : ℕ

module _ {S : Type 0} where
  unfoldable pub message_of : S → Option (List ℕ) → ℤ → ℤ → ℤ → GlobalMessage S
  message_of conn content server_ack msg_id packet_type = record {
    packet_type = packet_type;
    msg_id = msg_id;
    content = content;
    server_ack = server_ack;
    connection = some conn;
  }

module _ {S V : Type 0} where
  unfoldable pub after_offer : GlobalMessage S → Run (GlobalMq S V × Bool) → Log S V → Log S V
  after_offer msg (returns (mq, true)) l = record l {
    mq = mq;
    received = l.received ++ (msg ∷ []);
    offered = suc l.offered;
  }
  after_offer msg (returns (mq, false)) l = record l { mq = mq; offered = suc l.offered }
  after_offer msg panics l = l
  after_offer msg blocks l = l

  unfoldable pub after_take : Option (GlobalMessage S × GlobalMq S V) → Log S V → Log S V
  after_take none l = l
  after_take (some (msg, mq)) l = record l { mq = mq; taken = l.taken ++ (msg ∷ []) }

  unfoldable pub request : Request S → Log S V → Log S V
  unfolding after_offer after_take
  request (offer conn content ack id kind) l =
      after_offer (message_of conn content ack id kind)
        (send_to_global_queue conn content ack id kind l.mq) l
  request take_one l = after_take (receive_message l.mq) l

  unfoldable pub requests : List (Request S) → Log S V → Log S V
  unfolding request
  requests [] l = l
  requests (r ∷ rs) l = requests rs (request r l)

  -- The workers have taken the first of the accepted messages in their order, the queue holds the rest
  -- and no more than its capacity, and every message offered was accepted or counted as dropped.
  pub record IsFifo (l : Log S V) : Type 0 where
    pub order : l.taken ++ l.mq.global_queue ≡ l.received
    pub bounded : length l.mq.global_queue ≤ l.mq.capacity
    pub dropped : ℕ
    pub dropped_msgs_eq : l.mq.dropped_msgs ≡ pos dropped
    pub counted : dropped + length l.received ≡ l.offered

  abbrev enqueue : GlobalMessage S → GlobalMq S V → GlobalMq S V
  enqueue msg mq = record mq { global_queue = mq.global_queue ++ (msg ∷ []) }

  abbrev drop_one : GlobalMq S V → GlobalMq S V
  drop_one mq = record mq { dropped_msgs = int64 (mq.dropped_msgs +ℤ pos 1) }

  send_cases :
      (conn : S) (content : Option (List ℕ)) (ack id kind : ℤ) (mq : GlobalMq S V)
      → (send_to_global_queue conn content ack id kind mq ≡ panics)
        ⊎ ((send_to_global_queue conn content ack id kind mq
              ≡ returns (enqueue (message_of conn content ack id kind) mq, true))
            × (length mq.global_queue < mq.capacity))
        ⊎ (send_to_global_queue conn content ack id kind mq ≡ returns (drop_one mq, false))
  unfolding send_to_global_queue message_of
  send_cases conn content ack id kind mq = elim (Bool-cases mq.closed) [
    | inl e ↦ inl (ground arith)
    | inr e ↦ elim (Bool-cases (ltb (length mq.global_queue) mq.capacity)) [
      | inl room ↦ inr (inl (ground arith, ground arith))
      | inr full ↦ inr (inr (ground arith))
    ]
  ]

  receive_cases :
      (mq : GlobalMq S V) (queue : List (GlobalMessage S))
      → mq.global_queue ≡ queue
      → (receive_message mq ≡ none)
        ⊎ ((msg : GlobalMessage S) × (rest : List (GlobalMessage S)) × (mq.global_queue
              ≡ msg ∷ rest)
            × (receive_message mq ≡ some (msg, record mq { global_queue = rest })))
  unfolding receive_message
  receive_cases mq [] e = inl (ground arith)
  receive_cases mq (msg ∷ rest) e = inr (msg, rest, e, ground arith)

  enqueue-IsFifo :
      (msg : GlobalMessage S) (l : Log S V)
      → length l.mq.global_queue < l.mq.capacity
      → IsFifo l
      → IsFifo (after_offer msg (returns (enqueue msg l.mq, true)) l)
  unfolding after_offer
  enqueue-IsFifo msg l room h =
      let longer = length-append l.mq.global_queue (msg ∷ []) in
      let longer' = length-append l.received (msg ∷ []) in
      let all = h.counted in
      record {
        order =
            sym (append_assoc l.taken l.mq.global_queue (msg ∷ []))
            ∙ ap (λ (xs : List (GlobalMessage S)). xs ++ (msg ∷ [])) h.order;
        bounded = omega arith;
        dropped = h.dropped;
        dropped_msgs_eq = h.dropped_msgs_eq;
        counted = omega arith;
      }

  drop-IsFifo :
      (msg : GlobalMessage S) (l : Log S V)
      → l.offered < 2 ^ 63 - 1
      → IsFifo l
      → IsFifo (after_offer msg (returns (drop_one l.mq, false)) l)
  unfolding after_offer
  drop-IsFifo msg l room h =
      let all = h.counted in
      record {
        order = h.order;
        bounded = h.bounded;
        dropped = suc h.dropped;
        dropped_msgs_eq =
            ap (λ (n : ℤ). int64 (n +ℤ pos 1)) h.dropped_msgs_eq
            ∙ count_one h.dropped (omega arith);
        counted = omega arith;
      }

  take-IsFifo :
      (msg : GlobalMessage S) (rest : List (GlobalMessage S)) (l : Log S V)
      → l.mq.global_queue ≡ msg ∷ rest
      → IsFifo l
      → IsFifo (after_take (some (msg, record l.mq { global_queue = rest })) l)
  unfolding after_take
  take-IsFifo msg rest l e h =
      let shorter = ap length e in
      let le = h.bounded in
      record {
        order =
            append_assoc l.taken (msg ∷ []) rest
            ∙ ap (λ (xs : List (GlobalMessage S)). l.taken ++ xs) (sym e)
            ∙ h.order;
        bounded = omega arith;
        dropped = h.dropped;
        dropped_msgs_eq = h.dropped_msgs_eq;
        counted = h.counted;
      }

  request-IsFifo :
      (r : Request S) (l : Log S V)
      → l.offered < 2 ^ 63 - 1
      → IsFifo l
      → IsFifo (request r l) × ((request r l).offered ≤ suc l.offered)
  unfolding request after_offer after_take
  request-IsFifo (offer conn content ack id kind) l room h =
      elim (send_cases conn content ack id kind l.mq) [
        | inl e ↦ rw (e) (h, omega arith)
        | inr (inl (e, free)) ↦ rw (e) (enqueue-IsFifo _ l free h, omega arith)
        | inr (inr e) ↦
            rw (e) (drop-IsFifo (message_of conn content ack id kind) l room h, omega arith)
      ]
  request-IsFifo take_one l room h = elim (receive_cases l.mq l.mq.global_queue refl) [
    | inl e ↦ rw (e) (h, omega arith)
    | inr (msg, rest, e, e2) ↦ rw (e2) (take-IsFifo msg rest l e h, omega arith)
  ]

  -- From a log in order, fewer than 2^63 sends and receives in any order leave a log in order: the
  -- workers have taken the first of the accepted messages in the order in which they were sent, the
  -- queue holds the others and no more than its capacity, and each message offered to an open queue
  -- was accepted or counted as dropped.
  pub requests-IsFifo :
      (rs : List (Request S)) (l : Log S V)
      → length rs + l.offered < 2 ^ 63
      → IsFifo l
      → IsFifo (requests rs l)
  unfolding requests
  requests-IsFifo [] l room h = h
  requests-IsFifo (r ∷ rs) l room h =
      let next = request-IsFifo r l (omega arith) h in
      let le = next.1 in requests-IsFifo rs (request r l) (omega arith) next.0
