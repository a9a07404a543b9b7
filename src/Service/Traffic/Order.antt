-- ===== src/Service/Traffic/Order.antt =====
-- service.go, core/global_mq.go and network/tcp_net/conn.go: one worker handles logic messages in the order
-- in which the queue took them, and no connection loses what its client has not acknowledged.
use mathlib.Core.Path.{subst}
use mathlib.Core.List.{append_assoc, append-nil}
use yaice.Base.{
  ℕ, ◌≤◌, ◌<◌, ◌^◌, ◌≡◌, refl, sym, ap, ap₂, ◌∙◌, inl, inr, List, [], ◌∷◌, ◌++◌, Option, none, some,
  arith,
}
use yaice.Base.Tests.{ltb, if◌then◌else◌}
use yaice.Base.Lists.{length, All}
use yaice.Base.Int.{ℤ}
use yaice.Core.Protocol.{logic}
use yaice.Core.GlobalMq.{
  GlobalMessage, GlobalMq, Turn, goes_on, ends, recovers, receive, send_to_global_queue,
  worker_turn, recover_turn,
}
use yaice.Service.Traffic.{
  Traffic, TrafficEvent, arrives, works, pushes, push, after_turn, happen, happen_all,
}
use yaice.Service.Traffic.Delivery.{IsTracked, push-IsTracked, length-push-le}
use yaice.Service.Traffic.Calls.{worker_turn_empty, worker_turn-AreCalls}
use yaice.Service.Traffic.Acks.{
  IsLogic, queued_acks, acks_of, queued_acks-append, queued_first, IsServing, logic_message,
  send_logic, after_room-IsServing,
}
use yaice.Service.Traffic.Answers.{
  push_fields, length-after_send-le, length-perform_all-le, perform_all-Answers,
}

module _ {D V : Type 0} where
  -- What some steps keep: no goroutine is lost, and the acknowledgements that are handled and then those in
  -- the queue are as before, with those that arrived behind them.
  pub record Keeps (arrived : List (ℤ × ℤ)) (t t' : Traffic D V) : Type 0 where
    pub serving : IsServing t'.mq
    pub tracked : IsTracked t'
    pub none_lost : t'.lost ≡ t.lost
    pub in_order :
        acks_of t'.changes ++ queued_acks t'.mq.global_queue
        ≡ (acks_of t.changes ++ queued_acks t.mq.global_queue) ++ arrived

module _ {D V : Type 0} (replies : ℤ → V → List ℕ → List D) where
  -- The worker that takes a logic message handles it.
  works-Keeps :
      (now later : ℕ) (t : Traffic D V) (queue : List (GlobalMessage ℤ))
      → t.mq.global_queue ≡ queue
      → length (happen replies (works now later) t).changes < 2 ^ 63
      → IsServing t.mq
      → IsTracked t
      → Keeps [] t (happen replies (works now later) t)
  unfolding happen worker_turn recover_turn
  works-Keeps now later t [] e room s h =
      let idle =
        worker_turn_empty (λ k. (t.conns k).player_guid) now later t.mq t.entities e s.opened in
      subst (Keeps [] t) (sym (ap (λ (x : Option (Turn ℤ V)). after_turn replies x t) idle))
        (record { serving = s; tracked = h; none_lost = refl; in_order = sym (append-nil _) })
  works-Keeps now later t (msg ∷ queue) e room s h =
      let ((kind, (k, there)), others) = subst (All IsLogic) e s.queued in
      let (handled, turn, mq, calls) =
        worker_turn-AreCalls (λ j. (t.conns j).player_guid) now later msg k queue t.mq t.entities e
          kind there s.handles in
      let u = record t { mq = handled.mq; entities = handled.entities } in
      let q = ap (λ (x : Option (Turn ℤ V)). after_turn replies x t) turn in
      let room' = subst (λ (x : Traffic D V). length x.changes < 2 ^ 63) q room in
      let (kept, mq', lost, acks) =
        perform_all-Answers replies msg k handled.calls u calls there room' h in
      subst (Keeps [] t) (sym q) (record {
        serving = subst IsServing (sym (mq' ∙ mq)) (record {
          opened = s.opened;
          one_worker = s.one_worker;
          handles = s.handles;
          queued = others;
        });
        tracked = kept;
        none_lost = lost;
        in_order =
            ap₂ ◌++◌ acks (ap (λ (m : GlobalMq ℤ V). queued_acks m.global_queue) (mq' ∙ mq))
            ∙ append_assoc (acks_of t.changes) ((k, msg.server_ack) ∷ []) (queued_acks queue)
            ∙ ap (λ (xs : List (ℤ × ℤ)). acks_of t.changes ++ xs)
                (sym (ap queued_acks e ∙ queued_first msg k queue there))
            ∙ sym (append-nil _);
      })

  pushes-Keeps :
      (k : ℤ) (content : D) (t : Traffic D V)
      → length (push k content t).changes < 2 ^ 63
      → IsServing t.mq
      → IsTracked t
      → Keeps [] t (push k content t)
  pushes-Keeps k content t room s h =
      let (mq, lost, acks) = push_fields k content t in
      record {
        serving = subst IsServing (sym mq) s;
        tracked = push-IsTracked k content t room h;
        none_lost = lost;
        in_order =
            ap₂ ◌++◌ acks (ap (λ (m : GlobalMq ℤ V). queued_acks m.global_queue) mq)
            ∙ sym (append-nil _);
      }

  -- The acknowledgement of a message that finds room in the queue.
  abbrev pub accepted_ack : TrafficEvent D → Traffic D V → List (ℤ × ℤ)
  accepted_ack (arrives k content ack id) t =
      if ltb (length t.mq.global_queue) t.mq.capacity then (k, ack) ∷ [] else []
  accepted_ack (works now later) t = []
  accepted_ack (pushes k content) t = []

  abbrev pub accepted_acks : List (TrafficEvent D) → Traffic D V → List (ℤ × ℤ)
  accepted_acks [] t = []
  accepted_acks (e ∷ events) t = accepted_ack e t ++ accepted_acks events (happen replies e t)

  arrives-Keeps :
      (k : ℤ) (content : Option (List ℕ)) (ack id : ℤ) (t : Traffic D V)
      → IsServing t.mq
      → IsTracked t
      → Keeps
          (accepted_ack (arrives k content ack id) t)
          t
          (happen replies (arrives k content ack id) t)
  unfolding happen
  arrives-Keeps k content ack id t s h = elim (send_logic k content ack id t.mq s.opened) [
    | inl (room, e) ↦
        rw (room, e)
          (record {
            serving = after_room-IsServing k content ack id t.mq s;
            tracked = h;
            none_lost = refl;
            in_order =
                ap (λ (xs : List (ℤ × ℤ)). acks_of t.changes ++ xs)
                  (queued_acks-append t.mq.global_queue (logic_message k content ack id ∷ []))
                ∙ sym (
                    append_assoc (acks_of t.changes) (queued_acks t.mq.global_queue)
                      ((k, ack) ∷ []));
          })
    | inr (full, e) ↦
        rw (full, e)
          (record {
            serving = record {
              opened = s.opened;
              one_worker = s.one_worker;
              handles = s.handles;
              queued = s.queued;
            };
            tracked = h;
            none_lost = refl;
            in_order = sym (append-nil _);
          })
  ]

  happen-Keeps :
      (e : TrafficEvent D) (t : Traffic D V)
      → length (happen replies e t).changes < 2 ^ 63
      → IsServing t.mq
      → IsTracked t
      → Keeps (accepted_ack e t) t (happen replies e t)
  unfolding happen
  happen-Keeps (arrives k content ack id) t room s h = arrives-Keeps k content ack id t s h
  happen-Keeps (works now later) t room s h =
      works-Keeps now later t t.mq.global_queue refl room s h
  happen-Keeps (pushes k content) t room s h = pushes-Keeps k content t room s h

  length-after_turn-le :
      (turn : Option (Turn ℤ V)) (t : Traffic D V)
      → length t.changes ≤ length (after_turn replies turn t).changes
  unfolding after_turn
  length-after_turn-le none t = omega arith
  length-after_turn-le (some (goes_on h)) t =
      length-perform_all-le replies h.calls (record t { mq = h.mq; entities = h.entities })
  length-after_turn-le (some ends) t = omega arith
  length-after_turn-le (some recovers) t = omega arith

  length-happen-le :
      (e : TrafficEvent D) (t : Traffic D V)
      → length t.changes ≤ length (happen replies e t).changes
  unfolding happen
  length-happen-le (arrives k content ack id) t =
      length-after_send-le (send_to_global_queue k content ack id logic t.mq) t
  length-happen-le (works now later) t =
      length-after_turn-le
        (worker_turn (λ k. (t.conns k).player_guid) receive now later t.mq t.entities) t
  length-happen-le (pushes k content) t = length-push-le k content t

  length-happen_all-le :
      (events : List (TrafficEvent D)) (t : Traffic D V)
      → length t.changes ≤ length (happen_all replies events t).changes
  unfolding happen_all
  length-happen_all-le [] t = omega arith
  length-happen_all-le (e ∷ events) t =
      omega (arith, length-happen-le e t, length-happen_all-le events (happen replies e t))

  -- Where the queue is open, has one worker, holds logic messages and has their handler, and each
  -- connection keeps what it was given and is not acknowledged, then while logic messages arrive, the
  -- worker takes and handles them and the application sends, one after the other in any order, with
  -- fewer than 2^63 changes of connections in all: no goroutine is lost; the acknowledgements that are
  -- handled, and then those still in the queue, are those of the accepted messages of all connections,
  -- each once and in their order; and each connection keeps exactly the messages given to it that its
  -- client has not acknowledged.
  pub happen_all-Keeps :
      (events : List (TrafficEvent D)) (t : Traffic D V)
      → length (happen_all replies events t).changes < 2 ^ 63
      → IsServing t.mq
      → IsTracked t
      → Keeps (accepted_acks events t) t (happen_all replies events t)
  unfolding happen_all
  happen_all-Keeps [] t room s h = record {
    serving = s;
    tracked = h;
    none_lost = refl;
    in_order = sym (append-nil _);
  }
  happen_all-Keeps (e ∷ events) t room s h =
      let next = happen replies e t in
      let longer = length-happen_all-le events next in
      let once = happen-Keeps e t (omega arith) s h in
      let later = happen_all-Keeps events next room once.serving once.tracked in
      record {
        serving = later.serving;
        tracked = later.tracked;
        none_lost = later.none_lost ∙ once.none_lost;
        in_order =
            later.in_order
            ∙ ap (λ (xs : List (ℤ × ℤ)). xs ++ accepted_acks events next) once.in_order
            ∙ append_assoc _ (accepted_ack e t) (accepted_acks events next);
      }
