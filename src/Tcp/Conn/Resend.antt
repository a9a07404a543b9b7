-- ===== src/Tcp/Conn/Resend.antt =====
-- network/tcp_net/conn.go: what ProcessPendingMessages puts in the send queue.
use mathlib.Core.List.{append-nil, append_assoc}
use yaice.Base.{
  ℕ, zero, suc, ◌-◌, ◌≡◌, refl, sym, ap, ◌∙◌, inl, inr, List, [], ◌∷◌, ◌++◌, arith, true, false,
}
use yaice.Base.Tests.{ltb, Bool-cases}
use yaice.Base.Lists.{length, take, length-append}
use yaice.Core.Protocol.{ServerProto}
use yaice.Tcp.Conn.{Conn, send_queue_size, try_enqueue, resend, process_pending_messages}

module _ {D : Type 0} where
  -- A connection with as many of the messages behind its queue as there is room for.
  abbrev pub queued : List (ServerProto D) → Conn D → Conn D
  queued messages c = record c {
    send_queue = c.send_queue ++ take (send_queue_size - length c.send_queue) messages;
  }

  queued-room :
      (room : ℕ) (msg : ServerProto D) (messages queue : List (ServerProto D))
      → room ≡ suc (send_queue_size - length (queue ++ (msg ∷ [])))
      → queue ++ take room (msg ∷ messages)
        ≡ (queue ++ (msg ∷ [])) ++ take (send_queue_size - length (queue ++ (msg ∷ []))) messages
  queued-room room msg messages queue e =
      ap (λ (k : ℕ). queue ++ take k (msg ∷ messages)) e ∙ sym (append_assoc queue (msg ∷ []) _)

  resend_free :
      (msg : ServerProto D) (messages : List (ServerProto D)) (c : Conn D)
      → ltb (length c.send_queue) send_queue_size ≡ true
      → resend (msg ∷ messages) c
        ≡ resend messages (record c { send_queue = c.send_queue ++ (msg ∷ []) })
  unfolding resend try_enqueue
  resend_free msg messages c free = rw (free, resend, try_enqueue) refl

  resend_full :
      (msg : ServerProto D) (messages : List (ServerProto D)) (c : Conn D)
      → ltb (length c.send_queue) send_queue_size ≡ false
      → resend (msg ∷ messages) c ≡ c
  unfolding resend try_enqueue
  resend_full msg messages c full = rw (full, resend, try_enqueue) refl

  -- Nothing is added where there is nothing to add or no room.
  queued_none :
      (messages : List (ServerProto D)) (c : Conn D) (room : ℕ)
      → take room messages ≡ []
      → record c { send_queue = c.send_queue ++ take room messages } ≡ c
  queued_none messages c room e =
      ap (λ (q : List (ServerProto D)). record c { send_queue = q })
        (ap (λ (q : List (ServerProto D)). c.send_queue ++ q) e ∙ append-nil c.send_queue)

  take-nil : (k : ℕ) → take {A = ServerProto D} k [] ≡ []
  take-nil zero = refl
  take-nil (suc k) = refl

  -- The pending messages go behind those in the send queue, in their order, as far as there is room, and
  -- nothing else changes.
  resend-queued :
      (messages : List (ServerProto D)) (c : Conn D) → resend messages c ≡ queued messages c
  unfolding resend
  resend-queued [] c = sym (queued_none [] c _ (take-nil _))
  resend-queued (msg ∷ messages) c =
      let longer = length-append c.send_queue (msg ∷ []) in
      elim (Bool-cases (ltb (length c.send_queue) send_queue_size)) [
        | inl free ↦
            let next = record c { send_queue = c.send_queue ++ (msg ∷ []) } in
            let room : send_queue_size - length c.send_queue
                ≡ suc (send_queue_size - length (c.send_queue ++ (msg ∷ []))) =
              ground (arith, longer, free) in
            resend_free msg messages c free
            ∙ resend-queued messages next
            ∙ ap (λ (q : List (ServerProto D)). record c { send_queue = q })
                (sym (
                  queued-room (send_queue_size - length c.send_queue) msg messages c.send_queue
                    room))
        | inr full ↦
            let room : send_queue_size - length c.send_queue ≡ 0 = ground (arith, full) in
            resend_full msg messages c full
            ∙ sym (queued_none (msg ∷ messages) c _ (ap (λ (k : ℕ). take k (msg ∷ messages)) room))
      ]

  pub process_pending_messages-queued :
      (c : Conn D) → process_pending_messages c ≡ queued c.pending_messages c
  unfolding process_pending_messages
  process_pending_messages-queued c = resend-queued c.pending_messages c
