-- ===== src/Service/Traffic/Answers.antt =====
-- service.go and network/tcp_net/conn.go: what the calls of a worker do to the connections.
use mathlib.Core.List.{append-nil}
use yaice.Base.{ℕ, ◌≤◌, ◌<◌, ◌^◌, ◌≡◌, refl, ◌∙◌, inl, inr, Bool, List, [], ◌∷◌, ◌++◌, some, arith}
use yaice.Base.Tests.{Option-cases, if_cases}
use yaice.Base.Lists.{length, length-append}
use yaice.Base.Int.{ℤ}
use yaice.Core.GlobalMq.{GlobalMessage, GlobalMq, Call, event_call, logic_call}
use yaice.Tcp.Conn.{Conn, make_message}
use yaice.Service.Traffic.{
  given, acked, Traffic, push, push_all, after_logic, after_send, perform, perform_all,
}
use yaice.Service.Traffic.Delivery.{
  IsTracked, push_all-IsTracked, length-push_all-le, handle_logic_message-IsTracked,
}
use yaice.Service.Traffic.Calls.{AreCalls, no_handler, handler}
use yaice.Utils.Tool.{Run, returns, panics, blocks}
use yaice.Service.Traffic.Acks.{acks_of, acks_of-append}

module _ {D V : Type 0} where
  pub push_fields :
      (k : ℤ) (content : D) (t : Traffic D V)
      → ((push k content t).mq ≡ t.mq)
        × ((push k content t).lost ≡ t.lost)
        × (acks_of (push k content t).changes ≡ acks_of t.changes)
  unfolding push
  push_fields k content t =
      let m = make_message content (t.conns k) in
      let same = acks_of-append t.changes ((k, given m) ∷ []) ∙ append-nil (acks_of t.changes) in
      if_cases
        (λ (x : Traffic D V).
          (x.mq ≡ t.mq) × (x.lost ≡ t.lost) × (acks_of x.changes ≡ acks_of t.changes))
        (t.conns k).is_closed _ _ (λ e. (refl, refl, refl)) (λ e. (refl, refl, same))

  push_all_fields :
      (k : ℤ) (contents : List D) (t : Traffic D V)
      → ((push_all k contents t).mq ≡ t.mq)
        × ((push_all k contents t).lost ≡ t.lost)
        × (acks_of (push_all k contents t).changes ≡ acks_of t.changes)
  unfolding push_all
  push_all_fields k [] t = (refl, refl, refl)
  push_all_fields k (content ∷ contents) t =
      let (mq, lost, acks) = push_fields k content t in
      let (mq', lost', acks') = push_all_fields k contents (push k content t) in
      (mq' ∙ mq, lost' ∙ lost, acks' ∙ acks)

  pub length-after_send-le :
      (r : Run (GlobalMq ℤ V × Bool)) (t : Traffic D V)
      → length t.changes ≤ length (after_send r t).changes
  unfolding after_send
  length-after_send-le (returns r) t = omega arith
  length-after_send-le panics t = omega arith
  length-after_send-le blocks t = omega arith

  length-after_logic-le :
      (k ack : ℤ) (r : Run (Conn D)) (t : Traffic D V)
      → length t.changes ≤ length (after_logic k ack r t).changes
  unfolding after_logic
  length-after_logic-le k ack (returns c) t =
      omega (arith, length-append t.changes ((k, acked ack) ∷ []))
  length-after_logic-le k ack panics t = omega arith
  length-after_logic-le k ack blocks t = omega arith

  -- What the calls for a logic message do: its acknowledgement is handled, and nothing else.
  abbrev pub Answers : ℤ → ℤ → Traffic D V → Traffic D V → Type 0
  Answers k ack t u =
      IsTracked u
      × (u.mq ≡ t.mq)
      × (u.lost ≡ t.lost)
      × (acks_of u.changes ≡ acks_of t.changes ++ ((k, ack) ∷ []))

  push_all-Answers :
      (k ack : ℤ) (contents : List D) (t u : Traffic D V)
      → length (push_all k contents u).changes < 2 ^ 63
      → Answers k ack t u
      → Answers k ack t (push_all k contents u)
  push_all-Answers k ack contents t u room (h, mq, lost, acks) =
      let (mq', lost', acks') = push_all_fields k contents u in
      (push_all-IsTracked k contents u room h, mq' ∙ mq, lost' ∙ lost, acks' ∙ acks)

module _ {D V : Type 0} (replies : ℤ → V → List ℕ → List D) where
  length-perform-le :
      (call : Call ℤ V) (t : Traffic D V)
      → length t.changes ≤ length (perform replies call t).changes
  unfolding perform
  length-perform-le (event_call msg) t = elim (Option-cases msg.connection) [
    | inl e ↦ rw e (omega arith)
    | inr (k, e) ↦ rw e (length-after_logic-le k msg.server_ack _ t)
  ]
  length-perform-le (logic_call id k entity content) t =
      length-push_all-le k (replies id entity content) t

  pub length-perform_all-le :
      (calls : List (Call ℤ V)) (t : Traffic D V)
      → length t.changes ≤ length (perform_all replies calls t).changes
  unfolding perform_all
  length-perform_all-le [] t = omega arith
  length-perform_all-le (call ∷ calls) t =
      omega (arith, length-perform-le call t, length-perform_all-le calls (perform replies call t))

  perform-Answers :
      (msg : GlobalMessage ℤ) (k : ℤ) (t : Traffic D V)
      → msg.connection ≡ some k
      → IsTracked t
      → Answers k msg.server_ack t (perform replies (event_call msg) t)
  unfolding perform after_logic
  perform-Answers msg k t there h =
      let (c, e, kept) = handle_logic_message-IsTracked k msg.server_ack t h in
      let acks = acks_of-append t.changes ((k, acked msg.server_ack) ∷ []) in
      rw (there, e) (kept, refl, refl, acks)

  pub perform_all-Answers :
      (msg : GlobalMessage ℤ) (k : ℤ) (calls : List (Call ℤ V)) (t : Traffic D V)
      → AreCalls msg k calls
      → msg.connection ≡ some k
      → length (perform_all replies calls t).changes < 2 ^ 63
      → IsTracked t
      → Answers k msg.server_ack t (perform_all replies calls t)
  unfolding perform_all
  perform_all-Answers msg k calls t no_handler there room h = perform-Answers msg k t there h
  perform_all-Answers msg k calls t (handler entity content) there room h =
      push_all-Answers k msg.server_ack (replies msg.msg_id entity content) t
        (perform replies (event_call msg) t) room (perform-Answers msg k t there h)
