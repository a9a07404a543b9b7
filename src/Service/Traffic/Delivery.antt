-- ===== src/Service/Traffic/Delivery.antt =====
-- service.go, core/global_mq.go and network/tcp_net/conn.go: what the connections keep while logic
-- messages and replies go to and fro.
use mathlib.Core.Path.{subst}
use mathlib.Core.List.{append-nil}
use yaice.Base.{
  ℕ, suc, ◌+◌, ◌≤◌, ◌<◌, ◌^◌, ◌≡◌, refl, sym, ap, ◌∙◌, true, false, List, [], ◌∷◌, ◌++◌, ite,
  if_pos, if_neg, arith,
}
use yaice.Base.Tests.{if_cases}
use yaice.Base.Lists.{length, length-append}
use yaice.Base.Int.{ℤ, ℤ_discrete}
use yaice.Core.Protocol.{ServerProto}
use yaice.Tcp.Conn.{Conn, async_send, make_message}
use yaice.Tcp.Conn.Delivery.{Tracks, acknowledge, async_send-Tracks}
use yaice.Service.Handlers.{handle_logic_message}
use yaice.Service.Tokens.{handle_logic_message-Tracks}
use yaice.Service.Traffic.{Change, given, acked, Traffic, set_conn, note, push, push_all}
use yaice.Utils.Tool.{returns}

module _ {D : Type 0} where
  -- The messages given for a client and the number that the client has, after some changes.
  abbrev pub replay : List (Change D) → List (ServerProto D) → ℕ → List (ServerProto D) × ℕ
  replay [] h n = (h, n)
  replay (given m ∷ changes) h n = replay changes (h ++ (m ∷ [])) n
  replay (acked a ∷ changes) h n = replay changes h (acknowledge a n (length h))

  -- The changes of one connection.
  abbrev pub own : ℤ → List (ℤ × Change D) → List (Change D)
  own k [] = []
  own k (e ∷ changes) = ite (ℤ_discrete k e.0) (e.1 ∷ own k changes) (own k changes)

  abbrev pub history : ℤ → List (ℤ × Change D) → List (ServerProto D) × ℕ
  history k changes = replay (own k changes) [] 0

  own_last :
      (k j : ℤ) (change : Change D) (changes : List (ℤ × Change D))
      → own k (changes ++ ((j, change) ∷ []))
        ≡ own k changes ++ ite (ℤ_discrete k j) (change ∷ []) []
  own_last k j change [] = refl
  own_last k j change (e ∷ changes) = ground (arith, own_last k j change changes)

  length-own-le : (k : ℤ) (changes : List (ℤ × Change D)) → length (own k changes) ≤ length changes
  length-own-le k [] = omega arith
  length-own-le k (e ∷ changes) = ground (arith, length-own-le k changes)

  replay-append :
      (xs ys : List (Change D)) (h : List (ServerProto D)) (n : ℕ)
      → replay (xs ++ ys) h n ≡ replay ys (replay xs h n).0 (replay xs h n).1
  replay-append [] ys h n = refl
  replay-append (given m ∷ xs) ys h n = replay-append xs ys (h ++ (m ∷ [])) n
  replay-append (acked a ∷ xs) ys h n = replay-append xs ys h (acknowledge a n (length h))

  length-replay-le :
      (xs : List (Change D)) (h : List (ServerProto D)) (n : ℕ)
      → length (replay xs h n).0 ≤ length xs + length h
  length-replay-le [] h n = omega arith
  length-replay-le (given m ∷ xs) h n =
      omega (arith, length-replay-le xs (h ++ (m ∷ [])) n, length-append h (m ∷ []))
  length-replay-le (acked a ∷ xs) h n =
      omega (arith, length-replay-le xs h (acknowledge a n (length h)))

  length-history-le :
      (k : ℤ) (changes : List (ℤ × Change D)) → length (history k changes).0 ≤ length changes
  length-history-le k changes =
      omega (arith, length-replay-le (own k changes) [] 0, length-own-le k changes)

  -- The history after one more change.
  history_same :
      (k : ℤ) (change : Change D) (changes : List (ℤ × Change D))
      → history k (changes ++ ((k, change) ∷ []))
        ≡ replay (change ∷ []) (history k changes).0 (history k changes).1
  history_same k change changes =
      ap (λ (xs : List (Change D)). replay xs [] 0)
        (own_last k k change changes
          ∙ ap (λ (xs : List (Change D)). own k changes ++ xs) (if_pos (ℤ_discrete k k) refl _ _))
      ∙ replay-append (own k changes) (change ∷ []) [] 0

  history_other :
      (k j : ℤ) (change : Change D) (changes : List (ℤ × Change D))
      → (k ≡ j → ⊥)
      → history k (changes ++ ((j, change) ∷ [])) ≡ history k changes
  history_other k j change changes apart =
      ap (λ (xs : List (Change D)). replay xs [] 0)
        (own_last k j change changes
          ∙ ap (λ (xs : List (Change D)). own k changes ++ xs) (if_neg (ℤ_discrete k j) apart _ _)
          ∙ append-nil (own k changes))

  closed_lem : (content : D) (c : Conn D) → c.is_closed ≡ true → (async_send content c).0 ≡ c
  unfolding async_send
  closed_lem content c shut = ground arith

module _ {D V : Type 0} where
  -- Each connection keeps exactly the messages that were given to it and are not acknowledged.
  abbrev pub IsTracked : Traffic D V → Type 0
  IsTracked t = (k : ℤ) → Tracks (history k t.changes).0 (history k t.changes).1 (t.conns k)

  set_conn-IsTracked :
      (k : ℤ) (change : Change D) (c : Conn D) (t : Traffic D V)
      → IsTracked t
      → (let s = replay (change ∷ []) (history k t.changes).0 (history k t.changes).1 in
          Tracks s.0 s.1 c)
      → IsTracked (note k change (set_conn k c t))
  set_conn-IsTracked k change c t h here j = elim (ℤ_discrete j k) [
    | yes same ↦
        rw (same, if_pos (ℤ_discrete k k) refl c (t.conns k))
          (subst (λ (s : List (ServerProto D) × ℕ). Tracks s.0 s.1 c)
            (sym (history_same k change t.changes)) here)
    | no apart ↦ rw (if_neg (ℤ_discrete j k) apart) (
        subst (λ (s : List (ServerProto D) × ℕ). Tracks s.0 s.1 (t.conns j))
          (sym (history_other j k change t.changes apart)) (h j))
  ]

  -- A connection that is put in its own place.
  same_conn-IsTracked :
      (k : ℤ) (c : Conn D) (t : Traffic D V)
      → t.conns k ≡ c
      → IsTracked t
      → IsTracked (set_conn k c t)
  same_conn-IsTracked k c t e h j = elim (ℤ_discrete j k) [
    | yes same ↦ rw (same, if_pos (ℤ_discrete k k) refl c (t.conns k)) (subst (Tracks _ _) e (h k))
    | no apart ↦ rw (if_neg (ℤ_discrete j k) apart) (h j)
  ]

  opened_length :
      (k : ℤ) (content : D) (t : Traffic D V)
      → (t.conns k).is_closed ≡ false
      → length (push k content t).changes ≡ suc (length t.changes)
  unfolding push
  opened_length k content t opened =
      ground (arith, length-append t.changes ((k, given (make_message content (t.conns k))) ∷ []))

  pub length-push-le :
      (k : ℤ) (content : D) (t : Traffic D V) → length t.changes ≤ length (push k content t).changes
  unfolding push
  length-push-le k content t =
      ground (arith, length-append t.changes ((k, given (make_message content (t.conns k))) ∷ []))

  pub length-push_all-le :
      (k : ℤ) (contents : List D) (t : Traffic D V)
      → length t.changes ≤ length (push_all k contents t).changes
  unfolding push_all
  length-push_all-le k [] t = omega arith
  length-push_all-le k (content ∷ contents) t =
      omega (arith, length-push-le k content t, length-push_all-le k contents (push k content t))

  pub push-IsTracked :
      (k : ℤ) (content : D) (t : Traffic D V)
      → length (push k content t).changes < 2 ^ 63
      → IsTracked t
      → IsTracked (push k content t)
  unfolding push
  push-IsTracked k content t room h =
      let c = t.conns k in
      if_cases IsTracked c.is_closed _ _
        (λ shut. same_conn-IsTracked k _ t (sym (closed_lem content c shut)) h)
        (λ opened.
          set_conn-IsTracked k (given (make_message content c)) (async_send content c).0 t h (
            async_send-Tracks content c _ _ opened
              (omega (arith, opened_length k content t opened, length-history-le k t.changes))
              (h k)))

  pub push_all-IsTracked :
      (k : ℤ) (contents : List D) (t : Traffic D V)
      → length (push_all k contents t).changes < 2 ^ 63
      → IsTracked t
      → IsTracked (push_all k contents t)
  unfolding push_all
  push_all-IsTracked k [] t room h = h
  push_all-IsTracked k (content ∷ contents) t room h =
      let next = push k content t in
      let longer = length-push_all-le k contents next in
      push_all-IsTracked k contents next room (push-IsTracked k content t (omega arith) h)

  -- A logic message of a connection that keeps what it should is handled, and drops what it acknowledges.
  pub handle_logic_message-IsTracked :
      (k ack : ℤ) (t : Traffic D V)
      → IsTracked t
      → (c : Conn D) × (handle_logic_message ack (t.conns k) ≡ returns c)
        × IsTracked (note k (acked ack) (set_conn k c t))
  handle_logic_message-IsTracked k ack t h =
      let (c, e, kept) = handle_logic_message-Tracks ack (t.conns k) _ _ (h k) in
      (c, e, set_conn-IsTracked k (acked ack) c t h kept)
