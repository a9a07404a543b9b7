-- ===== src/Tcp/Conn/Delivery.antt =====
-- network/tcp_net/conn.go: which messages a connection keeps until the client has them. The history h is
-- every message given to `AsyncSend`, the first one first.
use yaice.Base.{
  ℕ, suc, ◌-◌, ◌≤◌, ◌<◌, ◌^◌, ◌≡◌, sym, ap, ap₂, ◌∙◌, true, false, ◌&&◌, List, [], ◌∷◌, ◌++◌, arith,
  inl, inr,
}
use mathlib.Core.Path.{subst}
use yaice.Base.Tests.{ltb, leb, if◌then◌else◌, Bool-cases}
use yaice.Base.Lists.{length, drop, length-append, length-drop, drop-append_le, drop-drop}
use yaice.Base.Int.{ℤ, pos, negsuc, ◌+ℤ◌, ◌-ℤ◌, ltb_ℤ, leb_ℤ, int64}
use yaice.Core.Protocol.{ServerProto}
use yaice.Tcp.Conn.{
  Conn, async_send, make_message, update_server_ack, slice_from, try_enqueue,
  inc_has_been_send_count, push_to_pending_messages,
}
use yaice.Utils.Tool.{returns}

count_suc : (n : ℕ) → n < 2 ^ 63 - 1 → int64 (pos n +ℤ pos 1) ≡ pos (suc n)
unfolding int64 ◌+ℤ◌
count_suc n h = ground arith

-- The number of messages the client has had, of `all` sent, once the acknowledgement is seen.
abbrev pub acknowledge : ℤ → ℕ → ℕ → ℕ
acknowledge (negsuc k) n all = n
acknowledge (pos k) n all = if ltb n k && leb k all then k else n

acknowledge-true : (k n all : ℕ) → (ltb n k && leb k all) ≡ true → acknowledge (pos k) n all ≡ k
acknowledge-true k n all e = ground arith

acknowledge-false : (k n all : ℕ) → (ltb n k && leb k all) ≡ false → acknowledge (pos k) n all ≡ n
acknowledge-false k n all e = ground arith

guard_of :
    (k n all : ℕ) (count ack : ℤ)
    → count ≡ pos all
    → ack ≡ pos n
    → (leb_ℤ (pos k) count && ltb_ℤ ack (pos k)) ≡ (ltb n k && leb k all)
guard_of k n all count ack e1 e2 = ground arith

guard_negative :
    (k n : ℕ) (count ack : ℤ)
    → ack ≡ pos n
    → (leb_ℤ (negsuc k) count && ltb_ℤ ack (negsuc k)) ≡ false
guard_negative k n count ack e = ground arith

guard_le : (n k all : ℕ) → (ltb n k && leb k all) ≡ true → (n < k) × (k ≤ all)
guard_le n k all e = ground arith

gap_of :
    (k n all : ℕ) (ack : ℤ)
    → ack ≡ pos n
    → n < k
    → k ≤ all
    → all < 2 ^ 63
    → int64 (pos k -ℤ ack) ≡ pos (k - n)
unfolding int64 ◌-ℤ◌
gap_of k n all ack e lt le small = ground arith

module _ {D : Type 0} where
  -- Of the messages h, the client has acknowledged the first n, and the connection keeps the others.
  pub record Tracks (h : List (ServerProto D)) (n : ℕ) (c : Conn D) : Type 0 where
    pub acknowledged : n ≤ length h
    pub small : length h < 2 ^ 63
    pub pending : c.pending_messages ≡ drop n h
    pub ack : c.server_ack ≡ pos n
    pub count : c.has_been_sent_num ≡ pos (length h)

  async_send_fields :
      (content : D) (c : Conn D)
      → c.is_closed ≡ false
      → ((async_send content c).0.pending_messages
          ≡ c.pending_messages ++ (make_message content c ∷ []))
        × ((async_send content c).0.server_ack ≡ c.server_ack)
        × ((async_send content c).0.has_been_sent_num ≡ int64 (c.has_been_sent_num +ℤ pos 1))
  unfolding async_send push_to_pending_messages inc_has_been_send_count try_enqueue
  async_send_fields content c opened = ground arith

  -- An open connection that has not sent 2^63 - 1 messages keeps each message it is given, also one
  -- that finds the send queue full and is answered with an error.
  pub async_send-Tracks :
      (content : D) (c : Conn D) (h : List (ServerProto D)) (n : ℕ)
      → c.is_closed ≡ false
      → length h < 2 ^ 63 - 1
      → Tracks h n c
      → Tracks (h ++ (make_message content c ∷ [])) n (async_send content c).0
  async_send-Tracks content c h n opened room t =
      let f = async_send_fields content c opened in
      let msg = make_message content c in
      let longer = length-append h (msg ∷ []) in
      let t_le = t.acknowledged in
      record {
        acknowledged = omega arith;
        small = omega arith;
        pending =
            f.0
            ∙ ap (λ (xs : List (ServerProto D)). xs ++ (msg ∷ [])) t.pending
            ∙ sym (drop-append_le n h (msg ∷ []) t_le);
        ack = f.1 ∙ t.ack;
        count =
            f.2
            ∙ ap (λ (a : ℤ). int64 (a +ℤ pos 1)) t.count
            ∙ count_suc (length h) room
            ∙ ap pos (omega arith);
      }

  update_skipped :
      (ack : ℤ) (c : Conn D)
      → (leb_ℤ ack c.has_been_sent_num && ltb_ℤ c.server_ack ack) ≡ false
      → update_server_ack ack c ≡ returns c
  unfolding update_server_ack
  update_skipped ack c e = ground arith

  update_done :
      (ack : ℤ) (c : Conn D) (d : ℕ)
      → (leb_ℤ ack c.has_been_sent_num && ltb_ℤ c.server_ack ack) ≡ true
      → int64 (ack -ℤ c.server_ack) ≡ pos d
      → d ≤ length c.pending_messages
      → update_server_ack ack c
        ≡ returns (record c { pending_messages = drop d c.pending_messages; server_ack = ack })
  unfolding update_server_ack slice_from
  update_done ack c d e e2 le = ground arith

  pub update_server_ack-Tracks :
      (ack : ℤ) (c : Conn D) (h : List (ServerProto D)) (n : ℕ)
      → Tracks h n c
      → (c' : Conn D) × (update_server_ack ack c ≡ returns c')
        × Tracks h (acknowledge ack n (length h)) c'
  update_server_ack-Tracks (negsuc k) c h n t =
      (c, update_skipped (negsuc k) c (guard_negative k n _ _ t.ack), t)
  update_server_ack-Tracks (pos k) c h n t = elim (Bool-cases (ltb n k && leb k (length h))) [
    | inl e ↦
        let kept = length-drop n h in
        let as_kept = ap length t.pending in
        let le = t.acknowledged in
        let small = t.small in
        let in_range = guard_le n k (length h) e in
        let acked = acknowledge-true k n (length h) e in
        (
          record c { pending_messages = drop (k - n) c.pending_messages; server_ack = pos k },
          update_done (pos k) c (k - n) (guard_of k n (length h) _ _ t.count t.ack ∙ e)
              (gap_of k n (length h) _ t.ack in_range.0 in_range.1 small) (omega arith),
          record {
            acknowledged = omega arith;
            small = small;
            pending =
                ap (drop (k - n)) t.pending
                ∙ drop-drop (k - n) n (acknowledge (pos k) n (length h)) h (omega arith);
            ack = ap pos (sym acked);
            count = t.count;
          },
        )
    | inr e ↦ (
      c,
      update_skipped (pos k) c (guard_of k n (length h) _ _ t.count t.ack ∙ e),
      subst (λ (m : ℕ). Tracks h m c) (sym (acknowledge-false k n (length h) e)) t,
    )
  ]

  -- What an acknowledgement of the first m messages of the history makes of a connection: every other
  -- field is as it was.
  abbrev pub with_ack : List (ServerProto D) → ℕ → Conn D → Conn D
  with_ack h m c = record c { pending_messages = drop m h; server_ack = pos m }

  with_ack_lem :
      (h : List (ServerProto D)) (m : ℕ) (c : Conn D)
      → c.pending_messages ≡ drop m h
      → c.server_ack ≡ pos m
      → with_ack h m c ≡ c
  with_ack_lem h m c pending ack =
      ap₂
        (λ (ms : List (ServerProto D)) (a : ℤ). record c { pending_messages = ms; server_ack = a })
        (sym pending) (sym ack)

  -- Only the two fields are written.
  update_server_ack-rest :
      (ack : ℤ) (c c' : Conn D)
      → update_server_ack ack c ≡ returns c'
      → record c { pending_messages = c'.pending_messages; server_ack = c'.server_ack } ≡ c'
  unfolding update_server_ack slice_from
  update_server_ack-rest ack c c' e =
      elim (Bool-cases (leb_ℤ ack c.has_been_sent_num && ltb_ℤ c.server_ack ack)) [
        | inl t ↦ ground arith
        | inr f ↦ ground arith
      ]

  -- Of a connection that keeps the messages of h from the nth, an acknowledgement of k messages, with k
  -- above n and at most the number sent, leaves exactly those from the kth and k as the acknowledged
  -- number, and every other field as it was; any other acknowledgement, old, negative or too high, leaves
  -- the whole connection as it was. The call never panics.
  pub update_server_ack-with_ack :
      (ack : ℤ) (c : Conn D) (h : List (ServerProto D)) (n : ℕ)
      → Tracks h n c
      → let m = acknowledge ack n (length h) in
        (update_server_ack ack c ≡ returns (with_ack h m c))
        × Tracks h m (with_ack h m c)
        × (m ≡ n → with_ack h m c ≡ c)
  update_server_ack-with_ack ack c h n t =
      let m = acknowledge ack n (length h) in
      let (c', e, t') = update_server_ack-Tracks ack c h n t in
      let same =
        ap₂
          (λ (ms : List (ServerProto D)) (a : ℤ). record c {
            pending_messages = ms;
            server_ack = a;
          })
          (sym t'.pending) (sym t'.ack)
        ∙ update_server_ack-rest ack c c' e in
      (
        e ∙ ap returns (sym same),
        subst (Tracks h m) (sym same) t',
        λ none_new. ap (λ (j : ℕ). with_ack h j c) none_new ∙ with_ack_lem h n c t.pending t.ack,
      )
