-- ===== src/Service/Traffic/Acks.antt =====
-- service.go and core/global_mq.go: the acknowledgements of logic messages, in the queue and handled.
use mathlib.Core.List.{lookup}
use yaice.Base.{
  ℕ, ◌≡◌, refl, ap, inl, inr, ◌⊎◌, true, false, List, [], ◌∷◌, ◌++◌, Option, none, some, arith,
}
use yaice.Base.Tests.{ltb, Bool-cases}
use yaice.Base.Lists.{length, All}
use yaice.Base.Int.{ℤ, pos, ◌+ℤ◌, int64, ℤ_discrete}
use yaice.Core.Protocol.{logic}
use yaice.Core.GlobalMq.{GlobalMessage, GlobalMq, send_to_global_queue}
use yaice.Service.Traffic.{Change, given, acked}
use yaice.Utils.Tool.{returns}

abbrev pub IsLogic : GlobalMessage ℤ → Type 0
IsLogic msg = (msg.packet_type ≡ logic) × ((k : ℤ) × (msg.connection ≡ some k))

-- The acknowledgements of messages, with the names of their connections.
abbrev pub queued_acks : List (GlobalMessage ℤ) → List (ℤ × ℤ)
queued_acks [] = []
queued_acks (msg ∷ queue) =
    let later = queued_acks queue in
    elim msg.connection [ none ↦ later | some k ↦ (k, msg.server_ack) ∷ later ]

-- The acknowledgements that were handled.
abbrev pub acks_of : {D : Type 0} → List (ℤ × Change D) → List (ℤ × ℤ)
acks_of [] = []
acks_of ((k, given m) ∷ changes) = acks_of changes
acks_of ((k, acked a) ∷ changes) = (k, a) ∷ acks_of changes

pub acks_of-append :
    {D : Type 0} (xs ys : List (ℤ × Change D)) → acks_of (xs ++ ys) ≡ acks_of xs ++ acks_of ys
acks_of-append [] ys = refl
acks_of-append ((k, given m) ∷ xs) ys = acks_of-append xs ys
acks_of-append ((k, acked a) ∷ xs) ys = ap (◌∷◌ (k, a)) (acks_of-append xs ys)

pub queued_acks-append :
    (xs ys : List (GlobalMessage ℤ)) → queued_acks (xs ++ ys) ≡ queued_acks xs ++ queued_acks ys
queued_acks-append [] ys = refl
queued_acks-append (msg ∷ xs) ys = ground (arith, queued_acks-append xs ys)

All-append :
    (xs : List (GlobalMessage ℤ)) (msg : GlobalMessage ℤ)
    → All IsLogic xs
    → IsLogic msg
    → All IsLogic (xs ++ (msg ∷ []))
All-append [] msg h last = (last, tt)
All-append (x ∷ xs) msg (h, hs) last = (h, All-append xs msg hs last)

pub queued_first :
    (msg : GlobalMessage ℤ) (k : ℤ) (queue : List (GlobalMessage ℤ))
    → msg.connection ≡ some k
    → queued_acks (msg ∷ queue) ≡ (k, msg.server_ack) ∷ queued_acks queue
queued_first msg k queue there = rw there refl

module _ {V : Type 0} where
  -- The queue is open, has one worker and holds logic messages with their connections, and the method of the service, which
  -- returns no error, is registered for them.
  pub record IsServing (mq : GlobalMq ℤ V) : Type 0 where
    pub opened : mq.closed ≡ false
    pub one_worker : mq.worker_count ≡ pos 1
    pub handles : lookup ℤ_discrete logic mq.event_handlers ≡ some (λ m. false)
    pub queued : All IsLogic mq.global_queue

abbrev pub logic_message : ℤ → Option (List ℕ) → ℤ → ℤ → GlobalMessage ℤ
logic_message k content ack id = record {
  packet_type = logic;
  msg_id = id;
  content = content;
  server_ack = ack;
  connection = some k;
}

module _ {V : Type 0} where
  pub send_logic :
      (k : ℤ) (content : Option (List ℕ)) (ack id : ℤ) (mq : GlobalMq ℤ V)
      → mq.closed ≡ false
      → ((ltb (length mq.global_queue) mq.capacity ≡ true)
          × (send_to_global_queue k content ack id logic mq
              ≡ returns (
                record mq {
                  global_queue = mq.global_queue ++ (logic_message k content ack id ∷ []);
                },
                true,
              )))
        ⊎ ((ltb (length mq.global_queue) mq.capacity ≡ false)
            × (send_to_global_queue k content ack id logic mq
                ≡ returns (record mq { dropped_msgs = int64 (mq.dropped_msgs +ℤ pos 1) }, false)))
  unfolding send_to_global_queue
  send_logic k content ack id mq opened =
      elim (Bool-cases (ltb (length mq.global_queue) mq.capacity)) [
        | inl room ↦ inl (room, ground arith)
        | inr full ↦ inr (full, ground arith)
      ]

  pub after_room-IsServing :
      (k : ℤ) (content : Option (List ℕ)) (ack id : ℤ) (mq : GlobalMq ℤ V)
      → IsServing mq
      → IsServing
          (record mq { global_queue = mq.global_queue ++ (logic_message k content ack id ∷ []) })
  after_room-IsServing k content ack id mq s = record {
    opened = s.opened;
    one_worker = s.one_worker;
    handles = s.handles;
    queued = All-append mq.global_queue (logic_message k content ack id) s.queued (refl, (k, refl));
  }
