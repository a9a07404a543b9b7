-- ===== src/Service/Traffic/Calls.antt =====
-- core/global_mq.go: which calls a worker makes for a logic message.
use mathlib.Core.List.{lookup}
use yaice.Base.{ℕ, ◌≡◌, refl, ap, ◌∙◌, inl, inr, false, List, [], ◌∷◌, none, some, arith}
use yaice.Base.Tests.{Option-cases}
use yaice.Base.Int.{ℤ, pos, ◌+ℤ◌, int64, ℤ_discrete}
use yaice.Cache.{LruCache}
use yaice.Cache.{get as cache_get}
use yaice.Core.Protocol.{logic}
use yaice.Core.GlobalMq.{
  GlobalMessage, GlobalMq, Call, event_call, logic_call, Handled, process_message, process_logic,
  goes_on, receive, worker_turn, recover_turn,
}
use yaice.Utils.Tool.{returns}

module _ {V : Type 0} where
  abbrev pub counted : GlobalMq ℤ V → GlobalMq ℤ V
  counted mq = record mq { msg_processed = int64 (mq.msg_processed +ℤ pos 1) }

  -- The calls for a logic message: the method of the service, and the handler of its number or none.
  pub data AreCalls (msg : GlobalMessage ℤ) (k : ℤ) : List (Call ℤ V) → Type 0 where
    no_handler : AreCalls msg k (event_call msg ∷ [])
    handler :
        (entity : V) (content : List ℕ)
        → AreCalls msg k (event_call msg ∷ logic_call msg.msg_id k entity content ∷ [])

  process_logic-AreCalls :
      (player_guid : ℤ → ℤ) (now later : ℕ) (msg : GlobalMessage ℤ) (k : ℤ) (mq : GlobalMq ℤ V)
      (entities : LruCache V)
      → msg.connection ≡ some k
      → (h : Handled ℤ V) × (process_logic player_guid now later msg
            (event_call msg ∷ [])
            mq
            entities
          ≡ returns h)
        × (h.mq ≡ mq)
        × AreCalls msg k h.calls
  unfolding process_logic
  process_logic-AreCalls player_guid now later msg k mq entities there =
      elim (Option-cases (lookup ℤ_discrete msg.msg_id mq.logic_handlers)) [
        | inl e ↦ (
          record { mq = mq; entities = entities; calls = event_call msg ∷ [] },
          ground arith,
          refl,
          no_handler,
        )
        | inr (f, e) ↦
            let found = cache_get now later (player_guid k) entities in
            elim (Option-cases found.1) [
              | inl e2 ↦ (
                record { mq = mq; entities = found.0; calls = event_call msg ∷ [] },
                ground arith,
                refl,
                no_handler,
              )
              | inr (entity, e2) ↦ elim (Option-cases msg.content) [
                | inl e3 ↦ (
                  record { mq = mq; entities = found.0; calls = event_call msg ∷ [] },
                  ground arith,
                  refl,
                  no_handler,
                )
                | inr (content, e3) ↦ (
                  record {
                    mq = mq;
                    entities = found.0;
                    calls = event_call msg ∷ logic_call msg.msg_id k entity content ∷ [];
                  },
                  ground arith,
                  refl,
                  handler entity content,
                )
              ]
            ]
      ]

  pub process_message-AreCalls :
      (player_guid : ℤ → ℤ) (now later : ℕ) (msg : GlobalMessage ℤ) (k : ℤ) (mq : GlobalMq ℤ V)
      (entities : LruCache V)
      → msg.packet_type ≡ logic
      → msg.connection ≡ some k
      → lookup ℤ_discrete logic mq.event_handlers ≡ some (λ m. false)
      → (h : Handled ℤ V) × (process_message player_guid now later msg mq entities ≡ returns h)
        × (h.mq ≡ counted mq)
        × AreCalls msg k h.calls
  unfolding process_message
  process_message-AreCalls player_guid now later msg k mq entities kind there handles =
      let (h, e, e2, calls) =
        process_logic-AreCalls player_guid now later msg k (counted mq) entities there in
      let found = ap (λ n. lookup ℤ_discrete n mq.event_handlers) kind ∙ handles in
      (h, ground (arith, found), e2, calls)

  -- A worker finds nothing to take in an open queue that is empty.
  pub worker_turn_empty :
      (player_guid : ℤ → ℤ) (now later : ℕ) (mq : GlobalMq ℤ V) (entities : LruCache V)
      → mq.global_queue ≡ []
      → mq.closed ≡ false
      → worker_turn player_guid receive now later mq entities ≡ none
  unfolding worker_turn
  worker_turn_empty player_guid now later mq entities e opened = ground arith

  pub worker_turn-AreCalls :
      (player_guid : ℤ → ℤ) (now later : ℕ) (msg : GlobalMessage ℤ) (k : ℤ)
      (queue : List (GlobalMessage ℤ)) (mq : GlobalMq ℤ V) (entities : LruCache V)
      → mq.global_queue ≡ msg ∷ queue
      → msg.packet_type ≡ logic
      → msg.connection ≡ some k
      → lookup ℤ_discrete logic mq.event_handlers ≡ some (λ m. false)
      → (h : Handled ℤ V) × (worker_turn player_guid receive now later mq entities
          ≡ some (goes_on h))
        × (h.mq ≡ counted (record mq { global_queue = queue }))
        × AreCalls msg k h.calls
  unfolding worker_turn recover_turn
  worker_turn-AreCalls player_guid now later msg k queue mq entities e kind there handles =
      let (h, e1, e2, calls) =
        process_message-AreCalls player_guid now later msg k (record mq { global_queue = queue })
          entities kind there handles in
      (h, ground arith, e2, calls)
