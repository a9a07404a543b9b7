-- ===== src/Core/GlobalMq/Dispatch.antt =====
-- core/global_mq.go: which handlers a message reaches, and what the workers make of a panic.
use mathlib.Core.List.{lookup}
use yaice.Base.{ℕ, ◌≡◌, refl, inl, inr, true, false, List, [], ◌∷◌, Option, none, some, arith}
use yaice.Base.Tests.{if◌then◌else◌, Bool-cases}
use yaice.Base.Int.{
  ℤ, pos, ltb_ℤ, leb_ℤ, int32, int64, ◌+ℤ◌, ◌≤ℤ◌, ℤ_discrete, IsInt32, int32_of_IsInt32,
}
use yaice.Cache.{LruCache}
use yaice.Cache.{get as cache_get}
use yaice.Core.Protocol.{fixed_rate}
use yaice.Core.GlobalMq.{
  GlobalMessage, GlobalMq, event_call, logic_call, recovers, process_message, process_logic,
  HandlerFunc, EventHandlerFunc, worker_turn, recover_turn, tick, start_worker, stop,
  send_to_global_queue,
}
use yaice.Utils.Tool.{returns, panics}

module _ {S V : Type 0} (player_guid : S → ℤ) where
  -- A message whose kind has an event handler that succeeds, whose number has a logic handler, and
  -- whose player is in the cache is handled twice: first by the one and then by the other.
  pub process_message-both :
      (now later : ℕ) (msg : GlobalMessage S) (mq : GlobalMq S V) (entities : LruCache V)
      (event_handler : EventHandlerFunc S) (handler : HandlerFunc S V) (conn : S) (entity : V)
      (bytes : List ℕ)
      → lookup ℤ_discrete msg.packet_type mq.event_handlers ≡ some event_handler
      → event_handler msg ≡ false
      → lookup ℤ_discrete msg.msg_id mq.logic_handlers ≡ some handler
      → msg.connection ≡ some conn
      → msg.content ≡ some bytes
      → (cache_get now later (player_guid conn) entities).1 ≡ some entity
      → process_message player_guid now later msg mq entities
        ≡ returns (record {
          mq = record mq { msg_processed = int64 (mq.msg_processed +ℤ pos 1) };
          entities = (cache_get now later (player_guid conn) entities).0;
          calls = event_call msg ∷ logic_call msg.msg_id conn entity bytes ∷ [];
        })
  unfolding process_message process_logic
  process_message-both now later msg mq entities event_handler handler conn entity bytes e1 e2 e3 e4
        e5 e6 =
      ground arith

  -- Where the number 0 has a logic handler and the frame timer has no event handler, the timer ends the
  -- worker, by a panic on the missing connection.
  pub tick-recovers :
      (now later : ℕ) (mq : GlobalMq S V) (entities : LruCache V) (handler : HandlerFunc S V)
      → lookup ℤ_discrete (pos 0) mq.logic_handlers ≡ some handler
      → lookup ℤ_discrete fixed_rate mq.event_handlers ≡ none
      → worker_turn player_guid tick now later mq entities ≡ some recovers
  unfolding worker_turn recover_turn process_message process_logic
  tick-recovers now later mq entities handler e1 e2 = ground arith

-- The nearest number to n in the range from 1 to the greatest.
abbrev pub clamp : ℤ → ℤ → ℤ
clamp greatest n = if leb_ℤ n (pos 0) then pos 1 else if ltb_ℤ greatest n then greatest else n

clamp_positive : (greatest n : ℤ) → pos 1 ≤ℤ greatest → pos 1 ≤ℤ clamp greatest n
clamp_positive greatest n h = ground arith

wanted_eq :
    (n : ℤ)
    → int32 n ≡ n
    → int32 (if leb_ℤ n (pos 0) then pos 1 else n) ≡ (if leb_ℤ n (pos 0) then pos 1 else n)
wanted_eq n e = elim (Bool-cases (leb_ℤ n (pos 0))) [
  | inl small ↦ ground (arith, int32_of_IsInt32 (pos 1) (ground arith))
  | inr large ↦ ground arith
]

target_clamp :
    (greatest n : ℤ)
    → int32 n ≡ n
    → pos 1 ≤ℤ greatest
    → (let wanted = int32 (if leb_ℤ n (pos 0) then pos 1 else n) in
        if ltb_ℤ greatest wanted then greatest else wanted)
      ≡ clamp greatest n
target_clamp greatest n e h = ground (arith, wanted_eq n e)

module _ {S V : Type 0} where
  start_worker_idle :
      (n : ℤ) (mq : GlobalMq S V)
      → int32 n ≡ n
      → pos 1 ≤ℤ mq.max_workers
      → mq.worker_count ≤ℤ pos 0
      → start_worker n mq
        ≡ (record mq { worker_count = clamp mq.max_workers n }, clamp mq.max_workers n)
  unfolding start_worker
  start_worker_idle n mq e some_max idle =
      let target = target_clamp mq.max_workers n e some_max in ground (arith, target)

  start_worker_busy :
      (n : ℤ) (mq : GlobalMq S V) → pos 1 ≤ℤ mq.worker_count → start_worker n mq ≡ (mq, pos 0)
  unfolding start_worker
  start_worker_busy n mq busy = ground arith

  -- With no worker running, the number of workers started is what is asked for, brought into the range
  -- from 1 to `maxWorkers`, and a second call starts none and changes nothing. The count asked for fits
  -- an int32, and `maxWorkers` is at least 1.
  pub start_worker-started :
      (n m : ℤ) (mq : GlobalMq S V)
      → IsInt32 n
      → pos 1 ≤ℤ mq.max_workers
      → mq.worker_count ≤ℤ pos 0
      → (mq' : GlobalMq S V) × (start_worker n mq ≡ (mq', clamp mq.max_workers n))
        × (mq'.worker_count ≡ clamp mq.max_workers n)
        × (start_worker m mq' ≡ (mq', pos 0))
  start_worker-started n m mq fits some_max idle =
      let wanted = int32_of_IsInt32 n fits in
      (
        record mq { worker_count = clamp mq.max_workers n },
        start_worker_idle n mq wanted some_max idle,
        refl,
        start_worker_busy m (record mq { worker_count = clamp mq.max_workers n })
            (clamp_positive mq.max_workers n some_max),
      )

  -- `Stop` on an open queue returns; after it a second `Stop`, and each send, panics.
  pub stop-panics :
      (mq : GlobalMq S V) (conn : S) (content : Option (List ℕ)) (ack id kind : ℤ)
      → mq.closed ≡ false
      → (mq' : GlobalMq S V) × (stop mq ≡ returns mq')
        × (stop mq' ≡ panics)
        × (send_to_global_queue conn content ack id kind mq' ≡ panics)
        × (mq'.global_queue ≡ mq.global_queue)
  unfolding stop send_to_global_queue
  stop-panics mq conn content ack id kind opened =
      (record mq { cancelled = true; closed = true }, ground arith, refl, refl, refl)
