-- ===== src/Core/GlobalMq.antt =====
-- core/global_mq.go and core/message.go: the queue of messages that the workers handle. The handlers
-- are the application's: a handler is a function that tells whether it returns an error, and a run says
-- which handlers were called. `S` is the type of connections.
pub mod Dispatch
pub mod Fifo
use mathlib.Core.List.{lookup}
use yaice.Base.{
  ℕ, zero, suc, ◌+◌, ◌*◌, ◌≡◌, refl, Bool, true, false, List, [], ◌∷◌, ◌++◌, Option, none, some,
  arith,
}
use yaice.Base.Tests.{ltb, if◌then◌else◌}
use yaice.Base.Lists.{length}
use yaice.Base.Int.{ℤ, pos, negsuc, ◌+ℤ◌, ltb_ℤ, leb_ℤ, int64, int32, ℤ_discrete}
use yaice.Base.Assoc.{insert}
use yaice.Core.Protocol.{fixed_rate}
use yaice.Cache.{LruCache}
use yaice.Cache.{get as cache_get}
use yaice.Utils.Tool.{Run, returns, panics, blocks}

-- A `GlobalMessage`. The data is `none` where it is not a slice of bytes, the connection where it is nil.
pub record GlobalMessage (S : Type 0) : Type 0 where
  pub packet_type : ℤ
  pub msg_id : ℤ
  pub content : Option (List ℕ)
  pub server_ack : ℤ
  pub connection : Option S

module _ (S : Type 0) where
  abbrev pub EventHandlerFunc : Type 0
  EventHandlerFunc = GlobalMessage S → Bool

module _ (S V : Type 0) where
  abbrev pub HandlerFunc : Type 0
  HandlerFunc = S → V → List ℕ → Bool

  -- `frame_rate` is in milliseconds, and `closed` is whether `globalQueue` is.
  pub record GlobalMq : Type 0 where
    pub cancelled : Bool
    pub closed : Bool
    pub global_queue : List (GlobalMessage S)
    pub capacity : ℕ
    pub logic_handlers : List (ℤ × HandlerFunc)
    pub event_handlers : List (ℤ × EventHandlerFunc S)
    pub worker_count : ℤ
    pub max_workers : ℤ
    pub frame_rate : ℤ
    pub msg_processed : ℤ
    pub dropped_msgs : ℤ

  -- A handler that was called, with what it was given.
  pub data Call : Type 0 where
    event_call : GlobalMessage S → Call
    logic_call : ℤ → S → V → List ℕ → Call

  pub record Handled : Type 0 where
    pub mq : GlobalMq
    pub entities : LruCache V
    pub calls : List Call

  -- What a worker does in a turn of its loop: it goes on, ends, or ends by a panic that is recovered.
  pub data Turn : Type 0 where
    goes_on : Handled → Turn
    ends : Turn
    recovers : Turn

-- The cases of the `select`.
pub data Choice : Type 0 where
  done receive tick : Choice

module _ {S : Type 0} where
  -- The message that a tick of the frame timer makes.
  abbrev pub tick_message : GlobalMessage S
  tick_message = record {
    packet_type = fixed_rate;
    msg_id = pos 0;
    content = none;
    server_ack = pos 0;
    connection = none;
  }

module _ {S V : Type 0} where
  -- `InitGlobalMQ`, which the once runs where there is no queue. A negative size makes `make` panic.
  unfoldable pub init_global_mq : ℤ → ℤ → ℤ → Option (GlobalMq S V) → Run (Option (GlobalMq S V))
  init_global_mq frame_rate max_workers queue_size (some mq) = returns (some mq)
  init_global_mq frame_rate max_workers (negsuc n) none = panics
  init_global_mq frame_rate max_workers (pos n) none = returns (
      some record {
        cancelled = false;
        closed = false;
        global_queue = [];
        capacity = n;
        logic_handlers = [];
        event_handlers = [];
        worker_count = pos 0;
        max_workers = max_workers;
        frame_rate = frame_rate;
        msg_processed = pos 0;
        dropped_msgs = pos 0;
      })

  unfoldable pub get_global_mq : Option (GlobalMq S V) → Run (Option (GlobalMq S V))
  unfolding init_global_mq
  get_global_mq none = init_global_mq (pos 30) (pos 4) (pos 10000) none
  get_global_mq (some mq) = returns (some mq)

  unfoldable pub get_global_mq_len : GlobalMq S V → ℕ
  get_global_mq_len mq = length mq.global_queue

  -- `Stop`: closing a closed channel panics.
  unfoldable pub stop : GlobalMq S V → Run (GlobalMq S V)
  stop mq = if mq.closed then panics else returns (record mq { cancelled = true; closed = true })

  -- `StartWorker`, with the number of workers that it starts. `int32(workerCount)` cuts a large count.
  unfoldable pub start_worker : ℤ → GlobalMq S V → GlobalMq S V × ℤ
  start_worker worker_count mq =
      let wanted = int32 (if leb_ℤ worker_count (pos 0) then pos 1 else worker_count) in
      let target = if ltb_ℤ mq.max_workers wanted then mq.max_workers else wanted in
      if ltb_ℤ (pos 0) mq.worker_count
      then (mq, pos 0)
      else (record mq { worker_count = target }, target)

  -- `SendToGlobalQueue`: a send on a closed channel panics, also under a `select` with a default. The queue
  -- is buffered, with a capacity of at least 1: an unbuffered one hands a message to a waiting worker,
  -- which this does not have.
  unfoldable pub send_to_global_queue :
      S → Option (List ℕ) → ℤ → ℤ → ℤ → GlobalMq S V → Run (GlobalMq S V × Bool)
  send_to_global_queue conn content server_ack msg_id packet_type mq =
      if mq.closed
      then panics
      else if ltb (length mq.global_queue) mq.capacity
      then returns (
        record mq {
          global_queue =
              mq.global_queue
              ++ (record {
                packet_type = packet_type;
                msg_id = msg_id;
                content = content;
                server_ack = server_ack;
                connection = some conn;
              }
                  ∷ []);
        },
        true,
      )
      else returns (record mq { dropped_msgs = int64 (mq.dropped_msgs +ℤ pos 1) }, false)

  unfoldable pub register_event_handler_func : ℤ → EventHandlerFunc S → GlobalMq S V → GlobalMq S V
  register_event_handler_func logic_event_type handler mq = record mq {
    event_handlers = insert ℤ_discrete logic_event_type handler mq.event_handlers;
  }

  unfoldable pub register_router_handler_func : ℤ → HandlerFunc S V → GlobalMq S V → GlobalMq S V
  register_router_handler_func msg_id handler mq = record mq {
    logic_handlers = insert ℤ_discrete msg_id handler mq.logic_handlers;
  }

  -- What `<-gmq.globalQueue` takes off the channel.
  unfoldable pub receive_message : GlobalMq S V → Option (GlobalMessage S × GlobalMq S V)
  receive_message mq = elim mq.global_queue [
    | [] ↦ none
    | msg ∷ rest ↦ some (msg, record mq { global_queue = rest })
  ]

  unfoldable pub recover_turn : Run (Handled S V) → Turn S V
  recover_turn (returns h) = goes_on h
  recover_turn panics = recovers
  recover_turn blocks = recovers

module _ {S V : Type 0} (player_guid : S → ℤ) where
  -- The part of `processMessage` that calls the handler of the message's number.
  unfoldable pub process_logic :
      ℕ → ℕ → GlobalMessage S → List (Call S V) → GlobalMq S V → LruCache V → Run (Handled S V)
  process_logic now later msg calls mq entities =
      elim (lookup ℤ_discrete msg.msg_id mq.logic_handlers) [
        | none ↦ returns (record { mq = mq; entities = entities; calls = calls })
        | some handler ↦ elim msg.connection [
          | none ↦ panics
          | some conn ↦
              let found = cache_get now later (player_guid conn) entities in
              elim found.1 [
                | none ↦ returns (record { mq = mq; entities = found.0; calls = calls })
                | some entity ↦ elim msg.content [
                  | none ↦ returns (record { mq = mq; entities = found.0; calls = calls })
                  | some bytes ↦ returns (record {
                    mq = mq;
                    entities = found.0;
                    calls = calls ++ (logic_call msg.msg_id conn entity bytes ∷ []);
                  })
                ]
              ]
        ]
      ]

  unfoldable pub process_message :
      ℕ → ℕ → GlobalMessage S → GlobalMq S V → LruCache V → Run (Handled S V)
  unfolding process_logic
  process_message now later msg mq entities =
      let counted = record mq { msg_processed = int64 (mq.msg_processed +ℤ pos 1) } in
      elim (lookup ℤ_discrete msg.packet_type mq.event_handlers) [
        | none ↦ process_logic now later msg [] counted entities
        | some event_handler ↦
            if event_handler msg
            then returns (record { mq = counted; entities = entities; calls = event_call msg ∷ [] })
            else process_logic now later msg (event_call msg ∷ []) counted entities
      ]

  -- A turn of `startFrameRateProcessor` for one worker; `none` where the case chosen is not ready. A closed
  -- channel still hands out what it holds. Where several workers run, another one can receive between
  -- the receive and the handling of a turn, which this does not have.
  unfoldable pub worker_turn : Choice → ℕ → ℕ → GlobalMq S V → LruCache V → Option (Turn S V)
  unfolding recover_turn receive_message process_message
  worker_turn done now later mq entities = if mq.cancelled then some ends else none
  worker_turn receive now later mq entities = elim mq.global_queue [
    | [] ↦ if mq.closed then some ends else none
    | msg ∷ rest ↦
        some (
          recover_turn (process_message now later msg (record mq { global_queue = rest }) entities))
  ]
  worker_turn tick now later mq entities =
      some (recover_turn (process_message now later tick_message mq entities))
