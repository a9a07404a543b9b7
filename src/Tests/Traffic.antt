-- ===== src/Tests/Traffic.antt =====
-- The theorem on logic messages, from the queue to the replies, at a concrete run.
use mathlib.Core.List.{lookup}
use yaice.Base.{ℕ, ◌≡◌, refl, false, List, [], ◌∷◌, none, some, arith}
use yaice.Base.Int.{ℤ, pos, ℤ_discrete, int64, ◌+ℤ◌, ◌-ℤ◌}
use yaice.Base.Lists.{length}
use yaice.Cache.{get, read_item, is_expired}
use yaice.Core.GlobalMq.{GlobalMq, send_to_global_queue, worker_turn}
use yaice.Core.Protocol.{logic}
use yaice.Tcp.Conn.{new_conn, async_send, update_server_ack, inc_client_ack}
use yaice.Service.Handlers.{handle_logic_message}
use yaice.Service.Traffic.{Traffic, TrafficEvent, arrives, works, pushes, happen_all}
use yaice.Service.Traffic.Acks.{IsServing}
use yaice.Service.Traffic.Delivery.{IsTracked}
use yaice.Service.Traffic.Order.{Keeps, accepted_acks, happen_all-Keeps}

abbrev serving_queue : GlobalMq ℤ ℕ
serving_queue = record {
  cancelled = false;
  closed = false;
  global_queue = [];
  capacity = 1;
  logic_handlers = (pos 42, λ conn entity bytes. false) ∷ [];
  event_handlers = (logic, λ msg. false) ∷ [];
  worker_count = pos 1;
  max_workers = pos 4;
  frame_rate = pos 30;
  msg_processed = pos 0;
  dropped_msgs = pos 0;
}

-- The player of each connection is in the cache.
abbrev calm : Traffic ℕ ℕ
calm = record {
  conns = λ k. record (new_conn k (pos 100)) { player_guid = pos 9 };
  mq = serving_queue;
  entities = record {
    min_size = pos 2;
    core_size = pos 4;
    items = (pos 9, record { key = pos 9; value = 90; expire_time = none }) ∷ [];
    access_order = pos 9 ∷ [];
    filter = none;
    load_value_from_db_hook = none;
  };
  changes = [];
  lost = 0;
}

-- Two messages reach a queue for one; the one that is taken acknowledges the message that was pushed.
abbrev traffic : List (TrafficEvent ℕ)
traffic =
    pushes (pos 3) 5
    ∷ arrives (pos 3) (some (1 ∷ [])) (pos 1) (pos 42)
    ∷ arrives (pos 4) (some (2 ∷ [])) (pos 0) (pos 42)
    ∷ works 10 10
    ∷ []

-- The handler answers with the entity and the first bytes.
abbrev echo : ℤ → ℕ → List ℕ → List ℕ
echo id entity content = entity ∷ content

calm-IsServing : IsServing calm.mq
unfolding lookup ℤ_discrete
calm-IsServing = record { opened = refl; one_worker = refl; handles = refl; queued = ground arith }

calm-IsTracked : IsTracked calm
unfolding new_conn
calm-IsTracked k = record {
  acknowledged = ground arith;
  small = ground arith;
  pending = refl;
  ack = refl;
  count = refl;
}

-- A message is pushed, one is acknowledged, and the handler answers with two.
four_changes : length (happen_all echo traffic calm).changes ≡ 4
unfolding happen_all worker_turn send_to_global_queue new_conn lookup ℤ_discrete get async_send
    read_item is_expired handle_logic_message update_server_ack inc_client_ack int64 ◌+ℤ◌ ◌-ℤ◌
four_changes = refl

happen_all-Keeps_example :
    Keeps (accepted_acks echo traffic calm) calm (happen_all echo traffic calm)
happen_all-Keeps_example =
    happen_all-Keeps echo traffic calm (omega (arith, four_changes)) calm-IsServing calm-IsTracked

accepted : accepted_acks echo traffic calm ≡ (pos 3, pos 1) ∷ []
unfolding happen_all new_conn send_to_global_queue
accepted = refl
