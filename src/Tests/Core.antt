-- ===== src/Tests/Core.antt =====
-- The theorems on core/global_mq.go at concrete queues.
use yaice.Base.{ℕ, refl, false, List, [], ◌∷◌, none, arith}
use yaice.Base.Int.{ℤ, pos}
use yaice.Core.GlobalMq.{GlobalMq}
use yaice.Core.GlobalMq.Fifo.{Request, offer, take_one, Log, requests, IsFifo, requests-IsFifo}

abbrev queue : GlobalMq ℤ ℕ
queue = record {
  cancelled = false;
  closed = false;
  global_queue = [];
  capacity = 1;
  logic_handlers = (pos 0, λ conn entity bytes. false) ∷ (pos 2, λ conn entity bytes. false) ∷ [];
  event_handlers = (pos 3, λ msg. false) ∷ [];
  worker_count = pos 0;
  max_workers = pos 4;
  frame_rate = pos 30;
  msg_processed = pos 0;
  dropped_msgs = pos 0;
}

abbrev start_log : Log ℤ ℕ
start_log = record { mq = queue; received = []; taken = []; offered = 0 }

start_log-IsFifo : IsFifo start_log
start_log-IsFifo = record {
  order = refl;
  bounded = ground arith;
  dropped = 0;
  dropped_msgs_eq = refl;
  counted = refl;
}

-- Two messages to a queue for one, and a worker that takes a message.
abbrev demands : List (Request ℤ)
demands =
    offer (pos 9) none (pos 0) (pos 2) (pos 3)
    ∷ offer (pos 9) none (pos 0) (pos 2) (pos 3)
    ∷ take_one
    ∷ []

requests-IsFifo_example : IsFifo (requests demands start_log)
requests-IsFifo_example = requests-IsFifo demands start_log (ground arith) start_log-IsFifo
