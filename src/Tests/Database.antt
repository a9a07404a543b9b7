-- ===== src/Tests/Database.antt =====
-- The theorems on database at concrete executors and managers. A write model is a number, and so are
-- a callback, an error, a client and an index.
use yaice.Base.{
  ℕ, zero, suc, ◌++◌, ◌≡◌, refl, Bool, true, false, List, [], ◌∷◌, Option, none, some, arith, inr,
}
use yaice.Base.Int.{ℤ, pos}
use yaice.Config.{MongoDbConfig}
use yaice.Database.Executor.{
  WriteEvent, ShardExecutor, Action, submitted, received, ticked, done, cancels, submit, call_back,
  flush_events, flush, on_event, receive, act, then_run, run,
}
use yaice.Database.Executor.Trails.{models_of, callback_trail, all_called}
use yaice.Database.Executor.Batches.{IsSound, run-IsSound}
use yaice.Database.Executor.Drain.{drain, stored, run-drain}
use yaice.Database.Shards.{ShardManager, shutdown_all, shutdown_managers, new_collection_manager}
use yaice.Database.Shards.Routing.{executor_of, submit_all, submit_own, submit_all-executor_of}
use yaice.Database.Manager.{
  Driver, Manager, connected, connect_mongo_db, after_connect, init_config, init, disconnect, stop,
}
use yaice.Database.Manager.Lifecycle.{calls_init, calls_stop, IsKept, Runs, Runs-IsKept}
use yaice.Utils.Tool.{Text}

-- A database that refuses every write under a cancelled context.
abbrev bulk : Bool → ℕ → List ℕ → Option ℕ
bulk true n models = some 1
bulk false n models = none

abbrev event : ℕ → WriteEvent ℕ ℕ
event n = record { collection = 112 ∷ []; shard_key = pos 2; model = n; callback = some n }

abbrev idle : ShardExecutor ℕ ℕ ℕ
idle = record {
  queue = [];
  queue_size = 3;
  batch_size = 2;
  cancelled = false;
  stopped = false;
  buffer = [];
  events = [];
  writes = [];
  called = [];
}

-- Three events, of which two make a batch, and a stop with one of them in the queue.
abbrev busy : List (Action ℕ ℕ)
busy =
    submitted (event 5)
    ∷ submitted (event 6)
    ∷ received
    ∷ received
    ∷ submitted (event 7)
    ∷ cancels
    ∷ done
    ∷ []

abbrev left : ShardExecutor ℕ ℕ ℕ
left = record {
  queue = event 7 ∷ [];
  queue_size = 3;
  batch_size = 2;
  cancelled = true;
  stopped = true;
  buffer = [];
  events = [];
  writes = (5 ∷ 6 ∷ [], none) ∷ [];
  called = (5, none) ∷ (6, none) ∷ [];
}

busy-run : run bulk busy idle ≡ some left
unfolding run then_run act submit receive on_event flush flush_events call_back
busy-run = refl

-- The executor with the writes of a database whose second write fails.
abbrev bulk_once : Bool → ℕ → List ℕ → Option ℕ
bulk_once cancelled zero models = none
bulk_once cancelled (suc n) models = some 1

abbrev two_writes : List (Action ℕ ℕ)
two_writes =
    submitted (event 5)
    ∷ submitted (event 6)
    ∷ received
    ∷ received
    ∷ submitted (event 7)
    ∷ received
    ∷ ticked
    ∷ submitted (event 8)
    ∷ []

abbrev half_stored : ShardExecutor ℕ ℕ ℕ
half_stored = record idle {
  queue = event 8 ∷ [];
  writes = (5 ∷ 6 ∷ [], none) ∷ (7 ∷ [], some 1) ∷ [];
  called = (5, none) ∷ (6, none) ∷ (7, some 1) ∷ [];
}

idle-IsSound : IsSound idle
idle-IsSound = record { matching = refl; below = ground arith; room = ground arith; batches = tt }

run-IsSound_example : IsSound left
run-IsSound_example = run-IsSound bulk busy idle left busy-run idle-IsSound

abbrev queued : ShardExecutor ℕ ℕ ℕ
queued = record idle { queue = event 5 ∷ event 6 ∷ event 7 ∷ [] }

queued-IsSound : IsSound queued
queued-IsSound = record { matching = refl; below = ground arith; room = ground arith; batches = tt }

run-drain_example :
    (s' : ShardExecutor ℕ ℕ ℕ) × (run bulk (drain bulk queued.queue) queued ≡ some s')
    × (stored bulk s' ≡ stored bulk queued ++ (queued.buffer ++ models_of queued.queue))
    × (all_called s' ≡ callback_trail queued)
    × (s'.queue ≡ [])
run-drain_example =
    run-drain bulk (λ n models. refl) queued.queue queued refl refl refl queued-IsSound

abbrev players : ShardManager ℕ ℕ ℕ
players = record { collection_name = 112 ∷ []; executors = []; batch_size = 2; queue_size = 3 }

abbrev two_shards : List (ℤ × WriteEvent ℕ ℕ)
two_shards = (pos 2, event 5) ∷ (pos 4, event 6) ∷ (pos 2, event 7) ∷ []

submit_all-executor_of_example :
    executor_of (pos 2) (submit_all two_shards players)
    ≡ submit_own (pos 2) two_shards (executor_of (pos 2) players)
submit_all-executor_of_example = submit_all-executor_of two_shards (pos 2) players

abbrev driver : Driver ℕ
driver = record { connect = λ uri. some 9; ping = λ client. true }

abbrev mongo : MongoDbConfig
mongo = record {
  enabled = true;
  uri = 117 ∷ [];
  database = 100 ∷ [];
  queue_size = pos 3;
  batch_size = pos 2;
  timeout = pos 0;
}

abbrev no_turns : Text → ℤ → List (Action ℕ ℕ)
no_turns name key = []

abbrev new_db : Manager ℕ ℕ ℕ ℕ ℕ
new_db = record {
  config = some (record { mongodb = some mongo });
  mongo_db = none;
  database_mgr = none;
  is_ready = false;
  opened = [];
  disconnected = [];
}

new_db-IsKept : IsKept new_db
new_db-IsKept = record { clients = refl; ready = inr refl }

abbrev ended_db : Manager ℕ ℕ ℕ ℕ ℕ
ended_db = record new_db { opened = 9 ∷ []; disconnected = 9 ∷ [] }

init_stop-Runs : Runs driver bulk no_turns (calls_init ∷ calls_stop ∷ []) new_db ended_db
unfolding init init_config after_connect connect_mongo_db connected stop disconnect shutdown_all
    shutdown_managers new_collection_manager
init_stop-Runs = (_, (none, refl), (_, (_, refl), refl))

Runs-IsKept_example : IsKept ended_db
Runs-IsKept_example =
    Runs-IsKept driver bulk no_turns (calls_init ∷ calls_stop ∷ []) new_db ended_db init_stop-Runs
      new_db-IsKept
