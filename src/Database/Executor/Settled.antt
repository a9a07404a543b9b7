-- ===== src/Database/Executor/Settled.antt =====
-- database/shard_manager.go: which answer of the database each event of an executor has.
use yaice.Base.{◌≡◌, List, ◌++◌, map, Option}
use yaice.Database.Executor.{WriteEvent, ShardExecutor, call_back}
use yaice.Database.Executor.Trails.{joined}

-- The models of some events.
abbrev pub models : {M C : Type 0} → List (WriteEvent M C) → List M
models = map (λ e. e.model)

-- A batch is the events of one write with what the database answered, `none` for success: here as the
-- call of `BulkWrite`, and as the calls of the callbacks.
abbrev pub as_write : {M C E : Type 0} → List (WriteEvent M C) × Option E → List M × Option E
as_write (events, err) = (models events, err)

abbrev pub calls_of : {M C E : Type 0} → List (WriteEvent M C) × Option E → List (C × Option E)
calls_of (events, err) = call_back err events

module _ {M C E : Type 0} where
  -- The accepted events fall, in their order and each once, into batches, those that are held and those
  -- that are queued. Each batch was written once and had one answer, and each callback in it was
  -- called once, with this answer.
  pub record Settles (accepted_events : List (WriteEvent M C)) (s : ShardExecutor M C E)
      : Type 0 where
    pub batches : List (List (WriteEvent M C) × Option E)
    pub order :
        joined (λ (b : List (WriteEvent M C) × Option E). b.0) batches ++ (s.events ++ s.queue)
        ≡ accepted_events
    pub held : s.buffer ≡ models s.events
    pub written : s.writes ≡ map as_write batches
    pub answered : s.called ≡ joined calls_of batches
