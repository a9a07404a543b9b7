-- ===== src/Database/Executor.antt =====
-- database/shard_manager.go and database/event.go: an executor, which gathers the write events of a shard
-- and writes them in batches, and what its goroutine can do in a turn. `M` is the type of the driver's write
-- models, `C` that of callbacks, `E` that of its errors.
pub mod Batches
pub mod Trails
pub mod Actions
pub mod Settled
pub mod Drain
use yaice.Base.{
  ℕ, zero, suc, ◌+◌, ◌≡◌, refl, Bool, true, false, List, [], ◌∷◌, ◌++◌, map, Option, none, some,
  arith,
}
use yaice.Base.Tests.{ltb, leb, if◌then◌else◌}
use yaice.Base.Lists.{length}
use yaice.Base.Int.{ℤ}
use yaice.Utils.Tool.{Text}

pub record WriteEvent (M C : Type 0) : Type 0 where
  pub collection : Text
  pub shard_key : ℤ
  pub model : M
  pub callback : Option C

-- `writes` are the calls of `BulkWrite` with what they gave, `called` those of the callbacks; `stopped` is
-- whether the goroutine of `loop` has returned. A queue has a capacity of at least 1.
pub record ShardExecutor (M C E : Type 0) : Type 0 where
  pub queue : List (WriteEvent M C)
  pub queue_size : ℕ
  pub batch_size : ℕ
  pub cancelled : Bool
  pub stopped : Bool
  pub buffer : List M
  pub events : List (WriteEvent M C)
  pub writes : List (List M × Option E)
  pub called : List (C × Option E)

pub data SubmitError : Type 0 where
  queue_full : SubmitError

-- What happens to an executor: a submission, a case of the `select` of its goroutine, or the call of `cancel`.
pub data Action (M C : Type 0) : Type 0 where
  submitted : WriteEvent M C → Action M C
  received ticked done cancels : Action M C

module _ {M C E : Type 0} where
  unfoldable pub new_shard_executor : ℕ → ℕ → ShardExecutor M C E
  new_shard_executor batch_size queue_size = record {
    queue = [];
    queue_size = queue_size;
    batch_size = batch_size;
    cancelled = false;
    stopped = false;
    buffer = [];
    events = [];
    writes = [];
    called = [];
  }

  unfoldable pub submit :
      WriteEvent M C → ShardExecutor M C E → ShardExecutor M C E × Option SubmitError
  submit evt s =
      if ltb (length s.queue) s.queue_size
      then (record s { queue = s.queue ++ (evt ∷ []) }, none)
      else (s, some queue_full)

  -- The loop over the events: a callback that panics is recovered from.
  unfoldable pub call_back : Option E → List (WriteEvent M C) → List (C × Option E)
  call_back err [] = []
  call_back err (e ∷ events) =
      let later = call_back err events in
      elim e.callback [ none ↦ later | some c ↦ (c, err) ∷ later ]

  unfoldable pub then_run :
      (ShardExecutor M C E → Option (ShardExecutor M C E))
      → Option (ShardExecutor M C E)
      → Option (ShardExecutor M C E)
  then_run next none = none
  then_run next (some s) = next s

-- The driver: what `BulkWrite` answers, of whether the context is cancelled, the number of writes
-- before, and the models.
module _ {M C E : Type 0} (bulk_write : Bool → ℕ → List M → Option E) where
  -- The method `flush`.
  unfoldable pub flush_events : ShardExecutor M C E → ShardExecutor M C E
  unfolding call_back
  flush_events s =
      let err = bulk_write s.cancelled (length s.writes) s.buffer in
      record s {
        writes = s.writes ++ ((s.buffer, err) ∷ []);
        called = s.called ++ call_back err s.events;
      }

  -- The function `flush` of the loop.
  unfoldable pub flush : ShardExecutor M C E → ShardExecutor M C E
  unfolding flush_events
  flush s = elim s.buffer [
    | [] ↦ s
    | ◌∷◌ _ _ ↦ record (flush_events s) { buffer = []; events = [] }
  ]

  -- The case of the loop that has an event.
  unfoldable pub on_event : WriteEvent M C → ShardExecutor M C E → ShardExecutor M C E
  unfolding flush
  on_event evt s =
      let kept = record s {
        buffer = s.buffer ++ (evt.model ∷ []);
        events = s.events ++ (evt ∷ []);
      } in
      if leb s.batch_size (length kept.buffer) then flush kept else kept

  unfoldable pub receive : ShardExecutor M C E → Option (ShardExecutor M C E)
  unfolding on_event
  receive s = elim s.queue [
    | [] ↦ none
    | ◌∷◌ evt rest ↦ some (on_event evt (record s { queue = rest }))
  ]

  -- The next state, or `none` where the action cannot happen.
  unfoldable pub act : Action M C → ShardExecutor M C E → Option (ShardExecutor M C E)
  unfolding submit receive flush
  act (submitted evt) s = some (submit evt s).0
  act received s = if s.stopped then none else receive s
  act ticked s = if s.stopped then none else some (flush s)
  act done s =
      if s.stopped
      then none
      else if s.cancelled
      then some (record (flush s) { stopped = true })
      else none
  act cancels s = some (record s { cancelled = true })

  unfoldable pub run : List (Action M C) → ShardExecutor M C E → Option (ShardExecutor M C E)
  unfolding act then_run
  run [] s = some s
  run (a ∷ actions) s = then_run (run actions) (act a s)

  -- `Shutdown`: it waits for the goroutine, which takes some more events and ticks, as given, before it
  -- sees that it is cancelled.
  unfoldable pub shutdown : List (Action M C) → ShardExecutor M C E → Option (ShardExecutor M C E)
  unfolding run
  shutdown meanwhile s = run (cancels ∷ meanwhile ++ (done ∷ [])) s
