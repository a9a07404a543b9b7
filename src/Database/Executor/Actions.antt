-- ===== src/Database/Executor/Actions.antt =====
-- database/shard_manager.go: the write events that an executor accepts, and what its goroutine does.
use yaice.Base.{ℕ, ◌≡◌, inl, inr, Bool, true, false, List, [], ◌∷◌, ◌++◌, Option, none, some, arith}
use yaice.Base.Tests.{Bool-cases}
use yaice.Base.Lists.{List-cases}
use yaice.Database.Executor.{
  WriteEvent, ShardExecutor, Action, received, ticked, done, flush, on_event, receive, act,
}
use yaice.Database.Executor.Trails.{accepted_now}

module _ {M C E : Type 0} (bulk_write : Bool → ℕ → List M → Option E) where
  -- What an action of the goroutine does, where it happens.
  pub received-cases :
      (s s' : ShardExecutor M C E)
      → act bulk_write received s ≡ some s'
      → (evt : WriteEvent M C) × (rest : List (WriteEvent M C)) × (s.queue ≡ evt ∷ rest)
        × (s.stopped ≡ false)
        × (on_event bulk_write evt (record s { queue = rest }) ≡ s')
  unfolding act receive
  received-cases s s' e = elim (Bool-cases s.stopped) [
    | inl e1 ↦ absurd (ground arith)
    | inr e1 ↦ elim (List-cases s.queue) [
      | inl e2 ↦ absurd (ground arith)
      | inr (evt, rest, e2) ↦ (evt, rest, e2, e1, ground arith)
    ]
  ]

  pub ticked-cases :
      (s s' : ShardExecutor M C E)
      → act bulk_write ticked s ≡ some s'
      → (s.stopped ≡ false) × (flush bulk_write s ≡ s')
  unfolding act
  ticked-cases s s' e = ground arith

  pub done-cases :
      (s s' : ShardExecutor M C E)
      → act bulk_write done s ≡ some s'
      → (s.stopped ≡ false)
        × (s.cancelled ≡ true)
        × (record (flush bulk_write s) { stopped = true } ≡ s')
  unfolding act
  done-cases s s' e = ground arith

  -- The events whose submission found room, in their order.
  abbrev pub accepted : List (Action M C) → ShardExecutor M C E → List (WriteEvent M C)
  accepted [] s = []
  accepted (a ∷ actions) s =
      accepted_now a s ++ elim (act bulk_write a s) [ none ↦ [] | some s' ↦ accepted actions s' ]
