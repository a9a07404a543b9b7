-- ===== src/Database/Shards/Routing.antt =====
-- database/shard_manager.go: events reach the executor of their shard, in order.
use mathlib.Core.List.{lookup}
use yaice.Base.{ℕ, ◌≡◌, refl, sym, ap, ap₂, ◌∙◌, List, [], ◌∷◌, Option, none, some, arith, ite}
use yaice.Base.Int.{ℤ, ℤ_discrete}
use yaice.Base.Assoc.{insert, lookup-insert}
use yaice.Database.Executor.{WriteEvent, ShardExecutor, new_shard_executor}
use yaice.Database.Executor.{submit as executor_submit}
use yaice.Database.Shards.{ShardManager, executor_found, get_or_create_executor, submit}

module _ {M C E : Type 0} where
  abbrev or_new : Option (ShardExecutor M C E) → ℕ → ℕ → ShardExecutor M C E
  or_new (some exec) batch_size queue_size = exec
  or_new none batch_size queue_size = new_shard_executor batch_size queue_size

  -- The executor of a shard, a new one where there is none.
  abbrev pub executor_of : ℤ → ShardManager M C E → ShardExecutor M C E
  executor_of k m = or_new (lookup ℤ_discrete k m.executors) m.batch_size m.queue_size

  abbrev pub submit_all : List (ℤ × WriteEvent M C) → ShardManager M C E → ShardManager M C E
  submit_all [] m = m
  submit_all (e ∷ events) m = submit_all events (submit e.0 e.1 m).0

  -- The events of one shard, submitted to its executor.
  abbrev pub submit_own : ℤ → List (ℤ × WriteEvent M C) → ShardExecutor M C E → ShardExecutor M C E
  submit_own k [] exec = exec
  submit_own k (e ∷ events) exec =
      submit_own k events (ite (ℤ_discrete k e.0) (executor_submit e.1 exec).0 exec)

  -- Where the executor of a shard is made first, nothing is seen of that behind it.
  executor_found_lem :
      (j : ℤ) (m : ShardManager M C E) (o : Option (ShardExecutor M C E))
      → lookup ℤ_discrete j m.executors ≡ o
      → ((executor_found j m o).1 ≡ or_new o m.batch_size m.queue_size)
        × ((executor_found j m o).0.batch_size ≡ m.batch_size)
        × ((executor_found j m o).0.queue_size ≡ m.queue_size)
        × ((k : ℤ) (exec : ShardExecutor M C E)
            → lookup ℤ_discrete k (insert ℤ_discrete j exec (executor_found j m o).0.executors)
              ≡ ite (ℤ_discrete k j) (some exec) (lookup ℤ_discrete k m.executors))
  unfolding executor_found
  executor_found_lem j m (some found) e =
      (refl, refl, refl, λ k exec. lookup-insert ℤ_discrete k j exec m.executors)
  executor_found_lem j m none e = (refl, refl, refl, λ k exec. twice k exec _)
    where
      twice :
          (k : ℤ) (exec : ShardExecutor M C E) (new : ShardExecutor M C E)
          → lookup ℤ_discrete k (insert ℤ_discrete j exec (insert ℤ_discrete j new m.executors))
            ≡ ite (ℤ_discrete k j) (some exec) (lookup ℤ_discrete k m.executors)
      twice k exec new =
          let outer = lookup-insert ℤ_discrete k j exec (insert ℤ_discrete j new m.executors) in
          let inner = lookup-insert ℤ_discrete k j new m.executors in ground arith

  submit-executor_of :
      (k j : ℤ) (evt : WriteEvent M C) (m : ShardManager M C E)
      → executor_of k (submit j evt m).0
        ≡ ite (ℤ_discrete k j) (executor_submit evt (executor_of k m)).0 (executor_of k m)
  unfolding submit get_or_create_executor
  submit-executor_of k j evt m =
      let (e, b, q, there) = executor_found_lem j m _ refl in
      let after = (executor_submit evt (get_or_create_executor j m).1).0 in
      let found =
        ap (λ (o : Option (ShardExecutor M C E)). or_new o m.batch_size m.queue_size)
          (there k after) in
      ap₂ (or_new (lookup ℤ_discrete k (submit j evt m).0.executors)) b q
      ∙ found
      ∙ elim (ℤ_discrete k j)
          as (λ d.
            or_new (ite d (some after) (lookup ℤ_discrete k m.executors)) m.batch_size m.queue_size
            ≡ ite d (executor_submit evt (executor_of k m)).0 (executor_of k m)) [
              | yes same ↦
                  ap (λ x. (executor_submit evt x).0) (e ∙ ap (λ i. executor_of i m) (sym same))
              | no n ↦ refl
            ]

  -- After submissions for any shards, the executor of each shard is where the submissions of that shard
  -- alone, in their order, would have left it.
  pub submit_all-executor_of :
      (events : List (ℤ × WriteEvent M C)) (k : ℤ) (m : ShardManager M C E)
      → executor_of k (submit_all events m) ≡ submit_own k events (executor_of k m)
  submit_all-executor_of [] k m = refl
  submit_all-executor_of (e ∷ events) k m =
      submit_all-executor_of events k (submit e.0 e.1 m).0
      ∙ ap (submit_own k events) (submit-executor_of k e.0 e.1 m)
