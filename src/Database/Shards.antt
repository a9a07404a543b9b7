-- ===== src/Database/Shards.antt =====
-- database/shard_manager.go: the executors of a collection by shard, and the shard managers of the
-- collections by name. An executor is changed where it stands in the map: a pointer to one that the code
-- passes on is its key.
pub mod Routing
pub mod Registering
use mathlib.Core.List.{lookup}
use yaice.Base.{
  ℕ, zero, suc, ◌≡◌, refl, Bool, true, false, List, [], ◌∷◌, Option, none, some, arith,
}
use yaice.Base.Tests.{if◌then◌else◌, ◌>>=◌}
use yaice.Base.Int.{ℤ, ℤ_discrete}
use yaice.Base.Assoc.{insert}
use yaice.Database.Executor.{WriteEvent, ShardExecutor, SubmitError, Action, new_shard_executor}
use yaice.Database.Executor.{submit as executor_submit, shutdown as executor_shutdown}
use yaice.Utils.Tool.{Text, text_discrete}

pub record ShardManager (M C E : Type 0) : Type 0 where
  pub collection_name : Text
  pub executors : List (ℤ × ShardExecutor M C E)
  pub batch_size : ℕ
  pub queue_size : ℕ

module _ {M C E : Type 0} where
  -- The indexes are created too; where that fails, a warning is printed.
  unfoldable pub new_shard_manager : Text → ℕ → ℕ → ShardManager M C E
  new_shard_manager collection batch_size queue_size = record {
    collection_name = collection;
    executors = [];
    batch_size = batch_size;
    queue_size = queue_size;
  }

  -- What `GetOrCreateExecutor` makes of what it finds in the map.
  pub executor_found :
      ℤ
      → ShardManager M C E
      → Option (ShardExecutor M C E)
      → ShardManager M C E × ShardExecutor M C E
  unfolding new_shard_executor
  executor_found shard_key m (some exec) = (m, exec)
  executor_found shard_key m none =
      let exec = new_shard_executor m.batch_size m.queue_size in
      (record m { executors = insert ℤ_discrete shard_key exec m.executors }, exec)

  unfoldable pub get_or_create_executor :
      ℤ → ShardManager M C E → ShardManager M C E × ShardExecutor M C E
  unfolding executor_found
  get_or_create_executor shard_key m =
      executor_found shard_key m (lookup ℤ_discrete shard_key m.executors)

  unfoldable pub submit :
      ℤ → WriteEvent M C → ShardManager M C E → ShardManager M C E × Option SubmitError
  unfolding get_or_create_executor
  submit shard_key evt m =
      let (found, exec) = get_or_create_executor shard_key m in
      let (after, err) = executor_submit evt exec in
      (record found { executors = insert ℤ_discrete shard_key after found.executors }, err)

  -- The driver, and what the goroutine of each executor does before it sees that it is cancelled.
  module _ (bulk_write : Bool → ℕ → List M → Option E) (meanwhile : ℤ → List (Action M C)) where
    -- Each executor is shut down in turn, in the order of the map.
    unfoldable pub shutdown_executors :
        List (ℤ × ShardExecutor M C E) → Option (List (ℤ × ShardExecutor M C E))
    shutdown_executors [] = some []
    shutdown_executors (e ∷ executors) = do
      exec ← executor_shutdown bulk_write (meanwhile e.0) e.1
      others ← shutdown_executors executors
      some ((e.0, exec) ∷ others)

    unfoldable pub shutdown : ShardManager M C E → Option (ShardManager M C E)
    unfolding shutdown_executors
    shutdown m = do
      executors ← shutdown_executors m.executors
      some (record m { executors = executors })

-- The methods of an `Entity`; `I` is the type of index definitions.
pub record Entity (I : Type 0) : Type 0 where
  pub collection_name : Text
  pub indexes : List I

pub record CollectionManager (I M C E : Type 0) : Type 0 where
  pub managers : List (Text × ShardManager M C E)
  pub collects : List (Text × Entity I)
  pub batch_size : ℕ
  pub queue_size : ℕ

pub data CollectionError : Type 0 where
  invalid_entity already_exists : CollectionError

module _ {M C E : Type 0} where
  -- A turn of the loop of `Start`, with what the map of managers has at the name.
  unfoldable pub start_one :
      ℕ
      → ℕ
      → Text
      → List (Text × ShardManager M C E)
      → Option (ShardManager M C E)
      → List (Text × ShardManager M C E)
  unfolding new_shard_manager
  start_one batch_size queue_size name managers (some _) = managers
  start_one batch_size queue_size name managers none =
      insert text_discrete name (new_shard_manager name batch_size queue_size) managers

module _ {I M C E : Type 0} where
  unfoldable pub new_collection_manager : ℕ → ℕ → CollectionManager I M C E
  new_collection_manager batch_size queue_size = record {
    managers = [];
    collects = [];
    batch_size = batch_size;
    queue_size = queue_size;
  }

  -- The argument is `none` where it has not the methods of an entity.
  unfoldable pub get_or_create_shard_entity :
      Option (Entity I)
      → CollectionManager I M C E
      → CollectionManager I M C E × Option CollectionError
  get_or_create_shard_entity none cm = (cm, some invalid_entity)
  get_or_create_shard_entity (some entity) cm =
      elim (lookup text_discrete entity.collection_name cm.collects) [
        | some _ ↦ (cm, some already_exists)
        | none ↦ (
          record cm { collects = insert text_discrete entity.collection_name entity cm.collects },
          none,
        )
      ]

  -- The inner `none` is a nil manager, which comes with no error.
  unfoldable pub get_shard_manager :
      Option (Entity I) → CollectionManager I M C E → Option (Option (ShardManager M C E))
  get_shard_manager none cm = none
  get_shard_manager (some entity) cm =
      some (lookup text_discrete entity.collection_name cm.managers)

  unfoldable pub start_collects :
      ℕ
      → ℕ
      → List (Text × Entity I)
      → List (Text × ShardManager M C E)
      → List (Text × ShardManager M C E)
  unfolding start_one
  start_collects batch_size queue_size [] managers = managers
  start_collects batch_size queue_size (c ∷ collects) managers =
      start_collects batch_size queue_size collects
        (start_one batch_size queue_size c.0 managers (lookup text_discrete c.0 managers))

  unfoldable pub start : CollectionManager I M C E → CollectionManager I M C E
  unfolding start_collects
  start cm = record cm {
    managers = start_collects cm.batch_size cm.queue_size cm.collects cm.managers;
  }

module _ {M C E : Type 0} (bulk_write : Bool → ℕ → List M → Option E)
    (meanwhile : Text → ℤ → List (Action M C)) where
  unfoldable pub shutdown_managers :
      List (Text × ShardManager M C E) → Option (List (Text × ShardManager M C E))
  unfolding shutdown
  shutdown_managers [] = some []
  shutdown_managers (m ∷ managers) = do
    manager ← shutdown bulk_write (meanwhile m.0) m.1
    others ← shutdown_managers managers
    some ((m.0, manager) ∷ others)

  unfoldable pub shutdown_all :
      {I : Type 0} → CollectionManager I M C E → Option (CollectionManager I M C E)
  unfolding shutdown_managers
  shutdown_all cm = do
    managers ← shutdown_managers cm.managers
    some (record cm { managers = managers })
