-- ===== src/Database/Manager/Collections.antt =====
-- database/manager.go and database/shard_manager.go: which entities have a shard manager.
use mathlib.Core.List.{lookup}
use yaice.Base.{◌≡◌, true, Option, none, some, arith}
use yaice.Database.Shards.{Entity, CollectionManager, get_shard_manager, get_or_create_shard_entity}
use yaice.Database.Shards.Registering.{or_registered, lookup-start}
use yaice.Database.Manager.{Manager, start, register_entity, get_collect}
use yaice.Utils.Tool.{text_discrete}

module _ {Cl I M C E : Type 0} where
  -- A registration gives no collection a manager, also where the database has been started: what
  -- `GetCollect` answers is as before, for every entity.
  pub get_collect-register_entity :
      (entity other : Option (Entity I)) (m : Manager Cl I M C E)
      → get_collect other (register_entity entity m).0 ≡ get_collect other m
  unfolding get_collect register_entity get_shard_manager get_or_create_shard_entity
  get_collect-register_entity none other m = ground arith
  get_collect-register_entity (some e) none m = ground arith
  get_collect-register_entity (some e) (some o) m = ground arith

  -- After `Start` of a connected manager, the collection of an entity has the manager that it had before
  -- or, where it had none and its name is registered, a new one; otherwise `GetCollect` answers nil.
  pub get_collect-start :
      (entity : Entity I) (m : Manager Cl I M C E) (cm : CollectionManager I M C E)
      → m.is_ready ≡ true
      → m.database_mgr ≡ some cm
      → get_collect (some entity) (start m).0
        ≡ or_registered entity.collection_name cm.batch_size cm.queue_size
            (get_collect (some entity) m)
            (lookup text_discrete entity.collection_name cm.collects)
  unfolding get_collect start get_shard_manager
  get_collect-start entity m cm on there = rw on (rw there (lookup-start entity.collection_name cm))
