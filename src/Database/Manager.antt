-- ===== src/Database/Manager.antt =====
-- database/manager.go and database/base_entity.go: the connection to the database, what is there of it
-- between `Init` and `Stop`, and the shard of an entity. The driver is a parameter. The sizes of the
-- configuration are taken to be at least 0, as `make` panics for others.
pub mod Lifecycle
pub mod Collections
use yaice.Base.{
  ℕ, zero, suc, ◌%◌, ◌≡◌, refl, Bool, true, false, not, List, [], ◌∷◌, ◌++◌, Option, none, some,
  arith,
}
use yaice.Base.Tests.{if◌then◌else◌, ◌>>=◌}
use yaice.Base.Int.{ℤ, pos, negsuc, pos_part}
use yaice.Config.{MongoDbConfig, DatabaseConfig}
use yaice.Database.Executor.{Action}
use yaice.Database.Shards.{
  Entity, ShardManager, CollectionManager, CollectionError, new_collection_manager,
  get_or_create_shard_entity, get_shard_manager, shutdown_all,
}
use yaice.Database.Shards.{start as start_collections}
use yaice.Utils.Tool.{Text, Run, returns, panics}

-- `mongo.Connect`, which fails or gives a client, and whether `Ping` of a client succeeds.
pub record Driver (Cl : Type 0) : Type 0 where
  pub connect : Text → Option Cl
  pub ping : Cl → Bool

pub data ManagerError : Type 0 where
  already_initialized connect_failed ping_failed not_ready ping_unhealthy : ManagerError
  no_collections : ManagerError
  collection_error : CollectionError → ManagerError

-- `opened` lists the clients that `Connect` gave, `disconnected` those on which `Disconnect` was called.
pub record Manager (Cl I M C E : Type 0) : Type 0 where
  pub config : Option DatabaseConfig
  pub mongo_db : Option Cl
  pub database_mgr : Option (CollectionManager I M C E)
  pub is_ready : Bool
  pub opened : List Cl
  pub disconnected : List Cl

-- `NewBaseEntity`: Go's remainder has the sign of the number that is divided.
pub record BaseEntity : Type 0 where
  pub guid : ℤ
  pub shard_key : ℤ

unfoldable pub rem_48 : ℤ → ℤ
rem_48 (pos n) = pos (n % 48)
rem_48 (negsuc n) = elim (suc n % 48) [ zero ↦ pos 0 | suc k ↦ negsuc k ]

unfoldable pub new_base_entity : ℤ → BaseEntity
unfolding rem_48
new_base_entity guid = record { guid = guid; shard_key = rem_48 guid }

module _ {Cl I M C E : Type 0} where
  unfoldable pub new_manager : Option DatabaseConfig → Manager Cl I M C E
  new_manager cfg = record {
    config = cfg;
    mongo_db = none;
    database_mgr = none;
    is_ready = false;
    opened = [];
    disconnected = [];
  }

  -- `connectMongoDB` with what `Connect` gave.
  unfoldable pub connected :
      Driver Cl
      → MongoDbConfig
      → Option Cl
      → Manager Cl I M C E
      → Manager Cl I M C E × Option ManagerError
  connected driver cfg none m = (m, some connect_failed)
  connected driver cfg (some client) m =
      if driver.ping client
      then (
        record m {
          mongo_db = some client;
          database_mgr =
              some (new_collection_manager (pos_part cfg.batch_size) (pos_part cfg.queue_size));
          opened = m.opened ++ (client ∷ []);
        },
        none,
      )
      else (
        record m {
          opened = m.opened ++ (client ∷ []);
          disconnected = m.disconnected ++ (client ∷ []);
        },
        some ping_failed,
      )

  unfoldable pub connect_mongo_db :
      Driver Cl → MongoDbConfig → Manager Cl I M C E → Manager Cl I M C E × Option ManagerError
  unfolding connected
  connect_mongo_db driver cfg m = connected driver cfg (driver.connect cfg.uri) m

  -- The end of `Init`, after the connection that failed or not.
  unfoldable pub after_connect :
      Manager Cl I M C E × Option ManagerError → Manager Cl I M C E × Option ManagerError
  after_connect (m, some e) = (m, some e)
  after_connect (m, none) = (record m { is_ready = true }, none)

  unfoldable pub init_config :
      Driver Cl
      → Option DatabaseConfig
      → Manager Cl I M C E
      → Run (Manager Cl I M C E × Option ManagerError)
  unfolding connect_mongo_db after_connect
  init_config driver none m = panics
  init_config driver (some cfg) m = elim cfg.mongodb [
    | none ↦ returns (after_connect (m, none))
    | some mongo ↦
        if mongo.enabled
        then returns (after_connect (connect_mongo_db driver mongo m))
        else returns (after_connect (m, none))
  ]

  -- `Init`: a nil configuration is dereferenced.
  unfoldable pub init :
      Driver Cl → Manager Cl I M C E → Run (Manager Cl I M C E × Option ManagerError)
  unfolding init_config
  init driver m =
      if m.is_ready then returns (m, some already_initialized) else init_config driver m.config m

  unfoldable pub start : Manager Cl I M C E → Manager Cl I M C E × Option ManagerError
  start m =
      if m.is_ready
      then (
        elim m.database_mgr [
          | none ↦ m
          | some cm ↦ record m { database_mgr = some (start_collections cm) }
        ],
        none,
      )
      else (m, some not_ready)

  unfoldable pub register_entity :
      Option (Entity I) → Manager Cl I M C E → Manager Cl I M C E × Option ManagerError
  register_entity entity m = elim m.database_mgr [
    | none ↦ (m, some no_collections)
    | some cm ↦
        let (cm', err) = get_or_create_shard_entity entity cm in
        (
          record m { database_mgr = some cm' },
          elim err [ none ↦ none | some e ↦ some (collection_error e) ],
        )
  ]

  unfoldable pub get_collect : Option (Entity I) → Manager Cl I M C E → Option (ShardManager M C E)
  get_collect entity m = elim m.database_mgr [
    | none ↦ none
    | some cm ↦ elim (get_shard_manager entity cm) [ none ↦ none | some found ↦ found ]
  ]

  unfoldable pub health : Driver Cl → Manager Cl I M C E → Option ManagerError
  health driver m =
      if m.is_ready
      then (elim m.mongo_db [
        | none ↦ none
        | some client ↦ if driver.ping client then none else some ping_unhealthy
      ])
      else some not_ready

  -- `Stop` after the collections are shut down; an error of `Disconnect` changes nothing.
  unfoldable pub disconnect : Manager Cl I M C E → Manager Cl I M C E
  disconnect m = record m {
    mongo_db = none;
    database_mgr = none;
    is_ready = false;
    disconnected = m.disconnected ++ elim m.mongo_db [ none ↦ [] | some client ↦ client ∷ [] ];
  }

  -- `Stop`, with the collections it has shut down; `none` where their goroutines do not end as given.
  unfoldable pub stop :
      (Bool → ℕ → List M → Option E)
      → (Text → ℤ → List (Action M C))
      → Manager Cl I M C E
      → Option (Manager Cl I M C E × Option (CollectionManager I M C E))
  unfolding disconnect
  stop bulk_write meanwhile m =
      if m.is_ready
      then (elim m.database_mgr [
        | none ↦ some (disconnect m, none)
        | some cm ↦ do cm' ← shutdown_all bulk_write meanwhile cm; some (disconnect m, some cm')
      ])
      else some (m, none)
