-- ===== src/Service.antt =====
-- service.go: the service, which starts and stops the other parts. The database and network managers are
-- behind an interface; the queue of messages is the one of the process.
pub mod Parts
pub mod Queues
pub mod States
pub mod Restart
pub mod Handlers
pub mod Tokens
pub mod Monitor
pub mod Traffic
use yaice.Base.{ℕ, ◌≡◌, refl, Bool, true, false, List, [], ◌∷◌, ◌++◌, Option, none, some, arith}
use yaice.Base.Tests.{if◌then◌else◌}
use yaice.Base.Int.{ℤ, pos, int32}
use yaice.Config.{DatabaseConfig, NetworkConfig, GlobalMqConfig}
use yaice.Core.GlobalMq.{
  GlobalMq, EventHandlerFunc, init_global_mq, get_global_mq, start_worker,
  register_event_handler_func,
}
use yaice.Core.GlobalMq.{stop as stop_global_mq}
use yaice.Core.Protocol.{token_check, logic, heart_beat, sync_time, fixed_rate}
use yaice.Utils.Tool.{Run, returns, panics, blocks, after_return}

pub data State : Type 0 where
  stopped starting running stopping : State

-- What the service calls of its managers; a result is paired with whether there was no error, and the
-- start of the network, which sets routes and ports up, can also panic (`none`). The laws:
-- a manager of the database that is stopped is not ready, and one that is not ready does not start.
pub record Managers (Db Net : Type 0) : Type 0 where
  pub new_db : Option DatabaseConfig → Db
  pub init_db : Db → Run (Db × Bool)
  pub start_db : Db → Db × Bool
  pub stop_db : Db → Db
  pub db_ready : Db → Bool
  pub new_net : Option NetworkConfig → Net
  pub start_net : Net → Option (Net × Bool)
  pub stop_net : Net → Net
  pub net_ready : Net → Bool
  pub stop_db-ready : (d : Db) → db_ready (stop_db d) ≡ false
  pub start_db-unready : (d : Db) → db_ready d ≡ false → (start_db d).1 ≡ false
  pub start_net-ready : (n n' : Net) → start_net n ≡ some (n', true) → net_ready n' ≡ true

pub record ServiceConfig : Type 0 where
  pub global_mq : Option GlobalMqConfig
  pub database : Option DatabaseConfig
  pub network : Option NetworkConfig

pub data Hook : Type 0 where
  on_boot on_starting on_started : Hook

-- `mq` is the queue of the process, `hooks` are the calls of the hooks, and a manager is `none` before
-- the first start.
pub record Service (Db Net S V : Type 0) : Type 0 where
  pub state : State
  pub config : ServiceConfig
  pub db : Option Db
  pub net : Option Net
  pub mq : Option (GlobalMq S V)
  pub cancelled : Bool
  pub hooks : List Hook

pub data StartError : Type 0 where
  invalid_transition network_failed database_failed : StartError

unfoldable pub same_state : State → State → Bool
same_state stopped stopped = true
same_state starting starting = true
same_state running running = true
same_state stopping stopping = true
same_state _ _ = false

module _ {S V : Type 0} where
  -- `registerEventHandlers`, with the methods that it registers.
  unfoldable pub register_event_handlers : (ℤ → EventHandlerFunc S) → GlobalMq S V → GlobalMq S V
  register_event_handlers handlers mq =
      register_event_handler_func fixed_rate (handlers fixed_rate) (
        register_event_handler_func sync_time (handlers sync_time) (
          register_event_handler_func heart_beat (handlers heart_beat) (
            register_event_handler_func logic (handlers logic)
              (register_event_handler_func token_check (handlers token_check) mq))))

module _ {Db Net S V : Type 0} where
  unfoldable pub new_service : ServiceConfig → Service Db Net S V
  new_service config = record {
    state = stopped;
    config = config;
    db = none;
    net = none;
    mq = none;
    cancelled = false;
    hooks = [];
  }

  -- `checkAndSetState`; `none` is its error.
  unfoldable pub check_and_set_state :
      State → State → Service Db Net S V → Option (Service Db Net S V)
  unfolding same_state
  check_and_set_state old new s =
      if same_state s.state old then some (record s { state = new }) else none

  unfoldable pub call_hook : Hook → Service Db Net S V → Service Db Net S V
  call_hook hook s = record s { hooks = s.hooks ++ (hook ∷ []) }

  -- The part of `initComponents` for the queue, with its configuration.
  pub queue_for : Option GlobalMqConfig → Service Db Net S V → Run (Service Db Net S V)
  queue_for none s = returns s
  queue_for (some cfg) s =
      if cfg.enabled
      then after_return (λ mq. returns (record s { mq = mq }))
          (init_global_mq cfg.frame_rate (int32 cfg.max_workers) cfg.queue_size s.mq)
      else returns s

  -- `GetGlobalMQ` makes a queue where there is none.
  unfoldable pub with_queue :
      (GlobalMq S V → Run (GlobalMq S V)) → Service Db Net S V → Run (Service Db Net S V)
  with_queue f s =
      after_return
        (λ found. elim found [
          | none ↦ returns s
          | some mq ↦ after_return (λ mq'. returns (record s { mq = some mq' })) (f mq)
        ])
        (get_global_mq s.mq)

  -- `StartWorker` with the number of the configuration, which is dereferenced.
  pub start_queue : Option GlobalMqConfig → Service Db Net S V → Run (Service Db Net S V)
  unfolding with_queue
  start_queue none s = panics
  start_queue (some cfg) s = with_queue (λ mq. returns (start_worker cfg.max_workers mq).0) s

  -- The end of `Start`, after the components have started.
  unfoldable pub set_running : Service Db Net S V → Service Db Net S V
  unfolding call_hook
  set_running s = call_hook on_started (record (call_hook on_starting s) { state = running })

module _ {Db Net S V : Type 0} (managers : Managers Db Net)
    (handlers : ℤ → EventHandlerFunc S) where
  -- `initComponents` and `applyComponents`: the error of the database's `Init` is not looked at.
  unfoldable pub init_components : Service Db Net S V → Run (Service Db Net S V)
  unfolding queue_for
  init_components s =
      after_return
        (λ t.
          after_return
            (λ inited.
              returns
                (record t { db = some inited.0; net = some (managers.new_net t.config.network) }))
            (managers.init_db (managers.new_db t.config.database)))
        (queue_for s.config.global_mq s)

  -- `cleanupComponents` and the state after it.
  unfoldable pub clean_up :
      StartError → Service Db Net S V → Run (Service Db Net S V × Option StartError)
  unfolding with_queue
  clean_up error s =
      after_return (λ t. returns (record t { state = stopped }, some error))
        (with_queue stop_global_mq
          (record s { db = elim s.db [ none ↦ none | some d ↦ some (managers.stop_db d) ] }))

  -- The rest of `startComponents` after the start of the network, which is not stopped where the database
  -- does not start.
  unfoldable pub start_database :
      Option (Net × Bool) → Db → Service Db Net S V → Run (Service Db Net S V × Option StartError)
  unfolding clean_up set_running
  start_database none d s = panics
  start_database (some (n, false)) d s = clean_up network_failed (record s { net = some n })
  start_database (some (n, true)) d s =
      let (d', db_ok) = managers.start_db d in
      let t = record s { net = some n; db = some d' } in
      if db_ok then returns (set_running t, none) else clean_up database_failed t

  -- The managers of `startComponents`.
  unfoldable pub start_managers :
      Db → Net → Service Db Net S V → Run (Service Db Net S V × Option StartError)
  unfolding start_database
  start_managers d n s = start_database (managers.start_net n) d s

  -- `startComponents` after the queue; the managers are there after `applyComponents`.
  pub start_found :
      Option Db → Option Net → Service Db Net S V → Run (Service Db Net S V × Option StartError)
  unfolding start_managers
  start_found (some d) (some n) s = start_managers d n s
  start_found _ _ s = panics

  unfoldable pub start_components :
      Service Db Net S V → Run (Service Db Net S V × Option StartError)
  unfolding start_queue start_found
  start_components s =
      after_return (λ t. start_found t.db t.net t) (start_queue s.config.global_mq s)

  -- `Start` after the components are there.
  unfoldable pub boot : Service Db Net S V → Run (Service Db Net S V × Option StartError)
  unfolding call_hook with_queue register_event_handlers start_components
  boot s =
      after_return start_components
        (with_queue (λ mq. returns (register_event_handlers handlers mq)) (call_hook on_boot s))

  -- `Start` after its check of the state.
  pub start_checked :
      Service Db Net S V
      → Option (Service Db Net S V)
      → Run (Service Db Net S V × Option StartError)
  unfolding init_components boot
  start_checked s none = returns (s, some invalid_transition)
  start_checked s (some s1) = after_return boot (init_components s1)

  unfoldable pub start : Service Db Net S V → Run (Service Db Net S V × Option StartError)
  unfolding check_and_set_state start_checked
  start s = start_checked s (check_and_set_state stopped starting s)

  -- `Stop` after its check, with whether it returns no error.
  pub stop_checked :
      Service Db Net S V → Option (Service Db Net S V) → Run (Service Db Net S V × Bool)
  unfolding with_queue
  stop_checked s none = returns (s, false)
  stop_checked s (some s1) =
      after_return (λ t. returns (record t { state = stopped }, true))
        (with_queue stop_global_mq (record s1 {
          cancelled = true;
          net = elim s1.net [ none ↦ none | some n ↦ some (managers.stop_net n) ];
          db = elim s1.db [ none ↦ none | some d ↦ some (managers.stop_db d) ];
        }))

  unfoldable pub stop : Service Db Net S V → Run (Service Db Net S V × Bool)
  unfolding check_and_set_state stop_checked
  stop s = stop_checked s (check_and_set_state running stopping s)
