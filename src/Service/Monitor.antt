-- ===== src/Service/Monitor.antt =====
-- service.go: the monitoring goroutine, which reports on the queue and the cache and takes the expired items
-- out of the cache, among the other calls on the cache.
pub mod Rounds
use yaice.Base.{ℕ, zero, suc, ◌-◌, List, [], ◌∷◌, ◌++◌, Option, none, some}
use yaice.Base.Lists.{length}
use yaice.Cache.{LruCache, clean_expired, len}
use yaice.Cache.History.{Call, step, run}
use yaice.Core.GlobalMq.{GlobalMq}
use yaice.Service.{State, stopped, starting, running, stopping}
use yaice.Utils.Tool.{Text}

-- `String` of a state: "Stopped", "Starting", "Running" and "Stopping".
unfoldable pub string : State → Text
string stopped = 83 ∷ 116 ∷ 111 ∷ 112 ∷ 112 ∷ 101 ∷ 100 ∷ []
string starting = 83 ∷ 116 ∷ 97 ∷ 114 ∷ 116 ∷ 105 ∷ 110 ∷ 103 ∷ []
string running = 82 ∷ 117 ∷ 110 ∷ 110 ∷ 105 ∷ 110 ∷ 103 ∷ []
string stopping = 83 ∷ 116 ∷ 111 ∷ 112 ∷ 112 ∷ 105 ∷ 110 ∷ 103 ∷ []

-- What one round writes to the log: the length of the queue, the size of the cache with the number of the
-- items that it took out, the time since the start, and the state.
pub record Report : Type 0 where
  pub queue_len : Option ℕ
  pub cleaned : Option (ℕ × ℕ)
  pub uptime : ℕ
  pub state : Text

module _ {S V : Type 0} where
  -- `monitorSystem`, where the queue and the cache may be nil, with the calls of others on the cache between
  -- `Len` and `CleanExpired`.
  unfoldable pub monitor_system :
      ℕ
      → ℕ
      → State
      → Option (GlobalMq S V)
      → List (Call V)
      → Option (LruCache V)
      → Option (LruCache V) × Report
  unfolding string
  monitor_system start now state mq between cache = (
    elim cache [ none ↦ none | some c ↦ some (clean_expired now (run c between)).0 ],
    record {
      queue_len = elim mq [ none ↦ none | some q ↦ some (length q.global_queue) ];
      cleaned = elim cache [
        | none ↦ none
        | some c ↦ some (len c, (clean_expired now (run c between)).1)
      ];
      uptime = now - start;
      state = string state;
    },
  )

-- What happens while the goroutine runs: its timer, the end of the context, and calls on the cache.
pub data MonitorEvent (V : Type 0) : Type 0 where
  ticks : ℕ → List (Call V) → MonitorEvent V
  done : MonitorEvent V
  calls : Call V → MonitorEvent V

-- `running_count` is the counter of the wait group for this goroutine, on which `Stop` waits.
pub record Monitor (V : Type 0) : Type 0 where
  pub cache : LruCache V
  pub reports : List Report
  pub running_count : ℕ

-- `startMonitoring` before its loop.
unfoldable pub start_monitoring : {V : Type 0} → LruCache V → Monitor V
start_monitoring c = record { cache = c; reports = []; running_count = 1 }

module _ {S V : Type 0} (start : ℕ) (state : State) (mq : Option (GlobalMq S V)) where
  -- The branch of the timer, where the goroutine has not ended.
  unfoldable pub on_tick : ℕ → List (Call V) → ℕ → Monitor V → Monitor V
  unfolding monitor_system
  on_tick now between zero m = m
  on_tick now between (suc _) m =
      let round = monitor_system start now state mq between (some m.cache) in
      record m {
        cache = elim round.0 [ none ↦ m.cache | some c ↦ c ];
        reports = m.reports ++ (round.1 ∷ []);
      }

  unfoldable pub monitor_turn : MonitorEvent V → Monitor V → Monitor V
  unfolding on_tick
  monitor_turn (ticks now between) m = on_tick now between m.running_count m
  monitor_turn done m = record m { running_count = 0 }
  monitor_turn (calls c) m = record m { cache = step m.cache c }

  unfoldable pub monitor_loop : List (MonitorEvent V) → Monitor V → Monitor V
  unfolding monitor_turn
  monitor_loop [] m = m
  monitor_loop (e ∷ events) m = monitor_loop events (monitor_turn e m)
