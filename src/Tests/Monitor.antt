-- ===== src/Tests/Monitor.antt =====
-- The theorem on a round of the monitoring goroutine at a concrete history.
use yaice.Base.{ℕ, ◌≡◌, refl, List, [], ◌∷◌, Option, none, arith}
use yaice.Base.Int.{pos}
use yaice.Cache.{new_lru_cache}
use yaice.Cache.History.{Call, puts}
use yaice.Core.GlobalMq.{GlobalMq}
use yaice.Service.{running}
use yaice.Service.Monitor.{
  MonitorEvent, ticks, calls, Monitor, start_monitoring, monitor_turn, monitor_loop, on_tick,
}
use yaice.Service.Monitor.Rounds.{IsRound, monitor_loop-IsRound}

abbrev no_queue : Option (GlobalMq ℕ ℕ)
no_queue = none

-- An item that expires after 5 units of time and one that stays, with a round in between.
abbrev cache_events : List (MonitorEvent ℕ)
cache_events =
    calls (puts 0 0 (pos 3) 90 (pos 5))
    ∷ ticks 1000 []
    ∷ calls (puts 2000 2000 (pos 4) 91 (pos 0))
    ∷ []

-- A call between the two halves of the round.
abbrev one_call : List (Call ℕ)
one_call = puts 8999 8999 (pos 5) 92 (pos 1) ∷ []

abbrev watched : Monitor ℕ
watched =
    monitor_loop 0 running no_queue cache_events
      (start_monitoring (new_lru_cache (pos 10) (pos 100) none))

watched_on : watched.running_count ≡ 1
unfolding monitor_loop monitor_turn on_tick start_monitoring
watched_on = refl

monitor_loop-IsRound_example :
    IsRound 9000 one_call watched (monitor_turn 0 running no_queue (ticks 9000 one_call) watched)
monitor_loop-IsRound_example =
    monitor_loop-IsRound 0 running no_queue (pos 10) (pos 100) none cache_events 9000 one_call
      (omega (arith, watched_on))
