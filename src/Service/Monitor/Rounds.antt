-- ===== src/Service/Monitor/Rounds.antt =====
-- service.go: what a round of the monitoring goroutine leaves of the cache, and the end of the goroutine.
use mathlib.Core.List.{lookup}
use yaice.Base.{
  ℕ, zero, suc, ◌+◌, ◌≡◌, ◌≢◌, refl, sym, ap, ◌∙◌, inl, inr, Bool, false, ◌&&◌, List, [], ◌∷◌, ◌++◌,
  Option, none, some, arith,
}
use yaice.Base.Tests.{if◌then◌else◌, Bool-cases}
use yaice.Base.Int.{ℤ, ℤ_discrete}
use yaice.Cache.{CacheItem, LruCache, new_lru_cache, clean_expired, len, is_expired, is_eligible}
use yaice.Cache.Cleaning.{len-clean_expired}
use yaice.Cache.History.{Call, run, run-IsConsistent, step, step-IsConsistent, cleans_expired}
use yaice.Cache.Invariant.{IsConsistent, new_lru_cache-IsConsistent}
use yaice.Cache.Reads.{goes, lookup-clean_expired}
use yaice.Core.GlobalMq.{GlobalMq}
use yaice.Service.{State}
use yaice.Service.Monitor.{
  Report, MonitorEvent, ticks, done, calls, Monitor, monitor_system, start_monitoring, on_tick,
  monitor_turn, monitor_loop,
}

-- A round at a time, with the calls of others on the cache between its two halves: it is reported once, with
-- the size of the cache before and the number of the items that went, which are just the items that are
-- expired and that the filter gives up.
pub record IsRound {V : Type 0} (now : ℕ) (between : List (Call V)) (m m' : Monitor V)
    : Type 0 where
  pub report : Report
  pub cleaned : ℕ
  pub reported : m'.reports ≡ m.reports ++ (report ∷ [])
  pub counted : report.cleaned ≡ some (len m.cache, cleaned)
  pub sizes : len m'.cache + cleaned ≡ len (run m.cache between)
  pub consistent : IsConsistent m'.cache
  pub live :
      (q : ℤ) (item : CacheItem V)
      → lookup ℤ_discrete q m'.cache.items ≡ some item
      → (is_expired now item && is_eligible (run m.cache between) q item.value ≡ false)
        × (lookup ℤ_discrete q (run m.cache between).items ≡ some item)
  pub kept :
      (q : ℤ) (item : CacheItem V)
      → lookup ℤ_discrete q (run m.cache between).items ≡ some item
      → (is_expired now item && is_eligible (run m.cache between) q item.value ≡ false)
      → lookup ℤ_discrete q m'.cache.items ≡ some item

module _ {S V : Type 0} (start : ℕ) (state : State) (mq : Option (GlobalMq S V)) where
  live_after :
      (now : ℕ) (c : LruCache V) (q : ℤ) (item : CacheItem V)
      → IsConsistent c
      → lookup ℤ_discrete q (clean_expired now c).0.items ≡ some item
      → (is_expired now item && is_eligible c q item.value ≡ false)
        × (lookup ℤ_discrete q c.items ≡ some item)
  unfolding goes
  live_after now c q item h at =
      let looked = sym (lookup-clean_expired now q c h) ∙ at in
      elim (Bool-cases (goes now c q (lookup ℤ_discrete q c.items))) [
        | inl t ↦ cc
        | inr f ↦
            let found =
              sym (ap (λ (b : Bool). if b then none else lookup ℤ_discrete q c.items) f) ∙ looked in
            (sym (ap (goes now c q) found) ∙ f, found)
      ]

  kept_after :
      (now : ℕ) (c : LruCache V) (q : ℤ) (item : CacheItem V)
      → IsConsistent c
      → lookup ℤ_discrete q c.items ≡ some item
      → (is_expired now item && is_eligible c q item.value ≡ false)
      → lookup ℤ_discrete q (clean_expired now c).0.items ≡ some item
  unfolding goes
  kept_after now c q item h at stays =
      lookup-clean_expired now q c h
      ∙ ap (λ (o : Option (CacheItem V)). if goes now c q o then none else o) at
      ∙ ap (λ (b : Bool). if b then none else some item) stays

  on_tick-IsConsistent :
      (now : ℕ) (between : List (Call V)) (count : ℕ) (m : Monitor V)
      → IsConsistent m.cache
      → IsConsistent (on_tick start state mq now between count m).cache
  unfolding on_tick monitor_system step
  on_tick-IsConsistent now between zero m h = h
  on_tick-IsConsistent now between (suc count) m h =
      step-IsConsistent (run m.cache between) (cleans_expired now)
        (run-IsConsistent m.cache between h)

  monitor_turn-IsConsistent :
      (e : MonitorEvent V) (m : Monitor V)
      → IsConsistent m.cache
      → IsConsistent (monitor_turn start state mq e m).cache
  unfolding monitor_turn
  monitor_turn-IsConsistent (ticks now between) m h =
      on_tick-IsConsistent now between m.running_count m h
  monitor_turn-IsConsistent done m h = h
  monitor_turn-IsConsistent (calls c) m h = step-IsConsistent m.cache c h

  monitor_loop-IsConsistent :
      (events : List (MonitorEvent V)) (m : Monitor V)
      → IsConsistent m.cache
      → IsConsistent (monitor_loop start state mq events m).cache
  unfolding monitor_loop
  monitor_loop-IsConsistent [] m h = h
  monitor_loop-IsConsistent (e ∷ events) m h =
      monitor_loop-IsConsistent events (monitor_turn start state mq e m)
        (monitor_turn-IsConsistent e m h)

  on_tick-IsRound :
      (now : ℕ) (between : List (Call V)) (count : ℕ) (m : Monitor V)
      → IsConsistent m.cache
      → count ≢ 0
      → IsRound now between m (on_tick start state mq now between count m)
  unfolding on_tick monitor_system step
  on_tick-IsRound now between zero m h on = absurd (on refl)
  on_tick-IsRound now between (suc count) m h on = record {
    report = (monitor_system start now state mq between (some m.cache)).1;
    cleaned = (clean_expired now (run m.cache between)).1;
    reported = refl;
    counted = refl;
    sizes = len-clean_expired now (run m.cache between) (run-IsConsistent m.cache between h);
    consistent =
        step-IsConsistent (run m.cache between) (cleans_expired now)
          (run-IsConsistent m.cache between h);
    live = λ q item at.
        live_after now (run m.cache between) q item (run-IsConsistent m.cache between h) at;
    kept = λ q item at stays.
        kept_after now (run m.cache between) q item (run-IsConsistent m.cache between h) at stays;
  }

  -- Whatever calls on the cache and rounds came before on a service with a new cache, a round at a time
  -- reports once and takes just the expired items that the filter gives up out of the cache, also where
  -- others call the cache between its two halves, as long as the goroutine has not ended.
  pub monitor_loop-IsRound :
      (min_size core_size : ℤ) (filter : Option (ℤ → V → Bool)) (events : List (MonitorEvent V))
      (now : ℕ) (between : List (Call V))
      → let m =
          monitor_loop start state mq events
            (start_monitoring (new_lru_cache min_size core_size filter)) in
        m.running_count ≢ 0
        → IsRound now between m (monitor_turn start state mq (ticks now between) m)
  unfolding monitor_turn start_monitoring
  monitor_loop-IsRound min_size core_size filter events now between on =
      let m =
        monitor_loop start state mq events
          (start_monitoring (new_lru_cache min_size core_size filter)) in
      on_tick-IsRound now between m.running_count m
        (monitor_loop-IsConsistent events _ (new_lru_cache-IsConsistent min_size core_size filter))
        on

  on_tick-ended :
      (now : ℕ) (between : List (Call V)) (count : ℕ) (m : Monitor V)
      → count ≡ 0
      → on_tick start state mq now between count m ≡ m
  unfolding on_tick
  on_tick-ended now between zero m off = refl
  on_tick-ended now between (suc count) m off = absurd (omega arith)

  monitor_loop-ended :
      (events : List (MonitorEvent V)) (m : Monitor V)
      → m.running_count ≡ 0
      → ((monitor_loop start state mq events m).reports ≡ m.reports)
        × ((monitor_loop start state mq events m).running_count ≡ 0)
  unfolding monitor_loop monitor_turn
  monitor_loop-ended [] m off = (refl, off)
  monitor_loop-ended (ticks now between ∷ events) m off =
      let same = on_tick-ended now between m.running_count m off in
      let (reports, count) = monitor_loop-ended events m off in
      (
        ap (λ (w : Monitor V). (monitor_loop start state mq events w).reports) same ∙ reports,
        ap (λ (w : Monitor V). (monitor_loop start state mq events w).running_count) same ∙ count,
      )
  monitor_loop-ended (done ∷ events) m off =
      monitor_loop-ended events (record m { running_count = 0 }) refl
  monitor_loop-ended (calls c ∷ events) m off =
      monitor_loop-ended events (record m { cache = step m.cache c }) off

  -- Once the context is done the goroutine has ended: nothing is reported any more, whatever happens, and the
  -- wait of `Stop` is over.
  pub monitor_loop-done :
      (events : List (MonitorEvent V)) (m : Monitor V)
      → ((monitor_loop start state mq (done ∷ events) m).reports ≡ m.reports)
        × ((monitor_loop start state mq (done ∷ events) m).running_count ≡ 0)
  unfolding monitor_loop monitor_turn
  monitor_loop-done events m = monitor_loop-ended events (record m { running_count = 0 }) refl
