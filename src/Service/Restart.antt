-- ===== src/Service/Restart.antt =====
-- service.go: a start whose managers fail, one without a queue in the configuration, and a second start.
use yaice.Base.{ℕ, ◌≡◌, refl, ap, ◌∙◌, ◌⊎◌, inl, inr, Bool, true, false, Option, none, some, arith}
use yaice.Base.Tests.{if◌then◌else◌, Bool-cases}
use yaice.Base.Int.{ℤ, pos}
use yaice.Config.{GlobalMqConfig}
use yaice.Core.GlobalMq.{GlobalMq, EventHandlerFunc}
use yaice.Core.GlobalMq.{stop as stop_global_mq}
use yaice.Service.{
  stopped, running, stopping, Managers, Service, StartError, network_failed, database_failed,
  same_state, check_and_set_state, clean_up, with_queue, set_running, call_hook, start_database,
  start_managers, start, stop, stop_checked,
}
use yaice.Service.States.{start-reaches}
use yaice.Service.Queues.{QueueIs, with_queue-QueueIs, with_queue-panics, stop-open, stop-closed}
use yaice.Utils.Tool.{returns, panics, after_return}

module _ {Db Net S V : Type 0} (managers : Managers Db Net)
    (handlers : ℤ → EventHandlerFunc S) where
  check_running :
      (s : Service Db Net S V)
      → s.state ≡ running
      → check_and_set_state running stopping s ≡ some (record s { state = stopping })
  unfolding check_and_set_state same_state
  check_running s e =
      ap (λ x. if same_state x running then some (record s { state = stopping }) else none) e

  stop-panics_closed :
      (s : Service Db Net S V) (mq : GlobalMq S V)
      → s.state ≡ running
      → s.mq ≡ some mq
      → mq.closed ≡ true
      → stop managers handlers s ≡ panics
  unfolding stop stop_checked
  stop-panics_closed s mq e there shut =
      ap (stop_checked managers handlers s) (check_running s e)
      ∙ ap (after_return (λ (t : Service Db Net S V). returns (record t { state = stopped }, true)))
          (with_queue-panics stop_global_mq _ mq there (stop-closed mq shut))

  -- `Stop` of a running service whose queue is open returns with no error, and the service is stopped, with
  -- its managers stopped and its queue closed.
  pub stop-returns :
      (s : Service Db Net S V)
      → s.state ≡ running
      → QueueIs false s.mq
      → (t : Service Db Net S V) × (stop managers handlers s ≡ returns (t, true))
        × (t.state ≡ stopped)
        × (t.cancelled ≡ true)
        × ((mq : GlobalMq S V) × (t.mq ≡ some mq) × (mq.closed ≡ true))
  unfolding stop stop_checked
  stop-returns s e opened =
      let (mq, e2, shut) =
        with_queue-QueueIs false (λ mq. mq.closed ≡ true) stop_global_mq
          (record s {
            state = stopping;
            cancelled = true;
            net = elim s.net [ none ↦ none | some n ↦ some (managers.stop_net n) ];
            db = elim s.db [ none ↦ none | some d ↦ some (managers.stop_db d) ];
          })
          opened (λ mq ok. (_, stop-open mq ok, refl)) in
      (
        _,
        ap (stop_checked managers handlers s) (check_running s e)
            ∙ ap
                (after_return
                  (λ (t : Service Db Net S V). returns (record t { state = stopped }, true)))
                e2,
        refl,
        refl,
        (mq, refl, shut),
      )

  some_closed :
      (o : Option (GlobalMq S V))
      → QueueIs true o
      → (mq : GlobalMq S V) × (o ≡ some mq) × (mq.closed ≡ true)
  some_closed none h = absurd (ground arith)
  some_closed (some mq) h = (mq, refl, h)

  clean_up-closed :
      (error : StartError) (s : Service Db Net S V) (mq : GlobalMq S V)
      → s.mq ≡ some mq
      → mq.closed ≡ true
      → clean_up managers handlers error s ≡ panics
  unfolding clean_up
  clean_up-closed error s mq there shut =
      ap
        (after_return
          (λ (t : Service Db Net S V). returns (record t { state = stopped }, some error)))
        (with_queue-panics stop_global_mq
          (record s { db = elim s.db [ none ↦ none | some d ↦ some (managers.stop_db d) ] }) mq
          there (stop-closed mq shut))

  clean_up-open :
      (error : StartError) (s : Service Db Net S V) (d : Db)
      → s.db ≡ some d
      → QueueIs false s.mq
      → (mq : GlobalMq S V) × (clean_up managers handlers error s
          ≡ returns (
            record s { db = some (managers.stop_db d); mq = some mq; state = stopped },
            some error,
          ))
  unfolding clean_up
  clean_up-open error s d there opened =
      let cleaned = λ (o : Option Db). record s {
        db = elim o [ none ↦ none | some d ↦ some (managers.stop_db d) ];
      } in
      let end =
        after_return
          (λ (t : Service Db Net S V). returns (record t { state = stopped }, some error)) in
      let (mq, e, _) =
        with_queue-QueueIs false (λ mq. Unit) stop_global_mq (cleaned (some d)) opened
          (λ mq ok. (_, stop-open mq ok, tt)) in
      (mq, ap (λ o. end (with_queue stop_global_mq (cleaned o))) there ∙ ap end e)

  start_database-closed :
      (started : Option (Net × Bool)) (d : Db) (s : Service Db Net S V)
      → QueueIs true s.mq
      → (start_database managers handlers started d s ≡ panics)
        ⊎ ((t : Service Db Net S V) × (start_database managers handlers started d s
              ≡ returns (t, none))
            × (stop managers handlers t ≡ panics))
  unfolding start_database clean_up set_running call_hook
  start_database-closed none d s shut = inl refl
  start_database-closed (some (n, false)) d s shut =
      let (mq, there, e) = some_closed s.mq shut in
      inl (clean_up-closed network_failed (record s { net = some n }) mq there e)
  start_database-closed (some (n, true)) d s shut =
      let (mq, there, e) = some_closed s.mq shut in
      let u = record s { net = some n; db = some (managers.start_db d).0 } in
      elim (Bool-cases (managers.start_db d).1) [
        | inl up ↦
            inr (set_running u, rw up refl, stop-panics_closed (set_running u) mq refl there e)
        | inr down ↦ inl (rw down (clean_up-closed database_failed u mq there e))
      ]

  -- A start of a stopped service whose queue is closed, as `Stop` leaves it, whose configuration has a
  -- queue of size at least 0 and whose database manager returns from `Init`, panics or reports
  -- success, and the service that it reports cannot be stopped: `Stop` panics.
  pub start-closed :
      (s : Service Db Net S V) (cfg : GlobalMqConfig) (k : ℕ) (inited : Db × Bool)
      → s.state ≡ stopped
      → s.config.global_mq ≡ some cfg
      → cfg.queue_size ≡ pos k
      → QueueIs true s.mq
      → managers.init_db (managers.new_db s.config.database) ≡ returns inited
      → (start managers handlers s ≡ panics)
        ⊎ ((t : Service Db Net S V) × (start managers handlers s ≡ returns (t, none))
            × (stop managers handlers t ≡ panics))
  unfolding start_managers
  start-closed s cfg k inited at_rest there size shut inits =
      let (t, e, ok) =
        start-reaches managers handlers true s cfg k inited at_rest there size shut inits in
      elim (start_database-closed (managers.start_net (managers.new_net s.config.network)) inited.0
        t ok) [ inl e2 ↦ inl (e ∙ e2) | inr (u, e2, e3) ↦ inr (u, e ∙ e2, e3) ]

  -- Of a stopped service with a queue of size at least 0 in its configuration and no closed one, whose
  -- network starts and whose database is not ready after an `Init` that returns, `Start` reports an error
  -- with the service stopped and the database's manager stopped, and leaves the network running.
  pub start-database_failed :
      (s : Service Db Net S V) (cfg : GlobalMqConfig) (k : ℕ) (inited : Db × Bool) (n : Net)
      → s.state ≡ stopped
      → s.config.global_mq ≡ some cfg
      → cfg.queue_size ≡ pos k
      → QueueIs false s.mq
      → managers.init_db (managers.new_db s.config.database) ≡ returns inited
      → managers.start_net (managers.new_net s.config.network) ≡ some (n, true)
      → managers.db_ready inited.0 ≡ false
      → (t : Service Db Net S V) × (d : Db) × (start managers handlers s
          ≡ returns (t, some database_failed))
        × (t.state ≡ stopped)
        × (t.net ≡ some n)
        × (managers.net_ready n ≡ true)
        × (t.db ≡ some d)
        × (managers.db_ready d ≡ false)
  unfolding start_managers
  start-database_failed s cfg k inited n at_rest there size opened inits net_up unready =
      let (t, e, ok) =
        start-reaches managers handlers false s cfg k inited at_rest there size opened inits in
      let u = record t { net = some n; db = some (managers.start_db inited.0).0 } in
      let (mq, e2) = clean_up-open database_failed u (managers.start_db inited.0).0 refl ok in
      (
        record u {
          db = some (managers.stop_db (managers.start_db inited.0).0);
          mq = some mq;
          state = stopped;
        },
        managers.stop_db (managers.start_db inited.0).0,
        e ∙ rw (net_up, managers.start_db-unready inited.0 unready) e2,
        refl,
        refl,
        managers.start_net-ready (managers.new_net s.config.network) n net_up,
        refl,
        managers.stop_db-ready (managers.start_db inited.0).0,
      )
