-- ===== src/Service/States.antt =====
-- service.go: the states of a service between its calls.
use yaice.Base.{ℕ, ◌≡◌, refl, ap, ap₂, ◌∙◌, ◌⊎◌, inl, inr, Bool, true, false, Option, none, some}
use yaice.Base.Tests.{if◌then◌else◌, Bool-cases}
use yaice.Base.Int.{ℤ, pos}
use yaice.Config.{GlobalMqConfig}
use yaice.Core.GlobalMq.{EventHandlerFunc, start_worker}
use yaice.Core.GlobalMq.{stop as stop_global_mq}
use yaice.Service.{
  State, stopped, starting, running, stopping, Managers, Service, StartError, network_failed,
  database_failed, same_state, check_and_set_state, clean_up, set_running, start_database,
  start_managers, start_queue, queue_for, start_found, start_checked, boot, register_event_handlers,
  start_components, init_components, start, call_hook, on_boot,
}
use yaice.Utils.Tool.{returns, after_return}
use yaice.Service.Queues.{
  QueueIs, stop-open, registers_open, workers_open, with_queue-QueueIs, queue_for-QueueIs,
}

pub same_state_iff : (a b : State) → ((same_state a b ≡ true) × (a ≡ b)) ⊎ (same_state a b ≡ false)
unfolding same_state
same_state_iff stopped stopped = inl (refl, refl)
same_state_iff stopped starting = inr refl
same_state_iff stopped running = inr refl
same_state_iff stopped stopping = inr refl
same_state_iff starting stopped = inr refl
same_state_iff starting starting = inl (refl, refl)
same_state_iff starting running = inr refl
same_state_iff starting stopping = inr refl
same_state_iff running stopped = inr refl
same_state_iff running starting = inr refl
same_state_iff running running = inl (refl, refl)
same_state_iff running stopping = inr refl
same_state_iff stopping stopped = inr refl
same_state_iff stopping starting = inr refl
same_state_iff stopping running = inr refl
same_state_iff stopping stopping = inl (refl, refl)

module _ {Db Net S V : Type 0} where
  -- A start that reports no error leaves the service running, and one that reports an error stopped.
  abbrev pub Outcome : Service Db Net S V × Option StartError → Type 0
  Outcome (t, none) = t.state ≡ running
  Outcome (t, some e) = t.state ≡ stopped

module _ {Db Net S V : Type 0} (managers : Managers Db Net)
    (handlers : ℤ → EventHandlerFunc S) where
  clean_up-Outcome :
      (error : StartError) (s : Service Db Net S V)
      → QueueIs false s.mq
      → (r : Service Db Net S V × Option StartError) × (clean_up managers handlers error s
          ≡ returns r)
        × Outcome r
  unfolding clean_up
  clean_up-Outcome error s opened =
      let (mq, e, _) =
        with_queue-QueueIs false (λ mq. Unit) stop_global_mq
          (record s { db = elim s.db [ none ↦ none | some d ↦ some (managers.stop_db d) ] }) opened
          (λ mq ok. (_, stop-open mq ok, tt)) in
      (_, ap (after_return (λ t. returns (record t { state = stopped }, some error))) e, refl)

  start_database-Outcome :
      (started : Net × Bool) (d : Db) (s : Service Db Net S V)
      → QueueIs false s.mq
      → (r : Service Db Net S V × Option StartError) × (start_database managers handlers
            (some started)
            d
            s
          ≡ returns r)
        × Outcome r
  unfolding start_database set_running call_hook
  start_database-Outcome (n, false) d s opened =
      clean_up-Outcome network_failed (record s { net = some n }) opened
  start_database-Outcome (n, true) d s opened = elim (Bool-cases (managers.start_db d).1) [
    | inl up ↦ rw up (_, refl, refl)
    | inr down ↦ rw down (
        clean_up-Outcome database_failed
          (record s { net = some n; db = some (managers.start_db d).0 }) opened)
  ]

  check_stopped :
      (s : Service Db Net S V)
      → s.state ≡ stopped
      → check_and_set_state stopped starting s ≡ some (record s { state = starting })
  unfolding check_and_set_state same_state
  check_stopped s e =
      ap (λ x. if same_state x stopped then some (record s { state = starting }) else none) e

  init_components-QueueIs :
      (b : Bool) (s : Service Db Net S V) (cfg : GlobalMqConfig) (k : ℕ) (inited : Db × Bool)
      → s.config.global_mq ≡ some cfg
      → cfg.queue_size ≡ pos k
      → QueueIs b s.mq
      → managers.init_db (managers.new_db s.config.database) ≡ returns inited
      → (t : Service Db Net S V) × (init_components managers handlers s ≡ returns t)
        × QueueIs b t.mq
        × (t.db ≡ some inited.0)
        × (t.net ≡ some (managers.new_net s.config.network))
        × (t.config.global_mq ≡ some cfg)
  unfolding init_components
  init_components-QueueIs b s cfg k inited there size opened e2 =
      let (o, e1, ok) = queue_for-QueueIs b s cfg k size opened in
      let join = λ (t : Service Db Net S V) (x : Db × Bool). record t {
        db = some x.0;
        net = some (managers.new_net t.config.network);
      } in
      let chain = λ (t : Service Db Net S V).
        after_return (λ (x : Db × Bool). returns (join t x))
          (managers.init_db (managers.new_db t.config.database)) in
      (
        join (record s { mq = o }) inited,
        ap (λ g. after_return chain (queue_for g s)) there
            ∙ ap (after_return chain) e1
            ∙ ap (after_return (λ (x : Db × Bool). returns (join (record s { mq = o }) x))) e2,
        ok,
        refl,
        refl,
        there,
      )

  start_components-reaches :
      (b : Bool) (s : Service Db Net S V) (cfg : GlobalMqConfig) (d : Db) (n : Net)
      → s.db ≡ some d
      → s.net ≡ some n
      → s.config.global_mq ≡ some cfg
      → QueueIs b s.mq
      → (t : Service Db Net S V) × (start_components managers handlers s
          ≡ start_managers managers handlers d n t)
        × QueueIs b t.mq
  unfolding start_components start_queue start_found
  start_components-reaches b s cfg d n has_db has_net there opened =
      let (mq, e, ok) =
        with_queue-QueueIs b (λ mq. mq.closed ≡ b)
          (λ mq. returns (start_worker cfg.max_workers mq).0) s opened
          (λ mq ok. (_, refl, workers_open cfg.max_workers mq ∙ ok)) in
      let t = record s { mq = some mq } in
      (
        t,
        ap (λ g. after_return (λ u. start_found managers handlers u.db u.net u) (start_queue g s))
              there
            ∙ ap (after_return (λ u. start_found managers handlers u.db u.net u)) e
            ∙ ap₂ (λ x y. start_found managers handlers x y t) has_db has_net,
        ok,
      )

  boot-reaches :
      (b : Bool) (s : Service Db Net S V) (cfg : GlobalMqConfig) (d : Db) (n : Net)
      → s.db ≡ some d
      → s.net ≡ some n
      → s.config.global_mq ≡ some cfg
      → QueueIs b s.mq
      → (t : Service Db Net S V) × (boot managers handlers s
          ≡ start_managers managers handlers d n t)
        × QueueIs b t.mq
  unfolding boot call_hook
  boot-reaches b s cfg d n has_db has_net there opened =
      let (mq, e, ok) =
        with_queue-QueueIs b (λ mq. mq.closed ≡ b)
          (λ mq. returns (register_event_handlers handlers mq)) (call_hook on_boot s) opened
          (λ mq ok. (_, refl, registers_open handlers mq ∙ ok)) in
      let (t, e2, done) =
        start_components-reaches b (record (call_hook on_boot s) { mq = some mq }) cfg d n has_db
          has_net there ok in
      (t, ap (after_return (start_components managers handlers)) e ∙ e2, done)

  -- A start of a stopped service whose configuration has a queue gets as far as its managers.
  pub start-reaches :
      (b : Bool) (s : Service Db Net S V) (cfg : GlobalMqConfig) (k : ℕ) (inited : Db × Bool)
      → s.state ≡ stopped
      → s.config.global_mq ≡ some cfg
      → cfg.queue_size ≡ pos k
      → QueueIs b s.mq
      → managers.init_db (managers.new_db s.config.database) ≡ returns inited
      → (t : Service Db Net S V) × (start managers handlers s
          ≡ start_managers managers handlers inited.0 (managers.new_net s.config.network) t)
        × QueueIs b t.mq
  unfolding start start_checked
  start-reaches b s cfg k inited at_rest there size is_b inits =
      let s1 = record s { state = starting } in
      let (s2, e2, ok2, has_db, has_net, keeps) =
        init_components-QueueIs b s1 cfg k inited there size is_b inits in
      let (t, e3, ok) =
        boot-reaches b s2 cfg inited.0 (managers.new_net s.config.network) has_db has_net keeps
          ok2 in
      (
        t,
        ap (start_checked managers handlers s) (check_stopped s at_rest)
            ∙ ap (after_return (boot managers handlers)) e2
            ∙ e3,
        ok,
      )

  -- A stopped service whose configuration has a queue of messages of size at least 0, with no closed
  -- queue left from before, whose database manager returns from `Init` and whose network manager does not
  -- panic in its start, returns from `Start`: running and with no error, or stopped and with one, never in
  -- between.
  pub start-Outcome :
      (s : Service Db Net S V) (cfg : GlobalMqConfig) (k : ℕ) (inited : Db × Bool)
      (started : Net × Bool)
      → s.state ≡ stopped
      → s.config.global_mq ≡ some cfg
      → cfg.queue_size ≡ pos k
      → QueueIs false s.mq
      → managers.init_db (managers.new_db s.config.database) ≡ returns inited
      → managers.start_net (managers.new_net s.config.network) ≡ some started
      → (r : Service Db Net S V × Option StartError) × (start managers handlers s ≡ returns r)
        × Outcome r
  unfolding start_managers
  start-Outcome s cfg k inited started at_rest there size opened inits starts =
      let (t, e, ok) = start-reaches false s cfg k inited at_rest there size opened inits in
      let (r, e2, done) = start_database-Outcome started inited.0 t ok in
      (r, e ∙ ap (λ o. start_database managers handlers o inited.0 t) starts ∙ e2, done)
