-- ===== src/Service/Queues.antt =====
-- service.go: what the service does with the queue of messages, closed or not.
use yaice.Base.{ℕ, ◌≡◌, refl, sym, ap, Bool, true, false, Option, none, some, arith}
use yaice.Base.Tests.{if_cases}
use yaice.Base.Int.{ℤ, pos, int32}
use yaice.Config.{GlobalMqConfig}
use yaice.Core.GlobalMq.{
  GlobalMq, EventHandlerFunc, get_global_mq, init_global_mq, start_worker,
  register_event_handler_func,
}
use yaice.Core.GlobalMq.{stop as stop_global_mq}
use yaice.Service.{Service, with_queue, queue_for, register_event_handlers}
use yaice.Utils.Tool.{Run, returns, panics, after_return}

module _ {S V : Type 0} where
  -- Whether the queue is closed; where there is none yet, the one that is made is open.
  abbrev pub QueueIs : Bool → Option (GlobalMq S V) → Type 0
  QueueIs b none = b ≡ false
  QueueIs b (some mq) = mq.closed ≡ b

  get_global_mq-QueueIs :
      (b : Bool) (o : Option (GlobalMq S V))
      → QueueIs b o
      → (mq : GlobalMq S V) × (get_global_mq o ≡ returns (some mq)) × (mq.closed ≡ b)
  unfolding get_global_mq init_global_mq
  get_global_mq-QueueIs b none h = (_, refl, sym h)
  get_global_mq-QueueIs b (some mq) h = (mq, refl, h)

  init_global_mq-QueueIs :
      (frame_rate max_workers queue_size : ℤ) (k : ℕ) (b : Bool) (o : Option (GlobalMq S V))
      → queue_size ≡ pos k
      → QueueIs b o
      → (mq : GlobalMq S V) × (init_global_mq frame_rate max_workers queue_size o
          ≡ returns (some mq))
        × (mq.closed ≡ b)
  unfolding init_global_mq
  init_global_mq-QueueIs frame_rate max_workers queue_size k b (some mq) size h = (mq, refl, h)
  init_global_mq-QueueIs frame_rate max_workers queue_size k b none size h =
      rw size (_, refl, sym h)

  pub stop-open :
      (mq : GlobalMq S V)
      → mq.closed ≡ false
      → stop_global_mq mq ≡ returns (record mq { cancelled = true; closed = true })
  unfolding stop_global_mq
  stop-open mq h = ground arith

  pub stop-closed : (mq : GlobalMq S V) → mq.closed ≡ true → stop_global_mq mq ≡ panics
  unfolding stop_global_mq
  stop-closed mq h = ground arith

pub registers_open :
    {S V : Type 0} (handlers : ℤ → EventHandlerFunc S) (mq : GlobalMq S V)
    → (register_event_handlers handlers mq).closed ≡ mq.closed
unfolding register_event_handlers register_event_handler_func
registers_open handlers mq = refl

pub workers_open :
    {S V : Type 0} (n : ℤ) (mq : GlobalMq S V) → (start_worker n mq).0.closed ≡ mq.closed
unfolding start_worker
workers_open n mq = ground arith

module _ {Db Net S V : Type 0} where
  -- A call on the queue that gives r, where r says what it gives for any queue, closed or not as it is.
  pub with_queue-QueueIs :
      (b : Bool) (P : GlobalMq S V → Type 0) (f : GlobalMq S V → Run (GlobalMq S V))
      (s : Service Db Net S V)
      → QueueIs b s.mq
      → ((mq : GlobalMq S V) → mq.closed ≡ b → (mq' : GlobalMq S V) × (f mq ≡ returns mq') × P mq')
      → (mq' : GlobalMq S V) × (with_queue f s ≡ returns (record s { mq = some mq' })) × P mq'
  unfolding with_queue
  with_queue-QueueIs b P f s is_b call =
      let (mq, got, ok) = get_global_mq-QueueIs b s.mq is_b in
      let (mq', called, p) = call mq ok in
      (mq', rw got (ap (after_return (λ m. returns (record s { mq = some m }))) called), p)

  pub with_queue-panics :
      (f : GlobalMq S V → Run (GlobalMq S V)) (s : Service Db Net S V) (mq : GlobalMq S V)
      → s.mq ≡ some mq
      → f mq ≡ panics
      → with_queue f s ≡ panics
  unfolding with_queue get_global_mq
  with_queue-panics f s mq there e = rw there (rw e refl)

  pub queue_for-QueueIs :
      (b : Bool) (s : Service Db Net S V) (cfg : GlobalMqConfig) (k : ℕ)
      → cfg.queue_size ≡ pos k
      → QueueIs b s.mq
      → (o : Option (GlobalMq S V)) × (queue_for (some cfg) s ≡ returns (record s { mq = o }))
        × QueueIs b o
  unfolding queue_for
  queue_for-QueueIs b s cfg k size opened =
      let (mq, e, ok) =
        init_global_mq-QueueIs cfg.frame_rate (int32 cfg.max_workers) cfg.queue_size k b s.mq size
          opened in
      if_cases
        (λ x. (o : Option (GlobalMq S V)) × (x ≡ returns (record s { mq = o })) × QueueIs b o)
        cfg.enabled _ _
        (λ on. (some mq, ap (after_return (λ o. returns (record s { mq = o }))) e, ok))
        (λ off. (s.mq, refl, opened))
