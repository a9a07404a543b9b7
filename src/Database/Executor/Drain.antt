-- ===== src/Database/Executor/Drain.antt =====
-- database/shard_manager.go: the turns in which an executor writes all that it has accepted.
use mathlib.Core.List.{append-nil, append_assoc}
use yaice.Base.{
  ℕ, ◌≡◌, refl, sym, ap, ap₂, ◌∙◌, inl, inr, Bool, false, List, [], ◌∷◌, ◌++◌, map, Option, none,
  some, arith,
}
use yaice.Base.Tests.{if_cases, leb}
use yaice.Base.Lists.{length, List-cases}
use yaice.Database.Executor.{
  WriteEvent, ShardExecutor, Action, received, ticked, flush_events, flush, on_event, receive, act,
  then_run, run,
}
use yaice.Database.Executor.Trails.{
  flush-cases, flushed, joined, joined_snoc, flush-SameTrails, on_event-SameTrails, callback_trail,
  all_called, models_of, callbacks_of,
}
use yaice.Database.Executor.Batches.{IsSound, on_event-IsSound}

-- What the database keeps of a call of `BulkWrite`.
abbrev pub stored_now : {M E : Type 0} → List M × Option E → List M
stored_now (models, none) = models
stored_now (models, some err) = []

module _ {M C E : Type 0} (bulk_write : Bool → ℕ → List M → Option E) where
  -- As many turns as there are queued events, and then a tick.
  abbrev pub drain : List (WriteEvent M C) → List (Action M C)
  drain [] = ticked ∷ []
  drain (evt ∷ queue) = received ∷ drain queue

  flush-fields :
      (s : ShardExecutor M C E)
      → ((flush bulk_write s).queue ≡ s.queue) × ((flush bulk_write s).stopped ≡ s.stopped)
  unfolding flush flush_events
  flush-fields s = elim (List-cases s.buffer) [
    | inl e ↦ ground arith
    | inr (_, _, e) ↦ ground arith
  ]

  on_event-fields :
      (evt : WriteEvent M C) (s : ShardExecutor M C E)
      → ((on_event bulk_write evt s).queue ≡ s.queue)
        × ((on_event bulk_write evt s).stopped ≡ s.stopped)
  unfolding on_event
  on_event-fields evt s =
      let kept = record s {
        buffer = s.buffer ++ (evt.model ∷ []);
        events = s.events ++ (evt ∷ []);
      } in
      let f = flush-fields kept in
      if_cases (λ (t : ShardExecutor M C E). (t.queue ≡ s.queue) × (t.stopped ≡ s.stopped))
        (leb s.batch_size (length kept.buffer)) _ _ (λ full. f) (λ partly. (refl, refl))

  flush-empties :
      (s : ShardExecutor M C E)
      → IsSound s
      → ((flush bulk_write s).buffer ≡ []) × ((flush bulk_write s).events ≡ [])
  unfolding flush_events
  flush-empties s h = elim (flush-cases bulk_write s) [
    | inl (e, e2) ↦ (
      ap (λ (t : ShardExecutor M C E). t.buffer) e2 ∙ e,
      ap (λ (t : ShardExecutor M C E). t.events) e2 ∙ no_events s.events (sym h.matching ∙ e),
    )
    | inr (_, e) ↦
        (ap (λ (t : ShardExecutor M C E). t.buffer) e, ap (λ (t : ShardExecutor M C E). t.events) e)
  ]
    where
      no_events :
          (events : List (WriteEvent M C))
          → map (λ (x : WriteEvent M C). x.model) events ≡ []
          → events ≡ []
      no_events [] e = refl
      no_events (x ∷ events) e = absurd (ground arith)

  act-ticked :
      (s : ShardExecutor M C E)
      → s.stopped ≡ false
      → act bulk_write ticked s ≡ some (flush bulk_write s)
  unfolding act
  act-ticked s go = ground arith

  act-received :
      (evt : WriteEvent M C) (queue : List (WriteEvent M C)) (s : ShardExecutor M C E)
      → s.queue ≡ evt ∷ queue
      → s.stopped ≡ false
      → act bulk_write received s ≡ some (on_event bulk_write evt (record s { queue = queue }))
  unfolding act receive
  act-received evt queue s e go = ground arith

  -- The models that the database has stored: those of the writes that had no error.
  abbrev pub stored : ShardExecutor M C E → List M
  stored s = joined stored_now s.writes

  abbrev pub store_trail : ShardExecutor M C E → List M
  store_trail s = stored s ++ (s.buffer ++ models_of s.queue)

  -- Where nothing is held or queued, all of the trails is behind.
  trails_end :
      (s : ShardExecutor M C E)
      → s.buffer ≡ []
      → s.events ≡ []
      → s.queue ≡ []
      → (stored s ≡ store_trail s) × (all_called s ≡ callback_trail s)
  trails_end s e e2 e3 = (
    sym (append-nil (stored s))
        ∙ ap₂ (λ (b : List M) (q : List (WriteEvent M C)). stored s ++ (b ++ models_of q)) (sym e)
            (sym e3),
    sym (append-nil (all_called s))
        ∙ ap₂ (λ (b q : List (WriteEvent M C)). all_called s ++ (callbacks_of b ++ callbacks_of q))
            (sym e2) (sym e3),
  )

  -- The driver has no error while the context is not cancelled.
  module _ (works : (n : ℕ) (models : List M) → bulk_write false n models ≡ none) where
    flushed-stores :
        (s : ShardExecutor M C E)
        → s.cancelled ≡ false
        → (store_trail (flushed bulk_write s) ≡ store_trail s)
          × ((flushed bulk_write s).cancelled ≡ false)
    unfolding flush_events
    flushed-stores s live =
        let answer : bulk_write s.cancelled (length s.writes) s.buffer ≡ none =
          ap (λ (b : Bool). bulk_write b (length s.writes) s.buffer) live
          ∙ works (length s.writes) s.buffer in
        (
          ap (λ zs. zs ++ models_of s.queue)
                (joined_snoc stored_now s.writes
                    (s.buffer, bulk_write s.cancelled (length s.writes) s.buffer)
                  ∙ ap (λ (err : Option E). stored s ++ stored_now (s.buffer, err)) answer)
              ∙ append_assoc (stored s) s.buffer (models_of s.queue),
          live,
        )

    flush-stores :
        (s : ShardExecutor M C E)
        → s.cancelled ≡ false
        → (store_trail (flush bulk_write s) ≡ store_trail s)
          × ((flush bulk_write s).cancelled ≡ false)
    flush-stores s live = elim (flush-cases bulk_write s) [
      | inl (_, e) ↦ (ap store_trail e, ap (λ (t : ShardExecutor M C E). t.cancelled) e ∙ live)
      | inr (_, e) ↦
          let same = flushed-stores s live in
          (ap store_trail e ∙ same.0, ap (λ (t : ShardExecutor M C E). t.cancelled) e ∙ same.1)
    ]

    on_event-stores :
        (evt : WriteEvent M C) (rest : List (WriteEvent M C)) (s : ShardExecutor M C E)
        → s.queue ≡ evt ∷ rest
        → s.cancelled ≡ false
        → (let t = on_event bulk_write evt (record s { queue = rest }) in
            (store_trail t ≡ store_trail s) × (t.cancelled ≡ false))
    unfolding on_event
    on_event-stores evt rest s e live =
        let kept = record s {
          queue = rest;
          buffer = s.buffer ++ (evt.model ∷ []);
          events = s.events ++ (evt ∷ []);
        } in
        let models : store_trail kept ≡ store_trail s =
          ap (λ zs. stored s ++ zs)
            (append_assoc s.buffer (evt.model ∷ []) (models_of rest)
              ∙ ap (λ (q : List (WriteEvent M C)). s.buffer ++ models_of q) (sym e)) in
        let same = flush-stores kept live in
        if_cases
          (λ (t : ShardExecutor M C E). (store_trail t ≡ store_trail s) × (t.cancelled ≡ false))
          (leb s.batch_size (length kept.buffer)) _ _ (λ full. (same.0 ∙ models, same.1))
          (λ room. (models, live))

    -- A sound executor whose goroutine runs and whose context is not cancelled, on a database that has no
    -- error then, has after as many turns as there are queued events and a tick an empty queue: the
    -- database has stored, behind what it had stored before, the model of each event that was held or
    -- queued, in the order of their acceptance and each once, and each callback of these events is
    -- called once, in the same order.
    pub run-drain :
        (queue : List (WriteEvent M C)) (s : ShardExecutor M C E)
        → s.queue ≡ queue
        → s.stopped ≡ false
        → s.cancelled ≡ false
        → IsSound s
        → (s' : ShardExecutor M C E) × (run bulk_write (drain queue) s ≡ some s')
          × (stored s' ≡ stored s ++ (s.buffer ++ models_of s.queue))
          × (all_called s' ≡ callback_trail s)
          × (s'.queue ≡ [])
    unfolding run then_run
    run-drain [] s e go live h =
        let f = flush-fields s in
        let empty = flush-empties s h in
        let same = flush-SameTrails bulk_write s in
        let ends = trails_end (flush bulk_write s) empty.0 empty.1 (f.0 ∙ e) in
        (
          flush bulk_write s,
          ap (then_run (run bulk_write [])) (act-ticked s go),
          ends.0 ∙ (flush-stores s live).0,
          ends.1 ∙ same.1,
          f.0 ∙ e,
        )
    run-drain (evt ∷ queue) s e go live h =
        let t = on_event bulk_write evt (record s { queue = queue }) in
        let f = on_event-fields evt (record s { queue = queue }) in
        let same = on_event-SameTrails bulk_write evt queue s e in
        let stores = on_event-stores evt queue s e live in
        let (s', e1, w, c, q) =
          run-drain queue t f.0 (f.1 ∙ go) stores.1 (on_event-IsSound bulk_write evt queue s e h) in
        (
          s',
          ap (then_run (run bulk_write (drain queue))) (act-received evt queue s e go) ∙ e1,
          w ∙ stores.0,
          c ∙ same.1,
          q,
        )
