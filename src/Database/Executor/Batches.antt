-- ===== src/Database/Executor/Batches.antt =====
-- database/shard_manager.go: the sizes of the batches that an executor writes, and an executor whose
-- goroutine has returned.
use mathlib.Core.Path.{subst}
use yaice.Base.{
  ℕ, ◌≤◌, ◌<◌, ◌≡◌, refl, sym, ap, ◌∙◌, inl, inr, Bool, true, List, [], ◌∷◌, ◌++◌, map, Option,
  some, arith,
}
use yaice.Base.Tests.{ltb, leb, Bool-cases, Option-cases, eq-of_some}
use yaice.Base.Lists.{length, length-append, All}
use yaice.Database.Executor.{
  WriteEvent, ShardExecutor, Action, submitted, received, ticked, done, cancels, submit,
  flush_events, flush, on_event, act, then_run, run,
}
use yaice.Database.Executor.Actions.{received-cases, ticked-cases, done-cases}
use yaice.Database.Executor.Trails.{flush-cases}

module _ {M E : Type 0} where
  abbrev pub IsBatch : ℕ → List M × Option E → Type 0
  IsBatch n w = (1 ≤ length w.0) × (length w.0 ≤ n)

  All-snoc :
      (n : ℕ) (ws : List (List M × Option E)) (w : List M × Option E)
      → All (IsBatch n) ws
      → IsBatch n w
      → All (IsBatch n) (ws ++ (w ∷ []))
  All-snoc n [] w h at_end = (at_end, tt)
  All-snoc n (v ∷ ws) w h at_end = (h.0, All-snoc n ws w h.1 at_end)

module _ {M C E : Type 0} where
  -- The buffer, which holds the models of the events, is below the batch size, the queue within its
  -- capacity, and every batch written has from one model to as many as the batch size.
  pub record IsSound (s : ShardExecutor M C E) : Type 0 where
    pub matching : s.buffer ≡ map (λ (e : WriteEvent M C). e.model) s.events
    pub below : length s.buffer < s.batch_size
    pub room : length s.queue ≤ s.queue_size
    pub batches : All (IsBatch s.batch_size) s.writes

pub map-snoc :
    {A B : Type 0} (f : A → B) (xs : List A) (x : A)
    → map f (xs ++ (x ∷ [])) ≡ map f xs ++ (f x ∷ [])
map-snoc f [] x = refl
map-snoc f (y ∷ xs) x = ap (λ zs. f y ∷ zs) (map-snoc f xs x)

module _ {M C E : Type 0} (bulk_write : Bool → ℕ → List M → Option E) where
  flush-nonempty :
      (s : ShardExecutor M C E)
      → 1 ≤ length s.buffer
      → flush bulk_write s ≡ record (flush_events bulk_write s) { buffer = []; events = [] }
  flush-nonempty s h = elim (flush-cases bulk_write s) [
    | inl (e, _) ↦ absurd (ground arith)
    | inr (_, e) ↦ e
  ]

  -- A write of a buffer that fills a batch at most leaves a sound executor.
  flushed-IsSound :
      (s : ShardExecutor M C E)
      → 1 ≤ length s.buffer
      → length s.buffer ≤ s.batch_size
      → length s.queue ≤ s.queue_size
      → All (IsBatch s.batch_size) s.writes
      → IsSound (flush bulk_write s)
  unfolding flush_events
  flushed-IsSound s h h2 room batches = subst IsSound (sym (flush-nonempty s h)) (record {
    matching = refl;
    below = omega arith;
    room = room;
    batches = All-snoc s.batch_size s.writes _ batches (h, h2);
  })

  flush-IsSound : (s : ShardExecutor M C E) → IsSound s → IsSound (flush bulk_write s)
  flush-IsSound s h = elim (flush-cases bulk_write s) [
    | inl (e, e2) ↦ subst IsSound (sym e2) h
    | inr (some_in, e) ↦ let b = h.below in flushed-IsSound s some_in (omega arith) h.room h.batches
  ]

  pub on_event-IsSound :
      (evt : WriteEvent M C) (rest : List (WriteEvent M C)) (s : ShardExecutor M C E)
      → s.queue ≡ evt ∷ rest
      → IsSound s
      → IsSound (on_event bulk_write evt (record s { queue = rest }))
  unfolding on_event
  on_event-IsSound evt rest s e h =
      let kept = record s {
        queue = rest;
        buffer = s.buffer ++ (evt.model ∷ []);
        events = s.events ++ (evt ∷ []);
      } in
      let longer = length-append s.buffer (evt.model ∷ []) in
      let shorter = ap length e in
      let b = h.below in
      let r = h.room in
      elim (Bool-cases (leb s.batch_size (length kept.buffer))) [
        | inl full ↦
            rw full (flushed-IsSound kept (omega arith) (omega arith) (omega arith) h.batches)
        | inr partly ↦ rw partly (record {
          matching =
              ap (λ zs. zs ++ (evt.model ∷ [])) h.matching
              ∙ sym (map-snoc (λ (x : WriteEvent M C). x.model) s.events evt);
          below = ground arith;
          room = omega arith;
          batches = h.batches;
        })
      ]

  submit-IsSound :
      (evt : WriteEvent M C) (s : ShardExecutor M C E) → IsSound s → IsSound (submit evt s).0
  unfolding submit
  submit-IsSound evt s h =
      let longer = length-append s.queue (evt ∷ []) in
      elim (Bool-cases (ltb (length s.queue) s.queue_size)) [
        | inl free ↦ rw free (record {
          matching = h.matching;
          below = h.below;
          room = ground arith;
          batches = h.batches;
        })
        | inr full ↦ rw full h
      ]

  act-IsSound :
      (a : Action M C) (s s' : ShardExecutor M C E)
      → act bulk_write a s ≡ some s'
      → IsSound s
      → IsSound s'
  unfolding act submit
  act-IsSound (submitted evt) s s' e h = subst IsSound (eq-of_some e) (submit-IsSound evt s h)
  act-IsSound received s s' e h =
      let (evt, rest, at, go, e2) = received-cases bulk_write s s' e in
      subst IsSound e2 (on_event-IsSound evt rest s at h)
  act-IsSound ticked s s' e h = subst IsSound (ticked-cases bulk_write s s' e).1 (flush-IsSound s h)
  act-IsSound done s s' e h =
      let (go, end, e2) = done-cases bulk_write s s' e in
      let f = flush-IsSound s h in
      subst IsSound e2
        (record { matching = f.matching; below = f.below; room = f.room; batches = f.batches })
  act-IsSound cancels s s' e h =
      subst IsSound (eq-of_some e)
        (record { matching = h.matching; below = h.below; room = h.room; batches = h.batches })

  -- Whatever happens to a sound executor, it stays sound: each write has at least one model and at most as
  -- many as the batch size, and the queue never outgrows its capacity.
  pub run-IsSound :
      (actions : List (Action M C)) (s s' : ShardExecutor M C E)
      → run bulk_write actions s ≡ some s'
      → IsSound s
      → IsSound s'
  unfolding run then_run
  run-IsSound [] s s' e h = subst IsSound (eq-of_some e) h
  run-IsSound (a ∷ actions) s s' e h = elim (Option-cases (act bulk_write a s)) [
    | inl e1 ↦ absurd (ground arith)
    | inr (t, e1) ↦ run-IsSound actions t s' (ground arith) (act-IsSound a s t e1 h)
  ]

  act-stopped :
      (a : Action M C) (s s' : ShardExecutor M C E)
      → s.stopped ≡ true
      → act bulk_write a s ≡ some s'
      → (s'.writes ≡ s.writes) × (s'.called ≡ s.called) × (s'.stopped ≡ true)
  unfolding act submit
  act-stopped (submitted evt) s s' stop e = ground arith
  act-stopped received s s' stop e = ground arith
  act-stopped ticked s s' stop e = ground arith
  act-stopped done s s' stop e = ground arith
  act-stopped cancels s s' stop e = ground arith

  -- An executor whose goroutine has returned writes nothing and calls nothing back any more, whatever
  -- happens; it goes on accepting events.
  pub run-stopped :
      (actions : List (Action M C)) (s s' : ShardExecutor M C E)
      → s.stopped ≡ true
      → run bulk_write actions s ≡ some s'
      → (s'.writes ≡ s.writes) × (s'.called ≡ s.called) × (s'.stopped ≡ true)
  unfolding run then_run
  run-stopped [] s s' stop e = ground arith
  run-stopped (a ∷ actions) s s' stop e = elim (Option-cases (act bulk_write a s)) [
    | inl e1 ↦ absurd (ground arith)
    | inr (t, e1) ↦
        let (w, c, stop') = act-stopped a s t stop e1 in
        let (w', c', stop'') = run-stopped actions t s' stop' (ground arith) in
        (w' ∙ w, c' ∙ c, stop'')
  ]
