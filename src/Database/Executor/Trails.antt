-- ===== src/Database/Executor/Trails.antt =====
-- database/shard_manager.go: the events of an executor, in the order of their acceptance.
use mathlib.Core.List.{append-nil, append_assoc}
use yaice.Base.{
  ℕ, ◌≤◌, ◌≡◌, refl, sym, ap, ◌∙◌, ◌⊎◌, inl, inr, Bool, List, [], ◌∷◌, ◌++◌, Option, none, some,
  arith,
}
use yaice.Base.Tests.{if_cases, ltb, leb, if◌then◌else◌, Option-cases}
use yaice.Base.Lists.{length, List-cases}
use yaice.Database.Executor.{
  WriteEvent, ShardExecutor, Action, submitted, call_back, flush_events, flush, on_event,
}

-- The parts of the entries, one after the other.
abbrev pub joined {ℓ κ} : {A : Type ℓ} {B : Type κ} → (A → List B) → List A → List B
joined f [] = []
joined f (x ∷ xs) = f x ++ joined f xs

pub joined-append {ℓ κ} :
    {A : Type ℓ} {B : Type κ} (f : A → List B) (xs ys : List A)
    → joined f (xs ++ ys) ≡ joined f xs ++ joined f ys
joined-append f [] ys = refl
joined-append f (x ∷ xs) ys =
    ap (λ zs. f x ++ zs) (joined-append f xs ys)
    ∙ sym (append_assoc (f x) (joined f xs) (joined f ys))

pub joined_snoc {ℓ κ} :
    {A : Type ℓ} {B : Type κ} (f : A → List B) (xs : List A) (x : A)
    → joined f (xs ++ (x ∷ [])) ≡ joined f xs ++ f x
joined_snoc f xs x = joined-append f xs (x ∷ []) ∙ ap (λ zs. joined f xs ++ zs) (append-nil (f x))

abbrev pub optional : {C : Type 0} → Option C → List C
optional none = []
optional (some c) = c ∷ []

module _ {M C : Type 0} where
  abbrev pub models_of : List (WriteEvent M C) → List M
  models_of = joined (λ (e : WriteEvent M C). e.model ∷ [])

  abbrev pub callbacks_of : List (WriteEvent M C) → List C
  callbacks_of = joined (λ (e : WriteEvent M C). optional e.callback)

module _ {M C E : Type 0} where
  abbrev pub all_written : ShardExecutor M C E → List M
  all_written s = joined (λ (w : List M × Option E). w.0) s.writes

  abbrev pub all_called : ShardExecutor M C E → List C
  all_called s = joined (λ (c : C × Option E). c.0 ∷ []) s.called

  -- The models written, held and queued, in that order, and the callbacks called, held and queued.
  abbrev pub model_trail : ShardExecutor M C E → List M
  model_trail s = all_written s ++ (s.buffer ++ models_of s.queue)

  abbrev pub callback_trail : ShardExecutor M C E → List C
  callback_trail s = all_called s ++ (callbacks_of s.events ++ callbacks_of s.queue)

  abbrev pub accepted_now : Action M C → ShardExecutor M C E → List (WriteEvent M C)
  accepted_now (submitted evt) s = if ltb (length s.queue) s.queue_size then evt ∷ [] else []
  accepted_now _ s = []

  pub joined-call_back :
      (err : Option E) (events : List (WriteEvent M C))
      → joined (λ (c : C × Option E). c.0 ∷ []) (call_back err events) ≡ callbacks_of events
  unfolding call_back
  joined-call_back err [] = refl
  joined-call_back err (e ∷ events) = elim (Option-cases e.callback) [
    | inl none_there ↦ rw (none_there, joined-call_back err events) refl
    | inr (c, there) ↦ rw (there, joined-call_back err events) refl
  ]

module _ {M C E : Type 0} where
  abbrev pub SameTrails : ShardExecutor M C E → ShardExecutor M C E → Type 0
  SameTrails s s' = (model_trail s' ≡ model_trail s) × (callback_trail s' ≡ callback_trail s)

module _ {M C E : Type 0} (bulk_write : Bool → ℕ → List M → Option E) where
  abbrev pub flushed : ShardExecutor M C E → ShardExecutor M C E
  flushed s = record (flush_events bulk_write s) { buffer = []; events = [] }

  -- The closure writes the buffer or, where that is empty, does nothing.
  pub flush-cases :
      (s : ShardExecutor M C E)
      → ((s.buffer ≡ []) × (flush bulk_write s ≡ s))
        ⊎ ((1 ≤ length s.buffer) × (flush bulk_write s ≡ flushed s))
  unfolding flush
  flush-cases s = elim (List-cases s.buffer) [
    | inl e ↦ inl (e, ground arith)
    | inr (x, xs, e) ↦ inr (ground arith, ground arith)
  ]

  pub flushed-SameTrails : (s : ShardExecutor M C E) → SameTrails s (flushed s)
  unfolding flush_events
  flushed-SameTrails s =
      let err = bulk_write s.cancelled (length s.writes) s.buffer in
      (
        ap (λ zs. zs ++ models_of s.queue)
              (joined_snoc (λ (w : List M × Option E). w.0) s.writes (s.buffer, err))
            ∙ append_assoc (all_written s) s.buffer (models_of s.queue),
        ap (λ zs. zs ++ callbacks_of s.queue)
              (joined-append (λ (c : C × Option E). c.0 ∷ []) s.called (call_back err s.events)
                ∙ ap (λ zs. all_called s ++ zs) (joined-call_back err s.events))
            ∙ append_assoc (all_called s) (callbacks_of s.events) (callbacks_of s.queue),
      )

  pub flush-SameTrails : (s : ShardExecutor M C E) → SameTrails s (flush bulk_write s)
  flush-SameTrails s = elim (flush-cases s) [
    | inl (e, e2) ↦ (ap model_trail e2, ap callback_trail e2)
    | inr (_, e) ↦
        let same = flushed-SameTrails s in (ap model_trail e ∙ same.0, ap callback_trail e ∙ same.1)
  ]

  pub on_event-SameTrails :
      (evt : WriteEvent M C) (rest : List (WriteEvent M C)) (s : ShardExecutor M C E)
      → s.queue ≡ evt ∷ rest
      → SameTrails s (on_event bulk_write evt (record s { queue = rest }))
  unfolding on_event
  on_event-SameTrails evt rest s e =
      let kept = record s {
        queue = rest;
        buffer = s.buffer ++ (evt.model ∷ []);
        events = s.events ++ (evt ∷ []);
      } in
      let models : model_trail kept ≡ model_trail s =
        ap (λ zs. all_written s ++ zs)
          (append_assoc s.buffer (evt.model ∷ []) (models_of rest)
            ∙ ap (λ (q : List (WriteEvent M C)). s.buffer ++ models_of q) (sym e)) in
      let callbacks : callback_trail kept ≡ callback_trail s =
        ap (λ zs. all_called s ++ zs)
          (ap (λ zs. zs ++ callbacks_of rest)
              (joined_snoc (λ (x : WriteEvent M C). optional x.callback) s.events evt)
            ∙ append_assoc (callbacks_of s.events) (optional evt.callback) (callbacks_of rest)
            ∙ ap (λ (q : List (WriteEvent M C)). callbacks_of s.events ++ callbacks_of q)
                (sym e)) in
      let same = flush-SameTrails kept in
      if_cases (SameTrails s) (leb s.batch_size (length kept.buffer)) _ _
        (λ full. (same.0 ∙ models, same.1 ∙ callbacks)) (λ room. (models, callbacks))
