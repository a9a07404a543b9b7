-- ===== src/Cache/Reads.antt =====
-- What can be read after a call: which items a cleaning drops, and `Get` after `Put`.
use mathlib.Core.List.{Nodup, Nodup-cons, lookup}
use yaice.Base.{
  ℕ, ◌+◌, ◌≤◌, ◌≡◌, ◌≢◌, refl, ap, ◌⊎◌, ◌∙◌, inl, inr, ite, Bool, false, ◌&&◌, List, [], ◌∷◌,
  Option, none, some, arith,
}
use yaice.Base.Tests.{Option-cases, if◌then◌else◌}
use yaice.Base.Lists.{All}
use yaice.Base.Int.{ℤ, ℤ_discrete}
use yaice.Base.Assoc.{keys, none_of_not-mem, lookup-insert_self, lookup-insert, lookup-delete}
use yaice.Cache.Eviction.{MakesRoom, unchanged, removed, make_room-MakesRoom, MakesRoom-absent}
use yaice.Cache.Invariant.{IsConsistent, make_room-IsConsistent, push_item-IsConsistent}
use yaice.Cache.{
  CacheItem, LruCache, is_eligible, is_expired, remove_item, clean_entries, clean_expired_eligible,
  clean_expired, make_room, push_item, shrink_to_core, expire_at, add_item, move_to_front,
  read_item, get, put,
}

-- The clock has not passed an expiry.
abbrev pub IsLive : ℕ → Option ℕ → Type 0
IsLive t none = Unit
IsLive t (some x) = t ≤ x

module _ {V : Type 0} where
  -- The test by which a cleaning drops an item: it is expired and the filter gives it up.
  unfoldable pub goes : ℕ → LruCache V → ℤ → Option (CacheItem V) → Bool
  goes now c k none = false
  goes now c k (some item) = is_expired now item && is_eligible c k item.value

  goes-remove_item :
      (now : ℕ) (c : LruCache V) (x : CacheItem V) (k : ℤ) (o : Option (CacheItem V))
      → goes now (remove_item c x) k o ≡ goes now c k o
  unfolding goes remove_item is_eligible
  goes-remove_item now c x k none = refl
  goes-remove_item now c x k (some item) = refl

  pub lookup-remove_item :
      (q : ℤ) (c : LruCache V) (item : CacheItem V)
      → lookup ℤ_discrete q (remove_item c item).items
        ≡ ite (ℤ_discrete q item.key) none (lookup ℤ_discrete q c.items)
  unfolding remove_item
  lookup-remove_item q c item = lookup-delete ℤ_discrete q item.key c.items

  lookup_head :
      (q k : ℤ) (item : CacheItem V) (es : List (ℤ × CacheItem V))
      → lookup ℤ_discrete q ((k, item) ∷ es)
        ≡ ite (ℤ_discrete q k) (some item) (lookup ℤ_discrete q es)
  unfolding lookup
  lookup_head q k item es = refl

  lookup-clean_entries :
      (now : ℕ) (q : ℤ) (es : List (ℤ × CacheItem V)) (c : LruCache V) (n : ℕ)
      → Nodup (keys es)
      → All (λ e. e.1.key ≡ e.0) es
      → lookup ℤ_discrete q (clean_entries now es c n).0.items
        ≡ (if goes now c q (lookup ℤ_discrete q es) then none else lookup ℤ_discrete q c.items)
  unfolding clean_entries goes lookup
  lookup-clean_entries now q [] c n d h = refl
  lookup-clean_entries now q ((k, item) ∷ es) c n d h = ground (
    arith,
    fresh,
    h.0,
    lookup-clean_entries now q es (remove_item c item) (n + 1) (Nodup-cons.0 d).1 h.1,
    lookup-clean_entries now q es c n (Nodup-cons.0 d).1 h.1,
    goes-remove_item now c item q (lookup ℤ_discrete q es),
    lookup-remove_item q c item,
  )
    where
      fresh : q ≡ k → lookup ℤ_discrete q es ≡ none
      fresh p = none_of_not-mem ℤ_discrete q es (rw p (Nodup-cons.0 d).0)

  -- In a consistent cache `CleanExpired` drops every item that is expired and that the filter gives up,
  -- and leaves what any other key reads.
  pub lookup-clean_expired :
      (now : ℕ) (q : ℤ) (c : LruCache V)
      → IsConsistent c
      → lookup ℤ_discrete q (clean_expired now c).0.items
        ≡ (if goes now c q (lookup ℤ_discrete q c.items) then none else lookup ℤ_discrete q c.items)
  unfolding clean_expired clean_expired_eligible
  lookup-clean_expired now q c h = lookup-clean_entries now q c.items c 0 h.distinct h.keyed

  is_expired-IsLive :
      (t : ℕ) (item : CacheItem V) (o : Option ℕ)
      → item.expire_time ≡ o
      → IsLive t o
      → is_expired t item ≡ false
  unfolding is_expired
  is_expired-IsLive t item none e h = rw (e, is_expired)
  is_expired-IsLive t item (some x) e h = rw (e, is_expired) (ground arith)

  lookup-shrink_to_core :
      (now : ℕ) (k : ℤ) (c : LruCache V) (item : CacheItem V)
      → IsConsistent c
      → lookup ℤ_discrete k c.items ≡ some item
      → is_expired now item ≡ false
      → lookup ℤ_discrete k (shrink_to_core now c).items ≡ some item
  unfolding shrink_to_core clean_expired goes
  lookup-shrink_to_core now k c item h e live = ground (arith, lookup-clean_expired now k c h)

  -- The item that `Put` writes, if it is not yet expired when the cache is cleaned.
  lookup-put_self :
      (now later : ℕ) (k : ℤ) (v : V) (expire : ℤ) (c : LruCache V)
      → IsConsistent c
      → IsLive later (expire_at now expire)
      → (item : CacheItem V) × (lookup ℤ_discrete k (put now later k v expire c).items ≡ some item)
        × (item.value ≡ v)
        × (item.expire_time ≡ expire_at now expire)
  unfolding put add_item move_to_front
  lookup-put_self now later k v expire c h live =
      elim (Option-cases (lookup ℤ_discrete k c.items)) [
        | inl e ↦
            rw (e, put)
              (
                fresh,
                lookup-shrink_to_core later k (push_item fresh (make_room c)) fresh
                    (push_item-IsConsistent fresh (make_room c)
                      (MakesRoom-absent k (make_room-MakesRoom c) e) (make_room-IsConsistent c h))
                    (pushed (make_room c)) (is_expired-IsLive later fresh _ refl live),
                refl,
                refl,
              )
        | inr (item, e) ↦
            let item' : CacheItem V = record item {
              value = v;
              expire_time = expire_at now expire;
            } in
            rw (e, put) (item', lookup-insert_self ℤ_discrete k item' c.items, refl, refl)
      ]
    where
      fresh : CacheItem V
      fresh = record { key = k; value = v; expire_time = expire_at now expire }

      pushed : (c : LruCache V) → lookup ℤ_discrete k (push_item fresh c).items ≡ some fresh
      pushed c = unfold push_item in lookup-insert_self ℤ_discrete k fresh c.items

  get-live :
      (t u : ℕ) (k : ℤ) (c : LruCache V) (item : CacheItem V)
      → lookup ℤ_discrete k c.items ≡ some item
      → is_expired t item ≡ false
      → get t u k c ≡ (move_to_front k c, some item.value)
  unfolding get read_item
  get-live t u k c item e live = rw (e, get) (rw live refl)

  -- In a consistent cache a `Get` returns the value of the `Put` before it under the same key, whether
  -- the key was new or not, as long as neither the cleaning of `Put` nor the `Get` comes after the
  -- expiry that `Put` set.
  pub get-put_self :
      (now later t u : ℕ) (k : ℤ) (v : V) (expire : ℤ) (c : LruCache V)
      → IsConsistent c
      → IsLive later (expire_at now expire)
      → IsLive t (expire_at now expire)
      → (get t u k (put now later k v expire c)).1 ≡ some v
  get-put_self now later t u k v expire c h live live' =
      let (item, e, value, expiry) = lookup-put_self now later k v expire c h live in
      ap (λ (r : LruCache V × Option V). r.1)
        (get-live t u k _ item e (is_expired-IsLive t item _ expiry live'))
      ∙ ap some value

  -- What a key reads in the second cache is what it reads in the first, or nothing.
  abbrev pub Drops : ℤ → LruCache V → LruCache V → Type 0
  Drops j c c' =
      (lookup ℤ_discrete j c'.items ≡ lookup ℤ_discrete j c.items)
      ⊎ (lookup ℤ_discrete j c'.items ≡ none)

  Drops-trans : (j : ℤ) (c c' c'' : LruCache V) → Drops j c c' → Drops j c' c'' → Drops j c c''
  Drops-trans j c c' c'' d (inr gone) = inr gone
  Drops-trans j c c' c'' (inl same) (inl same') = inl (same' ∙ same)
  Drops-trans j c c' c'' (inr gone) (inl same') = inr (same' ∙ gone)

  MakesRoom-Drops : (j : ℤ) {c c' : LruCache V} → MakesRoom c c' → Drops j c c'
  MakesRoom-Drops j unchanged = inl refl
  MakesRoom-Drops j {c} (removed k item at) = ground (arith, lookup-remove_item j c item)

  shrink_to_core-Drops :
      (now : ℕ) (j : ℤ) (c : LruCache V) → IsConsistent c → Drops j c (shrink_to_core now c)
  unfolding shrink_to_core clean_expired
  shrink_to_core-Drops now j c h = ground (arith, lookup-clean_expired now j c h)

  push_item-Drops :
      (j : ℤ) (item : CacheItem V) (c : LruCache V) → j ≢ item.key → Drops j c (push_item item c)
  unfolding push_item
  push_item-Drops j item c ne = ground (arith, lookup-insert ℤ_discrete j item.key item c.items)

  -- In a consistent cache `Put` changes what another key reads only by dropping that key's item.
  pub put-Drops :
      (now later : ℕ) (j k : ℤ) (v : V) (expire : ℤ) (c : LruCache V)
      → IsConsistent c
      → j ≢ k
      → Drops j c (put now later k v expire c)
  unfolding put add_item move_to_front
  put-Drops now later j k v expire c h ne = elim (Option-cases (lookup ℤ_discrete k c.items)) [
    | inr (item, e) ↦
        let item' : CacheItem V = record item { value = v; expire_time = expire_at now expire } in
        rw (e, put) (ground (arith, lookup-insert ℤ_discrete j k item' c.items))
    | inl e ↦
        rw (e, put)
          (Drops-trans j c (make_room c) (shrink_to_core later (push_item fresh (make_room c)))
            (MakesRoom-Drops j (make_room-MakesRoom c))
            (Drops-trans j (make_room c) (push_item fresh (make_room c))
              (shrink_to_core later (push_item fresh (make_room c)))
              (push_item-Drops j fresh (make_room c) ne)
              (shrink_to_core-Drops later j _ (
                push_item-IsConsistent fresh (make_room c)
                  (MakesRoom-absent k (make_room-MakesRoom c) e) (make_room-IsConsistent c h)))))
  ]
    where
      fresh : CacheItem V
      fresh = record { key = k; value = v; expire_time = expire_at now expire }
