-- ===== src/Cache/Bounds.antt =====
-- How many items a cache with no filter comes to hold: the minimum size is in fact a maximum.
use mathlib.Core.List.{lookup}
use yaice.Base.{
  ℕ, ◌+◌, ◌≤◌, ◌<◌, ◌≡◌, refl, ap, inl, inr, List, [], ◌∷◌, none, arith, ◌&&◌, ℕ_discrete,
}
use yaice.Base.Tests.{Bool-cases, Option-cases}
use yaice.Base.Lists.{length}
use yaice.Base.Int.{ℤ, ◌≤ℤ◌, pos, ltb_ℤ, ℤ_discrete}
use yaice.Base.Assoc.{insert, length-delete, length-delete-le}
use yaice.Cache.Invariant.{IsConsistent, new_lru_cache-IsConsistent}
use yaice.Cache.History.{
  Call, gets, puts, deletes, clears, removes_eligible, cleans_expired, sets_hook, step, run,
  step-IsConsistent,
}
use yaice.Cache.Cases.{get_cases}
use yaice.Cache.Eviction.{MakesRoom, unchanged, removed, make_room-MakesRoom}
use yaice.Cache.{
  CacheItem, LruCache, new_lru_cache, set_load_value_from_db_hook, is_eligible, is_expired,
  remove_item, len, get, put, delete_key, clear, remove_eligible, clean_expired,
  clean_expired_eligible, add_item, push_item, shrink_to_core, make_room, move_to_front,
  clean_entries, remove_keys,
}
use yaice.Cache.Sizes.{evict-length, evict_empty}

-- At most `n` items, in a cache with no filter whose minimum size is at most `n`.
pub record Fits {V : Type 0} (n : ℕ) (c : LruCache V) : Type 0 where
  pub unfiltered : c.filter ≡ none
  pub minimum : c.min_size ≤ℤ pos n
  pub positive : 0 < n
  pub bounded : length c.items ≤ n

module _ {V : Type 0} where
  remove_item-Fits :
      (n : ℕ) (c : LruCache V) (item : CacheItem V) → Fits n c → Fits n (remove_item c item)
  unfolding remove_item
  remove_item-Fits n c item f = record {
    unfiltered = f.unfiltered;
    minimum = f.minimum;
    positive = f.positive;
    bounded = omega (arith, length-delete-le ℤ_discrete item.key c.items, f.bounded);
  }

  make_room-Fits : (n : ℕ) (c : LruCache V) → Fits n c → Fits n (make_room c)
  make_room-Fits n c f = go (make_room-MakesRoom c)
    where
      go : {c' : LruCache V} → MakesRoom c c' → Fits n c'
      go unchanged = f
      go (removed k item at) = remove_item-Fits n c item f

  -- One item more fits after `make_room`.
  make_room-length :
      (n : ℕ) (c : LruCache V) → IsConsistent c → Fits n c → length (make_room c).items + 1 ≤ n
  unfolding make_room
  make_room-length n c h f = elim (ℕ_discrete (length c.items) 0) [
    | yes z ↦ ground (arith, ap length (evict_empty c z), f.positive, f.minimum)
    | no nz ↦ ground (arith, evict-length c h f.unfiltered nz, f.bounded, f.minimum)
  ]

  clean_entries-Fits :
      (n now : ℕ) (es : List (ℤ × CacheItem V)) (c : LruCache V) (k : ℕ)
      → Fits n c
      → Fits n (clean_entries now es c k).0
  unfolding clean_entries
  clean_entries-Fits n now [] c k f = f
  clean_entries-Fits n now ((key, item) ∷ es) c k f =
      elim (Bool-cases (is_expired now item && is_eligible c key item.value)) [
        | inl t ↦
            rw (t, clean_entries) (clean_entries-Fits n now es _ _ (remove_item-Fits n c item f))
        | inr e ↦ rw (e, clean_entries) (clean_entries-Fits n now es c k f)
      ]

  delete_key-Fits : (n : ℕ) (k : ℤ) (c : LruCache V) → Fits n c → Fits n (delete_key k c).0
  unfolding delete_key
  delete_key-Fits n k c f = elim (Option-cases (lookup ℤ_discrete k c.items)) [
    | inl e ↦ rw (e, delete_key) f
    | inr (item, e) ↦ rw (e, delete_key) (remove_item-Fits n c item f)
  ]

  remove_keys-Fits :
      (n : ℕ) (ks : List ℤ) (c : LruCache V) (r : ℕ) → Fits n c → Fits n (remove_keys ks c r).0
  unfolding remove_keys
  remove_keys-Fits n [] c r f = f
  remove_keys-Fits n (k ∷ ks) c r f = remove_keys-Fits n ks _ _ (delete_key-Fits n k c f)

  shrink_to_core-Fits : (n now : ℕ) (c : LruCache V) → Fits n c → Fits n (shrink_to_core now c)
  unfolding shrink_to_core clean_expired_eligible
  shrink_to_core-Fits n now c f = elim (Bool-cases (ltb_ℤ c.core_size (pos (length c.items)))) [
    | inl t ↦ rw t (clean_entries-Fits n now c.items c 0 f)
    | inr e ↦ rw e f
  ]

  push_item-Fits :
      (n : ℕ) (c : LruCache V) (item : CacheItem V)
      → Fits n c
      → length c.items + 1 ≤ n
      → Fits n (push_item item c)
  unfolding push_item insert
  push_item-Fits n c item f room = record {
    unfiltered = f.unfiltered;
    minimum = f.minimum;
    positive = f.positive;
    bounded = omega (arith, length-delete-le ℤ_discrete item.key c.items);
  }

  add_item-Fits :
      (n now later : ℕ) (k : ℤ) (v : V) (expire : ℤ) (c : LruCache V)
      → IsConsistent c
      → Fits n c
      → Fits n (add_item now later k v expire c)
  unfolding add_item
  add_item-Fits n now later k v expire c h f =
      shrink_to_core-Fits n later _
        (push_item-Fits n (make_room c) _ (make_room-Fits n c f) (make_room-length n c h f))

  get-Fits :
      (n now later : ℕ) (k : ℤ) (c : LruCache V)
      → IsConsistent c
      → Fits n c
      → Fits n (get now later k c).0
  unfolding move_to_front
  get-Fits n now later k c h f =
      get_cases (Fits n) now later k c f (λ e v expire. add_item-Fits n now later k v expire c h f)
        λ item e. (remove_item-Fits n c item f, touched)
    where
      touched : Fits n (move_to_front k c)
      touched = record {
        unfiltered = f.unfiltered;
        minimum = f.minimum;
        positive = f.positive;
        bounded = f.bounded;
      }

  put-Fits :
      (n now later : ℕ) (k : ℤ) (v : V) (expire : ℤ) (c : LruCache V)
      → IsConsistent c
      → Fits n c
      → Fits n (put now later k v expire c)
  unfolding put move_to_front insert
  put-Fits n now later k v expire c h f = elim (Option-cases (lookup ℤ_discrete k c.items)) [
    | inl e ↦ rw (e, put) (add_item-Fits n now later k v expire c h f)
    | inr (item, e) ↦
        rw (e, put)
          (record {
            unfiltered = f.unfiltered;
            minimum = f.minimum;
            positive = f.positive;
            bounded =
                omega (arith, length-delete ℤ_discrete k c.items item h.distinct e, f.bounded);
          })
  ]

  step-Fits : (n : ℕ) (c : LruCache V) (x : Call V) → IsConsistent c → Fits n c → Fits n (step c x)
  unfolding step clear set_load_value_from_db_hook remove_eligible clean_expired
      clean_expired_eligible
  step-Fits n c (gets now later k) h f = get-Fits n now later k c h f
  step-Fits n c (puts now later k v expire) h f = put-Fits n now later k v expire c h f
  step-Fits n c (deletes k) h f = delete_key-Fits n k c f
  step-Fits n c clears h f = record {
    unfiltered = f.unfiltered;
    minimum = f.minimum;
    positive = f.positive;
    bounded = omega arith;
  }
  step-Fits n c removes_eligible h f = remove_keys-Fits n _ c 0 f
  step-Fits n c (cleans_expired now) h f = clean_entries-Fits n now c.items c 0 f
  step-Fits n c (sets_hook hook) h f = record {
    unfiltered = f.unfiltered;
    minimum = f.minimum;
    positive = f.positive;
    bounded = f.bounded;
  }

  run-Fits :
      (n : ℕ) (c : LruCache V) (xs : List (Call V)) → IsConsistent c → Fits n c → Fits n (run c xs)
  unfolding run
  run-Fits n c [] h f = f
  run-Fits n c (x ∷ xs) h f =
      run-Fits n (step c x) xs (step-IsConsistent c x h) (step-Fits n c x h f)

  -- A new cache with no filter never holds more than `n` items after any history of calls, for a
  -- positive `n` from its minimum size on: it does not grow beyond the minimum size towards the core
  -- size.
  pub len-run-le :
      (n : ℕ) (min_size core_size : ℤ) (xs : List (Call V))
      → min_size ≤ℤ pos n
      → 0 < n
      → len (run (new_lru_cache min_size core_size none) xs) ≤ n
  unfolding len new_lru_cache
  len-run-le n min_size core_size xs m p =
      (run-Fits n _ xs (new_lru_cache-IsConsistent min_size core_size none)
        (record { unfiltered = refl; minimum = m; positive = p; bounded = omega arith })).bounded
