-- ===== src/Cache/Invariant.antt =====
-- The map and the list of the cache agree after every operation.
use mathlib.Core.List.Perm
use mathlib.Core.List.{Nodup, Nodup-cons, Perm, Nodup-nil, lookup, erase, perm_cons_erase}
use yaice.Base.{
  ℕ, ◌≡◌, refl, inl, inr, if_pos, if_neg, Bool, ◌&&◌, List, [], ◌∷◌, Option, none, some, arith,
}
use yaice.Base.Tests.{Bool-cases, Option-cases}
use yaice.Base.Lists.{All}
use yaice.Base.Int.{ℤ, ℤ_discrete}
use yaice.Base.Assoc.{
  keys, insert, delete, delete_absent, keys-delete, erase-Nodup, not-mem-erase, mem_of_some,
  not-mem_of_none,
}
use yaice.Cache.Cases.{get_cases}
use yaice.Cache.Eviction.{MakesRoom, unchanged, removed, make_room-MakesRoom, MakesRoom-absent}
use yaice.Cache.{
  CacheItem, LruCache, new_lru_cache, is_eligible, is_expired, remove_item, clean_entries,
  clean_expired_eligible, make_room, push_item, shrink_to_core, expire_at, add_item, move_to_front,
  get, put, delete_key, clear, remove_keys,
}

-- Every item stands under its own key, no key twice, and the list holds just the keys of the map.
pub record IsConsistent {V : Type 0} (c : LruCache V) : Type 0 where
  pub keyed : All (λ e. e.1.key ≡ e.0) c.items
  pub distinct : Nodup (keys c.items)
  pub ordered : Perm c.access_order (keys c.items)

module _ {V : Type 0} where
  delete-keyed :
      (k : ℤ) (m : List (ℤ × CacheItem V))
      → All (λ e. e.1.key ≡ e.0) m
      → All (λ e. e.1.key ≡ e.0) (delete ℤ_discrete k m)
  unfolding delete
  delete-keyed k [] h = tt
  delete-keyed k (e ∷ m) h = elim (ℤ_discrete e.0 k) [
    | yes p ↦ rw (if_pos _ p) (delete-keyed k m h.1)
    | no p ↦ rw (if_neg _ p) (h.0, delete-keyed k m h.1)
  ]

  pub lookup-keyed :
      (k : ℤ) (m : List (ℤ × CacheItem V)) (item : CacheItem V)
      → All (λ e. e.1.key ≡ e.0) m
      → lookup ℤ_discrete k m ≡ some item
      → item.key ≡ k
  unfolding lookup
  lookup-keyed k [] item h e = cc
  lookup-keyed k (x ∷ m) item h e = ground (arith, lookup-keyed k m item h.1)

  pub remove_item-IsConsistent :
      (c : LruCache V) (item : CacheItem V) → IsConsistent c → IsConsistent (remove_item c item)
  unfolding remove_item
  remove_item-IsConsistent c item h = record {
    keyed = delete-keyed item.key c.items h.keyed;
    distinct =
        rw (keys-delete ℤ_discrete item.key c.items h.distinct)
          (erase-Nodup ℤ_discrete item.key _ h.distinct);
    ordered =
        rw (keys-delete ℤ_discrete item.key c.items h.distinct)
          (Perm.erase ℤ_discrete item.key h.ordered);
  }

  -- A write of the item under `k`, with `k` put at the front of the list.
  write-IsConsistent :
      (c : LruCache V) (item : CacheItem V) (order : List ℤ)
      → IsConsistent c
      → Perm order (keys (delete ℤ_discrete item.key c.items))
      → IsConsistent (record c {
        items = insert ℤ_discrete item.key item c.items;
        access_order = item.key ∷ order;
      })
  unfolding insert
  write-IsConsistent c item order h p = record {
    keyed = (refl, delete-keyed item.key c.items h.keyed);
    distinct = rw (keys-delete ℤ_discrete item.key c.items h.distinct) (
        Nodup-cons.1 (
          not-mem-erase ℤ_discrete item.key _ h.distinct,
          erase-Nodup ℤ_discrete item.key _ h.distinct,
        ));
    ordered = Perm.cons item.key p;
  }

  pub make_room-IsConsistent : (c : LruCache V) → IsConsistent c → IsConsistent (make_room c)
  make_room-IsConsistent c h = go (make_room-MakesRoom c)
    where
      go : {c' : LruCache V} → MakesRoom c c' → IsConsistent c'
      go unchanged = h
      go (removed k item at) = remove_item-IsConsistent c item h

  pub clean_entries-IsConsistent :
      (now : ℕ) (es : List (ℤ × CacheItem V)) (c : LruCache V) (n : ℕ)
      → IsConsistent c
      → IsConsistent (clean_entries now es c n).0
  unfolding clean_entries
  clean_entries-IsConsistent now [] c n h = h
  clean_entries-IsConsistent now ((k, item) ∷ es) c n h =
      elim (Bool-cases (is_expired now item && is_eligible c k item.value)) [
        | inl t ↦
            rw (t, clean_entries)
              (clean_entries-IsConsistent now es _ _ (remove_item-IsConsistent c item h))
        | inr f ↦ rw (f, clean_entries) (clean_entries-IsConsistent now es c n h)
      ]

  shrink_to_core-IsConsistent :
      (now : ℕ) (c : LruCache V) → IsConsistent c → IsConsistent (shrink_to_core now c)
  unfolding shrink_to_core clean_expired_eligible
  shrink_to_core-IsConsistent now c h = ground (arith, clean_entries-IsConsistent now c.items c 0 h)

  move_to_front-IsConsistent :
      (k : ℤ) (c : LruCache V) (item : CacheItem V)
      → lookup ℤ_discrete k c.items ≡ some item
      → IsConsistent c
      → IsConsistent (move_to_front k c)
  unfolding move_to_front
  move_to_front-IsConsistent k c item e h = record {
    keyed = h.keyed;
    distinct = h.distinct;
    ordered =
        Perm.trans (Perm.cons k (Perm.erase ℤ_discrete k h.ordered))
          (Perm.symm (perm_cons_erase ℤ_discrete (mem_of_some ℤ_discrete k c.items item e)));
  }

  pub push_item-IsConsistent :
      (item : CacheItem V) (c : LruCache V)
      → lookup ℤ_discrete item.key c.items ≡ none
      → IsConsistent c
      → IsConsistent (push_item item c)
  unfolding push_item
  push_item-IsConsistent item c e h =
      write-IsConsistent c item c.access_order h (
        rw (delete_absent ℤ_discrete item.key c.items (not-mem_of_none ℤ_discrete _ _ e)) h.ordered)

  add_item-IsConsistent :
      (now later : ℕ) (k : ℤ) (v : V) (expire : ℤ) (c : LruCache V)
      → lookup ℤ_discrete k c.items ≡ none
      → IsConsistent c
      → IsConsistent (add_item now later k v expire c)
  unfolding add_item
  add_item-IsConsistent now later k v expire c e h = shrink_to_core-IsConsistent later _ (
      push_item-IsConsistent _ (make_room c) (MakesRoom-absent k (make_room-MakesRoom c) e)
        (make_room-IsConsistent c h))

  -- `Get` keeps the map and the list in agreement on each of its branches: a hit, an expired item,
  -- and a miss that loads a value, evicts and cleans.
  pub get-IsConsistent :
      (now later : ℕ) (k : ℤ) (c : LruCache V) → IsConsistent c → IsConsistent (get now later k c).0
  get-IsConsistent now later k c h =
      get_cases IsConsistent now later k c h
        (λ e v expire. add_item-IsConsistent now later k v expire c e h)
        λ item e. (remove_item-IsConsistent c item h, move_to_front-IsConsistent k c item e h)

  -- So does `Put`, for a new key and for one that is there.
  pub put-IsConsistent :
      (now later : ℕ) (k : ℤ) (v : V) (expire : ℤ) (c : LruCache V)
      → IsConsistent c
      → IsConsistent (put now later k v expire c)
  unfolding put move_to_front
  put-IsConsistent now later k v expire c h = elim (Option-cases (lookup ℤ_discrete k c.items)) [
    | inl e ↦ rw (e, put) (add_item-IsConsistent now later k v expire c e h)
    | inr (item, e) ↦
        let same : item.key ≡ k = lookup-keyed k c.items item h.keyed e in
        rw (e, put, ← same)
          (write-IsConsistent c (record item { value = v; expire_time = expire_at now expire })
            (erase ℤ_discrete c.access_order item.key) h
            (rw (keys-delete ℤ_discrete item.key c.items h.distinct)
              (Perm.erase ℤ_discrete item.key h.ordered)))
  ]

  pub delete_key-IsConsistent :
      (k : ℤ) (c : LruCache V) → IsConsistent c → IsConsistent (delete_key k c).0
  unfolding delete_key
  delete_key-IsConsistent k c h = elim (Option-cases (lookup ℤ_discrete k c.items)) [
    | inl e ↦ rw (e, delete_key) h
    | inr (item, e) ↦ rw (e, delete_key) (remove_item-IsConsistent c item h)
  ]

  pub remove_keys-IsConsistent :
      (ks : List ℤ) (c : LruCache V) (n : ℕ) → IsConsistent c → IsConsistent (remove_keys ks c n).0
  unfolding remove_keys
  remove_keys-IsConsistent [] c n h = h
  remove_keys-IsConsistent (k ∷ ks) c n h =
      remove_keys-IsConsistent ks _ _ (delete_key-IsConsistent k c h)

  pub clear-IsConsistent : (c : LruCache V) → IsConsistent (clear c)
  unfolding clear
  clear-IsConsistent c = record { keyed = tt; distinct = Nodup-nil; ordered = Perm.refl [] }

  pub new_lru_cache-IsConsistent :
      (min_size core_size : ℤ) (filter : Option (ℤ → V → Bool))
      → IsConsistent (new_lru_cache min_size core_size filter)
  unfolding new_lru_cache
  new_lru_cache-IsConsistent min_size core_size filter = record {
    keyed = tt;
    distinct = Nodup-nil;
    ordered = Perm.refl [];
  }
