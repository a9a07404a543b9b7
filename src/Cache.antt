-- ===== src/Cache.antt =====
-- cache/cache_mgr.go: the LRU cache of loaded entities.
--
-- `items` is the map, `access_order` the linked list with its front first. The map and the list point
-- to the same `CacheItem`, so an element of the list is written as the key of its item, and following
-- the pointer is a lookup. A call takes the clock readings that it makes, in their order.
pub mod History
pub mod Bounds
pub mod Sizes
pub mod Invariant
pub mod Cases
pub mod Eviction
pub mod Reads
pub mod Evicted
pub mod Cleaning
use mathlib.Core.List.{lookup, erase, reverse}
use yaice.Base.{ℕ, suc, ◌+◌, ◌≡◌, Bool, true, false, ◌&&◌, List, [], ◌∷◌, Option, none, some, arith}
use yaice.Base.Tests.{ltb, ◌==◌, if◌then◌else◌}
use yaice.Base.Lists.{length}
use yaice.Base.Int.{ℤ, pos, negsuc, ltb_ℤ, leb_ℤ, ℤ_discrete}
use yaice.Base.Assoc.{insert, delete}

-- `expire_time` is `none` for the zero time, which never expires.
pub record CacheItem (V : Type 0) : Type 0 where
  pub key : ℤ
  pub value : V
  pub expire_time : Option ℕ

-- What the hook of the user returns: `none` is a nil value.
pub record Loaded (V : Type 0) : Type 0 where
  pub value : Option V
  pub expire : ℤ
  pub failed : Bool

pub record LruCache (V : Type 0) : Type 0 where
  pub min_size : ℤ
  pub core_size : ℤ
  pub items : List (ℤ × CacheItem V)
  pub access_order : List ℤ
  pub filter : Option (ℤ → V → Bool)
  pub load_value_from_db_hook : Option (ℤ → Loaded V)

-- The expiry that a duration asks for; only a positive one sets it.
unfoldable pub expire_at : ℕ → ℤ → Option ℕ
expire_at now (pos (suc d)) = some (now + suc d)
expire_at now _ = none

module _ {V : Type 0} where
  pub new_lru_cache : ℤ → ℤ → Option (ℤ → V → Bool) → LruCache V
  new_lru_cache min_size core_size filter = record {
    min_size = min_size;
    core_size = core_size;
    items = [];
    access_order = [];
    filter = filter;
    load_value_from_db_hook = none;
  }

  pub set_load_value_from_db_hook : (ℤ → Loaded V) → LruCache V → LruCache V
  set_load_value_from_db_hook hook c = record c { load_value_from_db_hook = some hook }

  -- `c.filter == nil || c.filter(key, value)`
  pub is_eligible : LruCache V → ℤ → V → Bool
  is_eligible c key value = elim c.filter [ none ↦ true | some f ↦ f key value ]

  -- `!item.ExpireTime.IsZero() && now.After(item.ExpireTime)`
  unfoldable pub is_expired : ℕ → CacheItem V → Bool
  is_expired now item = elim item.expire_time [ none ↦ false | some t ↦ ltb t now ]

  pub remove_item : LruCache V → CacheItem V → LruCache V
  remove_item c item = record c {
    items = delete ℤ_discrete item.key c.items;
    access_order = erase ℤ_discrete c.access_order item.key;
  }

  -- The loop of `evictOldestEligible` over the elements from the back.
  pub evict_from : LruCache V → List ℤ → LruCache V × Bool
  evict_from c [] = (c, false)
  evict_from c (k ∷ newer) =
      let rest = evict_from c newer in
      elim (lookup ℤ_discrete k c.items) [
        | none ↦ rest
        | some item ↦ if is_eligible c item.key item.value then (remove_item c item, true) else rest
      ]

  pub evict_oldest_eligible : LruCache V → LruCache V × Bool
  evict_oldest_eligible c =
      if length c.items == 0 then (c, false) else evict_from c (reverse c.access_order)

  -- The loop of `cleanExpiredEligible` over the entries of the map, with the count so far.
  pub clean_entries : ℕ → List (ℤ × CacheItem V) → LruCache V → ℕ → LruCache V × ℕ
  clean_entries now [] c cleaned = (c, cleaned)
  clean_entries now ((key, item) ∷ rest) c cleaned =
      let goes = is_expired now item && is_eligible c key item.value in
      clean_entries now rest (if goes then remove_item c item else c)
        (if goes then cleaned + 1 else cleaned)

  pub clean_expired_eligible : ℕ → LruCache V → LruCache V × ℕ
  clean_expired_eligible now c = clean_entries now c.items c 0

  -- The check before a new item: at the minimum size or above, one item makes room.
  pub make_room : LruCache V → LruCache V
  make_room c = if leb_ℤ c.min_size (pos (length c.items)) then (evict_oldest_eligible c).0 else c

  pub push_item : CacheItem V → LruCache V → LruCache V
  push_item item c = record c {
    items = insert ℤ_discrete item.key item c.items;
    access_order = item.key ∷ c.access_order;
  }

  -- The check after it: above the core size the expired items go.
  pub shrink_to_core : ℕ → LruCache V → LruCache V
  shrink_to_core now c =
      if ltb_ℤ c.core_size (pos (length c.items)) then (clean_expired_eligible now c).0 else c

  -- The lines that `Get` and `Put` share: a new item enters the cache.
  pub add_item : ℕ → ℕ → ℤ → V → ℤ → LruCache V → LruCache V
  add_item now later key value expire c = shrink_to_core later (
      push_item (record { key = key; value = value; expire_time = expire_at now expire })
        (make_room c))

  unfoldable pub move_to_front : ℤ → LruCache V → LruCache V
  move_to_front key c = record c { access_order = key ∷ erase ℤ_discrete c.access_order key }

  -- The branch of `Get` for a key that is not in the map.
  pub load_missing : ℕ → ℕ → ℤ → LruCache V → LruCache V × Option V
  load_missing now later key c = elim c.load_value_from_db_hook [
    | none ↦ (c, none)
    | some hook ↦ elim (hook key).value [
      | none ↦ (c, none)
      | some value ↦
          if (hook key).failed
          then (c, none)
          else (add_item now later key value (hook key).expire c, some value)
    ]
  ]

  -- The branch of `Get` for an item of the map.
  unfoldable pub read_item : ℕ → ℤ → CacheItem V → LruCache V → LruCache V × Option V
  read_item now key item c =
      if is_expired now item
      then (if is_eligible c item.key item.value then remove_item c item else c, none)
      else (move_to_front key c, some item.value)

  unfoldable pub get : ℕ → ℕ → ℤ → LruCache V → LruCache V × Option V
  get now later key c = elim (lookup ℤ_discrete key c.items) [
    | none ↦ load_missing now later key c
    | some item ↦ read_item now key item c
  ]

  pub put : ℕ → ℕ → ℤ → V → ℤ → LruCache V → LruCache V
  put now later key value expire c = elim (lookup ℤ_discrete key c.items) [
    | none ↦ add_item now later key value expire c
    | some item ↦ move_to_front key (record c {
      items =
          insert ℤ_discrete key (record item { value = value; expire_time = expire_at now expire })
            c.items;
    })
  ]

  -- The method `Delete`.
  pub delete_key : ℤ → LruCache V → LruCache V × Bool
  delete_key key c = elim (lookup ℤ_discrete key c.items) [
    | none ↦ (c, false)
    | some item ↦ (remove_item c item, true)
  ]

  pub clear : LruCache V → LruCache V
  clear c = record c { items = []; access_order = [] }

  pub len : LruCache V → ℕ
  len c = length c.items

  -- The first loop of `RemoveEligible`: the keys to remove.
  pub eligible_keys : LruCache V → List (ℤ × CacheItem V) → List ℤ
  eligible_keys c [] = []
  eligible_keys c ((key, item) ∷ rest) =
      if is_eligible c key item.value then key ∷ eligible_keys c rest else eligible_keys c rest

  -- The second loop, with the count so far.
  pub remove_keys : List ℤ → LruCache V → ℕ → LruCache V × ℕ
  remove_keys [] c removed = (c, removed)
  remove_keys (key ∷ rest) c removed =
      remove_keys rest (delete_key key c).0 (if (delete_key key c).1 then removed + 1 else removed)

  pub remove_eligible : LruCache V → LruCache V × ℕ
  remove_eligible c = remove_keys (eligible_keys c c.items) c 0

  pub clean_expired : ℕ → LruCache V → LruCache V × ℕ
  clean_expired now c = clean_expired_eligible now c
