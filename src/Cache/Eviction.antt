-- ===== src/Cache/Eviction.antt =====
-- Which item `evictOldestEligible` removes, and how many items a cache can come to hold.
use mathlib.Core.List.{lookup, reverse}
use yaice.Base.{
  ◌≡◌, ◌≢◌, refl, ap, inl, inr, Bool, true, false, List, [], ◌∷◌, ◌++◌, none, some, arith,
}
use yaice.Base.Tests.{◌==◌, ne→==false, Bool-cases, Option-cases}
use yaice.Base.Lists.{All, length}
use yaice.Base.Int.{ℤ, pos, leb_ℤ, ℤ_discrete}
use yaice.Base.Assoc.{lookup-delete}
use yaice.Cache.{
  CacheItem, LruCache, is_eligible, remove_item, evict_from, evict_oldest_eligible, make_room,
}

module _ {V : Type 0} where
  -- The filter refuses to give up the item of a key.
  pub data IsRefused (c : LruCache V) (k : ℤ) : Type 0 where
    absent : lookup ℤ_discrete k c.items ≡ none → IsRefused c k
    refused :
        (item : CacheItem V)
        → lookup ℤ_discrete k c.items ≡ some item
        → is_eligible c item.key item.value ≡ false
        → IsRefused c k

  -- The outcome of a search for an item to evict, over keys from the oldest to the newest: nothing
  -- can go and nothing changes, or the first key that can go loses its item.
  pub data Evicts (c : LruCache V) (ks : List ℤ) (r : LruCache V × Bool) : Type 0 where
    stays : All (IsRefused c) ks → r ≡ (c, false) → Evicts c ks r
    goes :
        (older newer : List ℤ) (k : ℤ) (item : CacheItem V)
        → ks ≡ older ++ (k ∷ newer)
        → All (IsRefused c) older
        → lookup ℤ_discrete k c.items ≡ some item
        → is_eligible c item.key item.value ≡ true
        → r ≡ (remove_item c item, true)
        → Evicts c ks r

  Evicts-cons :
      {c : LruCache V} {ks : List ℤ} {r : LruCache V × Bool} (k : ℤ)
      → IsRefused c k
      → Evicts c ks r
      → Evicts c (k ∷ ks) r
  Evicts-cons k h (stays all e) = stays (h, all) e
  Evicts-cons k h (goes older newer j item split all at may e) =
      goes (k ∷ older) newer j item (ap (◌∷◌ k) split) (h, all) at may e

  evict_from-Evicts : (c : LruCache V) (ks : List ℤ) → Evicts c ks (evict_from c ks)
  unfolding evict_from
  evict_from-Evicts c [] = stays tt refl
  evict_from-Evicts c (k ∷ ks) = elim (Option-cases (lookup ℤ_discrete k c.items)) [
    | inl e ↦ rw (e, evict_from) (Evicts-cons k (absent e) (evict_from-Evicts c ks))
    | inr (item, e) ↦ elim (Bool-cases (is_eligible c item.key item.value)) [
      | inl t ↦ rw (e, evict_from) (rw t (goes [] ks k item refl tt e t refl))
      | inr f ↦
          rw (e, evict_from) (rw f (Evicts-cons k (refused item e f) (evict_from-Evicts c ks)))
    ]
  ]

  -- Of a cache with items, the search goes over the usage list from its end.
  pub evict_oldest_eligible-Evicts :
      (c : LruCache V)
      → length c.items ≢ 0
      → Evicts c (reverse c.access_order) (evict_oldest_eligible c)
  unfolding evict_oldest_eligible
  evict_oldest_eligible-Evicts c h =
      rw (ne→==false _ _ h) (evict_from-Evicts c (reverse c.access_order))

  -- What making room does: nothing, or the removal of one item of the cache.
  pub data MakesRoom (c : LruCache V) : LruCache V → Type 0 where
    unchanged : MakesRoom c c
    removed :
        (k : ℤ) (item : CacheItem V)
        → lookup ℤ_discrete k c.items ≡ some item
        → MakesRoom c (remove_item c item)

  Evicts-MakesRoom :
      {c : LruCache V} {ks : List ℤ} {r : LruCache V × Bool} → Evicts c ks r → MakesRoom c r.0
  Evicts-MakesRoom {c} (stays all e) = rw e unchanged
  Evicts-MakesRoom {c} (goes older newer k item split all at may e) = rw e (removed k item at)

  pub make_room-MakesRoom : (c : LruCache V) → MakesRoom c (make_room c)
  unfolding make_room evict_oldest_eligible
  make_room-MakesRoom c = elim (Bool-cases (leb_ℤ c.min_size (pos (length c.items)))) [
    | inr f ↦ rw f unchanged
    | inl t ↦ elim (Bool-cases (length c.items == 0)) [
      | inl z ↦ rw (t, z) unchanged
      | inr nz ↦ rw (t, nz) (Evicts-MakesRoom (evict_from-Evicts c (reverse c.access_order)))
    ]
  ]

  lookup-remove_item-none :
      (k : ℤ) (c : LruCache V) (item : CacheItem V)
      → lookup ℤ_discrete k c.items ≡ none
      → lookup ℤ_discrete k (remove_item c item).items ≡ none
  unfolding remove_item
  lookup-remove_item-none k c item e = ground (arith, lookup-delete ℤ_discrete k item.key c.items)

  pub MakesRoom-absent :
      (k : ℤ) {c c' : LruCache V}
      → MakesRoom c c'
      → lookup ℤ_discrete k c.items ≡ none
      → lookup ℤ_discrete k c'.items ≡ none
  MakesRoom-absent k unchanged e = e
  MakesRoom-absent k {c} (removed j item at) e = lookup-remove_item-none k c item e
