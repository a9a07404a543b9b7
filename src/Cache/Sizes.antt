-- ===== src/Cache/Sizes.antt =====
-- cache/cache_mgr.go: by how much a removal and an eviction make the cache smaller.
use mathlib.Core.List.Perm
use mathlib.Core.List.{Mem, lookup, reverse, mem-cons_self, mem-reverse}
use yaice.Base.{◌+◌, ◌≤◌, ◌≡◌, ◌≢◌, refl, Bool, true, List, [], ◌∷◌, none, some}
use yaice.Base.Lists.{length, All, not-All}
use yaice.Base.Int.{ℤ, ℤ_discrete}
use yaice.Base.Assoc.{keys, length-delete, length-delete-le, not-mem_of_none}
use yaice.Cache.Invariant.{IsConsistent, lookup-keyed}
use yaice.Cache.Eviction.{
  Evicts, stays, goes, IsRefused, absent, refused, evict_oldest_eligible-Evicts,
}
use yaice.Cache.{CacheItem, LruCache, is_eligible, remove_item, evict_oldest_eligible}

module _ {V : Type 0} where
  is_eligible_unfiltered :
      (c : LruCache V) (k : ℤ) (v : V) → c.filter ≡ none → is_eligible c k v ≡ true
  unfolding is_eligible
  is_eligible_unfiltered c k v free = rw (free, is_eligible)

  some-not-refused :
      (c : LruCache V) (k : ℤ) → c.filter ≡ none → Mem k (keys c.items) → IsRefused c k → ⊥
  some-not-refused c k free at (absent a) = not-mem_of_none ℤ_discrete k c.items a at
  some-not-refused c k free at (refused item found f) =
      cc (is_eligible_unfiltered c item.key item.value free)

  pub remove_item-length :
      (c : LruCache V) (k : ℤ) (item : CacheItem V)
      → IsConsistent c
      → lookup ℤ_discrete k c.items ≡ some item
      → length (remove_item c item).items + 1 ≡ length c.items
  unfolding remove_item
  remove_item-length c k item h at =
      rw (lookup-keyed k c.items item h.keyed at)
        (length-delete ℤ_discrete k c.items item h.distinct at)

  pub remove_item-length-le :
      (c : LruCache V) (item : CacheItem V) → length (remove_item c item).items ≤ length c.items
  unfolding remove_item
  remove_item-length-le c item = length-delete-le ℤ_discrete item.key c.items

  pub evict-length :
      (c : LruCache V)
      → IsConsistent c
      → c.filter ≡ none
      → length c.items ≢ 0
      → length (evict_oldest_eligible c).0.items + 1 ≡ length c.items
  evict-length c h free some_item = go (evict_oldest_eligible-Evicts c some_item)
    where
      refuted :
          (es : List (ℤ × CacheItem V))
          → keys c.items ≡ keys es
          → length c.items ≡ length es
          → All (IsRefused c) (reverse c.access_order)
          → ⊥
      refuted [] e n all = some_item n
      refuted (x ∷ es) e n all =
          let at : Mem x.0 (keys c.items) = rw e mem-cons_self in
          not-All (IsRefused c) x.0 _ (mem-reverse.1 ((Perm.mem_iff h.ordered).1 at))
            (some-not-refused c x.0 free at) all

      go :
          {r : LruCache V × Bool}
          → Evicts c (reverse c.access_order) r
          → length r.0.items + 1 ≡ length c.items
      go (stays all e) = absurd (refuted c.items refl refl all)
      go (goes older newer k item split all at may e) = rw e (remove_item-length c k item h at)

  pub evict_empty :
      (c : LruCache V) → length c.items ≡ 0 → (evict_oldest_eligible c).0.items ≡ c.items
  unfolding evict_oldest_eligible
  evict_empty c z = rw (z, evict_oldest_eligible)
