-- ===== src/Cache/Evicted.antt =====
-- cache/cache_mgr.go: what an eviction leaves of the map and of the usage list.
use mathlib.Core.List.{lookup, reverse, erase}
use mathlib.Core.Path.{subst}
use yaice.Base.{◌≡◌, ◌≢◌, refl, sym, ap, Bool, true, false, List, ◌∷◌, ◌++◌, some, none, ite}
use yaice.Base.Lists.{All, length}
use yaice.Base.Int.{ℤ, ℤ_discrete}
use yaice.Cache.{CacheItem, LruCache, is_eligible, remove_item, evict_oldest_eligible}
use yaice.Cache.Eviction.{IsRefused, Evicts, stays, goes, evict_oldest_eligible-Evicts}
use yaice.Cache.Invariant.{IsConsistent, lookup-keyed}
use yaice.Cache.Reads.{lookup-remove_item}

module _ {V : Type 0} where
  -- A cache that has lost the item of a key, and nothing else.
  pub record Loses (k : ℤ) (c c' : LruCache V) : Type 0 where
    pub reads :
        (q : ℤ)
        → lookup ℤ_discrete q c'.items ≡ ite (ℤ_discrete q k) none (lookup ℤ_discrete q c.items)
    pub order : c'.access_order ≡ erase ℤ_discrete c.access_order k
    pub others : record c { items = c'.items; access_order = c'.access_order } ≡ c'

  -- The outcome of a search over keys from the oldest to the newest: no item can go and the cache is as it
  -- was, or the item of the first key that can go is lost, and nothing else.
  pub data Evicted (c : LruCache V) (ks : List ℤ) (r : LruCache V × Bool) : Type 0 where
    none_goes : All (IsRefused c) ks → r ≡ (c, false) → Evicted c ks r
    one_goes :
        (older newer : List ℤ) (k : ℤ) (item : CacheItem V)
        → ks ≡ older ++ (k ∷ newer)
        → All (IsRefused c) older
        → lookup ℤ_discrete k c.items ≡ some item
        → is_eligible c item.key item.value ≡ true
        → r.1 ≡ true
        → Loses k c r.0
        → Evicted c ks r

  remove_item-Loses : (c : LruCache V) (item : CacheItem V) → Loses item.key c (remove_item c item)
  unfolding remove_item
  remove_item-Loses c item = record {
    reads = λ q. lookup-remove_item q c item;
    order = refl;
    others = refl;
  }

  Evicts-Evicted :
      {c : LruCache V} {ks : List ℤ} {r : LruCache V × Bool}
      → IsConsistent c
      → Evicts c ks r
      → Evicted c ks r
  Evicts-Evicted h (stays all e) = none_goes all e
  Evicts-Evicted {c} h (goes older newer k item split all at may e) =
      one_goes older newer k item split all at may (ap (λ x. x.1) e) (
        subst (Loses k c) (sym (ap (λ x. x.0) e)) (
          subst (λ j. Loses j c (remove_item c item)) (lookup-keyed k c.items item h.keyed at)
            (remove_item-Loses c item)))

  -- An eviction from a consistent cache with items takes the item that was used longest ago among those
  -- that the filter gives up out of the map and of the usage list: every other key reads as before, the
  -- order of the others stays, and so does the rest of the cache. If the filter gives up none, the cache is
  -- left as it was.
  pub evict_oldest_eligible-Evicted :
      (c : LruCache V)
      → IsConsistent c
      → length c.items ≢ 0
      → Evicted c (reverse c.access_order) (evict_oldest_eligible c)
  evict_oldest_eligible-Evicted c h some_in =
      Evicts-Evicted h (evict_oldest_eligible-Evicts c some_in)
