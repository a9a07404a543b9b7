-- ===== src/Cache/History.antt =====
-- Histories of calls on a cache, from its construction on.
use yaice.Base.{ℕ, Bool, List, [], ◌∷◌, Option}
use yaice.Base.Int.{ℤ}
use yaice.Cache.{
  Loaded, LruCache, new_lru_cache, set_load_value_from_db_hook, get, put, delete_key, clear,
  remove_eligible, clean_expired, clean_expired_eligible,
}
use yaice.Cache.Invariant.{
  IsConsistent, new_lru_cache-IsConsistent, get-IsConsistent, put-IsConsistent,
  delete_key-IsConsistent, remove_keys-IsConsistent, clear-IsConsistent, clean_entries-IsConsistent,
}

-- The exported operations that change a cache, each with the clock readings that it makes.
pub data Call (V : Type 0) : Type 0 where
  gets : ℕ → ℕ → ℤ → Call V
  puts : ℕ → ℕ → ℤ → V → ℤ → Call V
  deletes : ℤ → Call V
  clears : Call V
  removes_eligible : Call V
  cleans_expired : ℕ → Call V
  sets_hook : (ℤ → Loaded V) → Call V

module _ {V : Type 0} where
  unfoldable pub step : LruCache V → Call V → LruCache V
  step c (gets now later key) = (get now later key c).0
  step c (puts now later key value expire) = put now later key value expire c
  step c (deletes key) = (delete_key key c).0
  step c clears = clear c
  step c removes_eligible = (remove_eligible c).0
  step c (cleans_expired now) = (clean_expired now c).0
  step c (sets_hook hook) = set_load_value_from_db_hook hook c

  unfoldable pub run : LruCache V → List (Call V) → LruCache V
  run c [] = c
  run c (x ∷ xs) = run (step c x) xs

  pub step-IsConsistent : (c : LruCache V) (x : Call V) → IsConsistent c → IsConsistent (step c x)
  unfolding step remove_eligible clean_expired clean_expired_eligible set_load_value_from_db_hook
  step-IsConsistent c (gets now later key) h = get-IsConsistent now later key c h
  step-IsConsistent c (puts now later key value expire) h =
      put-IsConsistent now later key value expire c h
  step-IsConsistent c (deletes key) h = delete_key-IsConsistent key c h
  step-IsConsistent c clears h = clear-IsConsistent c
  step-IsConsistent c removes_eligible h = remove_keys-IsConsistent _ c 0 h
  step-IsConsistent c (cleans_expired now) h = clean_entries-IsConsistent now c.items c 0 h
  step-IsConsistent c (sets_hook hook) h = record {
    keyed = h.keyed;
    distinct = h.distinct;
    ordered = h.ordered;
  }

  pub run-IsConsistent :
      (c : LruCache V) (xs : List (Call V)) → IsConsistent c → IsConsistent (run c xs)
  unfolding run
  run-IsConsistent c [] h = h
  run-IsConsistent c (x ∷ xs) h = run-IsConsistent (step c x) xs (step-IsConsistent c x h)

  -- After any history of calls on a new cache, with any sizes, filter and hooks, every item stands
  -- under its own key, no key stands twice in the map, and the list holds just the keys of the map.
  pub run-new-IsConsistent :
      (min_size core_size : ℤ) (filter : Option (ℤ → V → Bool)) (xs : List (Call V))
      → IsConsistent (run (new_lru_cache min_size core_size filter) xs)
  run-new-IsConsistent min_size core_size filter xs =
      run-IsConsistent _ xs (new_lru_cache-IsConsistent min_size core_size filter)
