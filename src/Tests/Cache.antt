-- ===== src/Tests/Cache.antt =====
-- The theorems on cache/cache_mgr.go at concrete caches.
use mathlib.Core.List.{reverse}
use yaice.Base.{ℕ, ◌≡◌, ◌≤◌, List, [], ◌∷◌, none, some, arith, refl, ap}
use yaice.Base.Int.{ℤ, pos, negsuc}
use yaice.Cache.{LruCache, new_lru_cache, get, put, evict_oldest_eligible, len, expire_at}
use yaice.Cache.History.{Call, gets, puts, run, run-new-IsConsistent}
use yaice.Cache.Invariant.{IsConsistent}
use yaice.Cache.Bounds.{len-run-le}
use yaice.Cache.Evicted.{Evicted, evict_oldest_eligible-Evicted}
use mathlib.Core.List.Perm
use mathlib.Core.List.{Nodup-nil, Nodup-cons, not-mem-nil, mem_of_ne_of_mem}
use yaice.Cache.Reads.{get-put_self}

abbrev calls : List (Call ℕ)
calls = puts 5 5 (pos 7) 70 (pos 10) ∷ puts 6 6 (pos 8) 80 (pos 0) ∷ gets 7 7 (pos 7) ∷ []

abbrev filled : LruCache ℕ
filled = run (new_lru_cache (pos 2) (pos 4) none) calls

run-new-IsConsistent_example : IsConsistent filled
run-new-IsConsistent_example = run-new-IsConsistent (pos 2) (pos 4) none calls

len-run-le_example : len filled ≤ 2
len-run-le_example = len-run-le 2 (pos 2) (pos 4) calls (ground arith) (ground arith)

get-put_self_example : (get 12 12 (pos 9) (put 8 8 (pos 9) 90 (pos 5) filled)).1 ≡ some 90
unfolding expire_at
get-put_self_example =
    get-put_self 8 8 12 12 (pos 9) 90 (pos 5) filled
      (run-new-IsConsistent (pos 2) (pos 4) none calls) (ground arith) (ground arith)

abbrev magnitude : ℤ → ℕ
magnitude (pos n) = n
magnitude (negsuc n) = n

-- Two items, of which the first was used last.
abbrev pair : LruCache ℕ
pair = record {
  min_size = pos 2;
  core_size = pos 4;
  items =
      (pos 7, record { key = pos 7; value = 70; expire_time = none })
      ∷ (pos 8, record { key = pos 8; value = 80; expire_time = some 9 })
      ∷ [];
  access_order = pos 7 ∷ pos 8 ∷ [];
  filter = none;
  load_value_from_db_hook = none;
}

pair-IsConsistent : IsConsistent pair
pair-IsConsistent = record {
  keyed = (refl, (refl, tt));
  distinct = Nodup-cons.1 (
    λ at. not-mem-nil (mem_of_ne_of_mem (λ e. absurd (omega (arith, ap magnitude e))) at),
    Nodup-cons.1 (λ at. not-mem-nil at, Nodup-nil),
  );
  ordered = Perm.refl _;
}

evict_oldest_eligible-Evicted_example :
    Evicted pair (reverse pair.access_order) (evict_oldest_eligible pair)
evict_oldest_eligible-Evicted_example =
    evict_oldest_eligible-Evicted pair pair-IsConsistent (λ (e : 2 ≡ 0). absurd (omega arith))
