-- ===== src/Cache/Cleaning.antt =====
-- cache/cache_mgr.go: how many items a cleaning takes out.
use mathlib.Core.List.{lookup, Mem, Nodup, Nodup-cons, mem-cons_self, mem-cons_of_mem}
use mathlib.Core.Path.{subst}
use yaice.Base.{ℕ, ◌+◌, ◌≡◌, refl, ◌∙◌, ◌&&◌, List, [], ◌∷◌, some, if_pos, if_neg, arith, inl, inr}
use yaice.Base.Tests.{Bool-cases}
use yaice.Base.Lists.{length, All}
use yaice.Base.Int.{ℤ, ℤ_discrete}
use yaice.Base.Assoc.{keys}
use yaice.Cache.{
  CacheItem, LruCache, is_expired, is_eligible, remove_item, clean_entries, clean_expired_eligible,
  clean_expired, len,
}
use yaice.Cache.Sizes.{remove_item-length}
use yaice.Cache.Invariant.{IsConsistent, remove_item-IsConsistent}
use yaice.Cache.Reads.{lookup-remove_item}

module _ {V : Type 0} where
  abbrev Found : List (ℤ × CacheItem V) → List (ℤ × CacheItem V) → Type 0
  Found m es = All (λ e. lookup ℤ_discrete e.0 m ≡ some e.1) es

  Found-cons :
      (x : ℤ × CacheItem V) (m es : List (ℤ × CacheItem V))
      → ¬ Mem x.0 (keys es)
      → Found m es
      → Found (x ∷ m) es
  unfolding lookup
  Found-cons x m [] new h = tt
  Found-cons x m (e ∷ es) new h = (
    if_neg (ℤ_discrete e.0 x.0)
          (λ same. new (subst (λ k. Mem k (keys (e ∷ es))) same mem-cons_self)) _ _
        ∙ h.0,
    Found-cons x m es (λ at. new (mem-cons_of_mem _ at)) h.1,
  )

  Found-refl : (m : List (ℤ × CacheItem V)) → Nodup (keys m) → Found m m
  unfolding lookup
  Found-refl [] once = tt
  Found-refl (x ∷ m) once =
      let (new, later) = Nodup-cons.0 once in
      (if_pos (ℤ_discrete x.0 x.0) refl _ _, Found-cons x m m new (Found-refl m later))

  Found-remove_item :
      (c : LruCache V) (item : CacheItem V) (es : List (ℤ × CacheItem V))
      → ¬ Mem item.key (keys es)
      → Found c.items es
      → Found (remove_item c item).items es
  Found-remove_item c item [] new h = tt
  Found-remove_item c item (e ∷ es) new h = (
    lookup-remove_item e.0 c item
        ∙ if_neg (ℤ_discrete e.0 item.key)
            (λ same. new (subst (λ k. Mem k (keys (e ∷ es))) same mem-cons_self)) _ _
        ∙ h.0,
    Found-remove_item c item es (λ at. new (mem-cons_of_mem _ at)) h.1,
  )

  clean_entries-length :
      (now : ℕ) (es : List (ℤ × CacheItem V)) (c : LruCache V) (n : ℕ)
      → IsConsistent c
      → Nodup (keys es)
      → All (λ e. e.1.key ≡ e.0) es
      → Found c.items es
      → length (clean_entries now es c n).0.items + (clean_entries now es c n).1
        ≡ length c.items + n
  unfolding clean_entries
  clean_entries-length now [] c n h once keyed found = refl
  clean_entries-length now ((k, item) ∷ es) c n h once keyed found =
      let (new, later) = Nodup-cons.0 once in
      let gone = remove_item-length c k item h found.0 in
      let left =
        Found-remove_item c item es (λ at. new (subst (λ q. Mem q (keys es)) keyed.0 at)) found.1 in
      elim (Bool-cases (is_expired now item && is_eligible c k item.value)) [
        | inl t ↦
            rw (t, clean_entries)
              (omega (
                arith,
                gone,
                clean_entries-length now es (remove_item c item) (n + 1)
                    (remove_item-IsConsistent c item h) later keyed.1 left,
              ))
        | inr f ↦ rw (f, clean_entries) (clean_entries-length now es c n h later keyed.1 found.1)
      ]

  -- In a consistent cache the number that `CleanExpired` returns is that of the items by which the cache
  -- is smaller after it.
  pub len-clean_expired :
      (now : ℕ) (c : LruCache V)
      → IsConsistent c
      → len (clean_expired now c).0 + (clean_expired now c).1 ≡ len c
  unfolding len clean_expired clean_expired_eligible
  len-clean_expired now c h = omega (
    arith,
    clean_entries-length now c.items c 0 h h.distinct h.keyed (Found-refl c.items h.distinct),
  )
