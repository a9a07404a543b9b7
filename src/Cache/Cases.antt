-- ===== src/Cache/Cases.antt =====
-- Case rules for the methods of the cache: what holds of every outcome of a branch.
use mathlib.Core.List.{lookup}
use yaice.Base.{ℕ, ◌≡◌, inl, inr, none, some}
use yaice.Base.Tests.{Bool-cases, Option-cases}
use yaice.Base.Int.{ℤ, ℤ_discrete}
use yaice.Cache.{
  CacheItem, LruCache, is_expired, is_eligible, remove_item, add_item, move_to_front, load_missing,
  read_item, get,
}

module _ {ℓ} {V : Type 0} (P : LruCache V → Type ℓ) (now later : ℕ) (k : ℤ) (c : LruCache V) where
  -- A miss leaves the cache as it was, or adds what the hook loaded.
  pub load_missing_cases :
      P c
      → ((v : V) (expire : ℤ) → P (add_item now later k v expire c))
      → P (load_missing now later k c).0
  unfolding load_missing
  load_missing_cases stays added = elim (Option-cases c.load_value_from_db_hook) [
    | inl n ↦ rw (n, load_missing) stays
    | inr (hook, s) ↦ elim (Option-cases (hook k).value) [
      | inl n ↦ rw (s, load_missing) (rw n stays)
      | inr (v, sv) ↦ elim (Bool-cases (hook k).failed) [
        | inl t ↦ rw (s, load_missing) (rw sv (rw t stays))
        | inr f ↦ rw (s, load_missing) (rw sv (rw f (added v (hook k).expire)))
      ]
    ]
  ]

  -- `Get` leaves the cache as it was, adds a loaded value, removes an item, or moves a key.
  pub get_cases :
      P c
      → (lookup ℤ_discrete k c.items ≡ none
          → (v : V) (expire : ℤ) → P (add_item now later k v expire c))
      → ((item : CacheItem V)
          → lookup ℤ_discrete k c.items ≡ some item
          → P (remove_item c item) × P (move_to_front k c))
      → P (get now later k c).0
  unfolding get read_item
  get_cases stays added found = elim (Option-cases (lookup ℤ_discrete k c.items)) [
    | inl e ↦ rw (e, get) (load_missing_cases stays (added e))
    | inr (item, e) ↦ elim (Bool-cases (is_expired now item)) [
      | inr live ↦ rw (e, get) (rw live (found item e).1)
      | inl old ↦ elim (Bool-cases (is_eligible c item.key item.value)) [
        | inl t ↦ rw (e, get) (rw old (rw t (found item e).0))
        | inr f ↦ rw (e, get) (rw old (rw f stays))
      ]
    ]
  ]
