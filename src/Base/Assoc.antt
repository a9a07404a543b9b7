-- ===== src/Base/Assoc.antt =====
-- Go maps as association lists over the library's `lookup`. The order of the entries stands for the
-- unspecified order in which Go ranges over a map.
use mathlib.Core.List.Nodup
use mathlib.Core.List.{
  List, [], ◌∷◌, map, lookup, erase, Mem, Nodup, Nodup-cons, not-mem-nil, mem-cons_self,
  mem-cons_of_mem, eq-or-mem_of_mem-cons, erase-sublist, erase-cons-head, erase-cons-tail,
}
use mathlib.Core.HLevel.{⊥_prop}
use mathlib.Core.Logic.Or
use mathlib.Core.Logic.{ite, if_pos, if_neg, inl, inr}
use mathlib.Core.Option.{none, some}
use mathlib.Core.Path.{◌≡◌, refl, sym, ap, ◌∙◌}
use native.Mathlib.Omega.{arith}
use yaice.Base.Tests.{Option-cases}
use yaice.Base.Lists.{length}
use Prim.Native.Nat.{◌+◌, ◌≤◌}

module _ {ℓ} {K V : Type ℓ} where
  abbrev pub keys : List (K × V) → List K
  keys = map (λ e. e.0)

module _ {ℓ} {K V : Type ℓ} (dec : Discrete K) where
  unfoldable pub delete : K → List (K × V) → List (K × V)
  delete k [] = []
  delete k (e ∷ m) = ite (dec e.0 k) (delete k m) (e ∷ delete k m)

  unfoldable pub insert : K → V → List (K × V) → List (K × V)
  insert k v m = (k, v) ∷ delete k m

  pub lookup-delete :
      (q k : K) (m : List (K × V)) → lookup dec q (delete k m) ≡ ite (dec q k) none (lookup dec q m)
  unfolding lookup delete
  lookup-delete q k [] = ground arith
  lookup-delete q k (e ∷ m) = ground (arith, lookup-delete q k m)

  pub lookup-insert :
      (q k : K) (v : V) (m : List (K × V))
      → lookup dec q (insert k v m) ≡ ite (dec q k) (some v) (lookup dec q m)
  unfolding lookup insert
  lookup-insert q k v m = ground (arith, lookup-delete q k m)

  pub lookup-insert_self : (k : K) (v : V) (m : List (K × V)) → lookup dec k (insert k v m) ≡ some v
  lookup-insert_self k v m = ground (arith, lookup-insert k k v m)

  pub not-mem_of_none : (k : K) (m : List (K × V)) → lookup dec k m ≡ none → ¬ Mem k (keys m)
  unfolding lookup
  not-mem_of_none k [] h = not-mem-nil
  not-mem_of_none k (e ∷ m) h = λ at.
      Or.elim ⊥_prop (eq-or-mem_of_mem-cons at) (λ here. ground arith)
        (not-mem_of_none k m (ground arith))

  pub none_of_not-mem : (k : K) (m : List (K × V)) → ¬ Mem k (keys m) → lookup dec k m ≡ none
  unfolding lookup
  none_of_not-mem k [] h = refl
  none_of_not-mem k (e ∷ m) h = elim (dec k e.0) [
    | yes here ↦ absurd (h (rw here mem-cons_self))
    | no there ↦ ground (arith, none_of_not-mem k m (λ at. h (mem-cons_of_mem e.0 at)))
  ]

  pub mem_of_some : (k : K) (m : List (K × V)) (v : V) → lookup dec k m ≡ some v → Mem k (keys m)
  unfolding lookup
  mem_of_some k [] v h = cc
  mem_of_some k (e ∷ m) v h = elim (dec k e.0) [
    | yes here ↦ rw here mem-cons_self
    | no there ↦ mem-cons_of_mem e.0 (mem_of_some k m v (ground arith))
  ]

  pub some_of_mem :
      (k : K) (m : List (K × V)) → Mem k (keys m) → (v : V) × (lookup dec k m ≡ some v)
  some_of_mem k m at = elim (Option-cases (lookup dec k m)) [
    | inl e ↦ absurd (not-mem_of_none k m e at)
    | inr r ↦ r
  ]

  pub delete_absent : (k : K) (m : List (K × V)) → ¬ Mem k (keys m) → delete k m ≡ m
  unfolding delete
  delete_absent k [] h = refl
  delete_absent k (e ∷ m) h = elim (dec e.0 k) [
    | yes here ↦ absurd (h (rw (← here) mem-cons_self))
    | no there ↦
        rw (if_neg _ there) (ap (◌∷◌ e) (delete_absent k m (λ at. h (mem-cons_of_mem e.0 at))))
  ]

  pub keys-delete :
      (k : K) (m : List (K × V)) → Nodup (keys m) → keys (delete k m) ≡ erase dec (keys m) k
  unfolding delete
  keys-delete k [] h = refl
  keys-delete k (e ∷ m) h = elim (dec e.0 k) [
    | yes here ↦
        rw (if_pos _ here, delete_absent k m (rw (← here) (Nodup-cons.0 h).0))
          (sym (rw here (erase-cons-head dec k (keys m))))
    | no there ↦ rw (if_neg _ there) (
        ap (◌∷◌ e.0) (keys-delete k m (Nodup-cons.0 h).1)
        ∙ sym (erase-cons-tail dec (keys m) there))
  ]

module _ {ℓ} {K V : Type ℓ} (dec : Discrete K) where
  pub length-delete-le : (k : K) (m : List (K × V)) → length (delete dec k m) ≤ length m
  unfolding delete
  length-delete-le k [] = omega arith
  length-delete-le k (e ∷ m) = ground (arith, length-delete-le k m)

  -- With each key once, a delete of a key that is there drops one entry.
  pub length-delete :
      (k : K) (m : List (K × V)) (v : V)
      → Nodup (keys m)
      → lookup dec k m ≡ some v
      → length (delete dec k m) + 1 ≡ length m
  unfolding delete lookup
  length-delete k [] v h e = cc
  length-delete k (x ∷ m) v h e = elim (dec x.0 k) [
    | yes here ↦
        rw (if_pos (dec x.0 k) here, delete_absent dec k m (rw (← here) (Nodup-cons.0 h).0))
          (omega arith)
    | no there ↦
        rw (if_neg (dec x.0 k) there)
          (omega (arith, length-delete k m v (Nodup-cons.0 h).1 (ground arith)))
  ]

module _ {ℓ} {K : Type ℓ} (dec : Discrete K) where
  pub erase-Nodup : (k : K) (l : List K) → Nodup l → Nodup (erase dec l k)
  erase-Nodup k l h = Nodup.sublist (erase-sublist dec k) h

  pub not-mem-erase : (k : K) (l : List K) → Nodup l → ¬ Mem k (erase dec l k)
  not-mem-erase k l h at = ((Nodup.mem-erase_iff dec h).0 at).0 refl
