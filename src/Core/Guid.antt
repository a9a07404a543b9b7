-- ===== src/Core/Guid.antt =====
-- core/guid.go: identifiers whose upper half comes from an allocator service and whose lower half counts.
-- The answer of the service is an input: `none` is an error. Without a configuration the request for it
-- is a nil dereference.
use Prim.Native.Nat.{bit_or}
use yaice.Base.{
  ℕ, zero, suc, ◌+◌, ◌*◌, ◌%◌, ◌^◌, ◌<◌, ◌≡◌, refl, ap, Bool, true, false, List, [], ◌∷◌, Option,
  none, some, arith,
}
use yaice.Base.Tests.{◌==◌, if◌then◌else◌}
use yaice.Base.Bits.{or_fields}
use yaice.Base.Int.{ℤ, pos, negsuc, ◌+ℤ◌, int32, word64, signed64}
use yaice.Utils.Tool.{Run, returns, panics, blocks}

-- `highGuid` and `lowGuid`, and whether the manager has a configuration.
pub record GuidManager : Type 0 where
  pub has_cfg : Bool
  pub high_guid : ℤ
  pub low_guid : ℤ

-- `NewGuidManager`: the two halves are those of the process and stay.
abbrev pub new_guid_manager : Bool → GuidManager → GuidManager
new_guid_manager has_cfg g = record g { has_cfg = has_cfg }

abbrev pub is_low_end : ℤ → Bool
is_low_end (pos n) = n == 2147483647
is_low_end (negsuc n) = false

abbrev pub is_zero_guid : ℤ → Bool
is_zero_guid (pos n) = n == 0
is_zero_guid (negsuc n) = false

-- A refresh that fails leaves the upper half as it is.
unfoldable pub high_guid_refresh : Option ℤ → GuidManager → Run GuidManager
high_guid_refresh answer g =
    if g.has_cfg
    then (elim answer [
      | none ↦ returns g
      | some value ↦ returns (record g { high_guid = int32 value })
    ])
    else panics

-- `tmp<<32 | tmp2`
unfoldable pub join_guid : GuidManager → ℤ
join_guid g = signed64 (bit_or (word64 g.high_guid * 2 ^ 32 % 2 ^ 64) (word64 g.low_guid))

-- The lines from `lowGuid++` on.
unfoldable pub count_guid : Option ℤ → GuidManager → Run (GuidManager × ℤ)
unfolding high_guid_refresh join_guid
count_guid answer g =
    let next = record g { low_guid = int32 (g.low_guid +ℤ pos 1) } in
    if is_low_end next.low_guid
    then (elim (high_guid_refresh answer (record next { low_guid = pos 0 })) [
      | returns fresh ↦ returns (fresh, join_guid fresh)
      | panics ↦ panics
      | blocks ↦ blocks
    ])
    else returns (next, join_guid next)

unfoldable pub get_guid : Option ℤ → GuidManager → Run (GuidManager × ℤ)
unfolding high_guid_refresh count_guid
get_guid answer g =
    if is_zero_guid g.high_guid
    then (elim (high_guid_refresh answer (record g { low_guid = pos 0 })) [
      | returns fresh ↦ count_guid answer fresh
      | panics ↦ panics
      | blocks ↦ blocks
    ])
    else count_guid answer g

-- The identifiers of n calls in turn, none of which is given an answer of the service.
unfoldable pub get_guids : ℕ → GuidManager → Run (List ℤ)
get_guids zero g = returns []
get_guids (suc n) g = elim (get_guid none g) [
  | panics ↦ panics
  | blocks ↦ blocks
  | returns (later, guid) ↦ elim (get_guids n later) [
    | panics ↦ panics
    | blocks ↦ blocks
    | returns guids ↦ returns (guid ∷ guids)
  ]
]

join_sum :
    (b : Bool) (h l : ℕ)
    → h < 2 ^ 31
    → l < 2 ^ 32
    → join_guid (record { has_cfg = b; high_guid = pos h; low_guid = pos l }) ≡ pos (h * 2 ^ 32 + l)
unfolding join_guid
join_sum b h l hh hl =
    let split = or_fields 32 h l hl in
    let low : l % 2 ^ 64 ≡ l = omega arith in
    let high : (h % 2 ^ 64) * 2 ^ 32 % 2 ^ 64 ≡ h * 2 ^ 32 = omega arith in
    rw (low, high, split) (ground arith)

next_low : (l : ℕ) → l < 2147483647 → int32 (pos l +ℤ pos 1) ≡ pos (suc l)
unfolding int32 ◌+ℤ◌
next_low l h = ground arith

get_guid_counts :
    (b : Bool) (h l : ℕ) (answer : Option ℤ)
    → 0 < h
    → h < 2 ^ 31
    → l < 2147483646
    → get_guid answer (record { has_cfg = b; high_guid = pos h; low_guid = pos l })
      ≡ returns (
        record { has_cfg = b; high_guid = pos h; low_guid = pos (suc l) },
        pos (h * 2 ^ 32 + suc l),
      )
unfolding get_guid count_guid
get_guid_counts b h l answer some_h hh hl =
    let low = next_low l (omega arith) in
    let joined = join_sum b h (suc l) hh (omega arith) in ground (arith, low, joined)

-- The n numbers from a on.
abbrev pub consecutive : ℕ → ℕ → List ℤ
consecutive zero a = []
consecutive (suc n) a = pos a ∷ consecutive n (suc a)

-- With an upper half from 1 to 2^31 - 1, calls that stay below the end of the lower half return
-- consecutive numbers, and so different ones, without a word from the service.
pub get_guids-consecutive :
    (n h l : ℕ) (b : Bool)
    → 0 < h
    → h < 2 ^ 31
    → l + n < 2147483647
    → get_guids n (record { has_cfg = b; high_guid = pos h; low_guid = pos l })
      ≡ returns (consecutive n (h * 2 ^ 32 + suc l))
unfolding get_guids
get_guids-consecutive zero h l b some_h hh hl = refl
get_guids-consecutive (suc n) h l b some_h hh hl =
    let first = get_guid_counts b h l none some_h hh (omega arith) in
    let rest = get_guids-consecutive n h (suc l) b some_h hh (omega arith) in
    rw (first, rest, get_guids)
      (ap (λ (a : ℕ). returns (pos (h * 2 ^ 32 + suc l) ∷ consecutive n a)) (omega arith))

-- At the end of the lower half, where the service does not answer, the count starts again under the same
-- upper half: the call after it returns the number that the first call under that half returned.
pub get_guid_repeats :
    (h : ℕ) (answer : Option ℤ)
    → 0 < h
    → h < 2 ^ 31
    → (wrapped : GuidManager) × (get_guid none
          (record { has_cfg = true; high_guid = pos h; low_guid = pos 2147483646 })
        ≡ returns (wrapped, pos (h * 2 ^ 32)))
      × (get_guid answer wrapped
          ≡ get_guid answer (record { has_cfg = true; high_guid = pos h; low_guid = pos 0 }))
unfolding get_guid count_guid high_guid_refresh
get_guid_repeats h answer some_h hh =
    let low = next_low 2147483646 (omega arith) in
    let joined = join_sum true h 0 hh (omega arith) in
    (
      record { has_cfg = true; high_guid = pos h; low_guid = pos 0 },
      ground (arith, low, joined),
      refl,
    )
