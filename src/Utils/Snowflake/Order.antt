-- ===== src/Utils/Snowflake/Order.antt =====
-- Identifiers that one worker makes in turn, while its clock does not go back.
use yaice.Base.{
  ℕ, zero, suc, ◌+◌, ◌*◌, ◌/◌, ◌%◌, ◌≤◌, ◌<◌, ◌≡◌, ◌≢◌, refl, ap, ◌∙◌, ◌⊎◌, inl, inr, List, [], ◌∷◌,
  ◌++◌, Option, none, some, arith, dec_lt, ℕ_discrete,
}
use Prim.Native.Nat.{bit_and}
use yaice.Base.Tests.{
  leb, lt→ltb, Bool-cases, eq-of_some, Option-cases, le→ltb_false, ne→==false, ==_iff,
}
use yaice.Base.Int.{pos}
use yaice.Base.Bits.{and_mask}
use yaice.Utils.Snowflake.{
  sequence_mask, SnowflakeIdWorker, wait_after, stamp, next_id, bin_loop, convert_to_bin,
}
use yaice.Utils.Snowflake.Fields.{IsValid, InRange, id_of, compose-id_of}

-- Readings that never go back, from the last time on, and that 41 bits can hold.
abbrev pub Rising : ℕ → List ℕ → Type 0
Rising last [] = Unit
Rising last (t ∷ clock) = (last ≤ t) × InRange t × Rising t clock

pub record Waited (last later : ℕ) (rest : List ℕ) : Type 0 where
  pub passed : last < later
  pub range : InRange later
  pub rising : Rising later rest

wait_after-Waited :
    (last now : ℕ) (clock : List ℕ)
    → InRange now
    → Rising now clock
    → (wait_after last now clock ≡ none)
      ⊎ ((later : ℕ) × (rest : List ℕ) × (wait_after last now clock ≡ some (later, rest))
          × Waited last later rest)
unfolding wait_after
wait_after-Waited last now [] r h = elim (Bool-cases (leb now last)) [
  | inl waits ↦ inl (rw (waits, wait_after) refl)
  | inr done ↦ inr (
    now,
    [],
    rw (done, wait_after) refl,
    record { passed = ground arith; range = r; rising = tt },
  )
]
wait_after-Waited last now (t ∷ clock) r h = elim (Bool-cases (leb now last)) [
  | inl waits ↦ rw (waits, wait_after) (wait_after-Waited last t clock h.1 h.2)
  | inr done ↦ inr (
    now,
    t ∷ clock,
    rw (done, wait_after) refl,
    record { passed = ground arith; range = r; rising = h },
  )
]

-- What a call makes of a worker: the identifier is made of the worker's new time and sequence, which
-- come after the old ones.
pub record Advances (w w' : SnowflakeIdWorker) (id : ℕ) (rest : List ℕ) : Type 0 where
  pub valid : IsValid w'
  pub rising : Rising w'.last_timestamp rest
  pub range : InRange w'.last_timestamp
  pub same_worker : w'.worker_id ≡ w.worker_id
  pub same_datacenter : w'.datacenter_id ≡ w.datacenter_id
  pub made : id ≡ id_of w'.last_timestamp w'.datacenter_id w'.worker_id w'.sequence
  pub later :
      (w.last_timestamp < w'.last_timestamp)
      ⊎ ((w.last_timestamp ≡ w'.last_timestamp) × (w.sequence < w'.sequence))

stamp-Advances :
    (w : SnowflakeIdWorker) (sequence now : ℕ) (clock : List ℕ)
    → IsValid w
    → sequence < 4096
    → InRange now
    → Rising now clock
    → (w.last_timestamp < now) ⊎ ((w.last_timestamp ≡ now) × (w.sequence < sequence))
    → Advances w (stamp w sequence now clock).0 (stamp w sequence now clock).1 clock
unfolding stamp
stamp-Advances w sequence now clock v s r h l = record {
  valid = record { worker = v.worker; datacenter = v.datacenter; sequenced = s };
  rising = h;
  range = r;
  same_worker = refl;
  same_datacenter = refl;
  made = compose-id_of now w.datacenter_id w.worker_id sequence r v.datacenter v.worker s;
  later = l;
}

-- The outcomes of a call with a clock that does not go back.
abbrev pub Outcome : SnowflakeIdWorker → Option (SnowflakeIdWorker × ℕ × List ℕ) → Type 0
Outcome w r =
    (r ≡ none)
    ⊎ ((w' : SnowflakeIdWorker) × (id : ℕ) × (rest : List ℕ) × (r ≡ some (w', id, rest))
        × Advances w w' id rest)

stamp-Outcome :
    (w : SnowflakeIdWorker) (sequence now : ℕ) (clock : List ℕ)
    → IsValid w
    → sequence < 4096
    → InRange now
    → Rising now clock
    → (w.last_timestamp < now) ⊎ ((w.last_timestamp ≡ now) × (w.sequence < sequence))
    → Outcome w (some (stamp w sequence now clock))
unfolding stamp
stamp-Outcome w sequence now clock v s r h l =
    inr (_, _, clock, refl, unfold stamp in stamp-Advances w sequence now clock v s r h l)

-- The mask lets the sequence wrap at 4096, and then it is 0.
next_sequence :
    (s : ℕ)
    → s < 4096
    → ((s + 1 < 4096) × (bit_and (s + 1) sequence_mask ≡ s + 1))
      ⊎ (bit_and (s + 1) sequence_mask ≡ 0)
next_sequence s h = elim (dec_lt (s + 1) 4096) [
  | yes l ↦ inl (l, omega (arith, and_mask 12 (s + 1) sequence_mask refl))
  | no m ↦ inr (omega (arith, and_mask 12 (s + 1) sequence_mask refl))
]

next_id-Outcome :
    (w : SnowflakeIdWorker) (clock : List ℕ)
    → IsValid w
    → Rising w.last_timestamp clock
    → Outcome w (next_id w clock)
unfolding next_id
next_id-Outcome w [] v h = inl refl
next_id-Outcome w (now ∷ clock) v (le, r, h) = elim (ℕ_discrete w.last_timestamp now) [
  | no ne ↦
      rw (le→ltb_false w.last_timestamp now le, ne→==false w.last_timestamp now ne)
        (stamp-Outcome w 0 now clock v (omega arith) r h (inl (omega arith)))
  | yes same ↦
      rw (le→ltb_false w.last_timestamp now le, (==_iff w.last_timestamp now).1 same)
        (elim (next_sequence w.sequence v.sequenced) [
          | inl (l, e) ↦
              rw (e, ne→==false (w.sequence + 1) 0 (omega arith))
                (stamp-Outcome w (w.sequence + 1) now clock v l r h (inr (same, omega arith)))
          | inr e ↦ rw e (elim (wait_after-Waited w.last_timestamp now clock r h) [
            | inl stuck ↦ rw stuck (inl refl)
            | inr (later, rest, done, t) ↦ rw done (
                rw e (stamp-Outcome w 0 later rest v (omega arith) t.range t.rising (inl t.passed)))
          ])
        ])
]

-- The identifiers of `n` calls in turn.
unfoldable pub next_ids : ℕ → SnowflakeIdWorker → List ℕ → Option (List ℕ)
next_ids zero w clock = some []
next_ids (suc n) w clock = elim (next_id w clock) [
  | none ↦ none
  | some (w', id, rest) ↦ elim (next_ids n w' rest) [ none ↦ none | some ids ↦ some (id ∷ ids) ]
]

-- Each entry is greater than the one before it, and the first is greater than the bound.
abbrev pub IncreasesFrom : ℕ → List ℕ → Type 0
IncreasesFrom b [] = Unit
IncreasesFrom b (id ∷ ids) = (b < id) × IncreasesFrom id ids

abbrev pub last_id : SnowflakeIdWorker → ℕ
last_id w = id_of w.last_timestamp w.datacenter_id w.worker_id w.sequence

Advances-lt :
    {w w' : SnowflakeIdWorker} {id : ℕ} {rest : List ℕ}
    → IsValid w
    → Advances w w' id rest
    → (last_id w < id) × (id ≡ last_id w')
Advances-lt {w} {w'} v a = (omega (arith, v.worker, v.datacenter), a.made)

-- The identifiers that a worker makes in turn increase strictly, so none is made twice, while the
-- clock does not go back and its readings lie behind the epoch by less than 2 ^ 41 milliseconds.
pub next_ids-IncreasesFrom :
    (n : ℕ) (w : SnowflakeIdWorker) (clock ids : List ℕ)
    → IsValid w
    → Rising w.last_timestamp clock
    → next_ids n w clock ≡ some ids
    → IncreasesFrom (last_id w) ids
unfolding next_ids
next_ids-IncreasesFrom zero w clock [] v h e = tt
next_ids-IncreasesFrom zero w clock (id ∷ ids) v h e = cc
next_ids-IncreasesFrom (suc n) w clock ids v h e = elim (next_id-Outcome w clock v h) [
  | inl stuck ↦ cc (rw (stuck, next_ids) at e)
  | inr (w', id, rest, made, a) ↦ elim (Option-cases (next_ids n w' rest)) [
    | inl none_left ↦ cc (rw (made, none_left, next_ids) at e)
    | inr (later, more) ↦
        let same : id ∷ later ≡ ids = eq-of_some (rw (made, more, next_ids) at e) in
        let (above, id_lem) = Advances-lt v a in
        rw (← same)
          (above, rw id_lem (next_ids-IncreasesFrom n w' rest later a.valid a.rising more))
  ]
]

wait_after_done :
    (last t : ℕ) (clock : List ℕ) → last < t → wait_after last t clock ≡ some (t, clock)
unfolding wait_after
wait_after_done last t [] h = ground arith
wait_after_done last t (x ∷ clock) h = ground arith

wait_after-ne-none :
    (last now t : ℕ) (before after : List ℕ)
    → last < t
    → wait_after last now (before ++ (t ∷ after)) ≢ none
unfolding wait_after
wait_after-ne-none last now t [] after h = ground (arith, wait_after_done last t after)
wait_after-ne-none last now t (x ∷ before) after h =
    ground (arith, wait_after-ne-none last x t before after h)

-- A call returns once its clock, behind the first reading, comes to a time after the last identifier:
-- the loop for the next millisecond ends there at the latest.
pub next_id-ne-none :
    (w : SnowflakeIdWorker) (now t : ℕ) (before after : List ℕ)
    → w.last_timestamp < t
    → next_id w (now ∷ (before ++ (t ∷ after))) ≢ none
unfolding next_id
next_id-ne-none w now t before after h =
    ground (arith, wait_after-ne-none w.last_timestamp now t before after h)

-- A binary numeral, the most significant digit first, behind the digits that make up a number.
pub from_bin : ℕ → List ℕ → ℕ
from_bin num [] = num
from_bin num (d ∷ s) = from_bin (num * 2 + d) s

bin_loop-from_bin :
    (fuel num : ℕ) (s : List ℕ)
    → num < fuel
    → (r : List ℕ) × (bin_loop fuel num s ≡ some r) × (from_bin 0 r ≡ from_bin num s)
unfolding bin_loop from_bin
bin_loop-from_bin zero num s h = absurd (omega arith)
bin_loop-from_bin (suc fuel) zero s h = (s, refl, refl)
bin_loop-from_bin (suc fuel) (suc num) s h =
    let (r, e, v) = bin_loop-from_bin fuel (suc num / 2) (suc num % 2 ∷ s) (omega arith) in
    (r, rw (lt→ltb 0 (suc num) (omega arith)) e, v ∙ ap (λ (t : ℕ). from_bin t s) (omega arith))

-- `convertToBin` ends for every number from 0 on, and its digits are those of the number.
pub convert_to_bin-from_bin :
    (fuel num : ℕ)
    → num < fuel
    → (r : List ℕ) × (convert_to_bin fuel (pos num) ≡ some r) × (from_bin 0 r ≡ num)
unfolding convert_to_bin from_bin
convert_to_bin-from_bin fuel zero h = (0 ∷ [], refl, refl)
convert_to_bin-from_bin fuel (suc num) h =
    let (r, e, v) = bin_loop-from_bin fuel (suc num) [] h in
    (r, rw (ne→==false (suc num) 0 (omega arith)) e, v)
