-- ===== src/Utils/Snowflake.antt =====
-- utils/snowflake.go: identifiers from a clock, two worker numbers and a sequence. An `int64` that may
-- be negative stands as its bit pattern below 2 ^ 64; the clock is the list of the readings that
-- `time.Now` gives in turn, in milliseconds.
pub mod Fields
pub mod Order
pub mod Instance
use Prim.Native.Nat.{bit_and, bit_or}
use yaice.Base.{
  ℕ, zero, suc, ◌+◌, ◌-◌, ◌*◌, ◌/◌, ◌%◌, ◌^◌, ◌≤◌, ◌<◌, ◌≡◌, refl, ◌||◌, List, [], ◌∷◌, Option,
  none, some,
}
use yaice.Base.Tests.{ltb, leb, ◌==◌, if◌then◌else◌}
use yaice.Base.Int.{ℤ, pos, negsuc, pos_part, ltb_ℤ}

abbrev pub epoch : ℕ
epoch = 1420041600000

abbrev pub max_worker_id : ℕ
max_worker_id = 2 ^ 5 - 1

abbrev pub max_datacenter_id : ℕ
max_datacenter_id = 2 ^ 5 - 1

abbrev pub sequence_mask : ℕ
sequence_mask = 2 ^ 12 - 1

pub record SnowflakeIdWorker : Type 0 where
  pub last_timestamp : ℕ
  pub worker_id : ℕ
  pub datacenter_id : ℕ
  pub sequence : ℕ

-- `none` is an error.
unfoldable pub create_snowflake_worker : ℤ → ℤ → Option SnowflakeIdWorker
create_snowflake_worker w_id d_id =
    if ltb_ℤ w_id (pos 0) || ltb_ℤ (pos max_worker_id) w_id
    then none
    else if ltb_ℤ d_id (pos 0) || ltb_ℤ (pos max_datacenter_id) d_id
    then none
    else some (record {
      last_timestamp = 0;
      worker_id = pos_part w_id;
      datacenter_id = pos_part d_id;
      sequence = 0;
    })

-- `x << k` on a 64-bit pattern.
abbrev pub shl : ℕ → ℕ → ℕ
shl x k = x * 2 ^ k % 2 ^ 64

-- `(now-epoch)<<22 | datacenterId<<17 | workerId<<12 | sequence`
unfoldable pub compose : ℕ → ℕ → ℕ → ℕ → ℕ
compose now datacenter_id worker_id sequence =
    bit_or
      (bit_or (bit_or (shl ((now + 2 ^ 64 - epoch) % 2 ^ 64) 22) (shl datacenter_id 17))
        (shl worker_id 12))
      sequence

-- The loop that waits for the next millisecond: the reading that ends it, and the readings left.
-- `none` is a loop that still waits when the readings end.
unfoldable pub wait_after : ℕ → ℕ → List ℕ → Option (ℕ × List ℕ)
wait_after last now [] = if leb now last then none else some (now, [])
wait_after last now (t ∷ clock) =
    let waited = wait_after last t clock in if leb now last then waited else some (now, t ∷ clock)

-- The lines below the checks: the time is stored, and the identifier is made.
unfoldable pub stamp : SnowflakeIdWorker → ℕ → ℕ → List ℕ → SnowflakeIdWorker × ℕ × List ℕ
stamp w sequence now clock = (
  record w { last_timestamp = now; sequence = sequence },
  compose now w.datacenter_id w.worker_id sequence,
  clock,
)

-- `NextId`: the worker after it, the identifier, and the readings left.
unfoldable pub next_id : SnowflakeIdWorker → List ℕ → Option (SnowflakeIdWorker × ℕ × List ℕ)
next_id w [] = none
next_id w (now ∷ clock) =
    if ltb now w.last_timestamp
    then some (w, 3001, clock)
    else if w.last_timestamp == now
    then (let sequence = bit_and (w.sequence + 1) sequence_mask in
        if sequence == 0
        then (elim (wait_after w.last_timestamp now clock) [
          | none ↦ none
          | some (later, rest) ↦ some (stamp w sequence later rest)
        ])
        else some (stamp w sequence now clock))
    else some (stamp w 0 now clock)

-- `convertToBin`: the digits of a number that is not negative, in front of those so far, with fuel.
unfoldable pub bin_loop : ℕ → ℕ → List ℕ → Option (List ℕ)
bin_loop zero num s = none
bin_loop (suc fuel) num s =
    let rest = bin_loop fuel (num / 2) (num % 2 ∷ s) in if ltb 0 num then rest else some s

-- A negative number passes by the loop and gives the empty text.
unfoldable pub convert_to_bin : ℕ → ℤ → Option (List ℕ)
convert_to_bin fuel (negsuc n) = some []
convert_to_bin fuel (pos n) = if n == 0 then some (0 ∷ []) else bin_loop fuel n []
