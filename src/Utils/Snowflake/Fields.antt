-- ===== src/Utils/Snowflake/Fields.antt =====
-- The fields of an identifier.
use Prim.Native.Nat.{bit_or}
use yaice.Base.{ℕ, ◌+◌, ◌-◌, ◌*◌, ◌/◌, ◌%◌, ◌^◌, ◌<◌, ◌≡◌, ap, ap₂, ◌∙◌, arith}
use yaice.Base.Bits.{or_fields}
use yaice.Utils.Snowflake.{epoch, compose, SnowflakeIdWorker}

-- The bounds of a worker that `create_snowflake_worker` makes and `next_id` keeps.
pub record IsValid (w : SnowflakeIdWorker) : Type 0 where
  pub worker : w.worker_id < 32
  pub datacenter : w.datacenter_id < 32
  pub sequenced : w.sequence < 4096

-- A reading of the clock that 41 bits of milliseconds since the epoch can hold.
pub record InRange (now : ℕ) : Type 0 where
  pub started : epoch < now
  pub fits : now < epoch + 2 ^ 41

-- The identifier as a sum: the fields do not overlap.
abbrev pub id_of : ℕ → ℕ → ℕ → ℕ → ℕ
id_of now d w s = (now - epoch) * 2 ^ 22 + d * 2 ^ 17 + w * 2 ^ 12 + s

pub compose-id_of :
    (now d w s : ℕ) → InRange now → d < 32 → w < 32 → s < 4096 → compose now d w s ≡ id_of now d w s
unfolding compose
compose-id_of now d w s r hd hw hs =
    ap₂ (λ (a b : ℕ). bit_or (bit_or (bit_or a b) (w * 2 ^ 12 % 2 ^ 64)) s) time_lem data_lem
    ∙ ap (λ (b : ℕ). bit_or (bit_or (bit_or (t * 2 ^ 22) (d * 2 ^ 17)) b) s) worker_lem
    ∙ ap (λ (a : ℕ). bit_or (bit_or a (w * 2 ^ 12)) s) (or_fields 22 t (d * 2 ^ 17) (omega arith))
    ∙ ap (λ (a : ℕ). bit_or (bit_or a (w * 2 ^ 12)) s) first_lem
    ∙ ap (λ (a : ℕ). bit_or a s) (or_fields 17 (t * 32 + d) (w * 2 ^ 12) (omega arith))
    ∙ ap (λ (a : ℕ). bit_or a s) second_lem
    ∙ or_fields 12 ((t * 32 + d) * 32 + w) s hs
    ∙ omega arith
  where
    t : ℕ
    t = now - epoch

    time_lem : (now + 2 ^ 64 - epoch) % 2 ^ 64 * 2 ^ 22 % 2 ^ 64 ≡ t * 2 ^ 22
    time_lem = omega (arith, r.started, r.fits)

    data_lem : d * 2 ^ 17 % 2 ^ 64 ≡ d * 2 ^ 17
    data_lem = omega arith

    worker_lem : w * 2 ^ 12 % 2 ^ 64 ≡ w * 2 ^ 12
    worker_lem = omega arith

    first_lem : t * 2 ^ 22 + d * 2 ^ 17 ≡ (t * 32 + d) * 2 ^ 17
    first_lem = omega arith

    second_lem : (t * 32 + d) * 2 ^ 17 + w * 2 ^ 12 ≡ ((t * 32 + d) * 32 + w) * 2 ^ 12
    second_lem = omega arith

-- An identifier gives back its time, its two worker numbers and its sequence, and it fits 63 bits, so
-- it is not negative as an `int64`.
pub compose_fields :
    (now d w s : ℕ)
    → InRange now
    → d < 32
    → w < 32
    → s < 4096
    → (compose now d w s / 2 ^ 22 + epoch ≡ now)
      × (compose now d w s / 2 ^ 17 % 32 ≡ d)
      × (compose now d w s / 2 ^ 12 % 32 ≡ w)
      × (compose now d w s % 4096 ≡ s)
      × (compose now d w s < 2 ^ 63)
compose_fields now d w s r hd hw hs =
    let e = compose-id_of now d w s r hd hw hs in
    (
      omega (arith, r.started),
      omega arith,
      omega arith,
      omega arith,
      omega (arith, r.fits, r.started),
    )
