-- ===== src/Utils/Snowflake/Instance.antt =====
-- utils/tool.go and utils/snowflake.go: the one worker of the process, which the first call makes.
use yaice.Base.{
  ℕ, zero, suc, ◌≡◌, refl, sym, ◌∙◌, inl, inr, List, [], ◌∷◌, Option, none, some, arith,
}
use yaice.Base.Tests.{Option-cases}
use yaice.Base.Int.{pos}
use yaice.Utils.Snowflake.{SnowflakeIdWorker, create_snowflake_worker, next_id}
use yaice.Utils.Snowflake.Order.{next_ids, Rising, IncreasesFrom, last_id, next_ids-IncreasesFrom}

-- `initSnowflake`: the instance stays nil on an error.
unfoldable pub init_snowflake : Option SnowflakeIdWorker
unfolding create_snowflake_worker
init_snowflake = create_snowflake_worker (pos 1) (pos 1)

-- `GenSnowflakeToo` with the instance, nil or not, after the once; `none` is a call that waits for ever.
unfoldable pub gen_with :
    Option SnowflakeIdWorker → List ℕ → Option (Option SnowflakeIdWorker × ℕ × List ℕ)
gen_with none clock = some (none, 0, clock)
gen_with (some w) clock = elim (next_id w clock) [
  | none ↦ none
  | some (w', id, rest) ↦ some (some w', id, rest)
]

-- The state is whether the once has run, and then the instance.
unfoldable pub gen_snowflake_too :
    Option (Option SnowflakeIdWorker) → List ℕ → Option (Option SnowflakeIdWorker × ℕ × List ℕ)
unfolding init_snowflake gen_with
gen_snowflake_too none clock = gen_with init_snowflake clock
gen_snowflake_too (some instance_made) clock = gen_with instance_made clock

-- The identifiers of some calls in turn.
unfoldable pub gen_ids : ℕ → Option (Option SnowflakeIdWorker) → List ℕ → Option (List ℕ)
unfolding gen_snowflake_too
gen_ids zero state clock = some []
gen_ids (suc n) state clock = elim (gen_snowflake_too state clock) [
  | none ↦ none
  | some (after, id, rest) ↦ elim (gen_ids n (some after) rest) [
    | none ↦ none
    | some ids ↦ some (id ∷ ids)
  ]
]

gen_ids-next_ids :
    (n : ℕ) (w : SnowflakeIdWorker) (clock : List ℕ)
    → gen_ids n (some (some w)) clock ≡ next_ids n w clock
unfolding gen_ids next_ids
gen_ids-next_ids zero w clock = refl
gen_ids-next_ids (suc n) w clock = elim (Option-cases (next_id w clock)) [
  | inl e ↦ rw (e, gen_ids, next_ids) refl
  | inr ((w', id, rest), e) ↦ rw (e, gen_ids, next_ids) (rw (gen_ids-next_ids n w' rest) refl)
]

abbrev first_worker : SnowflakeIdWorker
first_worker = record { last_timestamp = 0; worker_id = 1; datacenter_id = 1; sequence = 0 }

gen_ids-first :
    (n : ℕ) (clock : List ℕ) → gen_ids n none clock ≡ gen_ids n (some (some first_worker)) clock
unfolding gen_ids create_snowflake_worker
gen_ids-first zero clock = refl
gen_ids-first (suc n) clock = refl

-- The identifiers that a process makes, from its first call on, increase strictly while the clock does
-- not go back and its readings lie behind the epoch by less than 2 ^ 41 milliseconds.
pub gen_ids-IncreasesFrom :
    (n : ℕ) (clock ids : List ℕ)
    → Rising 0 clock
    → gen_ids n none clock ≡ some ids
    → IncreasesFrom (last_id first_worker) ids
gen_ids-IncreasesFrom n clock ids h e =
    next_ids-IncreasesFrom n first_worker clock ids (omega arith) h
      (sym (gen_ids-first n clock ∙ gen_ids-next_ids n first_worker clock) ∙ e)
