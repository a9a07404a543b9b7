-- ===== src/Tests/Utils.antt =====
-- The theorems on the files of utils at concrete inputs.
use yaice.Base.{ℕ, ◌≡◌, ◌≢◌, ◌++◌, refl, List, [], ◌∷◌, none, arith}
use yaice.Base.Int.{pos, negsuc}
use yaice.Utils.Bytes.{bytes_to_int, int_to_bytes, bytes_to_int-int_to_bytes}
use yaice.Utils.Tool.{returns, Text}
use yaice.Utils.Gid.{goroutine_prefix, get_gid}
use yaice.Utils.Gid.Printed.{decimal, get_gid-decimal}
use yaice.Utils.Crc.{generate_crc_check_code}
use yaice.Utils.Crc.Reference.{crc32, generate_crc_check_code-crc32}
use yaice.Utils.Snowflake.{SnowflakeIdWorker, stamp, compose, next_id}
use yaice.Utils.Snowflake.Fields.{IsValid, InRange}
use yaice.Utils.Snowflake.Order.{
  next_ids, IncreasesFrom, last_id, next_ids-IncreasesFrom, next_id-ne-none,
}

-- "123456789"
abbrev digits : List ℕ
digits = 49 ∷ 50 ∷ 51 ∷ 52 ∷ 53 ∷ 54 ∷ 55 ∷ 56 ∷ 57 ∷ []

generate_crc_check_code-crc32_example : generate_crc_check_code digits ≡ returns (crc32 digits)
generate_crc_check_code-crc32_example = generate_crc_check_code-crc32 digits (ground arith)

abbrev worker : SnowflakeIdWorker
worker = record { last_timestamp = 0; worker_id = 1; datacenter_id = 2; sequence = 0 }

worker-IsValid : IsValid worker
worker-IsValid = record {
  worker = ground arith;
  datacenter = ground arith;
  sequenced = ground arith;
}

abbrev clock : List ℕ
clock = 1420041600001 ∷ 1420041600001 ∷ []

reading-InRange : InRange 1420041600001
reading-InRange = record { started = ground arith; fits = ground arith }

-- The two identifiers of two calls in one millisecond.
abbrev two_ids : List ℕ
two_ids = 4460544 ∷ 4460545 ∷ []

next_ids-IncreasesFrom_example : IncreasesFrom (last_id worker) two_ids
unfolding next_ids next_id stamp compose
next_ids-IncreasesFrom_example =
    next_ids-IncreasesFrom 2 worker clock two_ids worker-IsValid
      (ground arith, reading-InRange, (ground arith, reading-InRange, tt)) refl

next_id-ne-none_example : next_id worker (0 ∷ ([] ++ (5 ∷ []))) ≢ none
next_id-ne-none_example = next_id-ne-none worker 0 5 [] [] (ground arith)

bytes_to_int-int_to_bytes_example : bytes_to_int (int_to_bytes (negsuc 4) ++ (7 ∷ [])) ≡ negsuc 4
bytes_to_int-int_to_bytes_example = bytes_to_int-int_to_bytes (negsuc 4) (7 ∷ []) (ground arith)

-- "[running]:"
abbrev running : Text
running = 91 ∷ 114 ∷ 117 ∷ 110 ∷ 110 ∷ 105 ∷ 110 ∷ 103 ∷ 93 ∷ 58 ∷ []

get_gid-decimal_example :
    get_gid (goroutine_prefix ++ (decimal 19 42 ++ (32 ∷ running))) ≡ returns (pos 42)
get_gid-decimal_example = get_gid-decimal 42 running (ground arith)
