-- ===== src/Utils/Bytes.antt =====
-- utils/tool.go: integers as big-endian bytes. A byte is a number below 256; `binary.Write` puts out
-- the bit pattern of the integer, and `binary.Read` leaves 0 where it finds too few bytes.
use yaice.Base.{ℕ, ◌+◌, ◌-◌, ◌*◌, ◌/◌, ◌%◌, ◌^◌, ◌<◌, ◌≡◌, List, [], ◌∷◌, ◌++◌, arith}
use yaice.Base.Tests.{ltb, if◌then◌else◌}
use yaice.Base.Int.{ℤ, pos, negsuc, ◌≤ℤ◌, signed32, signed64, word32, word64, IsInt32, IsInt64}

abbrev pub IsByte : ℕ → Type 0
IsByte b = b < 256

abbrev pub signed16 : ℕ → ℤ
signed16 w = if ltb w (2 ^ 15) then pos w else negsuc (2 ^ 16 - w - 1)

abbrev pub word16 : ℤ → ℕ
word16 (pos n) = n % 2 ^ 16
word16 (negsuc n) = 2 ^ 16 - 1 - n % 2 ^ 16

abbrev pub IsInt16 : ℤ → Type 0
IsInt16 a = (negsuc (2 ^ 15 - 1) ≤ℤ a) × (a ≤ℤ pos (2 ^ 15 - 1))

-- The bytes of a 32-bit pattern, the most significant first, and of wider and narrower ones.
abbrev pub be16 : ℕ → List ℕ
be16 w = w / 256 % 256 ∷ w % 256 ∷ []

abbrev pub be32 : ℕ → List ℕ
be32 w = w / 2 ^ 24 % 256 ∷ w / 2 ^ 16 % 256 ∷ w / 2 ^ 8 % 256 ∷ w % 256 ∷ []

abbrev pub be64 : ℕ → List ℕ
be64 w =
    w / 2 ^ 56 % 256
    ∷ w / 2 ^ 48 % 256
    ∷ w / 2 ^ 40 % 256
    ∷ w / 2 ^ 32 % 256
    ∷ w / 2 ^ 24 % 256
    ∷ w / 2 ^ 16 % 256
    ∷ w / 2 ^ 8 % 256
    ∷ w % 256
    ∷ []

unfoldable pub int_to_bytes : ℤ → List ℕ
int_to_bytes n = be32 (word32 n)

unfoldable pub long_to_bytes : ℤ → List ℕ
long_to_bytes n = be64 (word64 n)

unfoldable pub short_to_bytes : ℤ → List ℕ
short_to_bytes n = be16 (word16 n)

unfoldable pub bytes_to_int : List ℕ → ℤ
bytes_to_int (a ∷ b ∷ c ∷ d ∷ rest) = signed32 (((a * 256 + b) * 256 + c) * 256 + d)
bytes_to_int _ = pos 0

unfoldable pub bytes_to_long : List ℕ → ℤ
bytes_to_long (a ∷ b ∷ c ∷ d ∷ e ∷ f ∷ g ∷ h ∷ rest) =
    signed64 (((((((a * 256 + b) * 256 + c) * 256 + d) * 256 + e) * 256 + f) * 256 + g) * 256 + h)
bytes_to_long _ = pos 0

unfoldable pub bytes_to_short : List ℕ → ℤ
bytes_to_short (a ∷ b ∷ rest) = signed16 (a * 256 + b)
bytes_to_short _ = pos 0

be32_lem :
    (w : ℕ)
    → w < 2 ^ 32
    → ((w / 2 ^ 24 % 256 * 256 + w / 2 ^ 16 % 256) * 256 + w / 2 ^ 8 % 256) * 256 + w % 256 ≡ w
be32_lem w h = omega arith

-- Every `int32` comes back from its four bytes, whatever bytes follow them.
pub bytes_to_int-int_to_bytes :
    (n : ℤ) (rest : List ℕ) → IsInt32 n → bytes_to_int (int_to_bytes n ++ rest) ≡ n
unfolding bytes_to_int int_to_bytes
bytes_to_int-int_to_bytes (pos n) rest h = rw (be32_lem (n % 2 ^ 32) (omega arith)) (ground arith)
bytes_to_int-int_to_bytes (negsuc n) rest h =
    rw (be32_lem (2 ^ 32 - 1 - n % 2 ^ 32) (omega arith)) (ground arith)

be64_lem :
    (w : ℕ)
    → w < 2 ^ 64
    → ((((((w / 2 ^ 56 % 256 * 256 + w / 2 ^ 48 % 256) * 256 + w / 2 ^ 40 % 256) * 256
                        + w / 2 ^ 32 % 256)
                      * 256
                    + w / 2 ^ 24 % 256)
                  * 256
                + w / 2 ^ 16 % 256)
              * 256
            + w / 2 ^ 8 % 256)
          * 256
        + w % 256
      ≡ w
be64_lem w h = omega arith

-- Every `int64` comes back from its eight bytes, whatever bytes follow them.
pub bytes_to_long-long_to_bytes :
    (n : ℤ) (rest : List ℕ) → IsInt64 n → bytes_to_long (long_to_bytes n ++ rest) ≡ n
unfolding bytes_to_long long_to_bytes
bytes_to_long-long_to_bytes (pos n) rest h = rw (be64_lem (n % 2 ^ 64) (omega arith)) (ground arith)
bytes_to_long-long_to_bytes (negsuc n) rest h =
    rw (be64_lem (2 ^ 64 - 1 - n % 2 ^ 64) (omega arith)) (ground arith)

-- Every `int16` comes back from its two bytes, whatever bytes follow them.
pub bytes_to_short-short_to_bytes :
    (n : ℤ) (rest : List ℕ) → IsInt16 n → bytes_to_short (short_to_bytes n ++ rest) ≡ n
unfolding bytes_to_short short_to_bytes
bytes_to_short-short_to_bytes (pos n) rest h = ground arith
bytes_to_short-short_to_bytes (negsuc n) rest h = ground arith

-- Four bytes come back from the `int32` that is read from them.
pub int_to_bytes-bytes_to_int :
    (a b c d : ℕ)
    → IsByte a
    → IsByte b
    → IsByte c
    → IsByte d
    → int_to_bytes (bytes_to_int (a ∷ b ∷ c ∷ d ∷ [])) ≡ a ∷ b ∷ c ∷ d ∷ []
unfolding bytes_to_int int_to_bytes
int_to_bytes-bytes_to_int a b c d ha hb hc hd =
    rw (pattern_lem (((a * 256 + b) * 256 + c) * 256 + d) (omega arith)) (ground arith)
  where
    pattern_lem : (w : ℕ) → w < 2 ^ 32 → word32 (signed32 w) ≡ w
    pattern_lem w h = ground arith
