-- ===== src/Utils/Crc/Reference.antt =====
-- The checksum of crc.go is CRC-32, as it is defined bit by bit.
use Prim.Native.Nat.{bit_xor}
use yaice.Base.{ℕ, ◌^◌, ◌<◌, ◌≡◌, refl, List, [], ◌∷◌, arith}
use yaice.Base.Lists.{All}
use yaice.Base.Bits.{xor_cancel, xor-lt}
use yaice.Utils.Bytes.{IsByte}
use yaice.Utils.Tool.{returns}
use yaice.Utils.Crc.{crc_seed, crc_loop, generate_crc_check_code}
use yaice.Utils.Crc.Table.{shift, shifts, crc_update-shifts, shifts-lt}

-- The register after each byte is shifted in, one bit at a time and with no table.
pub register : List ℕ → ℕ → ℕ
register [] r = r
register (b ∷ bytes) r = register bytes (shifts 8 (bit_xor r b))

-- CRC-32: the register starts with ones, and is inverted at the end.
pub crc32 : List ℕ → ℕ
crc32 bytes = bit_xor (register bytes crc_seed) crc_seed

crc_loop-register :
    (bytes : List ℕ) (r : ℕ)
    → All IsByte bytes
    → crc_loop bytes (bit_xor r crc_seed) ≡ returns (bit_xor (register bytes r) crc_seed)
unfolding crc_loop register
crc_loop-register [] r h = refl
crc_loop-register (b ∷ bytes) r h =
    rw (xor_cancel r crc_seed, crc_update-shifts r b h.0, crc_loop)
      (crc_loop-register bytes (shifts 8 (bit_xor r b)) h.1)

-- `GenerateCRCCheckCode` returns, and its result is the CRC-32 of the bytes.
pub generate_crc_check_code-crc32 :
    (bytes : List ℕ) → All IsByte bytes → generate_crc_check_code bytes ≡ returns (crc32 bytes)
unfolding generate_crc_check_code crc32
generate_crc_check_code-crc32 bytes h = crc_loop-register bytes crc_seed h

register-lt : (bytes : List ℕ) (r : ℕ) → All IsByte bytes → r < 2 ^ 32 → register bytes r < 2 ^ 32
unfolding register
register-lt [] r h l = l
register-lt (b ∷ bytes) r h l =
    register-lt bytes _ h.1 (shifts-lt 8 (bit_xor r b) (xor-lt 32 r b l (omega (arith, h.0))))

-- The checksum of bytes fits 32 bits.
pub crc32-lt : (bytes : List ℕ) → All IsByte bytes → crc32 bytes < 2 ^ 32
unfolding crc32
crc32-lt bytes h =
    xor-lt 32 (register bytes crc_seed) crc_seed (register-lt bytes crc_seed h (omega arith))
      (omega arith)

crc32_check :
    crc32 (b'1' ∷ b'2' ∷ b'3' ∷ b'4' ∷ b'5' ∷ b'6' ∷ b'7' ∷ b'8' ∷ b'9' ∷ []) ≡ 0xcbf4_3926
unfolding crc32 register shifts shift
crc32_check = refl
