-- ===== src/Utils/Crc/Check.antt =====
-- `CheckCRCCodeRight` never comes to a checksum.
use yaice.Base.{
  ℕ, zero, suc, ◌+◌, ◌^◌, ◌≤◌, ◌<◌, ◌≡◌, refl, ◌⊎◌, inl, inr, Bool, ◌||◌, List, some, arith,
}
use yaice.Base.Tests.{Bool-cases, Option-cases}
use yaice.Base.Lists.{length, get_elem?, All-get_elem?, get_elem?-none, All}
use yaice.Base.Int.{ℤ, pos, negsuc, ◌+ℤ◌, ltb_ℤ, pos_part, neg_part, le→leb_ℤ, ◌-ℤ◌, ◌≤ℤ◌, int64}
use yaice.Utils.Bytes.{IsByte}
use yaice.Utils.Tool.{returns, panics}
use yaice.Utils.Crc.{check_loop, check_crc_code_right}
use yaice.Utils.Crc.Table.{crc_update-shifts}

-- `i--`, short of a wrap-around.
step_down :
    (i count : ℤ) (rounds : ℕ)
    → neg_part i + suc rounds ≤ 2 ^ 63
    → i ≤ℤ count
    → pos_part count < 2 ^ 63
    → (neg_part (int64 (i -ℤ pos 1)) + rounds ≤ 2 ^ 63) × (int64 (i -ℤ pos 1) ≤ℤ count)
unfolding ◌-ℤ◌ int64
step_down (pos m) count rounds n le c = ground arith
step_down (negsuc m) count rounds n le c = ground arith

-- The rounds before the buffer ends: `rounds` is at least what is left of it, and `i` can go down as
-- often with no wrap-around.
check_loop-panics :
    (rounds fuel : ℕ) (buffer : List ℕ) (count i : ℤ) (offset crc : ℕ)
    → All IsByte buffer
    → rounds < fuel
    → length buffer ≤ offset + 1 + rounds
    → neg_part i + rounds ≤ 2 ^ 63
    → i ≤ℤ count
    → pos_part count < 2 ^ 63
    → check_loop fuel buffer count i offset crc ≡ some panics
unfolding check_loop
check_loop-panics rounds zero buffer count i offset crc h f l n le c = absurd (omega arith)
check_loop-panics zero (suc fuel) buffer count i offset crc h f l n le c =
    rw (le→leb_ℤ i count le, get_elem?-none buffer (offset + 1) (omega arith), check_loop)
check_loop-panics (suc rounds) (suc fuel) buffer count i offset crc h f l n le c =
    let (n', le') = step_down i count rounds n le c in
    elim (Option-cases (get_elem? buffer (offset + 1))) [
      | inl e ↦ rw (le→leb_ℤ i count le, e, check_loop)
      | inr (b, e) ↦
          rw
            (
              le→leb_ℤ i count le,
              e,
              crc_update-shifts crc b (All-get_elem? IsByte buffer (offset + 1) b h e),
              check_loop,
            )
            (check_loop-panics rounds fuel buffer count (int64 (i -ℤ pos 1)) (offset + 1) _ h
              (omega arith) (omega arith) n' le' c)
    ]

-- On a buffer of bytes and a `count` that is not negative `CheckCRCCodeRight` returns 1, by its
-- guards, or panics: it never returns a checksum. As many rounds as the buffer has bytes, and one
-- more, are enough.
pub check_crc_code_right-panics :
    (fuel : ℕ) (bytes : List ℕ) (offset : ℤ) (count : ℕ)
    → length bytes < fuel
    → length bytes ≤ 2 ^ 63
    → count < 2 ^ 63
    → All IsByte bytes
    → (check_crc_code_right fuel (some bytes) offset (pos count) ≡ some (returns 1))
      ⊎ (check_crc_code_right fuel (some bytes) offset (pos count) ≡ some panics)
unfolding check_crc_code_right
check_crc_code_right-panics fuel bytes offset count f l c h = elim (Bool-cases guard) [
  | inl t ↦ inl (rw t refl)
  | inr e ↦ inr (
      rw e (
        check_loop-panics (length bytes) fuel bytes (pos count) (pos count) (pos_part offset) _ h f
          (omega arith) (omega arith) (omega arith) c))
]
  where
    guard : Bool
    guard = ltb_ℤ offset (pos 0) || ltb_ℤ (pos (length bytes)) (int64 (offset +ℤ pos count))
