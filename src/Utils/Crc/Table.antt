-- ===== src/Utils/Crc/Table.antt =====
-- The table of crc.go against the polynomial of CRC-32: each entry is eight shifts of its index.
use Prim.Native.Nat.{bit_and, bit_xor}
use native.Mathlib.Nat.{pow-suc}
use yaice.Base.{
  ℕ, zero, suc, ◌+◌, ◌*◌, ◌/◌, ◌%◌, ◌^◌, ◌<◌, ◌≡◌, refl, sym, ap, ap₂, ◌∙◌, inl, inr, Bool, true,
  false, ◌&&◌, none, some, arith,
}
use yaice.Base.Tests.{◌==◌, Option-cases}
use yaice.Base.Lists.{get_elem?}
use yaice.Base.Bits.{
  xor-half, xor-parity, xor_comm, xor_assoc, xor-zero, zero-xor, xor-lt, xor_fields, and_mask,
}
use yaice.Utils.Crc.{crc_table, crc_update}

-- The reflected polynomial of CRC-32, and one shift of the register.
abbrev pub polynomial : ℕ
polynomial = 0xedb8_8320

unfoldable pub shift : ℕ → ℕ
shift x = bit_xor (x / 2) (x % 2 * polynomial)

unfoldable pub shifts : ℕ → ℕ → ℕ
shifts zero x = x
shifts (suc n) x = shifts n (shift x)

digit_xor :
    (a b : ℕ) → a < 2 → b < 2 → (a + b) % 2 * polynomial ≡ bit_xor (a * polynomial) (b * polynomial)
digit_xor zero b h k = omega (arith, zero-xor (b * polynomial))
digit_xor (suc zero) zero h k = refl
digit_xor (suc zero) (suc zero) h k = refl
digit_xor (suc zero) (suc (suc b)) h k = absurd (omega arith)
digit_xor (suc (suc a)) b h k = absurd (omega arith)

swap_middle :
    (a b c d : ℕ) → bit_xor (bit_xor a b) (bit_xor c d) ≡ bit_xor (bit_xor a c) (bit_xor b d)
swap_middle a b c d =
    xor_assoc a b (bit_xor c d)
    ∙ ap (bit_xor a)
        (sym (xor_assoc b c d) ∙ ap (λ (t : ℕ). bit_xor t d) (xor_comm b c) ∙ xor_assoc c b d)
    ∙ sym (xor_assoc a c (bit_xor b d))

-- A shift is linear.
shift-xor : (a b : ℕ) → shift (bit_xor a b) ≡ bit_xor (shift a) (shift b)
unfolding shift
shift-xor a b =
    let digit : bit_xor a b % 2 ≡ (a % 2 + b % 2) % 2 = omega (arith, xor-parity a b) in
    ap₂ bit_xor (xor-half a b)
      (ap (λ (t : ℕ). t * polynomial) digit ∙ digit_xor (a % 2) (b % 2) (omega arith) (omega arith))
    ∙ swap_middle (a / 2) (b / 2) (a % 2 * polynomial) (b % 2 * polynomial)

shifts-xor : (n a b : ℕ) → shifts n (bit_xor a b) ≡ bit_xor (shifts n a) (shifts n b)
unfolding shifts
shifts-xor zero a b = refl
shifts-xor (suc n) a b = ap (shifts n) (shift-xor a b) ∙ shifts-xor n (shift a) (shift b)

-- Shifts of a number with zeros below drop the zeros.
shifts-zeros : (n q : ℕ) → shifts n (q * 2 ^ n) ≡ q
unfolding shifts shift
shifts-zeros zero q = omega arith
shifts-zeros (suc n) q =
    let e : q * 2 ^ suc n ≡ 2 * (q * 2 ^ n) = omega (arith, ap (λ (t : ℕ). q * t) (pow-suc 2 n)) in
    let half : q * 2 ^ suc n / 2 ≡ q * 2 ^ n = omega arith in
    let digit : q * 2 ^ suc n % 2 * polynomial ≡ 0 = omega arith in
    ap (shifts n) (ap₂ bit_xor half digit ∙ xor-zero (q * 2 ^ n)) ∙ shifts-zeros n q

tested : (ℕ → Bool) → ℕ → Bool
tested test zero = true
tested test (suc bound) = tested test bound && test bound

test-of_tested :
    (test : ℕ → Bool) (i bound : ℕ) → i < bound → tested test bound ≡ true → test i ≡ true
unfolding tested
test-of_tested test i (suc bound) lt all = ground (arith, test-of_tested test i bound)
test-of_tested test i zero lt all = absurd (omega arith)

entry : ℕ → Bool
entry i = elim (get_elem? crc_table i) [ none ↦ false | some t ↦ t == shifts 8 i ]

entries : tested entry 256 ≡ true
unfolding tested entry shifts shift crc_table
entries = refl

entry-some : (i t : ℕ) → get_elem? crc_table i ≡ some t → entry i ≡ true → t ≡ shifts 8 i
unfolding entry
entry-some i t e h = ground arith

-- The table has an entry for each byte, and it is the byte shifted eight times.
pub crc_table-shifts : (i : ℕ) → i < 256 → get_elem? crc_table i ≡ some (shifts 8 i)
unfolding entry
crc_table-shifts i h = elim (Option-cases (get_elem? crc_table i)) [
  | inl e ↦ cc (test-of_tested entry i 256 h entries, e)
  | inr (t, e) ↦ e ∙ ap some (entry-some i t e (test-of_tested entry i 256 h entries))
]

-- One step of the checksum by the table is eight shifts of the register with the byte in it.
pub crc_update-shifts : (crc b : ℕ) → b < 256 → crc_update crc b ≡ some (shifts 8 (bit_xor crc b))
unfolding crc_update
crc_update-shifts crc b h =
    rw (index, crc_table-shifts low low_byte, crc_update)
      (ap some (sym (ap (shifts 8) joined ∙ split)))
  where
    high : ℕ
    high = crc / 2 ^ 8

    low : ℕ
    low = bit_xor (crc % 2 ^ 8) b

    low_byte : low < 256
    low_byte = xor-lt 8 (crc % 2 ^ 8) b (omega arith) h

    whole : high * 2 ^ 8 + crc % 2 ^ 8 ≡ crc
    whole = omega arith

    joined : bit_xor crc b ≡ bit_xor (high * 2 ^ 8) low
    joined =
        ap (λ (t : ℕ). bit_xor t b)
          (sym whole ∙ sym (xor_fields 8 high (crc % 2 ^ 8) (omega arith)))
        ∙ xor_assoc (high * 2 ^ 8) (crc % 2 ^ 8) b

    split : shifts 8 (bit_xor (high * 2 ^ 8) low) ≡ bit_xor (shifts 8 low) high
    split =
        shifts-xor 8 (high * 2 ^ 8) low
        ∙ ap (λ (t : ℕ). bit_xor t (shifts 8 low)) (shifts-zeros 8 high)
        ∙ xor_comm high (shifts 8 low)

    index : bit_and (bit_xor crc b) 0xff ≡ low
    index =
        and_mask 8 (bit_xor crc b) 0xff refl
        ∙ ap (λ (t : ℕ). t % 2 ^ 8) (joined ∙ xor_fields 8 high low low_byte)
        ∙ omega (arith, low_byte)

shift-lt : (x : ℕ) → x < 2 ^ 32 → shift x < 2 ^ 32
unfolding shift
shift-lt x h = xor-lt 32 (x / 2) (x % 2 * polynomial) (omega arith) (omega arith)

pub shifts-lt : (n x : ℕ) → x < 2 ^ 32 → shifts n x < 2 ^ 32
unfolding shifts
shifts-lt zero x h = h
shifts-lt (suc n) x h = shifts-lt n (shift x) (shift-lt x h)
