-- ===== src/Base/Bits.antt =====
-- The bit operations at every width. Each is known by its lowest digit and by what it does to the
-- halves; the laws follow by induction on a bound of the numbers.
use Prim.Native.Nat.{
  ℕ, zero, suc, ◌+◌, ◌*◌, ◌/◌, ◌%◌, ◌^◌, ◌≤◌, ◌<◌, min, max, digits, differ, bit_and, bit_or,
  bit_xor, bit_and-bitwise, bit_or-bitwise, bit_xor-bitwise,
}
use mathlib.Core.Path.{◌≡◌, refl, sym, ap, ap₂, ◌∙◌}
use native.Mathlib.Nat.{pow-suc, mod-lt, div-add-mod, mul-add-mod_self_right, mod-eq_of_lt}
use native.Mathlib.Omega.{arith}

-- More digits to go than the number has make no difference.
digits_enough :
    (z : ℕ → ℕ) (f : ℕ → ℕ → ℕ) (b a m n : ℕ) → a ≤ m → a ≤ n → digits z f n a b ≡ digits z f m a b
digits_enough z f b (suc a) (suc m) (suc n) below_m below_n =
    ap (λ (t : ℕ). t * 2 + f (suc a % 2) (b % 2))
      (digits_enough z f (b / 2) (suc a / 2) m n (omega arith) (omega arith))
digits_enough z f b (suc a) zero n below_m below_n = absurd (omega arith)
digits_enough z f b (suc a) (suc m) zero below_m below_n = absurd (omega arith)
digits_enough z f b zero (suc m) (suc n) below_m below_n = refl
digits_enough z f b zero (suc m) zero below_m below_n = refl
digits_enough z f b zero zero (suc n) below_m below_n = refl
digits_enough z f b zero zero zero below_m below_n = refl

differ_lem : (x y : ℕ) → x < 2 → y < 2 → differ x y ≡ (x + y) % 2
differ_lem zero y h k = omega arith
differ_lem (suc zero) zero h k = refl
differ_lem (suc zero) (suc zero) h k = refl
differ_lem (suc zero) (suc (suc y)) h k = absurd (omega arith)
differ_lem (suc (suc x)) y h k = absurd (omega arith)

and_step : (a b : ℕ) → bit_and a b ≡ bit_and (a / 2) (b / 2) * 2 + min (a % 2) (b % 2)
and_step zero b = omega (arith, bit_and-bitwise 0 b, bit_and-bitwise 0 (b / 2))
and_step (suc a) b =
    bit_and-bitwise (suc a) b
    ∙ ap (λ (t : ℕ). t * 2 + min (suc a % 2) (b % 2))
        (digits_enough (λ b. 0) min (b / 2) (suc a / 2) (suc a / 2) a (omega arith) (omega arith)
          ∙ sym (bit_and-bitwise (suc a / 2) (b / 2)))

or_step : (a b : ℕ) → bit_or a b ≡ bit_or (a / 2) (b / 2) * 2 + max (a % 2) (b % 2)
or_step zero b = omega (arith, bit_or-bitwise 0 b, bit_or-bitwise 0 (b / 2))
or_step (suc a) b =
    bit_or-bitwise (suc a) b
    ∙ ap (λ (t : ℕ). t * 2 + max (suc a % 2) (b % 2))
        (digits_enough (λ b. b) max (b / 2) (suc a / 2) (suc a / 2) a (omega arith) (omega arith)
          ∙ sym (bit_or-bitwise (suc a / 2) (b / 2)))

pub xor_step : (a b : ℕ) → bit_xor a b ≡ bit_xor (a / 2) (b / 2) * 2 + (a + b) % 2
xor_step zero b = omega (arith, bit_xor-bitwise 0 b, bit_xor-bitwise 0 (b / 2))
xor_step (suc a) b =
    bit_xor-bitwise (suc a) b
    ∙ ap₂ (λ (t u : ℕ). t * 2 + u)
        (digits_enough (λ b. b) differ (b / 2) (suc a / 2) (suc a / 2) a (omega arith) (omega arith)
          ∙ sym (bit_xor-bitwise (suc a / 2) (b / 2)))
        (differ_lem (suc a % 2) (b % 2) (omega arith) (omega arith) ∙ omega arith)

pub xor-half : (a b : ℕ) → bit_xor a b / 2 ≡ bit_xor (a / 2) (b / 2)
xor-half a b = omega (arith, xor_step a b)

pub xor-parity : (a b : ℕ) → bit_xor a b % 2 ≡ (a + b) % 2
xor-parity a b = omega (arith, xor_step a b)

-- Two numbers are equal if their halves and their lowest digits are.
halves : (a b : ℕ) → a / 2 ≡ b / 2 → a % 2 ≡ b % 2 → a ≡ b
halves a b h k = omega arith

xor_self_below : (n a : ℕ) → a ≤ n → bit_xor a a ≡ 0
xor_self_below n zero h = refl
xor_self_below zero (suc a) h = absurd (omega arith)
xor_self_below (suc n) (suc a) h =
    omega (arith, xor_step (suc a) (suc a), xor_self_below n (suc a / 2) (omega arith))

pub xor_self : (a : ℕ) → bit_xor a a ≡ 0
xor_self a = xor_self_below a a (omega arith)

xor-zero_below : (n a : ℕ) → a ≤ n → bit_xor a 0 ≡ a
xor-zero_below n zero h = refl
xor-zero_below zero (suc a) h = absurd (omega arith)
xor-zero_below (suc n) (suc a) h =
    omega (arith, xor_step (suc a) 0, xor-zero_below n (suc a / 2) (omega arith))

pub xor-zero : (a : ℕ) → bit_xor a 0 ≡ a
xor-zero a = xor-zero_below a a (omega arith)

pub zero-xor : (a : ℕ) → bit_xor 0 a ≡ a
zero-xor a = bit_xor-bitwise 0 a

xor_comm_below : (n a b : ℕ) → a ≤ n → b ≤ n → bit_xor a b ≡ bit_xor b a
xor_comm_below zero zero zero h k = refl
xor_comm_below zero (suc a) b h k = absurd (omega arith)
xor_comm_below zero zero (suc b) h k = absurd (omega arith)
xor_comm_below (suc n) a b h k = omega (
  arith,
  xor_step a b,
  xor_step b a,
  xor_comm_below n (a / 2) (b / 2) (omega arith) (omega arith),
)

pub xor_comm : (a b : ℕ) → bit_xor a b ≡ bit_xor b a
xor_comm a b = xor_comm_below (a + b) a b (omega arith) (omega arith)

xor_assoc_below :
    (n a b c : ℕ) → a ≤ n → b ≤ n → c ≤ n → bit_xor (bit_xor a b) c ≡ bit_xor a (bit_xor b c)
xor_assoc_below zero zero zero zero h k l = refl
xor_assoc_below zero (suc a) b c h k l = absurd (omega arith)
xor_assoc_below zero zero (suc b) c h k l = absurd (omega arith)
xor_assoc_below zero zero zero (suc c) h k l = absurd (omega arith)
xor_assoc_below (suc n) a b c h k l =
    halves _ _
      (xor-half (bit_xor a b) c
        ∙ ap (λ (t : ℕ). bit_xor t (c / 2)) (xor-half a b)
        ∙ xor_assoc_below n (a / 2) (b / 2) (c / 2) (omega arith) (omega arith) (omega arith)
        ∙ sym (xor-half a (bit_xor b c) ∙ ap (bit_xor (a / 2)) (xor-half b c)))
      (omega (
        arith,
        xor-parity (bit_xor a b) c,
        xor-parity a b,
        xor-parity a (bit_xor b c),
        xor-parity b c,
      ))

pub xor_assoc : (a b c : ℕ) → bit_xor (bit_xor a b) c ≡ bit_xor a (bit_xor b c)
xor_assoc a b c = xor_assoc_below (a + b + c) a b c (omega arith) (omega arith) (omega arith)

pub xor_cancel : (a b : ℕ) → bit_xor (bit_xor a b) b ≡ a
xor_cancel a b = xor_assoc a b b ∙ ap (bit_xor a) (xor_self b) ∙ xor-zero a

times_two_pow : (q k : ℕ) → q * 2 ^ suc k ≡ 2 * (q * 2 ^ k)
times_two_pow q k = omega (arith, ap (λ (t : ℕ). q * t) (pow-suc 2 k))

-- Numbers below a power of two stay below it.
pub xor-lt : (k a b : ℕ) → a < 2 ^ k → b < 2 ^ k → bit_xor a b < 2 ^ k
xor-lt zero zero zero h l = omega arith
xor-lt zero (suc a) b h l = absurd (omega arith)
xor-lt zero zero (suc b) h l = absurd (omega arith)
xor-lt (suc k) a b h l =
    let e = pow-suc 2 k in
    let ih = xor-lt k (a / 2) (b / 2) (omega arith) (omega arith) in omega (arith, xor_step a b)

or-zero_below : (n a : ℕ) → a ≤ n → bit_or a 0 ≡ a
or-zero_below n zero h = refl
or-zero_below zero (suc a) h = absurd (omega arith)
or-zero_below (suc n) (suc a) h =
    omega (arith, or_step (suc a) 0, or-zero_below n (suc a / 2) (omega arith))

-- Fields that do not overlap: `|` is a sum.
pub or_fields : (k q r : ℕ) → r < 2 ^ k → bit_or (q * 2 ^ k) r ≡ q * 2 ^ k + r
or_fields zero q zero h = or-zero_below (q * 1) (q * 1) (omega arith) ∙ omega arith
or_fields zero q (suc r) h = absurd (omega arith)
or_fields (suc k) q r h =
    let e = pow-suc 2 k in
    let t = times_two_pow q k in
    let half : q * 2 ^ suc k / 2 ≡ q * 2 ^ k = omega arith in
    let digit : max (q * 2 ^ suc k % 2) (r % 2) ≡ r % 2 = omega arith in
    or_step (q * 2 ^ suc k) r
    ∙ ap₂ (λ (u v : ℕ). u * 2 + v)
        (ap (λ (u : ℕ). bit_or u (r / 2)) half ∙ or_fields k q (r / 2) (omega arith)) digit
    ∙ omega arith

pub xor_fields : (k q r : ℕ) → r < 2 ^ k → bit_xor (q * 2 ^ k) r ≡ q * 2 ^ k + r
xor_fields zero q zero h = xor-zero (q * 1) ∙ omega arith
xor_fields zero q (suc r) h = absurd (omega arith)
xor_fields (suc k) q r h =
    let e = pow-suc 2 k in
    let t = times_two_pow q k in
    xor_step (q * 2 ^ suc k) r
    ∙ ap (λ (u : ℕ). u * 2 + (q * 2 ^ suc k + r) % 2)
        (ap (λ (u : ℕ). bit_xor u (r / 2)) (omega arith) ∙ xor_fields k q (r / 2) (omega arith))
    ∙ omega arith

and-zero_under : (a bound : ℕ) → a < bound → 0 ≡ bit_and a 0
and-zero_under (suc a) (suc bound) lt =
    let smaller = and-zero_under (suc a / 2) bound (omega arith) in
    let step = and_step (suc a) 0 in omega arith
and-zero_under zero (suc bound) lt = refl
and-zero_under a zero lt = absurd (omega arith)

-- A mask of `k` ones keeps the remainder by `2 ^ k`; `m` is the mask.
pub and_mask : (k a m : ℕ) → m + 1 ≡ 2 ^ k → bit_and a m ≡ a % 2 ^ k
and_mask zero a zero h = sym (and-zero_under a (suc a) (omega arith)) ∙ omega arith
and_mask zero a (suc m) h = absurd (omega arith)
and_mask (suc k) a m h =
    let e = pow-suc 2 k in
    let p = 2 ^ k in
    let q = a / 2 / p in
    let r = a / 2 % p in
    let below : r < p = mod-lt (a / 2) (omega arith) in
    let whole : p * q + r ≡ a / 2 = div-add-mod (a / 2) p in
    let parts : q * 2 ^ suc k + (r * 2 + a % 2) ≡ a = omega (arith, ap (λ (t : ℕ). q * t) e) in
    let ih = and_mask k (a / 2) (m / 2) (omega arith) in
    let digit : min (a % 2) (m % 2) ≡ a % 2 = omega arith in
    and_step a m
    ∙ ap₂ (λ (u v : ℕ). u * 2 + v) ih digit
    ∙ sym (
        ap (λ (t : ℕ). t % 2 ^ suc k) (sym parts)
        ∙ mul-add-mod_self_right q (2 ^ suc k) (r * 2 + a % 2)
        ∙ mod-eq_of_lt (omega arith))
