-- ===== src/Base/Int.antt =====
-- Signed integers over the native numbers, and their wrap-around at 32 and 64 bits. Sums and orders
-- go through the two parts of an integer, which are numbers that the tactics read.
use Prim.Native.Nat.{ℕ, suc, ◌+◌, ◌-◌, ◌%◌, ◌^◌, ◌≤◌, ◌<◌}
use mathlib.Core.Path.{◌≡◌, ap}
use mathlib.Core.Bool.{Bool, true, false}
use native.Mathlib.Omega.{arith}
use native.Mathlib.Decide.{ℕ_discrete}
use yaice.Base.Tests.{ltb, leb, if◌then◌else◌}

-- `negsuc n` is -(n + 1).
pub data ℤ : Type 0 where
  pos : ℕ → ℤ
  negsuc : ℕ → ℤ

pos-injective : {m n : ℕ} → pos m ≡ pos n → m ≡ n
pos-injective e = cc

negsuc-injective : {m n : ℕ} → negsuc m ≡ negsuc n → m ≡ n
negsuc-injective e = cc

pos≢negsuc : {m n : ℕ} → ¬ (pos m ≡ negsuc n)
pos≢negsuc e = cc

negsuc≢pos : {m n : ℕ} → ¬ (negsuc m ≡ pos n)
negsuc≢pos e = cc

unfoldable pub ℤ_discrete : Discrete ℤ
unfolding pos-injective negsuc-injective pos≢negsuc negsuc≢pos ℕ_discrete
ℤ_discrete (pos m) (pos n) = elim (ℕ_discrete m n) [
  | yes e ↦ yes (ap pos e)
  | no h ↦ no (λ e. h (pos-injective e))
]
ℤ_discrete (pos m) (negsuc n) = no pos≢negsuc
ℤ_discrete (negsuc m) (pos n) = no negsuc≢pos
ℤ_discrete (negsuc m) (negsuc n) = elim (ℕ_discrete m n) [
  | yes e ↦ yes (ap negsuc e)
  | no h ↦ no (λ e. h (negsuc-injective e))
]

abbrev pub pos_part : ℤ → ℕ
pos_part (pos n) = n
pos_part (negsuc n) = 0

abbrev pub neg_part : ℤ → ℕ
neg_part (pos n) = 0
neg_part (negsuc n) = suc n

-- a - b, as an integer.
abbrev pub sub_ℕ : ℕ → ℕ → ℤ
sub_ℕ a b = if leb b a then pos (a - b) else negsuc (b - a - 1)

infixl 65 ◌+ℤ◌ ◌-ℤ◌
infix 50 ◌≤ℤ◌ ◌<ℤ◌
unfoldable pub ◌+ℤ◌ : ℤ → ℤ → ℤ
a +ℤ b = sub_ℕ (pos_part a + pos_part b) (neg_part a + neg_part b)

unfoldable pub ◌-ℤ◌ : ℤ → ℤ → ℤ
a -ℤ b = sub_ℕ (pos_part a + neg_part b) (neg_part a + pos_part b)

abbrev pub ◌≤ℤ◌ : ℤ → ℤ → Type 0
a ≤ℤ b = pos_part a + neg_part b ≤ pos_part b + neg_part a

abbrev pub ◌<ℤ◌ : ℤ → ℤ → Type 0
a <ℤ b = pos_part a + neg_part b < pos_part b + neg_part a

-- The comparisons of the program, as Boolean tests.
abbrev pub ltb_ℤ : ℤ → ℤ → Bool
ltb_ℤ a b = ltb (pos_part a + neg_part b) (pos_part b + neg_part a)

abbrev pub leb_ℤ : ℤ → ℤ → Bool
leb_ℤ a b = leb (pos_part a + neg_part b) (pos_part b + neg_part a)

-- The integer that a bit pattern below 2 ^ 64 stands for, and the pattern of an integer.
abbrev pub signed64 : ℕ → ℤ
signed64 w = if ltb w (2 ^ 63) then pos w else negsuc (2 ^ 64 - w - 1)

abbrev pub word64 : ℤ → ℕ
word64 (pos n) = n % 2 ^ 64
word64 (negsuc n) = 2 ^ 64 - 1 - n % 2 ^ 64

-- The value that an `int64` variable holds once the integer is stored in it.
unfoldable pub int64 : ℤ → ℤ
int64 a = signed64 (word64 a)

abbrev pub signed32 : ℕ → ℤ
signed32 w = if ltb w (2 ^ 31) then pos w else negsuc (2 ^ 32 - w - 1)

abbrev pub word32 : ℤ → ℕ
word32 (pos n) = n % 2 ^ 32
word32 (negsuc n) = 2 ^ 32 - 1 - n % 2 ^ 32

unfoldable pub int32 : ℤ → ℤ
int32 a = signed32 (word32 a)

abbrev pub IsInt64 : ℤ → Type 0
IsInt64 a = (negsuc (2 ^ 63 - 1) ≤ℤ a) × (a ≤ℤ pos (2 ^ 63 - 1))

abbrev pub IsInt32 : ℤ → Type 0
IsInt32 a = (negsuc (2 ^ 31 - 1) ≤ℤ a) × (a ≤ℤ pos (2 ^ 31 - 1))

pub int64_of_IsInt64 : (a : ℤ) → IsInt64 a → int64 a ≡ a
unfolding int64
int64_of_IsInt64 (pos n) h = ground arith
int64_of_IsInt64 (negsuc n) h = ground arith

pub int64-IsInt64 : (a : ℤ) → IsInt64 (int64 a)
unfolding int64
int64-IsInt64 (pos n) = ground arith
int64-IsInt64 (negsuc n) = ground arith

pub int32_of_IsInt32 : (a : ℤ) → IsInt32 a → int32 a ≡ a
unfolding int32
int32_of_IsInt32 (pos n) h = ground arith
int32_of_IsInt32 (negsuc n) h = ground arith

pub int32-IsInt32 : (a : ℤ) → IsInt32 (int32 a)
unfolding int32
int32-IsInt32 (pos n) = ground arith
int32-IsInt32 (negsuc n) = ground arith

pub +ℤ_parts :
    (a b : ℤ)
    → pos_part (a +ℤ b) + neg_part a + neg_part b ≡ neg_part (a +ℤ b) + pos_part a + pos_part b
unfolding ◌+ℤ◌
+ℤ_parts a b = ground arith

pub -ℤ_parts :
    (a b : ℤ)
    → pos_part (a -ℤ b) + neg_part a + pos_part b ≡ neg_part (a -ℤ b) + pos_part a + neg_part b
unfolding ◌-ℤ◌
-ℤ_parts a b = ground arith

pub eq_of_parts : (a b : ℤ) → pos_part a + neg_part b ≡ pos_part b + neg_part a → a ≡ b
eq_of_parts a b h = ground arith

pub le→leb_ℤ : (a b : ℤ) → a ≤ℤ b → leb_ℤ a b ≡ true
le→leb_ℤ a b h = ground arith

pub lt→leb_ℤ_false : (a b : ℤ) → b <ℤ a → leb_ℤ a b ≡ false
lt→leb_ℤ_false a b h = ground arith
