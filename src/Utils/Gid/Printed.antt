-- ===== src/Utils/Gid/Printed.antt =====
-- utils/tool.go: the number that GetGid reads is the one that was printed.
use mathlib.Core.Path.{subst}
use yaice.Base.{
  ℕ, zero, suc, ◌+◌, ◌-◌, ◌*◌, ◌/◌, ◌%◌, ◌^◌, ◌≤◌, ◌<◌, ◌≡◌, refl, sym, ap, ◌∙◌, inl, inr, [], ◌∷◌,
  ◌++◌, Option, none, some, arith,
}
use yaice.Base.Tests.{ltb, if◌then◌else◌, Bool-cases}
use yaice.Base.Lists.{length, take, All, length-append, List-cases}
use native.Mathlib.Nat.{pow-suc}
use yaice.Base.Int.{ℤ, pos}
use yaice.Utils.Tool.{Text, Run, returns, panics}
use yaice.Utils.Gid.{
  goroutine_prefix, strip, trim_prefix, up_to_space, first_field, read_digits, unsigned, in_int64,
  atoi, get_gid,
}

-- A number below 10^k in the decimal system, with no zeros in front.
pub decimal : ℕ → ℕ → Text
decimal zero n = []
decimal (suc k) n =
    let rest = decimal k (n / 10) in
    if ltb n 10 then (48 + n) ∷ [] else rest ++ ((48 + n % 10) ∷ [])

abbrev IsDigit : ℕ → Type 0
IsDigit c = (48 ≤ c) × (c ≤ 57)

All-last : (s : Text) (c : ℕ) → All IsDigit s → IsDigit c → All IsDigit (s ++ (c ∷ []))
All-last [] c h last = ground arith
All-last (d ∷ s) c h last = ground (arith, All-last s c h.1 last)

decimal-IsDigit : (k n : ℕ) → All IsDigit (decimal k n)
unfolding decimal
decimal-IsDigit zero n = ground arith
decimal-IsDigit (suc k) n = elim (Bool-cases (ltb n 10)) [
  | inl small ↦ rw small (ground arith)
  | inr large ↦
      rw large
        (All-last (decimal k (n / 10)) (48 + n % 10) (decimal-IsDigit k (n / 10)) (omega arith))
]

read_digits-last :
    (a d : ℕ) (s : Text)
    → d < 10
    → read_digits a (s ++ ((48 + d) ∷ []))
      ≡ elim (read_digits a s) [ none ↦ none | some n ↦ some (n * 10 + d) ]
unfolding read_digits
read_digits-last a d [] h = ground arith
read_digits-last a d (c ∷ s) h = ground (arith, read_digits-last (a * 10 + (c - 48)) d s h)

read_digits-decimal : (k n : ℕ) → n < 10 ^ suc k → read_digits 0 (decimal (suc k) n) ≡ some n
unfolding decimal read_digits
read_digits-decimal zero n h = ground arith
read_digits-decimal (suc k) n h = elim (Bool-cases (ltb n 10)) [
  | inl small ↦ rw small (ground arith)
  | inr large ↦
      let rest = decimal (suc k) (n / 10) in
      let ih = read_digits-decimal k (n / 10) (omega (arith, h, pow-suc 10 (suc k))) in
      rw large (
        read_digits-last 0 (n % 10) rest (omega arith)
        ∙ ap (λ (o : Option ℕ). elim o [ none ↦ none | some m ↦ some (m * 10 + n % 10) ]) ih
        ∙ ap some (omega arith))
]

length-decimal-le : (k n : ℕ) → length (decimal k n) ≤ k
unfolding decimal
length-decimal-le zero n = omega arith
length-decimal-le (suc k) n =
    let rest = decimal k (n / 10) in
    ground (arith, length-append rest ((48 + n % 10) ∷ []), length-decimal-le k (n / 10))

decimal-cons : (k n : ℕ) → (c : ℕ) × (s : Text) × (decimal (suc k) n ≡ c ∷ s)
unfolding decimal
decimal-cons k n = elim (Bool-cases (ltb n 10)) [
  | inl small ↦ (48 + n, [], rw small refl)
  | inr large ↦ elim (List-cases (decimal k (n / 10))) [
    | inl e ↦ (48 + n % 10, [], rw (large, e) refl)
    | inr (c, s, e) ↦ (c, s ++ ((48 + n % 10) ∷ []), rw (large, e) refl)
  ]
]

take-append : (n k : ℕ) (xs ys : Text) → n ≡ length xs + k → take n (xs ++ ys) ≡ xs ++ take k ys
take-append n k [] ys e = ap (λ (m : ℕ). take m ys) (omega arith)
take-append zero k (x ∷ xs) ys e = absurd (omega arith)
take-append (suc n) k (x ∷ xs) ys e = ap (◌∷◌ x) (take-append n k xs ys (omega arith))

strip-append : (prefix s : Text) → strip prefix (prefix ++ s) ≡ some s
unfolding strip
strip-append [] s = refl
strip-append (p ∷ prefix) s = ground (arith, strip-append prefix s)

up_to_space-append : (s rest : Text) → All IsDigit s → up_to_space (s ++ (32 ∷ rest)) ≡ s
unfolding up_to_space
up_to_space-append [] rest h = refl
up_to_space-append (c ∷ s) rest h = ground (arith, up_to_space-append s rest h.1)

first_field-append :
    (c : ℕ) (s rest : Text)
    → All IsDigit (c ∷ s)
    → first_field ((c ∷ s) ++ (32 ∷ rest)) ≡ some (c ∷ s)
unfolding first_field
first_field-append c s rest h =
    let field = up_to_space-append (c ∷ s) rest h in ground (arith, field)

atoi-unsigned :
    (c n : ℕ) (s : Text)
    → IsDigit c
    → n < 2 ^ 63
    → read_digits 0 (c ∷ s) ≡ some n
    → atoi (c ∷ s) ≡ some (pos n)
unfolding atoi unsigned in_int64
atoi-unsigned c n s digit small read = ground arith

trim_prefix-append : (prefix s : Text) → trim_prefix prefix (prefix ++ s) ≡ s
unfolding trim_prefix
trim_prefix-append prefix s =
    ap (λ (o : Option Text). elim o [ none ↦ prefix ++ s | some rest ↦ rest ])
      (strip-append prefix s)

get_gid-returns :
    (stack id_field : Text) (id : ℤ)
    → first_field (trim_prefix goroutine_prefix (take 64 stack)) ≡ some id_field
    → atoi id_field ≡ some id
    → get_gid stack ≡ returns id
unfolding get_gid
get_gid-returns stack id_field id found read =
    ap
      (λ (o : Option Text).
        let r : Run ℤ = elim o [
          | none ↦ panics
          | some f ↦ elim (atoi f) [ none ↦ panics | some i ↦ returns i ]
        ] in
        r)
      found
    ∙ ap (λ (o : Option ℤ). let r : Run ℤ = elim o [ none ↦ panics | some i ↦ returns i ] in r) read

-- Where the runtime prints the number of the goroutine, below 2^63, in the decimal system behind its
-- first word and before a space, the call returns the number, whatever follows.
pub get_gid-decimal :
    (n : ℕ) (rest : Text)
    → n < 2 ^ 63
    → get_gid (goroutine_prefix ++ (decimal 19 n ++ (32 ∷ rest))) ≡ returns (pos n)
get_gid-decimal n rest small =
    let (c, s, e) = decimal-cons 18 n in
    let short = length-decimal-le 19 n in
    let digits = subst (All IsDigit) e (decimal-IsDigit 19 n) in
    let read = ap (read_digits 0) (sym e) ∙ read_digits-decimal 18 n (omega arith) in
    let cut =
      take-append 64 54 goroutine_prefix (decimal 19 n ++ (32 ∷ rest)) refl
      ∙ ap (λ (t : Text). goroutine_prefix ++ t)
          (take-append 54 (suc (53 - length (decimal 19 n))) (decimal 19 n) (32 ∷ rest)
              (omega arith)
            ∙ ap (λ (t : Text). t ++ (32 ∷ take (53 - length (decimal 19 n)) rest)) e) in
    get_gid-returns _ (c ∷ s) (pos n)
      (ap (λ (t : Text). first_field (trim_prefix goroutine_prefix t)) cut
        ∙ ap first_field (trim_prefix-append goroutine_prefix _)
        ∙ first_field-append c s (take (53 - length (decimal 19 n)) rest) digits)
      (atoi-unsigned c n s digits.0 small read)
