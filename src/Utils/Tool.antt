-- ===== src/Utils/Tool.antt =====
-- utils/tool.go: protocol numbers with their cache, protocol names, merged maps, and the readers of
-- files that share a mutex. A text is its list of code points, which is what `range` goes through.
use mathlib.Core.List.{lookup}
use native.Mathlib.Nat.{pow-suc}
use yaice.Base.{
  ℕ, suc, ◌+◌, ◌*◌, ◌/◌, ◌%◌, ◌^◌, ◌<◌, ◌≡◌, ◌≢◌, refl, sym, ap, ◌∙◌, ◌⊎◌, inl, inr, List, [], ◌∷◌,
  ◌++◌, none, some, arith, ℕ_discrete,
}
use yaice.Base.Tests.{◌==◌, if◌then◌else◌, Bool-cases, Option-cases, eq-of_some}
use yaice.Base.Lists.{length, All}
use yaice.Base.Int.{ℤ, signed32}
use yaice.Base.Assoc.{insert, lookup-insert_self, lookup-insert}

-- A call that returns, or that waits for ever for a mutex that its own goroutine or a dead one holds.
pub data Run {ℓ} (A : Type ℓ) : Type ℓ where
  returns : A → Run A
  panics : Run A
  blocks : Run A

abbrev pub after_return {ℓ κ} : {A : Type ℓ} {B : Type κ} → (A → Run B) → Run A → Run B
after_return next (returns a) = next a
after_return next panics = panics
after_return next blocks = blocks

pub Run-cases {ℓ} :
    {A : Type ℓ} (r : Run A) → ((a : A) × (r ≡ returns a)) ⊎ (r ≡ panics) ⊎ (r ≡ blocks)
Run-cases (returns a) = inl (a, refl)
Run-cases panics = inr (inl refl)
Run-cases blocks = inr (inr refl)

-- The loop of `ProtocalNumber`. An `int32` is kept as its bit pattern, on which `31*h + char` wraps.
pub hash_step : ℕ → ℕ → ℕ
hash_step h char = (31 * h + char) % 2 ^ 32

pub hash_loop : ℕ → List ℕ → ℕ
hash_loop h [] = h
hash_loop h (char ∷ rest) = hash_loop (hash_step h char) rest

abbrev pub Text : Type 0
Text = List ℕ

unfoldable pub text_discrete : Discrete Text
text_discrete = hlevel ℕ_discrete

-- The state is `protoNumberCache`.
unfoldable pub protocal_number : Text → List (Text × ℤ) → List (Text × ℤ) × ℤ
protocal_number replacement cache = elim (lookup text_discrete replacement cache) [
  | some val ↦ (cache, val)
  | none ↦
      let h = signed32 (hash_loop 0 replacement) in (insert text_discrete replacement h cache, h)
]

-- `strings.Split` at dots, and the second part: the index is out of range where there is no dot.
pub split_dots : Text → List Text
split_dots [] = [] ∷ []
split_dots (c ∷ s) = elim (split_dots s) [
  | [] ↦ []
  | part ∷ parts ↦ if c == b'.' then [] ∷ part ∷ parts else (c ∷ part) ∷ parts
]

pub get_proto_name : Text → Run Text
get_proto_name full_name = elim (split_dots full_name) [
  | [] ↦ returns []
  | first ∷ rest ↦ elim rest [ [] ↦ panics | second ∷ _ ↦ returns second ]
]

module _ {ℓ} {K V : Type ℓ} (dec : Discrete K) where
  -- `for k, v := range m { data[k] = v }`
  pub copy_into : List (K × V) → List (K × V) → List (K × V)
  copy_into [] target = target
  copy_into ((k, v) ∷ m) target = insert dec k v (copy_into m target)

  pub merge_map_string : List (K × V) → List (K × V) → List (K × V)
  merge_map_string var_a var_b = copy_into var_b (copy_into var_a [])

  lookup-copy_into :
      (q : K) (m target : List (K × V))
      → lookup dec q (copy_into m target)
        ≡ elim (lookup dec q m) [ none ↦ lookup dec q target | some v ↦ some v ]
  unfolding copy_into lookup
  lookup-copy_into q [] target = refl
  lookup-copy_into q ((k, v) ∷ m) target =
      ground (arith, lookup-insert dec q k v (copy_into m target), lookup-copy_into q m target)

  lookup_nil : (q : K) → lookup {B = V} dec q [] ≡ none
  unfolding lookup
  lookup_nil q = refl

  -- A key of the merged map reads what the second map has for it, and else what the first map has.
  pub lookup-merge_map_string :
      (q : K) (var_a var_b : List (K × V))
      → lookup dec q (merge_map_string var_a var_b)
        ≡ elim (lookup dec q var_b) [ none ↦ lookup dec q var_a | some v ↦ some v ]
  unfolding merge_map_string
  lookup-merge_map_string q var_a var_b = ground (
    arith,
    lookup-copy_into q var_b (copy_into var_a []),
    lookup-copy_into q var_a [],
    lookup_nil q,
  )

-- The value of a text as a polynomial in 31, with no wrap-around.
pub hash_sum : Text → ℕ
hash_sum [] = 0
hash_sum (char ∷ rest) = char * 31 ^ length rest + hash_sum rest

hash_shift :
    (h char p p' s : ℕ)
    → p' ≡ p * 31
    → ((31 * h + char) % 2 ^ 32 * p + s) % 2 ^ 32 ≡ (h * p' + (char * p + s)) % 2 ^ 32
hash_shift h char p p' s e =
    let x = 31 * h + char in
    let whole : x ≡ 2 ^ 32 * (x / 2 ^ 32) + x % 2 ^ 32 = omega arith in
    omega (arith, ap (λ (t : ℕ). t * p) whole, ap (λ (t : ℕ). h * t) e)

hash_loop-hash_sum :
    (h : ℕ) (s : Text) → h < 2 ^ 32 → hash_loop h s ≡ (h * 31 ^ length s + hash_sum s) % 2 ^ 32
unfolding hash_loop hash_sum hash_step
hash_loop-hash_sum h [] b = omega arith
hash_loop-hash_sum h (char ∷ rest) b =
    hash_loop-hash_sum (hash_step h char) rest (omega arith)
    ∙ hash_shift h char (31 ^ length rest) (31 ^ suc (length rest)) (hash_sum rest)
        (pow-suc 31 (length rest))

-- A cache that holds right numbers only.
abbrev pub IsRight : List (Text × ℤ) → Type 0
IsRight cache =
    (s : Text) (val : ℤ)
    → lookup text_discrete s cache ≡ some val
    → val ≡ signed32 (hash_sum s % 2 ^ 32)

-- With a cache that holds right numbers, the protocol number of a text is its polynomial in 31 as an
-- `int32`, whether the cache has it or not, and the cache keeps holding right numbers.
pub protocal_number-hash_sum :
    (s : Text) (cache : List (Text × ℤ))
    → IsRight cache
    → ((protocal_number s cache).1 ≡ signed32 (hash_sum s % 2 ^ 32))
      × IsRight (protocal_number s cache).0
unfolding protocal_number
protocal_number-hash_sum s cache right = elim (Option-cases (lookup text_discrete s cache)) [
  | inr (val, e) ↦ rw (e, protocal_number) (right s val e, right)
  | inl e ↦ rw (e, protocal_number) (computed, kept)
]
  where
    computed : signed32 (hash_loop 0 s) ≡ signed32 (hash_sum s % 2 ^ 32)
    computed = ap (λ (w : ℕ). signed32 w) (omega (arith, hash_loop-hash_sum 0 s (omega arith)))

    kept : IsRight (insert text_discrete s (signed32 (hash_loop 0 s)) cache)
    kept t val e = elim (text_discrete t s) [
      | yes same ↦
          eq-of_some (sym (rw same at e) ∙ lookup-insert_self text_discrete s _ cache)
          ∙ computed
          ∙ ap (λ u. signed32 (hash_sum u % 2 ^ 32)) (sym same)
      | no other ↦
          right t val
            (ground (arith, lookup-insert text_discrete t s (signed32 (hash_loop 0 s)) cache))
    ]

abbrev pub HasNoDot : Text → Type 0
HasNoDot = All (λ c. c ≢ b'.')

split_dots-HasNoDot : (s : Text) → HasNoDot s → split_dots s ≡ s ∷ []
unfolding split_dots
split_dots-HasNoDot [] h = refl
split_dots-HasNoDot (c ∷ s) h = ground (arith, split_dots-HasNoDot s h.1, h.0)

split_dots-cons : (s : Text) → (part : Text) × (parts : List Text) × (split_dots s ≡ part ∷ parts)
unfolding split_dots
split_dots-cons [] = ([], [], refl)
split_dots-cons (c ∷ s) =
    let (part, parts, e) = split_dots-cons s in
    elim (Bool-cases (c == b'.')) [
      | inl dot ↦ ([], part ∷ parts, rw (e, split_dots) (rw dot refl))
      | inr other ↦ (c ∷ part, parts, rw (e, split_dots) (rw other refl))
    ]

split_dots-append : (s t : Text) → HasNoDot s → split_dots (s ++ (b'.' ∷ t)) ≡ s ∷ split_dots t
unfolding split_dots
split_dots-append [] t h = ground (arith, split_dots-cons t)
split_dots-append (c ∷ s) t h = ground (arith, split_dots-append s t h.1, h.0)

-- The name of a message in a package with a plain name is what stands behind the dot. A message in no
-- package has no dot in its name, and the call panics.
pub get_proto_name-append :
    (package_name name : Text)
    → HasNoDot package_name
    → HasNoDot name
    → (get_proto_name (package_name ++ (b'.' ∷ name)) ≡ returns name)
      × (get_proto_name name ≡ panics)
unfolding get_proto_name
get_proto_name-append package_name name h k =
    ground (arith, split_dots-append package_name name h, split_dots-HasNoDot name k)
