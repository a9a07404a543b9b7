-- ===== src/Utils/Gid.antt =====
-- utils/tool.go: GetGid, which reads the number of a goroutine off the text that the runtime prints for
-- it. The runtime prints ASCII, of whose characters six are spaces.
pub mod Printed
use mathlib.Core.Path.{subst}
use yaice.Base.{
  ℕ, zero, suc, ◌+◌, ◌-◌, ◌*◌, ◌/◌, ◌%◌, ◌^◌, ◌≤◌, ◌<◌, ◌≡◌, refl, sym, ap, ◌∙◌, inl, inr, Bool,
  true, false, ◌&&◌, ◌||◌, List, [], ◌∷◌, ◌++◌, Option, none, some, arith,
}
use yaice.Base.Tests.{ltb, leb, ◌==◌, if◌then◌else◌, Bool-cases}
use yaice.Base.Lists.{length, take, All, length-append, List-cases}
use native.Mathlib.Nat.{pow-suc}
use yaice.Base.Int.{ℤ, pos, negsuc}
use yaice.Utils.Tool.{Text, Run, returns, panics}

-- "goroutine ", with the space.
abbrev pub goroutine_prefix : Text
goroutine_prefix = 103 ∷ 111 ∷ 114 ∷ 111 ∷ 117 ∷ 116 ∷ 105 ∷ 110 ∷ 101 ∷ 32 ∷ []

-- What stands behind a prefix, if the text begins with it.
pub strip : Text → Text → Option Text
strip [] s = some s
strip (p ∷ ps) [] = none
strip (p ∷ ps) (c ∷ s) = let rest = strip ps s in if p == c then rest else none

-- `strings.TrimPrefix`
unfoldable pub trim_prefix : Text → Text → Text
unfolding strip
trim_prefix prefix s = elim (strip prefix s) [ none ↦ s | some rest ↦ rest ]

abbrev pub is_space : ℕ → Bool
is_space c = (leb 9 c && leb c 13) || c == 32

pub skip_spaces : Text → Text
skip_spaces [] = []
skip_spaces (c ∷ s) = let rest = skip_spaces s in if is_space c then rest else c ∷ s

pub up_to_space : Text → Text
up_to_space [] = []
up_to_space (c ∷ s) = let rest = up_to_space s in if is_space c then [] else c ∷ rest

-- `strings.Fields(s)[0]`, whose index is out of range where there is no field.
unfoldable pub first_field : Text → Option Text
unfolding skip_spaces up_to_space
first_field s = elim (skip_spaces s) [ [] ↦ none | c ∷ rest ↦ some (up_to_space (c ∷ rest)) ]

pub read_digits : ℕ → Text → Option ℕ
read_digits n [] = some n
read_digits n (c ∷ s) =
    let rest = read_digits (n * 10 + (c - 48)) s in if leb 48 c && leb c 57 then rest else none

pub unsigned : Text → Option ℕ
unfolding read_digits
unsigned [] = none
unsigned (c ∷ s) = read_digits 0 (c ∷ s)

pub in_int64 : Bool → Option ℕ → Option ℤ
in_int64 negative none = none
in_int64 false (some n) = if ltb n (2 ^ 63) then some (pos n) else none
in_int64 true (some zero) = some (pos 0)
in_int64 true (some (suc n)) = if ltb n (2 ^ 63) then some (negsuc n) else none

-- `strconv.Atoi` on a 64-bit machine; `none` is its error.
unfoldable pub atoi : Text → Option ℤ
unfolding unsigned in_int64
atoi [] = none
atoi (c ∷ s) =
    if c == b'-'
    then in_int64 true (unsigned s)
    else if c == b'+'
    then in_int64 false (unsigned s)
    else in_int64 false (unsigned (c ∷ s))

-- `GetGid`, with the text that `runtime.Stack` cuts at the 64 bytes of its buffer.
unfoldable pub get_gid : Text → Run ℤ
unfolding trim_prefix first_field atoi
get_gid stack = elim (first_field (trim_prefix goroutine_prefix (take 64 stack))) [
  | none ↦ panics
  | some id_field ↦ elim (atoi id_field) [ none ↦ panics | some id ↦ returns id ]
]
