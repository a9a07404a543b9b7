-- ===== src/Utils/Proto.antt =====
-- utils/tool.go: ProtoNumber, the protocol number of a message by its full name.
use yaice.Base.{◌≡◌, sym, ap, ◌∙◌, List, ◌∷◌, ◌++◌}
use yaice.Base.Int.{ℤ}
use yaice.Utils.Tool.{
  Text, Run, returns, panics, after_return, protocal_number, get_proto_name, get_proto_name-append,
  HasNoDot,
}

-- The state is `protoNumberCache`.
unfoldable pub proto_number : Text → List (Text × ℤ) → Run (List (Text × ℤ) × ℤ)
proto_number full_name cache =
    after_return (λ name. returns (protocal_number name cache)) (get_proto_name full_name)

numbered :
    (full_name : Text) (named : Run Text) (cache : List (Text × ℤ))
    → get_proto_name full_name ≡ named
    → proto_number full_name cache
      ≡ after_return (λ name. returns (protocal_number name cache)) named
unfolding proto_number
numbered full_name named cache e =
    ap (after_return (λ name. returns (protocal_number name cache))) e

-- The number of a message in a package with a plain name is that of its own name, so two messages with one
-- name in two packages have the same number; a message in no package makes the call panic.
pub proto_number-append :
    (package_name other name : Text) (cache : List (Text × ℤ))
    → HasNoDot package_name
    → HasNoDot other
    → HasNoDot name
    → (proto_number (package_name ++ (b'.' ∷ name)) cache ≡ returns (protocal_number name cache))
      × (proto_number (package_name ++ (b'.' ∷ name)) cache
          ≡ proto_number (other ++ (b'.' ∷ name)) cache)
      × (proto_number name cache ≡ panics)
proto_number-append package_name other name cache h k n =
    let (named, none_named) = get_proto_name-append package_name name h n in
    let (named_too, _) = get_proto_name-append other name k n in
    (
      numbered _ _ cache named,
      numbered _ _ cache named ∙ sym (numbered _ _ cache named_too),
      numbered _ _ cache none_named,
    )
