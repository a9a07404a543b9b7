-- ===== src/Http/Routes.antt =====
-- network/http_net/server.go: which handlers the multiplexer has after `Listen` set it up.
use mathlib.Core.List.{lookup, Mem}
use yaice.Base.{
  ℕ, ◌≡◌, ◌≢◌, refl, sym, ap, ◌∙◌, Bool, true, false, List, [], ◌∷◌, ◌++◌, none, some, arith, inl,
  inr,
}
use yaice.Base.Tests.{Bool-cases, Option-cases}
use yaice.Base.Assoc.{keys, mem_of_some}
use yaice.Http.{
  slash, Route, custom_routes, default_route, custom, HttpServer, handle_func, handle_all,
  first_routes, setup_routes, listen,
}
use yaice.Utils.Tool.{Text, text_discrete, Run, returns, panics, blocks, Run-cases, after_return}

lookup-append {ℓ} :
    {V : Type ℓ} (k : Text) (m l : List (Text × V)) (v : V)
    → lookup text_discrete k m ≡ some v
    → lookup text_discrete k (m ++ l) ≡ some v
unfolding lookup
lookup-append k [] l v e = absurd (ground arith)
lookup-append k (x ∷ m) l v e = ground (arith, lookup-append k m l v)

lookup-append_none :
    {V : Type 0} (k : Text) (m l : List (Text × V))
    → lookup text_discrete k m ≡ none
    → lookup text_discrete k (m ++ l) ≡ lookup text_discrete k l
unfolding lookup
lookup-append_none k [] l e = refl
lookup-append_none k (x ∷ m) l e = ground (arith, lookup-append_none k m l)

lookup_here {ℓ} : {V : Type ℓ} (k : Text) (v : V) → lookup text_discrete k ((k, v) ∷ []) ≡ some v
unfolding lookup
lookup_here k v = ground arith

lookup-custom :
    {H : Type 0} (k : Text) (routes : List (Text × H)) (h : H)
    → lookup text_discrete k routes ≡ some h
    → lookup text_discrete k (custom_routes routes) ≡ some (custom h)
unfolding lookup
lookup-custom k [] h e = absurd (ground arith)
lookup-custom k (r ∷ routes) h e = ground (arith, lookup-custom k routes h)

module _ {H : Type 0} (accepts : List Text → Text → Bool)
    (known : (patterns : List Text) (p : Text) → Mem p patterns → accepts patterns p ≡ false) where
  handle_all-append :
      (first later mux : List (Text × Route H))
      → handle_all accepts (first ++ later) mux
        ≡ after_return (handle_all accepts later) (handle_all accepts first mux)
  unfolding handle_all
  handle_all-append [] later mux = refl
  handle_all-append (r ∷ first) later mux =
      through (handle_func accepts r.0 r.1 mux) (handle_all-append first later)
    where
      through :
          (x : Run (List (Text × Route H)))
          → ((m : List (Text × Route H))
              → handle_all accepts (first ++ later) m
                ≡ after_return (handle_all accepts later) (handle_all accepts first m))
          → after_return (handle_all accepts (first ++ later)) x
            ≡ after_return (handle_all accepts later) (after_return (handle_all accepts first) x)
      through (returns m) each = each m
      through panics each = refl
      through blocks each = refl

  handle_all-keeps :
      (routes mux mux' : List (Text × Route H)) (k : Text) (v : Route H)
      → handle_all accepts routes mux ≡ returns mux'
      → lookup text_discrete k mux ≡ some v
      → lookup text_discrete k mux' ≡ some v
  unfolding handle_all handle_func
  handle_all-keeps [] mux mux' k v e there = ground arith
  handle_all-keeps (r ∷ routes) mux mux' k v e there = elim (Bool-cases (accepts (keys mux) r.0)) [
    | inl ok ↦
        handle_all-keeps routes (mux ++ ((r.0, r.1) ∷ [])) mux' k v (ground arith)
          (lookup-append k mux _ v there)
    | inr bad ↦ absurd (ground arith)
  ]

  -- A pattern that was taken was not there.
  fresh :
      (mux : List (Text × Route H)) (p : Text)
      → accepts (keys mux) p ≡ true
      → lookup text_discrete p mux ≡ none
  fresh mux p ok = elim (Option-cases (lookup text_discrete p mux)) [
    | inl e ↦ e
    | inr (v, e) ↦
        let no = known (keys mux) p (mem_of_some text_discrete p mux v e) in absurd (ground arith)
  ]

  handle_all-lookup :
      (routes mux mux' : List (Text × Route H)) (k : Text) (v : Route H)
      → handle_all accepts routes mux ≡ returns mux'
      → lookup text_discrete k routes ≡ some v
      → lookup text_discrete k mux' ≡ some v
  unfolding handle_all handle_func lookup
  handle_all-lookup [] mux mux' k v e there = absurd (ground arith)
  handle_all-lookup (r ∷ routes) mux mux' k v e there = elim (Bool-cases (accepts (keys mux) r.0)) [
    | inr bad ↦ absurd (ground arith)
    | inl ok ↦ elim (text_discrete k r.0) [
      | no n ↦
          handle_all-lookup routes (mux ++ ((r.0, r.1) ∷ [])) mux' k v (ground arith) (ground arith)
      | yes same ↦ handle_all-keeps routes (mux ++ ((r.0, r.1) ∷ [])) mux' k v (ground arith) (
          lookup-append_none k mux ((r.0, r.1) ∷ [])
            (ap (λ p. lookup text_discrete p mux) same ∙ fresh mux r.0 ok)
          ∙ ground arith)
    ]
  ]

  handle_all-no_blocks :
      (routes mux : List (Text × Route H)) → handle_all accepts routes mux ≢ blocks
  unfolding handle_all handle_func
  handle_all-no_blocks [] mux e = ground arith
  handle_all-no_blocks (r ∷ routes) mux e = elim (Bool-cases (accepts (keys mux) r.0)) [
    | inl ok ↦ handle_all-no_blocks routes (mux ++ ((r.0, r.1) ∷ [])) (ground arith)
    | inr bad ↦ ground arith
  ]

  returned :
      (first later mux : List (Text × Route H))
      → after_return (handle_all accepts later) (handle_all accepts first []) ≡ returns mux
      → (m : List (Text × Route H)) × (handle_all accepts later m ≡ returns mux)
  returned first later mux e = elim (Run-cases (handle_all accepts first [])) [
    | inl (m, e1) ↦ (m, sym (ap (after_return (handle_all accepts later)) e1) ∙ e)
    | inr (inl e1) ↦ absurd (stuck (sym (ap (after_return (handle_all accepts later)) e1) ∙ e))
    | inr (inr e1) ↦ absurd (stuck2 (sym (ap (after_return (handle_all accepts later)) e1) ∙ e))
  ]
    where
      stuck : {m : List (Text × Route H)} → panics ≢ returns m
      stuck e = ground arith

      stuck2 : {m : List (Text × Route H)} → blocks ≢ returns m
      stuck2 e = ground arith

  default_taken :
      (m customs mux : List (Text × Route H))
      → handle_all accepts ((slash, default_route) ∷ customs) m ≡ returns mux
      → (accepts (keys m) slash ≡ true)
        × (handle_all accepts customs (m ++ ((slash, default_route) ∷ [])) ≡ returns mux)
  unfolding handle_all handle_func
  default_taken m customs mux e = elim (Bool-cases (accepts (keys m) slash)) [
    | inl ok ↦ (ok, ground arith)
    | inr bad ↦ absurd (ground arith)
  ]

  -- The set-up is that of the server's own patterns and then that of the registered routes.
  setup_routes-parts :
      (s : HttpServer H) (mux : List (Text × Route H))
      → setup_routes accepts s ≡ returns mux
      → (own : List (Text × Route H)) × (lookup text_discrete slash own ≡ some default_route)
        × (handle_all accepts (custom_routes s.routes) own ≡ returns mux)
  unfolding setup_routes
  setup_routes-parts s mux e =
      let later = (slash, default_route) ∷ custom_routes s.routes in
      let split = handle_all-append (first_routes s) later [] in
      let (own, taken) = returned (first_routes s) later mux (sym split ∙ e) in
      let (ok, e2) = default_taken own (custom_routes s.routes) mux taken in
      (
        own ++ ((slash, default_route) ∷ []),
        lookup-append_none slash own ((slash, default_route) ∷ []) (fresh own slash ok)
            ∙ lookup_here slash default_route,
        e2,
      )

  -- After a set-up that does not panic, every registered path has the handler that was registered for it.
  pub setup_routes-lookup :
      (s : HttpServer H) (mux : List (Text × Route H)) (path : Text) (handler : H)
      → setup_routes accepts s ≡ returns mux
      → lookup text_discrete path s.routes ≡ some handler
      → lookup text_discrete path mux ≡ some (custom handler)
  setup_routes-lookup s mux path handler set there =
      let (own, _, e) = setup_routes-parts s mux set in
      handle_all-lookup (custom_routes s.routes) own mux path (custom handler) e
        (lookup-custom path s.routes handler there)

  -- A handler that is registered for the path of a slash, which the server registers itself, makes `Listen`
  -- of an idle server panic.
  pub listen-slash :
      (free : ℕ → Bool) (start_port end_port : ℕ) (s : HttpServer H) (handler : H)
      → s.is_running ≡ false
      → lookup text_discrete slash s.routes ≡ some handler
      → listen accepts free start_port end_port s ≡ panics
  unfolding listen setup_routes
  listen-slash free start_port end_port s handler idle there =
      elim (Run-cases (setup_routes accepts s)) [
        | inl (mux, set) ↦ absurd (clash mux set)
        | inr (inl stop) ↦ rw (idle, stop) refl
        | inr (inr wait) ↦ absurd (
            handle_all-no_blocks
              (first_routes s ++ ((slash, default_route) ∷ custom_routes s.routes)) [] wait)
      ]
    where
      clash : (mux : List (Text × Route H)) → setup_routes accepts s ≢ returns mux
      clash mux set =
          let (own, at_slash, e) = setup_routes-parts s mux set in
          let kept = handle_all-keeps _ own mux slash default_route e at_slash in
          let lost = setup_routes-lookup s mux slash handler set there in ground arith
