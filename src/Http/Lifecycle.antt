-- ===== src/Http/Lifecycle.antt =====
-- network/http_net/server.go: which port the server listens on, and the end of a goroutine of `serve`.
use yaice.Base.{
  ℕ, suc, ◌-◌, ◌≤◌, ◌<◌, ◌≡◌, refl, Bool, true, false, List, [], ◌∷◌, ◌++◌, Option, none, some,
  arith, inl, inr,
}
use yaice.Base.Tests.{ltb}
use yaice.Base.Int.{pos, negsuc}
use yaice.Http.{Route, HttpServer, setup_routes, after_scan, listen, close, health, serve_ends}
use yaice.Tcp.Server.{listen_scan, IsFirst, listen_scan-IsFirst}
use yaice.Utils.Tool.{Text, returns, panics, Run-cases}

module _ {H : Type 0} (accepts : List Text → Text → Bool) where
  -- An idle server whose routes are taken listens on the first free port of the range, both ends
  -- included, and runs; where the range has ports and none is free, it answers -1 and stays idle.
  pub listen-IsFirst_inclusive :
      (free : ℕ → Bool) (start_port end_port : ℕ) (s : HttpServer H) (mux : List (Text × Route H))
      → s.is_running ≡ false
      → setup_routes accepts s ≡ returns mux
      → start_port ≤ end_port
      → (o : Option ℕ) × IsFirst free start_port (suc end_port) o
        × (listen accepts free start_port end_port s ≡ elim o [
          | none ↦ returns (record s { mux = mux }, negsuc 0)
          | some port ↦ returns (
            record s {
              mux = mux;
              is_running = true;
              listen_port = pos port;
              listening = s.listening ++ (some port ∷ []);
            },
            pos port,
          )
        ])
  unfolding listen after_scan
  listen-IsFirst_inclusive free start_port end_port s mux idle set le = (
    listen_scan free start_port (suc end_port - start_port),
    listen_scan-IsFirst free (suc end_port - start_port) start_port (suc end_port) (omega arith),
    ground arith,
  )

  -- Where the first port is above the last one, `Listen` of an idle server reports success with no
  -- listener: it answers the port that was there before, the server counts as running, and the end of
  -- its `serve` panics.
  pub listen-empty_range :
      (free : ℕ → Bool) (start_port end_port : ℕ) (s : HttpServer H) (mux : List (Text × Route H))
      → s.is_running ≡ false
      → s.listening ≡ []
      → setup_routes accepts s ≡ returns mux
      → end_port < start_port
      → (t : HttpServer H) × (listen accepts free start_port end_port s
          ≡ returns (t, s.listen_port))
        × (health t ≡ true)
        × (serve_ends t ≡ panics)
  unfolding listen after_scan health serve_ends listen_scan
  listen-empty_range free start_port end_port s mux idle alone set lt = (
    record s { mux = mux; is_running = true; listening = s.listening ++ (none ∷ []) },
    empty_lem,
    refl,
    rw alone refl,
  )
    where
      empty_lem :
          listen accepts free start_port end_port s
          ≡ returns (
            record s { mux = mux; is_running = true; listening = s.listening ++ (none ∷ []) },
            s.listen_port,
          )
      empty_lem =
          let z : suc end_port - start_port ≡ 0 = omega arith in
          let tried : ltb start_port (suc end_port) ≡ false = ground arith in
          rw (idle, set, tried, z) refl

  -- A server that listens again before the earlier `serve` has come to its end is marked as stopped by
  -- that end: the new listener stays, and `Close` does nothing.
  pub close-serve_ends :
      (free : ℕ → Bool) (start_port end_port old port : ℕ) (shutdown_works close_works : Bool)
      (s t : HttpServer H)
      → s.is_running ≡ false
      → s.listening ≡ some old ∷ []
      → listen_scan free start_port (suc end_port - start_port) ≡ some port
      → listen accepts free start_port end_port s ≡ returns (t, pos port)
      → (u : HttpServer H) × (serve_ends t ≡ returns u)
        × (u.listening ≡ some port ∷ [])
        × (close shutdown_works close_works u ≡ (u, none))
  unfolding listen after_scan close serve_ends
  close-serve_ends free start_port end_port old port a b s t idle before scanned e =
      (record t { is_running = false; listening = some port ∷ [] }, ends, refl, refl)
    where
      added : t.listening ≡ some old ∷ some port ∷ []
      added = elim (Run-cases (setup_routes accepts s)) [
        | inl (mux, set) ↦ ground arith
        | inr (inl set) ↦ absurd (ground arith)
        | inr (inr set) ↦ absurd (ground arith)
      ]

      ends : serve_ends t ≡ returns (record t { is_running = false; listening = some port ∷ [] })
      ends = rw added refl
