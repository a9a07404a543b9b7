-- ===== src/Tests/Http.antt =====
-- The theorems on network/http_net/server.go at concrete servers. A handler of the application is a number.
use mathlib.Core.List.{lookup, Mem, not-mem-nil, mem_of_ne_of_mem}
use yaice.Base.{
  ℕ, ◌≡◌, refl, Bool, true, false, List, [], ◌∷◌, ◌++◌, Option, some, arith, ℕ_discrete, inl, inr,
}
use yaice.Base.Tests.{if◌then◌else◌, Bool-cases}
use yaice.Base.Int.{pos}
use yaice.Config.{HttpConfig}
use yaice.Http.{
  Route, custom, slash, health_path, health_route, default_route, HttpServer, setup_routes,
  handle_all, handle_func, first_routes,
}
use yaice.Http.Middleware.{
  write_header, Handler, Request, Exchange, options, new_wrapper, apply_middleware, cors_headers,
  origin_for, same_text,
}
use yaice.Http.Routes.{setup_routes-lookup}
use yaice.Http.Cors.{apply_middleware-options}
use yaice.Utils.Tool.{Text, text_discrete}

-- A multiplexer that takes every pattern but those it has.
abbrev accepts : List Text → Text → Bool
accepts [] p = true
accepts (q ∷ patterns) p = if same_text p q then false else accepts patterns p

elsewhere :
    (p q : Text) (patterns : List Text)
    → same_text p q ≡ false
    → Mem p (q ∷ patterns)
    → Mem p patterns
elsewhere p q patterns apart at = mem_of_ne_of_mem (λ e. differs p q e apart) at
  where
    differs : (p q : Text) → p ≡ q → same_text p q ≡ false → ⊥
    differs p q e apart = ground arith

accepts_known : (patterns : List Text) (p : Text) → Mem p patterns → accepts patterns p ≡ false
accepts_known [] p at = absurd (not-mem-nil at)
accepts_known (q ∷ patterns) p at = elim (Bool-cases (same_text p q)) [
  | inl same ↦ rw same refl
  | inr apart ↦ rw apart (accepts_known patterns p (elsewhere p q patterns apart at))
]

abbrev config : HttpConfig
config = record {
  enabled = true;
  host = [];
  start_port = pos 80;
  end_port = pos 82;
  port = pos 0;
  read_timeout = pos 0;
  write_timeout = pos 0;
  idle_timeout = pos 0;
  max_header_bytes = pos 0;
  enable_tls = false;
  cert_file = [];
  key_file = [];
  enable_cors = true;
  cors_origins = (97 ∷ []) ∷ [];
  enable_metrics = false;
  metrics_path = [];
  enable_pprof = false;
  pprof_prefix = [];
}

abbrev serving : List (Text × ℕ) → List (Option ℕ) → HttpServer ℕ
serving routes listening = record {
  config = config;
  is_running = false;
  listen_port = pos 0;
  active_conns = pos 0;
  cancelled = false;
  routes = routes;
  mux = [];
  listening = listening;
}

abbrev page : Text
page = 47 ∷ 97 ∷ []

abbrev page_mux : List (Text × Route ℕ)
page_mux = (health_path, health_route) ∷ (slash, default_route) ∷ (page, custom 5) ∷ []

setup_routes-lookup_example : lookup text_discrete page page_mux ≡ some (custom 5)
unfolding setup_routes first_routes handle_all handle_func text_discrete lookup ℕ_discrete
setup_routes-lookup_example =
    setup_routes-lookup accepts accepts_known (serving ((page, 5) ∷ []) []) page_mux page 5 refl
      refl

abbrev answering : Handler
answering r x = record x { headers = [] }

abbrev preflight : Request
preflight = record { method = options; origin = 97 ∷ [] }

abbrev exchange : Exchange
exchange = record { active_conns = pos 3; headers = []; writer = new_wrapper }

apply_middleware-options_example :
    ((apply_middleware config answering preflight exchange).1 ≡ pos 204)
    × ((apply_middleware config answering preflight exchange).0.writer.passed_on
        ≡ write_header (pos 204) ∷ [])
    × ((apply_middleware config answering preflight exchange).0.headers
        ≡ [] ++ cors_headers (origin_for config.cors_origins preflight))
    × (apply_middleware config answering preflight exchange
        ≡ apply_middleware config (λ r x. x) preflight exchange)
apply_middleware-options_example =
    apply_middleware-options config answering (λ r x. x) preflight exchange refl refl
