-- ===== src/Http.antt =====
-- network/http_net/server.go: the HTTP server. `net/http` is a parameter: which patterns a multiplexer takes,
-- of those it has, and which ports are free. `H` is the type of the application's handlers.
pub mod Middleware
pub mod Answers
pub mod Cors
pub mod Routes
pub mod Tls
pub mod Lifecycle
use mathlib.Core.List.{lookup}
use yaice.Base.{
  ℕ, zero, suc, ◌+◌, ◌-◌, ◌≡◌, refl, Bool, true, false, ◌&&◌, ◌||◌, List, [], ◌∷◌, ◌++◌, map,
  Option, none, some, arith,
}
use yaice.Base.Tests.{ltb, ◌==◌, if◌then◌else◌}
use yaice.Base.Int.{ℤ, pos, negsuc}
use yaice.Base.Assoc.{insert, keys}
use yaice.Config.{HttpConfig}
use yaice.Tcp.Server.{listen_scan}
use yaice.Utils.Tool.{Text, text_discrete, Run, returns, panics, blocks, after_return}

abbrev pub is_empty : Text → Bool
is_empty [] = true
is_empty (c ∷ s) = false

-- "/".
abbrev pub slash : Text
slash = 47 ∷ []

-- "/health".
abbrev pub health_path : Text
health_path = 47 ∷ 104 ∷ 101 ∷ 97 ∷ 108 ∷ 116 ∷ 104 ∷ []

-- "/debug/pprof".
abbrev pub default_pprof : Text
default_pprof = 47 ∷ 100 ∷ 101 ∷ 98 ∷ 117 ∷ 103 ∷ 47 ∷ 112 ∷ 112 ∷ 114 ∷ 111 ∷ 102 ∷ []

-- "/cmdline", "/profile", "/symbol" and "/trace".
abbrev pub pprof_pages : List Text
pprof_pages =
    slash
    ∷ (47 ∷ 99 ∷ 109 ∷ 100 ∷ 108 ∷ 105 ∷ 110 ∷ 101 ∷ [])
    ∷ (47 ∷ 112 ∷ 114 ∷ 111 ∷ 102 ∷ 105 ∷ 108 ∷ 101 ∷ [])
    ∷ (47 ∷ 115 ∷ 121 ∷ 109 ∷ 98 ∷ 111 ∷ 108 ∷ [])
    ∷ (47 ∷ 116 ∷ 114 ∷ 97 ∷ 99 ∷ 101 ∷ [])
    ∷ []

pub data Route (H : Type 0) : Type 0 where
  health_route default_route : Route H
  pprof_route : Text → Route H
  custom : H → Route H

-- `listening` has the listeners that goroutines of `serve` have, `none` for a nil one.
pub record HttpServer (H : Type 0) : Type 0 where
  pub config : HttpConfig
  pub is_running : Bool
  pub listen_port : ℤ
  pub active_conns : ℤ
  pub cancelled : Bool
  pub routes : List (Text × H)
  pub mux : List (Text × Route H)
  pub listening : List (Option ℕ)

-- The errors of `Close`.
pub data CloseError : Type 0 where
  shutdown_error force_close_error : CloseError

unfoldable pub starts_with_slash : Text → Bool
starts_with_slash [] = false
starts_with_slash (c ∷ s) = c == 47

module _ {H : Type 0} where
  -- `NewHTTPServer` with a configuration of the type that it expects.
  unfoldable pub new_http_server : HttpConfig → HttpServer H
  new_http_server config = record {
    config = config;
    is_running = false;
    listen_port = pos 0;
    active_conns = pos 0;
    cancelled = false;
    routes = [];
    mux = [];
    listening = [];
  }

  unfoldable pub get_active_connections : HttpServer H → ℤ
  get_active_connections s = s.active_conns

  -- Whether `Health` returns no error.
  unfoldable pub health : HttpServer H → Bool
  health s = s.is_running

  unfoldable pub set_max_conn_count : ℤ → HttpServer H → HttpServer H
  set_max_conn_count count s = s

  -- `Close`, with whether `Shutdown` and the forced `Close` of the server behind it succeed.
  unfoldable pub close : Bool → Bool → HttpServer H → HttpServer H × Option CloseError
  close shutdown_works close_works s =
      if s.is_running
      then (
        record s { is_running = false; cancelled = true },
        if shutdown_works
            then none
            else (if close_works then some shutdown_error else some force_close_error),
      )
      else (s, none)

  -- The part of `Listen` after the scan. Where the range of ports is empty, no error is left from it.
  unfoldable pub after_scan : Bool → Option ℕ → HttpServer H → HttpServer H × ℤ
  after_scan tried (some port) s = (
    record s {
      is_running = true;
      listen_port = pos port;
      listening = s.listening ++ (some port ∷ []);
    },
    pos port,
  )
  after_scan true none s = (s, negsuc 0)
  after_scan false none s =
      (record s { is_running = true; listening = s.listening ++ (none ∷ []) }, s.listen_port)

  -- The patterns of the application's routes, with their handlers adapted.
  abbrev pub custom_routes : List (Text × H) → List (Text × Route H)
  custom_routes routes = map (λ (r : Text × H). (r.0, custom r.1)) routes

  -- The patterns that `setupRoutes` registers before the default one.
  unfoldable pub first_routes : HttpServer H → List (Text × Route H)
  first_routes s =
      let prefix =
        if is_empty s.config.pprof_prefix then default_pprof else s.config.pprof_prefix in
      (health_path, health_route)
      ∷ (if s.config.enable_pprof
          then map (λ page. (prefix ++ page, pprof_route page)) pprof_pages
          else [])

-- `accepts`: whether `HandleFunc` takes a pattern, where the multiplexer has the given ones; it panics
-- otherwise.
module _ {H : Type 0} (accepts : List Text → Text → Bool) where
  unfoldable pub handle_func : Text → Route H → List (Text × Route H) → Run (List (Text × Route H))
  handle_func pattern route mux =
      if accepts (keys mux) pattern then returns (mux ++ ((pattern, route) ∷ [])) else panics

  unfoldable pub handle_all :
      List (Text × Route H) → List (Text × Route H) → Run (List (Text × Route H))
  unfolding handle_func
  handle_all [] mux = returns mux
  handle_all (r ∷ routes) mux = after_return (handle_all routes) (handle_func r.0 r.1 mux)

  -- `setupRoutes` on a new multiplexer.
  unfoldable pub setup_routes : HttpServer H → Run (List (Text × Route H))
  unfolding handle_all first_routes
  setup_routes s =
      handle_all (first_routes s ++ ((slash, default_route) ∷ custom_routes s.routes)) []

  -- `Listen`, with the ports that are free and the first and the last port of the configuration.
  unfoldable pub listen : (ℕ → Bool) → ℕ → ℕ → HttpServer H → Run (HttpServer H × ℤ)
  unfolding setup_routes after_scan
  listen free start_port end_port s =
      if s.is_running then returns (s, negsuc 0) else (elim (setup_routes s) [
        | panics ↦ panics
        | blocks ↦ blocks
        | returns mux ↦ returns (
            after_scan (ltb start_port (suc end_port))
              (listen_scan free start_port (suc end_port - start_port)) (record s { mux = mux }))
      ])

  -- `RegisterRoute`, with whether it returns no error; a nil handler is `none`.
  unfoldable pub register_route : Text → Option H → HttpServer H → Run (HttpServer H × Bool)
  unfolding handle_func starts_with_slash
  register_route path none s = returns (s, false)
  register_route path (some handler) s =
      if is_empty path
      then returns (s, false)
      else (let path = if starts_with_slash path then path else slash ++ path in
          let kept = record s { routes = insert text_discrete path handler s.routes } in
          if s.is_running
          then (elim (handle_func path (custom handler) s.mux) [
            | returns mux ↦ returns (record kept { mux = mux }, true)
            | panics ↦ panics
            | blocks ↦ blocks
          ])
          else returns (kept, true))

module _ {H : Type 0} where
  -- The end of the first goroutine of `serve` that is left: its listener is closed, which panics where it is nil.
  unfoldable pub serve_ends : HttpServer H → Run (HttpServer H)
  serve_ends s = elim s.listening [
    | [] ↦ blocks
    | ◌∷◌ none _ ↦ panics
    | ◌∷◌ (some _) later ↦ returns (record s { is_running = false; listening = later })
  ]
