-- ===== src/Tests/Answers.antt =====
-- The theorems on the answers of the HTTP server at concrete requests.
use yaice.Base.{◌≡◌, ◌⊎◌, refl, true, false, List, [], ◌∷◌, none, some, arith}
use yaice.Base.Int.{pos}
use yaice.Config.{
  HttpConfig, NetworkConfig, Config, validate, validate_network_config, validate_http, validate_tcp,
  validate_database_config, validate_mongodb, bad_ports, is_empty, or_default,
}
use yaice.Http.{HttpServer, custom}
use yaice.Http.Answers.{calls, answers_json, HandlerFunc, serve_request}
use yaice.Http.Answers.Served.{IsServed, serve_request-IsServed}
use yaice.Http.Middleware.{WriterCall, write_header, Request, Exchange, new_wrapper}
use yaice.Http.Tls.{serving_of, over_tls, plainly, serving_of-accepted}
use yaice.Utils.Tool.{Text}

-- TLS with the files "c" and "k", and every origin.
abbrev tls : HttpConfig
tls = record {
  enabled = true;
  host = [];
  start_port = pos 8000;
  end_port = pos 8010;
  port = pos 0;
  read_timeout = pos 0;
  write_timeout = pos 5;
  idle_timeout = pos 0;
  max_header_bytes = pos 0;
  enable_tls = true;
  cert_file = 99 ∷ [];
  key_file = 107 ∷ [];
  enable_cors = true;
  cors_origins = (42 ∷ []) ∷ [];
  enable_metrics = false;
  metrics_path = [];
  enable_pprof = false;
  pprof_prefix = [];
}

abbrev tls_network : NetworkConfig
tls_network = record { token_sign_str = []; tcp = none; http = some tls }

abbrev tls_config : Config
tls_config = record {
  base = none;
  app = none;
  log = none;
  network = some tls_network;
  database = some record { mongodb = none };
  global_mq = none;
  fei_zhu_sdk = none;
  wei_xin_sdk = none;
  douyin_sdk = none;
  grpc_guid = none;
}

serving_of-accepted_example :
    ((tls.enable_tls ≡ true) × (serving_of tls ≡ over_tls tls.cert_file tls.key_file))
    ⊎ ((tls.enable_tls ≡ false) × (serving_of tls ≡ plainly))
unfolding validate validate_network_config validate_http validate_tcp validate_database_config
    validate_mongodb bad_ports is_empty or_default
serving_of-accepted_example = serving_of-accepted tls_config tls_network tls refl refl refl refl

-- A handler that answers with JSON, and then with an error.
abbrev twice : HandlerFunc
twice context = answers_json (pos 200) (some (91 ∷ 93 ∷ [])) ∷ calls (write_header (pos 500)) ∷ []

abbrev http_server : HttpServer HandlerFunc
http_server = record {
  config = tls;
  is_running = true;
  listen_port = pos 8000;
  active_conns = pos 2;
  cancelled = false;
  routes = [];
  mux = [];
  listening = some 8000 ∷ [];
}

-- "GET", from the origin "a".
abbrev get_request : Request
get_request = record { method = 71 ∷ 69 ∷ 84 ∷ []; origin = 97 ∷ [] }

abbrev two_active : Exchange
two_active = record { active_conns = pos 2; headers = []; writer = new_wrapper }

abbrev no_pages : Text → Request → List WriterCall
no_pages page r = []

-- "12:00"
abbrev noon : Text
noon = 49 ∷ 50 ∷ 58 ∷ 48 ∷ 48 ∷ []

serve_request-IsServed_example :
    IsServed two_active
      (serve_request no_pages (pos 0) noon none http_server (custom twice) get_request two_active)
serve_request-IsServed_example =
    serve_request-IsServed no_pages (pos 0) noon none http_server (custom twice) get_request
      two_active 2 refl (ground arith)
