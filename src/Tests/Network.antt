-- ===== src/Tests/Network.antt =====
-- The theorems on config/config.go and network/manager.go at a concrete configuration.
use yaice.Base.{ℕ, ◌≡◌, ◌↔◌, refl, Bool, true, false, [], ◌∷◌, none, some}
use yaice.Base.Int.{pos}
use yaice.Config.{TcpConfig, HttpConfig, NetworkConfig, Config, accepted, validate}
use yaice.Config.Validation.{NetworkFits, DatabaseFits, validate_iff}
use yaice.Network.{
  Services, Manager, http_error, start, get_server, is_server_enabled, tcp_network, http_network,
  start_tcp, start_tcp_server_locked, start_http, start_http_server_locked,
}
use yaice.Network.Lifecycle.{is_some, start-rolls_back, start-serves}

abbrev tcp : TcpConfig
tcp = record {
  enabled = true;
  host = [];
  start_port = pos 9000;
  end_port = pos 9010;
  port = pos 0;
  max_conn = pos 0;
  read_timeout = pos 0;
  write_timeout = pos 0;
  ping_time_out = pos 0;
}

abbrev http : HttpConfig
http = record {
  enabled = true;
  host = [];
  start_port = pos 8000;
  end_port = pos 8010;
  port = pos 0;
  read_timeout = pos 0;
  write_timeout = pos 0;
  idle_timeout = pos 0;
  max_header_bytes = pos 0;
  enable_tls = false;
  cert_file = [];
  key_file = [];
  enable_cors = false;
  cors_origins = [];
  enable_metrics = false;
  metrics_path = [];
  enable_pprof = false;
  pprof_prefix = [];
}

abbrev network : NetworkConfig
network = record { token_sign_str = []; tcp = some tcp; http = some http }

abbrev config : Config
config = record {
  base = none;
  app = none;
  log = none;
  network = some network;
  database = some record { mongodb = none };
  global_mq = none;
  fei_zhu_sdk = none;
  wei_xin_sdk = none;
  douyin_sdk = none;
  grpc_guid = none;
}

validate_iff_example :
    ((validate (record { config = some config })).1 ≡ accepted)
    ↔ (NetworkFits config.network × DatabaseFits config.database)
validate_iff_example = validate_iff config

-- A server is its number: the TCP server is 1 and the HTTP server 2, which opens where `works`.
abbrev services : Bool → Services ℕ
services works = record {
  open_tcp = λ t. (1, t.start_port);
  open_http = λ h. elim works [ true ↦ some (2, h.start_port) | false ↦ none ];
  active_connections = λ s. none;
  health = λ s. some true;
}

abbrev manager : Manager ℕ ℕ
manager = record {
  cancelled = false;
  config = network;
  servers = [];
  clients = [];
  is_ready = false;
  has_packet = false;
}

start-rolls_back_example :
    ((start (services false) manager).manager.servers ≡ [])
    × ((start (services false) manager).manager.is_ready ≡ false)
    × ((start (services false) manager).closed ≡ 1 ∷ [])
unfolding start start_tcp start_tcp_server_locked start_http start_http_server_locked
start-rolls_back_example = start-rolls_back (services false) manager http_error refl refl refl

start-serves_example :
    ((start (services true) manager).manager.is_ready ≡ true)
    × (is_some (get_server tcp_network (start (services true) manager).manager)
        ≡ is_server_enabled tcp_network (start (services true) manager).manager)
    × (is_some (get_server http_network (start (services true) manager).manager)
        ≡ is_server_enabled http_network (start (services true) manager).manager)
unfolding start start_tcp start_tcp_server_locked start_http start_http_server_locked
start-serves_example = start-serves (services true) manager refl refl refl
