-- ===== src/Config.antt =====
-- config/config.go: the configuration, a nil pointer being `none`, and the check that `Init` makes of it.
pub mod Validation
use yaice.Base.{
  ℕ, ◌≡◌, refl, Bool, true, false, ◌&&◌, ◌||◌, List, [], ◌∷◌, Option, none, some, arith,
}
use yaice.Base.Tests.{if◌then◌else◌, ◌==◌}
use yaice.Base.Int.{ℤ, pos, negsuc, ltb_ℤ, leb_ℤ}
use yaice.Utils.Tool.{Text, Run, returns, panics}

pub record BaseConfig : Type 0 where
  pub xxl_url : Text
  pub xxl_env : Text
  pub xxl_key : Text
  pub xxl_app : Text

pub record AppConfig : Type 0 where
  pub name : Text
  pub version : Text
  pub env : Text
  pub debug : Bool
  pub config_path : Text
  pub is_auto_update : Bool

pub record LogConfig : Type 0 where
  pub level : Text
  pub path : Text
  pub max_size : ℤ
  pub max_backups : ℤ
  pub max_age : ℤ
  pub compress : Bool

pub record HttpConfig : Type 0 where
  pub enabled : Bool
  pub host : Text
  pub start_port : ℤ
  pub end_port : ℤ
  pub port : ℤ
  pub read_timeout : ℤ
  pub write_timeout : ℤ
  pub idle_timeout : ℤ
  pub max_header_bytes : ℤ
  pub enable_tls : Bool
  pub cert_file : Text
  pub key_file : Text
  pub enable_cors : Bool
  pub cors_origins : List Text
  pub enable_metrics : Bool
  pub metrics_path : Text
  pub enable_pprof : Bool
  pub pprof_prefix : Text

pub record TcpConfig : Type 0 where
  pub enabled : Bool
  pub host : Text
  pub start_port : ℤ
  pub end_port : ℤ
  pub port : ℤ
  pub max_conn : ℤ
  pub read_timeout : ℤ
  pub write_timeout : ℤ
  pub ping_time_out : ℤ

pub record NetworkConfig : Type 0 where
  pub token_sign_str : Text
  pub tcp : Option TcpConfig
  pub http : Option HttpConfig

-- `timeout` is a `time.Duration`, in nanoseconds.
pub record MongoDbConfig : Type 0 where
  pub enabled : Bool
  pub uri : Text
  pub database : Text
  pub queue_size : ℤ
  pub batch_size : ℤ
  pub timeout : ℤ

pub record DatabaseConfig : Type 0 where
  pub mongodb : Option MongoDbConfig

pub record GlobalMqConfig : Type 0 where
  pub enabled : Bool
  pub max_workers : ℤ
  pub frame_rate : ℤ
  pub queue_size : ℤ

pub record SdkGameConfig : Type 0 where
  pub app_id : Text
  pub app_secret : Text
  pub server_domain : Text
  pub ad_unit_id : Text
  pub callback_secret : Text

pub record GrpcGuidConfig : Type 0 where
  pub enabled : Bool
  pub address : Text
  pub api_secret : Text
  pub project : Text
  pub env : Text

pub record Config : Type 0 where
  pub base : Option BaseConfig
  pub app : Option AppConfig
  pub log : Option LogConfig
  pub network : Option NetworkConfig
  pub database : Option DatabaseConfig
  pub global_mq : Option GlobalMqConfig
  pub fei_zhu_sdk : Option SdkGameConfig
  pub wei_xin_sdk : Option SdkGameConfig
  pub douyin_sdk : Option SdkGameConfig
  pub grpc_guid : Option GrpcGuidConfig

pub record ConfigManager : Type 0 where
  pub config : Option Config

pub data ConfigError : Type 0 where
  config_is_nil bad_tcp_port bad_http_port tls_files_required : ConfigError
  mongodb_uri_required mongodb_database_required : ConfigError

pub data Outcome : Type 0 where
  accepted : Outcome
  rejected : ConfigError → Outcome
  nil_dereference : Outcome

-- "yaice", "1.0.0" and "development".
abbrev pub default_app : AppConfig
default_app = record {
  name = 121 ∷ 97 ∷ 105 ∷ 99 ∷ 101 ∷ [];
  version = 49 ∷ 46 ∷ 48 ∷ 46 ∷ 48 ∷ [];
  env = 100 ∷ 101 ∷ 118 ∷ 101 ∷ 108 ∷ 111 ∷ 112 ∷ 109 ∷ 101 ∷ 110 ∷ 116 ∷ [];
  debug = false;
  config_path = [];
  is_auto_update = false;
}

-- "info" and "./logs".
abbrev pub default_log : LogConfig
default_log = record {
  level = 105 ∷ 110 ∷ 102 ∷ 111 ∷ [];
  path = 46 ∷ 47 ∷ 108 ∷ 111 ∷ 103 ∷ 115 ∷ [];
  max_size = pos 100;
  max_backups = pos 0;
  max_age = pos 7;
  compress = true;
}

unfoldable pub or_default {ℓ} : {A : Type ℓ} → A → Option A → A
or_default d none = d
or_default d (some a) = a

unfoldable pub is_empty : Text → Bool
is_empty [] = true
is_empty (x ∷ xs) = false

unfoldable pub is_zero : ℤ → Bool
is_zero (pos n) = n == 0
is_zero (negsuc n) = false

unfoldable pub bad_ports : ℤ → ℤ → Bool
bad_ports start_port end_port =
    leb_ℤ start_port (pos 0)
    || leb_ℤ end_port (pos 0)
    || ltb_ℤ (pos 65535) end_port
    || ltb_ℤ (pos 65535) start_port

-- The first part of `validateNetworkConfig`.
unfoldable pub validate_tcp : Option TcpConfig → Option TcpConfig × Outcome
unfolding bad_ports
validate_tcp none = (none, accepted)
validate_tcp (some t) =
    if t.enabled
    then (if bad_ports t.start_port t.end_port then (some t, rejected bad_tcp_port) else (
      some (if leb_ℤ t.max_conn (pos 0) then record t { max_conn = pos 10000 } else t),
      accepted,
    ))
    else (some t, accepted)

-- The second part of `validateNetworkConfig`.
unfoldable pub validate_http : Option HttpConfig → Outcome
unfolding bad_ports is_empty
validate_http none = accepted
validate_http (some h) =
    if h.enabled
    then (if bad_ports h.start_port h.end_port
        then rejected bad_http_port
        else if h.enable_tls
        then (if is_empty h.cert_file || is_empty h.key_file
            then rejected tls_files_required
            else accepted)
        else accepted)
    else accepted

unfoldable pub validate_network_config : Option NetworkConfig → Option NetworkConfig × Outcome
unfolding validate_tcp validate_http
validate_network_config none = (none, nil_dereference)
validate_network_config (some n) =
    let checked = validate_tcp n.tcp in
    (
      some (record n { tcp = checked.0 }),
      elim checked.1 [
        | accepted ↦ validate_http n.http
        | rejected e ↦ rejected e
        | nil_dereference ↦ nil_dereference
      ],
    )

unfoldable pub validate_mongodb : Option MongoDbConfig → Option MongoDbConfig × Outcome
unfolding is_empty is_zero
validate_mongodb none = (none, accepted)
validate_mongodb (some m) =
    if m.enabled
    then (if is_empty m.uri
        then (some m, rejected mongodb_uri_required)
        else if is_empty m.database
        then (some m, rejected mongodb_database_required)
        else (let sized = if is_zero m.queue_size then record m { queue_size = pos 3000 } else m in
            (
              some (
                  if is_zero sized.timeout
                  then record sized { timeout = pos 10000000000 }
                  else sized),
              accepted,
            )))
    else (some m, accepted)

unfoldable pub validate_database_config : Option DatabaseConfig → Option DatabaseConfig × Outcome
unfolding validate_mongodb
validate_database_config none = (none, nil_dereference)
validate_database_config (some d) =
    let checked = validate_mongodb d.mongodb in (some (record d { mongodb = checked.0 }), checked.1)

-- `validate`, which leaves what it has set in the configuration also where it returns an error.
unfoldable pub validate : ConfigManager → ConfigManager × Outcome
unfolding or_default validate_network_config validate_database_config
validate cm = elim cm.config [
  | none ↦ (cm, rejected config_is_nil)
  | some c ↦
      let with_defaults = record c {
        app = some (or_default default_app c.app);
        log = some (or_default default_log c.log);
      } in
      let network = validate_network_config c.network in
      let networked = record with_defaults { network = network.0 } in
      elim network.1 [
        | rejected e ↦ (record { config = some networked }, rejected e)
        | nil_dereference ↦ (record { config = some networked }, nil_dereference)
        | accepted ↦
            let database = validate_database_config c.database in
            (record { config = some (record networked { database = database.0 }) }, database.1)
      ]
]

-- `Init`: the once runs where no manager is set.
unfoldable pub init : Option Config → Option ConfigManager → Option ConfigManager × Outcome
unfolding or_default validate
init config global =
    let checked = validate (or_default (record { config = config }) global) in
    (some checked.0, checked.1)

-- `Get`, which locks the manager before it asks whether there is one.
unfoldable pub get : Option ConfigManager → Run (Option Config)
get none = panics
get (some cm) = returns cm.config
