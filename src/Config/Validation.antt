-- ===== src/Config/Validation.antt =====
-- config/config.go: which configurations `Init` accepts, and what it makes of them.
use yaice.Base.{
  ◌≡◌, ◌≢◌, ◌↔◌, ◌⊎◌, refl, ap, ap₂, ◌∙◌, true, false, [], ◌∷◌, Option, none, some, arith,
}
use yaice.Base.Int.{ℤ, pos, ◌≤ℤ◌}
use yaice.Utils.Tool.{Text}
use yaice.Config.{
  TcpConfig, HttpConfig, NetworkConfig, MongoDbConfig, DatabaseConfig, Config, Outcome, accepted,
  or_default, is_empty, is_zero, bad_ports, validate_tcp, validate_http, validate_network_config,
  validate_mongodb, validate_database_config, validate, default_app, default_log,
}

abbrev pub IsPort : ℤ → Type 0
IsPort p = (pos 1 ≤ℤ p) × (p ≤ℤ pos 65535)

-- An enabled TCP server has two ports.
abbrev pub TcpFits : Option TcpConfig → Type 0
TcpFits none = Unit
TcpFits (some t) = (t.enabled ≡ false) ⊎ (IsPort t.start_port × IsPort t.end_port)

-- An enabled HTTP server has two ports, and with TLS the names of its two files.
abbrev pub HttpFits : Option HttpConfig → Type 0
HttpFits none = Unit
HttpFits (some h) =
    (h.enabled ≡ false)
    ⊎ (IsPort h.start_port
        × IsPort h.end_port
        × ((h.enable_tls ≡ false) ⊎ ((h.cert_file ≢ []) × (h.key_file ≢ []))))

-- An enabled database has an address and a name.
abbrev pub MongoFits : Option MongoDbConfig → Type 0
MongoFits none = Unit
MongoFits (some m) = (m.enabled ≡ false) ⊎ ((m.uri ≢ []) × (m.database ≢ []))

abbrev pub NetworkFits : Option NetworkConfig → Type 0
NetworkFits none = ⊥
NetworkFits (some n) = TcpFits n.tcp × HttpFits n.http

abbrev pub DatabaseFits : Option DatabaseConfig → Type 0
DatabaseFits none = ⊥
DatabaseFits (some d) = MongoFits d.mongodb

is_empty_iff : (t : Text) → (is_empty t ≡ true) ↔ (t ≡ [])
unfolding is_empty
is_empty_iff [] = ground arith
is_empty_iff (x ∷ t) = ground arith

validate_tcp_iff : (t : Option TcpConfig) → ((validate_tcp t).1 ≡ accepted) ↔ TcpFits t
unfolding validate_tcp bad_ports
validate_tcp_iff none = ground arith
validate_tcp_iff (some t) = ground arith

validate_http_iff : (h : Option HttpConfig) → (validate_http h ≡ accepted) ↔ HttpFits h
unfolding validate_http bad_ports
validate_http_iff none = ground arith
validate_http_iff (some h) = ground (arith, is_empty_iff h.cert_file, is_empty_iff h.key_file)

validate_mongodb_iff :
    (m : Option MongoDbConfig) → ((validate_mongodb m).1 ≡ accepted) ↔ MongoFits m
unfolding validate_mongodb
validate_mongodb_iff none = ground arith
validate_mongodb_iff (some m) = ground (arith, is_empty_iff m.uri, is_empty_iff m.database)

validate_network_config_iff :
    (n : Option NetworkConfig) → ((validate_network_config n).1 ≡ accepted) ↔ NetworkFits n
unfolding validate_network_config
validate_network_config_iff none = ground arith
validate_network_config_iff (some n) =
    ground (arith, validate_tcp_iff n.tcp, validate_http_iff n.http)

validate_database_config_iff :
    (d : Option DatabaseConfig) → ((validate_database_config d).1 ≡ accepted) ↔ DatabaseFits d
unfolding validate_database_config
validate_database_config_iff none = ground arith
validate_database_config_iff (some d) = validate_mongodb_iff d.mongodb

-- A configuration is accepted exactly where it has a network part and a database part, each enabled
-- server has its two ports in 1 to 65535, an enabled HTTP server with TLS has the names of its two
-- files, and an enabled database has an address and a name.
pub validate_iff :
    (c : Config)
    → ((validate (record { config = some c })).1 ≡ accepted)
      ↔ (NetworkFits c.network × DatabaseFits c.database)
unfolding validate
validate_iff c =
    ground (arith, validate_network_config_iff c.network, validate_database_config_iff c.database)

validate_tcp-fixed :
    (t : Option TcpConfig)
    → (validate_tcp t).1 ≡ accepted
    → validate_tcp (validate_tcp t).0 ≡ ((validate_tcp t).0, accepted)
unfolding validate_tcp
validate_tcp-fixed none e = refl
validate_tcp-fixed (some t) e = ground arith

validate_mongodb-fixed :
    (m : Option MongoDbConfig)
    → (validate_mongodb m).1 ≡ accepted
    → validate_mongodb (validate_mongodb m).0 ≡ ((validate_mongodb m).0, accepted)
unfolding validate_mongodb is_zero
validate_mongodb-fixed none e = refl
validate_mongodb-fixed (some m) e = ground arith

network_accepted :
    (n : NetworkConfig)
    → (validate_network_config (some n)).1 ≡ accepted
    → ((validate_tcp n.tcp).1 ≡ accepted) × (validate_http n.http ≡ accepted)
unfolding validate_network_config
network_accepted n e = ground arith

validate_network_config-fixed :
    (n : Option NetworkConfig)
    → (validate_network_config n).1 ≡ accepted
    → validate_network_config (validate_network_config n).0
      ≡ ((validate_network_config n).0, accepted)
unfolding validate_network_config
validate_network_config-fixed none e = cc
validate_network_config-fixed (some n) e =
    let first = network_accepted n e in ground (arith, first, validate_tcp-fixed n.tcp first.0)

validate_database_config-fixed :
    (d : Option DatabaseConfig)
    → (validate_database_config d).1 ≡ accepted
    → validate_database_config (validate_database_config d).0
      ≡ ((validate_database_config d).0, accepted)
unfolding validate_database_config
validate_database_config-fixed none e = cc
validate_database_config-fixed (some d) e =
    let fixed = validate_mongodb-fixed d.mongodb e in ground (arith, fixed)

-- What an accepted configuration becomes.
abbrev pub settled : Config → Config
settled c = record c {
  app = some (or_default default_app c.app);
  log = some (or_default default_log c.log);
  network = (validate_network_config c.network).0;
  database = (validate_database_config c.database).0;
}

validate_parts :
    (c : Config)
    → (validate (record { config = some c })).1 ≡ accepted
    → ((validate_network_config c.network).1 ≡ accepted)
      × ((validate_database_config c.database).1 ≡ accepted)
unfolding validate
validate_parts c e = ground arith

validate-accepted :
    (c : Config)
    → (validate_network_config c.network).1 ≡ accepted
    → (validate_database_config c.database).1 ≡ accepted
    → validate (record { config = some c }) ≡ (record { config = some (settled c) }, accepted)
unfolding validate
validate-accepted c e1 e2 = ground arith

settled-settled :
    (c : Config)
    → (validate_network_config c.network).1 ≡ accepted
    → (validate_database_config c.database).1 ≡ accepted
    → settled (settled c) ≡ settled c
unfolding or_default
settled-settled c e1 e2 =
    ap₂
      (λ (n : Option NetworkConfig) (d : Option DatabaseConfig). record (settled c) {
        network = n;
        database = d;
      })
      (ap (λ (r : Option NetworkConfig × Outcome). r.0)
        (validate_network_config-fixed c.network e1))
      (ap (λ (r : Option DatabaseConfig × Outcome). r.0)
        (validate_database_config-fixed c.database e2))

-- An accepted configuration gets a name, a log level and the missing limits, and no other field changes:
-- what validation leaves is accepted again, and a second validation changes nothing.
pub validate-idempotent :
    (c : Config)
    → (validate (record { config = some c })).1 ≡ accepted
    → (validate (record { config = some c }) ≡ (record { config = some (settled c) }, accepted))
      × (validate (record { config = some (settled c) })
          ≡ (record { config = some (settled c) }, accepted))
validate-idempotent c e =
    let parts = validate_parts c e in
    let network = validate_network_config-fixed c.network parts.0 in
    let database = validate_database_config-fixed c.database parts.1 in
    (
      validate-accepted c parts.0 parts.1,
      validate-accepted (settled c) (ap (λ (r : Option NetworkConfig × Outcome). r.1) network)
            (ap (λ (r : Option DatabaseConfig × Outcome). r.1) database)
          ∙ ap (λ (d : Config). (record { config = some d }, accepted))
              (settled-settled c parts.0 parts.1),
    )
