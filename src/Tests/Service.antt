-- ===== src/Tests/Service.antt =====
-- The theorems on service.go at concrete services. A client, a server and a player are numbers.
use mathlib.Core.List.{lookup}
use yaice.Base.{ℕ, ◌≡◌, ◌⊎◌, refl, true, false, List, [], ◌∷◌, Option, none, some, arith}
use yaice.Base.Int.{ℤ, pos}
use yaice.Config.{GlobalMqConfig, MongoDbConfig, NetworkConfig}
use yaice.Core.GlobalMq.{GlobalMq, EventHandlerFunc}
use yaice.Core.Protocol.{ServerProto, Token}
use yaice.Database.Manager.{
  Driver, Manager, connected, connect_mongo_db, after_connect, init_config, init, new_manager,
}
use yaice.Network.{Services}
use yaice.Network.{
  Manager as NetManager, start as start_net_manager, new_manager as new_net_manager, start_tcp,
  start_http,
}
use yaice.Service.{Service, StartError, stopped, database_failed, start, stop}
use yaice.Service.Parts.{service_managers, net_ready}
use yaice.Service.States.{Outcome, start-Outcome}
use yaice.Service.Restart.{start-closed, start-database_failed}
use yaice.Service.Handlers.{handle_token_check, tcp_server}
use yaice.Service.Tokens.{handle_token_check-new}
use yaice.Tcp.Conn.{Conn}
use yaice.Tcp.Packet.{Packet, ignored}
use yaice.Tcp.Server.{Server, get_conn}
use yaice.Utils.Tool.{returns, panics}

-- A database that cannot be reached, and one that can.
abbrev no_driver : Driver ℕ
no_driver = record { connect = λ uri. none; ping = λ client. true }

abbrev driver : Driver ℕ
driver = record { connect = λ uri. some 9; ping = λ client. true }

abbrev servers : Services ℕ
servers = record {
  open_tcp = λ t. (1, pos 80);
  open_http = λ h. none;
  active_connections = λ s. none;
  health = λ s. none;
}

abbrev mq_config : GlobalMqConfig
mq_config = record { enabled = true; max_workers = pos 2; frame_rate = pos 30; queue_size = pos 10 }

abbrev network_config : NetworkConfig
network_config = record { token_sign_str = []; tcp = none; http = none }

abbrev mongo : MongoDbConfig
mongo = record {
  enabled = true;
  uri = 117 ∷ [];
  database = 100 ∷ [];
  queue_size = pos 3;
  batch_size = pos 2;
  timeout = pos 0;
}

abbrev Db : Type 0
Db = Manager ℕ ℕ ℕ ℕ ℕ

abbrev Net : Type 0
Net = Option (NetManager ℕ ℕ)

abbrev at_rest : Option (GlobalMq ℕ ℕ) → Service Db Net ℕ ℕ
at_rest mq = record {
  state = stopped;
  config = record {
    global_mq = some mq_config;
    database = some (record { mongodb = some mongo });
    network = some network_config;
  };
  db = none;
  net = none;
  mq = mq;
  cancelled = false;
  hooks = [];
}

abbrev handlers : ℤ → EventHandlerFunc ℕ
handlers kind message = true

start-Outcome_example :
    (r : Service Db Net ℕ ℕ × Option StartError) × (start
        (service_managers driver servers)
        handlers
        (at_rest none)
      ≡ returns r)
    × Outcome r
unfolding service_managers init init_config after_connect connect_mongo_db connected new_manager
start-Outcome_example =
    start-Outcome (service_managers driver servers) handlers (at_rest none) mq_config 10 _ _ refl
      refl refl refl refl refl

abbrev closed_mq : GlobalMq ℕ ℕ
closed_mq = record {
  cancelled = true;
  closed = true;
  global_queue = [];
  capacity = 10;
  logic_handlers = [];
  event_handlers = [];
  worker_count = pos 2;
  max_workers = pos 2;
  frame_rate = pos 30;
  msg_processed = pos 0;
  dropped_msgs = pos 0;
}

start-closed_example :
    (start (service_managers driver servers) handlers (at_rest (some closed_mq)) ≡ panics)
    ⊎ ((t : Service Db Net ℕ ℕ) × (start
            (service_managers driver servers)
            handlers
            (at_rest (some closed_mq))
          ≡ returns (t, none))
        × (stop (service_managers driver servers) handlers t ≡ panics))
unfolding service_managers init init_config after_connect connect_mongo_db connected new_manager
start-closed_example =
    start-closed (service_managers driver servers) handlers (at_rest (some closed_mq)) mq_config 10
      _ refl refl refl refl refl

-- The network after it started.
abbrev net_up : Net
net_up = some (record {
  cancelled = false;
  config = network_config;
  servers = [];
  clients = [];
  is_ready = true;
  has_packet = true;
})

start-database_failed_example :
    (t : Service Db Net ℕ ℕ) × (d : Db) × (start
        (service_managers no_driver servers)
        handlers
        (at_rest none)
      ≡ returns (t, some database_failed))
    × (t.state ≡ stopped)
    × (t.net ≡ some net_up)
    × (net_ready net_up ≡ true)
    × (t.db ≡ some d)
    × (d.is_ready ≡ false)
unfolding service_managers init init_config after_connect connect_mongo_db connected new_manager
    start_net_manager start_tcp start_http new_net_manager
start-database_failed_example =
    start-database_failed (service_managers no_driver servers) handlers (at_rest none) mq_config 10
      _ net_up refl refl refl refl refl refl refl

abbrev conn : ℤ → List (ServerProto ℕ) → ℤ → Conn ℕ
conn session pending sent = record {
  session_id = session;
  player_guid = pos 0;
  is_closed = false;
  has_conn = true;
  cancelled = false;
  mu_held = false;
  send_queue = [];
  last_activity = pos 0;
  pending_messages = pending;
  server_ack = pos 0;
  has_been_sent_num = sent;
  client_ack = pos 0;
}

abbrev one_message : ServerProto ℕ
one_message = record {
  client_ack = pos 0;
  player_guid = pos 0;
  message_type = 3;
  content = 5;
  request_id = pos 0;
  error_code = pos 0;
  proto_type = 1;
  message_data_type = 1;
}

abbrev plain : Packet ℕ
plain = record {
  get_head_len = 4;
  pack = λ m. none;
  unpack = λ m. ignored;
  heart_beat_pack = λ g. returns [];
  sync_time_pack = λ g. returns [];
  reply_token_pack = λ g a s p. returns [];
}

abbrev token : Token
token = record { guid = pos 7; session_id = pos 3 }

abbrev hub : List (ℤ × Conn ℕ) → Server ℕ
hub conns = record {
  conn_count = pos 1;
  max_conn_count = pos 100;
  active_conns = conns;
  is_running = true;
}

handle_token_check-new_example :
    (s' : Server ℕ) × (handle_token_check plain false
        (some token)
        (pos 0)
        (tcp_server (hub []))
        (conn (pos 3) [] (pos 0))
      ≡ returns (tcp_server s', conn (pos 3) [] (pos 0), none))
    × (get_conn (pos 3) s' ≡ some (conn (pos 3) [] (pos 0)))
    × (get_conn (pos 7) s' ≡ none)
unfolding get_conn lookup
handle_token_check-new_example =
    handle_token_check-new plain token (pos 0) (hub []) (conn (pos 3) [] (pos 0)) []
      (λ e. ground arith) refl refl refl

abbrev known : Conn ℕ
known = conn (pos 7) (one_message ∷ []) (pos 1)
