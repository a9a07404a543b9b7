-- ===== src/Core/Protocol.antt =====
-- core/protocol_data.go and core/connection.go: what is sent to a client, and the kinds of packets.
use yaice.Base.{ℕ}
use yaice.Base.Int.{ℤ, pos}

-- `D` is the type of the messages that the application hands over.
pub record ServerProto (D : Type 0) : Type 0 where
  pub client_ack : ℤ
  pub player_guid : ℤ
  pub message_type : ℕ
  pub content : D
  pub request_id : ℤ
  pub error_code : ℤ
  pub proto_type : ℕ
  pub message_data_type : ℕ

-- `ServerProto{}`, which has no content yet; a content stands for the nil one.
abbrev pub empty_proto : {D : Type 0} → D → ServerProto D
empty_proto content = record {
  client_ack = pos 0;
  player_guid = pos 0;
  message_type = 0;
  content = content;
  request_id = pos 0;
  error_code = pos 0;
  proto_type = 0;
  message_data_type = 0;
}

-- The setters.
module _ {D : Type 0} where
  abbrev pub set_client_ack : ℤ → ServerProto D → ServerProto D
  set_client_ack v sp = record sp { client_ack = v }

  abbrev pub set_player_guid : ℤ → ServerProto D → ServerProto D
  set_player_guid v sp = record sp { player_guid = v }

  abbrev pub set_message_type : ℕ → ServerProto D → ServerProto D
  set_message_type v sp = record sp { message_type = v }

  abbrev pub set_data : D → ServerProto D → ServerProto D
  set_data v sp = record sp { content = v }

  abbrev pub set_request_id : ℤ → ServerProto D → ServerProto D
  set_request_id v sp = record sp { request_id = v }

  abbrev pub set_error_code : ℤ → ServerProto D → ServerProto D
  set_error_code v sp = record sp { error_code = v }

  abbrev pub set_proto_type : ℕ → ServerProto D → ServerProto D
  set_proto_type v sp = record sp { proto_type = v }

  abbrev pub set_message_data_type : ℕ → ServerProto D → ServerProto D
  set_message_data_type v sp = record sp { message_data_type = v }

abbrev pub proto_type_proto : ℕ
proto_type_proto = 1

-- The constants `NetworkProtocolType_*` and the reason of success of `KickOutType_*`.
abbrev pub token_check : ℤ
token_check = pos 1

abbrev pub logic : ℤ
logic = pos 3

abbrev pub heart_beat : ℤ
heart_beat = pos 4

abbrev pub sync_time : ℤ
sync_time = pos 5

abbrev pub fixed_rate : ℤ
fixed_rate = pos 6

abbrev pub kick_out_success : ℕ
kick_out_success = 1

-- The values of a token that a client shows.
pub record Token : Type 0 where
  pub guid : ℤ
  pub session_id : ℤ
