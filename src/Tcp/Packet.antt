-- ===== src/Tcp/Packet.antt =====
-- core/packate.go and network/tcp_net/packates.go: how the messages of a connection are packed and
-- unpacked. The interface is a record, and the packet that a manager takes where it is given none is a
-- value of it.
use yaice.Base.{ℕ, List, Option, none}
use yaice.Base.Tests.{ltb, if◌then◌else◌}
use yaice.Base.Lists.{length}
use yaice.Base.Int.{ℤ}
use yaice.Core.Protocol.{ServerProto}
use yaice.Tcp.Conn.{Conn}
use yaice.Utils.Tool.{Run, panics}

-- What `Unpack` answers: an error, no function to call, or a function that is called on the connection.
pub data Unpacked (D : Type 0) : Type 0 where
  refused ignored : Unpacked D
  calls : (Conn D → Run (Conn D)) → Unpacked D

pub record Packet (D : Type 0) : Type 0 where
  pub get_head_len : ℕ
  pub pack : ServerProto D → Option (List ℕ)
  pub unpack : List ℕ → Unpacked D
  pub heart_beat_pack : ℤ → Run (List ℕ)
  pub sync_time_pack : ℤ → Run (List ℕ)
  pub reply_token_pack : ℤ → ℤ → ℕ → ℤ → Run (List ℕ)

abbrev pub const_msg_length : ℕ
const_msg_length = 4

abbrev pub const_msg_id_len : ℕ
const_msg_id_len = 4

module _ {D : Type 0} where
  -- The number of the message is read and dropped, as the rest of the bytes is.
  abbrev pub unpack_default : List ℕ → Unpacked D
  unpack_default binary_data =
      if ltb (length binary_data) const_msg_id_len then refused else ignored

  abbrev pub new_packet : Packet D
  new_packet = record {
    get_head_len = const_msg_length;
    pack = λ message. none;
    unpack = unpack_default;
    heart_beat_pack = λ guid. panics;
    sync_time_pack = λ guid. panics;
    reply_token_pack = λ guid client_ack status process. panics;
  }
