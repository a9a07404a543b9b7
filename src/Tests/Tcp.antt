-- ===== src/Tests/Tcp.antt =====
-- The theorems on network/tcp_net/conn.go at concrete connections.
use yaice.Base.{ℕ, ◌≡◌, ◌<◌, refl, true, false, List, [], ◌∷◌, ◌++◌, Option, some, arith}
use yaice.Base.Int.{pos}
use yaice.Base.Lists.{length}
use yaice.Core.Protocol.{ServerProto}
use yaice.Tcp.Conn.{
  Conn, async_send, make_message, update_server_ack, sync_send, push_to_pending_messages,
  inc_has_been_send_count, try_enqueue,
}
use yaice.Tcp.Conn.Delivery.{Tracks, async_send-Tracks, update_server_ack-with_ack}
use yaice.Tcp.Conn.Locking.{sync_send-blocks}
use yaice.Tcp.Writer.{bytes_item, Event, message, tick, Writer, batch_write_loop, batch_size}
use yaice.Tcp.Writer.Delivery.{offered, Succeeds, batch_write_loop-keeps}
use yaice.Utils.Tool.{returns, blocks}

abbrev fresh : Conn ℕ
fresh = record {
  session_id = pos 3;
  player_guid = pos 9;
  is_closed = false;
  has_conn = true;
  cancelled = false;
  mu_held = false;
  send_queue = [];
  last_activity = pos 1000;
  pending_messages = [];
  server_ack = pos 0;
  has_been_sent_num = pos 0;
  client_ack = pos 0;
}

fresh-Tracks : Tracks [] 0 fresh
fresh-Tracks = record {
  acknowledged = ground arith;
  small = ground arith;
  pending = refl;
  ack = refl;
  count = refl;
}

async_send-Tracks_example : Tracks ([] ++ (make_message 5 fresh ∷ [])) 0 (async_send 5 fresh).0
async_send-Tracks_example = async_send-Tracks 5 fresh [] 0 refl (ground arith) fresh-Tracks

-- One message is sent, and acknowledged.
abbrev sent_one : Conn ℕ
sent_one = (async_send 5 fresh).0

update_server_ack-with_ack_example :
    (update_server_ack (pos 1) sent_one
      ≡ returns (record sent_one { pending_messages = []; server_ack = pos 1 }))
    × Tracks
        (make_message 5 fresh ∷ [])
        1
        (record sent_one { pending_messages = []; server_ack = pos 1 })
    × (◌≡◌ {A = ℕ} 1 0 → record sent_one { pending_messages = []; server_ack = pos 1 } ≡ sent_one)
update_server_ack-with_ack_example =
    update_server_ack-with_ack (pos 1) sent_one (make_message 5 fresh ∷ []) 0
      (async_send-Tracks 5 fresh [] 0 refl (ground arith) fresh-Tracks)

-- One message is kept, and its acknowledgement leaves none.
kept : (async_send 5 fresh).0.pending_messages ≡ make_message 5 fresh ∷ []
unfolding async_send push_to_pending_messages inc_has_been_send_count try_enqueue
kept = refl

sync_send-blocks_example : sync_send true fresh ≡ blocks
sync_send-blocks_example = sync_send-blocks fresh true refl

abbrev idle : Writer
idle = record { batch = []; written = []; running = true; closing = false }

abbrev events : List (Event ℕ)
events =
    message (bytes_item (1 ∷ 2 ∷ [])) true true
    ∷ tick true
    ∷ message (bytes_item (3 ∷ [])) true true
    ∷ []

abbrev pack_content : ServerProto ℕ → Option (List ℕ)
pack_content msg = some (msg.content ∷ [])

batch_write_loop-keeps_example :
    ((batch_write_loop pack_content events idle).written
        ++ (batch_write_loop pack_content events idle).batch
      ≡ ([] ++ []) ++ offered pack_content events)
    × (length (batch_write_loop pack_content events idle).batch < batch_size)
unfolding Succeeds
batch_write_loop-keeps_example =
    batch_write_loop-keeps pack_content events idle refl (ground arith) (ground arith)
