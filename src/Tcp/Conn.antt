-- ===== src/Tcp/Conn.antt =====
-- network/tcp_net/conn.go: the acknowledgements of a connection and the messages that it keeps until
-- the client has them. `mu_held` is whether `c.mu` is locked for writing; every method below releases
-- what it locks, but for a method that never returns.
pub mod Delivery
pub mod Resend
pub mod Locking
use yaice.Base.{
  ℕ, zero, suc, ◌+◌, ◌-◌, ◌≤◌, ◌<◌, ◌≡◌, refl, Bool, true, false, ◌&&◌, List, [], ◌∷◌, ◌++◌, Option,
  none, some, arith,
}
use yaice.Base.Tests.{ltb, leb, if◌then◌else◌}
use yaice.Base.Lists.{length, drop}
use yaice.Base.Int.{ℤ, pos, negsuc, ◌+ℤ◌, ◌-ℤ◌, ltb_ℤ, leb_ℤ, int64, pos_part}
use yaice.Core.Protocol.{
  ServerProto, proto_type_proto, empty_proto, set_client_ack, set_message_type, set_data,
  set_request_id, set_error_code, set_proto_type, set_message_data_type,
}
use yaice.Core.Protocol.{set_player_guid as set_sender_guid}
use yaice.Utils.Tool.{Run, returns, panics, blocks}

abbrev pub send_queue_size : ℕ
send_queue_size = 5000

pub record Conn (D : Type 0) : Type 0 where
  pub session_id : ℤ
  pub player_guid : ℤ
  pub is_closed : Bool
  -- Whether the field `conn`, the socket, is not nil.
  pub has_conn : Bool
  -- Whether the connection's context is cancelled.
  pub cancelled : Bool
  pub mu_held : Bool
  pub send_queue : List (ServerProto D)
  pub last_activity : ℤ
  pub pending_messages : List (ServerProto D)
  pub server_ack : ℤ
  pub has_been_sent_num : ℤ
  pub client_ack : ℤ

pub data SendResult : Type 0 where
  sent closed_error full_error : SendResult

module _ {D : Type 0} where
  -- `NewConn`, with the session id that it is given and the time.
  unfoldable pub new_conn : ℤ → ℤ → Conn D
  new_conn session_id now = record {
    session_id = session_id;
    player_guid = pos 0;
    is_closed = false;
    has_conn = true;
    cancelled = false;
    mu_held = false;
    send_queue = [];
    last_activity = now;
    pending_messages = [];
    server_ack = pos 0;
    has_been_sent_num = pos 0;
    client_ack = pos 0;
  }

  unfoldable pub inc_client_ack : Conn D → Conn D
  inc_client_ack c = record c { client_ack = int64 (c.client_ack +ℤ pos 1) }

  unfoldable pub set_player_guid : ℤ → Conn D → Conn D
  set_player_guid guid c = record c { player_guid = guid }

  unfoldable pub update_last_activity : ℤ → Conn D → Conn D
  update_last_activity now c = record c { last_activity = now }

  unfoldable pub push_to_pending_messages : ServerProto D → Conn D → Conn D
  push_to_pending_messages msg c = record c { pending_messages = c.pending_messages ++ (msg ∷ []) }

  unfoldable pub inc_has_been_send_count : Conn D → Conn D
  inc_has_been_send_count c = record c { has_been_sent_num = int64 (c.has_been_sent_num +ℤ pos 1) }

  -- The non-blocking send on `sendQueue`; `none` where it is full.
  unfoldable pub try_enqueue : ServerProto D → Conn D → Option (Conn D)
  try_enqueue msg c =
      if ltb (length c.send_queue) send_queue_size
      then some (record c { send_queue = c.send_queue ++ (msg ∷ []) })
      else none

  -- The message that `AsyncSend` makes of the application's.
  unfoldable pub make_message : D → Conn D → ServerProto D
  make_message content c = set_message_data_type proto_type_proto (
      set_proto_type proto_type_proto (
        set_error_code (pos 0) (
          set_request_id (pos 0) (
            set_message_type 3 (
              set_client_ack c.client_ack
                (set_sender_guid c.player_guid (set_data content (empty_proto content))))))))

  -- `AsyncSend`, here one step: the code locks only inside its parts, so that calls on one connection that
  -- overlap can come between the message and its place in the pending ones, which this does not have.
  unfoldable pub async_send : D → Conn D → Conn D × SendResult
  unfolding push_to_pending_messages inc_has_been_send_count try_enqueue make_message
  async_send content c =
      if c.is_closed
      then (c, closed_error)
      else (let msg = make_message content c in
          let kept = inc_has_been_send_count (push_to_pending_messages msg c) in
          elim (try_enqueue msg kept) [ none ↦ (kept, full_error) | some queued ↦ (queued, sent) ])

  unfoldable pub set_server_ack : ℤ → Conn D → Conn D
  set_server_ack ack c = record c { server_ack = ack }

  unfoldable pub check_server_ack : ℤ → Conn D → Bool
  check_server_ack ack c =
      if ltb_ℤ c.client_ack ack
      then false
      else if ltb_ℤ c.server_ack ack
      then (if ltb_ℤ (pos (length c.pending_messages)) (int64 (ack -ℤ c.server_ack))
          then false
          else true)
      else true

  -- `pendingMessages[needRemoveNum:]`, which panics for an index out of range.
  unfoldable pub slice_from : ℤ → List (ServerProto D) → Run (List (ServerProto D))
  slice_from (negsuc n) messages = panics
  slice_from (pos n) messages =
      if leb n (length messages) then returns (drop n messages) else panics

  unfoldable pub update_server_ack : ℤ → Conn D → Run (Conn D)
  unfolding slice_from
  update_server_ack ack c =
      if leb_ℤ ack c.has_been_sent_num && ltb_ℤ c.server_ack ack
      then (let need_remove_num = int64 (ack -ℤ c.server_ack) in
          if leb_ℤ need_remove_num (pos (length c.pending_messages))
          then (elim (slice_from need_remove_num c.pending_messages) [
            | returns rest ↦ returns (record c { pending_messages = rest; server_ack = ack })
            | panics ↦ panics
            | blocks ↦ blocks
          ])
          else returns c)
      else returns c

  -- The loop over the copied messages: it stops where the queue is full.
  unfoldable pub resend : List (ServerProto D) → Conn D → Conn D
  unfolding try_enqueue
  resend [] c = c
  resend (msg ∷ messages) c = elim (try_enqueue msg c) [
    | none ↦ c
    | some queued ↦ resend messages queued
  ]

  unfoldable pub process_pending_messages : Conn D → Conn D
  unfolding resend
  process_pending_messages c = resend c.pending_messages c

  unfoldable pub clear_pending_messages : Conn D → Conn D
  clear_pending_messages c = record c { pending_messages = [] }

  -- `c.mu.Lock()` and `c.mu.RLock()`, where the goroutine that holds the lock is the one that asks.
  unfoldable pub lock : Conn D → Run (Conn D)
  lock c = if c.mu_held then blocks else returns (record c { mu_held = true })

  unfoldable pub unlock : Conn D → Conn D
  unlock c = record c { mu_held = false }

  unfoldable pub get_remote_addr : Conn D → Run Bool
  get_remote_addr c = if c.mu_held then blocks else returns c.has_conn

  -- `Close`: only the first call cancels the context and closes the socket.
  unfoldable pub close : Conn D → Run (Conn D)
  unfolding lock unlock
  close c =
      if c.is_closed
      then returns c
      else elim (lock (record c { is_closed = true; cancelled = true })) [
        | returns held ↦ returns (unlock (record held { has_conn = false }))
        | panics ↦ panics
        | blocks ↦ blocks
      ]

  -- `SyncSend`, whose write on the socket fails or not: the log line asks for the address, under the
  -- lock of the method.
  unfoldable pub sync_send : Bool → Conn D → Run (Conn D)
  unfolding lock unlock get_remote_addr close
  sync_send write_fails c = elim (lock c) [
    | blocks ↦ blocks
    | panics ↦ panics
    | returns held ↦
        if held.has_conn
        then (if write_fails
            then (elim (get_remote_addr held) [
              | blocks ↦ blocks
              | panics ↦ panics
              | returns _ ↦ elim (close held) [
                | returns closed ↦ returns (unlock closed)
                | panics ↦ panics
                | blocks ↦ blocks
              ]
            ])
            else returns (unlock held))
        else returns (unlock held)
  ]
