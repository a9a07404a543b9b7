-- ===== src/Service/Handlers.antt =====
-- service.go: the methods that handle the messages of the network. A connection is known to the TCP
-- server by the pointer that it has under its session id: a change to it is seen there too.
use mathlib.Core.List.{lookup}
use yaice.Base.{Bool, Option, none, some}
use yaice.Base.Tests.{if◌then◌else◌}
use yaice.Base.Int.{ℤ, pos, ℤ_discrete}
use yaice.Base.Assoc.{insert}
use yaice.Core.Protocol.{Token, kick_out_success}
use yaice.Tcp.Conn.{
  Conn, inc_client_ack, update_server_ack, update_last_activity, sync_send, check_server_ack,
  set_server_ack, process_pending_messages, close,
}
use yaice.Tcp.Packet.{Packet}
use yaice.Tcp.Server.{Server, add_conn, get_conn}
use yaice.Utils.Tool.{Run, returns, after_return}

pub data TokenError : Type 0 where
  invalid_token no_server invalid_server ack_mismatch : TokenError

-- What is registered as the TCP server.
pub data NetworkServer (D : Type 0) : Type 0 where
  missing other : NetworkServer D
  tcp_server : Server D → NetworkServer D

-- The connection of a message, and the server.
pub record Session (D : Type 0) : Type 0 where
  pub current : Conn D
  pub server : Server D

module _ {D : Type 0} where
  unfoldable pub handle_logic_message : ℤ → Conn D → Run (Conn D)
  handle_logic_message server_ack conn = update_server_ack server_ack (inc_client_ack conn)

  -- A changed connection, where the server has it.
  unfoldable pub put_back : Conn D → Server D → Server D
  put_back c s = elim (lookup ℤ_discrete c.session_id s.active_conns) [
    | none ↦ s
    | some _ ↦ record s { active_conns = insert ℤ_discrete c.session_id c s.active_conns }
  ]

  unfoldable pub put_current : Conn D → Session D → Session D
  unfolding put_back
  put_current c t = record t { current = c; server = put_back c t.server }

-- The packet of the manager, and whether a write on the socket fails.
module _ {D : Type 0} (pkg : Packet D) (write_fails : Bool) where
  unfoldable pub handle_heart_beat : ℤ → Conn D → Run (Conn D)
  handle_heart_beat now conn =
      let seen = update_last_activity now conn in
      after_return (λ pack. sync_send write_fails seen) (pkg.heart_beat_pack seen.session_id)

  unfoldable pub handle_sync_time : ℤ → Conn D → Run (Conn D)
  handle_sync_time now conn =
      let seen = update_last_activity now conn in
      after_return (λ pack. sync_send write_fails seen) (pkg.sync_time_pack seen.session_id)

  -- The reply of `handleTokenCheck`, with the acknowledgement of a connection, and its sending on one.
  unfoldable pub reply : Conn D → Conn D → Run (Conn D)
  reply current conn =
      after_return (λ pack. sync_send write_fails conn)
        (pkg.reply_token_pack current.session_id conn.client_ack kick_out_success (pos 0))

  -- The branch for a new connection.
  unfoldable pub token_new : Session D → Run (Session D × Option TokenError)
  unfolding reply put_current
  token_new t =
      let added = record t { server = add_conn t.current t.server } in
      after_return (λ c. returns (put_current c added, none)) (reply t.current t.current)

  -- The branch for the connection that is registered under the guid of the token, where that is another
  -- one than the message's.
  unfoldable pub token_old : ℤ → Conn D → Session D → Run (Session D × Option TokenError)
  unfolding reply put_current put_back
  token_old server_ack conn t =
      if check_server_ack server_ack conn
      then after_return
          (λ current.
            let resent = process_pending_messages (set_server_ack server_ack conn) in
            after_return
              (λ c. returns (put_current current (record t { server = put_back c t.server }), none))
              (reply current resent))
          (update_server_ack server_ack t.current)
      else after_return
          (λ c. returns (record t { server = put_back c t.server }, some ack_mismatch)) (close conn)

  -- The same branch where it is the connection of the message.
  unfoldable pub token_same : ℤ → Session D → Run (Session D × Option TokenError)
  unfolding reply put_current
  token_same server_ack t =
      if check_server_ack server_ack t.current
      then after_return
          (λ current.
            let resent = process_pending_messages (set_server_ack server_ack current) in
            after_return (λ c. returns (put_current c t, none)) (reply resent resent))
          (update_server_ack server_ack t.current)
      else after_return (λ c. returns (put_current c t, some ack_mismatch)) (close t.current)

  unfoldable pub token_found :
      ℤ → ℤ → Option (Conn D) → Session D → Run (Session D × Option TokenError)
  unfolding token_new token_old token_same
  token_found guid server_ack none t = token_new t
  token_found guid server_ack (some conn) t = elim (ℤ_discrete guid t.current.session_id) [
    | yes _ ↦ token_same server_ack t
    | no _ ↦ token_old server_ack conn t
  ]

  -- `handleTokenCheck` with the data of the message, `none` where it is no token, on a session whose server is
  -- the one registered.
  unfoldable pub handle_token_check :
      Option Token
      → ℤ
      → NetworkServer D
      → Conn D
      → Run (NetworkServer D × Conn D × Option TokenError)
  unfolding token_found
  handle_token_check none server_ack server current = returns (server, current, some invalid_token)
  handle_token_check (some token) server_ack missing current =
      returns (missing, current, some no_server)
  handle_token_check (some token) server_ack other current =
      returns (other, current, some invalid_server)
  handle_token_check (some token) server_ack (tcp_server s) current =
      after_return (λ r. returns (tcp_server r.0.server, r.0.current, r.1))
        (token_found token.guid server_ack (get_conn token.guid s)
          (record { current = current; server = s }))
