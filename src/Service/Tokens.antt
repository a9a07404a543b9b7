-- ===== src/Service/Tokens.antt =====
-- service.go: what a logic message acknowledges, and which connection is known after the check of a token.
use yaice.Base.{ℕ, ◌≡◌, ◌≢◌, ap, ◌∙◌, false, List, Option, none, some, arith, ite, inl, inr}
use yaice.Base.Tests.{Bool-cases}
use yaice.Base.Lists.{length}
use yaice.Base.Int.{ℤ, pos, ℤ_discrete}
use yaice.Base.Assoc.{lookup-insert, lookup-insert_self}
use yaice.Core.Protocol.{ServerProto, Token, kick_out_success}
use yaice.Tcp.Conn.{Conn, inc_client_ack, sync_send, lock, unlock}
use yaice.Tcp.Conn.Delivery.{Tracks, acknowledge, update_server_ack-Tracks}
use yaice.Tcp.Packet.{Packet}
use yaice.Tcp.Server.{Server, add_conn, get_conn}
use yaice.Service.Handlers.{
  Session, NetworkServer, tcp_server, TokenError, handle_logic_message, put_back, put_current,
  reply, token_new, token_found, handle_token_check,
}
use yaice.Utils.Tool.{Run, returns, after_return}

module _ {D : Type 0} where
  -- A logic message on a connection that keeps the messages of h from the nth leaves, where it
  -- acknowledges k of them, exactly those from the kth, and returns; any other acknowledgement drops none.
  pub handle_logic_message-Tracks :
      (ack : ℤ) (c : Conn D) (h : List (ServerProto D)) (n : ℕ)
      → Tracks h n c
      → (c' : Conn D) × (handle_logic_message ack c ≡ returns c')
        × Tracks h (acknowledge ack n (length h)) c'
  unfolding handle_logic_message inc_client_ack
  handle_logic_message-Tracks ack c h n t =
      update_server_ack-Tracks ack (inc_client_ack c) h n (record {
        acknowledged = t.acknowledged;
        small = t.small;
        pending = t.pending;
        ack = t.ack;
        count = t.count;
      })

  -- What the lookup finds after a connection is put back.
  put_back-lookup :
      (c : Conn D) (s : Server D) (k : ℤ)
      → k ≢ c.session_id
      → get_conn k (put_back c s) ≡ get_conn k s
  unfolding put_back get_conn
  put_back-lookup c s k apart =
      ground (arith, lookup-insert ℤ_discrete k c.session_id c s.active_conns)

  put_back_self :
      (c d : Conn D) (s : Server D)
      → get_conn c.session_id s ≡ some d
      → get_conn c.session_id (put_back c s) ≡ some c
  unfolding put_back get_conn
  put_back_self c d s there =
      ground (arith, lookup-insert_self ℤ_discrete c.session_id c s.active_conns)

module _ {D : Type 0} (pkg : Packet D) where
  reply-returns :
      (current conn : Conn D) (pack : List ℕ)
      → conn.mu_held ≡ false
      → pkg.reply_token_pack current.session_id conn.client_ack kick_out_success (pos 0)
        ≡ returns pack
      → reply pkg false current conn ≡ returns conn
  unfolding reply sync_send lock unlock
  reply-returns current conn pack free packed =
      ap (after_return (λ (p : List ℕ). sync_send false conn)) packed ∙ sent
    where
      sent : sync_send false conn ≡ returns conn
      sent = elim (Bool-cases conn.has_conn) [ inl on ↦ ground arith | inr off ↦ ground arith ]

  -- The check of a token whose guid is not the session id of the message's connection, and under which no
  -- connection is registered, registers that connection under its session id only: the guid of the token
  -- still finds none, so no later check of it finds the connection.
  pub handle_token_check-new :
      (token : Token) (ack : ℤ) (s : Server D) (c : Conn D) (pack : List ℕ)
      → token.guid ≢ c.session_id
      → get_conn token.guid s ≡ none
      → c.mu_held ≡ false
      → pkg.reply_token_pack c.session_id c.client_ack kick_out_success (pos 0) ≡ returns pack
      → (s' : Server D) × (handle_token_check pkg false (some token) ack (tcp_server s) c
          ≡ returns (tcp_server s', c, none))
        × (get_conn c.session_id s' ≡ some c)
        × (get_conn token.guid s' ≡ none)
  unfolding handle_token_check token_found token_new put_current add_conn get_conn
  handle_token_check-new token ack s c pack apart absent free packed =
      let t : Session D = record { current = c; server = s } in
      let added : Session D = record { current = c; server = add_conn c s } in
      let out : Session D × Option TokenError → Run (NetworkServer D × Conn D × Option TokenError) =
        λ r. returns (tcp_server r.0.server, r.0.current, r.1) in
      (
        put_back c (add_conn c s),
        ap (λ o. after_return out (token_found pkg false token.guid ack o t)) absent
            ∙ ap (λ x. after_return out (after_return (λ d. returns (put_current d added, none)) x))
                (reply-returns c c pack free packed),
        put_back_self c c (add_conn c s) (added_lem c.session_id ∙ ground arith),
        put_back-lookup c (add_conn c s) token.guid apart ∙ added_lem token.guid ∙ ground arith,
      )
    where
      added_lem :
          (k : ℤ)
          → get_conn k (add_conn c s) ≡ ite (ℤ_discrete k c.session_id) (some c) (get_conn k s)
      added_lem k = lookup-insert ℤ_discrete k c.session_id c s.active_conns
