-- ===== src/Tests/Reader.antt =====
-- The theorems on the read loop of network/tcp_net/conn.go at concrete streams.
use yaice.Base.{ℕ, ◌≡◌, refl, Bool, true, false, List, [], ◌∷◌, none, arith}
use yaice.Base.Int.{ℤ, pos}
use yaice.Base.Lists.{length, All}
use yaice.Tcp.Conn.{Conn, update_last_activity}
use yaice.Tcp.Packet.{Packet, calls}
use yaice.Tcp.Reader.{Reader, Arrival, peer_closed, read_loop}
use yaice.Tcp.Reader.Framing.{Takes, IsSized, all_framed, advanced, read_loop-all_framed}
use yaice.Tcp.Reader.Sizes.{read_loop-IsSized}
use yaice.Utils.Tool.{returns}

abbrev counting : Packet ℕ
counting = record {
  get_head_len = 4;
  pack = λ m. none;
  unpack = λ m. calls (λ c. returns (record c { client_ack = pos (length m) }));
  heart_beat_pack = λ g. returns [];
  sync_time_pack = λ g. returns [];
  reply_token_pack = λ g a s p. returns [];
}

abbrev seconds : ℕ → ℤ
seconds n = pos n

abbrev always : ℕ → Bool
always n = true

abbrev two_messages : List (List ℕ)
two_messages = (7 ∷ []) ∷ (8 ∷ 9 ∷ []) ∷ []

abbrev fresh : Conn ℕ
fresh = record {
  session_id = pos 3;
  player_guid = pos 0;
  is_closed = false;
  has_conn = true;
  cancelled = false;
  mu_held = false;
  send_queue = [];
  last_activity = pos 0;
  pending_messages = [];
  server_ack = pos 0;
  has_been_sent_num = pos 0;
  client_ack = pos 0;
}

abbrev reading : List Arrival → Reader ℕ
reading wire = record { conn = fresh; wire = wire; ending = peer_closed; rounds = 0; unpacked = [] }

abbrev after_two : Conn ℕ
after_two = record fresh { last_activity = pos 1; client_ack = pos 2 }

two-Takes : Takes counting seconds always 0 two_messages fresh after_two
unfolding update_last_activity
two-Takes = (
  (ground arith, ground arith),
  (refl, refl, refl, refl),
  (
    record fresh { client_ack = pos 1 },
    refl,
    ((ground arith, ground arith), (refl, refl, refl, refl), (after_two, refl, refl)),
  ),
)

read_loop-all_framed_example :
    read_loop counting seconds always 5 (reading (all_framed two_messages []))
    ≡ read_loop counting seconds always 3 (
        advanced counting seconds always two_messages [] after_two
          (reading (all_framed two_messages [])))
read_loop-all_framed_example =
    read_loop-all_framed counting seconds always two_messages 3
      (reading (all_framed two_messages [])) after_two [] refl refl two-Takes

read_loop-IsSized_example :
    All IsSized
      (read_loop counting seconds always 9 (reading (all_framed two_messages []))).0.unpacked
read_loop-IsSized_example =
    read_loop-IsSized counting seconds always 9 (reading (all_framed two_messages [])) tt

-- Another goroutine closes the connection before the third round.
abbrev closed_third : List Bool
closed_third = false ∷ false ∷ true ∷ false ∷ []
