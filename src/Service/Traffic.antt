-- ===== src/Service/Traffic.antt =====
-- service.go, core/global_mq.go and network/tcp_net/conn.go together: the logic messages of all clients,
-- from the queue through a worker to the handlers and the replies. A connection is known by the name of
-- its pointer, and what the handlers of the application send is a parameter.
pub mod Delivery
pub mod Calls
pub mod Acks
pub mod Answers
pub mod Order
use yaice.Base.{ℕ, suc, Bool, true, false, List, [], ◌∷◌, ◌++◌, Option, none, some, ite}
use yaice.Base.Tests.{if◌then◌else◌}
use yaice.Base.Int.{ℤ, ℤ_discrete}
use yaice.Cache.{LruCache}
use yaice.Core.Protocol.{ServerProto, logic}
use yaice.Core.GlobalMq.{
  GlobalMessage, GlobalMq, Call, event_call, logic_call, Turn, goes_on, ends, recovers, receive,
  send_to_global_queue, worker_turn,
}
use yaice.Service.Handlers.{handle_logic_message}
use yaice.Tcp.Conn.{Conn, async_send, make_message}
use yaice.Utils.Tool.{Run, returns, panics, blocks}

-- What is done to a connection: it is given a message for its client, or its client acknowledges some.
pub data Change (D : Type 0) : Type 0 where
  given : ServerProto D → Change D
  acked : ℤ → Change D

-- `changes` has what was done so far, the first one first, and `lost` counts the goroutines that ended by
-- a panic or wait for ever.
pub record Traffic (D V : Type 0) : Type 0 where
  pub conns : ℤ → Conn D
  pub mq : GlobalMq ℤ V
  pub entities : LruCache V
  pub changes : List (ℤ × Change D)
  pub lost : ℕ

-- What happens: a logic message reaches the queue, with its connection, content, acknowledgement and
-- number; the worker takes one and handles it, with the readings of its clock; the application sends to
-- a connection. That the receive and the handling are one step is right for one worker only.
pub data TrafficEvent (D : Type 0) : Type 0 where
  arrives : ℤ → Option (List ℕ) → ℤ → ℤ → TrafficEvent D
  works : ℕ → ℕ → TrafficEvent D
  pushes : ℤ → D → TrafficEvent D

module _ {D V : Type 0} where
  abbrev pub set_conn : ℤ → Conn D → Traffic D V → Traffic D V
  set_conn k c t = record t { conns = λ j. ite (ℤ_discrete j k) c (t.conns j) }

  abbrev pub note : ℤ → Change D → Traffic D V → Traffic D V
  note k change t = record t { changes = t.changes ++ ((k, change) ∷ []) }

  abbrev pub lose : Traffic D V → Traffic D V
  lose t = record t { lost = suc t.lost }

  -- `AsyncSend` on a connection, which keeps what it is given if it is open.
  unfoldable pub push : ℤ → D → Traffic D V → Traffic D V
  push k content t =
      let c = t.conns k in
      let sent = set_conn k (async_send content c).0 t in
      if c.is_closed then sent else note k (given (make_message content c)) sent

  unfoldable pub push_all : ℤ → List D → Traffic D V → Traffic D V
  unfolding push
  push_all k [] t = t
  push_all k (content ∷ contents) t = push_all k contents (push k content t)

  pub after_logic : ℤ → ℤ → Run (Conn D) → Traffic D V → Traffic D V
  after_logic k ack (returns c) t = note k (acked ack) (set_conn k c t)
  after_logic k ack panics t = lose t
  after_logic k ack blocks t = lose t

  -- `SendToGlobalQueue` with a logic message.
  pub after_send : Run (GlobalMq ℤ V × Bool) → Traffic D V → Traffic D V
  after_send (returns r) t = record t { mq = r.0 }
  after_send panics t = lose t
  after_send blocks t = lose t

-- What the handler of a number sends to its connection, of the entity of the player and the content.
module _ {D V : Type 0} (replies : ℤ → V → List ℕ → List D) where
  -- `handleLogicMessage` on the connection of the message, which is dereferenced, or the handler of its
  -- number.
  unfoldable pub perform : Call ℤ V → Traffic D V → Traffic D V
  unfolding after_logic push_all
  perform (event_call msg) t = elim msg.connection [
    | none ↦ lose t
    | some k ↦ after_logic k msg.server_ack (handle_logic_message msg.server_ack (t.conns k)) t
  ]
  perform (logic_call id k entity content) t = push_all k (replies id entity content) t

  unfoldable pub perform_all : List (Call ℤ V) → Traffic D V → Traffic D V
  unfolding perform
  perform_all [] t = t
  perform_all (call ∷ calls) t = perform_all calls (perform call t)

  unfoldable pub after_turn : Option (Turn ℤ V) → Traffic D V → Traffic D V
  unfolding perform_all
  after_turn none t = t
  after_turn (some (goes_on h)) t =
      perform_all h.calls (record t { mq = h.mq; entities = h.entities })
  after_turn (some ends) t = t
  after_turn (some recovers) t = lose t

  unfoldable pub happen : TrafficEvent D → Traffic D V → Traffic D V
  unfolding after_turn after_send push
  happen (arrives k content ack id) t =
      after_send (send_to_global_queue k content ack id logic t.mq) t
  happen (works now later) t =
      after_turn (worker_turn (λ k. (t.conns k).player_guid) receive now later t.mq t.entities) t
  happen (pushes k content) t = push k content t

  unfoldable pub happen_all : List (TrafficEvent D) → Traffic D V → Traffic D V
  unfolding happen
  happen_all [] t = t
  happen_all (e ∷ events) t = happen_all events (happen e t)
