-- ===== src/Lib.antt =====
-- Verification of yaice, a game server framework in Go.
--
-- The program is a service (service.go) that starts a queue of messages, a network and a database, and
-- stops them. The network (network/manager.go) listens for TCP and HTTP clients. A connection reads
-- messages off its socket (network/tcp_net) and puts them on one global queue (core/global_mq.go), whose
-- workers look the player up in an LRU cache (cache/cache_mgr.go) and call the handler of the message.
-- Replies go through a connection, which keeps them until the client has acknowledged them. Changes of
-- players are written in batches, one executor for each shard (database). The parts share the
-- configuration (config/config.go) and the helpers of utils.
--
-- Files:
--   Base and its children: lists and tests over the native numbers, signed integers with their
--   wrap-around (Base.Int), bits, and Go maps as association lists (Base.Assoc).
--   Cache: cache/cache_mgr.go. `LruCache` is LRUCache, each function is the method of its name; the map
--   is an association list and the usage list a list of keys, the newest first.
--   Config: config/config.go. A nil pointer is `none`, and `validate` returns the configuration as
--   validation leaves it, with the outcome.
--   Core.GlobalMq: core/global_mq.go and core/message.go. A turn of a worker is `worker_turn`.
--   Core.Guid: core/guid.go, with the answer of the allocator service as an input.
--   Core.Protocol: the messages of core/protocol_data.go and the constants of core/connection.go.
--   Database.Executor: the executor of a shard in database/shard_manager.go, with database/event.go; what
--   happens to it is a list of `Action`.
--   Database.Shards: the shard and collection managers of database/shard_manager.go.
--   Database.Indexes: the indexes that they ask of the database.
--   Database.Manager: database/manager.go, over the answers of the driver.
--   Http: network/http_net/server.go, the server and its routes; Http.Middleware: the handlers around a
--   request and the wrapper of its writer; Http.Answers: the answers and the way of a request to them;
--   Http.Tls: the choice of TLS.
--   Logger: logger/log.go, over the libraries' order of levels.
--   Network: network/manager.go, over the interface of a server; Network.Servers: the check of the
--   connections of its TCP and HTTP servers at a tick of the frame timer.
--   Service: service.go, over the interface of its managers (`Managers`), which Service.Parts fills with
--   the models of network/manager.go and database/manager.go. Service.Handlers: the built-in messages.
--   Service.Monitor: the monitoring goroutine, among the other calls on the cache.
--   Service.Traffic: the logic messages of all clients from the queue to the replies. It puts the worker
--   of core/global_mq.go, the cache, the handler of service.go and the connections together; what
--   happens is a list of `TrafficEvent`, and what was done to each connection is the list `changes`.
--   Tcp.Conn and Tcp.Writer: network/tcp_net/conn.go, the methods and the write loop.
--   Tcp.Packet: core/packate.go and network/tcp_net/packates.go.
--   Tcp.Reader: network/tcp_net/conn.go, the read loop over a list of what arrives on the socket.
--   Tcp.Server: network/tcp_net/server.go, the ports, the registry of connections and its
--   clean-up (Tcp.Expiry says what CheckConns leaves); Tcp.Listener: its accept loop and Close, over a
--   list of what happens at the socket.
--   Utils: utils/tool.go (Bytes, Tool, Proto, Files, Gid), utils/crc.go (Crc) and utils/snowflake.go
--   (Snowflake; Snowflake.Instance is the one worker of the process).
--   Tests: the theorems at concrete inputs.
--
-- Each call is a function of the state and one step, and an order of calls is a list of calls. This is
-- the code's behaviour where a method holds its lock, and elsewhere only for calls that do not overlap:
-- `AsyncSend` locks in its parts, and a turn of a worker (`worker_turn`) receives and handles a message
-- in one step, so that the theorem on traffic is for one worker. The queues of messages are buffered, with
-- a capacity of at least 1. `read_loop` is the read loop while no other goroutine closes its
-- connection, `read_loop_beside` the one among goroutines that do. `accept_loop` is the accept loop with
-- its goroutines, `server_turns` the one among token checks and CheckConns. A service may have no network
-- part in its configuration, and the start of the network may panic. A call that panics or waits for ever
-- is a value of
-- `Utils.Tool.Run`. Clocks are inputs: the readings that a call makes, in their order.
--
-- Fuel: the loop of `CheckCRCCodeRight` takes one round more than the buffer has bytes, and
-- `convertToBin` more rounds than the number. The wait for the next millisecond takes the readings of
-- the clock. The read loop takes a number of rounds: a stream of messages needs one for each message, and
-- one that goes round for ever has no number that is enough. The other loops are by recursion on their
-- list.
--
-- Not modelled: sockets, files, protobuf, the driver of the database, the multiplexer and the TLS of the Go
-- library and the formats of the logging library beyond what they answer; handlers of the application
-- and the packet of a connection, which are parameters; the queries of a shard manager, which hand
-- their arguments to the driver; the calls of the logger in the other parts.
pub mod Base
pub mod Cache
pub mod Config
pub mod Core
pub mod Database
pub mod Http
pub mod Logger
pub mod Network
pub mod Service
pub mod Tcp
pub mod Tests
pub mod Utils
