-- ===== src/Lib.antt =====
-- A model of Relayra, which relays HTTP requests between two nodes: a listener, which takes requests
-- from clients and queues them for its peers, and a sender, which fetches them by polling or over a
-- websocket, executes them and sends the results back. What is modelled is the state that the two
-- keep in Redis, what each does with it, and the way a large message travels in chunks.
--
-- The parts, the files that model them, and the code (paths from the repository's root):
--   * Models/Status, Models/Messages, Models/Polling, Models/Peers: the records and enumerations of internal/models. A field is
--     named as in Go, in snake case; a status or a message type that the code does not name is
--     `other` or `unsupported`. Times are seconds since the epoch, with 0 for Go's zero time.
--   * Settings: the numbers of internal/config/config.go that the running node uses, and the
--     lengths of leases (requestLeaseDuration, senderRequestLeaseDuration, senderResultLeaseDuration).
--   * Config: Validate and the transport mode of internal/config/config.go; Config/Valid is about what
--     is accepted.
--   * Text: what is used of Go's strings and strconv.
--   * Errors: the errors that the packages return, and fallible results.
--   * Codec: encoding/json, encoding/base64 and crypto/sha256, a parameter with the law that a text
--     decodes to what was encoded. json.Marshal does not fail on these records.
--   * Redis: the server, a parameter with one law, the documented effect of a command on its key.
--     Redis/Keys has the key prefixes and hash fields of internal/store, Redis/Objects what stands
--     behind a key and the commands, Redis/Actions how the store runs them: each command, pipeline
--     or script is one exchange, and the state holds the outcomes of the exchanges to come. An
--     exchange that is `cut` has an error for its caller, after the server ran some of its
--     commands. Redis/Actions/Always and Calm have the rules for invariants, whatever fails and
--     where nothing fails, Redis/Actions/Triple those for what holds when an action returns, and
--     Redis/Frame what a command on other keys leaves alone.
--   * Transport: internal/transport/chunks.go (RequestChunkAt and its kin); Transport/Bounds and
--     Transport/Cover are about the arithmetic of chunks.
--   * Store/Chunks: internal/store/redis_chunks.go (StoreInboundChunk, StoreInboundResultChunk,
--     receipts and cursors); Store/Chunks/Transfer sends a request from one node to another.
--   * Store/Outbox: internal/store/ws_outbox_redis.go (AppendWSOutbox, ListWSOutbox,
--     AckWSOutboxThrough, ResetWSOutbox and their kin).
--   * Store/Queue and Store/Results: the listener's half of internal/store/queue.go and
--     runtime_redis.go, and results.go (EnqueueRequest, LeaseRequests, ApplyRequestStates,
--     StoreResult and their kin); Store/Queue/Fifo is about which requests are
--     handed out, Store/Queue/Durable and Store/Queue/Loss about what becomes of a queued request.
--   * Store/Sender: the sender's half of the two files (PushResult, LeaseResults, AckResults,
--     RePushResults, the sender's request states); Store/Sender/Pending is about what becomes of a
--     result that waits.
--   * Store/Proxies, Proxy: internal/store/redis_proxy.go and internal/proxy/manager.go (MarkFailed,
--     GetTransport and their kin). net/url and golang.org/x/net/proxy are parameters: whether a URL
--     parses, and whether a transport can be made for it.
--   * Store/Tokens: internal/store/api_tokens.go (StoreAPIToken, ValidateAPIToken, DeleteAPIToken and
--     their kin). ValidateAPIToken is its reads and then its write, two actions.
--   * Store/Peers: internal/store/peers.go (StorePeer, GetPeer, GetPairingToken, StoreListenerInfo and
--     their kin), with keys in hexadecimal and times cut to the second.
--   * Server: readLoop of internal/server/websocket.go, over any handler of a message and any update
--     of the peer's time (touchPeer); Server/Order is about the order of handling. Server/Inbound has
--     the handler, handleInbound, and Server/Handshake the handler of the connection, WebSocket.
--   * Server/Poll, Server/Outbound, Server/Results, Server/Events: internal/server/handlers.go
--     (processPollPayload, nextOutboundPayload, storeSenderResultWS, applySenderResultChunkWS,
--     queueListenerRequestEvent, rebuildListenerWSOutbox and their kin). A webhook that is started is
--     a Delivery of the result.
--   * Server/Api, Server/Auth: the handlers Relay, GetResult, Pair, ListPeers and handlePollMessage of
--     internal/server/handlers.go, from bodies that have been read and parsed, and
--     apiTokenAuthMiddleware of internal/server/middleware.go.
--   * Webhook: Deliver of internal/webhook/delivery.go, over any outcomes of its attempts; a panic is an
--     error that ends it.
--   * Poller: internal/poller. Poller/Incoming is the arrival of a request (handleIncomingRequest) and
--     its execution by a thread (dispatcher.execute, the HTTP request being the result it is given),
--     Poller/Cycle a cycle of polling (doPollCycleHTTP) over any exchange with the listener, which
--     ends in one of the cases of Reply, Poller/Events ws_events.go, and Poller/Session the handling of
--     messages and acknowledgements of a websocket session.
--   * Relay: both nodes, each with its database, and the network between them: a step is a poll that
--     is built, handled, answered or lost, an execution, or a call on the listener's queues. An answer
--     may arrive late, twice or never.
--   * Transport/Outgoing: internal/transport/wsoutbox.go. Transport/Flush: flushOutbox, which
--     internal/server/websocket.go and internal/poller/websocket.go both have, over the rebuilding of
--     an outbox; Server/Inbound and Poller/Session give it theirs.
--   * Execution: ExecuteRequest of internal/relayexec/executor.go, over a client of net/http. The poller
--     and the server are given its result.
--   * Crypto: Decrypt of internal/crypto/encrypt.go, HashSecret and DeriveKey of keys.go; base64, AES-GCM
--     and HKDF are parameters. An int64 is
--     a number below 2 ^ 64 in two's complement.
--   * Tests: a Redis server in memory, concrete encodings, and the theorems at concrete inputs.
-- The parts meet in the database: the server and the poller call the store's operations, so an
-- operation is a function from a state to a result and a state, and a history is a sequence of them.
--
-- Numbers: an index, a total or a size in a chunk comes from the peer, and is an integer that may be
-- negative. Sequence numbers, times and counts are natural numbers, but for the times of a peer and
-- int64 arithmetic that can wrap around (Crypto, nextWebSocketBackoff). No loop needs fuel, as each runs
-- over a list, but for the wait for queued requests, which looks at the queue every quarter of a
-- second, with a round for each look before its deadline, and for flushOutbox, whose rounds end
-- where the outbox has been written: it may be filled while it is written, so it says when they
-- are spent. An error's text leaves out the numbers that the code formats into it. A list that Go
-- returns beside an error is dropped. A value is kept as it was written, where Redis keeps a text;
-- a set is listed in the order in which its members were added.
--
-- Not modelled: the expiry of keys between two calls, so a result's remaining time; SQLite, the second
-- backend; the connection of websocket sessions and the threads that write to them; the timers of the
-- poller; Encrypt and random identifiers; the reading and writing of the configuration file; the speed
-- test, logging, the command line and the terminal interface.
mod Prelude
pub mod Errors
pub mod Execution
pub mod Models
pub mod Redis
pub mod Codec
pub mod Settings
pub mod Config
pub mod Text
pub mod Transport
pub mod Store
pub mod Proxy
pub mod Server
pub mod Poller
pub mod Webhook
pub mod Relay
pub mod Crypto
pub mod Tests
