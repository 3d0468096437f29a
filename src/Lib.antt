-- ===== src/Lib.antt =====
-- A chat over TCP: a server that broadcasts what its clients send, and a client for the terminal.
--
-- The crate chat-core has the messages and how they travel. A message is encoded by bincode and
-- framed by its length in four bytes; chat-core/src/transport_layer.rs reads and writes frames on
-- the halves of a socket; chat-core/src/message_cahce.rs keeps encoded frames by the hash of their
-- payload. In the crate chat-server, chat-server/src/server.rs accepts connections, as many as it has
-- permits for, and starts a handler for each. The handler (chat-server/src/client_handler.rs) lets
-- the client join under a free name, registers it with the pool (chat-server/src/broadcast_pool.rs),
-- and broadcasts what it sends. For every name the pool starts a dispatcher
-- (chat-server/src/broadcast.rs), a task that forwards the broadcast channel to that client. The
-- crate chat-client joins, asks for another name where one is taken, and then runs a loop over
-- signals, the server and the terminal.
--
-- The files:
-- - Common and its children: numbers, lists, results, texts as UTF-8 bytes, and hash maps.
-- - Core/Error, Core/Utils, Core/Message, Core/MessageCache, Core/Protocol, Core/Transport: the files
--   error.rs, utils.rs, protocol.rs, message_cahce.rs and transport_layer.rs under chat-core/src.
--   Core/Bincode and Core/Stream are the interfaces of bincode and of tokio's sockets.
-- - Server/Dispatcher, Server/Forwarder, Server/Pool, Server/Session, Server/Run, Server/Service,
--   Server/Main: broadcast.rs (twice), broadcast_pool.rs, client_handler.rs, server.rs (twice) and
--   main.rs under chat-server/src. Server/Live is all of broadcast.rs, broadcast_pool.rs,
--   client_handler.rs and server.rs at once. Server/Runtime is the interface of tokio's broadcast
--   channel and of its tasks, and Server/ChatRoom is what the server promises.
-- - Client/Usernames, Client/Messages, Client/Commands, Client/Join, Client/Run, Client/Main:
--   username_handler.rs, message_handler.rs, client.rs and main.rs under chat-client/src.
-- - System: the two programs together, a message on its way down to a screen (System/Delivery), a
--   command on its way up to the pool (System/Arrival), joining (System/Handshake), a whole server
--   with one of its clients (System/Room), and a living server with all of them (System/Screens and
--   System/Settling).
-- - Tests: concrete instances of the interfaces, every theorem at one input, and unit tests.
-- A function has its name in the source; the parts of a long one have names of their own. The
-- children of a file have its theorems.
--
-- How the state is modelled. A function that uses a half of a socket, a buffer, the cache or the
-- pool takes it and returns it beside its result; an error is a value of `Result`. A handler is a
-- state machine, `Session`, each of whose steps reads its own stream, or makes one call of the
-- pool, or does the one and then the other. The executor has several threads; a schedule of such
-- steps stands for what they do, as the calls of the map, of the channel and of `abort` that belong
-- to one call of the pool are taken together (`create_dispatcher` subscribes, spawns and inserts).
-- Server/Service runs the accept loop and all handlers that it has spawned over one pool: its
-- events are the branches of the loop's `select!` and single turns of handlers, in any order;
-- Server/Run is the same loop with the handlers only counted. Server/Main adds the program's
-- `main`: the socket, the signal and the select between the signal and the server's task. A
-- dispatcher, the server's loop and the client's loop are functions of what they meet, as a list of
-- events. Server/Forwarder is the dispatcher as a state machine, which waits before its first turn,
-- for the channel, for the cache's lock before `get` and before `put`, and for its socket;
-- Server/Live runs the loop, the handlers and these tasks in any order, over one pool, one channel
-- and one cache. `abort` only tells a task to stop: it may have more turns, until the executor
-- cancels it, which is an event of its own and comes while the task waits. That a task was told to
-- stop is what the pool's theorems say of it, not that it has ended; and a task may have returned
-- by itself, after a write that failed, while the pool holds its name. A read of the client's loop
-- gives 4096 bytes at most.
--
-- Integers. A byte is a number. The length of a payload is cut to 32 bits as the source does; the
-- counter of attempts is a u8 and wraps; a hash is below 2^64 by the hasher's law. The read buffers
-- have 4096 bytes and never shrink, so that the slice for the length prefix is always in range.
--
-- Fuel. `join_with_retry` runs on fuel, and `new` gives it three rounds, the limit of the code;
-- `decimal` has fuel for more digits than a number has. All else recurs on lists.
--
-- Assumptions are fields of named records: `IsLawful` (bincode decodes what it encoded), `IsReader`,
-- `IsPrompt` and `IsWriter` (sockets; `IsPrompt`, that a read gives all that is asked for when it is
-- there, is not promised by the operating system and stands only where a theorem names it),
-- `IsStdHash` (the hasher, and an iterator's first key), `IsRuntime` (the channel and the tasks), and
-- `IsReceiving` (a receiver gets the messages in order, and lags only beyond the capacity). `IsReady`
-- and `IsReliable` (a receiver that is behind gets something, and writes succeed) stand only where a
-- theorem says that something happens in the end.
--
-- Not modelled: logging and the lines printed for the user's comfort, except the last line of the
-- server's `main`; the parsing of the command line; panics, except for that of the server's task,
-- which its `main` logs; the locks of the cache and of the map, except for where a dispatcher waits
-- for the former and for the removal within an iteration in `shutdown`.
pub mod Common
pub mod Core
pub mod Server
pub mod Client
pub mod System
pub mod Tests
