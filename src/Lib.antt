-- ===== src/Lib.antt =====
-- A group chat backend: users talk in rooms over WebSockets, or post over HTTP; every node keeps the
-- newest messages in memory for the feed, writes them to MongoDB in batches, and tells the other nodes
-- about them ("gossip"). This library models the Python code of a node.
--
-- The parts, with the files that model them:
--   Python, Python/Text   what the code uses of Python: parsed JSON, truth, `str`, `int`, hashing, `strip`
--   Result, Host, Net     exceptions; what surrounds a node; the frames on their way to the clients
--   Config                server/config.py: the settings, the list settings (Lists), the file .env (Env)
--                         and the import (Load)
--   Crypto                server/crypto.py: the master key, the senders' keys (Keys), the encryption and
--                         the signatures (Messages)
--   Ring, Batch           a deque with a bound, and a loop that gathers a batch from a queue
--   Store                 server/store.py: the message cache and the feed (Cache), the key caches and
--                         the history (Defs), append_message (Append), the batch writer (Writer)
--   Gossip                server/gossip.py: the peers, their queues and the workers' batches, the start and
--                         the end of the links to the peers (Links)
--   Rooms                 server/rooms.py: RoomManager and _safe_send
--   Server                server/ws_server.py: names (Names), the clients and the ways to send (Defs),
--                         the handlers (Handlers, RoomHandlers), connections, the presence sweep and the
--                         shutdown (Session)
--   App                   app.py: POST /message, POST /internal/gossip and GET /feed (Defs, Routes), and
--                         /metrics, /ws and the static files (Files), the life cycle of the process
--                         (Lifespan)
--   Node                  the tasks in the background (Defs), the steps and the runs of a node (Steps, Runs,
--                         Start), and a posted message's way to the members, the document and the
--                         peers (Accepted, Typed, Durable, Unstored, Spread), a frame's way (Said,
--                         Direct), what the workers post at a peer (Circulation, Welcome, Batches,
--                         Delivery), the process before the runs (Lifespan), and the end of the batch writer (Ending)
--   LoadGenerator         load_generator/load_gen.py: the messages, the requests, the measures, the
--                         reports, and a run of many users (Run, Users)
--   Tamper                tamper_last.py
--   ClearDb               clear_db.py: the databases that it empties
--   Tests                 examples
-- In the proofs' modules, Store/Sealed is about the stored documents, Store/Visible about the feed's
-- contents and the signing keys, and the children of Server/Session about the registry of names, the
-- moderation and the rooms that clients are in (Placement, Joining, JoinFrame, SwitchFrame, and for the
-- steps that leave them alone Seats, Quiet, Sound, Rounds), the changes of the room (Moves), the shutdown
-- (Closing) and private messages (Private). The bounds of what a node holds in memory are in
-- Store/Limits, Rooms/Bounds, Gossip/Origin, Server/Limits and Node/Limits, one handler after the other.
--
-- A handler of ws_server.py calls the rooms, the store and the gossip; a route of app.py does the same,
-- and a gossip request reaches the store and the rooms only. The state of a node is the record `Server`,
-- passed from step to step; Python's client dictionaries are found by their ids, so that a change is
-- seen everywhere. The two `await`s at which other connections run in the middle of a handler, those
-- that load a history, split `handle_join` and `handle_switch_room` in two functions each. What
-- `asyncio.create_task` starts is a list of tasks. A run of a node (Node/Steps) is any sequence of these
-- functions, of the connections' senders, the pool, the peers' workers, the batch writer and the cache's
-- warm-up, and of the start and the end of the gossip. The batch writer is a machine with an event for
-- each stretch between two `await`s, and runs are lists of events in any order. An insertion into the
-- database that a thread runs when its task is cancelled finishes, and one that waits for a thread is
-- lost.
--
-- Numbers are unbounded as in Python, times are milliseconds, texts are lists of code points, and a
-- dictionary is an association list in the order of insertion. Fuel: `unique_from` gets one try
-- more than there are names taken, and the loop of `random_message` as many rounds as its target, which
-- is enough for both. The number of rounds of a batch loop, which the clock ends, is an argument, so that
-- the theorems hold for every number of rounds.
--
-- Parameters, with the laws that they are used with: the encryption, the signatures and the hexadecimal
-- codec (`CryptoLaws`: the encryption for keys of 16, 24 or 32 bytes, UTF-8 for texts that can be
-- encoded, which those with a lone surrogate cannot), `str` of integers and `lower` (`NameLaws`), JSON serialization, the Unicode
-- tables, the choices of `random`, and what the database returns. A request from a node to a peer
-- carries JSON, and the peer parses the value that was sent.
--
-- Not modelled: MongoDB itself, sockets and HTTP, the parsing of requests (a body is a parsed object),
-- the logger, the load balancer in Go, the browser client, the figures and files of the load generator,
-- its command line, the plots and test_integration.py, the order of the steps at the end of a process with
-- what the pool does between its awaits, and the encoding of a response.
pub mod App
pub mod Batch
pub mod ClearDb
pub mod Config
pub mod Crypto
pub mod Gossip
pub mod Host
pub mod LoadGenerator
pub mod Net
pub mod Node
pub mod Prelude
pub mod Python
pub mod Result
pub mod Ring
pub mod Rooms
pub mod Server
pub mod Store
pub mod Tamper
pub mod Tests
