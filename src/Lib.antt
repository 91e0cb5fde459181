-- ===== src/Lib.antt =====
-- Verification of R-Type: the network library rtnt, the entity component system rtecs
-- and the lobby manager of the game server.
--
-- The program. R-Type is a networked game in C++. Its library lib/rtnt gives server and client a
-- reliable protocol over UDP: `Packet` (include/rtnt/core/packet.hpp) is a buffer with stream
-- operators, `Header` is what stands before every payload, and `Session` (src/core/session.cpp) keeps
-- the state of one connection. A datagram goes through `Session::handleIncoming`: the header is parsed,
-- packets that the peer acknowledges leave the retransmissions, duplicates are dropped and queued for a
-- rich ACK, and the payload is handed on, in order if its flag says so. `Session::send` numbers a packet
-- and keeps it until it is acknowledged, and `Session::update` sends it again when its time is up.
-- `Server` (src/core/server.cpp) keeps a session per endpoint and `Client` (src/core/client.cpp) one with
-- its server; `onReceive` runs on the thread of the sockets and pushes events, which `update` processes
-- on the main thread through a `Dispatcher`, the table of handlers by packet ID.
-- The library lib/rtecs is the entity component system under the game; a `SparseSet` holds the
-- components of one type by entity, and a `DynamicBitSet` is the set of the components of one entity.
-- `ECS` keeps a mask per entity, a set per registered component, and hands out the IDs of both.
-- The game server keeps its lobbies in a `lobby::Manager`, which knows the lobby of each session.
--
-- Files.
--   Base, Base/*: Boolean tests, lists, bits of words and maps over the native numbers.
--   Wire/Endian: `endian::swap`, with the byte order of the host as a parameter.
--   Wire/Packet: `Packet` and its operators, over a result that is a value or an exception, both with
--     the packet that is left.
--   Wire/Codec, Wire/Sequence: the interface of a type with its two operators, and its instances.
--   Wire/RoundTrip: what a reader gets of what a writer wrote.
--   Wire/Header: `Header`, `Header::parse`, the writing of a header in `Session::rawSend`.
--   Wire/Framing: what a receiver makes of a header and a payload.
--   Session/Window: `updateAcknowledgeInfo` and `isDuplicate`, over the four fields they read.
--   Session/Received, Session/Invariant, Session/History, Session/WideShift: their theorems.
--   Session/State: the fields of `Session`, its counters and `_updateRtt`.
--   Session/Outgoing: `send`, `rawSend`, `_internal_sendAck`, `update`, `disconnect`.
--   Session/Reorder, Session/Order: the reorder buffer of a channel, and what it delivers.
--   Session/Incoming: `handleIncoming` and `checkForOldPackets`.
--   Session/Acked: which sent packets an acknowledgement takes out.
--   Session/Once, Session/Run: one datagram, and a run of datagrams.
--   Session/Kept: what an acknowledgement leaves as it was.
--   Session/Delivery, Session/Numbering, Session/Resend: `send` as the peer sees it, its counters, and
--     what `update` leaves to retransmit.
--   Session/SentAgain: the datagrams of the packets that `update` sends again.
--   Session/RichRead, Session/AckBytes, Session/RichAck: what the peer reads of an acknowledgement.
--   Peer/Queue, Peer/Store: include/rtnt/common/thread_safe_queue.hpp, and the sessions that are shared
--     by pointers.
--   Peer/Dispatcher, Peer/Packets, Peer/Internal: core/dispatcher.hpp, the packets of the handshake and
--     their handlers; Peer/Keeps, Peer/Binding: what dispatching keeps, and what bindings leave in place.
--   Peer/Server, Peer/Handlers, Peer/Serving: src/core/server.cpp; Peer/Stable, Peer/Valid, Peer/Sweep, Peer/Expiry,
--     Peer/ServerRun, Peer/Isolation, Peer/EventOrder: its theorems.
--   Peer/Client, Peer/Connecting: src/core/client.cpp; Peer/ClientStable, Peer/ClientRun, Peer/GiveUp,
--     Peer/LateAnswer: its theorems.
--   Peer/Handshake, Peer/Joining, Peer/Connected: client and server together.
--   Sparse/Pages, Sparse/Dense, Sparse/Set: the component storage of lib/rtecs,
--     include/rtecs/sparse/set/SparseSet.hpp; Sparse/Links, Sparse/Contents, Sparse/Removal,
--     Sparse/Refines: its invariant, and that it is a finite map.
--   Sparse/View, Sparse/Erase, Sparse/Views: include/rtecs/sparse/view/SparseView.hpp.
--   Sparse/Group: include/rtecs/sparse/group/SparseGroup.hpp, without `apply`; Sparse/Filled,
--     Sparse/Members: what it collects; Sparse/Has: `has` and `get` of a set.
--   BitSet/Blocks: lib/rtecs/src/bitset/DynamicBitSet.cpp; BitSet/Test, BitSet/Operators,
--     BitSet/Equality, BitSet/Shift, BitSet/ShiftRight, BitSet/Serialize: what its operations do to
--     the indices; BitSet/Emptiness: `none`.
--   Ecs/Registry: `ECS` of lib/rtecs/include/rtecs/ECS.hpp and src/ECS.cpp, without its
--     systems. Ecs/MaskIndex, Ecs/Valid: its invariant; Ecs/Insert, Ecs/Masks, Ecs/Create, Ecs/Fresh,
--     Ecs/Register, Ecs/Change, Ecs/Destroy: that each operation keeps it; Ecs/Run,
--     Ecs/Agreement, Ecs/Given, Ecs/Registered: runs from the constructor on.
--   Lobby/Room, Lobby/Manager: `lobby::Manager` of Server/src/lobby/lobby_manager.cpp, over what it sees
--     of the lobbies of Server/src/lobby/lobby.cpp; Lobby/Cleaning, Lobby/Paging, Lobby/Joining: its
--     theorems.
--   Tests/*: runs on concrete inputs.
--
-- Correspondence. A function of the source keeps its name in this spelling: `rawSend` is `raw_send`. A
-- method is a function from the old state to the new one, with the value that it returns. What is
-- handed to the send function of a session is appended to the field `transmitted`. Words are native
-- numbers with the wrap-around written out; times are nanoseconds, and the clock is read once per
-- operation. A `std::map` is an association list in key order, and so is a
-- `std::unordered_map`, whose walk is then one of those that the source may see.
--
-- A `std::shared_ptr<Session>` is an address in a store. A closure in an event queue is data that says
-- what it does. The application is a parameter: a callback reads its own state and the session it is
-- given, and answers with calls of the library, which are performed at once. A callback returns: one
-- that throws, and with it leaves `_processEvents` and `update`, is not modelled, but a handler of a
-- binding may throw, which ends in the dispatcher. An operation of the server
-- or the client runs from start to end; datagrams arrive between two operations.
--
-- Loops and fuel. `Server::_processEvents` pushes no event, so the length of the queue is fuel enough. In
-- a client a callback may disconnect, which pushes an event; how many events an update processes is its
-- argument, the rest stays in the queue, and no theorem asks for more than the events that it names.
-- The loop over the reorder buffer takes an entry out in each round, so the number of
-- entries is fuel enough; the loop that sends rich ACKs sends an ID at least in each round, so the
-- number of pending IDs is. The other loops recurse on a list or on the 32 bits of a word.
--
-- Undefined behaviour. `_remoteAcknowledgeBitfield <<= shift` runs with a shift of 32. What the
-- hardware makes of it is a parameter `wide` of the model, and the theorems say what they ask of it.
-- `DynamicBitSet::deserialize` and `decrease` yield no set where the source leaves the vector,
-- and the manager yields none where it would follow a pointer to a lobby that is gone.
--
-- Not modelled. Logging, mutexes (an operation holds the lock from start to end), the sockets, the
-- recorder, the systems of rtecs, what a lobby does on its own thread, and the rest of the game.
pub mod Base
pub mod Wire
pub mod Session
pub mod Peer
pub mod Sparse
pub mod BitSet
pub mod Ecs
pub mod Lobby
pub mod Tests
