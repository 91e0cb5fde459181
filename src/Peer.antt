-- ===== src/Peer.antt =====
-- lib/rtnt above a session: the dispatcher, the event queue, the server and the client.
pub mod Queue
pub mod Store
pub mod Dispatcher
pub mod Packets
pub mod Internal
pub mod Keeps
pub mod Server
pub mod Handlers
pub mod Serving
pub mod Stable
pub mod Valid
pub mod Sweep
pub mod Expiry
pub mod ServerRun
pub mod Isolation
pub mod EventOrder
pub mod Client
pub mod Connecting
pub mod ClientStable
pub mod ClientRun
pub mod GiveUp
pub mod Handshake
pub mod Binding
pub mod Joining
pub mod Connected
pub mod LateAnswer
