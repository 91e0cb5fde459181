-- ===== src/Peer/Server.antt =====
-- lib/rtnt/src/core/server.cpp and its header. An entry of the event queue is the closure that is
-- pushed, as data. The code of the application is in a `ServerConfig`: a callback reads the session it
-- is given and its own state `A`, and answers with calls of the library.
use rtype.Base.{ℕ, List, [], ◌∷◌, Option, none, some}
use rtype.Wire.Endian.{Host}
use rtype.Wire.Packet.{Packet}
use rtype.Session.State.{Session}
use rtype.Session.Outgoing.{send, disconnect}
use rtype.Peer.Store.{Store, empty_store, deref, on_session}
use rtype.Peer.Internal.{Binding}

-- What the application may do to a session that it has a pointer to, and to the server.
pub data Call : Type 0 where
  send_to : ℕ → Packet → Call
  close : ℕ → Call
  broadcast : Packet → Call

pub data Event : Type 0 where
  connected : ℕ → Event
  received : ℕ → Packet → Event

pub record Server (A : Type 0) : Type 0 where
  pub store : Store
  -- `_sessions`: the address by endpoint.
  pub sessions : List (ℕ × ℕ)
  pub event_queue : List Event
  pub app : A

abbrev pub new_server : {A : Type 0} → A → Server A
new_server a = record { store = empty_store; sessions = []; event_queue = []; app = a }

-- A callback returns; one that throws, out of `_processEvents` and `update`, is not modelled.
abbrev pub Callback : Type 0 → Type 0
Callback A = ℕ → Session → A → A × List Call

pub record ServerConfig (A : Type 0) : Type 1 where
  pub bindings : List (Binding A Call)
  pub on_connect : Option (Callback A)
  pub on_disconnect : Option (Callback A)
  pub on_message : Option (ℕ → Session → Packet → A → A × List Call)

abbrev pub on_server_session : {A : Type 0} → ℕ → (Session → Session) → Server A → Server A
on_server_session a f s = record s { store = on_session a f s.store }

module _ {A : Type 0} (host : Host) (now : ℕ) where
  -- `_internal_sendTo` of each session of the map, in its order.
  unfoldable pub broadcast_to : List (ℕ × ℕ) → Packet → Server A → Server A
  broadcast_to [] p s = s
  broadcast_to ((endpoint, a) ∷ rest) p s =
      broadcast_to rest p (on_server_session a (send host now p) s)

  unfoldable pub perform : Call → Server A → Server A
  perform (send_to a p) s = on_server_session a (send host now p) s
  perform (close a) s = on_server_session a (disconnect host now) s
  perform (broadcast p) s = broadcast_to s.sessions p s

  unfoldable pub perform_all : List Call → Server A → Server A
  perform_all [] s = s
  perform_all (call ∷ calls) s = perform_all calls (perform call s)

  abbrev pub answer : A × List Call → Server A → Server A
  answer (a, calls) s = perform_all calls (record s { app = a })

  -- A callback that is set is called with the session.
  unfoldable pub notify : Option (Callback A) → ℕ → Server A → Server A
  notify none a s = s
  notify (some callback) a s = elim (deref a s.store) [
    | none ↦ s
    | some x ↦ answer (callback a x s.app) s
  ]
