-- ===== src/Peer/Client.antt =====
-- lib/rtnt/include/rtnt/core/client.hpp, and `connect`, `disconnect` and
-- `_internal_attemptConnection` of src/core/client.cpp: the state of a client and the calls of the
-- application.
use rtype.Base.{ℕ, List, [], ◌∷◌, Option, none, some, Bool, false, if◌then◌else◌}
use rtype.Wire.Endian.{Host}
use rtype.Wire.Packet.{Packet}
use rtype.Session.State.{Session, milliseconds}
use rtype.Session.Outgoing.{send}
use rtype.Session.Outgoing
use rtype.Peer.Queue.{push}
use rtype.Peer.Store.{Store, empty_store, on_session, make_session}
use rtype.Peer.Packets.{connect_packet, disconnect_packet}
use rtype.Peer.Internal.{Binding}

abbrev pub max_reconnection_attempts : ℕ
max_reconnection_attempts = 3

abbrev pub reconnection_timeout : ℕ
reconnection_timeout = milliseconds 2000

-- What the application may do to a session that a handler gives it, and to the client.
pub data Call : Type 0 where
  send_to : ℕ → Packet → Call
  close : ℕ → Call
  send_packet : Packet → Call
  connect_to : ℕ → Call
  leave : Call

-- The closures that are pushed to the event queue.
pub data Event : Type 0 where
  received : ℕ → Packet → Event
  disconnected : Event

pub record Client (A : Type 0) : Type 0 where
  pub store : Store
  pub server_endpoint : ℕ
  pub server_session : Option ℕ
  pub event_queue : List Event
  pub is_connected : Bool
  pub reconnection_retries : ℕ
  pub last_connection_attempt : ℕ
  pub app : A

abbrev pub new_client : {A : Type 0} → A → Client A
new_client a = record {
  store = empty_store;
  server_endpoint = 0;
  server_session = none;
  event_queue = [];
  is_connected = false;
  reconnection_retries = 0;
  last_connection_attempt = 0;
  app = a;
}

abbrev pub Callback : Type 0 → Type 0
Callback A = A → A × List Call

pub record ClientConfig (A : Type 0) : Type 1 where
  pub bindings : List (Binding A Call)
  pub on_connect : Option (Callback A)
  pub on_disconnect : Option (Callback A)
  pub on_message : Option (Packet → Callback A)

abbrev pub on_client_session : {A : Type 0} → ℕ → (Session → Session) → Client A → Client A
on_client_session a f s = record s { store = on_session a f s.store }

module _ {A : Type 0} (host : Host) (now : ℕ) where
  -- `_serverSession->…`, where there is a session.
  abbrev pub on_server_session : (Session → Session) → Client A → Client A
  on_server_session f s = elim s.server_session [ none ↦ s | some a ↦ on_client_session a f s ]

  -- `send` and `_internal_send`.
  unfoldable pub internal_send : Packet → Client A → Client A
  internal_send p s = on_server_session (send host now p) s

  unfoldable pub attempt_connection : Client A → Client A
  attempt_connection s =
      let (a, store') = make_session now s.server_endpoint s.store in
      on_client_session a (send host now connect_packet)
        (record s { store = store'; server_session = some a; last_connection_attempt = now })

  unfoldable pub connect : ℕ → Client A → Client A
  connect endpoint s =
      if s.is_connected
      then s
      else attempt_connection (record s { server_endpoint = endpoint; reconnection_retries = 0 })

  unfoldable pub disconnect : Client A → Client A
  disconnect s =
      let s' = if s.is_connected then internal_send disconnect_packet s else s in
      record s' {
        server_session = none;
        is_connected = false;
        event_queue = push disconnected s'.event_queue;
      }

  unfoldable pub perform : Call → Client A → Client A
  perform (send_to a p) s = on_client_session a (send host now p) s
  perform (close a) s = on_client_session a (Outgoing.disconnect host now) s
  perform (send_packet p) s = internal_send p s
  perform (connect_to endpoint) s = connect endpoint s
  perform leave s = disconnect s

  unfoldable pub perform_all : List Call → Client A → Client A
  perform_all [] s = s
  perform_all (call ∷ calls) s = perform_all calls (perform call s)

  abbrev pub answer : A × List Call → Client A → Client A
  answer (a, calls) s = perform_all calls (record s { app = a })

  -- A callback that is set is called.
  unfoldable pub notify : Option (Callback A) → Client A → Client A
  notify none s = s
  notify (some callback) s = answer (callback s.app) s
