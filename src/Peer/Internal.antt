-- ===== src/Peer/Internal.antt =====
-- The handlers that the dispatcher binds by itself (lib/rtnt/src/core/dispatcher.cpp, with the headers
-- under include/rtnt/core/packets), and what the application binds. `reach` calls a method of a session
-- in the state `S` of the server or the client around the dispatcher.
use rtype.Base.{ℕ, List, []}
use rtype.Wire.Endian.{Host}
use rtype.Wire.Packet.{Stream, done}
use rtype.Session.State.{Session}
use rtype.Session.Outgoing.{send, disconnect}
use rtype.Peer.Dispatcher.{Attempt, finished, Dispatcher, register_handler}
use rtype.Peer.Packets.{connect_id, disconnect_id, connect_ack_packet}

-- A packet struct that the application binds, with its reader and its callback. The callback reads the
-- session it is given and the application's state `A`, and answers with calls `C` of the library.
pub record Binding (A C : Type 0) : Type 1 where
  pub T : Type 0
  pub id : ℕ
  pub read : Stream T
  pub callback : ℕ → Session → T → A → Attempt (A × List C)

-- A packet struct without fields.
abbrev pub read_nothing : Stream (Unit {0})
read_nothing p = done tt p

module _ {S : Type 0} (reach : ℕ → (Session → Session) → S → S) (host : Host) (now : ℕ) where
  -- A `ConnectAck` with the ID of the session.
  unfoldable pub send_connect_ack : ℕ → S → S
  send_connect_ack a s = reach a (λ x. send host now (connect_ack_packet host x.id) x) s

  -- `Connect::onReceive` and `Disconnect::onReceive`.
  unfoldable pub on_connect_packet : ℕ → Unit {0} → S → Attempt S
  on_connect_packet a _ s = finished (send_connect_ack a s)

  unfoldable pub on_disconnect_packet : ℕ → Unit {0} → S → Attempt S
  on_disconnect_packet a _ s = finished (reach a (disconnect host now) s)

  unfoldable pub new_dispatcher : Dispatcher S
  new_dispatcher =
      register_handler disconnect_id read_nothing on_disconnect_packet
        (register_handler connect_id read_nothing on_connect_packet [])
