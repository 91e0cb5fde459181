-- ===== src/Peer/Binding.antt =====
-- `Dispatcher::registerHandler` of dispatcher.hpp: what the application binds leaves the handlers of the
-- internal packets in place.
use rtype.Base.{ℕ, ◌≡◌, refl, List, [], ◌∷◌, none, some, lookup, arith}
use rtype.Wire.Endian.{Host}
use rtype.Wire.Packet.{Stream}
use rtype.Session.State.{Session}
use rtype.Peer.Dispatcher.{
  Attempt, Handler, handler, Dispatcher, register_handler, lookup-register_handler,
}
use rtype.Peer.Packets.{connect_id, disconnect_id, connect_ack_id, read_connect_ack}
use rtype.Peer.Internal.{
  Binding, read_nothing, on_connect_packet, on_disconnect_packet, new_dispatcher,
}
use rtype.Peer.Server
use rtype.Peer.Handlers
use rtype.Peer.Client
use rtype.Peer.Connecting

module _ {S T : Type 0} (id : ℕ) (read : Stream T) (callback : ℕ → T → S → Attempt S) where
  -- A handler that is there stays.
  bound_stays :
      (k : ℕ) (h : Handler S) (d : Dispatcher S)
      → lookup k d ≡ some h
      → lookup k (register_handler id read callback d) ≡ some h
  bound_stays k h d there = ground (arith, lookup-register_handler id read callback k d)

  bound_first :
      (d : Dispatcher S)
      → lookup id d ≡ none
      → lookup id (register_handler id read callback d) ≡ some (handler id read callback)
  bound_first d free = ground (arith, lookup-register_handler id read callback id d)

module _ {S : Type 0} (reach : ℕ → (Session → Session) → S → S) (host : Host) (now : ℕ) where
  lookup-connect :
      lookup connect_id (new_dispatcher reach host now)
      ≡ some (handler connect_id read_nothing (on_connect_packet reach host now))
  unfolding new_dispatcher lookup
  lookup-connect =
      bound_stays disconnect_id read_nothing (on_disconnect_packet reach host now) connect_id _ _
        (bound_first connect_id read_nothing (on_connect_packet reach host now) [] refl)

  connect_ack-free : lookup connect_ack_id (new_dispatcher reach host now) ≡ none
  unfolding new_dispatcher lookup
  connect_ack-free = ground (
    arith,
    lookup-register_handler disconnect_id read_nothing (on_disconnect_packet reach host now)
        connect_ack_id
        (register_handler connect_id read_nothing (on_connect_packet reach host now) []),
    lookup-register_handler connect_id read_nothing (on_connect_packet reach host now)
        connect_ack_id [],
  )

module _ {A : Type 0} (host : Host) (now : ℕ) where
  server_stays :
      (bs : List (Binding A Server.Call)) (k : ℕ) (h : Handler (Server.Server A))
      (d : Dispatcher (Server.Server A))
      → lookup k d ≡ some h
      → lookup k (Handlers.bind_all host now bs d) ≡ some h
  unfolding Handlers.bind_all Handlers.bind
  server_stays [] k h d there = there
  server_stays (b ∷ bs) k h d there =
      server_stays bs k h _
        (bound_stays b.id b.read (Handlers.bound_callback host now b) k h d there)

  -- Whatever the application binds on a server, a CONNECT goes to the handler that answers it.
  pub lookup-server_connect :
      (bs : List (Binding A Server.Call))
      → lookup connect_id
          (Handlers.bind_all host now bs (new_dispatcher Server.on_server_session host now))
        ≡ some
            (handler connect_id read_nothing (on_connect_packet Server.on_server_session host now))
  lookup-server_connect bs =
      server_stays bs connect_id _ _ (lookup-connect Server.on_server_session host now)

module _ {A : Type 0} (host : Host) (config : Client.ClientConfig A) (now : ℕ) where
  client_stays :
      (bs : List (Binding A Client.Call)) (k : ℕ) (h : Handler (Client.Client A))
      (d : Dispatcher (Client.Client A))
      → lookup k d ≡ some h
      → lookup k (Connecting.bind_all host config now bs d) ≡ some h
  unfolding Connecting.bind_all
  client_stays [] k h d there = there
  client_stays (b ∷ bs) k h d there =
      client_stays bs k h _
        (bound_stays b.id b.read (Connecting.bound_callback host config now b) k h d there)

  -- Whatever the application binds on a client, a CONNECT_ACK goes to the handler that connects it.
  pub lookup-client_connect_ack :
      lookup connect_ack_id (Connecting.packet_dispatcher host config now)
      ≡ some (
          handler connect_ack_id
            (read_connect_ack host)
            (Connecting.on_connect_ack host config now))
  unfolding Connecting.packet_dispatcher
  lookup-client_connect_ack = client_stays config.bindings connect_ack_id _ _ (
      bound_first connect_ack_id (read_connect_ack host) (Connecting.on_connect_ack host config now)
        _ (connect_ack-free Client.on_client_session host now))
