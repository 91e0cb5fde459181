-- ===== src/Peer/Connecting.antt =====
-- lib/rtnt/src/core/client.cpp: `onReceive`, `update`, `_processEvents` and the handler of `ConnectAck`.
use mathlib.Core.Option
use rtype.Base.{
  ℕ, ◌+◌, ◌-◌, ◌/◌, ◌%◌, zero, suc, List, [], ◌∷◌, none, some, Bool, true, false, ◌&&◌, ◌||◌, ◌==◌,
  ltb, map, if◌then◌else◌, u8_mod,
}
use rtype.Wire.Endian.{Host}
use rtype.Session.State.{Session, milliseconds}
use rtype.Session.Outgoing
use rtype.Session.Incoming.{handle_incoming}
use rtype.Peer.Queue.{pop, push_all}
use rtype.Peer.Store.{deref, on_session}
use rtype.Peer.Dispatcher.{Attempt, finished, raised, Dispatcher, register_handler, dispatch}
use rtype.Peer.Packets.{connect_ack_id, read_connect_ack}
use rtype.Peer.Internal.{Binding, new_dispatcher}
use rtype.Peer.Client.{
  Client, ClientConfig, Call, Event, received, disconnected, on_client_session, attempt_connection,
  disconnect, answer, notify, max_reconnection_attempts, reconnection_timeout,
}

module _ {A : Type 0} (host : Host) (config : ClientConfig A) (now : ℕ) where
  -- The handler that `_internal_registerInternalPacketHandlers` binds.
  unfoldable pub on_connect_ack : ℕ → ℕ → Client A → Attempt (Client A)
  on_connect_ack a assigned_session_id s =
      if s.is_connected
      then finished s
      else finished (notify host now config.on_connect (record s { is_connected = true }))

  -- The callback of a binding, on the state of the client.
  unfoldable pub bound_callback : (b : Binding A Call) → ℕ → b.T → Client A → Attempt (Client A)
  bound_callback b a data' s = elim (deref a s.store) [
    | none ↦ finished s
    | some x ↦ elim (b.callback a x data' s.app) [
      | finished r ↦ finished (answer host now r s)
      | raised r ↦ raised (answer host now r s)
    ]
  ]

  unfoldable pub bind_all : List (Binding A Call) → Dispatcher (Client A) → Dispatcher (Client A)
  bind_all [] d = d
  bind_all (b ∷ bs) d = bind_all bs (register_handler b.id b.read (bound_callback b) d)

  unfoldable pub packet_dispatcher : Dispatcher (Client A)
  packet_dispatcher = bind_all config.bindings (
      register_handler connect_ack_id (read_connect_ack host) on_connect_ack
        (new_dispatcher on_client_session host now))

  -- The closures of `onReceive` and `disconnect`.
  unfoldable pub run_event : Event → Client A → Client A
  run_event (received a p) s =
      let (s', q) = dispatch packet_dispatcher a p s in
      if s'.is_connected
      then notify host now (Option.map (λ callback. callback q) config.on_message) s'
      else s'
  run_event disconnected s = notify host now config.on_disconnect s

  -- `_processEvents`, as far as `fuel` events: a callback that calls `disconnect` pushes another event.
  unfoldable pub process_events : ℕ → Client A → Client A
  process_events zero s = s
  process_events (suc fuel) s = elim (pop s.event_queue) [
    | none ↦ s
    | some (event, rest) ↦ process_events fuel (run_event event (record s { event_queue = rest }))
  ]

  -- The end of `update`, for the session and the flag that it read under the lock.
  unfoldable pub maintain : ℕ → ℕ → Session → Bool → Client A → Client A
  maintain timeout a x was_connected s =
      if x.should_close
      then disconnect host now s
      else if was_connected && ltb timeout ((now - x.last_seen) / milliseconds 1)
      then disconnect host now s
      else on_client_session a (Outgoing.update host now) s

  -- The block of `update` under the lock, for a session that is there while the client is not
  -- connected, and what follows.
  unfoldable pub retry : ℕ → ℕ → Session → Client A → Client A
  retry timeout a x s =
      if ltb reconnection_timeout (now - s.last_connection_attempt) || x.should_close
      then if ltb s.reconnection_retries max_reconnection_attempts
        then attempt_connection host now
            (record s { reconnection_retries = (s.reconnection_retries + 1) % u8_mod })
        else maintain timeout a x false (record s { server_session = none })
      else maintain timeout a x false s

  unfoldable pub check : ℕ → Client A → Client A
  check timeout s = elim s.server_session [
    | none ↦ s
    | some a ↦ elim (deref a s.store) [
      | none ↦ s
      | some x ↦ if s.is_connected then maintain timeout a x true s else retry timeout a x s
    ]
  ]

  unfoldable pub update : ℕ → ℕ → Client A → Client A
  update fuel timeout s = check timeout (process_events fuel s)

module _ {A : Type 0} (host : Host) (wide : ℕ → ℕ) (now : ℕ) where
  unfoldable pub receive_on : ℕ → List ℕ → Client A → Client A
  receive_on a bytes s = elim (deref a s.store) [
    | none ↦ s
    | some x ↦ record s {
      store = on_session a (λ y. (handle_incoming host wide now bytes y).0) s.store;
      event_queue =
          push_all (map (received a) ((handle_incoming host wide now bytes x).1)) s.event_queue;
    }
  ]

  unfoldable pub on_receive : ℕ → List ℕ → Client A → Client A
  on_receive sender bytes s = elim s.server_session [
    | none ↦ s
    | some a ↦ if sender == s.server_endpoint then receive_on a bytes s else s
  ]
