-- ===== src/Peer/Serving.antt =====
-- lib/rtnt/src/core/server.cpp: `onReceive`, `update` and `_processEvents`.
use rtype.Base.{
  ℕ, ◌-◌, ◌/◌, zero, suc, List, [], ◌∷◌, none, some, Bool, true, false, ◌||◌, ltb, leb, length, map,
  lookup, insert, erase, if◌then◌else◌,
}
use mathlib.Core.Option
use rtype.Wire.Endian.{Host}
use rtype.Wire.Packet.{Packet}
use rtype.Wire.Header.{is_packet}
use rtype.Session.State.{Session, milliseconds}
use rtype.Session.Outgoing.{send, disconnect}
use rtype.Session.Outgoing
use rtype.Session.Incoming.{handle_incoming}
use rtype.Peer.Queue.{push, pop, push_all}
use rtype.Peer.Store.{deref, on_session, make_session}
use rtype.Peer.Dispatcher.{Dispatcher, dispatch}
use rtype.Peer.Packets.{connect_id}
use rtype.Peer.Server.{Server, ServerConfig, Event, connected, received, on_server_session, notify}
use rtype.Peer.Internal.{new_dispatcher, send_connect_ack}
use rtype.Peer.Handlers.{bind_all}

-- The test of `update`: the session has been silent for longer than `timeout` milliseconds, or is
-- to be closed.
abbrev pub is_expired : ℕ → ℕ → Session → Bool
is_expired now timeout x = ltb timeout ((now - x.last_seen) / milliseconds 1) || x.should_close

module _ {A : Type 0} (host : Host) (wide : ℕ → ℕ) (config : ServerConfig A) (now : ℕ) where
  abbrev pub packet_dispatcher : Dispatcher (Server A)
  packet_dispatcher = bind_all host now config.bindings (new_dispatcher on_server_session host now)

  -- The call of `_onMessage`, with the packet that the handler has read from.
  unfoldable pub notify_message : ℕ → Packet → Server A → Server A
  notify_message a p s =
      if leb 128 p.message_id
      then notify host now (Option.map (λ callback b x. callback b x p) config.on_message) a s
      else s

  -- The closures of `onReceive`.
  unfoldable pub run_event : Event → Server A → Server A
  run_event (connected a) s = notify host now config.on_connect a s
  run_event (received a p) s =
      let (s', q) = dispatch packet_dispatcher a p s in notify_message a q s'

  -- The loop of `_processEvents`; no event pushes another one, so the length is fuel enough.
  unfoldable pub process_events_from : ℕ → Server A → Server A
  process_events_from zero s = s
  process_events_from (suc fuel) s = elim (pop s.event_queue) [
    | none ↦ s
    | some (event, rest) ↦
        process_events_from fuel (run_event event (record s { event_queue = rest }))
  ]

  unfoldable pub process_events : Server A → Server A
  process_events s = process_events_from (length s.event_queue) s

  -- The loop over the sessions, and the addresses of those that it removes.
  unfoldable pub sweep : ℕ → List (ℕ × ℕ) → Server A → Server A × List ℕ
  sweep timeout [] s = (s, [])
  sweep timeout ((endpoint, a) ∷ rest) s = elim (deref a s.store) [
    | none ↦ sweep timeout rest s
    | some x ↦ elim (is_expired now timeout x) [
      | true ↦
          let (s', disconnected) =
            sweep timeout rest (record s { sessions = erase endpoint s.sessions }) in
          (s', a ∷ disconnected)
      | false ↦ sweep timeout rest (on_server_session a (Outgoing.update host now) s)
    ]
  ]

  unfoldable pub notify_disconnected : List ℕ → Server A → Server A
  notify_disconnected [] s = s
  notify_disconnected (a ∷ rest) s =
      notify_disconnected rest (notify host now config.on_disconnect a s)

  unfoldable pub update : ℕ → Server A → Server A
  update timeout s =
      let s1 = process_events s in
      let (s2, disconnected) = sweep timeout s1.sessions s1 in notify_disconnected disconnected s2

  -- `handleIncoming`, and an event for each packet that is ready.
  unfoldable pub receive_on : ℕ → List ℕ → Server A → Server A
  receive_on a bytes s = elim (deref a s.store) [
    | none ↦ s
    | some x ↦ record s {
      store = on_session a (λ y. (handle_incoming host wide now bytes y).0) s.store;
      event_queue =
          push_all (map (received a) ((handle_incoming host wide now bytes x).1)) s.event_queue;
    }
  ]

  unfoldable pub accept : ℕ → Server A → ℕ × Server A
  accept sender s =
      let (a, store') = make_session now sender s.store in
      (
        a,
        record s {
          store = store';
          sessions = insert sender a s.sessions;
          event_queue = push (connected a) s.event_queue;
        },
      )

  unfoldable pub on_receive : ℕ → List ℕ → Server A → Server A
  on_receive sender bytes s = elim (lookup sender s.sessions) [
    | some a ↦
        if is_packet host connect_id bytes
        then send_connect_ack on_server_session host now a s
        else receive_on a bytes s
    | none ↦
        if is_packet host connect_id bytes
        then receive_on (accept sender s).0 bytes (accept sender s).1
        else s
  ]
