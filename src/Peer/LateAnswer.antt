-- ===== src/Peer/LateAnswer.antt =====
-- `disconnect` of client.cpp while the answer to a CONNECT waits in the event queue.
use mathlib.Core.Option
use rtype.Base.{
  ℕ, suc, ◌<◌, ◌≡◌, refl, ap, ◌∙◌, List, [], ◌∷◌, none, true, false, if-eq-then, if-eq-else,
  u32_mod,
}
use rtype.Wire.Endian.{Host}
use rtype.Wire.Packet.{Packet}
use rtype.Session.Incoming.{incoming_packet}
use rtype.Peer.Queue.{push, pop}
use rtype.Peer.Client.{Client, ClientConfig, Event, received, disconnected, connect, disconnect}
use rtype.Peer.Connecting.{run_event, process_events}
use rtype.Peer.GiveUp.{process_events-idle}
use rtype.Peer.Handshake.{connect_ack_header, connect_ack_bytes}
use rtype.Peer.Connected.{IsSilent, run_event-connect_ack, notify_silent}

module _ {A : Type 0} (host : Host) (config : ClientConfig A) (now fuel : ℕ) where
  -- Let the answer of the server wait in the queue of a client that is not connected, and let the
  -- client disconnect, with callbacks that make no call of the library. When its events have been
  -- processed, it holds itself for connected but has no session, and ignores every `connect`.
  pub late_answer :
      (server : Host) (a id : ℕ) (s : Client A)
      → id < u32_mod
      → s.is_connected ≡ false
      → s.event_queue
        ≡ received a (incoming_packet host connect_ack_header (connect_ack_bytes server id)) ∷ []
      → IsSilent config.on_connect
      → IsSilent config.on_disconnect
      → ((p : Packet) → IsSilent (Option.map (λ callback. callback p) config.on_message))
      → let t = process_events host config now (suc (suc fuel)) (disconnect host now s) in
        (t.is_connected ≡ true)
        × (t.server_session ≡ none)
        × ((later endpoint : ℕ) → connect host later endpoint t ≡ t)
  unfolding disconnect process_events pop push connect run_event
  late_answer server a id s fits off waiting quiet leaving mute =
      let ack =
        received a (incoming_packet host connect_ack_header (connect_ack_bytes server id)) in
      let left : Client A = record s {
        server_session = none;
        is_connected = false;
        event_queue = ack ∷ disconnected ∷ [];
      } in
      let gone : disconnect host now s ≡ left =
        ap
          (λ (u : Client A).
            let v : Client A = record u {
              server_session = none;
              is_connected = false;
              event_queue = push disconnected u.event_queue;
            } in
            v)
          (if-eq-else _ _ off)
        ∙ ap
            (λ (q : List Event).
              let v : Client A = record s {
                server_session = none;
                is_connected = false;
                event_queue = push disconnected q;
              } in
              v)
            waiting in
      let (x, answered) =
        run_event-connect_ack host config now server a id
          (record left { event_queue = disconnected ∷ [] }) fits refl quiet mute in
      let (y, told) =
        notify_silent host now config.on_disconnect
          (record left { event_queue = []; is_connected = true; app = x }) leaving in
      let final : Client A = record left { event_queue = []; is_connected = true; app = y } in
      let e : process_events host config now (suc (suc fuel)) (disconnect host now s) ≡ final =
        ap (process_events host config now (suc (suc fuel))) gone
        ∙ ap (process_events host config now (suc fuel)) answered
        ∙ ap (process_events host config now fuel) told
        ∙ process_events-idle host config now fuel final refl in
      (
        ap (λ (t : Client A). t.is_connected) e,
        ap (λ (t : Client A). t.server_session) e,
        λ later endpoint. if-eq-then _ _ (ap (λ (t : Client A). t.is_connected) e),
      )
