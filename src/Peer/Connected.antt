-- ===== src/Peer/Connected.antt =====
-- The handshake as the client sees it, and from end to end: client.cpp against server.cpp.
use mathlib.Core.Option
use rtype.Base.{
  ℕ, suc, ◌<◌, ◌≡◌, refl, ap, ◌∙◌, List, [], ◌∷◌, map, Option, none, some, true, false, lookup,
  ◌==◌, if-eq-then, if-eq-else, elim-eq-some, if◌then◌else◌, u32_mod, arith,
}
use rtype.Wire.Endian.{Host}
use rtype.Wire.Packet.{Packet}
use rtype.Session.State.{Session, new_session}
use rtype.Session.Outgoing.{send}
use rtype.Session.Incoming.{handle_incoming, incoming_packet}
use rtype.Peer.Queue.{push_all, pop}
use rtype.Peer.Store.{deref, on_session, make_session, deref-on_session, deref-make_session}
use rtype.Peer.Dispatcher.{Attempt, left_by, after_read, dispatch, handler}
use rtype.Peer.Packets.{connect_packet, connect_ack_id, read_connect_ack}
use rtype.Peer.Server.{Server, ServerConfig}
use rtype.Peer.Serving
use rtype.Peer.Client.{
  Client, ClientConfig, Callback, Event, received, attempt_connection, connect, perform_all, notify,
}
use rtype.Peer.Connecting.{
  on_connect_ack, packet_dispatcher, run_event, process_events, receive_on, on_receive,
}
use rtype.Peer.GiveUp.{process_events-idle}
use rtype.Peer.Isolation.{session_of}
use rtype.Peer.Binding.{lookup-client_connect_ack}
use rtype.Peer.Joining.{datagrams, server_greets}
use rtype.Peer.Joining
use rtype.Peer.Handshake.{
  connect_ack_header, connect_bytes, connect_ack_bytes, handle_incoming-connect_ack,
  read-connect_ack, transmitted-connect,
}

-- The session of a client with its server.
unfoldable pub server_session_of : {A : Type 0} → Client A → Option Session
server_session_of s = elim s.server_session [ none ↦ none | some a ↦ deref a s.store ]

-- A callback that makes no call of the library.
abbrev pub IsSilent : {A : Type 0} → Option (Callback A) → Type 0
IsSilent none = Unit
IsSilent {A} (some callback) = (app : A) → (callback app).1 ≡ []

module _ {A : Type 0} (host : Host) (now : ℕ) where
  pub notify_silent :
      (callback : Option (Callback A)) (s : Client A)
      → IsSilent callback
      → (x : A) × (notify host now callback s ≡ record s { app = x })
  unfolding notify perform_all
  notify_silent none s silent = (s.app, refl)
  notify_silent (some callback) s silent = (
    (callback s.app).0,
    ap (λ calls. perform_all host now calls (record s { app = (callback s.app).0 })) (silent s.app),
  )

module _ {A : Type 0} (host : Host) (config : ClientConfig A) (now : ℕ) where
  -- The answer of the server connects the client.
  pub run_event-connect_ack :
      (server : Host) (a id : ℕ) (s : Client A)
      → id < u32_mod
      → s.is_connected ≡ false
      → IsSilent config.on_connect
      → ((p : Packet) → IsSilent (Option.map (λ callback. callback p) config.on_message))
      → (x : A) × (run_event host config now
            (received a (incoming_packet host connect_ack_header (connect_ack_bytes server id)))
            s
          ≡ record s { is_connected = true; app = x })
  unfolding run_event dispatch handler on_connect_ack
  run_event-connect_ack server a id s fits off quiet mute =
      let p = incoming_packet host connect_ack_header (connect_ack_bytes server id) in
      let (q, reads) = read-connect_ack host server id fits in
      let (x, told) =
        notify_silent host now config.on_connect (record s { is_connected = true }) quiet in
      let finish = λ (r : Client A × Packet).
        if r.0.is_connected
        then notify host now (Option.map (λ callback. callback r.1) config.on_message) r.0
        else r.0 in
      let (y, seen) =
        notify_silent host now (Option.map (λ callback. callback q) config.on_message)
          (record s { is_connected = true; app = x }) (mute q) in
      (
        y,
        ap finish (
              let found : dispatch (packet_dispatcher host config now) a p s
                  ≡ handler connect_ack_id (read_connect_ack host) (on_connect_ack host config now)
                      a p s =
                (unfold incoming_packet in
                  elim-eq-some _ _ (lookup-client_connect_ack host config now)) in
              found)
            ∙ ap
                (λ o. finish (
                  after_read connect_ack_id (read_connect_ack host) (on_connect_ack host config now)
                    a s o))
                reads
            ∙ ap (λ (t : Attempt (Client A)). finish (left_by t, q)) (if-eq-else _ _ off)
            ∙ ap (λ (t : Client A). finish (t, q)) told
            ∙ seen,
      )

module _ {A : Type 0} (host : Host) (config : ClientConfig A) (start : ℕ) where
  -- What `connect` makes of a client that is not connected.
  connect-eq :
      (endpoint : ℕ) (c : Client A)
      → c.is_connected ≡ false
      → connect host start endpoint c ≡ record c {
        store =
            on_session c.store.next_address
              (send host start connect_packet)
              (make_session start endpoint c.store).1;
        server_endpoint = endpoint;
        server_session = some c.store.next_address;
        reconnection_retries = 0;
        last_connection_attempt = start;
      }
  unfolding connect attempt_connection make_session
  connect-eq endpoint c off = if-eq-else _ _ off

  -- The datagram that it sends.
  datagrams-connect :
      (endpoint : ℕ) (c : Client A)
      → c.is_connected ≡ false
      → datagrams (server_session_of (connect host start endpoint c)) ≡ connect_bytes host ∷ []
  unfolding server_session_of connect_bytes
  datagrams-connect endpoint c off =
      let a = c.store.next_address in
      let st = (make_session start endpoint c.store).1 in
      ap (λ (t : Client A). datagrams (server_session_of t)) (connect-eq endpoint c off)
      ∙ ap datagrams (
          let e : deref a (on_session a (send host start connect_packet) st)
              ≡ some (send host start connect_packet (new_session c.store.next_id endpoint start)) =
            ground (
              arith,
              deref-on_session a a (send host start connect_packet) st,
              deref-make_session start endpoint a c.store,
            ) in
          e)
      ∙ transmitted-connect host start c.store.next_id endpoint

  module _ (server : Host) (wide : ℕ → ℕ) (heard now fuel : ℕ) where
    client_connects :
        (endpoint id : ℕ) (c : Client A)
        → id < u32_mod
        → c.is_connected ≡ false
        → c.event_queue ≡ []
        → IsSilent config.on_connect
        → ((p : Packet) → IsSilent (Option.map (λ callback. callback p) config.on_message))
        → (process_events host config now (suc fuel) (
            on_receive host wide heard endpoint
              (connect_ack_bytes server id)
              (connect host start endpoint c))).is_connected
          ≡ true
    unfolding on_receive receive_on process_events pop push_all
    client_connects endpoint id c fits off idle quiet mute =
        let a = c.store.next_address in
        let st = (make_session start endpoint c.store).1 in
        let bytes = connect_ack_bytes server id in
        let x = send host start connect_packet (new_session c.store.next_id endpoint start) in
        let p = incoming_packet host connect_ack_header bytes in
        let t : Client A = record c {
          store = on_session a (send host start connect_packet) st;
          server_endpoint = endpoint;
          server_session = some a;
          reconnection_retries = 0;
          last_connection_attempt = start;
        } in
        let made = λ (ready : List Packet) (queue : List Event).
          let u : Client A = record t {
            store = on_session a (λ y. (handle_incoming host wide heard bytes y).0) t.store;
            event_queue = push_all (map (received a) ready) queue;
          } in
          u in
        let here : deref a t.store ≡ some x = ground (
          arith,
          deref-on_session a a (send host start connect_packet) st,
          deref-make_session start endpoint a c.store,
        ) in
        let arrived : on_receive host wide heard endpoint bytes t ≡ made (p ∷ []) [] =
          if-eq-then _ _ (let same : (endpoint == endpoint) ≡ true = ground arith in same)
          ∙ elim-eq-some _ _ here
          ∙ ap (λ (r : Session × List Packet). made r.1 c.event_queue)
              (handle_incoming-connect_ack host server wide heard c.store.next_id endpoint start id)
          ∙ ap (made (p ∷ [])) idle in
        let (y, done_event) =
          run_event-connect_ack host config now server a id
            (record (made (p ∷ []) []) { event_queue = [] }) fits off quiet mute in
        ap
          (λ (u : Client A).
            (process_events host config now (suc fuel)
              (on_receive host wide heard endpoint bytes u)).is_connected)
          (connect-eq endpoint c off)
        ∙ ap (λ (u : Client A). (process_events host config now (suc fuel) u).is_connected) arrived
        ∙ ap (λ (u : Client A). (process_events host config now fuel u).is_connected) done_event
        ∙ ap (λ (u : Client A). u.is_connected)
            (process_events-idle host config now fuel
              (record (made (p ∷ []) []) { event_queue = []; is_connected = true; app = y }) refl)

-- A client that is idle and not connected calls `connect`; it sends one datagram. The server,
-- which has no session for the client's endpoint, no pending event and a counter of 32 bits,
-- receives it and processes its events; it sends one datagram back. When the client has received
-- that and processed its events, it is connected. This holds whatever the byte orders of the two
-- hosts and whatever the applications bind, if the callbacks make no call of the library.
pub handshake :
    {A B : Type 0} (client server : Host) (wide : ℕ → ℕ) (config : ClientConfig A)
    (serving : ServerConfig B) (start heard answered back now fuel endpoint sender : ℕ)
    (c : Client A) (s : Server B)
    → c.is_connected ≡ false
    → c.event_queue ≡ []
    → IsSilent config.on_connect
    → ((p : Packet) → IsSilent (Option.map (λ callback. callback p) config.on_message))
    → lookup sender s.sessions ≡ none
    → s.event_queue ≡ []
    → s.store.next_id < u32_mod
    → Joining.IsSilent serving.on_connect
    → (request reply : List ℕ) × (datagrams (server_session_of (connect client start endpoint c))
        ≡ request ∷ [])
      × (datagrams (
            session_of sender (
              Serving.process_events server wide serving answered
                (Serving.on_receive server wide serving heard sender request s)))
          ≡ reply ∷ [])
      × ((process_events client config now (suc fuel) (
            on_receive client wide back endpoint reply
              (connect client start endpoint c))).is_connected
          ≡ true)
handshake client server wide config serving start heard answered back now fuel endpoint sender c s
      off idle quiet mute absent pending fits silent =
    (
      connect_bytes client,
      connect_ack_bytes server s.store.next_id,
      datagrams-connect client config start endpoint c off,
      server_greets client server wide serving heard answered sender s absent pending silent,
      client_connects client config start server wide back now fuel endpoint s.store.next_id c fits
          off idle quiet mute,
    )
