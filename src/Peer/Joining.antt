-- ===== src/Peer/Joining.antt =====
-- The handshake of client.cpp and server.cpp: from `Client::connect` over the server to the client.
use rtype.Base.{
  ℕ, ◌≡◌, refl, ap, ◌∙◌, List, [], ◌∷◌, map, Option, none, some, lookup, lookup-insert, insert,
  Option-cases, inl, inr, if-eq-then, elim-eq-some, elim-eq-none, arith,
}
use rtype.Wire.Endian.{Host}
use rtype.Wire.Packet.{Packet}
use rtype.Session.State.{Session, new_session}
use rtype.Session.Outgoing.{send}
use rtype.Session.Incoming.{handle_incoming, incoming_packet}
use rtype.Peer.Queue.{push_all, push}
use rtype.Peer.Store.{deref, on_session, make_session, deref-on_session, deref-make_session}
use rtype.Peer.Dispatcher.{dispatch, handler}
use rtype.Peer.Packets.{connect_ack_packet}
use rtype.Peer.Internal.{send_connect_ack, on_connect_packet}
use rtype.Peer.Server.{
  Server, ServerConfig, Callback, Event, connected, received, on_server_session, perform_all,
  notify,
}
use rtype.Peer.Serving.{run_event, notify_message, process_events, receive_on, accept, on_receive}
use rtype.Peer.EventOrder.{run_events, process_events-eq}
use rtype.Peer.Isolation.{session_of}
use rtype.Peer.Binding.{lookup-server_connect}
use rtype.Peer.Handshake.{
  connect_header, greeted, connect_bytes, connect_ack_bytes, is_packet-connect,
  handle_incoming-connect, transmitted-connect_ack,
}

-- What has been handed to the send function of a session.
abbrev pub datagrams : Option Session → List (List ℕ)
datagrams none = []
datagrams (some x) = x.transmitted

-- A callback that makes no call of the library.
abbrev pub IsSilent : {A : Type 0} → Option (Callback A) → Type 0
IsSilent none = Unit
IsSilent {A} (some callback) = (a : ℕ) (x : Session) (app : A) → (callback a x app).1 ≡ []

module _ {A : Type 0} (host : Host) (now : ℕ) where
  notify_silent :
      (callback : Option (Callback A)) (a : ℕ) (s : Server A)
      → IsSilent callback
      → (x : A) × (notify host now callback a s ≡ record s { app = x })
  unfolding notify perform_all
  notify_silent none a s silent = (s.app, refl)
  notify_silent (some callback) a s silent = elim (Option-cases (deref a s.store)) [
    | inl gone ↦ (s.app, elim-eq-none _ _ gone)
    | inr (x, found) ↦ (
      (callback a x s.app).0,
      elim-eq-some _ _ found
          ∙ ap (λ calls. perform_all host now calls (record s { app = (callback a x s.app).0 }))
              (silent a x s.app),
    )
  ]

module _ {A : Type 0} (host : Host) (wide : ℕ → ℕ) (config : ServerConfig A) (now : ℕ) where
  -- A CONNECT is answered, and no callback sees it.
  run_event-connect :
      (a : ℕ) (bytes : List ℕ) (s : Server A)
      → run_event host wide config now (received a (incoming_packet host connect_header bytes)) s
        ≡ send_connect_ack on_server_session host now a s
  unfolding run_event dispatch handler notify_message incoming_packet on_connect_packet
  run_event-connect a bytes s =
      ap (λ (r : Server A × Packet). notify_message host wide config now a r.1 r.0)
        (elim-eq-some _ _ (lookup-server_connect host now config.bindings))

  -- `onReceive` of a CONNECT from an endpoint without a session, as one step.
  pub on_receive-connect :
      (client : Host) (sender : ℕ) (s : Server A)
      → lookup sender s.sessions ≡ none
      → s.event_queue ≡ []
      → let x = new_session s.store.next_id sender now in
        let a = s.store.next_address in
        let store' = (make_session now sender s.store).1 in
        let bytes = connect_bytes client in
        on_receive host wide config now sender bytes s ≡ record s {
          store = on_session a (λ y. (handle_incoming host wide now bytes y).0) store';
          sessions = insert sender a s.sessions;
          event_queue = connected a ∷ received a (incoming_packet host connect_header bytes) ∷ [];
        }
  unfolding on_receive accept receive_on make_session push push_all
  on_receive-connect client sender s absent idle =
      let x = new_session s.store.next_id sender now in
      let a = s.store.next_address in
      let bytes = connect_bytes client in
      let made = λ (ready : List Packet) (queue : List Event).
        let t : Server A = record s {
          store =
              on_session a (λ y. (handle_incoming host wide now bytes y).0)
                (make_session now sender s.store).1;
          sessions = insert sender a s.sessions;
          event_queue = push_all (map (received a) ready) (push (connected a) queue);
        } in
        t in
      elim-eq-none _ _ absent
      ∙ if-eq-then _ _ (is_packet-connect client host)
      ∙ elim-eq-some _ _ (
          let e : deref a (make_session now sender s.store).1 ≡ some x =
            ground (arith, deref-make_session now sender a s.store) in
          e)
      ∙ ap (λ (r : Session × List Packet). made r.1 s.event_queue)
          (handle_incoming-connect client host wide now s.store.next_id sender now)
      ∙ ap (made (incoming_packet host connect_header bytes ∷ [])) idle

  -- The update that follows: `_onConnect` sees the session, and the CONNECT is answered.
  process_events-connect :
      (a : ℕ) (bytes : List ℕ) (s : Server A)
      → IsSilent config.on_connect
      → s.event_queue ≡ connected a ∷ received a (incoming_packet host connect_header bytes) ∷ []
      → (x : A) × (process_events host wide config now s
          ≡ send_connect_ack on_server_session host now a (record s { event_queue = []; app = x }))
  unfolding run_events run_event
  process_events-connect a bytes s silent queued =
      let p = incoming_packet host connect_header bytes in
      let (x, told) =
        notify_silent host now config.on_connect a (record s { event_queue = received a p ∷ [] })
          silent in
      (
        x,
        (process_events-eq host wide config now s).0
            ∙ ap (λ (es : List Event). run_events host wide config now es s) queued
            ∙ ap
                (λ (t : Server A).
                  run_event host wide config now (received a p) (record t { event_queue = [] }))
                told
            ∙ run_event-connect a bytes (record s { event_queue = []; app = x }),
      )

module _ {A : Type 0} (client host : Host) (wide : ℕ → ℕ) (config : ServerConfig A)
    (heard now : ℕ) where
  -- What the server hands to the send function for an endpoint that has sent its first CONNECT.
  pub server_greets :
      (sender : ℕ) (s : Server A)
      → lookup sender s.sessions ≡ none
      → s.event_queue ≡ []
      → IsSilent config.on_connect
      → datagrams (
          session_of sender (
            process_events host wide config now
              (on_receive host wide config heard sender (connect_bytes client) s)))
        ≡ connect_ack_bytes host s.store.next_id ∷ []
  unfolding session_of send_connect_ack connect_ack_bytes new_session
  server_greets sender s absent idle silent =
      let a = s.store.next_address in
      let bytes = connect_bytes client in
      let x = new_session s.store.next_id sender heard in
      let store' = (make_session heard sender s.store).1 in
      let greet = λ (y : Session). (handle_incoming host wide heard bytes y).0 in
      let answer = λ (y : Session). send host now (connect_ack_packet host y.id) y in
      let t : Server A = record s {
        store = on_session a greet store';
        sessions = insert sender a s.sessions;
        event_queue = connected a ∷ received a (incoming_packet host connect_header bytes) ∷ [];
      } in
      let (app, processed) = process_events-connect host wide config now a bytes t silent refl in
      let here : deref a store' ≡ some x =
        ground (arith, deref-make_session heard sender a s.store) in
      let welcomed : deref a (on_session a greet store')
          ≡ some (greeted heard connect_header bytes x) =
        ground (
          arith,
          deref-on_session a a greet store',
          here,
          handle_incoming-connect client host wide heard s.store.next_id sender heard,
        ) in
      let answered : deref a (on_session a answer (on_session a greet store'))
          ≡ some (answer (greeted heard connect_header bytes x)) =
        ground (arith, deref-on_session a a answer (on_session a greet store'), welcomed) in
      let entry : lookup sender (insert sender a s.sessions) ≡ some a =
        ground (arith, lookup-insert sender sender a s.sessions) in
      ap (λ (u : Server A). datagrams (session_of sender (process_events host wide config now u)))
        (on_receive-connect host wide config heard client sender s absent idle)
      ∙ ap (λ (u : Server A). datagrams (session_of sender u)) processed
      ∙ ap datagrams (elim-eq-some _ _ entry ∙ answered)
      ∙ transmitted-connect_ack host heard heard now s.store.next_id sender bytes
