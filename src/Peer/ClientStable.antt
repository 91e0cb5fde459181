-- ===== src/Peer/ClientStable.antt =====
-- What survives the operations of client.cpp: a property that each change of the state keeps is kept
-- by the callbacks of the application, by the handlers and by `update` and `onReceive`.
use rtype.Base.{
  ℕ, ◌+◌, ◌-◌, ◌%◌, ◌<◌, zero, suc, ◌≡◌, refl, List, [], ◌∷◌, Option, none, some, ltb, Bool, true,
  false, ◌||◌, ◌&&◌, ◌==◌, ◌/◌, Option-cases, if-rule, Option-rule, inl, inr, u8_mod, arith,
}
use rtype.Wire.Endian.{Host}
use rtype.Wire.Packet.{Packet}
use rtype.Session.State.{Session, milliseconds}
use rtype.Session.Identity.{who, who-send, who-update, who-handle_incoming}
use rtype.Peer.Queue.{pop}
use rtype.Peer.Store.{deref}
use rtype.Peer.Dispatcher.{Attempt, finished, raised, left_by, Dispatcher, dispatch}
use rtype.Peer.Keeps.{DispatcherKeeps, register_handler-keeps, new_dispatcher-keeps, dispatch-keeps}
use rtype.Peer.Packets.{connect_ack_id, read_connect_ack}
use rtype.Peer.Internal.{Binding, new_dispatcher}
use rtype.Peer.Client.{
  Client, ClientConfig, Callback, Call, send_to, close, send_packet, connect_to, leave, Event,
  received, disconnected, on_client_session, internal_send, attempt_connection, connect, disconnect,
  perform, perform_all, answer, notify, max_reconnection_attempts, reconnection_timeout,
}
use rtype.Peer.Connecting.{
  on_connect_ack, bound_callback, bind_all, packet_dispatcher, run_event, process_events, maintain,
  retry, check, update, receive_on, on_receive,
}

pub record IsClientStable {A : Type 0} (host : Host) (P : Client A → Type 0) : Type 0 where
  pub on_session :
      (a : ℕ) (f : Session → Session) (s : Client A)
      → ((x : Session) → who (f x) ≡ who x)
      → P s
      → P (on_client_session a f s)
  pub on_app : (x : A) (s : Client A) → P s → P (record s { app = x })
  pub on_queue : (q : List Event) (s : Client A) → P s → P (record s { event_queue = q })
  pub on_ack : (s : Client A) → P s → P (record s { is_connected = true })
  pub on_drop : (s : Client A) → P s → P (record s { server_session = none })
  pub on_connect : (now endpoint : ℕ) (s : Client A) → P s → P (connect host now endpoint s)
  pub on_leave : (now : ℕ) (s : Client A) → P s → P (disconnect host now s)
  pub on_retry :
      (now : ℕ) (s : Client A)
      → s.reconnection_retries < max_reconnection_attempts
      → P s
      → P (
          attempt_connection host now
            (record s { reconnection_retries = (s.reconnection_retries + 1) % u8_mod }))

module _ {A : Type 0} (host : Host) (P : Client A → Type 0) (stable : IsClientStable host P)
    (now : ℕ) where
  pub internal_send-keeps : (p : Packet) (s : Client A) → P s → P (internal_send host now p s)
  unfolding internal_send
  internal_send-keeps p s h =
      Option-rule P s.server_session (λ e. h)
        (λ a e. stable.on_session a _ s (who-send host now p) h)

  perform-keeps : (call : Call) (s : Client A) → P s → P (perform host now call s)
  unfolding perform
  perform-keeps (send_to a p) s h = stable.on_session a _ s (who-send host now p) h
  perform-keeps (close a) s h = stable.on_session a _ s (λ x. refl) h
  perform-keeps (send_packet p) s h = internal_send-keeps p s h
  perform-keeps (connect_to endpoint) s h = stable.on_connect now endpoint s h
  perform-keeps leave s h = stable.on_leave now s h

  perform_all-keeps : (calls : List Call) (s : Client A) → P s → P (perform_all host now calls s)
  unfolding perform_all
  perform_all-keeps [] s h = h
  perform_all-keeps (call ∷ calls) s h = perform_all-keeps calls _ (perform-keeps call s h)

  pub answer-keeps : (r : A × List Call) (s : Client A) → P s → P (answer host now r s)
  answer-keeps (a, calls) s h = perform_all-keeps calls _ (stable.on_app a s h)

  notify-keeps :
      (callback : Option (Callback A)) (s : Client A) → P s → P (notify host now callback s)
  unfolding notify
  notify-keeps none s h = h
  notify-keeps (some callback) s h = answer-keeps (callback s.app) s h

  module _ (config : ClientConfig A) where
    on_connect_ack-keeps :
        (a id : ℕ) (s : Client A) → P s → P (left_by (on_connect_ack host config now a id s))
    unfolding on_connect_ack
    on_connect_ack-keeps a id s h =
        if-rule (λ r. P (left_by r)) s.is_connected (λ e. h)
          (λ e. notify-keeps config.on_connect _ (stable.on_ack s h))

    bound_callback-keeps :
        (b : Binding A Call) (a : ℕ) (data' : b.T) (s : Client A)
        → P s
        → P (left_by (bound_callback host config now b a data' s))
    unfolding bound_callback
    bound_callback-keeps b a data' s h = elim (Option-cases (deref a s.store)) [
      | inl e ↦ rw (e, bound_callback) h
      | inr (x, e) ↦ rw (e, bound_callback) (answered (b.callback a x data' s.app))
    ]
      where
        answered :
            (r : Attempt (A × List Call))
            → P (
                left_by (elim r [
                  | finished r ↦ finished (answer host now r s)
                  | raised r ↦ raised (answer host now r s)
                ]))
        answered (finished r) = answer-keeps r s h
        answered (raised r) = answer-keeps r s h

    bind_all-keeps :
        (bs : List (Binding A Call)) (d : Dispatcher (Client A))
        → DispatcherKeeps P d
        → DispatcherKeeps P (bind_all host config now bs d)
    unfolding bind_all
    bind_all-keeps [] d h = h
    bind_all-keeps (b ∷ bs) d h = bind_all-keeps bs _ (
        register_handler-keeps P b.id b.read (bound_callback host config now b) d
          (bound_callback-keeps b) h)

    packet_dispatcher-keeps : DispatcherKeeps P (packet_dispatcher host config now)
    unfolding packet_dispatcher
    packet_dispatcher-keeps = bind_all-keeps config.bindings _ (
        register_handler-keeps P connect_ack_id (read_connect_ack host)
          (on_connect_ack host config now) (new_dispatcher on_client_session host now)
          on_connect_ack-keeps
          (new_dispatcher-keeps P on_client_session host now stable.on_session))

    run_event-keeps : (e : Event) (s : Client A) → P s → P (run_event host config now e s)
    unfolding run_event
    run_event-keeps disconnected s h = notify-keeps config.on_disconnect s h
    run_event-keeps (received a p) s h =
        let s' = (dispatch (packet_dispatcher host config now) a p s).0 in
        let h' =
          dispatch-keeps P (packet_dispatcher host config now) a p s packet_dispatcher-keeps h in
        if-rule P s'.is_connected (λ e. notify-keeps _ s' h') (λ e. h')

    process_events-keeps :
        (fuel : ℕ) (s : Client A) → P s → P (process_events host config now fuel s)
    unfolding process_events
    process_events-keeps zero s h = h
    process_events-keeps (suc fuel) s h =
        Option-rule P (pop s.event_queue) (λ e. h)
          λ next e.
            process_events-keeps fuel _ (run_event-keeps next.0 _ (stable.on_queue next.1 s h))

    maintain-keeps :
        (timeout a : ℕ) (x : Session) (on : Bool) (s : Client A)
        → P s
        → P (maintain host config now timeout a x on s)
    unfolding maintain
    maintain-keeps timeout a x on s h =
        if-rule P x.should_close (λ e. stable.on_leave now s h)
          (λ e.
            if-rule P (on && ltb timeout ((now - x.last_seen) / milliseconds 1))
              (λ e. stable.on_leave now s h) (λ e. stable.on_session a _ s (who-update host now) h))

    retry-keeps :
        (timeout a : ℕ) (x : Session) (s : Client A) → P s → P (retry host config now timeout a x s)
    unfolding retry
    retry-keeps timeout a x s h =
        if-rule P (ltb reconnection_timeout (now - s.last_connection_attempt) || x.should_close)
          (λ e.
            if-rule P (ltb s.reconnection_retries max_reconnection_attempts)
              (λ again. stable.on_retry now s (ground (arith, again)) h)
              (λ spent. maintain-keeps timeout a x false _ (stable.on_drop s h)))
          (λ e. maintain-keeps timeout a x false s h)

    check-keeps : (timeout : ℕ) (s : Client A) → P s → P (check host config now timeout s)
    unfolding check
    check-keeps timeout s h =
        Option-rule P s.server_session (λ e. h)
          λ a e.
            Option-rule P (deref a s.store) (λ e. h)
              λ x e.
                if-rule P s.is_connected (λ e. maintain-keeps timeout a x true s h)
                  (λ e. retry-keeps timeout a x s h)

    pub update-keeps :
        (fuel timeout : ℕ) (s : Client A) → P s → P (update host config now fuel timeout s)
    unfolding update
    update-keeps fuel timeout s h = check-keeps timeout _ (process_events-keeps fuel s h)

  receive_on-keeps :
      (wide : ℕ → ℕ) (a : ℕ) (bytes : List ℕ) (s : Client A)
      → P s
      → P (receive_on host wide now a bytes s)
  unfolding receive_on
  receive_on-keeps wide a bytes s h =
      Option-rule P (deref a s.store) (λ e. h)
        λ x e.
          stable.on_queue _ _ (stable.on_session a _ s (who-handle_incoming host wide now bytes) h)

  pub on_receive-keeps :
      (wide : ℕ → ℕ) (sender : ℕ) (bytes : List ℕ) (s : Client A)
      → P s
      → P (on_receive host wide now sender bytes s)
  unfolding on_receive
  on_receive-keeps wide sender bytes s h =
      Option-rule P s.server_session (λ e. h)
        λ a e.
          if-rule P (sender == s.server_endpoint) (λ e. receive_on-keeps wide a bytes s h) (λ e. h)
