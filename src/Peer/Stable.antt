-- ===== src/Peer/Stable.antt =====
-- What survives the code of the application: a callback of server.hpp reaches the server by calls
-- only, so it keeps any property that a method of a session and a new state of the application keep.
use rtype.Base.{
  ℕ, zero, suc, ◌≡◌, refl, List, [], ◌∷◌, Option, none, some, leb, Bool-cases, Option-cases, inl,
  inr,
}
use rtype.Wire.Endian.{Host}
use rtype.Wire.Packet.{Packet}
use rtype.Session.State.{Session}
use rtype.Session.Identity.{who, who-send}
use rtype.Peer.Queue.{pop}
use rtype.Peer.Store.{deref}
use rtype.Peer.Dispatcher.{Attempt, finished, raised, left_by, Dispatcher}
use rtype.Peer.Packets.{connect_ack_packet}
use rtype.Peer.Server.{
  Server, ServerConfig, Callback, Call, send_to, close, broadcast, Event, connected, received,
  on_server_session, broadcast_to, perform, perform_all, answer, notify,
}
use rtype.Peer.Keeps.{DispatcherKeeps, register_handler-keeps, new_dispatcher-keeps, dispatch-keeps}
use rtype.Peer.Internal.{Binding, send_connect_ack}
use rtype.Peer.Handlers.{bound_callback, bind, bind_all}
use rtype.Peer.Serving.{notify_message, run_event, process_events_from, notify_disconnected}

pub record IsStable {A : Type 0} (P : Server A → Type 0) : Type 0 where
  pub on_session :
      (a : ℕ) (f : Session → Session) (s : Server A)
      → ((x : Session) → who (f x) ≡ who x)
      → P s
      → P (on_server_session a f s)
  pub on_app : (x : A) (s : Server A) → P s → P (record s { app = x })

module _ {A : Type 0} (P : Server A → Type 0) (stable : IsStable P) (host : Host) (now : ℕ) where
  broadcast_to-keeps :
      (sessions : List (ℕ × ℕ)) (p : Packet) (s : Server A)
      → P s
      → P (broadcast_to host now sessions p s)
  unfolding broadcast_to
  broadcast_to-keeps [] p s h = h
  broadcast_to-keeps ((endpoint, a) ∷ rest) p s h =
      broadcast_to-keeps rest p _ (stable.on_session a _ s (who-send host now p) h)

  pub perform-keeps : (call : Call) (s : Server A) → P s → P (perform host now call s)
  unfolding perform
  perform-keeps (send_to a p) s h = stable.on_session a _ s (who-send host now p) h
  perform-keeps (close a) s h = stable.on_session a _ s (λ x. refl) h
  perform-keeps (broadcast p) s h = broadcast_to-keeps s.sessions p s h

  perform_all-keeps : (calls : List Call) (s : Server A) → P s → P (perform_all host now calls s)
  unfolding perform_all
  perform_all-keeps [] s h = h
  perform_all-keeps (call ∷ calls) s h = perform_all-keeps calls _ (perform-keeps call s h)

  pub answer-keeps : (r : A × List Call) (s : Server A) → P s → P (answer host now r s)
  answer-keeps (a, calls) s h = perform_all-keeps calls _ (stable.on_app a s h)

  pub notify-keeps :
      (callback : Option (Callback A)) (a : ℕ) (s : Server A)
      → P s
      → P (notify host now callback a s)
  unfolding notify
  notify-keeps none a s h = h
  notify-keeps (some callback) a s h = elim (Option-cases (deref a s.store)) [
    | inl e ↦ rw (e, notify) h
    | inr (x, e) ↦ rw (e, notify) (answer-keeps (callback a x s.app) s h)
  ]

  pub send_connect_ack-keeps :
      (a : ℕ) (s : Server A) → P s → P (send_connect_ack on_server_session host now a s)
  unfolding send_connect_ack
  send_connect_ack-keeps a s h =
      stable.on_session a _ s (λ x. who-send host now (connect_ack_packet host x.id) x) h

  bound_callback-keeps :
      (b : Binding A Call) (a : ℕ) (data' : b.T) (s : Server A)
      → P s
      → P (left_by (bound_callback host now b a data' s))
  unfolding bound_callback
  bound_callback-keeps b a data' s h = elim (Option-cases (deref a s.store)) [
    | inl e ↦ rw (e, bound_callback) h
    | inr (x, e) ↦ rw (e, bound_callback) (answered (b.callback a x data' s.app))
  ]
    where
      answered :
          (r : Attempt (A × List Call))
          → P (
              left_by (elim r [
                | finished r ↦ finished (answer host now r s)
                | raised r ↦ raised (answer host now r s)
              ]))
      answered (finished r) = answer-keeps r s h
      answered (raised r) = answer-keeps r s h

  bind_all-keeps :
      (bs : List (Binding A Call)) (d : Dispatcher (Server A))
      → DispatcherKeeps P d
      → DispatcherKeeps P (bind_all host now bs d)
  unfolding bind_all bind
  bind_all-keeps [] d h = h
  bind_all-keeps (b ∷ bs) d h = bind_all-keeps bs _ (
      register_handler-keeps P b.id b.read (bound_callback host now b) d (bound_callback-keeps b) h)

module _ {A : Type 0} (P : Server A → Type 0) (stable : IsStable P) (host : Host) (wide : ℕ → ℕ)
    (config : ServerConfig A) (now : ℕ) where
  notify_message-keeps :
      (a : ℕ) (p : Packet) (s : Server A) → P s → P (notify_message host wide config now a p s)
  unfolding notify_message
  notify_message-keeps a p s h = elim (Bool-cases (leb 128 p.message_id)) [
    | inl user ↦ rw user (notify-keeps P stable host now _ a s h)
    | inr internal ↦ rw internal h
  ]

  pub run_event-keeps : (e : Event) (s : Server A) → P s → P (run_event host wide config now e s)
  unfolding run_event
  run_event-keeps (connected a) s h = notify-keeps P stable host now config.on_connect a s h
  run_event-keeps (received a p) s h = notify_message-keeps a _ _ (
      dispatch-keeps P _ a p s
        (bind_all-keeps P stable host now config.bindings _
          (new_dispatcher-keeps P on_server_session host now stable.on_session))
        h)

  pub process_events_from-keeps :
      (fuel : ℕ) (s : Server A)
      → ((q : List Event) (t : Server A) → P t → P (record t { event_queue = q }))
      → P s
      → P (process_events_from host wide config now fuel s)
  unfolding process_events_from
  process_events_from-keeps zero s on_queue h = h
  process_events_from-keeps (suc fuel) s on_queue h = elim (Option-cases (pop s.event_queue)) [
    | inl e ↦ rw (e, process_events_from) h
    | inr ((event, rest), e) ↦
        rw (e, process_events_from)
          (process_events_from-keeps fuel _ on_queue (run_event-keeps event _ (on_queue rest s h)))
  ]

  pub notify_disconnected-keeps :
      (gone : List ℕ) (s : Server A) → P s → P (notify_disconnected host wide config now gone s)
  unfolding notify_disconnected
  notify_disconnected-keeps [] s h = h
  notify_disconnected-keeps (a ∷ rest) s h =
      notify_disconnected-keeps rest _ (notify-keeps P stable host now config.on_disconnect a s h)
