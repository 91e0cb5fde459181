-- ===== src/Peer/EventOrder.antt =====
-- `_processEvents` of server.cpp: every event once, in the order in which they were pushed.
use mathlib.Core.Path.{subst}
use rtype.Base.{ℕ, zero, suc, ◌≤◌, ◌≡◌, refl, sym, ap, ◌∙◌, List, [], ◌∷◌, length, arith}
use rtype.Wire.Endian.{Host}
use rtype.Peer.Queue.{pop}
use rtype.Peer.Server.{Server, ServerConfig, Event}
use rtype.Peer.Serving.{run_event, process_events_from, process_events}
use rtype.Peer.Stable.{run_event-keeps}

module _ {A : Type 0} (host : Host) (wide : ℕ → ℕ) (config : ServerConfig A) (now : ℕ) where
  event_queue-run_event :
      (e : Event) (s : Server A) → (run_event host wide config now e s).event_queue ≡ s.event_queue
  event_queue-run_event e s =
      run_event-keeps (λ t. t.event_queue ≡ s.event_queue)
        (record { on_session = λ a f t keeps h. h; on_app = λ x t h. h }) host wide config now e s
        refl

  -- The events of a list one after the other, each off the queue before it runs.
  unfoldable pub run_events : List Event → Server A → Server A
  run_events [] s = s
  run_events (e ∷ es) s =
      run_events es (run_event host wide config now e (record s { event_queue = es }))

  -- What is said of the loop when the queue is known.
  abbrev Drains : ℕ → List Event → Server A → Type 0
  Drains fuel es s =
      (process_events_from host wide config now fuel s ≡ run_events es s)
      × ((run_events es s).event_queue ≡ [])

  process_events_from-eq :
      (fuel : ℕ) (es : List Event) (s : Server A)
      → length es ≤ fuel
      → Drains fuel es (record s { event_queue = es })
  unfolding process_events_from run_events pop
  process_events_from-eq zero [] s enough = (refl, refl)
  process_events_from-eq zero (e ∷ es) s enough = absurd (omega arith)
  process_events_from-eq (suc fuel) [] s enough = (refl, refl)
  process_events_from-eq (suc fuel) (e ∷ es) s enough =
      let t = run_event host wide config now e (record s { event_queue = es }) in
      subst (Drains fuel es)
        (sym (
          ap (λ (q : List Event). record t { event_queue = q })
            (event_queue-run_event e (record s { event_queue = es }))))
        (process_events_from-eq fuel es t (omega arith))

  -- `_processEvents` ends, if `_onConnect` and `_onMessage` return: it runs the events of the
  -- queue, each once and the oldest first, and leaves the queue empty, whatever the handlers
  -- do and the callbacks answer.
  pub process_events-eq :
      (s : Server A)
      → (process_events host wide config now s ≡ run_events s.event_queue s)
        × ((process_events host wide config now s).event_queue ≡ [])
  unfolding process_events
  process_events-eq s =
      let (same, empty) =
        process_events_from-eq (length s.event_queue) s.event_queue s (omega arith) in
      (same, ap (λ (t : Server A). t.event_queue) same ∙ empty)
