-- ===== src/Peer/Keeps.antt =====
-- What the handlers of a dispatcher keep, dispatching keeps: over dispatcher.hpp and the handlers of the
-- internal packets.
use mathlib.Core.Path.{subst}
use rtype.Base.{
  ℕ, ◌≡◌, refl, sym, ◌∙◌, some-injective, [], none, some, lookup, Bool-cases, Option-cases, inl,
  inr, ◌==◌, arith,
}
use rtype.Wire.Endian.{Host}
use rtype.Wire.Packet.{Packet, Stream, Outcome, done, throws}
use rtype.Session.State.{Session}
use rtype.Session.Identity.{who, who-send}
use rtype.Peer.Dispatcher.{
  Attempt, left_by, Handler, after_read, handler, Dispatcher, register_handler,
  lookup-register_handler, dispatch,
}
use rtype.Peer.Packets.{connect_id, disconnect_id, connect_ack_packet}
use rtype.Peer.Internal.{
  read_nothing, send_connect_ack, on_connect_packet, on_disconnect_packet, new_dispatcher,
}

module _ {S : Type 0} (P : S → Type 0) where
  -- A handler that keeps the property, and a table of such handlers.
  unfoldable pub HandlerKeeps : Handler (S) → Type 0
  HandlerKeeps handle = (a : ℕ) (p : Packet) (s : S) → P s → P (handle a p s).0

  unfoldable pub DispatcherKeeps : Dispatcher (S) → Type 0
  DispatcherKeeps d =
      (k : ℕ) (handle : Handler (S)) → lookup k d ≡ some handle → HandlerKeeps handle

  pub handler-keeps :
      {T : Type 0} (id : ℕ) (read : Stream T) (callback : ℕ → T → S → Attempt (S))
      → ((a : ℕ) (data' : T) (s : S) → P s → P (left_by (callback a data' s)))
      → HandlerKeeps (handler id read callback)
  unfolding handler HandlerKeeps
  handler-keeps {T} id read callback keeps a p s h = go (read p)
    where
      go : (o : Outcome T) → P (after_read id read callback a s o).0
      go (done data' q) = keeps a data' s h
      go (throws _ q) = h

  pub register_handler-keeps :
      {T : Type 0} (id : ℕ) (read : Stream T) (callback : ℕ → T → S → Attempt (S))
      (d : Dispatcher (S))
      → ((a : ℕ) (data' : T) (s : S) → P s → P (left_by (callback a data' s)))
      → DispatcherKeeps d
      → DispatcherKeeps (register_handler id read callback d)
  unfolding DispatcherKeeps HandlerKeeps
  register_handler-keeps id read callback d keeps old k handle found =
      let found' = sym (lookup-register_handler id read callback k d) ∙ found in
      elim (Bool-cases (id == k)) [
        | inr other ↦ old k handle (ground (arith, found'))
        | inl same ↦ elim (Option-cases (lookup k d)) [
          | inr (old_handle, e) ↦ old k handle (ground (arith, found'))
          | inl e ↦
              subst HandlerKeeps
                (some-injective (
                  let new : some (handler id read callback) ≡ some handle =
                    ground (arith, found') in
                  new))
                (handler-keeps id read callback keeps)
        ]
      ]

  pub new_dispatcher-keeps :
      (reach : ℕ → (Session → Session) → S → S) (host : Host) (now : ℕ)
      → ((a : ℕ) (f : Session → Session) (s : S)
          → ((x : Session) → who (f x) ≡ who x)
          → P s
          → P (reach a f s))
      → DispatcherKeeps (new_dispatcher reach host now)
  unfolding new_dispatcher on_disconnect_packet on_connect_packet DispatcherKeeps lookup
      send_connect_ack
  new_dispatcher-keeps reach host now reaching =
      register_handler-keeps disconnect_id read_nothing (on_disconnect_packet reach host now) _
        (λ a d s h. reaching a _ s (λ x. refl) h)
        (register_handler-keeps connect_id read_nothing (on_connect_packet reach host now) []
          (λ a d s h. reaching a _ s (λ x. who-send host now (connect_ack_packet host x.id) x) h)
          (λ k handle found. absurd (let e : none ≡ some handle = found in cc)))

  pub dispatch-keeps :
      (d : Dispatcher (S)) (a : ℕ) (p : Packet) (s : S)
      → DispatcherKeeps d
      → P s
      → P (dispatch d a p s).0
  unfolding dispatch DispatcherKeeps HandlerKeeps
  dispatch-keeps d a p s keeps h = elim (Option-cases (lookup p.message_id d)) [
    | inl e ↦ rw (e, dispatch) h
    | inr (handle, e) ↦ rw (e, dispatch) (keeps p.message_id handle e a p s h)
  ]
