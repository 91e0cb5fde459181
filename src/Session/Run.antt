-- ===== src/Session/Run.antt =====
-- lib/rtnt/src/core/session.cpp: `handleIncoming` over all the datagrams that one peer sends.
use rtype.Base.{
  ℕ, ◌+◌, ◌≤◌, ◌<◌, ◌≡◌, refl, ap, ◌∙◌, inl, inr, List, [], ◌∷◌, none, some, Bool, true, ◌||◌, ◌==◌,
  length, All, Bool-cases, Option-cases, if◌then◌else◌, u32_mod, arith,
}
use rtype.Wire.Endian.{Host}
use rtype.Wire.Header.{Header, parse}
use rtype.Session.Window.{
  Window, empty_window, contains, update_acknowledge_info, is_duplicate, max_packet_history_size,
}
use rtype.Session.Received.{IsWindow, is_duplicate-update}
use rtype.Session.Invariant.{update-IsWindow}
use rtype.Session.History.{
  held, held-update, held-empty, history-le-held, nothing_yet, empty-IsWindow, wide-fits,
}
use rtype.Session.State.{Session, new_session}
use rtype.Session.Incoming.{handle_incoming}
use rtype.Session.Once.{window-handle_header, handle_header-result, fresh_packets}

-- The window after one more ID.
unfoldable observe : (ℕ → ℕ) → Window → ℕ → Window
observe wide w id = if is_duplicate w id then w else update_acknowledge_info wide w id

unfoldable observe_all : (ℕ → ℕ) → Window → List ℕ → Window
observe_all wide w [] = w
observe_all wide w (id ∷ ids) = observe_all wide (observe wide w id) ids

module _ (host : Host) where
  -- The sequence IDs of the datagrams that parse.
  unfoldable pub sequence_ids : List (ℕ × List ℕ) → List ℕ
  sequence_ids [] = []
  sequence_ids ((now, bytes) ∷ later) = elim ((parse host bytes).header) [
    | none ↦ sequence_ids later
    | some h ↦ h.sequence_id ∷ sequence_ids later
  ]

  -- The session after datagrams that arrive one by one, each at its time.
  unfoldable pub handle_all : (ℕ → ℕ) → List (ℕ × List ℕ) → Session → Session
  handle_all wide [] s = s
  handle_all wide ((now, bytes) ∷ later) s =
      handle_all wide later (handle_incoming host wide now bytes s).0

known_again :
    (w : Window) (id x : ℕ)
    → is_duplicate w id ≡ true
    → (ids : List ℕ)
    → (contains x ids || is_duplicate w x) ≡ (contains x (id ∷ ids) || is_duplicate w x)
unfolding contains
known_again w id x dup ids = elim (Bool-cases (id == x)) [
  | inl same ↦ let e : id ≡ x = ground arith in rw (← e, dup) (ground arith)
  | inr other ↦ rw other refl
]

module _ (wide : ℕ → ℕ) (clears : (b : ℕ) → wide b ≡ 0) where
  is_duplicate-observe_all :
      (w : Window) (ids : List ℕ) (x : ℕ)
      → IsWindow w
      → All (λ id. id < u32_mod) ids
      → held w + length ids ≤ max_packet_history_size
      → is_duplicate (observe_all wide w ids) x ≡ (contains x ids || is_duplicate w x)
  unfolding observe_all observe contains
  is_duplicate-observe_all w [] x v fit room = refl
  is_duplicate-observe_all w (id ∷ ids) x v fit room = elim (Bool-cases (is_duplicate w id)) [
    | inl dup ↦
        simp dup
          (is_duplicate-observe_all w ids x v fit.1 (omega arith) ∙ known_again w id x dup ids)
    | inr fresh ↦
        let cleared =
          λ (e : id ≡ w.remote_acknowledge_id + 32). clears w.remote_acknowledge_bitfield in
        let grown = held-update wide w id v fit.0 cleared in
        let one =
          is_duplicate-update wide w id x v fit.0 (omega (arith, history-le-held w)) cleared in
        simp fresh (
          is_duplicate-observe_all (update_acknowledge_info wide w id) ids x
            (update-IsWindow wide w id v fit.0 (wide-fits wide clears)) fit.1 (omega arith)
          ∙ ground (arith, one))
  ]

module _ (host : Host) (wide : ℕ → ℕ) where
  module _ (now : ℕ) (bytes : List ℕ) (s : Session) where
    window-unreadable :
        (parse host bytes).header ≡ none
        → (handle_incoming host wide now bytes s).0.window ≡ s.window
    unfolding handle_incoming
    window-unreadable e = rw (e, handle_incoming) refl

    window-readable :
        (h : Header)
        → (parse host bytes).header ≡ some h
        → (handle_incoming host wide now bytes s).0.window ≡ observe wide s.window h.sequence_id
    unfolding handle_incoming observe
    window-readable h e = rw (e, handle_incoming) (window-handle_header host wide now h bytes s)

  window-handle_all :
      (ds : List (ℕ × List ℕ)) (s : Session)
      → (handle_all host wide ds s).window ≡ observe_all wide s.window (sequence_ids host ds)
  unfolding handle_all sequence_ids observe_all
  window-handle_all [] s = refl
  window-handle_all ((now, bytes) ∷ later) s = elim (Option-cases ((parse host bytes).header)) [
    | inl e ↦
        rw (e, sequence_ids)
          (window-handle_all later (handle_incoming host wide now bytes s).0
            ∙ ap (λ (w : Window). observe_all wide w (sequence_ids host later))
                (window-unreadable now bytes s e))
    | inr (h, e) ↦
        rw (e, sequence_ids)
          (window-handle_all later (handle_incoming host wide now bytes s).0
            ∙ ap (λ (w : Window). observe_all wide w (sequence_ids host later))
                (window-readable now bytes s h e))
  ]

module _ (host : Host) (wide : ℕ → ℕ) (clears : (b : ℕ) → wide b ≡ 0) where
  -- After at most 32768 datagrams with 32-bit sequence IDs, duplicates included and in any order, a
  -- datagram whose sequence ID has arrived before hands nothing on, and any other hands on what its
  -- payload brings, where a shift by the full width clears the bitfield.
  pub handle_incoming-once :
      (id endpoint started now : ℕ) (ds : List (ℕ × List ℕ)) (bytes : List ℕ) (h : Header)
      → All (λ n. n < u32_mod) (sequence_ids host ds)
      → length (sequence_ids host ds) ≤ max_packet_history_size
      → (parse host bytes).header ≡ some h
      → let s = handle_all host wide ds (new_session id endpoint started) in
        (handle_incoming host wide now bytes s).1 ≡ (
          if contains h.sequence_id (sequence_ids host ds)
          then []
          else fresh_packets host wide now h bytes s)
  unfolding handle_incoming new_session
  handle_incoming-once id endpoint started now ds bytes h fit room parsed =
      let s = handle_all host wide ds (new_session id endpoint started) in
      let known : is_duplicate (observe_all wide empty_window (sequence_ids host ds)) h.sequence_id
          ≡ contains h.sequence_id (sequence_ids host ds) =
        ground (
          arith,
          is_duplicate-observe_all wide clears empty_window (sequence_ids host ds) h.sequence_id
              empty-IsWindow fit (omega (arith, held-empty)),
          nothing_yet h.sequence_id,
        ) in
      rw (parsed, handle_incoming)
        (handle_header-result host wide now h bytes s
          ∙ ap (λ (b : Bool). if b then [] else fresh_packets host wide now h bytes s)
              (ap (λ (w : Window). is_duplicate w h.sequence_id)
                  (window-handle_all host wide ds (new_session id endpoint started))
                ∙ known))
