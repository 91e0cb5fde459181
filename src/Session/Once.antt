-- ===== src/Session/Once.antt =====
-- A session hands the packet of one sequence ID on at most once.
use rtype.Base.{
  ℕ, ◌+◌, ◌%◌, ◌≡◌, refl, ap, ◌∙◌, inl, inr, List, [], true, Bool-cases, if◌then◌else◌, u32_mod,
  arith,
}
use rtype.Wire.Endian.{Host}
use rtype.Wire.Packet.{Packet}
use rtype.Wire.Header.{Header}
use rtype.Session.Window.{Window, update_acknowledge_info, is_duplicate}
use rtype.Session.State.{Session}
use rtype.Session.Kept.{kept-internal_send_ack}
use rtype.Session.Outgoing.{raw_send, internal_send_ack}
use rtype.Session.Incoming.{
  acknowledge_one, acknowledge, check_for_old_packets, deliver_ordered, handle_payload, account,
  note_received, handle_sequence, handle_header,
}

window-internal_send_ack :
    (host : Host) (now : ℕ) (s : Session) → (internal_send_ack host now s).window ≡ s.window
unfolding raw_send
window-internal_send_ack host now =
    kept-internal_send_ack (λ s. s.window) host now (λ p s. refl) (λ s. refl)

window-acknowledge : (now : ℕ) (h : Header) (s : Session) → (acknowledge now h s).window ≡ s.window
unfolding acknowledge acknowledge_one
window-acknowledge now h s = ground arith

window-handle_payload :
    (host : Host) (h : Header) (bytes : List ℕ) (s : Session)
    → (handle_payload host h bytes s).0.window ≡ s.window
unfolding handle_payload check_for_old_packets deliver_ordered
window-handle_payload host h bytes s = ground arith

module _ (host : Host) (wide : ℕ → ℕ) (now : ℕ) where
  window-account :
      (h : Header) (s : Session)
      → (account host wide now h s).window ≡ update_acknowledge_info wide s.window h.sequence_id
  unfolding account
  window-account h s = ground (
    arith,
    window-internal_send_ack host now (record s {
      window = update_acknowledge_info wide s.window h.sequence_id;
      has_unsent_ack = true;
      packets_since_last_ack = (s.packets_since_last_ack + 1) % u32_mod;
    }),
  )

  -- What the payload of a packet brings when the packet is no duplicate.
  unfoldable pub fresh_packets : Header → List ℕ → Session → List Packet
  fresh_packets h bytes s =
      (handle_payload host h bytes
        (account host wide now h (acknowledge now h (note_received now h bytes s)))).1

  window-handle_sequence :
      (h : Header) (bytes : List ℕ) (s : Session)
      → (handle_sequence host wide now h bytes s).0.window ≡ (
          if is_duplicate s.window h.sequence_id
          then s.window
          else update_acknowledge_info wide s.window h.sequence_id)
  unfolding handle_sequence
  window-handle_sequence h bytes s = elim (Bool-cases (is_duplicate s.window h.sequence_id)) [
    | inl dup ↦ simp dup refl
    | inr fresh ↦ simp fresh (window-handle_payload host h bytes _ ∙ window-account h s)
  ]

  pub window-handle_header :
      (h : Header) (bytes : List ℕ) (s : Session)
      → (handle_header host wide now h bytes s).0.window ≡ (
          if is_duplicate s.window h.sequence_id
          then s.window
          else update_acknowledge_info wide s.window h.sequence_id)
  unfolding handle_header
  window-handle_header h bytes s =
      window-handle_sequence h bytes (acknowledge now h (note_received now h bytes s))
      ∙ ap
          (λ (w : Window).
            if is_duplicate w h.sequence_id
            then w
            else update_acknowledge_info wide w h.sequence_id)
          (window-acknowledge now h (note_received now h bytes s))

  handle_sequence-result :
      (h : Header) (bytes : List ℕ) (s : Session)
      → (handle_sequence host wide now h bytes s).1 ≡ (
          if is_duplicate s.window h.sequence_id
          then []
          else (handle_payload host h bytes (account host wide now h s)).1)
  unfolding handle_sequence
  handle_sequence-result h bytes s = ground arith

  -- What a session hands on for a packet, by the window it had before.
  pub handle_header-result :
      (h : Header) (bytes : List ℕ) (s : Session)
      → (handle_header host wide now h bytes s).1
        ≡ (if is_duplicate s.window h.sequence_id then [] else fresh_packets h bytes s)
  unfolding handle_header fresh_packets
  handle_header-result h bytes s =
      handle_sequence-result h bytes (acknowledge now h (note_received now h bytes s))
      ∙ ap (λ (w : Window). if is_duplicate w h.sequence_id then [] else fresh_packets h bytes s)
          (window-acknowledge now h (note_received now h bytes s))
