-- ===== src/Session/Identity.antt =====
-- The fields of session.hpp that are `const`: no operation changes the ID or the endpoint.
use rtype.Base.{ℕ, ◌≡◌, refl, ◌∙◌, inl, inr, List, [], ◌∷◌, true, Bool-cases, Option-cases, arith}
use rtype.Wire.Endian.{Host}
use rtype.Wire.Packet.{Packet}
use rtype.Wire.Header.{Header, parse}
use rtype.Session.Window.{update_acknowledge_info, is_duplicate}
use rtype.Session.State.{Session, SentPacketInfo, next_u32}
use rtype.Session.Kept.{kept-internal_send_ack}
use rtype.Session.Outgoing.{
  raw_send, send, take_order_id, remember_sent, internal_send_ack, resend, resend_all, update,
}
use rtype.Session.Incoming.{
  acknowledge_one, acknowledge, check_for_old_packets, deliver_ordered, handle_payload, account,
  handle_sequence, handle_header, handle_incoming, note_received,
}

-- The ID and the endpoint.
pub record Identity : Type 0 where
  pub id : ℕ
  pub endpoint : ℕ

abbrev pub who : Session → Identity
who s = record { id = s.id; endpoint = s.endpoint }

module _ (host : Host) (now : ℕ) where
  who-internal_send_ack : (s : Session) → who (internal_send_ack host now s) ≡ who s
  unfolding raw_send
  who-internal_send_ack = kept-internal_send_ack who host now (λ p s. refl) (λ s. refl)

  pub who-send : (p : Packet) (s : Session) → who (send host now p s) ≡ who s
  unfolding send raw_send remember_sent take_order_id
  who-send p s = ground arith

  who-resend :
      (key : ℕ) (info : SentPacketInfo) (s : Session) → who (resend host now key info s) ≡ who s
  unfolding resend raw_send
  who-resend key info s = refl

  who-resend_all :
      (sent : List (ℕ × SentPacketInfo)) (s : Session) → who (resend_all host now sent s).0 ≡ who s
  unfolding resend_all
  who-resend_all [] s = refl
  who-resend_all ((key, info) ∷ rest) s = ground (
    arith,
    who-resend_all rest s,
    who-resend_all rest (resend host now key info s),
    who-resend key info s,
  )

  pub who-update : (s : Session) → who (update host now s) ≡ who s
  unfolding update
  who-update s = ground (
    arith,
    who-resend_all s.sent_packets s,
    who-internal_send_ack (resend_all host now s.sent_packets s).0,
  )

module _ (host : Host) (wide : ℕ → ℕ) (now : ℕ) where
  who-acknowledge : (h : Header) (s : Session) → who (acknowledge now h s) ≡ who s
  unfolding acknowledge acknowledge_one
  who-acknowledge h s = ground arith

  who-handle_payload :
      (h : Header) (bytes : List ℕ) (s : Session) → who (handle_payload host h bytes s).0 ≡ who s
  unfolding handle_payload check_for_old_packets deliver_ordered
  who-handle_payload h bytes s = ground arith

  who-account : (h : Header) (s : Session) → who (account host wide now h s) ≡ who s
  unfolding account
  who-account h s = ground (
    arith,
    who-internal_send_ack host now (record s {
      window = update_acknowledge_info wide s.window h.sequence_id;
      has_unsent_ack = true;
      packets_since_last_ack = next_u32 s.packets_since_last_ack;
    }),
  )

  who-handle_sequence :
      (h : Header) (bytes : List ℕ) (s : Session)
      → who (handle_sequence host wide now h bytes s).0 ≡ who s
  unfolding handle_sequence
  who-handle_sequence h bytes s = elim (Bool-cases (is_duplicate s.window h.sequence_id)) [
    | inl dup ↦ simp dup refl
    | inr fresh ↦ simp fresh (who-handle_payload h bytes _ ∙ who-account h s)
  ]

  who-handle_header :
      (h : Header) (bytes : List ℕ) (s : Session)
      → who (handle_header host wide now h bytes s).0 ≡ who s
  unfolding handle_header
  who-handle_header h bytes s =
      who-handle_sequence h bytes (acknowledge now h (note_received now h bytes s))
      ∙ who-acknowledge h (note_received now h bytes s)

  pub who-handle_incoming :
      (bytes : List ℕ) (s : Session) → who (handle_incoming host wide now bytes s).0 ≡ who s
  unfolding handle_incoming
  who-handle_incoming bytes s = elim (Option-cases ((parse host bytes).header)) [
    | inl e ↦ rw (e, handle_incoming) refl
    | inr (h, e) ↦ rw (e, handle_incoming) (who-handle_header h bytes s)
  ]
