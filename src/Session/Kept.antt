-- ===== src/Session/Kept.antt =====
-- What an acknowledgement in session.cpp leaves as it was: `_internal_sendAck` sends any number of
-- packets, and each moves the counters of `rawSend` only.
use rtype.Base.{ℕ, zero, suc, ◌≡◌, refl, ap, ◌∙◌, inl, inr, List, [], ◌∷◌, Bool-cases, ltb, length}
use rtype.Wire.Endian.{Host}
use rtype.Wire.Packet.{Packet, new_packet, write_int, write_deque, done, throws}
use rtype.Wire.Header.{flag_unreliable}
use rtype.Session.State.{Session, next_u32}
use rtype.Session.Outgoing.{
  raw_send, send_rich_ack, send_chunks, internal_send_ack, ack_id, rich_ack_id, internal_channel_id,
}

internal_send_ack-plain :
    (host : Host) (now : ℕ) (s : Session)
    → s.pending_rich_acks ≡ []
    → internal_send_ack host now s
      ≡ raw_send host now
          (new_packet ack_id flag_unreliable internal_channel_id)
          s.local_sequence_id
          0
          (record s { local_sequence_id = next_u32 s.local_sequence_id })
unfolding internal_send_ack
internal_send_ack-plain host now s e = simp (e, internal_send_ack) refl

module _ {A : Type 0} (f : Session → A) (host : Host) (now : ℕ)
    (sending : (p : Packet) (s : Session)
      → f (
          raw_send host now p s.local_sequence_id 0
            (record s { local_sequence_id = next_u32 s.local_sequence_id }))
        ≡ f s)
    (clearing : (s : Session) → f (record s { pending_rich_acks = [] }) ≡ f s) where
  kept-send_rich_ack : (acks : List ℕ) (s : Session) → f (send_rich_ack host now acks s) ≡ f s
  unfolding send_rich_ack
  kept-send_rich_ack acks s =
      elim (write_deque host (write_int host 4) acks
          (new_packet rich_ack_id flag_unreliable internal_channel_id))
        as (λ o.
          f (elim o [
            | done _ p ↦
                raw_send host now p s.local_sequence_id 0
                  (record s { local_sequence_id = next_u32 s.local_sequence_id })
            | throws _ _ ↦ s
          ])
          ≡ f s) [ done _ p ↦ sending p s | throws _ _ ↦ refl ]

  kept-send_chunks :
      (fuel processed : ℕ) (acks : List ℕ) (s : Session)
      → f (send_chunks host now fuel processed acks s) ≡ f s
  unfolding send_chunks
  kept-send_chunks zero processed acks s = refl
  kept-send_chunks (suc fuel) processed acks s = elim (Bool-cases (ltb processed (length acks))) [
    | inl more ↦
        rw (more, send_chunks)
          (kept-send_chunks fuel _ acks (send_rich_ack host now _ s) ∙ kept-send_rich_ack _ s)
    | inr no_more ↦ rw (no_more, send_chunks) refl
  ]

  pub kept-internal_send_ack : (s : Session) → f (internal_send_ack host now s) ≡ f s
  unfolding internal_send_ack
  kept-internal_send_ack s = go s.pending_rich_acks refl
    where
      go : (acks : List ℕ) → s.pending_rich_acks ≡ acks → f (internal_send_ack host now s) ≡ f s
      go [] e =
          ap f (internal_send_ack-plain host now s e)
          ∙ sending (new_packet ack_id flag_unreliable internal_channel_id) s
      go (a ∷ acks) e =
          simp (e, internal_send_ack)
            (clearing (send_chunks host now (length (a ∷ acks)) 0 (a ∷ acks) s)
              ∙ kept-send_chunks (length (a ∷ acks)) 0 (a ∷ acks) s)
