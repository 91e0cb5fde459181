-- ===== src/Session/AckBytes.antt =====
-- `_internal_sendAck` and `checkForOldPackets` in session.cpp: the bytes of a rich ACK, from the
-- sender to the peer that reads it.
use rtype.Base.{
  ℕ, ◌*◌, ◌<◌, ◌≡◌, refl, sym, ap, ◌∙◌, List, [], ◌∷◌, ◌++◌, some, length, drop-append,
  length-append, append-nil, All, u16_mod, u32_mod, ltb, ◌==◌, ◌&&◌, if-eq-then, arith,
}
use rtype.Wire.Endian.{Host, network_bytes, length-network_bytes}
use rtype.Wire.Packet.{
  Packet, new_packet, done, throws, write_int, write_deque, read_int, read_deque,
}
use rtype.Wire.Header.{Header, header_size, parse, serialize, success, flag_unreliable}
use rtype.Wire.Framing.{length-serialize}
use rtype.Wire.Codec.{extend, unread}
use rtype.Wire.Sequence.{encode_all, int_codec, deque_codec}
use rtype.Session.Outgoing.{rich_ack_id, internal_channel_id}
use rtype.Session.RichRead.{acked_ids}
use rtype.Session.Incoming.{incoming_packet}

abbrev pub ack_bytes : List ℕ → List ℕ
ack_bytes acks = network_bytes 2 (length acks) ++ encode_all (network_bytes 4) acks

abbrev pub ack_packet : List ℕ → Packet
ack_packet acks =
    extend (ack_bytes acks) (new_packet rich_ack_id flag_unreliable internal_channel_id)

abbrev pub IsAcks : List ℕ → Type 0
IsAcks acks = (length acks < u16_mod) × All (λ n. n < u32_mod) acks

pub write-acks :
    (host : Host) (acks : List ℕ) (p : Packet)
    → IsAcks acks
    → write_deque host (write_int host 4) acks p ≡ done tt (extend (ack_bytes acks) p)
unfolding deque_codec int_codec
write-acks host acks p fit = (deque_codec host (int_codec host 4 (omega arith))).writes acks p fit

-- The packet that a peer reads the IDs of.
read-acks :
    (peer : Host) (acks : List ℕ) (p : Packet)
    → IsAcks acks
    → unread p ≡ ack_bytes acks
    → elim (read_deque peer (read_int peer 4) p) [ done ids _ ↦ ids | throws _ _ ↦ [] ] ≡ acks
unfolding deque_codec int_codec
read-acks peer acks p fit seen =
    rw
      ((deque_codec peer (int_codec peer 4 (omega arith))).reads acks [] p fit
        (seen ∙ sym (append-nil (ack_bytes acks))))
      refl

pub length-encode_all :
    (acks : List ℕ) → length (encode_all (network_bytes 4) acks) ≡ 4 * length acks
length-encode_all [] = omega arith
length-encode_all (a ∷ acks) = omega (
  arith,
  length-append (network_bytes 4 a) (encode_all (network_bytes 4) acks),
  length-network_bytes 4 a,
  length-encode_all acks,
)

acked_ids-header :
    (peer : Host) (raw : List ℕ) (h : Header)
    → (parse peer raw).header ≡ some h
    → h.message_id ≡ rich_ack_id
    → header_size < length raw
    → acked_ids peer raw ≡ elim (read_deque peer (read_int peer 4) (incoming_packet peer h raw)) [
      | done ids _ ↦ ids
      | throws _ _ ↦ []
    ]
unfolding acked_ids
acked_ids-header peer raw h e rich long =
    rw (e, acked_ids)
      (if-eq-then _ _ {b = h.message_id == rich_ack_id && ltb header_size (length raw)}
        (ground (arith, rich, long)))

pub acked_ids-eq :
    (host peer : Host) (h : Header) (acks : List ℕ)
    → IsAcks acks
    → h.message_id ≡ rich_ack_id
    → parse peer (serialize host h ++ ack_bytes acks) ≡ success h
    → acked_ids peer (serialize host h ++ ack_bytes acks) ≡ acks
unfolding incoming_packet
acked_ids-eq host peer h acks fit rich parsed =
    let raw = serialize host h ++ ack_bytes acks in
    acked_ids-header peer raw h (ap (λ r. r.header) parsed) rich (
      omega (
        arith,
        length-append (serialize host h) (ack_bytes acks),
        length-serialize host h,
        length-append (network_bytes 2 (length acks)) (encode_all (network_bytes 4) acks),
        length-network_bytes 2 (length acks),
      ))
    ∙ read-acks peer acks (incoming_packet peer h raw) fit
        (drop-append header_size (serialize host h) (ack_bytes acks) (length-serialize host h))
