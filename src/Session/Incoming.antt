-- ===== src/Session/Incoming.antt =====
-- lib/rtnt/src/core/session.cpp: `handleIncoming` and `checkForOldPackets`.
use rtype.Base.{
  ℕ, zero, suc, ◌+◌, ◌-◌, ◌/◌, List, [], ◌∷◌, ◌++◌, none, some, Bool, true, false, not, ◌&&◌, ◌==◌,
  ltb, leb, length, drop, bit_and, has_bit, sub32, lookup, insert, erase, lookup_or, if◌then◌else◌,
}
use rtype.Wire.Endian.{Host}
use rtype.Wire.Packet.{Packet, new_packet, set_payload, done, throws, read_int, read_deque}
use rtype.Wire.Header.{Header, header_size, parse, flag_has_ack}
use rtype.Session.Window.{update_acknowledge_info, is_duplicate}
use rtype.Session.State.{
  Session, SentPacketInfo, next_u32, add_u64, count_received, update_rtt, milliseconds,
}
use rtype.Session.Outgoing.{internal_send_ack, is_ordered, ack_id, rich_ack_id}
use rtype.Session.Reorder.{deliver}

abbrev pub ack_packet_threshold : ℕ
ack_packet_threshold = 16

abbrev pub is_empty {ℓ} : {A : Type ℓ} → List A → Bool
is_empty [] = true
is_empty (x ∷ xs) = false

-- The loop over the 32 bits of an acknowledge bitfield, from bit `i` on.
unfoldable pub erase_acked : ℕ → ℕ → ℕ → ℕ → List (ℕ × SentPacketInfo) → List (ℕ × SentPacketInfo)
erase_acked ack bits i zero sent = sent
erase_acked ack bits i (suc n) sent =
    erase_acked ack bits (i + 1) n (if has_bit bits i then erase (sub32 ack (i + 1)) sent else sent)

unfoldable pub erase_all : List ℕ → List (ℕ × SentPacketInfo) → List (ℕ × SentPacketInfo)
erase_all [] sent = sent
erase_all (a ∷ acks) sent = erase_all acks (erase a sent)

module _ (now : ℕ) where
  -- The packet that an acknowledge ID names: its round trip is measured if it was sent once.
  unfoldable pub acknowledge_one : ℕ → Session → Session
  acknowledge_one ack s = elim (lookup ack s.sent_packets) [
    | none ↦ s
    | some info ↦ record s {
      metrics =
          if info.retries == 0
          then update_rtt ((now - info.sent_time) / milliseconds 1) s.metrics
          else s.metrics;
      sent_packets = erase ack s.sent_packets;
    }
  ]

  unfoldable pub acknowledge : Header → Session → Session
  unfolding acknowledge_one
  acknowledge h s =
      let s' = acknowledge_one h.acknowledge_id s in
      if not (bit_and h.flags flag_has_ack == 0) && not (is_empty s.sent_packets)
      then record s' {
        sent_packets = erase_acked h.acknowledge_id h.acknowledge_bitfield 0 32 s'.sent_packets;
      }
      else s

  -- The clock and the counters that every datagram moves.
  abbrev pub note_received : Header → List ℕ → Session → Session
  note_received h bytes s = record s {
    last_seen = now;
    metrics = count_received h.channel_id (length bytes) s.metrics;
  }

module _ (host : Host) where
  -- The packet that is made of a header and the bytes behind it.
  unfoldable pub incoming_packet : Header → List ℕ → Packet
  incoming_packet h bytes = set_payload (drop header_size bytes) (new_packet h.message_id h.flags 0)

  unfoldable pub check_for_old_packets : List ℕ → Header → Session → Session
  unfolding incoming_packet
  check_for_old_packets bytes h s =
      if ltb header_size (length bytes)
      then elim (read_deque host (read_int host 4) (incoming_packet h bytes)) [
        | done acks _ ↦
            if is_empty s.sent_packets
            then s
            else record s { sent_packets = erase_all acks s.sent_packets }
        | throws _ _ ↦ s
      ]
      else s

  -- An ordered packet, on the channel and under the order ID of its header.
  unfoldable pub deliver_ordered : Header → Packet → Session → Session × List Packet
  deliver_ordered h p s =
      let (ready, c) = deliver h.order_id p (record {
        next_expected = lookup_or h.channel_id 0 s.next_expected_order_ids;
        reorder_buffer = lookup_or h.channel_id [] s.reorder_buffers;
      }) in
      (
        record s {
          next_expected_order_ids = insert h.channel_id c.next_expected s.next_expected_order_ids;
          reorder_buffers = insert h.channel_id c.reorder_buffer s.reorder_buffers;
        },
        ready,
      )

  -- What a packet that is no duplicate brings, once it is accounted for.
  unfoldable pub handle_payload : Header → List ℕ → Session → Session × List Packet
  unfolding incoming_packet
  handle_payload h bytes s =
      if h.message_id == rich_ack_id
      then (check_for_old_packets bytes h s, [])
      else if length bytes - header_size == 0 && h.message_id == ack_id
      then (s, [])
      else if is_ordered (incoming_packet h bytes)
      then deliver_ordered h (incoming_packet h bytes) s
      else (s, incoming_packet h bytes ∷ [])

module _ (host : Host) (wide : ℕ → ℕ) (now : ℕ) where
  -- A sequence ID seen for the first time; every 16th packet in a row is answered by an ACK.
  unfoldable pub account : Header → Session → Session
  account h s =
      let s' = record s {
        window = update_acknowledge_info wide s.window h.sequence_id;
        has_unsent_ack = true;
        packets_since_last_ack = next_u32 s.packets_since_last_ack;
      } in
      if leb ack_packet_threshold s'.packets_since_last_ack
      then internal_send_ack host now s'
      else s'

  abbrev pub note_duplicate : Header → Session → Session
  note_duplicate h s = record s {
    metrics = record s.metrics { duplicate_count = add_u64 s.metrics.duplicate_count 1 };
    pending_rich_acks = s.pending_rich_acks ++ h.sequence_id ∷ [];
    has_unsent_ack = true;
  }

  -- What follows the acknowledgements: the check for a duplicate, then the payload.
  unfoldable pub handle_sequence : Header → List ℕ → Session → Session × List Packet
  handle_sequence h bytes s =
      if is_duplicate s.window h.sequence_id
      then (note_duplicate h s, [])
      else handle_payload host h bytes (account h s)

  unfoldable pub handle_header : Header → List ℕ → Session → Session × List Packet
  handle_header h bytes s =
      handle_sequence h bytes (acknowledge now h (note_received now h bytes s))

  unfoldable pub handle_incoming : List ℕ → Session → Session × List Packet
  handle_incoming bytes s = elim ((parse host bytes).header) [
    | none ↦ (s, [])
    | some h ↦ handle_header h bytes s
  ]
