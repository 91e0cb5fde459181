-- ===== src/Tests/Sending.antt =====
-- `send` and `update` of lib/rtnt/src/core/session.cpp on a concrete session.
use rtype.Base.{
  List, List, ◌≡◌, refl, [], ◌∷◌, ◌++◌, some, ◌==◌, lookup, lookup_or, if◌then◌else◌, arith,
}
use rtype.Wire.Endian.{little, big}
use rtype.Wire.Packet.{Packet, new_packet, set_payload}
use rtype.Wire.Header.{Header, parse, serialize, success, flag_unreliable}
use rtype.Session.State.{Session, new_session}
use rtype.Session.Outgoing.{outgoing_header, send, is_ordered}
use rtype.Session.Delivery.{IsSendable, IsCounting, sent_info, parse-send, lookup-send}
use rtype.Session.Resend.{due_datagrams}
use rtype.Session.SentAgain.{late_datagrams, handed_on}

abbrev start : Session
start = record (new_session 1 2 0) { local_sequence_id = 4; local_order_ids = (3, 9) ∷ [] }

-- Reliable and ordered, on channel 3, with two bytes of payload.
abbrev move : Packet
move = set_payload (8 ∷ 9 ∷ []) (new_packet 130 6 3)

move-IsSendable : IsSendable move
move-IsSendable = record {
  message_id_fits = omega arith;
  flag_fits = omega arith;
  channel_id_fits = omega arith;
  payload_fits = omega arith;
}

start-IsCounting : IsCounting start
unfolding new_session lookup
start-IsCounting = record {
  sequence_fits = omega arith;
  order_fits = λ c. ground arith;
  acknowledge_fits = omega arith;
  bitfield_fits = omega arith;
}

parse-send_example :
    (h : Header) × ((send little 70 move start).transmitted
      ≡ start.transmitted ++ (serialize little h ++ move.buffer) ∷ [])
    × (parse big (serialize little h ++ move.buffer) ≡ success h)
    × (h.sequence_id ≡ 4)
    × (h.message_id ≡ 130)
    × (h.channel_id ≡ 3)
    × (h.order_id ≡ (if is_ordered move then lookup_or 3 0 start.local_order_ids else 0))
unfolding new_session
parse-send_example = parse-send little 70 big move start move-IsSendable start-IsCounting refl

lookup-send_example : lookup 4 (send little 70 move start).sent_packets ≡ (
    if move.flag == flag_unreliable
    then lookup 4 start.sent_packets
    else if 4 == 4
    then some
        (sent_info 70 move 4 (if is_ordered move then lookup_or 3 0 start.local_order_ids else 0))
    else lookup 4 start.sent_packets)
lookup-send_example = lookup-send little 70 move start 4

-- A packet sent at time 0.
abbrev late : Session
late = record start { sent_packets = (2, sent_info 0 move 2 0) ∷ [] }

due-late :
    due_datagrams little 250000000 late
    ≡ (serialize little (outgoing_header little 250000000 move 2 0 late) ++ move.buffer) ∷ []
unfolding due_datagrams late_datagrams handed_on new_session
due-late = refl

-- Two duplicates are waiting to be acknowledged.
abbrev owing : Session
owing = record start { pending_rich_acks = 7 ∷ 9 ∷ [] }
