-- ===== src/Tests/Session.antt =====
-- lib/rtnt/src/core/session.cpp on concrete windows, channels and datagrams.
use mathlib.Core.List.{Mem}
use mathlib.Core.Logic.{◌↔◌}
use rtype.Base.{
  ℕ, ◌+◌, ◌≡◌, refl, ap, List, [], ◌∷◌, ◌++◌, none, some, true, false, ◌||◌, ◌&&◌, ◌==◌, leb, ltb,
  length, lookup, bit_at-pow, if◌then◌else◌, arith,
}
use rtype.Wire.Endian.{little}
use rtype.Wire.Packet.{Packet, new_packet}
use rtype.Wire.Header.{Header, default_header, parse, serialize, flag_has_ack}
use rtype.Wire.Framing.{IsHeader, parse-serialize}
use rtype.Session.Window.{Window, update_acknowledge_info, is_duplicate, contains}
use rtype.Session.Received.{IsWindow, is_duplicate-update}
use rtype.Session.Invariant.{update-IsWindow}
use rtype.Session.History.{receive_all, is_duplicate-receive_all}
use rtype.Session.WideShift.{is_duplicate-wide_shift}
use rtype.Session.State.{Session, SentPacketInfo, new_session}
use rtype.Session.Order.{segment, deliver_all, empty_channel, contains_through, deliver_all-exact}
use rtype.Session.Incoming.{acknowledge, handle_incoming}
use rtype.Session.Acked.{lookup-acknowledge}
use rtype.Session.Once.{fresh_packets}
use rtype.Session.Run.{sequence_ids, handle_all, handle_incoming-once}

-- The hardware whose shift by the full width clears the word.
abbrev clear : ℕ → ℕ
clear b = 0

-- The IDs 10 and 8 have arrived, and 6, 5 and so on have not.
abbrev seen_two : Window
seen_two = record {
  has_received_remote_packet = true;
  remote_acknowledge_id = 10;
  remote_acknowledge_bitfield = 2;
  old_packet_history = [];
}

seen_two-IsWindow : IsWindow seen_two
seen_two-IsWindow = record {
  ack_fits = omega arith;
  bits_fit = omega arith;
  bits_behind = λ k set. ground (arith, bit_at-pow 1 k);
  history_old = tt;
  fresh = λ e. cc;
}

is_duplicate-receive_all_example :
    (is_duplicate
        (receive_all clear
          (record {
            has_received_remote_packet = false;
            remote_acknowledge_id = 0;
            remote_acknowledge_bitfield = 0;
            old_packet_history = [];
          })
          (3 ∷ 90 ∷ 3 ∷ []))
        3
      ≡ true)
    ↔ Mem {A = ℕ} 3 (3 ∷ 90 ∷ 3 ∷ [])
is_duplicate-receive_all_example =
    is_duplicate-receive_all clear (λ b. refl) (3 ∷ 90 ∷ 3 ∷ []) 3
      (omega arith, (omega arith, (omega arith, tt))) (omega arith)

is_duplicate-update_example :
    is_duplicate (update_acknowledge_info clear seen_two 42) 9
    ≡ (9 == 42 || is_duplicate seen_two 9)
is_duplicate-update_example =
    is_duplicate-update clear seen_two 42 9 seen_two-IsWindow (omega arith) (omega arith)
      (λ e. refl)

update-IsWindow_example : IsWindow (update_acknowledge_info clear seen_two 42)
update-IsWindow_example =
    update-IsWindow clear seen_two 42 seen_two-IsWindow (omega arith) (λ b. omega arith)

is_duplicate-wide_shift_example :
    (is_duplicate seen_two 40 ≡ false)
    × (is_duplicate (update_acknowledge_info (λ b. b) seen_two 42) 40 ≡ true)
is_duplicate-wide_shift_example =
    is_duplicate-wide_shift seen_two 1 seen_two-IsWindow refl (omega arith)
      (ground (arith, bit_at-pow 1 1)) (omega arith)

abbrev ordered_packet : ℕ → Packet
ordered_packet k = new_packet k 4 0

deliver_all-exact_example :
    let out = deliver_all ordered_packet (2 ∷ 0 ∷ 2 ∷ 1 ∷ []) empty_channel in
    (out.0 ≡ segment ordered_packet 0 (length out.0))
    × (ltb 2 (length out.0) ≡ contains_through 2 (2 ∷ 0 ∷ 2 ∷ 1 ∷ []))
deliver_all-exact_example =
    deliver_all-exact ordered_packet 3 (omega arith) (2 ∷ 0 ∷ 2 ∷ 1 ∷ []) 2
      (omega arith, (omega arith, (omega arith, (omega arith, tt))))

abbrev waiting : ℕ → SentPacketInfo
waiting n = record {
  packet = new_packet 7 4 0;
  sent_time = 0;
  sequence_id = n;
  order_id = 0;
  retries = 0;
}

abbrev acked : Session
acked = record (new_session 1 2 0) { sent_packets = (8, waiting 8) ∷ (9, waiting 9) ∷ [] }

abbrev with_window : Header
with_window = record default_header {
  acknowledge_id = 10;
  acknowledge_bitfield = 2;
  flags = flag_has_ack;
}

lookup-acknowledge_example :
    lookup 8 (acknowledge 50 with_window acked).sent_packets
    ≡ (if is_duplicate seen_two 8 && leb 10 (8 + 32) then none else lookup 8 acked.sent_packets)
lookup-acknowledge_example =
    lookup-acknowledge 50 8 with_window acked seen_two seen_two-IsWindow refl refl refl
      (λ e. absurd (omega (arith, e)))

-- A datagram of sequence ID 5.
abbrev fifth : Header
fifth = record default_header { sequence_id = 5; message_id = 7 }

fifth-IsHeader : IsHeader fifth
fifth-IsHeader = record {
  protocol_fits = omega arith;
  version_fits = omega arith;
  sequence_id_fits = omega arith;
  channel_id_fits = omega arith;
  order_id_fits = omega arith;
  acknowledge_id_fits = omega arith;
  acknowledge_bitfield_fits = omega arith;
  message_id_fits = omega arith;
  flags_fits = omega arith;
  packet_size_fits = omega arith;
}

abbrev datagram : List ℕ
datagram = serialize little fifth ++ []

parse-datagram : (parse little datagram).header ≡ some fifth
parse-datagram = ap (λ r. r.header) (parse-serialize little little fifth [] fifth-IsHeader)

sequence_ids-datagram : sequence_ids little ((0, datagram) ∷ []) ≡ 5 ∷ []
unfolding sequence_ids
sequence_ids-datagram = rw (parse-datagram, sequence_ids) refl

handle_incoming-once_example :
    let s = handle_all little clear ((0, datagram) ∷ []) (new_session 1 2 0) in
    (handle_incoming little clear 3 datagram s).1 ≡ (
      if contains 5 (sequence_ids little ((0, datagram) ∷ []))
      then []
      else fresh_packets little clear 3 fifth datagram s)
handle_incoming-once_example =
    handle_incoming-once little clear (λ b. refl) 1 2 0 3 ((0, datagram) ∷ []) datagram fifth
      (rw sequence_ids-datagram (omega arith, tt)) (rw sequence_ids-datagram (omega arith))
      parse-datagram
