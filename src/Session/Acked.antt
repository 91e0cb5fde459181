-- ===== src/Session/Acked.antt =====
-- Which packets an incoming header makes a session forget: those that the window in it reports, as far
-- as the bitfield reaches.
use rtype.Base.{
  ℕ, zero, suc, ◌+◌, ◌≡◌, ◌≢◌, refl, ◌∙◌, inl, inr, List, [], ◌∷◌, none, true, false, ◌&&◌, ◌||◌,
  ◌==◌, leb, bit_and, has_bit, sub32, lookup, erase, lookup-erase, Option-cases, Bool-cases,
  if◌then◌else◌, arith,
}
use rtype.Wire.Header.{Header, flag_has_ack}
use rtype.Session.Window.{Window, contains, pushed, is_duplicate}
use rtype.Session.Received.{IsWindow, contains-pushed, seen, is_duplicate-seen}
use rtype.Session.State.{Session, SentPacketInfo}
use rtype.Session.Incoming.{erase_acked, acknowledge_one, acknowledge, is_empty}

lookup-erase_acked :
    (ack bits i n k : ℕ) (sent : List (ℕ × SentPacketInfo))
    → lookup k (erase_acked ack bits i n sent)
      ≡ (if contains k (pushed ack bits i n) then none else lookup k sent)
unfolding erase_acked contains pushed
lookup-erase_acked ack bits i zero k sent = refl
lookup-erase_acked ack bits i (suc n) k sent = elim (Bool-cases (has_bit bits i)) [
  | inl set ↦
      rw (set, pushed, erase_acked)
        (lookup-erase_acked ack bits (i + 1) n k (erase (sub32 ack (i + 1)) sent)
          ∙ ground (arith, lookup-erase (sub32 ack (i + 1)) k sent))
  | inr clear ↦ rw (clear, pushed, erase_acked) (lookup-erase_acked ack bits (i + 1) n k sent)
]

lookup-acknowledge_one :
    (now ack k : ℕ) (s : Session)
    → lookup k (acknowledge_one now ack s).sent_packets
      ≡ (if ack == k then none else lookup k s.sent_packets)
unfolding acknowledge_one
lookup-acknowledge_one now ack k s = elim (Option-cases (lookup ack s.sent_packets)) [
  | inl absent ↦ rw (absent, acknowledge_one) (ground (arith, absent))
  | inr (info, present) ↦ rw (present, acknowledge_one) (lookup-erase ack k s.sent_packets)
]

pub lookup-is_empty :
    (k : ℕ) (sent : List (ℕ × SentPacketInfo)) → is_empty sent ≡ true → lookup k sent ≡ none
unfolding lookup
lookup-is_empty k [] e = refl
lookup-is_empty k (x ∷ sent) e = absurd (let f : false ≡ true = e in cc)

lookup-acknowledge_flagged :
    (now k : ℕ) (h : Header) (s : Session)
    → bit_and h.flags flag_has_ack ≢ 0
    → lookup k (acknowledge now h s).sent_packets ≡ (
        if h.acknowledge_id == k || contains k (pushed h.acknowledge_id h.acknowledge_bitfield 0 32)
        then none
        else lookup k s.sent_packets)
unfolding acknowledge
lookup-acknowledge_flagged now k h s flagged =
    let raised : (bit_and h.flags flag_has_ack == 0) ≡ false = ground arith in
    rw raised (elim (Bool-cases (is_empty s.sent_packets)) [
      | inl none_sent ↦ simp none_sent (ground (arith, lookup-is_empty k s.sent_packets none_sent))
      | inr some_sent ↦ simp some_sent (
          lookup-erase_acked h.acknowledge_id h.acknowledge_bitfield 0 32 k
            (acknowledge_one now h.acknowledge_id s).sent_packets
          ∙ ground (arith, lookup-acknowledge_one now h.acknowledge_id k s))
    ])

-- A header that is flagged to carry an acknowledgement, and carries the well-formed window of a
-- peer that has received something, makes the session forget a sent packet exactly when
-- `isDuplicate` of that window reports its ID and the ID is at most 32 behind the window's head.
pub lookup-acknowledge :
    (now k : ℕ) (h : Header) (s : Session) (w : Window)
    → IsWindow w
    → w.has_received_remote_packet ≡ true
    → h.acknowledge_id ≡ w.remote_acknowledge_id
    → h.acknowledge_bitfield ≡ w.remote_acknowledge_bitfield
    → bit_and h.flags flag_has_ack ≢ 0
    → lookup k (acknowledge now h s).sent_packets ≡ (
        if is_duplicate w k && leb w.remote_acknowledge_id (k + 32)
        then none
        else lookup k s.sent_packets)
unfolding seen
lookup-acknowledge now k h s w v received same_ack same_bits flagged =
    lookup-acknowledge_flagged now k h s flagged
    ∙ ground (
      arith,
      is_duplicate-seen w k received v.ack_fits,
      contains-pushed w.remote_acknowledge_id w.remote_acknowledge_bitfield v.ack_fits v.bits_behind
          k 0 32,
      same_ack,
      same_bits,
    )
