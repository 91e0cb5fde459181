-- ===== src/Session/RichRead.antt =====
-- `handleIncoming` and `checkForOldPackets` in session.cpp: what a peer forgets for a datagram that is no
-- duplicate, once the acknowledgement in its header is dealt with.
use rtype.Base.{
  ℕ, ◌-◌, ◌≡◌, refl, ap, List, [], ◌∷◌, ◌++◌, none, some, Bool, false, ◌&&◌, ◌||◌, ◌==◌, ltb,
  length, lookup, erase, lookup-erase, if-rule, Option-cases, Bool-cases, inl, inr, if◌then◌else◌,
  arith,
}
use rtype.Wire.Endian.{Host}
use rtype.Wire.Packet.{Packet, Outcome, done, throws, read_int, read_deque}
use rtype.Wire.Header.{Header, header_size, parse}
use rtype.Session.State.{Session, SentPacketInfo}
use rtype.Session.Outgoing.{rich_ack_id, ack_id, is_ordered}
use rtype.Session.Acked.{lookup-is_empty}
use rtype.Session.Incoming.{
  incoming_packet, is_empty, erase_all, check_for_old_packets, deliver_ordered, handle_payload,
}

-- The IDs that a peer reads of one rich ACK, and of several.
unfoldable pub acked_ids : Host → List ℕ → List ℕ
acked_ids peer raw = elim ((parse peer raw).header) [
  | none ↦ []
  | some h ↦
      if h.message_id == rich_ack_id && ltb header_size (length raw)
      then elim (read_deque peer (read_int peer 4) (incoming_packet peer h raw)) [
        | done acks _ ↦ acks
        | throws _ _ ↦ []
      ]
      else []
]

unfoldable pub acked_in : Host → List (List ℕ) → List ℕ
acked_in peer [] = []
acked_in peer (raw ∷ raws) = acked_ids peer raw ++ acked_in peer raws

-- The peer's session once the payload of the datagram, and of several, is handled.
unfoldable pub read_one : Host → List ℕ → Session → Session
read_one peer raw t = elim ((parse peer raw).header) [
  | none ↦ t
  | some h ↦ (handle_payload peer h raw t).0
]

unfoldable pub read_each : Host → List (List ℕ) → Session → Session
read_each peer [] t = t
read_each peer (raw ∷ raws) t = read_each peer raws (read_one peer raw t)

unfoldable pub is_acked : ℕ → List ℕ → Bool
is_acked k [] = false
is_acked k (a ∷ acks) = a == k || is_acked k acks

-- The packets are forgotten whose IDs are in the list.
abbrev Forgets : ℕ → List ℕ → Session → Session → Type 0
Forgets k acks t u =
    lookup k u.sent_packets ≡ (if is_acked k acks then none else lookup k t.sent_packets)

lookup-erase_all :
    (k : ℕ) (acks : List ℕ) (sent : List (ℕ × SentPacketInfo))
    → lookup k (erase_all acks sent) ≡ (if is_acked k acks then none else lookup k sent)
unfolding erase_all is_acked
lookup-erase_all k [] sent = ground arith
lookup-erase_all k (a ∷ acks) sent =
    ground (arith, lookup-erase_all k acks (erase a sent), lookup-erase a k sent)

module _ (peer : Host) (raw : List ℕ) (h : Header) (k : ℕ) (t : Session) where
  -- The IDs that the payload lists.
  abbrev listed_ids : Outcome (List ℕ) → List ℕ
  listed_ids (done acks _) = acks
  listed_ids (throws _ _) = []

  listed-Forgets :
      (o : Outcome (List ℕ))
      → Forgets k (listed_ids o) t (elim o [
        | done acks _ ↦
            if is_empty t.sent_packets
            then t
            else record t { sent_packets = erase_all acks t.sent_packets }
        | throws _ _ ↦ t
      ])
  unfolding is_acked
  listed-Forgets (throws _ _) = refl
  listed-Forgets (done acks _) =
      if-rule (λ (u : Session). Forgets k acks t u) (is_empty t.sent_packets)
        (λ nothing. ground (arith, lookup-is_empty k t.sent_packets nothing))
        (λ some_sent. lookup-erase_all k acks t.sent_packets)

  check-Forgets :
      Forgets k
        (if ltb header_size (length raw)
          then listed_ids (read_deque peer (read_int peer 4) (incoming_packet peer h raw))
          else [])
        t
        (check_for_old_packets peer raw h t)
  unfolding check_for_old_packets is_acked
  check-Forgets = elim (Bool-cases (ltb header_size (length raw))) [
    | inl long ↦
        rw (long, check_for_old_packets)
          (listed-Forgets (read_deque peer (read_int peer 4) (incoming_packet peer h raw)))
    | inr short ↦ rw (short, check_for_old_packets) refl
  ]

  sent-deliver_ordered : (p : Packet) → (deliver_ordered peer h p t).0.sent_packets ≡ t.sent_packets
  unfolding deliver_ordered
  sent-deliver_ordered p = refl

  payload-Forgets :
      Forgets k
        (if h.message_id == rich_ack_id && ltb header_size (length raw)
          then listed_ids (read_deque peer (read_int peer 4) (incoming_packet peer h raw))
          else [])
        t
        (handle_payload peer h raw t).0
  unfolding handle_payload is_acked
  payload-Forgets = elim (Bool-cases (h.message_id == rich_ack_id)) [
    | inl rich ↦ rw (rich, handle_payload) check-Forgets
    | inr other ↦
        rw (other, handle_payload)
          (if-rule (λ (r : Session × List Packet). Forgets k [] t r.0)
            (length raw - header_size == 0 && h.message_id == ack_id) (λ plain. refl)
            (λ full.
              if-rule (λ (r : Session × List Packet). Forgets k [] t r.0)
                (is_ordered (incoming_packet peer h raw))
                (λ ordered. ap (lookup k) (sent-deliver_ordered (incoming_packet peer h raw)))
                (λ unordered. refl)))
  ]

read_one-Forgets :
    (peer : Host) (raw : List ℕ) (k : ℕ) (t : Session)
    → Forgets k (acked_ids peer raw) t (read_one peer raw t)
unfolding acked_ids read_one is_acked
read_one-Forgets peer raw k t = elim (Option-cases ((parse peer raw).header)) [
  | inl bad ↦ rw (bad, acked_ids, read_one) refl
  | inr (h, parsed) ↦ rw (parsed, acked_ids, read_one) (payload-Forgets peer raw h k t)
]

is_acked-append :
    (k : ℕ) (xs ys : List ℕ) → is_acked k (xs ++ ys) ≡ (is_acked k xs || is_acked k ys)
unfolding is_acked
is_acked-append k [] ys = refl
is_acked-append k (x ∷ xs) ys = ground (arith, is_acked-append k xs ys)

-- What the peer forgets for several datagrams is what it reads of them.
pub read_each-Forgets :
    (peer : Host) (raws : List (List ℕ)) (k : ℕ) (t : Session)
    → lookup k (read_each peer raws t).sent_packets
      ≡ (if is_acked k (acked_in peer raws) then none else lookup k t.sent_packets)
unfolding read_each acked_in is_acked
read_each-Forgets peer [] k t = refl
read_each-Forgets peer (raw ∷ raws) k t = ground (
  arith,
  read_each-Forgets peer raws k (read_one peer raw t),
  read_one-Forgets peer raw k t,
  is_acked-append k (acked_ids peer raw) (acked_in peer raws),
)
