-- ===== src/Session/Delivery.antt =====
-- What the peer reads of a packet that `send` in session.cpp hands to the send function.
use native.Mathlib.Nat.{mod-le}
use rtype.Base.{
  ℕ, ◌≤◌, ◌<◌, ◌≡◌, refl, ap, ◌∙◌, inl, inr, List, [], ◌∷◌, ◌++◌, some, true, ◌==◌, leb, length,
  lookup, lookup_or, lookup-insert, bit_or-lt, Bool-cases, if◌then◌else◌, u8_mod, u16_mod, u32_mod,
  arith,
}
use rtype.Wire.Endian.{Host}
use rtype.Wire.Packet.{Packet}
use rtype.Wire.Header.{
  Header, parse, serialize, success, failure, payload_size_mismatch, protocol_mismatch,
  flag_unreliable, flag_has_ack,
}
use rtype.Wire.Framing.{IsHeader, parse-serialize}
use rtype.Session.Window.{Window}
use rtype.Session.State.{Session, SentPacketInfo, next_u32}
use rtype.Session.Outgoing.{
  outgoing_header, raw_send, take_order_id, remember_sent, send, is_ordered,
}

-- A packet whose fields fit the header.
pub record IsSendable (p : Packet) : Type 0 where
  pub message_id_fits : p.message_id < u16_mod
  pub flag_fits : p.flag < u8_mod
  pub channel_id_fits : p.channel_id < u8_mod
  pub payload_fits : length p.buffer < u16_mod

-- Counters that are 32 bits wide.
pub record IsCounting (s : Session) : Type 0 where
  pub sequence_fits : s.local_sequence_id < u32_mod
  pub order_fits : (c : ℕ) → lookup_or c 0 s.local_order_ids < u32_mod
  pub acknowledge_fits : s.remote_acknowledge_id < u32_mod
  pub bitfield_fits : s.remote_acknowledge_bitfield < u32_mod

-- What is kept of a packet that was just sent.
abbrev pub sent_info : ℕ → Packet → ℕ → ℕ → SentPacketInfo
sent_info now p sequence_id order_id = record {
  packet = p;
  sent_time = now;
  sequence_id = sequence_id;
  order_id = order_id;
  retries = 0;
}

accepts :
    (h : Header) (payload : List ℕ)
    → h.protocol ≡ 0x2204
    → h.packet_size ≤ length payload
    → (if h.protocol == 0x2204
        then if leb h.packet_size (length payload) then success h else failure payload_size_mismatch
        else failure protocol_mismatch)
      ≡ success h
accepts h payload known enough = ground arith

module _ (host : Host) (now : ℕ) where
  pub outgoing_header-IsHeader :
      (p : Packet) (sequence_id order_id : ℕ) (s : Session)
      → IsSendable p
      → sequence_id < u32_mod
      → order_id < u32_mod
      → s.remote_acknowledge_id < u32_mod
      → s.remote_acknowledge_bitfield < u32_mod
      → IsHeader (outgoing_header host now p sequence_id order_id s)
  unfolding outgoing_header
  outgoing_header-IsHeader p sequence_id order_id s v seq ord ack bits = record {
    protocol_fits = omega arith;
    version_fits = omega arith;
    sequence_id_fits = seq;
    channel_id_fits = v.channel_id_fits;
    order_id_fits = ord;
    acknowledge_id_fits = ack;
    acknowledge_bitfield_fits = bits;
    message_id_fits = v.message_id_fits;
    flags_fits = ground (arith, bit_or-lt 8 p.flag flag_has_ack v.flag_fits (omega arith));
    packet_size_fits = omega arith;
  }

  protocol-outgoing_header :
      (p : Packet) (sequence_id order_id : ℕ) (s : Session)
      → (outgoing_header host now p sequence_id order_id s).protocol ≡ 0x2204
  unfolding outgoing_header
  protocol-outgoing_header p sequence_id order_id s = refl

  packet_size-outgoing_header :
      (p : Packet) (sequence_id order_id : ℕ) (s : Session)
      → (outgoing_header host now p sequence_id order_id s).packet_size ≤ length p.buffer
  unfolding outgoing_header
  packet_size-outgoing_header p sequence_id order_id s =
      omega (arith, mod-le (length p.buffer) u16_mod)

  pub parse-outgoing :
      (peer : Host) (p : Packet) (sequence_id order_id : ℕ) (s : Session)
      → IsSendable p
      → sequence_id < u32_mod
      → order_id < u32_mod
      → s.remote_acknowledge_id < u32_mod
      → s.remote_acknowledge_bitfield < u32_mod
      → let h = outgoing_header host now p sequence_id order_id s in
        parse peer (serialize host h ++ p.buffer) ≡ success h
  parse-outgoing peer p sequence_id order_id s v seq ord ack bits =
      let h = outgoing_header host now p sequence_id order_id s in
      parse-serialize host peer h p.buffer
        (outgoing_header-IsHeader p sequence_id order_id s v seq ord ack bits)
      ∙ accepts h p.buffer (protocol-outgoing_header p sequence_id order_id s)
          (packet_size-outgoing_header p sequence_id order_id s)

  -- The order ID that `send` takes, and the session that it hands to `rawSend`.
  unfoldable pub taken_order : Packet → Session → ℕ
  taken_order p s =
      (take_order_id host now p (record s { local_sequence_id = next_u32 s.local_sequence_id })).0

  unfoldable pub numbered : Packet → Session → Session
  numbered p s =
      remember_sent host now p s.local_sequence_id (taken_order p s)
        (take_order_id host now p (record s { local_sequence_id = next_u32 s.local_sequence_id })).1

  send-numbered :
      (p : Packet) (s : Session)
      → send host now p s ≡ raw_send host now p s.local_sequence_id (taken_order p s) (numbered p s)
  unfolding send numbered taken_order
  send-numbered p s = refl

  taken_order-eq :
      (p : Packet) (s : Session)
      → taken_order p s ≡ (if is_ordered p then lookup_or p.channel_id 0 s.local_order_ids else 0)
  unfolding taken_order take_order_id
  taken_order-eq p s = ground arith

  window-numbered : (p : Packet) (s : Session) → (numbered p s).window ≡ s.window
  unfolding numbered taken_order take_order_id remember_sent
  window-numbered p s = ground arith

  transmitted-numbered : (p : Packet) (s : Session) → (numbered p s).transmitted ≡ s.transmitted
  unfolding numbered taken_order take_order_id remember_sent
  transmitted-numbered p s = ground arith

  connected-numbered :
      (p : Packet) (s : Session) → (numbered p s).has_send_function ≡ s.has_send_function
  unfolding numbered taken_order take_order_id remember_sent
  connected-numbered p s = ground arith

  pub transmitted-raw_send :
      (p : Packet) (sequence_id order_id : ℕ) (s : Session)
      → s.has_send_function ≡ true
      → (raw_send host now p sequence_id order_id s).transmitted
        ≡ s.transmitted
          ++ (serialize host (outgoing_header host now p sequence_id order_id s) ++ p.buffer) ∷ []
  unfolding raw_send
  transmitted-raw_send p sequence_id order_id s connected = ground arith

  sent-take_order_id :
      (p : Packet) (s : Session) → (take_order_id host now p s).1.sent_packets ≡ s.sent_packets
  unfolding take_order_id
  sent-take_order_id p s = ground arith

  lookup-remember_sent :
      (p : Packet) (sequence_id order_id k : ℕ) (s : Session)
      → lookup k (remember_sent host now p sequence_id order_id s).sent_packets ≡ (
          if p.flag == flag_unreliable
          then lookup k s.sent_packets
          else if sequence_id == k
          then some (sent_info now p sequence_id order_id)
          else lookup k s.sent_packets)
  unfolding remember_sent
  lookup-remember_sent p sequence_id order_id k s = elim (Bool-cases (p.flag == flag_unreliable)) [
    | inl unreliable ↦ rw unreliable refl
    | inr kept ↦ rw kept (lookup-insert sequence_id k _ s.sent_packets)
  ]

  lookup-numbered :
      (p : Packet) (s : Session) (k : ℕ)
      → lookup k (numbered p s).sent_packets ≡ (
          if p.flag == flag_unreliable
          then lookup k s.sent_packets
          else if s.local_sequence_id == k
          then some (
              sent_info now p s.local_sequence_id
                (if is_ordered p then lookup_or p.channel_id 0 s.local_order_ids else 0))
          else lookup k s.sent_packets)
  unfolding numbered
  lookup-numbered p s k =
      let s0 = record s { local_sequence_id = next_u32 s.local_sequence_id } in
      rw
        (
          lookup-remember_sent p s.local_sequence_id (taken_order p s) k
              (take_order_id host now p s0).1,
          sent-take_order_id p s0,
          taken_order-eq p s,
        )
        refl

  -- In a session that has a send function and whose counters fit 32 bits, a packet whose fields fit
  -- the header is handed to the send function as one datagram behind those before it. The peer
  -- parses it, whatever the byte orders, to a header with the session's next sequence ID, the
  -- packet's own message ID and channel, and, where the packet is ordered, the next order ID of its
  -- channel.
  pub parse-send :
      (peer : Host) (p : Packet) (s : Session)
      → IsSendable p
      → IsCounting s
      → s.has_send_function ≡ true
      → (h : Header) × ((send host now p s).transmitted
          ≡ s.transmitted ++ (serialize host h ++ p.buffer) ∷ [])
        × (parse peer (serialize host h ++ p.buffer) ≡ success h)
        × (h.sequence_id ≡ s.local_sequence_id)
        × (h.message_id ≡ p.message_id)
        × (h.channel_id ≡ p.channel_id)
        × (h.order_id ≡ (if is_ordered p then lookup_or p.channel_id 0 s.local_order_ids else 0))
  parse-send peer p s v c connected =
      let seq = s.local_sequence_id in
      let ord = taken_order p s in
      let h = outgoing_header host now p seq ord (numbered p s) in
      (
        h,
        ap (λ (r : Session). r.transmitted) (send-numbered p s)
            ∙ transmitted-raw_send p seq ord (numbered p s) (connected-numbered p s ∙ connected)
            ∙ ap (λ (ts : List (List ℕ)). ts ++ (serialize host h ++ p.buffer) ∷ [])
                (transmitted-numbered p s),
        parse-outgoing peer p seq ord (numbered p s) v c.sequence_fits
            (ground (arith, taken_order-eq p s, c.order_fits p.channel_id))
            (ground (
              arith,
              ap (λ (w : Window). w.remote_acknowledge_id) (window-numbered p s),
              c.acknowledge_fits,
            ))
            (ground (
              arith,
              ap (λ (w : Window). w.remote_acknowledge_bitfield) (window-numbered p s),
              c.bitfield_fits,
            )),
        unfold outgoing_header in refl,
        unfold outgoing_header in refl,
        unfold outgoing_header in refl,
        unfold outgoing_header in taken_order-eq p s,
      )

  sent-raw_send :
      (p : Packet) (sequence_id order_id : ℕ) (s : Session)
      → (raw_send host now p sequence_id order_id s).sent_packets ≡ s.sent_packets
  unfolding raw_send
  sent-raw_send p sequence_id order_id s = refl

  -- A packet that is not unreliable is kept for retransmission, under its sequence ID and with the IDs
  -- that it was sent under; nothing else that is kept changes, and an unreliable packet is not kept.
  pub lookup-send :
      (p : Packet) (s : Session) (k : ℕ)
      → lookup k (send host now p s).sent_packets ≡ (
          if p.flag == flag_unreliable
          then lookup k s.sent_packets
          else if s.local_sequence_id == k
          then some (
              sent_info now p s.local_sequence_id
                (if is_ordered p then lookup_or p.channel_id 0 s.local_order_ids else 0))
          else lookup k s.sent_packets)
  lookup-send p s k =
      ap (λ (r : Session). lookup k r.sent_packets) (send-numbered p s)
      ∙ ap (lookup k) (sent-raw_send p s.local_sequence_id (taken_order p s) (numbered p s))
      ∙ lookup-numbered p s k
