-- ===== src/Session/Outgoing.antt =====
-- lib/rtnt/src/core/session.cpp: `send`, `rawSend`, `_internal_sendAck`, `update` and `disconnect`.
-- One reading of the clock serves a whole operation.
use rtype.Base.{
  ℕ, zero, suc, ◌+◌, ◌-◌, ◌%◌, min, List, [], ◌∷◌, ◌++◌, Bool, true, false, ◌&&◌, ◌==◌, ltb, leb,
  length, take, drop, bit_and, bit_or, insert, lookup_or, if◌then◌else◌, u8_mod, u16_mod,
}
use rtype.Wire.Endian.{Host}
use rtype.Wire.Packet.{Packet, new_packet, done, throws, write_int, write_deque}
use rtype.Wire.Header.{
  Header, default_header, header_size, serialize, flag_unreliable, flag_ordered, flag_has_ack,
}
use rtype.Session.State.{Session, SentPacketInfo, next_u32, add_u64, count_sent, milliseconds}

abbrev pub max_ack_per_packet : ℕ
max_ack_per_packet = 256

abbrev pub max_resend_attempts : ℕ
max_resend_attempts = 8

abbrev pub resend_timeout : ℕ
resend_timeout = milliseconds 200

abbrev pub ack_timeout : ℕ
ack_timeout = milliseconds 100

-- `SystemMessageId`
abbrev pub ack_id : ℕ
ack_id = 0

abbrev pub rich_ack_id : ℕ
rich_ack_id = 1

abbrev pub internal_channel_id : ℕ
internal_channel_id = 0

abbrev pub is_ordered : Packet → Bool
is_ordered p = bit_and p.flag flag_ordered == flag_ordered

module _ (host : Host) (now : ℕ) where
  -- The header that `rawSend` fills in.
  unfoldable pub outgoing_header : Packet → ℕ → ℕ → Session → Header
  outgoing_header p sequence_id order_id s = record default_header {
    sequence_id = sequence_id;
    channel_id = p.channel_id;
    order_id = order_id;
    acknowledge_id = s.remote_acknowledge_id;
    acknowledge_bitfield = s.remote_acknowledge_bitfield;
    message_id = p.message_id;
    flags = if s.has_received_remote_packet then bit_or p.flag flag_has_ack else p.flag;
    packet_size = length p.buffer % u16_mod;
  }

  unfoldable pub raw_send : Packet → ℕ → ℕ → Session → Session
  unfolding outgoing_header
  raw_send p sequence_id order_id s =
      let raw = serialize host (outgoing_header p sequence_id order_id s) ++ p.buffer in
      record s {
        packets_since_last_ack =
            if s.has_received_remote_packet then 0 else s.packets_since_last_ack;
        transmitted = if s.has_send_function then s.transmitted ++ raw ∷ [] else s.transmitted;
        has_unsent_ack = false;
        last_ack_time = now;
        metrics = count_sent p.channel_id (length p.buffer + header_size) s.metrics;
      }

  -- The order ID of an outgoing packet, and the counters behind it.
  unfoldable pub take_order_id : Packet → Session → ℕ × Session
  take_order_id p s =
      if is_ordered p
      then (
        lookup_or p.channel_id 0 s.local_order_ids,
        record s {
          local_order_ids =
              insert p.channel_id (next_u32 (lookup_or p.channel_id 0 s.local_order_ids))
                s.local_order_ids;
        },
      )
      else (0, s)

  unfoldable pub remember_sent : Packet → ℕ → ℕ → Session → Session
  remember_sent p sequence_id order_id s = if p.flag == flag_unreliable then s else record s {
    sent_packets =
        insert sequence_id
          (record {
            packet = p;
            sent_time = now;
            sequence_id = sequence_id;
            order_id = order_id;
            retries = 0;
          })
          s.sent_packets;
  }

  unfoldable pub send : Packet → Session → Session
  send p s =
      let sequence_id = s.local_sequence_id in
      let (order_id, s') =
        take_order_id p (record s { local_sequence_id = next_u32 s.local_sequence_id }) in
      raw_send p sequence_id order_id (remember_sent p sequence_id order_id s')

  -- `p << ack` for a `RichAck` of these IDs, then `rawSend` under the next sequence ID. The write of
  -- more than 65535 IDs would throw out of the operation.
  unfoldable pub send_rich_ack : List ℕ → Session → Session
  send_rich_ack acks s =
      elim (write_deque host (write_int host 4) acks
        (new_packet rich_ack_id flag_unreliable internal_channel_id)) [
          | done _ p ↦
              raw_send p s.local_sequence_id 0
                (record s { local_sequence_id = next_u32 s.local_sequence_id })
          | throws _ _ ↦ s
        ]

  -- The loop over the pending IDs, `processed` of them sent so far. A round sends one ID at least, so
  -- their number is fuel enough.
  unfoldable pub send_chunks : ℕ → ℕ → List ℕ → Session → Session
  send_chunks zero processed acks s = s
  send_chunks (suc fuel) processed acks s = elim (ltb processed (length acks)) [
    | false ↦ s
    | true ↦
        let chunk_size = min max_ack_per_packet (length acks - processed) in
        send_chunks fuel (processed + chunk_size) acks
          (send_rich_ack (take chunk_size (drop processed acks)) s)
  ]

  unfoldable pub internal_send_ack : Session → Session
  internal_send_ack s = elim s.pending_rich_acks [
    | [] ↦
        raw_send (new_packet ack_id flag_unreliable internal_channel_id) s.local_sequence_id 0
          (record s { local_sequence_id = next_u32 s.local_sequence_id })
    | a ∷ acks ↦ record (send_chunks (length (a ∷ acks)) 0 (a ∷ acks) s) { pending_rich_acks = [] }
  ]

  abbrev pub disconnect : Session → Session
  disconnect s = record s { should_close = true }

  -- A packet whose time is up is sent again, under its old IDs.
  unfoldable pub resend : ℕ → SentPacketInfo → Session → Session
  resend key info s =
      let s' = raw_send info.packet info.sequence_id info.order_id s in
      record s' {
        sent_packets =
            insert key (record info { sent_time = now; retries = (info.retries + 1) % u8_mod })
              s'.sent_packets;
        metrics = record s'.metrics { retransmit_count = add_u64 s'.metrics.retransmit_count 1 };
      }

  -- The loop over the sent packets; `false` says that it gave the connection up.
  unfoldable pub resend_all : List (ℕ × SentPacketInfo) → Session → Session × Bool
  resend_all [] s = (s, true)
  resend_all ((key, info) ∷ rest) s = elim (ltb resend_timeout (now - info.sent_time)) [
    | false ↦ resend_all rest s
    | true ↦ elim (leb max_resend_attempts info.retries) [
      | true ↦ (disconnect s, false)
      | false ↦ resend_all rest (resend key info s)
    ]
  ]

  unfoldable pub update : Session → Session
  update s =
      let (s', alive) = resend_all s.sent_packets s in
      if alive && (s'.has_unsent_ack && ltb ack_timeout (now - s'.last_ack_time))
      then internal_send_ack s'
      else s'
