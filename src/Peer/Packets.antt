-- ===== src/Peer/Packets.antt =====
-- lib/rtnt/include/rtnt/core/packets: the packets of the handshake, under the IDs of
-- `SystemMessageId` in common/constants.hpp.
use rtype.Base.{ℕ, ◌≡◌, ap}
use rtype.Wire.Endian.{Host, network_bytes}
use rtype.Wire.Packet.{
  Packet, Outcome, done, throws, Stream, new_packet, set_payload, write_int, read_int,
}
use rtype.Wire.Codec.{write_int-eq}
use rtype.Wire.Header.{flag_unreliable}
use rtype.Session.Outgoing.{internal_channel_id}

abbrev pub connect_id : ℕ
connect_id = 2

abbrev pub connect_ack_id : ℕ
connect_ack_id = 3

abbrev pub disconnect_id : ℕ
disconnect_id = 4

-- What `packet << data` leaves in the packet: an exception would leave the operation.
abbrev pub filled : Outcome (Unit {0}) → Packet
filled (done _ p) = p
filled (throws _ p) = p

abbrev pub connect_packet : Packet
connect_packet = new_packet connect_id flag_unreliable internal_channel_id

abbrev pub disconnect_packet : Packet
disconnect_packet = new_packet disconnect_id flag_unreliable internal_channel_id

module _ (host : Host) where
  -- `ConnectAck`, and the reading of its field.
  unfoldable pub connect_ack_packet : ℕ → Packet
  connect_ack_packet assigned_session_id = filled (
      write_int host 4 assigned_session_id
        (new_packet connect_ack_id flag_unreliable internal_channel_id))

  unfoldable pub read_connect_ack : Stream ℕ
  read_connect_ack = read_int host 4

  pub connect_ack_packet-eq :
      (id : ℕ)
      → connect_ack_packet id
        ≡ set_payload
            (network_bytes 4 id)
            (new_packet connect_ack_id flag_unreliable internal_channel_id)
  unfolding connect_ack_packet
  connect_ack_packet-eq id =
      ap filled
        (write_int-eq host 4 id (new_packet connect_ack_id flag_unreliable internal_channel_id))
