-- ===== src/Wire/Header.antt =====
-- lib/rtnt/include/rtnt/core/packet.hpp, `packet::Header` and `packet::parsing`, with `Header::parse`
-- of lib/rtnt/src/core/packet.cpp and the constants of common/constants.hpp.
use rtype.Base.{
  ℕ, ◌-◌, List, ◌++◌, Option, none, some, Bool, not, ◌==◌, ltb, length, take, drop, if◌then◌else◌,
}
use rtype.Wire.Endian.{Host, swap, to_mem, of_mem}

abbrev pub protocol_id : ℕ
protocol_id = 0x2204

abbrev pub protocol_ver : ℕ
protocol_ver = 0x0003

-- `sizeof(Header)`: the struct is packed.
abbrev pub header_size : ℕ
header_size = 26

-- The bits of `packet::Flag`.
abbrev pub flag_unreliable : ℕ
flag_unreliable = 1

abbrev pub flag_reliable : ℕ
flag_reliable = 2

abbrev pub flag_ordered : ℕ
flag_ordered = 4

abbrev pub flag_has_ack : ℕ
flag_has_ack = 8

pub record Header : Type 0 where
  pub protocol : ℕ
  pub version : ℕ
  pub sequence_id : ℕ
  pub channel_id : ℕ
  pub order_id : ℕ
  pub acknowledge_id : ℕ
  pub acknowledge_bitfield : ℕ
  pub message_id : ℕ
  pub flags : ℕ
  pub packet_size : ℕ

-- `Header header{}`
abbrev pub default_header : Header
default_header = record {
  protocol = protocol_id;
  version = protocol_ver;
  sequence_id = 0;
  channel_id = 0;
  order_id = 0;
  acknowledge_id = 0;
  acknowledge_bitfield = 0;
  message_id = 0;
  flags = flag_unreliable;
  packet_size = 0;
}

module _ (host : Host) where
  unfoldable pub convert_endianness : Header → Header
  convert_endianness h = record h {
    protocol = swap host 2 h.protocol;
    version = swap host 2 h.version;
    sequence_id = swap host 4 h.sequence_id;
    order_id = swap host 4 h.order_id;
    acknowledge_id = swap host 4 h.acknowledge_id;
    acknowledge_bitfield = swap host 4 h.acknowledge_bitfield;
    message_id = swap host 2 h.message_id;
    packet_size = swap host 2 h.packet_size;
  }

  -- The bytes of the struct in memory, its fields in order.
  unfoldable pub to_bytes : Header → List ℕ
  to_bytes h =
      to_mem host 2 h.protocol
      ++ (to_mem host 2 h.version
          ++ (to_mem host 4 h.sequence_id
              ++ (to_mem host 1 h.channel_id
                  ++ (to_mem host 4 h.order_id
                      ++ (to_mem host 4 h.acknowledge_id
                          ++ (to_mem host 4 h.acknowledge_bitfield
                              ++ (to_mem host 2 h.message_id
                                  ++ (to_mem host 1 h.flags ++ (to_mem host 2 h.packet_size)))))))))

  -- One field of `w` bytes off the front of the memory, then the rest.
  abbrev pub next_field {ℓ} : {A : Type ℓ} → ℕ → List ℕ → (ℕ → List ℕ → A) → A
  next_field w bytes k = k (of_mem host (take w bytes)) (drop w bytes)

  unfoldable pub of_bytes : List ℕ → Header
  of_bytes b0 = next_field 2 b0 λ protocol b1. next_field 2 b1 λ version b2.
      next_field 4 b2 λ sequence_id b3. next_field 1 b3 λ channel_id b4.
        next_field 4 b4 λ order_id b5. next_field 4 b5 λ acknowledge_id b6.
          next_field 4 b6 λ acknowledge_bitfield b7. next_field 2 b7 λ message_id b8.
            next_field 1 b8 λ flags b9. next_field 2 b9 λ packet_size b10. record {
              protocol = protocol;
              version = version;
              sequence_id = sequence_id;
              channel_id = channel_id;
              order_id = order_id;
              acknowledge_id = acknowledge_id;
              acknowledge_bitfield = acknowledge_bitfield;
              message_id = message_id;
              flags = flags;
              packet_size = packet_size;
            }

pub data Error : Type 0 where
  no_error data_too_small protocol_mismatch payload_size_mismatch : Error

-- `parsing::Result`
pub record Result : Type 0 where
  pub header : Option Header
  pub error : Error

abbrev pub success : Header → Result
success h = record { header = some h; error = no_error }

abbrev pub failure : Error → Result
failure e = record { header = none; error = e }

-- The checks on a header that has been read, with the number of bytes behind it.
abbrev pub check_header : ℕ → Header → Result
check_header behind h =
    if not (h.protocol == protocol_id)
    then failure protocol_mismatch
    else if ltb behind h.packet_size
    then failure payload_size_mismatch
    else success h

module _ (host : Host) where
  unfoldable pub parse : List ℕ → Result
  parse data' =
      if ltb (length data') header_size
      then failure data_too_small
      else check_header (length data' - header_size) (convert_endianness host (of_bytes host data'))

  -- What `rawSend` puts in front of a payload.
  unfoldable pub serialize : Header → List ℕ
  serialize h = to_bytes host (convert_endianness host h)

  -- `packet::is<T>`, for a packet type with this id.
  unfoldable pub is_packet : ℕ → List ℕ → Bool
  is_packet id data' = elim ((parse data').header) [
    | none ↦ Bool.false
    | some h ↦ h.message_id == id
  ]
