-- ===== src/Wire/Framing.antt =====
-- Headers on the wire: what `Header::parse` answers on the bytes that `rawSend` puts together.
use rtype.Base.{
  ℕ, ◌<◌, ◌^◌, ◌≡◌, List, ◌++◌, append_assoc, ◌==◌, leb, length, length-append, take, drop,
  take-append, drop-append, if◌then◌else◌, u8_mod, u16_mod, u32_mod, arith,
}
use rtype.Wire.Endian.{
  Host, swap, to_mem, of_mem, to_mem-swap, swap-of_mem, of_mem-to_mem, length-to_mem, single_byte,
}
use rtype.Wire.Header.{
  Header, header_size, convert_endianness, to_bytes, of_bytes, parse, success, failure,
  payload_size_mismatch, protocol_mismatch, serialize,
}

-- Every field fits its unsigned type.
pub record IsHeader (h : Header) : Type 0 where
  pub protocol_fits : h.protocol < u16_mod
  pub version_fits : h.version < u16_mod
  pub sequence_id_fits : h.sequence_id < u32_mod
  pub channel_id_fits : h.channel_id < u8_mod
  pub order_id_fits : h.order_id < u32_mod
  pub acknowledge_id_fits : h.acknowledge_id < u32_mod
  pub acknowledge_bitfield_fits : h.acknowledge_bitfield < u32_mod
  pub message_id_fits : h.message_id < u16_mod
  pub flags_fits : h.flags < u8_mod
  pub packet_size_fits : h.packet_size < u16_mod

take-to_mem : (a : Host) (w n : ℕ) (rest : List ℕ) → take w (to_mem a w n ++ rest) ≡ to_mem a w n
take-to_mem a w n rest = take-append w (to_mem a w n) rest (length-to_mem a w n)

drop-to_mem : (a : Host) (w n : ℕ) (rest : List ℕ) → drop w (to_mem a w n ++ rest) ≡ rest
drop-to_mem a w n rest = drop-append w (to_mem a w n) rest (length-to_mem a w n)

ruleset fields = (append_assoc, take-to_mem, drop-to_mem)

length-to_bytes : (a : Host) (h : Header) → length (to_bytes a h) ≡ header_size
unfolding to_bytes
length-to_bytes a h = simp (length-append, length-to_mem)

pub length-serialize : (a : Host) (h : Header) → length (serialize a h) ≡ header_size
unfolding serialize
length-serialize a h = length-to_bytes a (convert_endianness a h)

-- One field, swapped by the sender, read into the receiver's memory and swapped there.
field_arrives :
    (a b : Host) (w n : ℕ) → n < 256 ^ w → swap b w (of_mem b (to_mem a w (swap a w n))) ≡ n
field_arrives a b w n fit = rw (to_mem-swap a w n) (swap-of_mem b w n fit)

byte_arrives : (a b : Host) (n : ℕ) → n < 256 → of_mem b (to_mem a 1 n) ≡ n
byte_arrives a b n fit = rw (single_byte a n, ← single_byte b n) (of_mem-to_mem b 1 n fit)

module _ (a b : Host) where
  of_bytes-serialize :
      (h : Header) (payload : List ℕ)
      → IsHeader h
      → convert_endianness b (of_bytes b (serialize a h ++ payload)) ≡ h
  unfolding of_bytes serialize to_bytes convert_endianness
  of_bytes-serialize h payload v = simp (
    fields,
    field_arrives a b 2 h.protocol v.protocol_fits,
    field_arrives a b 2 h.version v.version_fits,
    field_arrives a b 4 h.sequence_id v.sequence_id_fits,
    byte_arrives a b h.channel_id v.channel_id_fits,
    field_arrives a b 4 h.order_id v.order_id_fits,
    field_arrives a b 4 h.acknowledge_id v.acknowledge_id_fits,
    field_arrives a b 4 h.acknowledge_bitfield v.acknowledge_bitfield_fits,
    field_arrives a b 2 h.message_id v.message_id_fits,
    byte_arrives a b h.flags v.flags_fits,
    field_arrives a b 2 h.packet_size v.packet_size_fits,
  )

  -- A receiver that is handed a sender's header, whose fields fit their widths, and a payload
  -- reports a foreign protocol first, then a payload that is shorter than the header says, and
  -- otherwise returns the sender's header; the byte orders of the two hosts do not matter, and
  -- neither does the version that the header states.
  pub parse-serialize :
      (h : Header) (payload : List ℕ)
      → IsHeader h
      → parse b (serialize a h ++ payload) ≡ (
          if h.protocol == 0x2204
          then if leb h.packet_size (length payload)
            then success h
            else failure payload_size_mismatch
          else failure protocol_mismatch)
  unfolding parse
  parse-serialize h payload v =
      rw (of_bytes-serialize h payload v)
        (ground (arith, length-append (serialize a h) payload, length-serialize a h))
