-- ===== src/Tests/Wire.antt =====
-- lib/rtnt/include/rtnt/core/packet.hpp on concrete packets.
use rtype.Base.{ℕ, ◌≡◌, refl, List, [], ◌∷◌, ◌++◌, length, take, if◌then◌else◌, leb, ◌==◌, arith}
use rtype.Wire.Endian.{little, big, network_bytes}
use rtype.Wire.Packet.{
  Packet, new_packet, set_payload, done, ◌>>◌, write_int, read_int, write_string, read_string,
  write_vector, read_vector,
}
use rtype.Wire.Codec.{Codec}
use rtype.Wire.Sequence.{int_codec, encode_sequence}
use rtype.Wire.RoundTrip.{
  passed, read_int-write_int, read_string-write_string, read_vector-write_vector,
}
use rtype.Wire.Header.{
  Header, default_header, parse, serialize, success, failure, payload_size_mismatch,
  protocol_mismatch,
}
use rtype.Wire.Framing.{IsHeader, parse-serialize}

abbrev hello : List ℕ
hello = 104 ∷ 101 ∷ 108 ∷ 108 ∷ 111 ∷ []

abbrev blank : Packet
blank = new_packet 7 4 2

read_int-write_int_example :
    (write_int little 4 3735928559 >> read_int big 4) blank
    ≡ done 3735928559 (passed (network_bytes 4 3735928559) blank)
read_int-write_int_example =
    read_int-write_int little big 4 3735928559 blank (omega arith) (omega arith) refl

read_string-write_string_example :
    (write_string big hello >> read_string little) blank
    ≡ done (take 5 hello) (passed (network_bytes 2 5 ++ take 5 hello) blank)
read_string-write_string_example = read_string-write_string big little hello blank refl

abbrev words : Codec ℕ
words = int_codec little 2 (omega arith)

read_vector-write_vector_example :
    (write_vector little words.write (300 ∷ 2 ∷ []) >> read_vector little words.read) blank
    ≡ done (300 ∷ 2 ∷ []) (passed (encode_sequence little words (300 ∷ 2 ∷ [])) blank)
unfolding int_codec
read_vector-write_vector_example =
    read_vector-write_vector little words (300 ∷ 2 ∷ []) blank
      (omega arith, (omega arith, (omega arith, tt))) refl

-- A prefix of five characters with three behind it.
abbrev cut_short : Packet
cut_short = set_payload (network_bytes 2 5 ++ 104 ∷ 101 ∷ 108 ∷ []) blank

abbrev greeting : Header
greeting = record default_header { sequence_id = 41; message_id = 7; packet_size = 5 }

greeting-IsHeader : IsHeader greeting
greeting-IsHeader = record {
  protocol_fits = omega arith;
  version_fits = omega arith;
  sequence_id_fits = omega arith;
  channel_id_fits = omega arith;
  order_id_fits = omega arith;
  acknowledge_id_fits = omega arith;
  acknowledge_bitfield_fits = omega arith;
  message_id_fits = omega arith;
  flags_fits = omega arith;
  packet_size_fits = omega arith;
}

parse-serialize_example : parse big (serialize little greeting ++ hello) ≡ (
    if greeting.protocol == 0x2204
    then if leb greeting.packet_size (length hello)
      then success greeting
      else failure payload_size_mismatch
    else failure protocol_mismatch)
parse-serialize_example = parse-serialize little big greeting hello greeting-IsHeader
