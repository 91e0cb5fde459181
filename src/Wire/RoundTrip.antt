-- ===== src/Wire/RoundTrip.antt =====
-- Writing a value into a packet and reading it back, also between hosts of different byte order.
use native.Mathlib.Nat.{mod-le}
use rtype.Base.{
  ℕ, ◌+◌, ◌%◌, ◌^◌, ◌<◌, ◌≡◌, ◌∙◌, sym, ap, List, ◌++◌, append-nil, append_assoc, length,
  length-append, length-take, length-drop, take, drop-append, u16_mod, arith,
}
use rtype.Wire.Endian.{Host, network_bytes, length-network_bytes}
use rtype.Wire.Packet.{
  Packet, underflow, done, throws, ◌>>=◌, ◌>>◌, read_bytes, write_int, read_int, write_string,
  read_string, write_vector, read_vector,
}
use rtype.Wire.Codec.{
  extend, advance, unread, Codec, write_int-eq, read_int-reads, write_string-eq, read_string-reads,
}
use rtype.Wire.Sequence.{vector_codec, IsSequence, encode_sequence}

-- Everything that the packet holds has been read.
abbrev pub IsConsumed : Packet → Type 0
IsConsumed p = p.read_position ≡ length p.buffer

-- The packet after `bytes` were written to it and read back.
abbrev pub passed : List ℕ → Packet → Packet
passed bytes p = advance (length bytes) (extend bytes p)

unread-extend :
    (bytes : List ℕ) (p : Packet) → IsConsumed p → unread (extend bytes p) ≡ bytes ++ List.[]
unread-extend bytes p c =
    drop-append p.read_position p.buffer bytes (sym c) ∙ sym (append-nil bytes)

-- Any codec reads back what it wrote.
codec_passes :
    {A : Type 0} (c : Codec A) (a : A) (p : Packet)
    → c.IsFit a
    → IsConsumed p
    → (c.write a >> c.read) p ≡ done a (passed (c.encode a) p)
codec_passes c a p fit done_reading =
    rw (c.writes a p fit, ◌>>=◌)
      (c.reads a List.[] (extend (c.encode a) p) fit (unread-extend (c.encode a) p done_reading))

-- An unsigned integer of w bytes, written on one host to a packet that is read to its end, and read
-- on another, comes back unchanged.
pub read_int-write_int :
    (a b : Host) (w n : ℕ) (p : Packet)
    → 0 < w
    → n < 256 ^ w
    → IsConsumed p
    → (write_int a w n >> read_int b w) p ≡ done n (passed (network_bytes w n) p)
read_int-write_int a b w n p pos fit c =
    rw (write_int-eq a w n p, ◌>>=◌)
      (read_int-reads b w n List.[] (extend (network_bytes w n) p) pos fit
          (unread-extend (network_bytes w n) p c)
        ∙ ap (λ (k : ℕ). done n (advance k (extend (network_bytes w n) p)))
            (sym (length-network_bytes w n)))

-- A string of any length, written on one host to a packet that is read to its end, and read on
-- another, comes back cut to its length modulo 65536: whole when it is shorter than that, and a
-- shorter prefix when it is not.
pub read_string-write_string :
    (a b : Host) (str : List ℕ) (p : Packet)
    → IsConsumed p
    → let size = length str % u16_mod in
      (write_string a str >> read_string b) p
      ≡ done (take size str) (passed (network_bytes 2 size ++ take size str) p)
read_string-write_string a b str p c =
    let size = length str % u16_mod in
    let kept = take size str in
    let bytes = network_bytes 2 size ++ kept in
    let len : length kept ≡ size =
      length-take size str ∙ omega (arith, mod-le (length str) u16_mod) in
    let seen : unread (extend bytes p) ≡ network_bytes 2 (length kept) ++ (kept ++ List.[]) =
      unread-extend bytes p c
      ∙ append_assoc (network_bytes 2 size) kept List.[]
      ∙ ap (λ (k : ℕ). network_bytes 2 k ++ (kept ++ List.[])) (sym len) in
    rw (write_string-eq a str p, ◌>>=◌)
      (read_string-reads b kept List.[] (extend bytes p) (omega (arith, len)) seen
        ∙ ap (λ (k : ℕ). done kept (record (extend bytes p) { read_position = k }))
            {x = p.read_position + 2 + length kept} {y = p.read_position + length bytes}
            (omega (arith, length-append (network_bytes 2 size) kept, length-network_bytes 2 size)))

-- A vector of at most 65535 fitting elements, written to a packet that is read to its end and read
-- with the operators of its elements, comes back unchanged, and the packet is consumed again.
pub read_vector-write_vector :
    {A : Type 0} (host : Host) (c : Codec A) (xs : List A) (p : Packet)
    → IsSequence host c xs
    → IsConsumed p
    → (write_vector host c.write xs >> read_vector host c.read) p
      ≡ done xs (passed (encode_sequence host c xs) p)
read_vector-write_vector host c xs p fit done_reading =
    unfold vector_codec in codec_passes (vector_codec host c) xs p fit done_reading

-- A length prefix that promises more characters than follow makes the read of a string throw, with
-- the prefix already consumed and the buffer untouched.
read_string_short :
    (b : Host) (n : ℕ) (rest : List ℕ) (p : Packet)
    → n < u16_mod
    → unread p ≡ network_bytes 2 n ++ rest
    → length rest < n
    → read_string b p ≡ throws underflow (advance 2 p)
unfolding read_string read_bytes
read_string_short b n rest p fit seen short =
    rw (read_int-reads b 2 n rest p (omega arith) fit seen, ◌>>=◌)
      (ground (
        arith,
        length-drop p.read_position p.buffer,
        ap length seen,
        length-append (network_bytes 2 n) rest,
        length-network_bytes 2 n,
      ))
