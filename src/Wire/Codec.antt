-- ===== src/Wire/Codec.antt =====
-- What the stream operators of packet.hpp promise a packet struct that is serialized field by field:
-- the interface `Codec`, which the operators of numbers, strings, vectors and deques fill.
use rtype.Base.{
  ℕ, ◌+◌, ◌%◌, ◌^◌, ◌≤◌, ◌<◌, ◌≡◌, refl, sym, ap, ◌∙◌, List, ◌∷◌, ◌++◌, append_assoc, length, take,
  drop, length-append, length-drop, take-append, drop-append, drop-drop, u16_mod, arith,
}
use rtype.Wire.Endian.{Host, network_bytes, to_mem-swap, swap-of_mem, length-network_bytes}
use rtype.Wire.Packet.{
  Packet, done, Stream, ◌>>=◌, read_bytes, write_int, read_int, write_string, read_string,
}

abbrev pub extend : List ℕ → Packet → Packet
extend bytes p = record p { buffer = p.buffer ++ bytes }

abbrev pub advance : ℕ → Packet → Packet
advance n p = record p { read_position = p.read_position + n }

-- The bytes that a read from the packet's position sees.
abbrev pub unread : Packet → List ℕ
unread p = drop p.read_position p.buffer

pub record Codec (A : Type 0) : Type 1 where
  pub write : A → Stream (Unit {0})
  pub read : Stream A
  pub encode : A → List ℕ
  pub IsFit : A → Type 0
  pub writes : (a : A) (p : Packet) → IsFit a → write a p ≡ done tt (extend (encode a) p)
  pub reads :
      (a : A) (rest : List ℕ) (p : Packet)
      → IsFit a
      → unread p ≡ encode a ++ rest
      → read p ≡ done a (advance (length (encode a)) p)

read_bytes-reads :
    (n : ℕ) (bytes rest : List ℕ) (p : Packet)
    → length bytes ≡ n
    → p.read_position ≤ length p.buffer
    → unread p ≡ bytes ++ rest
    → read_bytes n p ≡ done bytes (advance n p)
unfolding read_bytes
read_bytes-reads n bytes rest p e inside seen =
    let fits : p.read_position + n ≤ length p.buffer =
      omega
        (arith, length-drop p.read_position p.buffer, ap length seen, length-append bytes rest) in
    let cut : take n (unread p) ≡ bytes = ap (take n) seen ∙ take-append n bytes rest e in
    ground (arith, cut)

-- A packet with unread bytes is read inside its buffer.
unread-inside :
    (b : ℕ) (rest : List ℕ) (p : Packet) → unread p ≡ b ∷ rest → p.read_position ≤ length p.buffer
unread-inside b rest p seen = omega (arith, length-drop p.read_position p.buffer, ap length seen)

pub unread-advance :
    (n : ℕ) (bytes rest : List ℕ) (p : Packet)
    → length bytes ≡ n
    → unread p ≡ bytes ++ rest
    → unread (advance n p) ≡ rest
unread-advance n bytes rest p e seen =
    sym (drop-drop n p.read_position p.buffer) ∙ ap (drop n) seen ∙ drop-append n bytes rest e

advance_inside :
    (n : ℕ) (bytes rest : List ℕ) (p : Packet)
    → length bytes ≡ n
    → 0 < n
    → unread p ≡ bytes ++ rest
    → p.read_position + n ≤ length p.buffer
advance_inside n bytes rest p e pos seen =
    omega (arith, length-drop p.read_position p.buffer, ap length seen, length-append bytes rest)

module _ (host : Host) where
  pub write_int-eq :
      (w n : ℕ) (p : Packet) → write_int host w n p ≡ done tt (extend (network_bytes w n) p)
  unfolding write_int
  write_int-eq w n p = rw (to_mem-swap host w n)

  pub read_int-reads :
      (w n : ℕ) (rest : List ℕ) (p : Packet)
      → 0 < w
      → n < 256 ^ w
      → unread p ≡ network_bytes w n ++ rest
      → read_int host w p ≡ done n (advance w p)
  unfolding read_int
  read_int-reads w n rest p pos fits seen =
      let len = length-network_bytes w n in
      let inside = advance_inside w (network_bytes w n) rest p len pos seen in
      rw (
        read_bytes-reads w (network_bytes w n) rest p len (omega (arith, inside)) seen,
        ◌>>=◌,
        swap-of_mem host w n fits,
      )

  pub write_string-eq :
      (str : List ℕ) (p : Packet)
      → write_string host str p
        ≡ done tt
            (extend (network_bytes 2 (length str % u16_mod) ++ take (length str % u16_mod) str) p)
  unfolding write_string
  write_string-eq str p =
      rw (write_int-eq 2 (length str % u16_mod) p, ◌>>=◌)
        (ap (λ (b : List ℕ). done tt (record p { buffer = b })) (append_assoc p.buffer _ _))

  pub read_string-reads :
      (str rest : List ℕ) (p : Packet)
      → length str < u16_mod
      → unread p ≡ network_bytes 2 (length str) ++ (str ++ rest)
      → read_string host p ≡ done str (advance (length str) (advance 2 p))
  unfolding read_string
  read_string-reads str rest p short seen =
      let len = length-network_bytes 2 (length str) in
      let inside =
        advance_inside 2 (network_bytes 2 (length str)) (str ++ rest) p len (omega arith) seen in
      let then_seen = unread-advance 2 (network_bytes 2 (length str)) (str ++ rest) p len seen in
      rw (read_int-reads 2 (length str) (str ++ rest) p (omega arith) short seen, ◌>>=◌)
        (read_bytes-reads (length str) str rest (advance 2 p) refl inside then_seen)
