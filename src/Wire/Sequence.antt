-- ===== src/Wire/Sequence.antt =====
-- The vector and deque operators of packet.hpp over any element that keeps the interface `Codec`, and
-- the codecs of numbers, strings, sequences and of structs that are serialized field by field.
use native.Mathlib.Nat.{mod-eq_of_lt}
use rtype.Base.{
  ℕ, ◌+◌, ◌^◌, ◌<◌, ◌≡◌, refl, sym, ap, ◌∙◌, List, [], ◌∷◌, ◌++◌, append_assoc, append-nil, ltb,
  length, length-append, All, u16_mod, arith, false, take_all,
}
use rtype.Wire.Endian.{Host, network_bytes, length-network_bytes}
use rtype.Wire.Packet.{
  Packet, Fault, vector_too_large, deque_too_large, done, Stream, ◌>>=◌, ◌>>◌, pure, write_int,
  read_int, write_string, read_string, write_all, read_all, write_sequence, read_sequence,
  write_vector, read_vector, write_deque, read_deque,
}
use rtype.Wire.Codec.{
  extend, advance, unread, unread-advance, Codec, write_int-eq, read_int-reads, write_string-eq,
  read_string-reads,
}

abbrev pub encode_all {ℓ} : {A : Type ℓ} → (A → List ℕ) → List A → List ℕ
encode_all encode [] = []
encode_all encode (x ∷ xs) = encode x ++ encode_all encode xs

module _ {A : Type 0} (c : Codec A) where
  pub write_all-eq :
      (xs : List A) (p : Packet)
      → All c.IsFit xs
      → write_all c.write xs p ≡ done tt (extend (encode_all c.encode xs) p)
  unfolding write_all
  write_all-eq [] p fit =
      ap (λ (b : List ℕ). done tt (record p { buffer = b })) (sym (append-nil _))
  write_all-eq (x ∷ xs) p fit =
      rw (c.writes x p fit.0, ◌>>=◌)
        (write_all-eq xs (extend (c.encode x) p) fit.1
          ∙ ap (λ (b : List ℕ). done tt (record p { buffer = b })) (append_assoc p.buffer _ _))

  pub read_all-reads :
      (xs : List A) (rest : List ℕ) (p : Packet)
      → All c.IsFit xs
      → unread p ≡ encode_all c.encode xs ++ rest
      → read_all c.read (length xs) p ≡ done xs (advance (length (encode_all c.encode xs)) p)
  unfolding read_all
  read_all-reads [] rest p fit seen =
      ap (λ (n : ℕ). done [] (record p { read_position = n })) {x = p.read_position}
        {y = p.read_position + 0} (omega arith)
  read_all-reads (x ∷ xs) rest p fit seen =
      let tail = encode_all c.encode xs in
      let seen' : unread p ≡ c.encode x ++ (tail ++ rest) =
        seen ∙ append_assoc (c.encode x) tail rest in
      let ih =
        read_all-reads xs rest (advance (length (c.encode x)) p) fit.1
          (unread-advance (length (c.encode x)) (c.encode x) (tail ++ rest) p refl seen') in
      rw (c.reads x (tail ++ rest) p fit.0 seen', ◌>>=◌)
        (rw (ih, ◌>>=◌)
          (ap (λ (n : ℕ). done (x ∷ xs) (record p { read_position = n }))
            {x = p.read_position + length (c.encode x) + length tail}
            {y = p.read_position + length (c.encode x ++ tail)}
            (omega (arith, length-append (c.encode x) tail))))

module _ {A : Type 0} (host : Host) (c : Codec A) where
  -- A count of two bytes, then the elements.
  abbrev pub encode_sequence : List A → List ℕ
  encode_sequence xs = network_bytes 2 (length xs) ++ encode_all c.encode xs

  abbrev pub IsSequence : List A → Type 0
  IsSequence xs = (length xs < u16_mod) × All c.IsFit xs

  pub write_sequence-eq :
      (fault : Fault) (xs : List A) (p : Packet)
      → IsSequence xs
      → write_sequence host fault c.write xs p ≡ done tt (extend (encode_sequence xs) p)
  unfolding write_sequence
  write_sequence-eq fault xs p fit =
      let small : ltb 65535 (length xs) ≡ false = ground arith in
      rw (small, mod-eq_of_lt fit.0, write_int-eq host 2 (length xs) p, ◌>>=◌)
        (write_all-eq c xs (extend (network_bytes 2 (length xs)) p) fit.1
          ∙ ap (λ (b : List ℕ). done tt (record p { buffer = b })) (append_assoc p.buffer _ _))

  pub read_sequence-reads :
      (xs : List A) (rest : List ℕ) (p : Packet)
      → IsSequence xs
      → unread p ≡ encode_sequence xs ++ rest
      → read_sequence host c.read p ≡ done xs (advance (length (encode_sequence xs)) p)
  unfolding read_sequence
  read_sequence-reads xs rest p fit seen =
      let count = network_bytes 2 (length xs) in
      let tail = encode_all c.encode xs in
      let len = length-network_bytes 2 (length xs) in
      let seen' : unread p ≡ count ++ (tail ++ rest) = seen ∙ append_assoc count tail rest in
      rw (read_int-reads host 2 (length xs) (tail ++ rest) p (omega arith) fit.0 seen', ◌>>=◌)
        (read_all-reads c xs rest (advance 2 p) fit.1
            (unread-advance 2 count (tail ++ rest) p len seen')
          ∙ ap (λ (n : ℕ). done xs (record p { read_position = n }))
              {x = p.read_position + 2 + length tail} {y = p.read_position + length (count ++ tail)}
              (omega (arith, length-append count tail, len)))

  unfoldable pub vector_codec : Codec (List A)
  unfolding write_vector read_vector
  vector_codec = record {
    write = write_vector host c.write;
    read = read_vector host c.read;
    encode = encode_sequence;
    IsFit = IsSequence;
    writes = write_sequence-eq vector_too_large;
    reads = read_sequence-reads;
  }

  unfoldable pub deque_codec : Codec (List A)
  unfolding write_deque read_deque
  deque_codec = record {
    write = write_deque host c.write;
    read = read_deque host c.read;
    encode = encode_sequence;
    IsFit = IsSequence;
    writes = write_sequence-eq deque_too_large;
    reads = read_sequence-reads;
  }

module _ (host : Host) where
  unfoldable pub int_codec : (w : ℕ) → 0 < w → Codec ℕ
  int_codec w pos = record {
    write = write_int host w;
    read = read_int host w;
    encode = network_bytes w;
    IsFit = λ n. n < 256 ^ w;
    writes = λ n p fit. write_int-eq host w n p;
    reads = λ n rest p fit seen.
        read_int-reads host w n rest p pos fit seen
        ∙ ap (λ (k : ℕ). done n (advance k p)) (sym (length-network_bytes w n));
  }

  -- A string that its two-byte length can count.
  unfoldable pub string_codec : Codec (List ℕ)
  string_codec = record {
    write = write_string host;
    read = read_string host;
    encode = λ str. network_bytes 2 (length str) ++ str;
    IsFit = λ str. length str < u16_mod;
    writes = λ str p fit. write_string-eq host str p ∙ rw (mod-eq_of_lt fit, take_all str);
    reads = λ str rest p fit seen.
        read_string-reads host str rest p fit
          (seen ∙ append_assoc (network_bytes 2 (length str)) str rest)
        ∙ ap (λ (n : ℕ). done str (record p { read_position = n }))
            {x = p.read_position + 2 + length str}
            {y = p.read_position + length (network_bytes 2 (length str) ++ str)}
            (omega (
              arith,
              length-append (network_bytes 2 (length str)) str,
              length-network_bytes 2 (length str),
            ));
  }

-- `ar & first & second`: the fields of a struct, one after the other.
module _ {A B : Type 0} (c : Codec A) (d : Codec B) where
  pub write_fields : A × B → Stream (Unit {0})
  write_fields (a, b) = c.write a >> d.write b

  pub read_fields : Stream (A × B)
  read_fields = c.read >>= λ a. d.read >>= λ b. pure (a, b)

  pub fields_writes :
      (t : A × B) (p : Packet)
      → c.IsFit t.0 × d.IsFit t.1
      → write_fields t p ≡ done tt (extend (c.encode t.0 ++ d.encode t.1) p)
  unfolding write_fields
  fields_writes (a, b) p fit =
      rw (c.writes a p fit.0, ◌>>=◌)
        (d.writes b (extend (c.encode a) p) fit.1
          ∙ ap (λ (k : List ℕ). done tt (record p { buffer = k })) (append_assoc p.buffer _ _))

  pub fields_reads :
      (t : A × B) (rest : List ℕ) (p : Packet)
      → c.IsFit t.0 × d.IsFit t.1
      → unread p ≡ (c.encode t.0 ++ d.encode t.1) ++ rest
      → read_fields p ≡ done t (advance (length (c.encode t.0 ++ d.encode t.1)) p)
  unfolding read_fields
  fields_reads (a, b) rest p fit seen =
      let seen' : unread p ≡ c.encode a ++ (d.encode b ++ rest) =
        seen ∙ append_assoc (c.encode a) (d.encode b) rest in
      let next =
        d.reads b rest (advance (length (c.encode a)) p) fit.1
          (unread-advance (length (c.encode a)) (c.encode a) (d.encode b ++ rest) p refl seen') in
      rw (c.reads a (d.encode b ++ rest) p fit.0 seen', ◌>>=◌)
        (rw (next, ◌>>=◌)
          (ap (λ (n : ℕ). done (a, b) (record p { read_position = n }))
            {x = p.read_position + length (c.encode a) + length (d.encode b)}
            {y = p.read_position + length (c.encode a ++ d.encode b)}
            (omega (arith, length-append (c.encode a) (d.encode b)))))

  unfoldable pub fields_codec : Codec (A × B)
  fields_codec = record {
    write = write_fields;
    read = read_fields;
    encode = λ t. c.encode t.0 ++ d.encode t.1;
    IsFit = λ t. c.IsFit t.0 × d.IsFit t.1;
    writes = fields_writes;
    reads = fields_reads;
  }
