-- ===== src/Wire/Packet.antt =====
-- lib/rtnt/include/rtnt/core/packet.hpp, `Packet`: a byte stream that is written at its end and
-- read from a position. An operation that throws leaves the packet as it was when it threw.
use rtype.Base.{
  ℕ, zero, suc, ◌+◌, ◌%◌, List, [], ◌∷◌, ◌++◌, ltb, length, take, drop, if◌then◌else◌, u16_mod,
}
use rtype.Wire.Endian.{Host, swap, to_mem, of_mem}

pub record Packet : Type 0 where
  pub message_id : ℕ
  pub flag : ℕ
  pub channel_id : ℕ
  pub buffer : List ℕ
  pub read_position : ℕ

-- `Packet(id, flag, channelId)`
abbrev pub new_packet : ℕ → ℕ → ℕ → Packet
new_packet id flag channel = record {
  message_id = id;
  flag = flag;
  channel_id = channel;
  buffer = [];
  read_position = 0;
}

abbrev pub set_payload : List ℕ → Packet → Packet
set_payload bytes p = record p { buffer = bytes; read_position = 0 }

-- The exceptions of the stream operators.
pub data Fault : Type 0 where
  underflow vector_too_large deque_too_large : Fault

pub data Outcome {ℓ} (A : Type ℓ) : Type ℓ where
  done : A → Packet → Outcome A
  throws : Fault → Packet → Outcome A

abbrev pub Stream {ℓ} : Type ℓ → Type ℓ
Stream A = Packet → Outcome A

infixl 5 ◌>>=◌ ◌>>◌
abbrev pub ◌>>=◌ {ℓ κ} : {A : Type ℓ} {B : Type κ} → Stream A → (A → Stream B) → Stream B
◌>>=◌ m f p = elim (m p) [ done a q ↦ f a q | throws e q ↦ throws e q ]

abbrev pub ◌>>◌ {ℓ κ} : {A : Type ℓ} {B : Type κ} → Stream A → Stream B → Stream B
m >> k = m >>= λ _. k

abbrev pub pure {ℓ} : {A : Type ℓ} → A → Stream A
pure a p = done a p

abbrev pub throw {ℓ} : {A : Type ℓ} → Fault → Stream A
throw e p = throws e p

abbrev pub append : List ℕ → Stream (Unit {0})
append bytes p = done tt (record p { buffer = p.buffer ++ bytes })

-- The next `n` bytes, with the bounds check of both readers.
unfoldable pub read_bytes : ℕ → Stream (List ℕ)
read_bytes n p =
    if ltb (length p.buffer) (p.read_position + n)
    then throws underflow p
    else done (take n (drop p.read_position p.buffer))
        (record p { read_position = p.read_position + n })

module _ (host : Host) where
  -- `<<` and `>>` of an unsigned integer of `w` bytes.
  unfoldable pub write_int : ℕ → ℕ → Stream (Unit {0})
  write_int w n = append (to_mem host w (swap host w n))

  unfoldable pub read_int : ℕ → Stream ℕ
  read_int w = do bytes ← read_bytes w; pure (swap host w (of_mem host bytes))

  -- `<<` and `>>` of a string: a length of two bytes, then that many characters.
  unfoldable pub write_string : List ℕ → Stream (Unit {0})
  write_string str = do let size = length str % u16_mod; write_int 2 size; append (take size str)

  unfoldable pub read_string : Stream (List ℕ)
  read_string = do size ← read_int 2; read_bytes size

module _ {ℓ} {A : Type ℓ} where
  unfoldable pub write_all : (A → Stream (Unit {0})) → List A → Stream (Unit {0})
  write_all write [] = pure tt
  write_all write (x ∷ xs) = let rest = write_all write xs in write x >> rest

  unfoldable pub read_all : Stream A → ℕ → Stream (List A)
  read_all read zero = pure []
  read_all read (suc n) = let rest = read_all read n in read >>= λ x. rest >>= λ xs. pure (x ∷ xs)

module _ {ℓ} {A : Type ℓ} (host : Host) where
  -- The loop shared by vectors and deques: a count of two bytes, then the elements.
  unfoldable pub write_sequence : Fault → (A → Stream (Unit {0})) → List A → Stream (Unit {0})
  write_sequence fault write xs =
      if ltb 65535 (length xs)
      then throw fault
      else write_int host 2 (length xs % u16_mod) >> write_all write xs

  unfoldable pub read_sequence : Stream A → Stream (List A)
  read_sequence read = do size ← read_int host 2; read_all read size

  unfoldable pub write_vector : (A → Stream (Unit {0})) → List A → Stream (Unit {0})
  unfolding write_sequence
  write_vector = write_sequence vector_too_large

  unfoldable pub read_vector : Stream A → Stream (List A)
  unfolding read_sequence
  read_vector = read_sequence

  unfoldable pub write_deque : (A → Stream (Unit {0})) → List A → Stream (Unit {0})
  unfolding write_sequence
  write_deque = write_sequence deque_too_large

  unfoldable pub read_deque : Stream A → Stream (List A)
  unfolding read_sequence
  read_deque = read_sequence
