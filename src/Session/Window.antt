-- ===== src/Session/Window.antt =====
-- The sliding window of lib/rtnt/src/core/session.cpp: `updateAcknowledgeInfo` and `isDuplicate`.
-- The window is the part of the session that these two functions read and write; that every path of
-- `updateAcknowledgeInfo` sets `_hasUnsentAck` is written where the session calls it.
use rtype.Base.{
  ℕ, zero, suc, ◌+◌, ◌-◌, ◌^◌, List, [], ◌∷◌, ◌++◌, Bool, true, false, not, ◌||◌, ◌==◌, ltb, leb,
  length, if◌then◌else◌, bit_or, has_bit, sub32, shl32,
}

-- `packet::MAX_PACKET_HISTORY_SIZE`
abbrev pub max_packet_history_size : ℕ
max_packet_history_size = 2 ^ 15

pub record Window : Type 0 where
  pub has_received_remote_packet : Bool
  pub remote_acknowledge_id : ℕ
  pub remote_acknowledge_bitfield : ℕ
  pub old_packet_history : List ℕ

abbrev pub empty_window : Window
empty_window = record {
  has_received_remote_packet = false;
  remote_acknowledge_id = 0;
  remote_acknowledge_bitfield = 0;
  old_packet_history = [];
}

-- `std::ranges::find(history, id) != history.end()`
unfoldable pub contains : ℕ → List ℕ → Bool
contains x [] = false
contains x (y ∷ ys) = y == x || contains x ys

-- What the two loops push: the IDs of the set bits from `i` on, for `n` bits.
unfoldable pub pushed : ℕ → ℕ → ℕ → ℕ → List ℕ
pushed ack bits i zero = []
pushed ack bits i (suc n) =
    let rest = pushed ack bits (i + 1) n in
    if has_bit bits i then sub32 ack (i + 1) ∷ rest else rest

abbrev pop_front : List ℕ → List ℕ
pop_front [] = []
pop_front (x ∷ xs) = xs

-- An ID that is too old for the bitfield.
unfoldable pub remember : ℕ → List ℕ → List ℕ
remember x history =
    if contains x history
    then history
    else if ltb max_packet_history_size (length (history ++ x ∷ []))
    then pop_front (history ++ x ∷ [])
    else history ++ x ∷ []

-- `bitfield <<= shift`. C++ leaves a shift by the full width undefined: `wide` is what it does.
abbrev pub shift_left : (ℕ → ℕ) → ℕ → ℕ → ℕ
shift_left wide bits shift = if shift == 32 then wide bits else shl32 bits shift

unfoldable pub advance_head : (ℕ → ℕ) → Window → ℕ → Window
advance_head wide w id =
    let ack = w.remote_acknowledge_id in
    let bits = w.remote_acknowledge_bitfield in
    let shift = sub32 id ack in
    if ltb 32 shift
    then record w {
      old_packet_history = w.old_packet_history ++ (pushed ack bits 0 32 ++ ack ∷ []);
      remote_acknowledge_bitfield = 0;
      remote_acknowledge_id = id;
    }
    else record w {
      old_packet_history = w.old_packet_history ++ pushed ack bits (32 - shift) shift;
      remote_acknowledge_bitfield = bit_or (shift_left wide bits shift) (2 ^ (shift - 1));
      remote_acknowledge_id = id;
    }

unfoldable pub fill_behind : Window → ℕ → Window
fill_behind w id =
    let diff = sub32 w.remote_acknowledge_id id in
    if leb diff 32
    then record w {
      remote_acknowledge_bitfield = bit_or w.remote_acknowledge_bitfield (2 ^ (diff - 1));
    }
    else record w { old_packet_history = remember id w.old_packet_history }

unfoldable pub update_acknowledge_info : (ℕ → ℕ) → Window → ℕ → Window
update_acknowledge_info wide w id =
    if not w.has_received_remote_packet
    then record w { remote_acknowledge_id = id; has_received_remote_packet = true }
    else if ltb w.remote_acknowledge_id id
    then advance_head wide w id
    else if ltb id w.remote_acknowledge_id
    then fill_behind w id
    else w

unfoldable pub is_duplicate : Window → ℕ → Bool
is_duplicate w id =
    if not w.has_received_remote_packet
    then false
    else if id == w.remote_acknowledge_id
    then true
    else if ltb w.remote_acknowledge_id id
    then false
    else let diff = sub32 w.remote_acknowledge_id id in
      if leb diff 32
      then has_bit w.remote_acknowledge_bitfield (diff - 1)
      else contains id w.old_packet_history
