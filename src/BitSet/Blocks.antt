-- ===== src/BitSet/Blocks.antt =====
-- The operations of lib/rtecs/src/bitset/DynamicBitSet.cpp. A `std::bitset<64>` is the list of its
-- bits, from bit 0 on; the index 0 of the set is bit 63 of the first block.
use rtype.Base.{
  ℕ, zero, suc, ◌+◌, ◌-◌, ◌*◌, ◌/◌, ◌%◌, max, List, [], ◌∷◌, ◌++◌, map, Option, none, some, Bool,
  true, false, not, ◌&&◌, ◌||◌, ltb, leb, length, set, get_or, take, drop, replicate, if◌then◌else◌,
}

abbrev pub block_size : ℕ
block_size = 64

-- `_bitsets`; the field `_nbits` is never read.
abbrev pub DynamicBitSet : Type 0
DynamicBitSet = List (List Bool)

unfoldable pub empty_block : List Bool
empty_block = replicate block_size false

abbrev pub block_index : ℕ → ℕ
block_index i = i / block_size

abbrev pub bit_index : ℕ → ℕ
bit_index i = block_size - 1 - i % block_size

abbrev pub capacity : DynamicBitSet → ℕ
capacity s = length s * block_size

-- `operator[](i) const`
unfoldable pub test : ℕ → DynamicBitSet → Bool
test i s =
    if leb (capacity s) i then false else get_or (get_or s (block_index i) []) (bit_index i) false

unfoldable pub reserve : ℕ → DynamicBitSet → DynamicBitSet
reserve i s =
    if leb (capacity s) i then s ++ replicate (i / block_size + 1 - length s) empty_block else s

-- `(*this)[i] = value`
unfoldable pub assign : ℕ → Bool → DynamicBitSet → DynamicBitSet
assign i value s =
    let s' = reserve i s in
    set s' (block_index i) (set (get_or s' (block_index i) []) (bit_index i) value)

unfoldable pub of_bytes : List ℕ → DynamicBitSet → DynamicBitSet
of_bytes [] s = s
of_bytes (bit ∷ bytes) s = of_bytes bytes (assign bit true s)

-- The loop of `applyOperation`, with `n` bits to go from `i` on: the operands' bits are read below the
-- capacities that they had when the loop started. In `operator&=` and its like the left operand is the
-- result itself, and is read while it is written.
unfoldable pub apply_from :
    (Bool → Bool → Bool)
    → Bool
    → DynamicBitSet
    → DynamicBitSet
    → ℕ
    → ℕ
    → DynamicBitSet
    → DynamicBitSet
apply_from operation in_place a b i zero result = result
apply_from operation in_place a b i (suc n) result =
    let bit_a = if ltb i (capacity a) then test i (if in_place then result else a) else false in
    let bit_b = if ltb i (capacity b) then test i b else false in
    apply_from operation in_place a b (i + 1) n (assign i (operation bit_a bit_b) result)

unfoldable pub apply_operation :
    (Bool → Bool → Bool) → Bool → DynamicBitSet → DynamicBitSet → DynamicBitSet
apply_operation operation in_place a b =
    apply_from operation in_place a b 0 (max (capacity a) (capacity b)) a

abbrev pub bit_and_set : DynamicBitSet → DynamicBitSet → DynamicBitSet
bit_and_set a b = apply_operation (λ x y. x && y) false a b

abbrev pub bit_or_set : DynamicBitSet → DynamicBitSet → DynamicBitSet
bit_or_set a b = apply_operation (λ x y. x || y) false a b

abbrev pub xor : Bool → Bool → Bool
xor x y = if x then not y else y

abbrev pub bit_xor_set : DynamicBitSet → DynamicBitSet → DynamicBitSet
bit_xor_set a b = apply_operation xor false a b

abbrev pub complement : DynamicBitSet → DynamicBitSet
complement a = apply_operation (λ x y. not x) false a a

abbrev pub and_assign : DynamicBitSet → DynamicBitSet → DynamicBitSet
and_assign a b = apply_operation (λ x y. x && y) true a b

abbrev pub or_assign : DynamicBitSet → DynamicBitSet → DynamicBitSet
or_assign a b = apply_operation (λ x y. x || y) true a b

abbrev pub xor_assign : DynamicBitSet → DynamicBitSet → DynamicBitSet
xor_assign a b = apply_operation xor true a b

-- The loop of `operator==`, with `n` bits to go from `i` on. It compares bit `i % 64` of each block.
unfoldable pub equal_from : DynamicBitSet → DynamicBitSet → ℕ → ℕ → Bool
equal_from a b i zero = true
equal_from a b i (suc n) =
    let bit_a = get_or (get_or a (i / block_size) []) (i % block_size) false in
    let bit_b = get_or (get_or b (i / block_size) []) (i % block_size) false in
    let rest = equal_from a b (i + 1) n in
    if xor (if ltb i (capacity a) then bit_a else false)
      (if ltb i (capacity b) then bit_b else false)
    then false
    else rest

unfoldable pub equal : DynamicBitSet → DynamicBitSet → Bool
equal a b = equal_from a b 0 (max (capacity a) (capacity b))

unfoldable pub serialize_from : DynamicBitSet → ℕ → ℕ → List ℕ
serialize_from s i zero = []
serialize_from s i (suc n) =
    let rest = serialize_from s (i + 1) n in if test i s then i ∷ rest else rest

unfoldable pub serialize : DynamicBitSet → List ℕ
serialize s = serialize_from s 0 (length s * block_size)

-- `std::bitset<64>::any` and `all`
unfoldable pub any_bit : List Bool → Bool
any_bit [] = false
any_bit (b ∷ block) = b || any_bit block

unfoldable pub all_bits : List Bool → Bool
all_bits [] = true
all_bits (b ∷ block) = b && all_bits block

unfoldable pub any : DynamicBitSet → Bool
any [] = false
any (block ∷ blocks) = any_bit block || any blocks

unfoldable pub all : DynamicBitSet → Bool
all [] = true
all (block ∷ blocks) = all_bits block && all blocks

unfoldable pub none_set : DynamicBitSet → Bool
none_set [] = true
none_set (block ∷ blocks) = not (any_bit block) && none_set blocks

abbrev pub clear : DynamicBitSet → DynamicBitSet
clear s = map (λ block. empty_block) s

abbrev pub increase : ℕ → DynamicBitSet → DynamicBitSet
increase n s = s ++ replicate n empty_block

-- `pop_back` on an empty vector is undefined.
unfoldable pub decrease : ℕ → DynamicBitSet → Option DynamicBitSet
decrease n s = if ltb (length s) n then none else some (take (length s - n) s)

-- One round of `leftShift`: the block before takes the top bit of each block, then the block moves.
unfoldable pub shift_left_from : List Bool → DynamicBitSet → DynamicBitSet
shift_left_from previous [] = previous ∷ []
shift_left_from previous (block ∷ blocks) =
    (if get_or block 63 false then set previous 0 true else previous)
    ∷ shift_left_from (false ∷ take 63 block) blocks

unfoldable pub shift_left_once : DynamicBitSet → DynamicBitSet
shift_left_once [] = []
shift_left_once (block ∷ blocks) = shift_left_from (false ∷ take 63 block) blocks

unfoldable pub left_shift : ℕ → DynamicBitSet → DynamicBitSet
left_shift zero s = s
left_shift (suc n) s = left_shift n (shift_left_once s)

-- One round of `rightShift`, from the last block to the first.
unfoldable pub carry_right : List Bool → DynamicBitSet → DynamicBitSet
carry_right block [] = []
carry_right block (next ∷ rest) = (if get_or block 0 false then set next 63 true else next) ∷ rest

unfoldable pub shift_right_once : DynamicBitSet → DynamicBitSet
shift_right_once [] = []
shift_right_once (block ∷ blocks) =
    (drop 1 block ++ false ∷ []) ∷ carry_right block (shift_right_once blocks)

unfoldable pub right_shift : ℕ → DynamicBitSet → DynamicBitSet
right_shift zero s = s
right_shift (suc n) s = right_shift n (shift_right_once s)

unfoldable pub last_of : List ℕ → Option ℕ
last_of [] = none
last_of (x ∷ xs) = elim (last_of xs) [ none ↦ some x | some y ↦ some y ]

-- The loop of `deserialize`; a write outside the blocks is undefined.
unfoldable pub mark_all : List ℕ → DynamicBitSet → Option DynamicBitSet
mark_all [] s = some s
mark_all (i ∷ indexes) s = elim (ltb (block_index i) (length s)) [
  | false ↦ none
  | true ↦
      mark_all indexes
        (set s (block_index i) (set (get_or s (block_index i) []) (bit_index i) true))
]

-- `back()` of an empty vector is undefined; the set is grown if the last index is above 0.
unfoldable pub deserialize : List ℕ → Option DynamicBitSet
deserialize indexes = elim (last_of indexes) [
  | none ↦ none
  | some top ↦
      mark_all indexes (if ltb 0 top then replicate (top / block_size + 1) empty_block else [])
]
