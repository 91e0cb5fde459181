-- ===== src/Tests/BitSet.antt =====
-- lib/rtecs/src/bitset/DynamicBitSet.cpp on small sets.
use rtype.Base.{
  arith, none, some, ◌<◌, ◌∙◌, ℕ, ◌+◌, ◌-◌, ◌≡◌, [], true, false, ◌&&◌, ◌||◌, ltb, leb, ◌↔◌,
  if◌then◌else◌,
}
use rtype.BitSet.Blocks.{
  serialize, deserialize, DynamicBitSet, capacity, test, assign, xor, bit_and_set, bit_or_set,
  bit_xor_set, and_assign, or_assign, xor_assign, equal, left_shift, right_shift,
}
use rtype.BitSet.Test.{test_beyond, IsBlocks, test-assign, assign-IsBlocks}
use rtype.BitSet.Operators.{test-operators}
use rtype.BitSet.Serialize.{deserialize-serialize, deserialize-serialize_low}
use rtype.BitSet.Equality.{equal-same}
use rtype.BitSet.Shift.{test-left_shift}
use rtype.BitSet.ShiftRight.{test-right_shift}

-- The indices 3 and 70, on two blocks.
abbrev pair : DynamicBitSet
pair = assign 70 true (assign 3 true [])

abbrev single : DynamicBitSet
single = assign 3 true []

single-IsBlocks : IsBlocks single
single-IsBlocks = assign-IsBlocks 3 true [] tt

pair-IsBlocks : IsBlocks pair
pair-IsBlocks = assign-IsBlocks 70 true single single-IsBlocks

test-operators_example :
    (test 70 (bit_and_set single pair) ≡ (test 70 single && test 70 pair))
    × (test 70 (bit_or_set single pair) ≡ (test 70 single || test 70 pair))
    × (test 70 (bit_xor_set single pair) ≡ xor (test 70 single) (test 70 pair))
    × (test 70 (and_assign single pair) ≡ (test 70 single && test 70 pair))
    × (test 70 (or_assign single pair) ≡ (test 70 single || test 70 pair))
    × (test 70 (xor_assign single pair) ≡ xor (test 70 single) (test 70 pair))
test-operators_example = test-operators single pair single-IsBlocks 70

equal-same_example : (equal single pair ≡ true) ↔ ((j : ℕ) → test j single ≡ test j pair)
equal-same_example = equal-same single pair

test-left_shift_example : test 6 (left_shift 64 pair) ≡ test (6 + 64) pair
test-left_shift_example = test-left_shift 64 6 pair

test-right_shift_example :
    (test 67 (right_shift 64 pair)
      ≡ (if ltb 67 (capacity pair) && leb 64 67 then test (67 - 64) pair else false))
    × (capacity (right_shift 64 pair) ≡ capacity pair)
test-right_shift_example = test-right_shift 64 67 pair pair-IsBlocks

pair-holds : test 70 pair ≡ true
pair-holds = test-assign 70 70 true single single-IsBlocks ∙ ground arith

deserialize-serialize_example :
    (s' : DynamicBitSet) × (deserialize (serialize pair) ≡ some s')
    × ((j : ℕ) → test j s' ≡ test j pair)
deserialize-serialize_example = deserialize-serialize pair 70 pair-holds (omega arith)

-- The index 0 alone.
abbrev lone : DynamicBitSet
lone = assign 0 true []

lone-low : (t : ℕ) → 0 < t → test t lone ≡ false
lone-low t above = ground (arith, test-assign 0 t true [] tt, test_beyond t [])

deserialize-serialize_low_example : deserialize (serialize lone) ≡ none
deserialize-serialize_low_example = deserialize-serialize_low lone lone-low
