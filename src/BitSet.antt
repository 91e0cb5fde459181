-- ===== src/BitSet.antt =====
-- lib/rtecs/src/bitset/DynamicBitSet.cpp: sets of indices that grow.
pub mod Blocks
pub mod Test
pub mod Operators
pub mod Equality
pub mod Shift
pub mod ShiftRight
pub mod Emptiness
pub mod Serialize
