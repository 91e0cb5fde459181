-- ===== src/BitSet/Emptiness.antt =====
-- `none`, and the blocks that the operations of DynamicBitSet.cpp leave whole.
use rtype.Base.{
  ℕ, zero, suc, ◌+◌, ◌-◌, ◌*◌, ◌/◌, ◌%◌, ◌<◌, ◌≡◌, refl, sym, ◌∙◌, inl, inr, List, [], ◌∷◌, Bool,
  true, false, length, get_or, Bool-cases, max, arith,
}
use rtype.BitSet.Blocks.{
  block_size, DynamicBitSet, test, any_bit, none_set, apply_from, apply_operation, right_shift,
  capacity,
}
use rtype.BitSet.Test.{IsBlocks, test-eq, assign-IsBlocks}
use rtype.BitSet.ShiftRight.{shift_right_once-IsBlocks}

any_bit-get_or : (block : List Bool) (k : ℕ) → get_or block k false ≡ true → any_bit block ≡ true
unfolding any_bit
any_bit-get_or [] k h = absurd (let e : false ≡ true = h in cc)
any_bit-get_or (b ∷ block) zero h = ground arith
any_bit-get_or (b ∷ block) (suc k) h = ground (arith, any_bit-get_or block k h)

none_set-get_or :
    (s : DynamicBitSet) (b k : ℕ) → get_or (get_or s b []) k false ≡ true → none_set s ≡ false
unfolding none_set
none_set-get_or [] b k h = absurd (let e : false ≡ true = h in cc)
none_set-get_or (block ∷ s) zero k h = ground (arith, any_bit-get_or block k h)
none_set-get_or (block ∷ s) (suc b) k h = ground (arith, none_set-get_or s b k h)

-- A set that holds an index is not empty.
pub none_set-test : (i : ℕ) (s : DynamicBitSet) → test i s ≡ true → none_set s ≡ false
none_set-test i s h = none_set-get_or s _ _ (sym (test-eq i s) ∙ h)

bit_found :
    (block : List Bool)
    → any_bit block ≡ true
    → (k : ℕ) × (k < length block) × (get_or block k false ≡ true)
unfolding any_bit
bit_found [] h = absurd (let e : false ≡ true = h in cc)
bit_found (true ∷ block) h = (0, omega arith, refl)
bit_found (false ∷ block) h =
    let (k, inside, there) = bit_found block h in (suc k, omega (arith, inside), there)

block_found :
    (s : DynamicBitSet)
    → IsBlocks s
    → none_set s ≡ false
    → (b k : ℕ) × (k < block_size) × (get_or (get_or s b []) k false ≡ true)
unfolding none_set
block_found [] v h = absurd (let e : true ≡ false = h in cc)
block_found (block ∷ s) v h = elim (Bool-cases (any_bit block)) [
  | inl here ↦
      let (k, inside, there) = bit_found block here in (0, k, omega (arith, inside, v.0), there)
  | inr not_here ↦
      let (b, k, inside, there) = block_found s v.1 (ground (arith, not_here)) in
      (suc b, k, inside, there)
]

-- A set that is not empty holds an index.
pub index_found :
    (s : DynamicBitSet) → IsBlocks s → none_set s ≡ false → (i : ℕ) × (test i s ≡ true)
index_found s v h =
    let (b, k, inside, there) = block_found s v h in
    let i = b * 64 + (63 - k) in
    let at : i / 64 ≡ b = omega (arith, inside) in
    let bit : 63 - i % 64 ≡ k = omega (arith, inside) in (i, test-eq i s ∙ rw (at, bit) there)

apply_from-IsBlocks :
    (operation : Bool → Bool → Bool) (in_place : Bool) (a b : DynamicBitSet) (i n : ℕ)
    (result : DynamicBitSet)
    → IsBlocks result
    → IsBlocks (apply_from operation in_place a b i n result)
unfolding apply_from
apply_from-IsBlocks operation in_place a b i zero result v = v
apply_from-IsBlocks operation in_place a b i (suc n) result v =
    apply_from-IsBlocks operation in_place a b (i + 1) n _ (assign-IsBlocks i _ result v)

pub apply_operation-IsBlocks :
    (operation : Bool → Bool → Bool) (in_place : Bool) (a b : DynamicBitSet)
    → IsBlocks a
    → IsBlocks (apply_operation operation in_place a b)
unfolding apply_operation
apply_operation-IsBlocks operation in_place a b v =
    apply_from-IsBlocks operation in_place a b 0 (max (capacity a) (capacity b)) a v

pub right_shift-IsBlocks : (n : ℕ) (s : DynamicBitSet) → IsBlocks s → IsBlocks (right_shift n s)
unfolding right_shift
right_shift-IsBlocks zero s v = v
right_shift-IsBlocks (suc n) s v = right_shift-IsBlocks n _ (shift_right_once-IsBlocks s v)
