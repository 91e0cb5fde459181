-- ===== src/Ecs/MaskIndex.antt =====
-- The masks that `registerComponent` of ECS.hpp hands out: one index each, and each index once.
use rtype.Base.{
  ℕ, ◌+◌, ◌-◌, ◌<◌, ◌≡◌, ◌∙◌, inl, inr, List, [], ◌∷◌, Bool, true, ◌==◌, leb, length, set,
  Bool-cases, if-rule, replicate, All-append, All-replicate, length-append, arith,
}
use rtype.BitSet.Blocks.{
  DynamicBitSet, block_size, empty_block, capacity, test, assign, reserve, right_shift, none_set,
  increase,
}
use rtype.BitSet.Test.{
  IsBlocks, test_beyond, test-assign, test-appended, length-empty_block, assign-IsBlocks,
}
use rtype.BitSet.ShiftRight.{test-shifted}
use rtype.BitSet.Emptiness.{index_found, right_shift-IsBlocks}
use rtype.Ecs.Registry.{next_mask_index}

-- The set holds one index and no other.
pub record IsOnly (n : ℕ) (s : DynamicBitSet) : Type 0 where
  pub whole : IsBlocks s
  pub only : (i : ℕ) → test i s ≡ (n == i)

IsOnly-lt : (n : ℕ) (s : DynamicBitSet) → IsOnly n s → n < capacity s
IsOnly-lt n s v = elim (Bool-cases (leb (capacity s) n)) [
  | inl beyond ↦ absurd (ground (arith, v.only n, test_beyond n s (ground (arith, beyond))))
  | inr inside ↦ ground (arith, inside)
]

-- Where the next index still fits the blocks.
shifted-IsOnly :
    (n : ℕ) (s : DynamicBitSet) → IsOnly n s → n + 1 < capacity s → IsOnly (n + 1) (right_shift 1 s)
shifted-IsOnly n s v inside = record {
  whole = right_shift-IsBlocks 1 s v.whole;
  only = λ i. ground (arith, test-shifted 1 i s v.whole, v.only (i - 1));
}

increase-IsOnly : (n : ℕ) (s : DynamicBitSet) → IsOnly n s → IsOnly n (increase 1 s)
increase-IsOnly n s v = record {
  whole =
      All-append _ s _ v.whole
        (All-replicate (λ (b : List Bool). length b ≡ block_size) 1 empty_block length-empty_block);
  only = λ i. test-appended i 1 s ∙ v.only i;
}

pub next_mask_index-IsOnly :
    (n : ℕ) (s : DynamicBitSet) → IsOnly n s → IsOnly (n + 1) (next_mask_index s)
unfolding next_mask_index
next_mask_index-IsOnly n s v =
    let inside = IsOnly-lt n s v in
    if-rule (λ (t : DynamicBitSet). IsOnly (n + 1) (right_shift 1 t)) (none_set (right_shift 1 s))
      (λ full.
        shifted-IsOnly n (increase 1 s) (increase-IsOnly n s v)
          (omega (arith, inside, length-append s (replicate 1 empty_block))))
      (λ room.
        let (i, there) = index_found (right_shift 1 s) (right_shift-IsBlocks 1 s v.whole) room in
        shifted-IsOnly n s v (ground (arith, test-shifted 1 i s v.whole, v.only (i - 1), there)))

pub first-IsOnly : IsOnly 0 (set empty_block 63 true ∷ [])
unfolding assign reserve test empty_block
first-IsOnly = record {
  whole = assign-IsBlocks 0 true [] tt;
  only = λ i. test-assign 0 i true [] tt ∙ ground arith;
}
