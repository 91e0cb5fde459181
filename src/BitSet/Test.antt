-- ===== src/BitSet/Test.antt =====
-- DynamicBitSet.cpp: a set is grown by an assignment to the bit that is assigned to, and no other bit
-- changes.
use rtype.Base.{
  ℕ, ◌+◌, ◌-◌, ◌*◌, ◌/◌, ◌≤◌, ◌<◌, ◌≡◌, refl, ◌∙◌, inl, inr, [], ◌++◌, Bool, false, ◌==◌, leb,
  length, set, get_or, replicate, All, All-append, All-set, All-replicate, All-get_or, get_or-set,
  get_or-append, get_or-replicate, get_or_beyond, length-append, length-set, length-replicate,
  Bool-cases, if◌then◌else◌, arith,
}
use rtype.BitSet.Blocks.{
  block_size, DynamicBitSet, empty_block, capacity, test, reserve, assign, block_index, bit_index,
}

abbrev pub IsBlocks : DynamicBitSet → Type 0
IsBlocks s = All (λ block. length block ≡ block_size) s

get_or-empty_block : (i : ℕ) → get_or empty_block i false ≡ false
unfolding empty_block
get_or-empty_block i = get_or-replicate block_size i false false ∙ ground arith

pub length-empty_block : length empty_block ≡ block_size
unfolding empty_block
length-empty_block = length-replicate {A = Bool} block_size false

pub test-eq :
    (i : ℕ) (s : DynamicBitSet)
    → test i s ≡ get_or (get_or s (block_index i) []) (bit_index i) false
unfolding test
test-eq i s = elim (Bool-cases (leb (length s * block_size) i)) [
  | inl beyond ↦ rw (beyond, test, get_or_beyond s (i / block_size) [] (ground arith)) refl
  | inr there ↦ rw (there, test) refl
]

pub test_beyond : (i : ℕ) (s : DynamicBitSet) → capacity s ≤ i → test i s ≡ false
unfolding test
test_beyond i s beyond = ground arith

pub test-appended : (i n : ℕ) (s : DynamicBitSet) → test i (s ++ replicate n empty_block) ≡ test i s
test-appended i n s =
    rw
      (
        test-eq i (s ++ replicate n empty_block),
        test-eq i s,
        get_or-append s (replicate n empty_block) (i / block_size) [],
        get_or-replicate n (i / block_size - length s) empty_block [],
      )
      (ground (arith, get_or-empty_block (bit_index i), get_or_beyond s (i / block_size) []))

test-reserve : (i j : ℕ) (s : DynamicBitSet) → test i (reserve j s) ≡ test i s
unfolding reserve
test-reserve i j s = ground (arith, test-appended i (j / block_size + 1 - length s) s)

reserve-there : (i : ℕ) (s : DynamicBitSet) → i / block_size < length (reserve i s)
unfolding reserve
reserve-there i s =
    let n = i / block_size + 1 - length s in
    ground (arith, length-append s (replicate n empty_block), length-replicate n empty_block)

reserve-IsBlocks : (i : ℕ) (s : DynamicBitSet) → IsBlocks s → IsBlocks (reserve i s)
unfolding reserve
reserve-IsBlocks i s v = elim (Bool-cases (leb (length s * block_size) i)) [
  | inl beyond ↦
      rw (beyond, reserve) (All-append _ s _ v (All-replicate _ _ empty_block length-empty_block))
  | inr there ↦ rw (there, reserve) v
]

pub assign-IsBlocks :
    (i : ℕ) (value : Bool) (s : DynamicBitSet) → IsBlocks s → IsBlocks (assign i value s)
unfolding assign
assign-IsBlocks i value s v =
    let full = reserve-IsBlocks i s v in
    All-set _ (reserve i s) (i / block_size) _ full (
      length-set (get_or (reserve i s) (i / block_size) []) (bit_index i) value
      ∙ All-get_or (λ block. length block ≡ block_size) (reserve i s) (i / block_size) [] full
          (reserve-there i s))

pub length-assign :
    (i : ℕ) (value : Bool) (s : DynamicBitSet) → length (assign i value s) ≡ length (reserve i s)
unfolding assign
length-assign i value s = length-set (reserve i s) (i / block_size) _

-- An assignment through `operator[]` sets that bit and no other, and grows the set where it must.
pub test-assign :
    (i j : ℕ) (value : Bool) (s : DynamicBitSet)
    → IsBlocks s
    → test j (assign i value s) ≡ (if i == j then value else test j s)
unfolding assign
test-assign i j value s v =
    let s' = reserve i s in
    let full = reserve-IsBlocks i s v in
    let there = reserve-there i s in
    let old = get_or s' (i / block_size) [] in
    let same = test-reserve j i s in
    rw
      (
        ← same,
        test-eq j (set s' (i / block_size) (set old (bit_index i) value)),
        test-eq j s',
        get_or-set s' (i / block_size) (j / block_size) (set old (bit_index i) value) [],
      )
      (elim (Bool-cases (i / block_size == j / block_size)) [
        | inl hit ↦
            let e : i / block_size ≡ j / block_size = ground arith in
            let size : length old ≡ block_size =
              All-get_or (λ block. length block ≡ block_size) s' (i / block_size) [] full there in
            rw (← e)
              (ground (arith, there, size, get_or-set old (bit_index i) (bit_index j) value false))
        | inr miss ↦ ground arith
      ])
