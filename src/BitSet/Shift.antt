-- ===== src/BitSet/Shift.antt =====
-- The shifts of DynamicBitSet.cpp: the carry from block to block, and what it does to the indices.
use rtype.Base.{
  ℕ, zero, suc, ◌+◌, ◌-◌, ◌/◌, ◌%◌, ◌≤◌, ◌<◌, ◌≡◌, refl, sym, ap, ◌∙◌, inl, inr, List, [], ◌∷◌,
  Bool, true, false, ◌==◌, ltb, length, set, take, Bool-cases, if◌then◌else◌, arith, get_or,
}
use rtype.BitSet.Blocks.{
  block_size, DynamicBitSet, test, bit_index, shift_left_from, shift_left_once, left_shift,
}
use rtype.BitSet.Test.{test-eq, test_beyond}

get_or-take :
    (n : ℕ) (xs : List Bool) (i : ℕ) → i < n → get_or (take n xs) i false ≡ get_or xs i false
get_or-take zero xs i h = absurd (omega arith)
get_or-take (suc n) [] i h = refl
get_or-take (suc n) (x ∷ xs) zero h = refl
get_or-take (suc n) (x ∷ xs) (suc i) h = get_or-take n xs i (omega arith)

-- `block <<= 1` and `block >>= 1`
abbrev up : List Bool → List Bool
up block = false ∷ take 63 block

abbrev carried : Bool → ℕ → List Bool → List Bool
carried c i block = if c then set block i true else block

top : ℕ → DynamicBitSet → Bool
top k s = get_or (get_or s k []) 63 false

get_or-shift_left_from :
    (block : List Bool) (blocks : DynamicBitSet) (k : ℕ)
    → k ≤ length blocks
    → get_or (shift_left_from (up block) blocks) k []
      ≡ carried (top k blocks) 0 (up (get_or (block ∷ blocks) k []))
unfolding shift_left_from top
get_or-shift_left_from block [] zero h = refl
get_or-shift_left_from block [] (suc k) h = absurd (omega arith)
get_or-shift_left_from block (next ∷ blocks) zero h = refl
get_or-shift_left_from block (next ∷ blocks) (suc k) h =
    get_or-shift_left_from next blocks k (omega arith)

get_or-shift_left_once :
    (s : DynamicBitSet) (k : ℕ)
    → k < length s
    → get_or (shift_left_once s) k [] ≡ carried (top (suc k) s) 0 (up (get_or s k []))
unfolding shift_left_once top
get_or-shift_left_once [] k h = absurd (omega arith)
get_or-shift_left_once (block ∷ blocks) k h =
    unfold top in get_or-shift_left_from block blocks k (omega arith)

below :
    (block : List Bool) (c : Bool) (b : ℕ)
    → get_or block b false ≡ (if suc b == 0 then c else get_or block (suc b - 1) false)
below block c b = ground arith

-- A bit of a block that moved up and took a carry.
get_or-carried :
    (block : List Bool) (c : Bool) (b : ℕ)
    → b < 64
    → get_or (carried c 0 (up block)) b false ≡ (if b == 0 then c else get_or block (b - 1) false)
get_or-carried block true zero h = refl
get_or-carried block false zero h = refl
get_or-carried block true (suc b) h = get_or-take 63 block b (omega arith) ∙ below block true b
get_or-carried block false (suc b) h = get_or-take 63 block b (omega arith) ∙ below block false b

length-shift_left_from :
    (block : List Bool) (blocks : DynamicBitSet)
    → length (shift_left_from block blocks) ≡ suc (length blocks)
unfolding shift_left_from
length-shift_left_from block [] = refl
length-shift_left_from block (next ∷ blocks) = ap suc (length-shift_left_from _ blocks)

length-shift_left_once : (s : DynamicBitSet) → length (shift_left_once s) ≡ length s
unfolding shift_left_once
length-shift_left_once [] = refl
length-shift_left_once (block ∷ blocks) = length-shift_left_from _ blocks

test-shift_left_once : (i : ℕ) (s : DynamicBitSet) → test i (shift_left_once s) ≡ test (i + 1) s
unfolding top
test-shift_left_once i s = elim (Bool-cases (ltb (i / block_size) (length s))) [
  | inr outside ↦
      test_beyond i (shift_left_once s) (ground (arith, length-shift_left_once s))
      ∙ sym (test_beyond (i + 1) s (ground arith))
  | inl inside ↦
      rw
        (
          test-eq i (shift_left_once s),
          test-eq (i + 1) s,
          get_or-shift_left_once s (i / block_size) (ground arith),
          get_or-carried (get_or s (i / block_size) [])
              (get_or (get_or s (suc (i / block_size)) []) 63 false) (bit_index i) (omega arith),
        )
        (elim (Bool-cases (bit_index i == 0)) [
          | inl crosses ↦
              rw
                (
                  crosses,
                  (let e : (i + 1) / block_size ≡ suc (i / block_size) = ground arith in e),
                  (let e : block_size - 1 - (i + 1) % block_size ≡ 63 = ground arith in e),
                )
                refl
          | inr stays ↦
              rw
                (
                  stays,
                  (let e : (i + 1) / block_size ≡ i / block_size = ground arith in e),
                  (let e : block_size - 1 - (i + 1) % block_size ≡ bit_index i - 1 = ground arith in
                      e),
                )
                refl
        ])
]

-- A shift to the left by n moves the index i + n to the index i, across the blocks; the lowest n indices
-- are lost, and no index beyond the capacity appears.
pub test-left_shift : (n i : ℕ) (s : DynamicBitSet) → test i (left_shift n s) ≡ test (i + n) s
unfolding left_shift
test-left_shift zero i s = ap (λ (k : ℕ). test k s) (omega arith)
test-left_shift (suc n) i s =
    test-left_shift n i (shift_left_once s)
    ∙ test-shift_left_once (i + n) s
    ∙ ap (λ (k : ℕ). test k s) (omega arith)
