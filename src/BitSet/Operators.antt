-- ===== src/BitSet/Operators.antt =====
-- `applyOperation` of DynamicBitSet.cpp and the operators that use it, bit by bit.
use rtype.Base.{
  ℕ, zero, suc, ◌+◌, ◌≤◌, max, ◌≡◌, refl, sym, ap, ap₂, ◌∙◌, inl, inr, Bool, true, false, not, ◌&&◌,
  ◌||◌, ◌==◌, ltb, leb, Bool-cases, if◌then◌else◌, arith,
}
use rtype.BitSet.Blocks.{
  DynamicBitSet, capacity, test, assign, apply_from, apply_operation, bit_and_set, bit_or_set,
  bit_xor_set, xor, complement, and_assign, or_assign, xor_assign,
}
use rtype.BitSet.Test.{IsBlocks, test_beyond, assign-IsBlocks, test-assign}

module _ (operation : Bool → Bool → Bool) (in_place : Bool) (a b : DynamicBitSet) where
  operand :
      (i : ℕ) (s : DynamicBitSet) → (if ltb i (capacity s) then test i s else false) ≡ test i s
  operand i s = ground (arith, test_beyond i s)

  left_operand :
      (i : ℕ) (result : DynamicBitSet)
      → test i result ≡ test i a
      → (if ltb i (capacity a) then test i (if in_place then result else a) else false) ≡ test i a
  left_operand i result same = elim (Bool-cases in_place) [
    | inl reads ↦ rw reads (ground (arith, same, test_beyond i a))
    | inr copies ↦ rw copies (operand i a)
  ]

  test-apply_from :
      (n i j : ℕ) (result : DynamicBitSet)
      → IsBlocks result
      → ((k : ℕ) → i ≤ k → test k result ≡ test k a)
      → test j (apply_from operation in_place a b i n result)
        ≡ (if leb i j && ltb j (i + n) then operation (test j a) (test j b) else test j result)
  unfolding apply_from
  test-apply_from zero i j result v same = ground arith
  test-apply_from (suc n) i j result v same =
      let bit_a = if ltb i (capacity a) then test i (if in_place then result else a) else false in
      let bit_b = if ltb i (capacity b) then test i b else false in
      let value = operation bit_a bit_b in
      let known : value ≡ operation (test i a) (test i b) =
        ap₂ operation (left_operand i result (same i (omega arith))) (operand i b) in
      let written = test-assign i j value result v in
      let kept : (k : ℕ) → i + 1 ≤ k → test k (assign i value result) ≡ test k a =
        λ k l. ground (arith, test-assign i k value result v, same k) in
      let rest =
        test-apply_from n (i + 1) j (assign i value result) (assign-IsBlocks i value result v)
          kept in
      rest ∙ (elim (Bool-cases (i == j)) [
        | inl hit ↦
            let e : i ≡ j = ground arith in
            ground (arith, written, known, ap (λ (k : ℕ). operation (test k a) (test k b)) e)
        | inr miss ↦ ground (arith, written)
      ])

  test-apply_operation :
      (j : ℕ)
      → IsBlocks a
      → test j (apply_operation operation in_place a b)
        ≡ (if ltb j (max (capacity a) (capacity b)) then operation (test j a) (test j b) else false)
  unfolding apply_operation
  test-apply_operation j v =
      test-apply_from (max (capacity a) (capacity b)) 0 j a v (λ k l. refl)
      ∙ ground (arith, test_beyond j a)

module _ (a b : DynamicBitSet) (v : IsBlocks a) (j : ℕ) where
  extended :
      (operation : Bool → Bool → Bool) (in_place : Bool)
      → operation false false ≡ false
      → test j (apply_operation operation in_place a b) ≡ operation (test j a) (test j b)
  extended operation in_place strict =
      test-apply_operation operation in_place a b j v
      ∙ elim (Bool-cases (ltb j (max (capacity a) (capacity b)))) [
        | inl inside ↦ rw inside refl
        | inr outside ↦
            rw (outside, test_beyond j a (ground arith), test_beyond j b (ground arith))
              (sym strict)
      ]

  -- Each of the operators on two sets, of which the left one has whole blocks, acts bit by bit on
  -- indices of any size, whatever the capacities of the two, and the operators that assign leave
  -- the same bits as those that do not.
  pub test-operators :
      (test j (bit_and_set a b) ≡ (test j a && test j b))
      × (test j (bit_or_set a b) ≡ (test j a || test j b))
      × (test j (bit_xor_set a b) ≡ xor (test j a) (test j b))
      × (test j (and_assign a b) ≡ (test j a && test j b))
      × (test j (or_assign a b) ≡ (test j a || test j b))
      × (test j (xor_assign a b) ≡ xor (test j a) (test j b))
  test-operators = (
    extended (λ x y. x && y) false refl,
    extended (λ x y. x || y) false refl,
    extended xor false refl,
    extended (λ x y. x && y) true refl,
    extended (λ x y. x || y) true refl,
    extended xor true refl,
  )

-- The complement flips the bits within the capacity, and there are none beyond it.
test-complement :
    (a : DynamicBitSet) (j : ℕ)
    → IsBlocks a
    → test j (complement a) ≡ (ltb j (capacity a) && not (test j a))
test-complement a j v = test-apply_operation (λ x y. not x) false a a j v ∙ ground arith
