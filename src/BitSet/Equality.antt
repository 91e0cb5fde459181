-- ===== src/BitSet/Equality.antt =====
-- `operator==` of DynamicBitSet.cpp, which compares the bits of a block in the other order.
use rtype.Base.{
  ℕ, zero, suc, ◌+◌, ◌-◌, ◌*◌, ◌/◌, ◌%◌, ◌≤◌, ◌<◌, max, ◌≡◌, refl, sym, ap, ◌∙◌, inl, inr, [], true,
  false, ◌==◌, ltb, length, Bool-cases, if◌then◌else◌, arith, get_or, get_or_beyond, ◌↔◌,
}
use rtype.BitSet.Blocks.{block_size, DynamicBitSet, capacity, test, equal_from, equal}
use rtype.BitSet.Test.{test-eq, test_beyond}

-- The index that `operator==` looks at when its loop is at `i`.
abbrev mirror : ℕ → ℕ
mirror i = i / block_size * block_size + (block_size - 1 - i % block_size)

mirror-block : (i : ℕ) → mirror i / block_size ≡ i / block_size
mirror-block i = omega arith

mirror-bit : (i : ℕ) → block_size - 1 - mirror i % block_size ≡ i % block_size
mirror-bit i = omega arith

mirror-mirror : (i : ℕ) → mirror (mirror i) ≡ i
mirror-mirror i = omega arith

mirror-lt : (i n : ℕ) → i < n * block_size → mirror i < n * block_size
mirror-lt i n h = omega arith

raw_bit :
    (i : ℕ) (s : DynamicBitSet)
    → (if ltb i (capacity s)
        then get_or (get_or s (i / block_size) []) (i % block_size) false
        else false)
      ≡ test (mirror i) s
raw_bit i s =
    rw (test-eq (mirror i) s, mirror-block i, mirror-bit i)
      (ground (arith, get_or_beyond s (i / block_size) []))

module _ (a b : DynamicBitSet) where
  equal_from-step :
      (n i : ℕ)
      → equal_from a b i (suc n) ≡ true
      → (test (mirror i) a ≡ test (mirror i) b) × (equal_from a b (i + 1) n ≡ true)
  unfolding equal_from
  equal_from-step n i h =
      (ground (arith, raw_bit i a, raw_bit i b), ground (arith, raw_bit i a, raw_bit i b))

  equal_from_sound :
      (n i k : ℕ)
      → equal_from a b i n ≡ true
      → i ≤ k
      → k < i + n
      → test (mirror k) a ≡ test (mirror k) b
  equal_from_sound zero i k h l m = absurd (omega arith)
  equal_from_sound (suc n) i k h l m =
      let (here, later) = equal_from-step n i h in
      elim (Bool-cases (i == k)) [
        | inl hit ↦
            let e : i ≡ k = ground arith in
            sym (ap (λ (j : ℕ). test (mirror j) a) e) ∙ here ∙ ap (λ (j : ℕ). test (mirror j) b) e
        | inr miss ↦ equal_from_sound n (i + 1) k later (ground arith) (ground arith)
      ]

  equal_from_complete : (n i : ℕ) → ((k : ℕ) → test k a ≡ test k b) → equal_from a b i n ≡ true
  unfolding equal_from
  equal_from_complete zero i same = refl
  equal_from_complete (suc n) i same =
      ground (arith, raw_bit i a, raw_bit i b, same (mirror i), equal_from_complete n (i + 1) same)

  -- Two sets are equal for `operator==` exactly when they hold the same indices, whatever their
  -- capacities.
  pub equal-same : (equal a b ≡ true) ↔ ((j : ℕ) → test j a ≡ test j b)
  unfolding equal
  equal-same = (
    λ h j. elim (Bool-cases (ltb j (max (capacity a) (capacity b)))) [
      | inl inside ↦
          let near : mirror j < 0 + max (capacity a) (capacity b) =
            ground (arith, mirror-lt j (length a), mirror-lt j (length b)) in
          sym (ap (λ (k : ℕ). test k a) (mirror-mirror j))
          ∙ equal_from_sound (max (capacity a) (capacity b)) 0 (mirror j) h (omega arith) near
          ∙ ap (λ (k : ℕ). test k b) (mirror-mirror j)
      | inr outside ↦ test_beyond j a (ground arith) ∙ sym (test_beyond j b (ground arith))
    ],
    λ same. equal_from_complete (max (capacity a) (capacity b)) 0 same,
  )
