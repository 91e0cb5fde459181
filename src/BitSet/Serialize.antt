-- ===== src/BitSet/Serialize.antt =====
-- `serialize` and `deserialize` of DynamicBitSet.cpp: the list of the indices, and the way back.
use rtype.Base.{
  ℕ, zero, suc, ◌+◌, ◌*◌, ◌/◌, ◌≤◌, ◌<◌, ◌≡◌, refl, sym, ap, ◌∙◌, ◌⊎◌, inl, inr, List, [], ◌∷◌,
  none, some, Bool, true, false, ◌&&◌, ◌||◌, ◌==◌, ltb, leb, length, replicate, length-replicate,
  All, All-replicate, set, get_or, Bool-cases, Option-cases, arith,
}
use rtype.BitSet.Blocks.{
  block_size, DynamicBitSet, capacity, empty_block, test, reserve, assign, block_index, bit_index,
  serialize_from, serialize, last_of, mark_all, deserialize,
}
use rtype.BitSet.Test.{
  IsBlocks, test_beyond, test-assign, assign-IsBlocks, length-assign, length-empty_block,
  test-appended,
}

unfoldable pub listed : ℕ → List ℕ → Bool
listed j [] = false
listed j (i ∷ indexes) = i == j || listed j indexes

listed-serialize_from :
    (s : DynamicBitSet) (n i j : ℕ)
    → listed j (serialize_from s i n) ≡ (leb i j && (ltb j (i + n) && test j s))
unfolding listed serialize_from
listed-serialize_from s zero i j = ground arith
listed-serialize_from s (suc n) i j = elim (Bool-cases (i == j)) [
  | inl hit ↦
      let e : i ≡ j = ground arith in
      ground (arith, ap (λ (k : ℕ). test k s) e, listed-serialize_from s n (i + 1) j)
  | inr miss ↦ ground (arith, listed-serialize_from s n (i + 1) j)
]

-- `serialize` lists exactly the indices that the set holds.
listed-serialize : (s : DynamicBitSet) (j : ℕ) → listed j (serialize s) ≡ test j s
unfolding serialize
listed-serialize s j =
    listed-serialize_from s (length s * block_size) 0 j ∙ ground (arith, test_beyond j s)

last-cons :
    (i top : ℕ) (indexes : List ℕ)
    → last_of (i ∷ indexes) ≡ some top
    → ((last_of indexes ≡ none) × (i ≡ top)) ⊎ (last_of indexes ≡ some top)
unfolding last_of
last-cons i top indexes at_end = elim (Option-cases (last_of indexes)) [
  | inl nothing ↦ inl (nothing, ground (arith, nothing))
  | inr (y, more) ↦ inr (ground (arith, more))
]

last-none : (indexes : List ℕ) (j : ℕ) → last_of indexes ≡ none → listed j indexes ≡ false
unfolding last_of listed
last-none [] j nothing = refl
last-none (i ∷ indexes) j nothing = elim (Option-cases (last_of indexes)) [
  | inl e ↦ ground (arith, e)
  | inr (y, e) ↦ ground (arith, e)
]

last-listed : (indexes : List ℕ) (top : ℕ) → last_of indexes ≡ some top → listed top indexes ≡ true
unfolding listed
last-listed [] top at_end = unfold last_of in cc
last-listed (i ∷ indexes) top at_end = elim (last-cons i top indexes at_end) [
  | inl (nothing, e) ↦ ground (arith, e)
  | inr more ↦ ground (arith, last-listed indexes top more)
]

serialize_from-cons :
    (s : DynamicBitSet) (n i : ℕ)
    → test i s ≡ true
    → serialize_from s i (suc n) ≡ i ∷ serialize_from s (i + 1) n
unfolding serialize_from
serialize_from-cons s n i there = rw there refl

serialize_from-skip :
    (s : DynamicBitSet) (n i : ℕ)
    → test i s ≡ false
    → serialize_from s i (suc n) ≡ serialize_from s (i + 1) n
unfolding serialize_from
serialize_from-skip s n i absent = rw absent refl

-- The last index is the largest.
listed-le-last :
    (s : DynamicBitSet) (n i j top : ℕ)
    → last_of (serialize_from s i n) ≡ some top
    → listed j (serialize_from s i n) ≡ true
    → j ≤ top
listed-le-last s zero i j top at_end found = ground (arith, listed-serialize_from s 0 i j)
listed-le-last s (suc n) i j top at_end found = elim (Bool-cases (test i s)) [
  | inr absent ↦
      let e = serialize_from-skip s n i absent in
      listed-le-last s n (i + 1) j top (sym (ap last_of e) ∙ at_end) (sym (ap (listed j) e) ∙ found)
  | inl there ↦
      let rest = serialize_from s (i + 1) n in
      let e = serialize_from-cons s n i there in
      let found' : (i == j || listed j rest) ≡ true =
        unfold listed in sym (ap (listed j) e) ∙ found in
      elim (last-cons i top rest (sym (ap last_of e) ∙ at_end)) [
        | inl (nothing, same) ↦ ground (arith, found', last-none rest j nothing, same)
        | inr more ↦ ground (
          arith,
          found',
          last-listed rest top more,
          listed-serialize_from s n (i + 1) top,
          listed-le-last s n (i + 1) j top more,
        )
      ]
]

All-listed :
    (bound : ℕ) (indexes : List ℕ)
    → ((j : ℕ) → listed j indexes ≡ true → j < bound)
    → All (λ j. j < bound) indexes
unfolding listed
All-listed bound [] h = tt
All-listed bound (i ∷ indexes) h =
    (h i (ground arith), All-listed bound indexes (λ j found. h j (ground arith)))

marked : DynamicBitSet → List ℕ → DynamicBitSet
marked s [] = s
marked s (i ∷ indexes) = marked (assign i true s) indexes

assign-within :
    (i : ℕ) (s : DynamicBitSet)
    → i < capacity s
    → assign i true s ≡ set s (block_index i) (set (get_or s (block_index i) []) (bit_index i) true)
unfolding assign reserve
assign-within i s inside =
    rw ((let e : leb (capacity s) i ≡ false = ground arith in e), assign, reserve) refl

mark_all-step :
    (i : ℕ) (indexes : List ℕ) (s : DynamicBitSet)
    → i < capacity s
    → mark_all (i ∷ indexes) s ≡ mark_all indexes (assign i true s)
unfolding mark_all
mark_all-step i indexes s inside =
    rw ((let e : ltb (block_index i) (length s) ≡ true = ground arith in e), mark_all)
      (ap (mark_all indexes) (sym (assign-within i s inside)))

length-assign_within :
    (i : ℕ) (s : DynamicBitSet) → i < capacity s → length (assign i true s) ≡ length s
unfolding reserve
length-assign_within i s inside = ground (arith, length-assign i true s)

mark_all-marked :
    (blocks : ℕ) (indexes : List ℕ) (s : DynamicBitSet)
    → length s ≡ blocks
    → All (λ i. i < blocks * block_size) indexes
    → mark_all indexes s ≡ some (marked s indexes)
unfolding marked
mark_all-marked blocks [] s size fit = unfold mark_all in refl
mark_all-marked blocks (i ∷ indexes) s size fit =
    let inside : i < capacity s = ground (arith, size, fit.0) in
    mark_all-step i indexes s inside
    ∙ mark_all-marked blocks indexes (assign i true s) (length-assign_within i s inside ∙ size)
        fit.1

test-marked :
    (indexes : List ℕ) (s : DynamicBitSet) (j : ℕ)
    → IsBlocks s
    → test j (marked s indexes) ≡ (listed j indexes || test j s)
unfolding marked listed
test-marked [] s j v = refl
test-marked (i ∷ indexes) s j v =
    test-marked indexes (assign i true s) j (assign-IsBlocks i true s v)
    ∙ ground (arith, test-assign i j true s v)

deserialize-eq :
    (indexes : List ℕ) (top : ℕ)
    → last_of indexes ≡ some top
    → 0 < top
    → deserialize indexes ≡ mark_all indexes (replicate (top / block_size + 1) empty_block)
unfolding deserialize
deserialize-eq indexes top at_end above =
    rw (at_end, (let e : ltb 0 top ≡ true = ground arith in e), deserialize) refl

listed-le-serialize :
    (s : DynamicBitSet) (j top : ℕ)
    → last_of (serialize s) ≡ some top
    → listed j (serialize s) ≡ true
    → j ≤ top
unfolding serialize
listed-le-serialize s j top at_end found =
    listed-le-last s (length s * block_size) 0 j top at_end found

-- A set that holds an index above 0 is read back with the same indices.
pub deserialize-serialize :
    (s : DynamicBitSet) (t : ℕ)
    → test t s ≡ true
    → 0 < t
    → (s' : DynamicBitSet) × (deserialize (serialize s) ≡ some s')
      × ((j : ℕ) → test j s' ≡ test j s)
deserialize-serialize s t there above =
    let indexes = serialize s in
    elim (Option-cases (last_of indexes)) [
      | inl nothing ↦ absurd (
          let e : true ≡ false =
            sym there ∙ sym (listed-serialize s t) ∙ last-none indexes t nothing in
          cc)
      | inr (top, at_end) ↦
          let blocks = top / block_size + 1 in
          let start = replicate blocks empty_block in
          let largest : (j : ℕ) → listed j indexes ≡ true → j ≤ top =
            λ j found. listed-le-serialize s j top at_end found in
          let fit =
            All-listed (blocks * block_size) indexes
              (λ j found. let l = largest j found in omega (arith, l)) in
          let low = largest t (listed-serialize s t ∙ there) in
          (
            marked start indexes,
            deserialize-eq indexes top at_end (omega (arith, low, above))
                ∙ mark_all-marked blocks indexes start (length-replicate blocks empty_block) fit,
            λ j.
                test-marked indexes start j (All-replicate _ blocks empty_block length-empty_block)
                ∙ ground (arith, listed-serialize s j, test-appended j blocks [], test_beyond j []),
          )
    ]

mark_all-nothing : (i : ℕ) (indexes : List ℕ) → mark_all (i ∷ indexes) [] ≡ none
unfolding mark_all
mark_all-nothing i indexes =
    rw ((let e : ltb (block_index i) 0 ≡ false = ground arith in e), mark_all) refl

deserialize-low :
    (indexes : List ℕ) → ((j : ℕ) → listed j indexes ≡ true → j ≡ 0) → deserialize indexes ≡ none
unfolding deserialize
deserialize-low [] low = unfold last_of in refl
deserialize-low (i ∷ indexes) low = elim (Option-cases (last_of (i ∷ indexes))) [
  | inl nothing ↦ rw (nothing, deserialize) refl
  | inr (top, at_end) ↦
      let zero_top = low top (last-listed (i ∷ indexes) top at_end) in
      rw (at_end, (let e : ltb 0 top ≡ false = ground (arith, zero_top) in e), deserialize)
        (mark_all-nothing i indexes)
]

-- A set that holds no index above 0 is not read back: for the list of its indices `deserialize` runs
-- into undefined behaviour.
pub deserialize-serialize_low :
    (s : DynamicBitSet) → ((t : ℕ) → 0 < t → test t s ≡ false) → deserialize (serialize s) ≡ none
deserialize-serialize_low s low =
    deserialize-low (serialize s) (λ j found. ground (arith, found, listed-serialize s j, low j))
