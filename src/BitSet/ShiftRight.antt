-- ===== src/BitSet/ShiftRight.antt =====
-- `rightShift` of DynamicBitSet.cpp, whose carry goes the other way.
use rtype.Base.{
  ℕ, ◌*◌, zero, suc, ◌+◌, ◌-◌, ◌/◌, ◌%◌, ◌<◌, ◌≡◌, refl, ap, ◌∙◌, inl, inr, List, [], ◌∷◌, ◌++◌,
  Bool, true, false, ◌&&◌, ◌==◌, ltb, leb, length, set, drop, Bool-cases, if◌then◌else◌, arith,
  get_or, get_or_beyond, get_or-set, get_or-append, length-set, length-append, length-drop,
  All-get_or,
}
use rtype.BitSet.Blocks.{
  block_size, DynamicBitSet, capacity, test, bit_index, carry_right, shift_right_once, right_shift,
}
use rtype.BitSet.Test.{IsBlocks, test-eq, test_beyond}

abbrev down : List Bool → List Bool
down block = drop 1 block ++ false ∷ []

abbrev carried : Bool → List Bool → List Bool
carried c block = if c then set block 63 true else block

bottom : ℕ → DynamicBitSet → Bool
bottom k s = get_or (get_or s k []) 0 false

-- The carry that a block takes from the one before it.
abbrev incoming : ℕ → DynamicBitSet → Bool
incoming zero s = false
incoming (suc k) s = bottom k s

length-shift_right_once : (s : DynamicBitSet) → length (shift_right_once s) ≡ length s
unfolding shift_right_once carry_right
length-shift_right_once [] = refl
length-shift_right_once (block ∷ blocks) =
    ap suc (length-carry_right block (shift_right_once blocks) ∙ length-shift_right_once blocks)
  where
    length-carry_right :
        (b : List Bool) (bs : DynamicBitSet) → length (carry_right b bs) ≡ length bs
    length-carry_right b [] = refl
    length-carry_right b (next ∷ rest) = refl

get_or-carry_right :
    (block : List Bool) (s : DynamicBitSet) (k : ℕ)
    → k < length s
    → get_or (carry_right block s) k []
      ≡ (if k == 0 then carried (get_or block 0 false) (get_or s k []) else get_or s k [])
unfolding carry_right
get_or-carry_right block [] k h = absurd (omega arith)
get_or-carry_right block (next ∷ rest) zero h = refl
get_or-carry_right block (next ∷ rest) (suc k) h = ground arith

get_or-shift_right_once :
    (s : DynamicBitSet) (k : ℕ)
    → k < length s
    → get_or (shift_right_once s) k [] ≡ carried (incoming k s) (down (get_or s k []))
unfolding shift_right_once bottom
get_or-shift_right_once [] k h = absurd (omega arith)
get_or-shift_right_once (block ∷ blocks) zero h = refl
get_or-shift_right_once (block ∷ blocks) (suc zero) h =
    get_or-carry_right block (shift_right_once blocks) 0
      (omega (arith, length-shift_right_once blocks))
    ∙ ap (carried (get_or block 0 false)) (get_or-shift_right_once blocks 0 (omega arith))
get_or-shift_right_once (block ∷ blocks) (suc (suc k)) h =
    get_or-carry_right block (shift_right_once blocks) (suc k)
      (omega (arith, length-shift_right_once blocks))
    ∙ ground arith
    ∙ get_or-shift_right_once blocks (suc k) (omega arith)

get_or-drop_one :
    (block : List Bool) (b : ℕ) → get_or (drop 1 block) b false ≡ get_or block (b + 1) false
get_or-drop_one [] b = refl
get_or-drop_one (x ∷ block) b =
    ap (λ (k : ℕ). get_or (x ∷ block) k false) {x = suc b} {y = b + 1} (omega arith)

get_or-single : (i : ℕ) → get_or (false ∷ []) i false ≡ false
get_or-single zero = refl
get_or-single (suc i) = refl

get_or-down :
    (block : List Bool) (b : ℕ)
    → length block ≡ 64
    → get_or (down block) b false ≡ (if b == 63 then false else get_or block (b + 1) false)
get_or-down block b full =
    get_or-append (drop 1 block) (false ∷ []) b false
    ∙ ground (
      arith,
      full,
      get_or-drop_one block b,
      length-drop 1 block,
      get_or-single (b - length (drop 1 block)),
      get_or_beyond block (b + 1) false,
    )

length-down : (block : List Bool) → length block ≡ 64 → length (down block) ≡ 64
length-down block full =
    omega (arith, length-append (drop 1 block) (false ∷ []), length-drop 1 block, full)

-- A bit of a block that moved down and took a carry.
get_or-carried :
    (block : List Bool) (c : Bool) (b : ℕ)
    → length block ≡ 64
    → b < 64
    → get_or (carried c (down block)) b false ≡ (if b == 63 then c else get_or block (b + 1) false)
get_or-carried block true b full h =
    get_or-set (down block) 63 b true false
    ∙ ground (arith, length-down block full, get_or-down block b full)
get_or-carried block false b full h = get_or-down block b full

pub shift_right_once-IsBlocks : (s : DynamicBitSet) → IsBlocks s → IsBlocks (shift_right_once s)
unfolding shift_right_once carry_right
shift_right_once-IsBlocks [] v = tt
shift_right_once-IsBlocks (block ∷ blocks) v = (
  length-down block v.0,
  carry block (shift_right_once blocks) (shift_right_once-IsBlocks blocks v.1),
)
  where
    carry : (b : List Bool) (bs : DynamicBitSet) → IsBlocks bs → IsBlocks (carry_right b bs)
    carry b [] w = tt
    carry b (next ∷ rest) w = elim (Bool-cases (get_or b 0 false)) [
      | inl c ↦ rw (c, carry_right) (length-set next 63 true ∙ w.0, w.1)
      | inr c ↦ rw (c, carry_right) w
    ]

incoming-test :
    (i : ℕ) (s : DynamicBitSet)
    → i % block_size ≡ 0
    → incoming (i / block_size) s ≡ (if i == 0 then false else test (i - 1) s)
unfolding bottom
incoming-test i s start = elim (Bool-cases (i == 0)) [
  | inl first ↦ rw (first, (let e : i / block_size ≡ 0 = ground arith in e)) refl
  | inr later ↦
      rw
        (
          later,
          test-eq (i - 1) s,
          (let e : i / block_size ≡ suc ((i - 1) / block_size) = ground arith in e),
          (let e : block_size - 1 - (i - 1) % block_size ≡ 0 = ground arith in e),
        )
        refl
]

test-shift_right_once :
    (i : ℕ) (s : DynamicBitSet)
    → IsBlocks s
    → i < capacity s
    → test i (shift_right_once s) ≡ (if i == 0 then false else test (i - 1) s)
test-shift_right_once i s v inside =
    let full =
      All-get_or (λ block. length block ≡ block_size) s (i / block_size) [] v (ground arith) in
    rw
      (
        test-eq i (shift_right_once s),
        get_or-shift_right_once s (i / block_size) (ground arith),
        get_or-carried (get_or s (i / block_size) []) (incoming (i / block_size) s) (bit_index i)
            full (omega arith),
      )
      (elim (Bool-cases (bit_index i == 63)) [
        | inl crosses ↦ rw crosses (incoming-test i s (ground arith))
        | inr stays ↦
            rw
              (
                stays,
                (let e : (i == 0) ≡ false = ground arith in e),
                test-eq (i - 1) s,
                (let e : (i - 1) / block_size ≡ i / block_size = ground arith in e),
                (let e : block_size - 1 - (i - 1) % block_size ≡ bit_index i + 1 = ground arith in
                    e),
              )
              refl
      ])

pub test-shifted :
    (n i : ℕ) (s : DynamicBitSet)
    → IsBlocks s
    → test i (right_shift n s) ≡ (if ltb i (capacity s) && leb n i then test (i - n) s else false)
unfolding right_shift
test-shifted zero i s v = ground (arith, test_beyond i s)
test-shifted (suc n) i s v =
    test-shifted n i (shift_right_once s) (shift_right_once-IsBlocks s v)
    ∙ ground (arith, length-shift_right_once s, test-shift_right_once (i - n) s v)

capacity-right_shift : (n : ℕ) (s : DynamicBitSet) → capacity (right_shift n s) ≡ capacity s
unfolding right_shift
capacity-right_shift zero s = refl
capacity-right_shift (suc n) s =
    capacity-right_shift n (shift_right_once s)
    ∙ ap (λ (k : ℕ). k * block_size) (length-shift_right_once s)

-- A shift to the right by n moves the index i to the index i + n, across the blocks, as far as the
-- capacity goes, which stays as it was; the lowest n indices are left empty.
pub test-right_shift :
    (n i : ℕ) (s : DynamicBitSet)
    → IsBlocks s
    → (test i (right_shift n s) ≡ (if ltb i (capacity s) && leb n i then test (i - n) s else false))
      × (capacity (right_shift n s) ≡ capacity s)
test-right_shift n i s v = (test-shifted n i s v, capacity-right_shift n s)
