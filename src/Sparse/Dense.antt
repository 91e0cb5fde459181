-- ===== src/Sparse/Dense.antt =====
-- The dense arrays of lib/rtecs/include/rtecs/sparse/set/SparseSet.hpp: `push_back`, and the swap with
-- the last element before `pop_back`.
use rtype.Base.{
  ℕ, zero, suc, ◌-◌, ◌≤◌, ◌<◌, ◌≡◌, refl, List, [], ◌∷◌, ◌++◌, none, some, ◌&&◌, ◌==◌, ltb, length,
  get_elem?, get_or, set, take, length-take, length-set, if◌then◌else◌, arith,
}

module _ {A : Type 0} where
  -- `std::swap(xs[i], xs[j])`
  unfoldable pub swap_elems : List A → ℕ → ℕ → List A
  swap_elems xs i j = elim (get_elem? xs i) [
    | none ↦ xs
    | some a ↦ elim (get_elem? xs j) [ none ↦ xs | some b ↦ set (set xs i b) j a ]
  ]

  abbrev pub pop_back : List A → List A
  pop_back xs = take (length xs - 1) xs

  -- `std::swap(xs.back(), xs[i])`, then `pop_back`
  unfoldable pub remove_swap : ℕ → List A → List A
  remove_swap i xs = pop_back (swap_elems xs (length xs - 1) i)

  pub get_elem?-set :
      (xs : List A) (i j : ℕ) (v : A)
      → get_elem? (set xs i v) j ≡ (if i == j && ltb j (length xs) then some v else get_elem? xs j)
  get_elem?-set [] i j v = ground arith
  get_elem?-set (x ∷ xs) zero zero v = ground arith
  get_elem?-set (x ∷ xs) zero (suc j) v = ground arith
  get_elem?-set (x ∷ xs) (suc i) zero v = ground arith
  get_elem?-set (x ∷ xs) (suc i) (suc j) v = ground (arith, get_elem?-set xs i j v)

  pub get_elem?-take :
      (n : ℕ) (xs : List A) (j : ℕ)
      → get_elem? (take n xs) j ≡ (if ltb j n then get_elem? xs j else none)
  get_elem?-take zero xs j = ground arith
  get_elem?-take (suc n) [] j = ground arith
  get_elem?-take (suc n) (x ∷ xs) zero = ground arith
  get_elem?-take (suc n) (x ∷ xs) (suc j) = ground (arith, get_elem?-take n xs j)

  pub get_elem?-push_back :
      (xs : List A) (v : A) (j : ℕ)
      → get_elem? (xs ++ v ∷ []) j ≡ (if length xs == j then some v else get_elem? xs j)
  get_elem?-push_back [] v zero = ground arith
  get_elem?-push_back [] v (suc j) = ground arith
  get_elem?-push_back (x ∷ xs) v zero = ground arith
  get_elem?-push_back (x ∷ xs) v (suc j) = ground (arith, get_elem?-push_back xs v j)

  pub get_elem?_beyond : (xs : List A) (i : ℕ) → length xs ≤ i → get_elem? xs i ≡ none
  get_elem?_beyond [] i h = refl
  get_elem?_beyond (x ∷ xs) zero h = absurd (omega arith)
  get_elem?_beyond (x ∷ xs) (suc i) h = get_elem?_beyond xs i (omega arith)

  pub get_elem?_there : (xs : List A) (i : ℕ) → i < length xs → (a : A) × (get_elem? xs i ≡ some a)
  get_elem?_there [] i h = absurd (omega arith)
  get_elem?_there (x ∷ xs) zero h = (x, refl)
  get_elem?_there (x ∷ xs) (suc i) h = get_elem?_there xs i (omega arith)

  pub get_elem?_or :
      (xs : List A) (i : ℕ) (d : A) → i < length xs → get_elem? xs i ≡ some (get_or xs i d)
  get_elem?_or [] i d h = absurd (omega arith)
  get_elem?_or (x ∷ xs) zero d h = refl
  get_elem?_or (x ∷ xs) (suc i) d h = get_elem?_or xs i d (omega arith)

  swap_elems-eq :
      (xs : List A) (i j : ℕ) (a b : A)
      → get_elem? xs i ≡ some a
      → get_elem? xs j ≡ some b
      → swap_elems xs i j ≡ set (set xs i b) j a
  unfolding swap_elems
  swap_elems-eq xs i j a b at_i at_j = rw (at_i, at_j, swap_elems) refl

  -- The element that leaves is replaced by the last one.
  pub get_elem?-remove_swap :
      (xs : List A) (i j : ℕ)
      → i < length xs
      → get_elem? (remove_swap i xs) j ≡ (
          if ltb j (length xs - 1)
          then if i == j then get_elem? xs (length xs - 1) else get_elem? xs j
          else none)
  unfolding remove_swap
  get_elem?-remove_swap xs i j there =
      let last = length xs - 1 in
      let (a, at_last) = get_elem?_there xs last (omega arith) in
      let (b, at_i) = get_elem?_there xs i there in
      rw (swap_elems-eq xs last i a b at_last at_i, remove_swap)
        (ground (
          arith,
          get_elem?-take (length (set (set xs last b) i a) - 1) (set (set xs last b) i a) j,
          get_elem?-set (set xs last b) i j a,
          get_elem?-set xs last j b,
          length-set (set xs last b) i a,
          length-set xs last b,
          at_last,
        ))

  pub length-remove_swap :
      (xs : List A) (i : ℕ) → i < length xs → length (remove_swap i xs) ≡ length xs - 1
  unfolding remove_swap
  length-remove_swap xs i there =
      let last = length xs - 1 in
      let (a, at_last) = get_elem?_there xs last (omega arith) in
      let (b, at_i) = get_elem?_there xs i there in
      rw (swap_elems-eq xs last i a b at_last at_i, remove_swap)
        (omega (
          arith,
          length-take (length (set (set xs last b) i a) - 1) (set (set xs last b) i a),
          length-set (set xs last b) i a,
          length-set xs last b,
        ))
