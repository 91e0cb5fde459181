-- ===== src/Sparse/Contents.antt =====
-- `put` and `remove` of SparseSet.hpp keep the two arrays in step, and act on the entities as the
-- operations of a finite map.
use rtype.Base.{
  ℕ, ◌-◌, ◌<◌, ◌≡◌, refl, ap, ◌∙◌, inl, inr, [], ◌∷◌, ◌++◌, none, some, ◌==◌, length, set,
  length-set, length-append, Bool-cases, Option-cases, if◌then◌else◌, arith,
}
use rtype.Sparse.Pages.{
  slot, grow, set_slot, slot-set_slot, slot-grow, length-grow, grow-IsPages, set_slot-IsPages,
}
use rtype.Sparse.Dense.{get_elem?-set, get_elem?-push_back}
use rtype.Sparse.Links.{slot-lt, added-IsLinked, kept-IsLinked}
use rtype.Sparse.Set.{SparseSet, get, get-some, get-kept, put, IsSparse}

module _ {T : Type 0} (s : SparseSet T) (v : IsSparse s) (id : ℕ) (component : T) where
  -- The slots after an entity is added behind the others.
  slot-added :
      (j k : ℕ)
      → slot (set_slot (grow s.sparse_pages id) id (some k)) j
        ≡ (if id == j then some k else slot s.sparse_pages j)
  slot-added j k = ground (
    arith,
    slot-set_slot (grow s.sparse_pages id) id j (some k) (grow-IsPages s.sparse_pages id v.full)
        (length-grow s.sparse_pages id),
    slot-grow s.sparse_pages id j,
  )

  last_slot : length (s.dense ++ component ∷ []) - 1 ≡ length s.entities
  last_slot = omega (arith, length-append s.dense (component ∷ []), v.same_length)

  -- An ID that is new is given the slot behind the others; one that is there keeps its own.
  pub put-IsSparse : IsSparse (put id component s)
  unfolding put
  put-IsSparse = elim (Option-cases (slot s.sparse_pages id)) [
    | inl vacant ↦
        rw (slot-grow s.sparse_pages id id, vacant, put)
          (record {
            full =
                set_slot-IsPages (grow s.sparse_pages id) id _
                  (grow-IsPages s.sparse_pages id v.full) (length-grow s.sparse_pages id);
            same_length = omega (
              arith,
              length-append s.dense (component ∷ []),
              length-append s.entities (id ∷ []),
              v.same_length,
            );
            linked = added-IsLinked (slot s.sparse_pages) _ s.entities v.linked id vacant (λ j.
                slot-added j _
                ∙ ap (λ (n : ℕ). if id == j then some n else slot s.sparse_pages j) last_slot);
          })
    | inr (k, there) ↦
        rw (slot-grow s.sparse_pages id id, there, put)
          (record {
            full = grow-IsPages s.sparse_pages id v.full;
            same_length =
                omega (
                  arith,
                  length-set s.dense k component,
                  length-set s.entities k id,
                  v.same_length,
                );
            linked =
                kept-IsLinked (slot s.sparse_pages) _ s.entities v.linked id k there
                  (λ j. slot-grow s.sparse_pages id j);
          })
  ]

  abbrev added : SparseSet T
  added = record s {
    dense = s.dense ++ component ∷ [];
    entities = s.entities ++ id ∷ [];
    sparse_pages =
        set_slot (grow s.sparse_pages id) id (some (length (s.dense ++ component ∷ []) - 1));
  }

  abbrev replaced : ℕ → SparseSet T
  replaced k = record s {
    dense = set s.dense k component;
    entities = set s.entities k id;
    sparse_pages = grow s.sparse_pages id;
  }

  put-added : slot s.sparse_pages id ≡ none → put id component s ≡ added
  unfolding put
  put-added vacant = rw (slot-grow s.sparse_pages id id, vacant, put) refl

  put-replaced : (k : ℕ) → slot s.sparse_pages id ≡ some k → put id component s ≡ replaced k
  unfolding put
  put-replaced k there = rw (slot-grow s.sparse_pages id id, there, put) refl

  inside : (j k : ℕ) → slot s.sparse_pages j ≡ some k → k < length s.dense
  inside j k there = omega (
    arith,
    slot-lt (slot s.sparse_pages) (slot s.sparse_pages) s.entities v.linked j k there,
    v.same_length,
  )

  get-added : (j : ℕ) → get j added ≡ (if id == j then some component else get j s)
  get-added j =
      let n = length (s.dense ++ component ∷ []) - 1 in
      elim (Bool-cases (id == j)) [
        | inl hit ↦ rw hit (
            get-some added j n (slot-added j n ∙ rw hit refl)
            ∙ ground (
              arith,
              get_elem?-push_back s.dense component n,
              length-append s.dense (component ∷ []),
            ))
        | inr miss ↦ rw miss (
            get-kept s added j (slot-added j n ∙ rw miss refl) (λ k there.
              ground (arith, get_elem?-push_back s.dense component k, inside j k there)))
      ]

  get-replaced :
      (j k : ℕ)
      → slot s.sparse_pages id ≡ some k
      → get j (replaced k) ≡ (if id == j then some component else get j s)
  get-replaced j k there = elim (Bool-cases (id == j)) [
    | inl hit ↦
        let e : id ≡ j = ground arith in
        rw (hit, ← e)
          (get-some (replaced k) id k (slot-grow s.sparse_pages id id ∙ there)
            ∙ ground (arith, get_elem?-set s.dense k k component, inside id k there))
    | inr miss ↦ rw miss (
        get-kept s (replaced k) j (slot-grow s.sparse_pages id j) (λ i other. ground (
          arith,
          get_elem?-set s.dense k i component,
          v.linked.entity_of j i other,
          v.linked.entity_of id k there,
        )))
  ]

  pub get-put : (j : ℕ) → get j (put id component s) ≡ (if id == j then some component else get j s)
  get-put j = elim (Option-cases (slot s.sparse_pages id)) [
    | inl vacant ↦ ap (get j) (put-added vacant) ∙ get-added j
    | inr (k, there) ↦ ap (get j) (put-replaced k there) ∙ get-replaced j k there
  ]
