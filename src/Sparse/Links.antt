-- ===== src/Sparse/Links.antt =====
-- The link between the sparse and the dense side of SparseSet.hpp: from an ID to its slot and back.
use rtype.Base.{
  ℕ, ◌-◌, ◌<◌, ◌≡◌, ◌≢◌, sym, ap, ◌∙◌, inl, inr, List, [], ◌∷◌, ◌++◌, Option, none, some, ◌&&◌,
  ◌==◌, ltb, length, get_elem?, set, Bool-cases, if◌then◌else◌, arith,
}
use rtype.Sparse.Dense.{
  remove_swap, get_elem?-set, get_elem?-push_back, get_elem?_beyond, get_elem?-remove_swap,
}

-- An ID has the slot that its entity stands in, and no other ID has a slot.
pub record IsLinked (slots : ℕ → Option ℕ) (entities : List ℕ) : Type 0 where
  pub entity_of : (id k : ℕ) → slots id ≡ some k → get_elem? entities k ≡ some id
  pub slot_of : (id k : ℕ) → get_elem? entities k ≡ some id → slots id ≡ some k

module _ (slots slots' : ℕ → Option ℕ) (entities : List ℕ) (v : IsLinked slots entities) where
  pub slot-lt : (id k : ℕ) → slots id ≡ some k → k < length entities
  slot-lt id k h = elim (Bool-cases (ltb k (length entities))) [
    | inl inside ↦ ground arith
    | inr outside ↦ absurd (
        let e : none ≡ some id =
          sym (get_elem?_beyond entities k (ground arith)) ∙ v.entity_of id k h in
        cc)
  ]

  pub added-IsLinked :
      (id : ℕ)
      → slots id ≡ none
      → ((j : ℕ) → slots' j ≡ (if id == j then some (length entities) else slots j))
      → IsLinked slots' (entities ++ id ∷ [])
  added-IsLinked id vacant moved = record {
    entity_of = λ j k h.
        ground (arith, get_elem?-push_back entities id k, moved j, v.entity_of j k, slot-lt j k);
    slot_of = λ j k h. ground (arith, get_elem?-push_back entities id k, moved j, v.slot_of j k);
  }

  pub kept-IsLinked :
      (id k : ℕ)
      → slots id ≡ some k
      → ((j : ℕ) → slots' j ≡ slots j)
      → IsLinked slots' (set entities k id)
  kept-IsLinked id k there moved = record {
    entity_of = λ j i h.
        ground (arith, get_elem?-set entities k i id, moved j, v.entity_of j i, v.entity_of id k);
    slot_of = λ j i h. ground (arith, get_elem?-set entities k i id, moved j, v.slot_of j i);
  }

  -- The entity that takes the place of the one that leaves.
  pub removed-IsLinked :
      (id k moved : ℕ)
      → slots id ≡ some k
      → get_elem? entities (length entities - 1) ≡ some moved
      → ((j : ℕ)
          → slots' j ≡ (
              if ltb k (length entities - 1) && moved == j
              then some k
              else if id == j
              then none
              else slots j))
      → IsLinked slots' (remove_swap k entities)
  removed-IsLinked id k moved there at_last new = record {
    entity_of = λ j i h. elim (Bool-cases (ltb k (length entities - 1) && moved == j)) [
      | inl took ↦
          let same : k ≡ i = ground (arith, new j) in
          ground (arith, get_elem?-remove_swap entities k i (slot-lt id k there))
      | inr stays ↦
          let old : slots j ≡ some i = ground (arith, new j) in
          let other : id ≢ j = λ e. ground (arith, new j) in
          let here = v.entity_of j i old in
          let before = slot-lt j i old in
          let target = v.entity_of id k there in
          let inside = slot-lt id k there in
          let at_end : i ≡ length entities - 1 → moved ≡ j =
            λ e. ground (arith, here, at_last, ap (get_elem? entities) e) in
          ground (
            arith,
            old,
            other,
            here,
            before,
            target,
            inside,
            at_end,
            get_elem?-remove_swap entities k i inside,
          )
    ];
    slot_of = λ j i h.
        let inside = slot-lt id k there in
        let target = v.entity_of id k there in
        let old = get_elem?-remove_swap entities k i inside in
        ground (
          arith,
          old,
          new j,
          v.slot_of j i,
          v.slot_of j (length entities - 1),
          v.slot_of moved (length entities - 1) at_last,
        );
  }
