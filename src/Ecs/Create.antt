-- ===== src/Ecs/Create.antt =====
-- `addEntityComponents` and `registerEntity` of ECS.hpp, and `preRegisterEntity` of ECS.cpp.
use mathlib.Core.Path.{subst}
use rtype.Base.{
  ℕ, ◌≡◌, refl, sym, ap, ◌∙◌, inl, inr, List, [], ◌∷◌, map, none, some, true, false, ◌&&◌, ◌||◌,
  ◌==◌, lookup, contains_key, lookup-insert, Option-cases, arith,
}
use rtype.BitSet.Blocks.{DynamicBitSet, or_assign}
use rtype.BitSet.Serialize.{listed}
use rtype.Sparse.Set.{SparseSet, get}
use rtype.Ecs.Registry.{Ecs, get_component_mask, insert_component_instance, add_entity_components}
use rtype.Ecs.Valid.{IsEcsBut, is_some}
use rtype.Ecs.Insert.{inserted, inserted-IsEcsBut, helper_there, contains-some, some-contains}

module _ {V : Type 0} where
  -- What is pending counts for the components that are known.
  pub pending-IsEcsBut :
      (e0 e1 : ℕ) (p q : List ℕ) (s : Ecs V)
      → IsEcsBut e0 q s
      → ((e jd : ℕ)
          → contains_key jd s.components ≡ true
          → (e == e0 && listed jd q) ≡ (e == e1 && listed jd p))
      → IsEcsBut e1 p s
  pending-IsEcsBut e0 e1 p q s v same = record {
    top = v.top;
    index_only = v.index_only;
    bit = v.bit;
    masked = v.masked;
    apart = v.apart;
    known = v.known;
    sparse = v.sparse;
    whole = v.whole;
    below = v.below;
    agree = λ jd c e h.
        ap (λ b. is_some (get e c) || b) (sym (same e jd (contains-some jd s.components c h)))
        ∙ v.agree jd c e h;
  }

  module _ (entity id : ℕ) (instance : V) (s : Ecs V) where
    pub insert-unknown :
        lookup entity s.entities ≡ none → insert_component_instance entity id instance s ≡ s
    unfolding insert_component_instance
    insert-unknown h = rw (h, insert_component_instance) refl

    pub insert-absent :
        (mask : DynamicBitSet)
        → lookup entity s.entities ≡ some mask
        → lookup id s.components ≡ none
        → insert_component_instance entity id instance s ≡ s
    unfolding insert_component_instance
    insert-absent mask at h = rw (at, h, insert_component_instance) refl

    pub insert-found :
        (mask own : DynamicBitSet) (c : SparseSet V)
        → lookup entity s.entities ≡ some mask
        → lookup id s.components ≡ some c
        → lookup id s.components_masks ≡ some own
        → insert_component_instance entity id instance s ≡ inserted entity id instance mask own c s
    unfolding get_component_mask insert_component_instance
    insert-found mask own c at found masked =
        rw (at, found, insert_component_instance)
          (ap (λ own'. inserted entity id instance mask own' c s) (helper_there id own s masked))

  -- An insertion for an entity that is there does what was pending for the component.
  pub insert-IsEcsBut :
      (entity id : ℕ) (instance : V) (s : Ecs V) (p q : List ℕ)
      → IsEcsBut entity q s
      → contains_key entity s.entities ≡ true
      → ((jd : ℕ) → (id == jd) ≡ false → listed jd q ≡ listed jd p)
      → IsEcsBut entity p (insert_component_instance entity id instance s)
        × (contains_key entity (insert_component_instance entity id instance s).entities ≡ true)
  insert-IsEcsBut entity id instance s p q v there same =
      let (mask, at) = some-contains entity s.entities there in
      elim (Option-cases (lookup id s.components)) [
        | inl absent ↦
            let same_state = insert-absent entity id instance s mask at absent in
            subst (λ t. IsEcsBut entity p t × (contains_key entity t.entities ≡ true))
              (sym same_state)
              (
                pending-IsEcsBut entity entity p q s v (λ e jd known.
                    ap (λ b. e == entity && b)
                      (same jd (
                        ground (
                          arith,
                          absent,
                          known,
                          ap (λ k. is_some (lookup k s.components)) {x = id} {y = jd},
                        )))),
                there,
              )
        | inr (c, found) ↦
            let (own, masked) =
              some-contains id s.components_masks
                (sym (v.known id) ∙ contains-some id s.components c found) in
            subst (λ t. IsEcsBut entity p t × (contains_key entity t.entities ≡ true))
              (sym (insert-found entity id instance s mask own c at found masked))
              (
                inserted-IsEcsBut entity id instance mask own c s p q v at found masked same,
                ground (arith, lookup-insert entity entity (or_assign mask own) s.entities),
              )
      ]

  -- `addEntityComponents` does all that is pending.
  pub add-IsEcsBut :
      (entity : ℕ) (instances : List (ℕ × V)) (s : Ecs V)
      → IsEcsBut entity (map (λ i. i.0) instances) s
      → contains_key entity s.entities ≡ true
      → IsEcsBut entity [] (add_entity_components entity instances s)
  unfolding add_entity_components listed
  add-IsEcsBut entity [] s v there = v
  add-IsEcsBut entity ((id, instance) ∷ rest) s v there =
      let (w, still) =
        insert-IsEcsBut entity id instance s (map (λ i. i.0) rest) _ v there
          (λ jd h. ground (arith, h)) in
      add-IsEcsBut entity rest _ w still
