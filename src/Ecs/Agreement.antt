-- ===== src/Ecs/Agreement.antt =====
-- What the masks of ECS.hpp say of the components.
use rtype.Base.{ℕ, ◌<◌, ◌==◌, ◌≡◌, refl, sym, ◌∙◌, List, [], some, lookup, length, u64_mod, arith}
use rtype.BitSet.Blocks.{DynamicBitSet, test}
use rtype.BitSet.Serialize.{listed}
use rtype.Sparse.Set.{SparseSet, get}
use rtype.Ecs.Registry.{
  Ecs, new_ecs, get_entity_mask, get_component_mask_helper, get_entity_component,
}
use rtype.Ecs.Valid.{IsEcs, is_some}
use rtype.Ecs.Insert.{contains-some, some-contains}
use rtype.Ecs.Masks.{test-helper}
use rtype.Ecs.Run.{Operation, run, run-IsEcs}

module _ {V : Type 0} where
  component_there :
      (s : Ecs V) (id e : ℕ) (c : SparseSet V)
      → lookup id s.components ≡ some c
      → get_entity_component id e s ≡ get e c
  unfolding get_entity_component
  component_there s id e c found = rw (found, get_entity_component) refl

  mask-has :
      (s : Ecs V) (v : IsEcs s) (id : ℕ) (m : DynamicBitSet)
      → lookup id s.components_masks ≡ some m
      → (e : ℕ) → test (v.bit id) (get_entity_mask e s) ≡ is_some (get_entity_component id e s)
  unfolding listed
  mask-has s v id m there e =
      let (c, found) =
        some-contains id s.components (v.known id ∙ contains-some id s.components_masks m there) in
      sym (v.agree id c e found) ∙ ground (arith, component_there s id e c found)

  -- After any run of fewer than 2^64 operations from the constructor on, the mask of a registered
  -- component holds one index, the masks of the other components do not hold it, and the mask of any
  -- entity holds it exactly when the component of that entity can be got.
  pub component_masks :
      (ops : List (Operation V)) (id : ℕ) (m : DynamicBitSet)
      → length ops < u64_mod
      → lookup id (run ops new_ecs).components_masks ≡ some m
      → let s = run ops new_ecs in
        (i : ℕ) × ((j : ℕ) → test j m ≡ (i == j))
        × ((jd : ℕ) → test i (get_component_mask_helper jd s) ≡ (jd == id))
        × ((e : ℕ) → test i (get_entity_mask e s) ≡ is_some (get_entity_component id e s))
  component_masks ops id m room there =
      let s = run ops new_ecs in
      let v = run-IsEcs ops room in
      let (only, bound) = v.masked id m there in
      (
        v.bit id,
        only.only,
        λ jd. test-helper 0 [] s v jd id (contains-some id s.components_masks m there),
        mask-has s v id m there,
      )
