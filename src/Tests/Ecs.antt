-- ===== src/Tests/Ecs.antt =====
-- lib/rtecs/include/rtecs/ECS.hpp with two registered components.
use rtype.Base.{
  ℕ, ◌<◌, ◌==◌, ◌≡◌, refl, List, [], ◌∷◌, Option, none, some, Bool, true, false, lookup, insert,
  contains_key, if◌then◌else◌, ◌&&◌, length, arith,
}
use rtype.BitSet.Blocks.{
  DynamicBitSet, test, right_shift, none_set, shift_right_once, any_bit, apply_operation,
  apply_from, assign, reserve, empty_block, carry_right,
}
use rtype.Ecs.Registry.{
  Ecs, new_ecs, null_entity_id, next_mask_index, get_entity_mask, get_component_mask_helper,
  get_entity_component, register_components, register_component, emplace, register_entity,
  add_entity_components, insert_component_instance, destroy_entity, get_component_mask,
}
use rtype.Sparse.Set.{put, get, has}
use rtype.Ecs.Valid.{is_some}
use rtype.Ecs.Run.{Operation, registering, creating, destroying, run, step}
use rtype.Ecs.Registered.{register_entity-components}
use rtype.Ecs.Given.{given, any_registered}
use rtype.Ecs.Agreement.{component_masks}

abbrev setup : List (Operation ℕ)
setup =
    registering (5 ∷ 9 ∷ [])
    ∷ creating ((9, 90) ∷ (5, 51) ∷ [])
    ∷ destroying 0
    ∷ creating ((5, 50) ∷ [])
    ∷ []

abbrev ran : Ecs ℕ
ran = run setup new_ecs

-- The component 7 is not registered.
abbrev three : List (ℕ × ℕ)
three = (5, 52) ∷ (7, 70) ∷ (5, 53) ∷ []

abbrev mask_of_5 : DynamicBitSet
mask_of_5 = next_mask_index (new_ecs {V = ℕ}).component_mask_index

lookup-ran : lookup 5 ran.components_masks ≡ some mask_of_5
unfolding run step lookup new_ecs next_mask_index register_components register_component emplace
    insert register_entity add_entity_components insert_component_instance destroy_entity
    get_component_mask get_component_mask_helper right_shift none_set shift_right_once any_bit put
    get has apply_operation apply_from assign reserve empty_block test carry_right rtype.Base.erase
    rtype.Ecs.Registry.remove_from_all
lookup-ran = refl

component_masks_example :
    (i : ℕ) × ((j : ℕ) → test j mask_of_5 ≡ (i == j))
    × ((jd : ℕ) → test i (get_component_mask_helper jd ran) ≡ (jd == 5))
    × ((e : ℕ) → test i (get_entity_mask e ran) ≡ is_some (get_entity_component 5 e ran))
component_masks_example = component_masks setup 5 mask_of_5 (omega arith) lookup-ran

register_entity-components_example :
    (contains_key ran.entities_id ran.entities ≡ false)
    × ((register_entity three ran).0
        ≡ (if any_registered three ran then ran.entities_id else null_entity_id))
    × (get_entity_component 5 2 (register_entity three ran).1 ≡ (
        if any_registered three ran && (contains_key 5 ran.components && ran.entities_id == 2)
        then given 5 three
        else get_entity_component 5 2 ran))
register_entity-components_example = register_entity-components setup three 5 2 (omega arith)
