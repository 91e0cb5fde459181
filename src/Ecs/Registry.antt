-- ===== src/Ecs/Registry.antt =====
-- lib/rtecs/include/rtecs/ECS.hpp and src/ECS.cpp. The type of a component is its ID, the hash code of
-- the type, which is taken to tell the types apart; `V` is the union of the types of the components, so
-- a set holds values of its own type only. A `std::unordered_map` is an association list, and the order
-- in which it is walked is one of those that the source may see.
use rtype.Base.{
  ℕ, ◌+◌, ◌%◌, List, [], ◌∷◌, map, Option, none, some, Bool, true, false, lookup, insert, erase,
  contains_key, set, if◌then◌else◌, u64_mod,
}
use rtype.BitSet.Blocks.{
  DynamicBitSet, empty_block, bit_or_set, or_assign, right_shift, none_set, increase,
}
use rtype.Sparse.Set.{SparseSet, new_set, get, has, put, remove}

-- `std::numeric_limits<size_t>::max()`
abbrev pub null_entity_id : ℕ
null_entity_id = 0xffff_ffff_ffff_ffff

-- `emplace` and `insert` of a map: a key that is there keeps its value.
unfoldable pub emplace : {A : Type 0} → ℕ → A → List (ℕ × A) → List (ℕ × A)
emplace k v m = if contains_key k m then m else insert k v m

pub record Ecs (V : Type 0) : Type 0 where
  pub entities : List (ℕ × DynamicBitSet)
  pub entities_id : ℕ
  pub components : List (ℕ × SparseSet V)
  pub components_masks : List (ℕ × DynamicBitSet)
  pub component_mask_index : DynamicBitSet

-- `_emptyComponentMask`, which nothing changes.
abbrev empty_component_mask : DynamicBitSet
empty_component_mask = []

-- The constructor: a block with bit 63 set.
unfoldable pub new_ecs : {V : Type 0} → Ecs V
new_ecs = record {
  entities = [];
  entities_id = 0;
  components = [];
  components_masks = [];
  component_mask_index = set empty_block 63 true ∷ [];
}

unfoldable pub next_mask_index : DynamicBitSet → DynamicBitSet
next_mask_index index =
    right_shift 1 (if none_set (right_shift 1 index) then increase 1 index else index)

-- `_entitiesID++`
abbrev pub next_u64 : ℕ → ℕ
next_u64 n = (n + 1) % u64_mod

module _ {V : Type 0} where
  unfoldable pub register_component : ℕ → Ecs V → Ecs V
  register_component id s =
      let index = next_mask_index s.component_mask_index in
      let s' = record s { component_mask_index = index } in
      if contains_key id s.components then s' else record s' {
        components_masks = emplace id index s.components_masks;
        components = emplace id (new_set id) s.components;
      }

  unfoldable pub register_components : List ℕ → Ecs V → Ecs V
  register_components [] s = s
  register_components (id ∷ ids) s = register_components ids (register_component id s)

  unfoldable pub get_component_mask_helper : ℕ → Ecs V → DynamicBitSet
  get_component_mask_helper id s = elim (lookup id s.components_masks) [
    | none ↦ empty_component_mask
    | some mask ↦ mask
  ]

  -- The fold over `|`, for at least one component.
  unfoldable pub get_component_mask : List ℕ → Ecs V → DynamicBitSet
  get_component_mask [] s = empty_component_mask
  get_component_mask (id ∷ []) s = get_component_mask_helper id s
  get_component_mask (id ∷ jd ∷ ids) s =
      let rest = get_component_mask (jd ∷ ids) s in bit_or_set (get_component_mask_helper id s) rest

  unfoldable pub insert_component_instance : ℕ → ℕ → V → Ecs V → Ecs V
  insert_component_instance entity id instance s = elim (lookup entity s.entities) [
    | none ↦ s
    | some mask ↦ elim (lookup id s.components) [
      | none ↦ s
      | some components ↦ record s {
        entities = insert entity (or_assign mask (get_component_mask (id ∷ []) s)) s.entities;
        components = insert id (put entity instance components) s.components;
      }
    ]
  ]

  unfoldable pub add_entity_components : ℕ → List (ℕ × V) → Ecs V → Ecs V
  add_entity_components entity [] s = s
  add_entity_components entity ((id, instance) ∷ rest) s =
      add_entity_components entity rest (insert_component_instance entity id instance s)

  -- The ID of the new entity, if one of the components is registered.
  unfoldable pub register_entity : List (ℕ × V) → Ecs V → ℕ × Ecs V
  register_entity instances s =
      let entity = s.entities_id in
      let mask = get_component_mask (map (λ i. i.0) instances) s in
      if none_set mask
      then (null_entity_id, s)
      else let s' =
          add_entity_components entity instances
            (record s { entities = emplace entity mask s.entities }) in
        (entity, record s' { entities_id = next_u64 s'.entities_id })

  unfoldable pub pre_register_entity : Ecs V → ℕ × Ecs V
  pre_register_entity s = (
    s.entities_id,
    record s {
      entities_id = next_u64 s.entities_id;
      entities = emplace s.entities_id [] s.entities;
    },
  )

  unfoldable pub get_entity_component : ℕ → ℕ → Ecs V → Option V
  get_entity_component id entity s = elim (lookup id s.components) [
    | none ↦ none
    | some components ↦ get entity components
  ]

  unfoldable pub update_entity_component : ℕ → ℕ → V → Ecs V → Ecs V × Bool
  update_entity_component entity id instance s = elim (lookup id s.components) [
    | none ↦ (s, false)
    | some components ↦
        if has entity components
        then (
          record s { components = insert id (put entity instance components) s.components },
          true,
        )
        else (s, false)
  ]

  -- `&&` over the instances stops at the first failure.
  unfoldable pub update_entity : ℕ → List (ℕ × V) → Ecs V → Ecs V × Bool
  update_entity entity [] s = (s, true)
  update_entity entity ((id, instance) ∷ rest) s =
      let first = update_entity_component entity id instance s in
      let others = update_entity entity rest first.0 in if first.1 then others else first

  unfoldable pub get_entity_mask : ℕ → Ecs V → DynamicBitSet
  get_entity_mask entity s = elim (lookup entity s.entities) [
    | none ↦ empty_component_mask
    | some mask ↦ mask
  ]

  unfoldable get_all_entities : Ecs V → List ℕ
  get_all_entities s = map (λ e. e.0) s.entities

  unfoldable pub remove_from_all : ℕ → List (ℕ × SparseSet V) → List (ℕ × SparseSet V)
  remove_from_all entity [] = []
  remove_from_all entity ((id, components) ∷ rest) =
      (id, if has entity components then remove entity components else components)
      ∷ remove_from_all entity rest

  unfoldable pub destroy_entity : ℕ → Ecs V → Ecs V
  destroy_entity entity s = record s {
    components = remove_from_all entity s.components;
    entities = erase entity s.entities;
  }
