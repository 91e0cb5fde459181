-- ===== src/Ecs/Fresh.antt =====
-- `registerEntity` of ECS.hpp and `preRegisterEntity` of ECS.cpp, whose entities are new.
use mathlib.Core.Path.{subst}
use rtype.Base.{
  ℕ, ◌≤◌, ◌<◌, ◌≡◌, refl, sym, ap, ◌∙◌, List, [], ◌∷◌, map, some, true, false, ◌&&◌, ◌||◌, ◌==◌,
  lookup, insert, contains_key, lookup-insert, if-rule, Option-rule, if◌then◌else◌, arith,
}
use rtype.BitSet.Blocks.{DynamicBitSet, test, none_set, or_assign}
use rtype.BitSet.Test.{IsBlocks}
use rtype.BitSet.Serialize.{listed}
use rtype.Sparse.Set.{SparseSet, get}
use rtype.Ecs.Registry.{
  Ecs, emplace, get_entity_mask, get_component_mask, insert_component_instance,
  add_entity_components, register_entity, pre_register_entity, next_u64,
}
use rtype.Ecs.Valid.{IsEcsBut, IsEcs, is_some}
use rtype.Ecs.Insert.{mask-insert, contains-some}
use rtype.Ecs.Masks.{get_component_mask-IsBlocks, get_component_mask-below, test-get_component_mask}
use rtype.Ecs.Create.{add-IsEcsBut, pending-IsEcsBut}

-- The IDs from the next one on are free.
abbrev pub IsFresh : {V : Type 0} → Ecs V → Type 0
IsFresh s = (e : ℕ) → s.entities_id ≤ e → contains_key e s.entities ≡ false

module _ {V : Type 0} where
  -- An insertion keeps the entities and the next ID.
  insert_component_instance-entities :
      (entity id : ℕ) (instance : V) (s : Ecs V) (e : ℕ)
      → let t = insert_component_instance entity id instance s in
        (contains_key e t.entities ≡ contains_key e s.entities) × (t.entities_id ≡ s.entities_id)
  unfolding insert_component_instance
  insert_component_instance-entities entity id instance s e =
      Option-rule
        (λ (t : Ecs V).
          (contains_key e t.entities ≡ contains_key e s.entities) × (t.entities_id ≡ s.entities_id))
        (lookup entity s.entities) (λ no. (refl, refl))
        (λ mask at.
          Option-rule
            (λ (t : Ecs V).
              (contains_key e t.entities ≡ contains_key e s.entities)
              × (t.entities_id ≡ s.entities_id))
            (lookup id s.components) (λ no. (refl, refl))
            (λ c found. (
              ground (
                arith,
                lookup-insert entity e (or_assign mask (get_component_mask (id ∷ []) s)) s.entities,
                at,
                ap (λ k. is_some (lookup k s.entities)) {x = entity} {y = e},
              ),
              refl,
            )))

  pub add_entity_components-entities :
      (entity : ℕ) (instances : List (ℕ × V)) (s : Ecs V) (e : ℕ)
      → let t = add_entity_components entity instances s in
        (contains_key e t.entities ≡ contains_key e s.entities) × (t.entities_id ≡ s.entities_id)
  unfolding add_entity_components
  add_entity_components-entities entity [] s e = (refl, refl)
  add_entity_components-entities entity ((id, instance) ∷ rest) s e =
      let (first, next) = insert_component_instance-entities entity id instance s e in
      let (others, last) =
        add_entity_components-entities entity rest (insert_component_instance entity id instance s)
          e in
      (others ∙ first, last ∙ next)

  -- A new entity with a mask for the components of `ids`.
  module _ (s : Ecs V) (mask : DynamicBitSet) (ids : List ℕ) (v : IsEcs s) (fresh : IsFresh s)
      (n : ℕ) where
    abbrev pub created : Ecs V
    created = record s { entities_id = n; entities = emplace s.entities_id mask s.entities }

    created-entities : created.entities ≡ insert s.entities_id mask s.entities
    unfolding emplace
    created-entities = rw (fresh s.entities_id (omega arith)) refl

    mask-created :
        (e : ℕ)
        → get_entity_mask e created ≡ (if s.entities_id == e then mask else get_entity_mask e s)
    mask-created e = mask-insert s.entities_id e mask s created created-entities

    pub nothing_yet :
        (id : ℕ) (c : SparseSet V)
        → lookup id s.components ≡ some c
        → is_some (get s.entities_id c) ≡ false
    unfolding get_entity_mask test
    nothing_yet id c h =
        ground (arith, v.agree id c s.entities_id h, fresh s.entities_id (omega arith))

    pub created-there : contains_key s.entities_id created.entities ≡ true
    created-there =
        ground (arith, created-entities, lookup-insert s.entities_id s.entities_id mask s.entities)

    pub created-IsEcsBut :
        IsBlocks mask
        → ((i : ℕ) → v.top < i → test i mask ≡ false)
        → ((jd : ℕ)
            → contains_key jd s.components_masks ≡ true
            → test (v.bit jd) mask ≡ listed jd ids)
        → IsEcsBut s.entities_id ids created
    unfolding listed
    created-IsEcsBut whole below tests = record {
      top = v.top;
      index_only = v.index_only;
      bit = v.bit;
      masked = v.masked;
      apart = v.apart;
      known = v.known;
      sparse = v.sparse;
      whole = λ e.
          subst IsBlocks (sym (mask-created e))
            (if-rule IsBlocks (s.entities_id == e) (λ i. whole) (λ i. v.whole e));
      below = λ e i h.
          ap (test i) (mask-created e)
          ∙ if-rule (λ m. test i m ≡ false) (s.entities_id == e) (λ j. below i h)
              (λ j. v.below e i h);
      agree = λ id c e h.
          if-rule
            (λ m. (is_some (get e c) || (e == s.entities_id && listed id ids)) ≡ test (v.bit id) m)
            (s.entities_id == e)
            (λ j. ground (
              arith,
              j,
              nothing_yet id c h,
              ap (λ k. is_some (get k c)) {x = e} {y = s.entities_id},
              tests id (sym (v.known id) ∙ contains-some id s.components c h),
            ))
            (λ j. ground (arith, j, v.agree id c e h))
          ∙ ap (test (v.bit id)) (sym (mask-created e));
    }

  -- The next ID has no part in the invariant, and nothing is pending at the end.
  settled-IsEcs : (e0 n : ℕ) (s : Ecs V) → IsEcsBut e0 [] s → IsEcs (record s { entities_id = n })
  unfolding get_entity_mask listed
  settled-IsEcs e0 n s v =
      pending-IsEcsBut e0 0 [] [] _
        (record {
          top = v.top;
          index_only = v.index_only;
          bit = v.bit;
          masked = v.masked;
          apart = v.apart;
          known = v.known;
          sparse = v.sparse;
          whole = v.whole;
          below = v.below;
          agree = v.agree;
        })
        (λ e jd k. ground arith)

  pub register_entity-IsEcs :
      (instances : List (ℕ × V)) (s : Ecs V)
      → IsEcs s
      → IsFresh s
      → IsEcs (register_entity instances s).1
  unfolding register_entity
  register_entity-IsEcs instances s v fresh =
      let ids = map (λ i. i.0) instances in
      let mask = get_component_mask ids s in
      if-rule (λ (r : ℕ × Ecs V). IsEcs r.1) (none_set mask) (λ h. v)
        (λ h.
          let s' = created s mask ids v fresh s.entities_id in
          settled-IsEcs s.entities_id
            (next_u64 (add_entity_components s.entities_id instances s').entities_id) _
            (add-IsEcsBut s.entities_id instances s'
              (created-IsEcsBut s mask ids v fresh s.entities_id
                (get_component_mask-IsBlocks 0 [] s v ids) (get_component_mask-below 0 [] s v ids)
                (test-get_component_mask 0 [] s v ids))
              (created-there s mask ids v fresh s.entities_id)))

  pub pre_register_entity-IsEcs :
      (s : Ecs V) → IsEcs s → IsFresh s → IsEcs (pre_register_entity s).1
  unfolding pre_register_entity listed test
  pre_register_entity-IsEcs s v fresh = settled-IsEcs s.entities_id (next_u64 s.entities_id) _ (
      created-IsEcsBut s [] [] v fresh s.entities_id tt (λ i h. ground arith)
        (λ jd h. ground arith))
