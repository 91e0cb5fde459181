-- ===== src/Ecs/Registered.antt =====
-- `registerEntity` of ECS.hpp, on every branch.
use rtype.Base.{
  ℕ, ◌<◌, ◌==◌, ◌≡◌, ap, ◌∙◌, List, [], map, none, some, false, ◌&&◌, contains_key, length, u64_mod,
  if-rule, if◌then◌else◌, arith, lookup, Option-cases, inl, inr,
}
use rtype.BitSet.Blocks.{none_set}
use rtype.Ecs.Registry.{
  Ecs, new_ecs, null_entity_id, get_component_mask, add_entity_components, register_entity,
  get_entity_component,
}
use rtype.Ecs.Valid.{IsEcs}
use rtype.Ecs.Masks.{get_component_mask-IsBlocks, get_component_mask-below, test-get_component_mask}
use rtype.Ecs.Fresh.{IsFresh, created, created-there, created-IsEcsBut, nothing_yet}
use rtype.Ecs.Run.{Operation, run, run-IsEcs, run-IsFresh}
use rtype.Ecs.Given.{given, any_registered, get-added, none_set-mask}

module _ {V : Type 0} (instances : List (ℕ × V)) where
  module _ (s : Ecs V) (v : IsEcs s) (fresh : IsFresh s) where
    -- The new entity has no component before.
    get-new : (jd : ℕ) → get_entity_component jd s.entities_id s ≡ none
    unfolding get_entity_component
    get-new jd = elim (Option-cases (lookup jd s.components)) [
      | inl absent ↦ ground (arith, absent)
      | inr (c, found) ↦ ground (arith, found, nothing_yet s [] [] v fresh 0 jd c found)
    ]

    last_given :
        (jd e : ℕ)
        → (if contains_key jd s.components && s.entities_id == e
            then elim (given jd instances) [ none ↦ get_entity_component jd e s | some x ↦ some x ]
            else get_entity_component jd e s)
          ≡ (if contains_key jd s.components && s.entities_id == e
              then given jd instances
              else get_entity_component jd e s)
    last_given jd e =
        ground
          (arith, get-new jd, ap (λ k. get_entity_component jd k s) {x = s.entities_id} {y = e})

    get-registered :
        (jd e : ℕ)
        → let t = add_entity_components s.entities_id instances (
            created s
              (get_component_mask (map (λ i. i.0) instances) s)
              (map (λ i. i.0) instances)
              v
              fresh
              s.entities_id) in
          get_entity_component jd e t ≡ (
            if contains_key jd s.components && s.entities_id == e
            then given jd instances
            else get_entity_component jd e s)
    unfolding get_entity_component
    get-registered jd e =
        let ids = map (λ (i : ℕ × V). i.0) instances in
        let mask = get_component_mask ids s in
        let pending =
          created-IsEcsBut s mask ids v fresh s.entities_id
            (get_component_mask-IsBlocks 0 [] s v ids) (get_component_mask-below 0 [] s v ids)
            (test-get_component_mask 0 [] s v ids) in
        get-added s.entities_id instances (created s mask ids v fresh s.entities_id) pending
          (created-there s mask ids v fresh s.entities_id) jd e
        ∙ last_given jd e

    register_entity-branches :
        (jd e : ℕ)
        → ((register_entity instances s).0
            ≡ (if any_registered instances s then s.entities_id else null_entity_id))
          × (get_entity_component jd e (register_entity instances s).1 ≡ (
              if any_registered instances s && (contains_key jd s.components && s.entities_id == e)
              then given jd instances
              else get_entity_component jd e s))
    unfolding register_entity get_entity_component
    register_entity-branches jd e =
        let mask = get_component_mask (map (λ i. i.0) instances) s in
        if-rule
          (λ (r : ℕ × Ecs V).
            (r.0 ≡ (if any_registered instances s then s.entities_id else null_entity_id))
            × (get_entity_component jd e r.1 ≡ (
                if any_registered instances s
                  && (contains_key jd s.components && s.entities_id == e)
                then given jd instances
                else get_entity_component jd e s)))
          (none_set mask)
          (λ h. (
            ground (arith, h, none_set-mask s v instances),
            ground (arith, h, none_set-mask s v instances),
          ))
          (λ h. (
            ground (arith, h, none_set-mask s v instances),
            ground (arith, h, none_set-mask s v instances, get-registered jd e),
          ))

-- After any run of fewer than 2^64 operations from the constructor on, `registerEntity` returns the
-- next ID, which no entity has, if one of the components is registered, and the null ID otherwise. The
-- new entity then has the last given instance of each registered component, and no other entity has
-- another component than before; where none is registered, every component is as before.
pub register_entity-components :
    {V : Type 0} (ops : List (Operation V)) (instances : List (ℕ × V)) (jd e : ℕ)
    → length ops < u64_mod
    → let s = run ops new_ecs in
      let (entity, t) = register_entity instances s in
      (contains_key s.entities_id s.entities ≡ false)
      × (entity ≡ (if any_registered instances s then s.entities_id else null_entity_id))
      × (get_entity_component jd e t ≡ (
          if any_registered instances s && (contains_key jd s.components && s.entities_id == e)
          then given jd instances
          else get_entity_component jd e s))
register_entity-components ops instances jd e room =
    let s = run ops new_ecs in
    let fresh = run-IsFresh ops room in
    let (entity, components) =
      register_entity-branches instances s (run-IsEcs ops room) fresh jd e in
    (fresh s.entities_id (omega arith), entity, components)
