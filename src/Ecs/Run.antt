-- ===== src/Ecs/Run.antt =====
-- Runs of the operations of ECS.hpp and ECS.cpp from the state that the constructor makes.
use rtype.Base.{
  ℕ, ◌+◌, ◌≤◌, ◌<◌, ◌≡◌, refl, ◌∙◌, List, [], ◌∷◌, map, Bool, false, lookup, contains_key,
  lookup-insert, lookup-erase, length, u64_mod, if-rule, Option-rule, arith,
}
use rtype.BitSet.Blocks.{DynamicBitSet, none_set}
use rtype.Sparse.Set.{has}
use rtype.Ecs.Registry.{
  Ecs, emplace, new_ecs, next_u64, get_component_mask, register_component, register_components,
  add_entity_components, register_entity, pre_register_entity, update_entity_component,
  update_entity, destroy_entity,
}
use rtype.Ecs.Valid.{IsEcs, new_ecs-IsEcs}
use rtype.Ecs.Fresh.{
  IsFresh, register_entity-IsEcs, pre_register_entity-IsEcs, add_entity_components-entities,
}
use rtype.Ecs.Register.{register_components-IsEcs}
use rtype.Ecs.Change.{add_entity_components-IsEcs, update_entity-IsEcs}
use rtype.Ecs.Destroy.{destroy_entity-IsEcs}

-- The operations that change the state.
pub data Operation (V : Type 0) : Type 0 where
  registering : List ℕ → Operation V
  creating : List (ℕ × V) → Operation V
  reserving : Operation V
  adding : ℕ → List (ℕ × V) → Operation V
  updating : ℕ → List (ℕ × V) → Operation V
  destroying : ℕ → Operation V

module _ {V : Type 0} where
  unfoldable pub step : Operation V → Ecs V → Ecs V
  step (registering ids) s = register_components ids s
  step (creating instances) s = (register_entity instances s).1
  step reserving s = (pre_register_entity s).1
  step (adding entity instances) s = add_entity_components entity instances s
  step (updating entity instances) s = (update_entity entity instances s).0
  step (destroying entity) s = destroy_entity entity s

  unfoldable pub run : List (Operation V) → Ecs V → Ecs V
  run [] s = s
  run (op ∷ ops) s = run ops (step op s)

  -- The operation names no entity that was not there, and keeps the next ID.
  abbrev NamesNone : Ecs V → Ecs V → Type 0
  NamesNone s t =
      ((e : ℕ) → contains_key e s.entities ≡ false → contains_key e t.entities ≡ false)
      × (t.entities_id ≡ s.entities_id)

  -- At most the next ID is taken.
  abbrev NamesNext : Ecs V → Ecs V → Type 0
  NamesNext s t =
      ((e : ℕ)
        → s.entities_id < e
        → contains_key e s.entities ≡ false
        → contains_key e t.entities ≡ false)
      × (t.entities_id ≡ s.entities_id + 1)

  kept-IsFresh : (s t : Ecs V) → NamesNone s t → IsFresh s → IsFresh t
  kept-IsFresh s t (none_new, same) fresh e h = none_new e (fresh e (omega (arith, h, same)))

  register_components-NamesNone :
      (ids : List ℕ) (s : Ecs V) → NamesNone s (register_components ids s)
  unfolding register_components register_component
  register_components-NamesNone [] s = (λ e h. h, refl)
  register_components-NamesNone (id ∷ ids) s =
      let first =
        if-rule (NamesNone s) (contains_key id s.components) (λ h. (λ e k. k, refl))
          (λ h. (λ e k. k, refl)) in
      let rest = register_components-NamesNone ids (register_component id s) in
      (λ e h. rest.0 e (first.0 e h), rest.1 ∙ first.1)

  update_entity_component-entities :
      (entity id : ℕ) (instance : V) (s : Ecs V)
      → NamesNone s (update_entity_component entity id instance s).0
  unfolding update_entity_component
  update_entity_component-entities entity id instance s =
      Option-rule (λ (r : Ecs V × Bool). NamesNone s r.0) (lookup id s.components)
        (λ no. (λ e k. k, refl))
        (λ c found.
          if-rule (λ (r : Ecs V × Bool). NamesNone s r.0) (has entity c) (λ h. (λ e k. k, refl))
            (λ h. (λ e k. k, refl)))

  update_entity-NamesNone :
      (entity : ℕ) (instances : List (ℕ × V)) (s : Ecs V)
      → NamesNone s (update_entity entity instances s).0
  unfolding update_entity
  update_entity-NamesNone entity [] s = (λ e k. k, refl)
  update_entity-NamesNone entity ((id, instance) ∷ rest) s =
      let first = update_entity_component-entities entity id instance s in
      let others =
        update_entity-NamesNone entity rest (update_entity_component entity id instance s).0 in
      if-rule (λ (r : Ecs V × Bool). NamesNone s r.0)
        (update_entity_component entity id instance s).1
        (λ done. (λ e h. others.0 e (first.0 e h), others.1 ∙ first.1)) (λ failed. first)

  destroy_entity-NamesNone : (entity : ℕ) (s : Ecs V) → NamesNone s (destroy_entity entity s)
  unfolding destroy_entity
  destroy_entity-NamesNone entity s =
      (λ e h. ground (arith, lookup-erase entity e s.entities, h), refl)

  add_entity_components-NamesNone :
      (entity : ℕ) (instances : List (ℕ × V)) (s : Ecs V)
      → NamesNone s (add_entity_components entity instances s)
  add_entity_components-NamesNone entity instances s = (
    λ e h. (add_entity_components-entities entity instances s e).0 ∙ h,
    (add_entity_components-entities entity instances s 0).1,
  )

  emplaced :
      (mask : DynamicBitSet) (s : Ecs V) (e : ℕ)
      → s.entities_id < e
      → contains_key e (emplace s.entities_id mask s.entities) ≡ contains_key e s.entities
  unfolding emplace
  emplaced mask s e h = ground (arith, lookup-insert s.entities_id e mask s.entities)

  -- How far an operation moves the next ID.
  abbrev Advances : Ecs V → Ecs V → Type 0
  Advances s t = IsFresh t × (t.entities_id ≤ s.entities_id + 1)

  none-Advances : (s t : Ecs V) → IsFresh s → NamesNone s t → Advances s t
  none-Advances s t fresh names = (kept-IsFresh s t names fresh, omega (arith, names.1))

  next-Advances : (s t : Ecs V) → IsFresh s → NamesNext s t → Advances s t
  next-Advances s t fresh (beyond, next) = (
    λ e h. beyond e (omega (arith, h, next)) (fresh e (omega (arith, h, next))),
    omega (arith, next),
  )

  register_entity-Advances :
      (instances : List (ℕ × V)) (s : Ecs V)
      → IsFresh s
      → s.entities_id + 1 < u64_mod
      → Advances s (register_entity instances s).1
  unfolding register_entity
  register_entity-Advances instances s fresh room =
      let mask = get_component_mask (map (λ i. i.0) instances) s in
      let s' = record s { entities = emplace s.entities_id mask s.entities } in
      let added = add_entity_components-entities s.entities_id instances s' in
      let t = add_entity_components s.entities_id instances s' in
      if-rule (λ (r : ℕ × Ecs V). Advances s r.1) (none_set mask)
        (λ h. none-Advances s s fresh (λ e k. k, refl))
        (λ h.
          next-Advances s (record t { entities_id = next_u64 t.entities_id }) fresh
            (λ e i k. (added e).0 ∙ emplaced mask s e i ∙ k, omega (arith, (added 0).1, room)))

  pre_register_entity-Advances :
      (s : Ecs V) → IsFresh s → s.entities_id + 1 < u64_mod → Advances s (pre_register_entity s).1
  unfolding pre_register_entity
  pre_register_entity-Advances s fresh room =
      next-Advances s (pre_register_entity s).1 fresh
        (λ e i k. emplaced [] s e i ∙ k, omega (arith, room))

  step-Advances :
      (op : Operation V) (s : Ecs V)
      → IsFresh s
      → s.entities_id + 1 < u64_mod
      → Advances s (step op s)
  unfolding step
  step-Advances (registering ids) s fresh room =
      none-Advances s (register_components ids s) fresh (register_components-NamesNone ids s)
  step-Advances (creating instances) s fresh room = register_entity-Advances instances s fresh room
  step-Advances reserving s fresh room = pre_register_entity-Advances s fresh room
  step-Advances (adding entity instances) s fresh room =
      none-Advances s (add_entity_components entity instances s) fresh
        (add_entity_components-NamesNone entity instances s)
  step-Advances (updating entity instances) s fresh room =
      none-Advances s (update_entity entity instances s).0 fresh
        (update_entity-NamesNone entity instances s)
  step-Advances (destroying entity) s fresh room =
      none-Advances s (destroy_entity entity s) fresh (destroy_entity-NamesNone entity s)

  step-IsEcs : (op : Operation V) (s : Ecs V) → IsEcs s → IsFresh s → IsEcs (step op s)
  unfolding step
  step-IsEcs (registering ids) s v fresh = register_components-IsEcs ids s v
  step-IsEcs (creating instances) s v fresh = register_entity-IsEcs instances s v fresh
  step-IsEcs reserving s v fresh = pre_register_entity-IsEcs s v fresh
  step-IsEcs (adding entity instances) s v fresh = add_entity_components-IsEcs entity instances s v
  step-IsEcs (updating entity instances) s v fresh = update_entity-IsEcs entity instances s v
  step-IsEcs (destroying entity) s v fresh = destroy_entity-IsEcs entity s v

  run_from-IsEcs :
      (ops : List (Operation V)) (s : Ecs V)
      → IsEcs s
      → IsFresh s
      → s.entities_id + length ops < u64_mod
      → IsEcs (run ops s)
  unfolding run
  run_from-IsEcs [] s v fresh room = v
  run_from-IsEcs (op ∷ ops) s v fresh room =
      let (fresh', id') = step-Advances op s fresh (omega (arith, room)) in
      run_from-IsEcs ops (step op s) (step-IsEcs op s v fresh) fresh' (omega (arith, room, id'))

  run_from-IsFresh :
      (ops : List (Operation V)) (s : Ecs V)
      → IsFresh s
      → s.entities_id + length ops < u64_mod
      → IsFresh (run ops s)
  unfolding run
  run_from-IsFresh [] s fresh room = fresh
  run_from-IsFresh (op ∷ ops) s fresh room =
      let (fresh', id') = step-Advances op s fresh (omega (arith, room)) in
      run_from-IsFresh ops (step op s) fresh' (omega (arith, room, id'))

  pub run-IsFresh : (ops : List (Operation V)) → length ops < u64_mod → IsFresh (run ops new_ecs)
  unfolding new_ecs lookup
  run-IsFresh ops room = run_from-IsFresh ops new_ecs (λ e h. refl) (omega (arith, room))

  pub run-IsEcs : (ops : List (Operation V)) → length ops < u64_mod → IsEcs (run ops new_ecs)
  unfolding new_ecs lookup
  run-IsEcs ops room = run_from-IsEcs ops new_ecs new_ecs-IsEcs (λ e h. refl) (omega (arith, room))
