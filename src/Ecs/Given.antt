-- ===== src/Ecs/Given.antt =====
-- What `registerEntity` of ECS.hpp stores for the new entity.
use mathlib.Core.Path.{subst}
use rtype.Base.{
  ℕ, ◌==◌, ◌≡◌, refl, sym, ap, ◌∙◌, inl, inr, List, [], ◌∷◌, map, Option, none, some, Bool, true,
  false, not, ◌&&◌, ◌||◌, lookup, contains_key, lookup-insert, Bool-cases, Option-cases,
  if◌then◌else◌, arith,
}
use rtype.BitSet.Blocks.{DynamicBitSet, test, none_set}
use rtype.BitSet.Operators.{test-operators}
use rtype.BitSet.Emptiness.{none_set-test, index_found}
use rtype.BitSet.Serialize.{listed}
use rtype.Sparse.Set.{SparseSet, put}
use rtype.Sparse.Contents.{get-put}
use rtype.Ecs.Registry.{
  Ecs, get_component_mask, get_component_mask_helper, insert_component_instance,
  add_entity_components, get_entity_component,
}
use rtype.Ecs.Valid.{IsEcsBut, IsEcs, is_some}
use rtype.Ecs.Insert.{inserted, contains-some, some-contains}
use rtype.Ecs.Masks.{helper-IsBlocks, get_component_mask-IsBlocks, test-get_component_mask}
use rtype.Ecs.Create.{insert-IsEcsBut, insert-absent, insert-found}

module _ {V : Type 0} where
  -- The last of the instances of a component.
  unfoldable pub given : ℕ → List (ℕ × V) → Option V
  given id [] = none
  given id ((jd, instance) ∷ rest) = elim (given id rest) [
    | none ↦ if jd == id then some instance else none
    | some later ↦ some later
  ]

  -- One of the components is registered.
  unfoldable pub any_registered : List (ℕ × V) → Ecs V → Bool
  any_registered [] s = false
  any_registered ((id, instance) ∷ rest) s = contains_key id s.components || any_registered rest s

  module _ (entity id : ℕ) (instance : V) (s : Ecs V) (q : List ℕ) (v : IsEcsBut entity q s)
      (there : contains_key entity s.entities ≡ true) where
    -- Either nothing changes, or the set of the component takes the instance.
    insertion :
        (P : Ecs V → Type 0)
        → (lookup id s.components ≡ none → P s)
        → ((mask own : DynamicBitSet) (c : SparseSet V)
            → lookup id s.components ≡ some c
            → P (inserted entity id instance mask own c s))
        → P (insert_component_instance entity id instance s)
    insertion P nothing something =
        let (mask, at) = some-contains entity s.entities there in
        elim (Option-cases (lookup id s.components)) [
          | inl absent ↦
              subst P (sym (insert-absent entity id instance s mask at absent)) (nothing absent)
          | inr (c, found) ↦
              let (own, masked) =
                some-contains id s.components_masks
                  (sym (v.known id) ∙ contains-some id s.components c found) in
              subst P (sym (insert-found entity id instance s mask own c at found masked))
                (something mask own c found)
        ]

    known-inserted :
        (jd : ℕ)
        → contains_key jd (insert_component_instance entity id instance s).components
          ≡ contains_key jd s.components
    known-inserted jd =
        insertion (λ t. contains_key jd t.components ≡ contains_key jd s.components) (λ h. refl)
          (λ mask own c found. ground (
            arith,
            lookup-insert id jd (put entity instance c) s.components,
            found,
            ap (λ k. is_some (lookup k s.components)) {x = id} {y = jd},
          ))

    get-inserted :
        (jd e : ℕ)
        → get_entity_component jd e (insert_component_instance entity id instance s) ≡ (
            if contains_key id s.components && (id == jd && entity == e)
            then some instance
            else get_entity_component jd e s)
    unfolding get_entity_component
    get-inserted jd e =
        insertion
          (λ t. get_entity_component jd e t ≡ (
            if contains_key id s.components && (id == jd && entity == e)
            then some instance
            else get_entity_component jd e s))
          (λ absent. ground (arith, absent))
          (λ mask own c found. ground (
            arith,
            lookup-insert id jd (put entity instance c) s.components,
            found,
            get-put c (v.sparse id c found) entity instance e,
            ap (λ k. lookup k s.components) {x = id} {y = jd},
          ))

  pub get-added :
      (entity : ℕ) (instances : List (ℕ × V)) (s : Ecs V)
      → IsEcsBut entity (map (λ i. i.0) instances) s
      → contains_key entity s.entities ≡ true
      → (jd e : ℕ)
      → get_entity_component jd e (add_entity_components entity instances s) ≡ (
          if contains_key jd s.components && entity == e
          then elim (given jd instances) [ none ↦ get_entity_component jd e s | some x ↦ some x ]
          else get_entity_component jd e s)
  unfolding add_entity_components given listed
  get-added entity [] s v there jd e = ground arith
  get-added entity ((id, instance) ∷ rest) s v there jd e =
      let s' = insert_component_instance entity id instance s in
      let (w, still) =
        insert-IsEcsBut entity id instance s (map (λ i. i.0) rest) _ v there
          (λ kd h. ground (arith, h)) in
      let later = get-added entity rest s' w still jd e in
      ground (
        arith,
        later,
        known-inserted entity id instance s _ v there jd,
        get-inserted entity id instance s _ v there jd e,
        ap (λ k. contains_key k s.components) {x = id} {y = jd},
      )

  module _ (s : Ecs V) (v : IsEcs s) where
    unknown :
        (id i : ℕ)
        → contains_key id s.components ≡ false
        → test i (get_component_mask_helper id s) ≡ false
    unfolding get_component_mask_helper test
    unknown id i h = ground (arith, h, v.known id)

    unregistered :
        (instances : List (ℕ × V)) (i : ℕ)
        → any_registered instances s ≡ false
        → test i (get_component_mask (map (λ p. p.0) instances) s) ≡ false
    unfolding any_registered get_component_mask test
    unregistered [] i h = ground arith
    unregistered ((id, x) ∷ []) i h = unknown id i (ground (arith, h))
    unregistered ((id, x) ∷ p ∷ rest) i h = ground (
      arith,
      (test-operators (get_component_mask_helper id s)
          (get_component_mask (map (λ q. q.0) (p ∷ rest)) s) (helper-IsBlocks 0 [] s v id) i).1,
      unknown id i,
      unregistered (p ∷ rest) i,
      h,
    )

    registered :
        (instances : List (ℕ × V))
        → any_registered instances s ≡ true
        → (id : ℕ) × (contains_key id s.components ≡ true)
          × (listed id (map (λ p. p.0) instances) ≡ true)
    unfolding any_registered listed
    registered [] h = absurd (let e : false ≡ true = h in cc)
    registered ((id, x) ∷ rest) h = elim (Bool-cases (contains_key id s.components)) [
      | inl here ↦ (id, here, ground arith)
      | inr not_here ↦
          let (jd, known, later) = registered rest (ground (arith, h, not_here)) in
          (jd, known, ground (arith, later))
    ]

    pub none_set-mask :
        (instances : List (ℕ × V))
        → none_set (get_component_mask (map (λ p. p.0) instances) s)
          ≡ not (any_registered instances s)
    none_set-mask instances =
        let mask = get_component_mask (map (λ p. p.0) instances) s in
        elim (Bool-cases (any_registered instances s)) [
          | inl some_known ↦
              let (id, known, within) = registered instances some_known in
              ap (λ b. b)
                (none_set-test (v.bit id) mask
                  (test-get_component_mask 0 [] s v _ id (sym (v.known id) ∙ known) ∙ within))
              ∙ ap not (sym some_known)
          | inr all_unknown ↦ elim (Bool-cases (none_set mask)) [
            | inl nothing ↦ nothing ∙ ap not (sym all_unknown)
            | inr something ↦
                let (i, there) =
                  index_found mask (get_component_mask-IsBlocks 0 [] s v _) something in
                absurd
                  (let e : false ≡ true = sym (unregistered instances i all_unknown) ∙ there in cc)
          ]
        ]
