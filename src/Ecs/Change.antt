-- ===== src/Ecs/Change.antt =====
-- `addEntityComponents` and `updateEntity` of ECS.hpp.
use mathlib.Core.Path.{subst}
use rtype.Base.{
  ℕ, ◌≡◌, refl, sym, ap, ◌∙◌, inl, inr, List, [], ◌∷◌, some, Bool, true, false, ◌&&◌, ◌||◌, ◌==◌,
  lookup, insert, lookup-insert, some-injective, Option-cases, if-rule, Option-rule, arith,
}
use rtype.BitSet.Blocks.{test}
use rtype.BitSet.Serialize.{listed}
use rtype.Sparse.Set.{SparseSet, get, has, put, IsSparse}
use rtype.Sparse.Contents.{put-IsSparse, get-put}
use rtype.Ecs.Registry.{
  Ecs, get_entity_mask, insert_component_instance, add_entity_components, update_entity_component,
  update_entity,
}
use rtype.Ecs.Valid.{IsEcsBut, IsEcs, is_some, has-get}
use rtype.Ecs.Insert.{contains-some}
use rtype.Ecs.Create.{insert-unknown, insert-IsEcsBut, pending-IsEcsBut}

module _ {V : Type 0} where
  -- Where nothing is pending, the entity that is named does not matter.
  rebased-IsEcs : (e0 e1 : ℕ) (s : Ecs V) → IsEcsBut e0 [] s → IsEcsBut e1 [] s
  unfolding listed
  rebased-IsEcs e0 e1 s v = pending-IsEcsBut e0 e1 [] [] s v (λ e jd k. ground arith)

  insert_component_instance-IsEcs :
      (entity id : ℕ) (instance : V) (s : Ecs V)
      → IsEcs s
      → IsEcs (insert_component_instance entity id instance s)
  insert_component_instance-IsEcs entity id instance s v =
      elim (Option-cases (lookup entity s.entities)) [
        | inl unknown ↦ subst IsEcs (sym (insert-unknown entity id instance s unknown)) v
        | inr (mask, at) ↦
            rebased-IsEcs entity 0 _
              (insert-IsEcsBut entity id instance s [] [] (rebased-IsEcs 0 entity s v)
                (contains-some entity s.entities mask at) (λ jd h. refl)).0
      ]

  pub add_entity_components-IsEcs :
      (entity : ℕ) (instances : List (ℕ × V)) (s : Ecs V)
      → IsEcs s
      → IsEcs (add_entity_components entity instances s)
  unfolding add_entity_components
  add_entity_components-IsEcs entity [] s v = v
  add_entity_components-IsEcs entity ((id, instance) ∷ rest) s v =
      add_entity_components-IsEcs entity rest _
        (insert_component_instance-IsEcs entity id instance s v)

  -- An update replaces a component that the entity has.
  updated-IsEcs :
      (entity id : ℕ) (instance : V) (s : Ecs V) (c : SparseSet V)
      → IsEcs s
      → lookup id s.components ≡ some c
      → has entity c ≡ true
      → IsEcs (record s { components = insert id (put entity instance c) s.components })
  unfolding get_entity_mask listed
  updated-IsEcs entity id instance s c v found there =
      let valid = v.sparse id c found in
      let same_shape : (e : ℕ) → is_some (get e (put entity instance c)) ≡ is_some (get e c) = λ e.
        ground (
          arith,
          ap is_some (get-put c valid entity instance e),
          has-get entity c valid,
          ap (λ k. is_some (get k c)) {x = entity} {y = e},
        ) in
      record {
        top = v.top;
        index_only = v.index_only;
        bit = v.bit;
        masked = v.masked;
        apart = v.apart;
        known = λ jd. ground (
          arith,
          lookup-insert id jd (put entity instance c) s.components,
          v.known jd,
          v.known id,
          found,
        );
        sparse = λ jd d h.
            if-rule (λ o. o ≡ some d → IsSparse d) (id == jd)
              (λ i. λ f.
                subst IsSparse (some-injective f)
                  (put-IsSparse c (v.sparse id c found) entity instance))
              (λ i. v.sparse jd d)
              (sym (lookup-insert id jd (put entity instance c) s.components) ∙ h);
        whole = v.whole;
        below = v.below;
        agree = λ jd d e h.
            if-rule
              (λ o.
                o ≡ some d
                → (is_some (get e d) || (e == 0 && listed jd []))
                  ≡ test (v.bit jd) (get_entity_mask e s))
              (id == jd)
              (λ i. λ f.
                ap (λ g. is_some g || (e == 0 && false)) (ap (get e) (sym (some-injective f)))
                ∙ ap (λ (b : Bool). b || (e == 0 && false)) (same_shape e)
                ∙ v.agree id c e found
                ∙ ap (λ k. test (v.bit k) (get_entity_mask e s)) (ground (arith, i)))
              (λ i. v.agree jd d e)
              (sym (lookup-insert id jd (put entity instance c) s.components) ∙ h);
      }

  update_entity_component-IsEcs :
      (entity id : ℕ) (instance : V) (s : Ecs V)
      → IsEcs s
      → IsEcs (update_entity_component entity id instance s).0
  unfolding update_entity_component
  update_entity_component-IsEcs entity id instance s v =
      Option-rule (λ (r : Ecs V × Bool). IsEcs r.0) (lookup id s.components) (λ no. v)
        (λ c found.
          if-rule (λ (r : Ecs V × Bool). IsEcs r.0) (has entity c)
            (λ there. updated-IsEcs entity id instance s c v found there) (λ no. v))

  pub update_entity-IsEcs :
      (entity : ℕ) (instances : List (ℕ × V)) (s : Ecs V)
      → IsEcs s
      → IsEcs (update_entity entity instances s).0
  unfolding update_entity
  update_entity-IsEcs entity [] s v = v
  update_entity-IsEcs entity ((id, instance) ∷ rest) s v =
      let first = update_entity_component-IsEcs entity id instance s v in
      if-rule (λ (r : Ecs V × Bool). IsEcs r.0) (update_entity_component entity id instance s).1
        (λ done. update_entity-IsEcs entity rest _ first) (λ failed. first)
