-- ===== src/Ecs/Register.antt =====
-- `registerComponent` of ECS.hpp.
use mathlib.Core.Path.{subst}
use rtype.Base.{
  ℕ, ◌+◌, ◌≤◌, ◌≡◌, sym, ap, ◌∙◌, List, [], ◌∷◌, some, true, false, ◌&&◌, ◌||◌, ◌==◌, lookup,
  contains_key, lookup-insert, some-injective, if-rule, if◌then◌else◌, arith,
}
use rtype.BitSet.Blocks.{test}
use rtype.BitSet.Serialize.{listed}
use rtype.Sparse.Set.{new_set, get, IsSparse}
use rtype.Sparse.Refines.{new_set-IsSparse, get-new_set}
use rtype.Ecs.Registry.{
  Ecs, emplace, next_mask_index, get_entity_mask, register_component, register_components,
}
use rtype.Ecs.MaskIndex.{IsOnly, next_mask_index-IsOnly}
use rtype.Ecs.Valid.{IsEcs, is_some}
use rtype.Ecs.Insert.{some-contains}

module _ {V : Type 0} where
  module _ (id : ℕ) (s : Ecs V) (v : IsEcs s) where
    bit-le : (jd : ℕ) → contains_key jd s.components_masks ≡ true → v.bit jd ≤ v.top
    bit-le jd h =
        let (m, there) = some-contains jd s.components_masks h in
        let (only, bound) = v.masked jd m there in bound

    abbrev indexed : Ecs V
    indexed = record s { component_mask_index = next_mask_index s.component_mask_index }

    indexed-IsEcs : IsEcs indexed
    unfolding get_entity_mask listed
    indexed-IsEcs = record {
      top = v.top + 1;
      index_only = next_mask_index-IsOnly v.top s.component_mask_index v.index_only;
      bit = v.bit;
      masked = λ jd m h. let (only, bound) = v.masked jd m h in (only, omega (arith, bound));
      apart = v.apart;
      known = v.known;
      sparse = v.sparse;
      whole = v.whole;
      below = λ e i h. v.below e i (omega (arith, h));
      agree = v.agree;
    }

    abbrev next_bit : ℕ → ℕ
    next_bit jd = if id == jd then v.top + 1 else v.bit jd

    abbrev extended : Ecs V
    extended = record indexed {
      components_masks = emplace id (next_mask_index s.component_mask_index) s.components_masks;
      components = emplace id (new_set id) s.components;
    }

    module _ (absent : contains_key id s.components ≡ false) where
      masks_is :
          (jd : ℕ)
          → lookup jd extended.components_masks ≡ (
              if id == jd
              then some (next_mask_index s.component_mask_index)
              else lookup jd s.components_masks)
      unfolding emplace
      masks_is jd = rw (sym (v.known id) ∙ absent) (lookup-insert id jd _ s.components_masks)

      components_is :
          (jd : ℕ)
          → lookup jd extended.components
            ≡ (if id == jd then some (new_set id) else lookup jd s.components)
      unfolding emplace
      components_is jd = rw absent (lookup-insert id jd _ s.components)

      next_bit-apart :
          (jd kd : ℕ)
          → contains_key jd extended.components_masks ≡ true
          → contains_key kd extended.components_masks ≡ true
          → next_bit jd ≡ next_bit kd
          → jd ≡ kd
      next_bit-apart jd kd k l e =
          ground (arith, masks_is jd, masks_is kd, bit-le jd, bit-le kd, v.apart jd kd)

      extended-IsEcs : IsEcs extended
      unfolding get_entity_mask listed
      extended-IsEcs = record {
        top = v.top + 1;
        index_only = next_mask_index-IsOnly v.top s.component_mask_index v.index_only;
        bit = next_bit;
        masked = λ jd m h.
            if-rule (λ o. o ≡ some m → IsOnly (next_bit jd) m × (next_bit jd ≤ v.top + 1))
              (id == jd)
              (λ i. λ f.
                subst (λ n. IsOnly n m × (n ≤ v.top + 1)) (ground (arith, i))
                  ((
                    subst (IsOnly (v.top + 1)) (some-injective f)
                        (next_mask_index-IsOnly v.top s.component_mask_index v.index_only),
                    omega arith,
                  )))
              (λ i. λ f.
                let (only, bound) = v.masked jd m f in
                subst (λ n. IsOnly n m × (n ≤ v.top + 1)) (ground (arith, i))
                  ((only, omega (arith, bound))))
              (sym (masks_is jd) ∙ h);
        apart = next_bit-apart;
        known = λ jd. ground (arith, masks_is jd, components_is jd, v.known jd);
        sparse = λ jd c h.
            if-rule (λ o. o ≡ some c → IsSparse c) (id == jd)
              (λ i. λ f. subst IsSparse (some-injective f) (new_set-IsSparse id))
              (λ i. v.sparse jd c) (sym (components_is jd) ∙ h);
        whole = v.whole;
        below = λ e i h. v.below e i (omega (arith, h));
        agree = λ jd c e h.
            if-rule
              (λ o.
                o ≡ some c
                → (is_some (get e c) || (e == 0 && false))
                  ≡ test (next_bit jd) (get_entity_mask e s))
              (id == jd)
              (λ i. λ f.
                (ap (λ d. is_some (get e d) || (e == 0 && false)) (sym (some-injective f))
                  ∙ ap (λ o. is_some o || (e == 0 && false)) (get-new_set {T = V} id e)
                  ∙ ground (arith, i, v.below e (v.top + 1) (omega arith))))
              (λ i. λ f. ground (arith, i, v.agree jd c e f)) (sym (components_is jd) ∙ h);
      }

  register_component-IsEcs : (id : ℕ) (s : Ecs V) → IsEcs s → IsEcs (register_component id s)
  unfolding register_component
  register_component-IsEcs id s v =
      if-rule IsEcs (contains_key id s.components) (λ h. indexed-IsEcs id s v)
        (λ h. extended-IsEcs id s v h)

  pub register_components-IsEcs :
      (ids : List ℕ) (s : Ecs V) → IsEcs s → IsEcs (register_components ids s)
  unfolding register_components
  register_components-IsEcs [] s v = v
  register_components-IsEcs (id ∷ ids) s v =
      register_components-IsEcs ids _ (register_component-IsEcs id s v)
