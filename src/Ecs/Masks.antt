-- ===== src/Ecs/Masks.antt =====
-- `getComponentMask` of ECS.hpp: the indices of the components, and no others.
use rtype.Base.{
  ℕ, ◌<◌, ◌≡◌, ap, List, [], ◌∷◌, true, false, ◌==◌, lookup, contains_key, Option-rule, arith,
}
use rtype.BitSet.Blocks.{test}
use rtype.BitSet.Test.{IsBlocks}
use rtype.BitSet.Operators.{test-operators}
use rtype.BitSet.Emptiness.{apply_operation-IsBlocks}
use rtype.BitSet.Serialize.{listed}
use rtype.Ecs.Registry.{Ecs, get_component_mask, get_component_mask_helper}
use rtype.Ecs.Valid.{IsEcsBut, is_some}
use rtype.Ecs.Insert.{contains-some}

module _ {V : Type 0} (e0 : ℕ) (q : List ℕ) (s : Ecs V) (v : IsEcsBut e0 q s) where
  pub helper-IsBlocks : (id : ℕ) → IsBlocks (get_component_mask_helper id s)
  unfolding get_component_mask_helper
  helper-IsBlocks id =
      Option-rule IsBlocks (lookup id s.components_masks) (λ h. tt)
        (λ own h. let (only, bound) = v.masked id own h in only.whole)

  helper-below : (id i : ℕ) → v.top < i → test i (get_component_mask_helper id s) ≡ false
  unfolding get_component_mask_helper test
  helper-below id i h =
      Option-rule (λ m. test i m ≡ false) (lookup id s.components_masks) (λ no. ground arith)
        (λ own there. let (only, bound) = v.masked id own there in ground (arith, only.only i))

  pub test-helper :
      (id jd : ℕ)
      → contains_key jd s.components_masks ≡ true
      → test (v.bit jd) (get_component_mask_helper id s) ≡ (id == jd)
  unfolding get_component_mask_helper test
  test-helper id jd known =
      Option-rule (λ m. test (v.bit jd) m ≡ (id == jd)) (lookup id s.components_masks)
        (λ no.
          ground
            (arith, no, known, ap (λ k. is_some (lookup k s.components_masks)) {x = id} {y = jd}))
        (λ own there.
          let (only, bound) = v.masked id own there in
          ground (
            arith,
            only.only (v.bit jd),
            ap v.bit {x = id} {y = jd},
            v.apart id jd (contains-some id s.components_masks own there) known,
          ))

  pub get_component_mask-IsBlocks : (ids : List ℕ) → IsBlocks (get_component_mask ids s)
  unfolding get_component_mask
  get_component_mask-IsBlocks [] = tt
  get_component_mask-IsBlocks (id ∷ []) = helper-IsBlocks id
  get_component_mask-IsBlocks (id ∷ jd ∷ ids) =
      apply_operation-IsBlocks _ _ _ _ (helper-IsBlocks id)

  pub get_component_mask-below :
      (ids : List ℕ) (i : ℕ) → v.top < i → test i (get_component_mask ids s) ≡ false
  unfolding get_component_mask test
  get_component_mask-below [] i h = ground arith
  get_component_mask-below (id ∷ []) i h = helper-below id i h
  get_component_mask-below (id ∷ jd ∷ ids) i h = ground (
    arith,
    (test-operators _ (get_component_mask (jd ∷ ids) s) (helper-IsBlocks id) i).1,
    helper-below id i h,
    get_component_mask-below (jd ∷ ids) i h,
  )

  pub test-get_component_mask :
      (ids : List ℕ) (jd : ℕ)
      → contains_key jd s.components_masks ≡ true
      → test (v.bit jd) (get_component_mask ids s) ≡ listed jd ids
  unfolding get_component_mask test listed
  test-get_component_mask [] jd known = ground arith
  test-get_component_mask (id ∷ []) jd known = ground (arith, test-helper id jd known)
  test-get_component_mask (id ∷ kd ∷ ids) jd known = ground (
    arith,
    (test-operators _ (get_component_mask (kd ∷ ids) s) (helper-IsBlocks id) (v.bit jd)).1,
    test-helper id jd known,
    test-get_component_mask (kd ∷ ids) jd known,
  )
