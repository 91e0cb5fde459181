-- ===== src/Ecs/Insert.antt =====
-- `insertComponentInstance` of ECS.hpp.
use mathlib.Core.Path.{subst}
use rtype.Base.{
  ℕ, ◌≡◌, refl, sym, ap, ◌∙◌, inl, inr, List, some, true, false, ◌&&◌, ◌||◌, ◌==◌, lookup, insert,
  contains_key, lookup-insert, some-injective, Bool-cases, Option-cases, if-rule, if◌then◌else◌,
  arith,
}
use rtype.BitSet.Blocks.{DynamicBitSet, test, or_assign}
use rtype.BitSet.Test.{IsBlocks}
use rtype.BitSet.Operators.{test-operators}
use rtype.BitSet.Emptiness.{apply_operation-IsBlocks}
use rtype.BitSet.Serialize.{listed}
use rtype.Sparse.Set.{SparseSet, get, put, IsSparse}
use rtype.Sparse.Contents.{put-IsSparse, get-put}
use rtype.Ecs.Registry.{Ecs, get_entity_mask, get_component_mask_helper}
use rtype.Ecs.Valid.{IsEcsBut, is_some}

pub contains-some :
    {A : Type 0} (id : ℕ) (m : List (ℕ × A)) (a : A)
    → lookup id m ≡ some a
    → contains_key id m ≡ true
contains-some id m a h = ap is_some h

pub some-contains :
    {A : Type 0} (id : ℕ) (m : List (ℕ × A))
    → contains_key id m ≡ true
    → (a : A) × (lookup id m ≡ some a)
some-contains id m h = elim (Option-cases (lookup id m)) [
  | inl absent ↦ absurd (let e : false ≡ true = sym (ap is_some absent) ∙ h in cc)
  | inr found ↦ found
]

module _ {V : Type 0} where
  -- The mask of an entity whose mask is set.
  pub mask-insert :
      (entity e : ℕ) (mask : DynamicBitSet) (s t : Ecs V)
      → t.entities ≡ insert entity mask s.entities
      → get_entity_mask e t ≡ (if entity == e then mask else get_entity_mask e s)
  unfolding get_entity_mask
  mask-insert entity e mask s t h =
      rw (h, get_entity_mask) (ground (arith, lookup-insert entity e mask s.entities))

  mask_there :
      (entity : ℕ) (mask : DynamicBitSet) (s : Ecs V)
      → lookup entity s.entities ≡ some mask
      → get_entity_mask entity s ≡ mask
  unfolding get_entity_mask
  mask_there entity mask s h = rw (h, get_entity_mask) refl

  pub helper_there :
      (id : ℕ) (mask : DynamicBitSet) (s : Ecs V)
      → lookup id s.components_masks ≡ some mask
      → get_component_mask_helper id s ≡ mask
  unfolding get_component_mask_helper
  helper_there id mask s h = rw (h, get_component_mask_helper) refl

  -- The state that the insertion leaves where both the entity and the component are known.
  abbrev pub inserted : ℕ → ℕ → V → DynamicBitSet → DynamicBitSet → SparseSet V → Ecs V → Ecs V
  inserted entity id instance mask own c s = record s {
    entities = insert entity (or_assign mask own) s.entities;
    components = insert id (put entity instance c) s.components;
  }

  module _ (entity id : ℕ) (instance : V) (mask own : DynamicBitSet) (c : SparseSet V) (s : Ecs V)
      (p q : List ℕ) (v : IsEcsBut entity q s) (at : lookup entity s.entities ≡ some mask)
      (found : lookup id s.components ≡ some c)
      (masked : lookup id s.components_masks ≡ some own) where
    whole_there : IsBlocks mask
    whole_there = subst IsBlocks (mask_there entity mask s at) (v.whole entity)

    abbrev after : Ecs V
    after = inserted entity id instance mask own c s

    test-inserted :
        (e i : ℕ)
        → test i (get_entity_mask e after)
          ≡ (test i (get_entity_mask e s) || ((entity == e) && (v.bit id == i)))
    test-inserted e i =
        let (only, bound) = v.masked id own masked in
        let mask_is = mask_there entity mask s at in
        ap (test i) (mask-insert entity e (or_assign mask own) s after refl)
        ∙ if-rule
            (λ m. test i m ≡ (test i (get_entity_mask e s) || ((entity == e) && (v.bit id == i))))
            (entity == e)
            (λ h.
              ground (arith, sym mask_is, only.only i, (test-operators mask own whole_there i).4))
            (λ h. ground (arith, h))

    agree_own :
        (jd e : ℕ)
        → id ≡ jd
        → (is_some (get e (put entity instance c)) || (e == entity && listed jd p))
          ≡ test (v.bit jd) (get_entity_mask e after)
    agree_own jd e h =
        ap (λ j. is_some (get e (put entity instance c)) || (e == entity && listed j p)) (sym h)
        ∙ elim (Bool-cases (entity == e)) [
          | inl this ↦ ground (
            arith,
            this,
            test-inserted e (v.bit id),
            ap is_some (get-put c (v.sparse id c found) entity instance e),
          )
          | inr other ↦ ground (
            arith,
            other,
            test-inserted e (v.bit id),
            ap is_some (get-put c (v.sparse id c found) entity instance e),
            v.agree id c e found,
          )
        ]
        ∙ ap (λ j. test (v.bit j) (get_entity_mask e after)) h

    agree_other :
        (jd e : ℕ) (c' : SparseSet V)
        → (id == jd) ≡ false
        → listed jd q ≡ listed jd p
        → lookup jd s.components ≡ some c'
        → (is_some (get e c') || (e == entity && listed jd p))
          ≡ test (v.bit jd) (get_entity_mask e after)
    agree_other jd e c' h same there =
        let differ : (v.bit id == v.bit jd) ≡ false = ground (
          arith,
          h,
          v.apart id jd (contains-some id s.components_masks own masked)
              (sym (v.known jd) ∙ contains-some jd s.components c' there),
        ) in
        ground (arith, differ, same, test-inserted e (v.bit jd), v.agree jd c' e there)

    pub inserted-IsEcsBut :
        ((jd : ℕ) → (id == jd) ≡ false → listed jd q ≡ listed jd p) → IsEcsBut entity p after
    inserted-IsEcsBut same = record {
      top = v.top;
      index_only = v.index_only;
      bit = v.bit;
      masked = v.masked;
      apart = v.apart;
      known = λ jd. ground (
        arith,
        lookup-insert id jd (put entity instance c) s.components,
        v.known jd,
        v.known id,
        found,
      );
      sparse = λ jd c' h.
          if-rule (λ o. o ≡ some c' → IsSparse c') (id == jd)
            (λ i. λ e.
              subst IsSparse (some-injective e)
                (put-IsSparse c (v.sparse id c found) entity instance))
            (λ i. λ e. v.sparse jd c' e)
            (sym (lookup-insert id jd (put entity instance c) s.components) ∙ h);
      whole = λ e. subst IsBlocks (sym (mask-insert entity e (or_assign mask own) s after refl)) (
          if-rule IsBlocks (entity == e) (λ i. apply_operation-IsBlocks _ _ _ _ whole_there)
            (λ i. v.whole e));
      below = λ e i h. ground (arith, test-inserted e i, v.below e i h, v.masked id own masked);
      agree = λ jd c' e h.
          if-rule
            (λ o.
              o ≡ some c'
              → (is_some (get e c') || (e == entity && listed jd p))
                ≡ test (v.bit jd) (get_entity_mask e after))
            (id == jd)
            (λ i. λ f.
              ap (λ d. is_some (get e d) || (e == entity && listed jd p)) (sym (some-injective f))
              ∙ agree_own jd e (ground (arith, i)))
            (λ i. λ f. agree_other jd e c' i (same jd i) f)
            (sym (lookup-insert id jd (put entity instance c) s.components) ∙ h);
    }
