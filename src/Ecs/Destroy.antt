-- ===== src/Ecs/Destroy.antt =====
-- `destroyEntity` of ECS.cpp.
use mathlib.Core.Path.{subst}
use rtype.Base.{
  ℕ, ◌≡◌, refl, sym, ap, ◌∙◌, List, [], ◌∷◌, Option, none, some, false, ◌&&◌, ◌||◌, ◌==◌, lookup,
  lookup-erase, some-injective, if-rule, if-eq-then, if-eq-else, Option-rule, if◌then◌else◌, arith,
}
use rtype.BitSet.Blocks.{test}
use rtype.BitSet.Test.{IsBlocks}
use rtype.BitSet.Serialize.{listed}
use rtype.Sparse.Set.{SparseSet, get, has, remove, IsSparse}
use rtype.Sparse.Removal.{remove-IsSparse, get-remove}
use rtype.Ecs.Registry.{Ecs, get_entity_mask, remove_from_all, destroy_entity}
use rtype.Ecs.Valid.{IsEcs, is_some, has-get}

module _ {V : Type 0} (entity : ℕ) where
  abbrev dropped : SparseSet V → SparseSet V
  dropped c = if has entity c then remove entity c else c

  lookup-remove_from_all :
      (id : ℕ) (m : List (ℕ × SparseSet V))
      → lookup id (remove_from_all entity m)
        ≡ elim (lookup id m) [ none ↦ none | some c ↦ some (dropped c) ]
  unfolding remove_from_all lookup
  lookup-remove_from_all id [] = refl
  lookup-remove_from_all id ((jd, c) ∷ m) =
      if-rule
        (λ (o : Option (SparseSet V)).
          (if jd == id then some (dropped c) else lookup id (remove_from_all entity m))
          ≡ elim o [ none ↦ none | some d ↦ some (dropped d) ])
        (jd == id) (λ h. if-eq-then _ _ h) (λ h. if-eq-else _ _ h ∙ lookup-remove_from_all id m)

  dropped-IsSparse : (c : SparseSet V) → IsSparse c → IsSparse (dropped c)
  dropped-IsSparse c v = if-rule IsSparse (has entity c) (λ h. remove-IsSparse c v entity) (λ h. v)

  get-dropped :
      (c : SparseSet V) (e : ℕ)
      → IsSparse c
      → is_some (get e (dropped c)) ≡ (if entity == e then false else is_some (get e c))
  get-dropped c e v =
      if-rule (λ d. is_some (get e d) ≡ (if entity == e then false else is_some (get e c)))
        (has entity c) (λ h. ground (arith, ap is_some (get-remove c v entity e)))
        (λ h.
          ground (arith, h, has-get entity c v, ap (λ k. is_some (get k c)) {x = entity} {y = e}))

  module _ (s : Ecs V) (v : IsEcs s) where
    -- The set of a component before.
    before :
        (id : ℕ) (d : SparseSet V)
        → lookup id (remove_from_all entity s.components) ≡ some d
        → (c : SparseSet V) × (lookup id s.components ≡ some c) × (dropped c ≡ d)
    before id d h =
        Option-rule
          (λ o.
            o ≡ some d → (c : SparseSet V) × (lookup id s.components ≡ some c) × (dropped c ≡ d))
          (lookup id s.components) (λ no. λ e. absurd (let f : none ≡ some d = e in cc))
          (λ c found. λ e. (c, found, some-injective e))
          (sym (lookup-remove_from_all id s.components) ∙ h)

    mask_left :
        (e : ℕ)
        → get_entity_mask e (destroy_entity entity s)
          ≡ (if entity == e then [] else get_entity_mask e s)
    unfolding get_entity_mask destroy_entity
    mask_left e = ground (arith, lookup-erase entity e s.entities)

    mask-destroyed :
        (e i : ℕ)
        → test i (get_entity_mask e (destroy_entity entity s))
          ≡ (if entity == e then false else test i (get_entity_mask e s))
    unfolding test
    mask-destroyed e i =
        ap (test i) (mask_left e)
        ∙ if-rule (λ m. test i m ≡ (if entity == e then false else test i (get_entity_mask e s)))
            (entity == e) (λ h. ground (arith, h)) (λ h. ground (arith, h))

    pub destroy_entity-IsEcs : IsEcs (destroy_entity entity s)
    unfolding destroy_entity listed
    destroy_entity-IsEcs = record {
      top = v.top;
      index_only = v.index_only;
      bit = v.bit;
      masked = v.masked;
      apart = v.apart;
      known = λ id. ground (arith, lookup-remove_from_all id s.components, v.known id);
      sparse = λ id d h.
          let (c, found, is) = before id d h in
          subst IsSparse is (dropped-IsSparse c (v.sparse id c found));
      whole = λ e.
          subst IsBlocks (sym (mask_left e))
            (if-rule IsBlocks (entity == e) (λ i. tt) (λ i. v.whole e));
      below = λ e i h. ground (arith, mask-destroyed e i, v.below e i h);
      agree = λ id d e h.
          let (c, found, is) = before id d h in
          ap (λ g. is_some (get e g) || (e == 0 && false)) (sym is)
          ∙ ground (
            arith,
            get-dropped c e (v.sparse id c found),
            mask-destroyed e (v.bit id),
            v.agree id c e found,
          );
    }
