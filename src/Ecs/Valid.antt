-- ===== src/Ecs/Valid.antt =====
-- The invariant of ECS.hpp: the mask of an entity holds the index of a component exactly when the set
-- of the component holds the entity.
use rtype.Base.{
  ℕ, ◌≤◌, ◌<◌, ◌≡◌, refl, List, [], none, some, true, false, ◌&&◌, ◌||◌, ◌==◌, lookup, contains_key,
  arith,
}
use rtype.BitSet.Blocks.{DynamicBitSet, test}
use rtype.BitSet.Test.{IsBlocks}
use rtype.BitSet.Serialize.{listed}
use rtype.Sparse.Set.{SparseSet, get, IsSparse}
pub use rtype.Sparse.Has.{is_some, has-get}
use rtype.Ecs.Registry.{Ecs, new_ecs, get_entity_mask}
use rtype.Ecs.MaskIndex.{IsOnly, first-IsOnly}

-- The invariant, but for the components `pending` that the mask of the entity `e0` already shows.
pub record IsEcsBut {V : Type 0} (e0 : ℕ) (pending : List ℕ) (s : Ecs V) : Type 0 where
  pub top : ℕ
  pub index_only : IsOnly top s.component_mask_index
  -- The index of each component.
  pub bit : ℕ → ℕ
  pub masked :
      (id : ℕ) (m : DynamicBitSet)
      → lookup id s.components_masks ≡ some m
      → IsOnly (bit id) m × (bit id ≤ top)
  pub apart :
      (id jd : ℕ)
      → contains_key id s.components_masks ≡ true
      → contains_key jd s.components_masks ≡ true
      → bit id ≡ bit jd
      → id ≡ jd
  pub known : (id : ℕ) → contains_key id s.components ≡ contains_key id s.components_masks
  pub sparse : (id : ℕ) (c : SparseSet V) → lookup id s.components ≡ some c → IsSparse c
  pub whole : (e : ℕ) → IsBlocks (get_entity_mask e s)
  pub below : (e i : ℕ) → top < i → test i (get_entity_mask e s) ≡ false
  pub agree :
      (id : ℕ) (c : SparseSet V) (e : ℕ)
      → lookup id s.components ≡ some c
      → (is_some (get e c) || (e == e0 && listed id pending)) ≡ test (bit id) (get_entity_mask e s)

abbrev pub IsEcs : {V : Type 0} → Ecs V → Type 0
IsEcs s = IsEcsBut 0 [] s

pub new_ecs-IsEcs : {V : Type 0} → IsEcs (new_ecs {V = V})
unfolding new_ecs lookup get_entity_mask test
new_ecs-IsEcs = record {
  top = 0;
  index_only = first-IsOnly;
  bit = λ id. 0;
  masked = λ id m e. absurd (let no : none ≡ some m = e in cc);
  apart = λ id jd e f g. absurd (let no : false ≡ true = e in cc);
  known = λ id. refl;
  sparse = λ id c e. absurd (let no : none ≡ some c = e in cc);
  whole = λ e. tt;
  below = λ e i h. ground arith;
  agree = λ id c e f. absurd (let no : none ≡ some c = f in cc);
}
