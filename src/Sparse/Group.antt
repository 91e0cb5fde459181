-- ===== src/Sparse/Group.antt =====
-- lib/rtecs/include/rtecs/sparse/group/SparseGroup.hpp: the entities that each of several sets holds.
-- A set that is missing is a component that is not registered. A view of the group holds references
-- into a set, which are the values that they reach when the group is made.
use rtype.Base.{
  ℕ, List, [], ◌∷◌, map, Option, none, some, Bool, true, false, ◌&&◌, ltb, if◌then◌else◌,
}
use rtype.Sparse.Set.{SparseSet, get, has, size}
use rtype.Sparse.View.{SparseView, new_view, put_view, has_view, get_keys}

module _ {T : Type 0} where
  -- The order of `std::min_element`.
  unfoldable pub smaller : Option (SparseSet T) → Option (SparseSet T) → Bool
  smaller none b = false
  smaller (some a) none = false
  smaller (some a) (some b) = ltb (size a) (size b)

  -- `std::min_element`, with the smallest set so far.
  unfoldable pub min_element :
      Option (SparseSet T) → List (Option (SparseSet T)) → Option (SparseSet T)
  min_element smallest [] = smallest
  min_element smallest (set ∷ sets) =
      min_element (if smaller set smallest then set else smallest) sets

  unfoldable pub add_entity : ℕ → SparseView T → SparseSet T → SparseView T
  add_entity entity view set = elim (get entity set) [
    | none ↦ view
    | some component ↦ put_view entity component view
  ]

  -- `isValid` of an entity.
  unfoldable pub in_all : ℕ → List (Option (SparseSet T)) → Bool
  in_all entity [] = true
  in_all entity (none ∷ sets) = false
  in_all entity (some set ∷ sets) = has entity set && in_all entity sets

  -- A valid entity has no set that is missing.
  unfoldable pub add_to_all :
      ℕ → List (Option (SparseSet T)) → List (SparseView T) → List (SparseView T)
  add_to_all entity [] views = views
  add_to_all entity (set ∷ sets) [] = []
  add_to_all entity (none ∷ sets) (view ∷ views) = view ∷ add_to_all entity sets views
  add_to_all entity (some set ∷ sets) (view ∷ views) =
      add_entity entity view set ∷ add_to_all entity sets views

  unfoldable pub fill :
      List ℕ → List (Option (SparseSet T)) → List (SparseView T) → List (SparseView T)
  fill [] sets views = views
  fill (entity ∷ entities) sets views =
      fill entities sets (if in_all entity sets then add_to_all entity sets views else views)

  -- The constructor, for at least one set.
  unfoldable pub new_group :
      Option (SparseSet T) → List (Option (SparseSet T)) → List (SparseView T)
  new_group first rest =
      let views = map (λ set. new_view) (first ∷ rest) in
      elim (min_element first rest) [
        | none ↦ views
        | some driver ↦ fill driver.entities (first ∷ rest) views
      ]

  -- `has` asks the first view.
  unfoldable pub has_group : ℕ → List (SparseView T) → Bool
  has_group entity [] = false
  has_group entity (view ∷ views) = has_view entity view

  unfoldable get_entities : List (SparseView T) → List ℕ
  get_entities [] = []
  get_entities (view ∷ views) = get_keys view
