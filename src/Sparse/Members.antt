-- ===== src/Sparse/Members.antt =====
-- What SparseGroup.hpp collects from its sets.
use mathlib.Core.Path.{subst}
use rtype.Base.{
  lookup, ℕ, ◌≡◌, sym, ap, ◌∙◌, inl, inr, List, [], ◌∷◌, map, Option, none, some, true, false, ◌&&◌,
  All, Bool-cases, Option-cases, some-injective, Option-rule, if◌then◌else◌, arith,
}
use rtype.BitSet.Serialize.{listed}
use rtype.Sparse.Set.{SparseSet}
use rtype.Sparse.View.{SparseView, new_view, has_view, at}
use rtype.Sparse.Has.{is_some, has-get}
use rtype.Sparse.Views.{IsView, at-has_view}
use rtype.Sparse.Filled.{
  Filled, IsWhole, get_from, has-listed, driver-has, fill-Filled, empty-Filled, map-Filled,
}
use rtype.Sparse.Group.{min_element, in_all, fill, new_group, has_group}

module _ {T : Type 0} where
  module _ (first : Option (SparseSet T)) (rest : List (Option (SparseSet T))) (e : ℕ)
      (w : All IsWhole (first ∷ rest)) where
    nothing_in : min_element first rest ≡ none → false ≡ in_all e (first ∷ rest)
    nothing_in absent = elim (Bool-cases (in_all e (first ∷ rest))) [
      | inl h ↦
          let (d, is, v, held) = driver-has e first rest w h in
          absurd (let f : none ≡ some d = sym absent ∙ is in cc)
      | inr h ↦ sym h
    ]

    all_in :
        (d : SparseSet T)
        → min_element first rest ≡ some d
        → (listed e d.entities && in_all e (first ∷ rest)) ≡ in_all e (first ∷ rest)
    all_in d there = elim (Bool-cases (in_all e (first ∷ rest))) [
      | inl h ↦
          let (d', is, v, held) = driver-has e first rest w h in
          let in_driver = ap (λ c. listed e c.entities) (some-injective (sym is ∙ there)) in
          ground (arith, h, sym in_driver ∙ has-listed e d' v held)
      | inr h ↦ ground (arith, h)
    ]

  new_group-Filled :
      (first : Option (SparseSet T)) (rest : List (Option (SparseSet T))) (e : ℕ)
      → All IsWhole (first ∷ rest)
      → Filled e (in_all e (first ∷ rest)) (first ∷ rest) (new_group first rest)
  unfolding new_group
  new_group-Filled first rest e w =
      let sets = first ∷ rest in
      let views = map (λ s. new_view) sets in
      let smallest = driver-has e first rest w in
      Option-rule (λ g. Filled e (in_all e sets) sets g) (min_element first rest)
        (λ absent.
          subst (λ c. Filled e c sets views) (nothing_in first rest e w absent)
            (empty-Filled e sets))
        (λ d there.
          subst (λ c. Filled e c sets (fill d.entities sets views)) (all_in first rest e w d there)
            (fill-Filled e false d.entities sets views w (empty-Filled e sets)))

  in_all-get :
      (e : ℕ) (first : Option (SparseSet T)) (rest : List (Option (SparseSet T)))
      → All IsWhole (first ∷ rest)
      → in_all e (first ∷ rest) ≡ true
      → is_some (get_from e first) ≡ true
  unfolding in_all get_from
  in_all-get e none rest w h = absurd (let g : false ≡ true = h in cc)
  in_all-get e (some s) rest w h = ground (arith, has-get e s w.0, h)

  has_view-at : (e : ℕ) (v : SparseView T) → IsView v → has_view e v ≡ is_some (at e v)
  unfolding at
  has_view-at e v valid = elim (Option-cases (lookup e v.key_to_index)) [
    | inl absent ↦ ground (arith, absent)
    | inr (index, there) ↦ ground (arith, there, at-has_view e v valid)
  ]

  has_group-Filled :
      (e : ℕ) (first : Option (SparseSet T)) (rest : List (Option (SparseSet T)))
      (views : List (SparseView T))
      → All IsWhole (first ∷ rest)
      → Filled e (in_all e (first ∷ rest)) (first ∷ rest) views
      → has_group e views ≡ in_all e (first ∷ rest)
  unfolding Filled has_group
  has_group-Filled e first rest [] w f = elim f [ ]
  has_group-Filled e first rest (v ∷ vs) w (valid, here, others) =
      ground (arith, has_view-at e v valid, here, in_all-get e first rest w)

  -- For well-formed sets, of which any may be missing, the group has an entity exactly when no set is
  -- missing and each holds it, and then each of its views has the component that its set has for the
  -- entity; for any other entity every view has nothing.
  pub at-new_group :
      (first : Option (SparseSet T)) (rest : List (Option (SparseSet T))) (e : ℕ)
      → All IsWhole (first ∷ rest)
      → let sets = first ∷ rest in
        (has_group e (new_group first rest) ≡ in_all e sets)
        × (map (at e) (new_group first rest)
            ≡ map (λ s. if in_all e sets then get_from e s else none) sets)
  at-new_group first rest e w =
      let filled = new_group-Filled first rest e w in
      (
        has_group-Filled e first rest (new_group first rest) w filled,
        map-Filled e _ (first ∷ rest) (new_group first rest) filled,
      )
