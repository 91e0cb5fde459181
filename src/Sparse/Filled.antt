-- ===== src/Sparse/Filled.antt =====
-- The views of SparseGroup.hpp while its constructor fills them.
use mathlib.Core.Path.{subst}
use rtype.Base.{
  lookup, ℕ, ◌≡◌, refl, ap, ap₂, inl, inr, List, [], ◌∷◌, map, Option, none, some, Bool, true,
  false, ◌&&◌, ◌||◌, ◌==◌, All, get_elem?, Option-cases, if-rule, Option-rule, if◌then◌else◌, arith,
  suc, zero,
}
use rtype.BitSet.Serialize.{listed}
use rtype.Sparse.Pages.{slot}
use rtype.Sparse.Set.{SparseSet, get, has, IsSparse}
use rtype.Sparse.View.{SparseView, new_view, has_view, at}
use rtype.Sparse.Has.{has-get}
use rtype.Sparse.Views.{IsView, at-put_view, put_view-IsView, at-has_view}
use rtype.Sparse.Group.{smaller, min_element, add_entity, in_all, add_to_all, fill}

listed-get_elem? : (xs : List ℕ) (k j : ℕ) → get_elem? xs k ≡ some j → listed j xs ≡ true
unfolding listed
listed-get_elem? [] k j h = absurd (let e : none ≡ some j = h in cc)
listed-get_elem? (x ∷ xs) zero j h = ground (arith, h)
listed-get_elem? (x ∷ xs) (suc k) j h = ground (arith, listed-get_elem? xs k j h)

module _ {T : Type 0} where
  -- What a set, if there is one, has for an entity.
  unfoldable pub get_from : ℕ → Option (SparseSet T) → Option T
  get_from e none = none
  get_from e (some set) = get e set

  abbrev pub IsWhole : Option (SparseSet T) → Type 0
  IsWhole none = Unit
  IsWhole (some set) = IsSparse set

  -- The views hold for the entity what the sets have, or nothing.
  unfoldable pub Filled : ℕ → Bool → List (Option (SparseSet T)) → List (SparseView T) → Type 0
  Filled e b [] [] = Unit
  Filled e b [] (v ∷ vs) = ⊥
  Filled e b (s ∷ ss) [] = ⊥
  Filled e b (s ∷ ss) (v ∷ vs) =
      IsView v × (at e v ≡ (if b then get_from e s else none)) × Filled e b ss vs

  pub has-listed :
      (e : ℕ) (set : SparseSet T) → IsSparse set → has e set ≡ true → listed e set.entities ≡ true
  unfolding has
  has-listed e set v h = elim (Option-cases (slot set.sparse_pages e)) [
    | inl absent ↦ absurd (ground (arith, h, absent))
    | inr (k, there) ↦ listed-get_elem? set.entities k e (v.linked.entity_of e k there)
  ]

  -- An entity that all the sets hold is in the smallest one.
  pub driver-has :
      (e : ℕ) (first : Option (SparseSet T)) (rest : List (Option (SparseSet T)))
      → All IsWhole (first ∷ rest)
      → in_all e (first ∷ rest) ≡ true
      → (d : SparseSet T) × (min_element first rest ≡ some d) × IsSparse d × (has e d ≡ true)
  unfolding in_all min_element
  driver-has e none rest v h = absurd (let f : false ≡ true = h in cc)
  driver-has e (some a) [] v h = (a, refl, v.0, ground (arith, h))
  driver-has e (some a) (none ∷ rest) v h = absurd (ground (arith, h))
  driver-has e (some a) (some b ∷ rest) v h =
      if-rule
        (λ t. (d : SparseSet T) × (min_element t rest ≡ some d) × IsSparse d × (has e d ≡ true))
        (smaller (some b) (some a)) (λ less. driver-has e (some b) rest v.1 (ground (arith, h)))
        (λ more. driver-has e (some a) rest (v.0, v.1.1) (ground (arith, h)))

  module _ (e k : ℕ) (b : Bool) where
    -- A view that takes an entity of its set.
    add_entity-at :
        (set : SparseSet T) (v : SparseView T)
        → IsSparse set
        → has k set ≡ true
        → IsView v
        → at e v ≡ (if b then get e set else none)
        → IsView (add_entity k v set)
          × (at e (add_entity k v set) ≡ (if b || k == e then get e set else none))
    unfolding add_entity
    add_entity-at set v w held valid before =
        Option-rule (λ t. IsView t × (at e t ≡ (if b || k == e then get e set else none)))
          (get k set) (λ absent. absurd (ground (arith, has-get k set w, held, absent)))
          (λ x there. (
            put_view-IsView k x v valid,
            ground (
              arith,
              at-put_view k x v valid e,
              before,
              there,
              at-has_view e v valid,
              ap (λ j. get j set) {x = k} {y = e},
              ap (λ j. has_view j v) {x = k} {y = e},
            ),
          ))

    add_to_all-Filled :
        (sets : List (Option (SparseSet T))) (views : List (SparseView T))
        → All IsWhole sets
        → in_all k sets ≡ true
        → Filled e b sets views
        → Filled e (b || k == e) sets (add_to_all k sets views)
    unfolding Filled add_to_all in_all get_from
    add_to_all-Filled [] [] w h f = tt
    add_to_all-Filled [] (v ∷ vs) w h f = f
    add_to_all-Filled (s ∷ ss) [] w h f = elim f [ ]
    add_to_all-Filled (none ∷ ss) (v ∷ vs) w h f = absurd (let g : false ≡ true = h in cc)
    add_to_all-Filled (some s ∷ ss) (v ∷ vs) w h (valid, before, rest) =
        let (valid', after) = add_entity-at s v w.0 (ground (arith, h)) valid before in
        (valid', after, add_to_all-Filled ss vs w.1 (ground (arith, h)) rest)

  pub fill-Filled :
      (e : ℕ) (b : Bool) (es : List ℕ) (sets : List (Option (SparseSet T)))
      (views : List (SparseView T))
      → All IsWhole sets
      → Filled e b sets views
      → Filled e (b || (listed e es && in_all e sets)) sets (fill es sets views)
  unfolding fill listed
  fill-Filled e b [] sets views w f = subst (λ c. Filled e c sets views) (ground arith) f
  fill-Filled e b (k ∷ es) sets views w f =
      let same = ap (λ j. in_all j sets) {x = k} {y = e} in
      if-rule (λ vs. Filled e (b || (listed e (k ∷ es) && in_all e sets)) sets (fill es sets vs))
        (in_all k sets)
        (λ h.
          subst (λ c. Filled e c sets (fill es sets (add_to_all k sets views)))
            (ground (arith, h, same))
            (fill-Filled e (b || k == e) es sets _ w (add_to_all-Filled e k b sets views w h f)))
        (λ h.
          subst (λ c. Filled e c sets (fill es sets views)) (ground (arith, h, same))
            (fill-Filled e b es sets views w f))

  pub empty-Filled :
      (e : ℕ) (sets : List (Option (SparseSet T))) → Filled e false sets (map (λ s. new_view) sets)
  unfolding Filled at lookup
  empty-Filled e [] = tt
  empty-Filled e (s ∷ sets) =
      (λ key index h. absurd (let g : none ≡ some index = h in cc), refl, empty-Filled e sets)

  pub map-Filled :
      (e : ℕ) (b : Bool) (sets : List (Option (SparseSet T))) (views : List (SparseView T))
      → Filled e b sets views
      → map (at e) views ≡ map (λ s. if b then get_from e s else none) sets
  unfolding Filled
  map-Filled e b [] [] f = refl
  map-Filled e b [] (v ∷ vs) f = elim f [ ]
  map-Filled e b (s ∷ ss) [] f = elim f [ ]
  map-Filled e b (s ∷ ss) (v ∷ vs) (valid, here, rest) =
      ap₂ (λ x xs. x ∷ xs) here (map-Filled e b ss vs rest)
