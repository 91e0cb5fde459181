-- ===== src/Sparse/Views.antt =====
-- What `put` of SparseView.hpp does to `at`.
use rtype.Base.{
  ℕ, ◌+◌, ◌<◌, ◌≡◌, ap, ◌∙◌, inl, inr, List, [], ◌∷◌, Option, none, some, false, not, ◌&&◌, ◌==◌,
  length, get_elem?, lookup, lookup-insert, length-append, Option-cases, if-rule, if◌then◌else◌,
  arith,
}
use rtype.Sparse.Dense.{get_elem?-push_back}
use rtype.Sparse.View.{SparseView, put_view, has_view, at}
use rtype.Sparse.Has.{inside}

module _ {T : Type 0} where
  -- Each index of the view is one of its values.
  abbrev pub IsView : SparseView T → Type 0
  IsView v = (key index : ℕ) → lookup key v.key_to_index ≡ some index → index < length v.values

  module _ (key : ℕ) (value : T) (v : SparseView T) (valid : IsView v) (j : ℕ) where
    lookup-put_view : lookup j (put_view key value v).key_to_index ≡ (
        if key == j && not (has_view key v)
        then some (length v.values)
        else lookup j v.key_to_index)
    unfolding put_view
    lookup-put_view =
        if-rule
          (λ (m : List (ℕ × ℕ)). lookup j m ≡ (
            if key == j && not (has_view key v)
            then some (length v.values)
            else lookup j v.key_to_index))
          (has_view key v) (λ h. ground (arith, h))
          (λ h.
            lookup-insert key j _ v.key_to_index
            ∙ ground (arith, h, length-append v.values (value ∷ [])))

    values-put_view :
        (k : ℕ)
        → get_elem? (put_view key value v).values k
          ≡ (if length v.values == k then some value else get_elem? v.values k)
    unfolding put_view
    values-put_view k = get_elem?-push_back v.values value k

    length-put_view : length (put_view key value v).values ≡ length v.values + 1
    unfolding put_view
    length-put_view = length-append v.values (value ∷ [])

    pub at-put_view :
        at j (put_view key value v)
        ≡ (if key == j && not (has_view key v) then some value else at j v)
    unfolding at
    at-put_view =
        ap
          (λ o. elim o [ none ↦ none | some index ↦ get_elem? (put_view key value v).values index ])
          lookup-put_view
        ∙ if-rule
            (λ (o : Option ℕ).
              elim o [ none ↦ none | some index ↦ get_elem? (put_view key value v).values index ]
              ≡ (if key == j && not (has_view key v) then some value else at j v))
            (key == j && not (has_view key v))
            (λ h. values-put_view (length v.values) ∙ ground (arith, h))
            (λ h. elim (Option-cases (lookup j v.key_to_index)) [
              | inl absent ↦ ground (arith, absent, h)
              | inr (index, there) ↦
                  ground (arith, there, h, values-put_view index, valid j index there)
            ])

  pub put_view-IsView :
      (key : ℕ) (value : T) (v : SparseView T) → IsView v → IsView (put_view key value v)
  put_view-IsView key value v valid j index h = ground (
    arith,
    lookup-put_view key value v valid j,
    h,
    valid j index,
    length-put_view key value v valid j,
  )

  pub at-has_view : (j : ℕ) (v : SparseView T) → IsView v → at j v ≡ none → has_view j v ≡ false
  unfolding at
  at-has_view j v valid h = elim (Option-cases (lookup j v.key_to_index)) [
    | inl absent ↦ ground (arith, absent)
    | inr (index, there) ↦
        let (x, found) = inside v.values index (valid j index there) in
        ground (arith, h, there, found)
  ]
