-- ===== src/Sparse/Set.antt =====
-- lib/rtecs/include/rtecs/sparse/set/SparseSet.hpp: the components of one type by entity ID.
use rtype.Base.{
  ℕ, ◌-◌, ◌≡◌, refl, sym, ◌∙◌, inl, inr, List, [], ◌∷◌, ◌++◌, Option, none, some, Bool, true, false,
  ltb, length, get_elem?, get_or, set, Option-cases, if◌then◌else◌,
}
use rtype.Sparse.Pages.{Pages, slot, grow, set_slot, IsPages}
use rtype.Sparse.Dense.{remove_swap}
use rtype.Sparse.Links.{IsLinked}

pub record SparseSet (T : Type 0) : Type 0 where
  pub id : ℕ
  pub dense : List T
  pub entities : List ℕ
  pub sparse_pages : Pages

module _ {T : Type 0} where
  abbrev pub new_set : ℕ → SparseSet T
  new_set id = record { id = id; dense = []; entities = []; sparse_pages = [] }

  unfoldable pub get : ℕ → SparseSet T → Option T
  get id s = elim (slot s.sparse_pages id) [ none ↦ none | some k ↦ get_elem? s.dense k ]

  unfoldable pub has : ℕ → SparseSet T → Bool
  has id s = elim (slot s.sparse_pages id) [ none ↦ false | some k ↦ true ]

  unfoldable pub put : ℕ → T → SparseSet T → SparseSet T
  put id component s =
      let pages = grow s.sparse_pages id in
      elim (slot pages id) [
        | none ↦ record s {
          dense = s.dense ++ component ∷ [];
          entities = s.entities ++ id ∷ [];
          sparse_pages = set_slot pages id (some (length (s.dense ++ component ∷ []) - 1));
        }
        | some k ↦ record s {
          dense = set s.dense k component;
          entities = set s.entities k id;
          sparse_pages = pages;
        }
      ]

  -- The target's slot is emptied, then the entity that took its place is pointed at it.
  unfoldable pub remove : ℕ → SparseSet T → SparseSet T
  remove id s = elim (slot s.sparse_pages id) [
    | none ↦ s
    | some k ↦
        let moved = get_or s.entities (length s.entities - 1) 0 in
        let dense = remove_swap k s.dense in
        let pages = set_slot s.sparse_pages id none in
        record s {
          dense = dense;
          entities = remove_swap k s.entities;
          sparse_pages = if ltb k (length dense) then set_slot pages moved (some k) else pages;
        }
  ]

  unfoldable pub clear : SparseSet T → SparseSet T
  clear s = record s { dense = []; entities = []; sparse_pages = [] }

  abbrev pub size : SparseSet T → ℕ
  size s = length s.dense

pub record IsSparse {T : Type 0} (s : SparseSet T) : Type 0 where
  pub full : IsPages s.sparse_pages
  pub same_length : length s.dense ≡ length s.entities
  pub linked : IsLinked (slot s.sparse_pages) s.entities

module _ {T : Type 0} (s : SparseSet T) (j : ℕ) where
  pub get-some : (k : ℕ) → slot s.sparse_pages j ≡ some k → get j s ≡ get_elem? s.dense k
  unfolding get
  get-some k e = rw (e, get) refl

  pub get-none : slot s.sparse_pages j ≡ none → get j s ≡ none
  unfolding get
  get-none e = rw (e, get) refl

-- The slot of an ID that stays, and what it holds before and after.
pub get-kept :
    {T : Type 0} (s s' : SparseSet T) (j : ℕ)
    → slot s'.sparse_pages j ≡ slot s.sparse_pages j
    → ((k : ℕ) → slot s.sparse_pages j ≡ some k → get_elem? s'.dense k ≡ get_elem? s.dense k)
    → get j s' ≡ get j s
get-kept s s' j same_slot same = elim (Option-cases (slot s.sparse_pages j)) [
  | inl nothing ↦ get-none s' j (same_slot ∙ nothing) ∙ sym (get-none s j nothing)
  | inr (k, there) ↦ get-some s' j k (same_slot ∙ there) ∙ same k there ∙ sym (get-some s j k there)
]
