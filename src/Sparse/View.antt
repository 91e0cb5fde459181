-- ===== src/Sparse/View.antt =====
-- lib/rtecs/include/rtecs/sparse/view/SparseView.hpp: values by key, with the list of the keys.
use rtype.Base.{
  ℕ, ◌-◌, List, [], ◌∷◌, ◌++◌, Option, none, some, Bool, length, get_elem?, get_or, lookup, insert,
  erase, lookup_or, contains_key, if◌then◌else◌,
}
use rtype.Sparse.Dense.{swap_elems, pop_back}

pub record SparseView (T : Type 0) : Type 0 where
  pub key_to_index : List (ℕ × ℕ)
  pub values : List T
  pub index_to_key : List ℕ

module _ {T : Type 0} where
  abbrev pub new_view : SparseView T
  new_view = record { key_to_index = []; values = []; index_to_key = [] }

  -- `emplace` keeps the entry of a key that is there.
  unfoldable pub put_view : ℕ → T → SparseView T → SparseView T
  put_view key value v = record {
    values = v.values ++ value ∷ [];
    key_to_index =
        if contains_key key v.key_to_index
        then v.key_to_index
        else insert key (length (v.values ++ value ∷ []) - 1) v.key_to_index;
    index_to_key = v.index_to_key ++ key ∷ [];
  }

  -- `operator[]` makes an entry of 0 for a last key that has none.
  unfoldable pub erase_view : ℕ → SparseView T → SparseView T
  erase_view key v = elim (lookup key v.key_to_index) [
    | none ↦ v
    | some index ↦
        let last_key = get_or v.index_to_key (length v.values - 1) 0 in
        let last_index = lookup_or last_key 0 v.key_to_index in
        record {
          key_to_index = erase key (insert last_key index (insert key last_index v.key_to_index));
          values = pop_back (swap_elems v.values index (length v.values - 1));
          index_to_key = pop_back v.index_to_key;
        }
  ]

  abbrev pub has_view : ℕ → SparseView T → Bool
  has_view key v = contains_key key v.key_to_index

  unfoldable pub at : ℕ → SparseView T → Option T
  at key v = elim (lookup key v.key_to_index) [
    | none ↦ none
    | some index ↦ get_elem? v.values index
  ]

  abbrev pub get_keys : SparseView T → List ℕ
  get_keys v = v.index_to_key
