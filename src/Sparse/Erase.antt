-- ===== src/Sparse/Erase.antt =====
-- `erase` of SparseView.hpp: what becomes of the list of the keys.
use rtype.Base.{ℕ, ◌-◌, ◌≡◌, List, [], ◌∷◌, ◌++◌, some, length, lookup, get_or}
use rtype.Sparse.View.{SparseView}

module _ {T : Type 0} (v : SparseView T) (front : List ℕ) (last key index : ℕ)
    (there : lookup key v.key_to_index ≡ some index)
    (listed : v.index_to_key ≡ front ++ last ∷ []) where
  abbrev last_key : ℕ
  last_key = get_or v.index_to_key (length v.values - 1) 0
