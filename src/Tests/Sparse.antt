-- ===== src/Tests/Sparse.antt =====
-- lib/rtecs/include/rtecs/sparse/set/SparseSet.hpp on a short run of operations.
use rtype.Base.{ℕ, ◌≡◌, refl, List, [], ◌∷◌, none, some, get_elem?, map, if◌then◌else◌}
use rtype.Sparse.Pages.{slot, grow, set_slot, empty_page}
use rtype.Sparse.Dense.{remove_swap, swap_elems}
use rtype.Sparse.Set.{SparseSet, new_set, get, put, remove}
use rtype.Sparse.View.{SparseView, at}
use rtype.Sparse.Refines.{
  Operation, putting, removing, run, step, run_map, get-run, run-IsSparse, new_set-IsSparse,
}
use rtype.Sparse.Group.{in_all, new_group, has_group}
use rtype.Sparse.Filled.{get_from}
use rtype.Sparse.Members.{at-new_group}

-- The entity 5 leaves and 9000, which lies on another page, takes its place.
abbrev operations : List (Operation ℕ)
operations = putting 5 50 ∷ putting 7 70 ∷ putting 9000 90 ∷ removing 5 ∷ []

get-run_example : get 9000 (run operations (new_set 1)) ≡ run_map operations (λ i. none) 9000
get-run_example = get-run 1 operations 9000

-- The last entity takes the place of the one that leaves.
abbrev few_operations : List (Operation ℕ)
few_operations = putting 1 50 ∷ putting 0 70 ∷ removing 1 ∷ []

entities-run : get_elem? (run few_operations (new_set 1)).entities 0 ≡ some 0
unfolding run step put remove grow slot set_slot empty_page remove_swap swap_elems
entities-run = refl

-- The keys 4 and 5, put in this order.
abbrev two_keys : SparseView ℕ
two_keys = record {
  key_to_index = (4, 0) ∷ (5, 1) ∷ [];
  values = 40 ∷ 50 ∷ [];
  index_to_key = 4 ∷ 5 ∷ [];
}

-- The entity 7 is in both sets, and 9000 in the first one only.
abbrev larger : SparseSet ℕ
larger = run operations (new_set 1)

abbrev shorter : SparseSet ℕ
shorter = run (putting 7 71 ∷ []) (new_set 2)

at-new_group_example :
    let sets = some larger ∷ some shorter ∷ [] in
    (has_group 7 (new_group (some larger) (some shorter ∷ [])) ≡ in_all 7 sets)
    × (map (at 7) (new_group (some larger) (some shorter ∷ []))
        ≡ map (λ s. if in_all 7 sets then get_from 7 s else none) sets)
at-new_group_example = at-new_group (some larger) (some shorter ∷ []) 7 (
  run-IsSparse operations (new_set 1) (new_set-IsSparse 1),
  (run-IsSparse (putting 7 71 ∷ []) (new_set 2) (new_set-IsSparse 2), tt),
)
