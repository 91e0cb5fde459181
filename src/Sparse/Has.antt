-- ===== src/Sparse/Has.antt =====
-- `has` and `get` of SparseSet.hpp.
use rtype.Base.{
  ℕ, zero, suc, ◌<◌, ◌≡◌, refl, sym, ap, ◌∙◌, inl, inr, List, [], ◌∷◌, Option, none, some, Bool,
  true, false, length, get_elem?, Option-cases, arith,
}
use rtype.Sparse.Pages.{slot}
use rtype.Sparse.Links.{slot-lt}
use rtype.Sparse.Set.{SparseSet, get, has, IsSparse, get-some, get-none}

abbrev pub is_some : {A : Type 0} → Option A → Bool
is_some none = false
is_some (some a) = true

pub inside :
    {A : Type 0} (xs : List A) (k : ℕ) → k < length xs → (x : A) × (get_elem? xs k ≡ some x)
inside [] k h = elim h [ ]
inside (x ∷ xs) zero h = (x, refl)
inside (x ∷ xs) (suc k) h = inside xs k (omega arith)

-- `has` answers whether `get` finds a component.
pub has-get : {V : Type 0} (e : ℕ) (c : SparseSet V) → IsSparse c → has e c ≡ is_some (get e c)
unfolding has
has-get e c v = elim (Option-cases (slot c.sparse_pages e)) [
  | inl absent ↦ rw (absent, has) (ap is_some (sym (get-none c e absent)))
  | inr (k, there) ↦
      let in_use =
        slot-lt (slot c.sparse_pages) (slot c.sparse_pages) c.entities v.linked e k there in
      let (x, found) = inside c.dense k (omega (arith, v.same_length, in_use)) in
      rw (there, has) (sym (ap is_some (get-some c e k there ∙ found)))
]
