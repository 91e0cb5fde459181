-- ===== src/Sparse/Refines.antt =====
-- SparseSet.hpp as an implementation of a finite map from entities to components.
use rtype.Base.{
  ℕ, ◌≡◌, refl, sym, ◌∙◌, List, [], ◌∷◌, Option, none, some, ◌==◌, get_elem?, if◌then◌else◌, arith,
}
use rtype.Sparse.Pages.{slot, slot-eq}
use rtype.Sparse.Links.{IsLinked}
use rtype.Sparse.Set.{SparseSet, new_set, get, put, remove, clear, get-some, get-none, IsSparse}
use rtype.Sparse.Contents.{put-IsSparse, get-put}
use rtype.Sparse.Removal.{remove-IsSparse, get-remove}

-- The operations that change a set.
pub data Operation (T : Type 0) : Type 0 where
  putting : ℕ → T → Operation T
  removing : ℕ → Operation T
  clearing : Operation T

slot-nil : (j : ℕ) → slot [] j ≡ none
slot-nil j = slot-eq [] j

empty-IsLinked : IsLinked (slot []) []
empty-IsLinked = record {
  entity_of = λ id k h. absurd (let e : none ≡ some k = sym (slot-nil id) ∙ h in cc);
  slot_of = λ id k h. absurd (let e : none ≡ some id = h in cc);
}

module _ {T : Type 0} where
  unfoldable pub step : Operation T → SparseSet T → SparseSet T
  step (putting id component) s = put id component s
  step (removing id) s = remove id s
  step clearing s = clear s

  unfoldable pub run : List (Operation T) → SparseSet T → SparseSet T
  run [] s = s
  run (op ∷ ops) s = run ops (step op s)

  -- What the operations mean for a map.
  unfoldable pub step_map : Operation T → (ℕ → Option T) → ℕ → Option T
  step_map (putting id component) m j = if id == j then some component else m j
  step_map (removing id) m j = if id == j then none else m j
  step_map clearing m j = none

  unfoldable pub run_map : List (Operation T) → (ℕ → Option T) → ℕ → Option T
  run_map [] m = m
  run_map (op ∷ ops) m = run_map ops (step_map op m)

  clear-IsSparse : (s : SparseSet T) → IsSparse (clear s)
  unfolding clear
  clear-IsSparse s = record { full = tt; same_length = refl; linked = empty-IsLinked }

  pub new_set-IsSparse : (id : ℕ) → IsSparse (new_set {T = T} id)
  new_set-IsSparse id = record { full = tt; same_length = refl; linked = empty-IsLinked }

  get-clear : (s : SparseSet T) (j : ℕ) → get j (clear s) ≡ none
  unfolding clear
  get-clear s j = get-none (clear s) j (slot-nil j)

  step-IsSparse : (op : Operation T) (s : SparseSet T) → IsSparse s → IsSparse (step op s)
  unfolding step
  step-IsSparse (putting id component) s v = put-IsSparse s v id component
  step-IsSparse (removing id) s v = remove-IsSparse s v id
  step-IsSparse clearing s v = clear-IsSparse s

  pub run-IsSparse :
      (ops : List (Operation T)) (s : SparseSet T) → IsSparse s → IsSparse (run ops s)
  unfolding run
  run-IsSparse [] s v = v
  run-IsSparse (op ∷ ops) s v = run-IsSparse ops (step op s) (step-IsSparse op s v)

  get-step :
      (op : Operation T) (s : SparseSet T) (m : ℕ → Option T)
      → IsSparse s
      → ((j : ℕ) → get j s ≡ m j)
      → (j : ℕ) → get j (step op s) ≡ step_map op m j
  unfolding step step_map
  get-step (putting id component) s m v same j = ground (arith, get-put s v id component j, same j)
  get-step (removing id) s m v same j = ground (arith, get-remove s v id j, same j)
  get-step clearing s m v same j = get-clear s j

  get-run_from :
      (ops : List (Operation T)) (s : SparseSet T) (m : ℕ → Option T)
      → IsSparse s
      → ((j : ℕ) → get j s ≡ m j)
      → (j : ℕ) → get j (run ops s) ≡ run_map ops m j
  unfolding run run_map
  get-run_from [] s m v same j = same j
  get-run_from (op ∷ ops) s m v same j =
      get-run_from ops (step op s) (step_map op m) (step-IsSparse op s v) (get-step op s m v same) j

  pub get-new_set : (id j : ℕ) → get j (new_set {T = T} id) ≡ none
  get-new_set id j = get-none (new_set id) j (slot-nil j)

  -- After any run of `put`, `remove` and `clear` on a new set, `get` answers as the finite map on which
  -- the same operations ran.
  pub get-run :
      (id : ℕ) (ops : List (Operation T)) (j : ℕ)
      → get j (run ops (new_set id)) ≡ run_map ops (λ i. none) j
  get-run id ops j =
      get-run_from ops (new_set id) (λ i. none) (new_set-IsSparse id) (get-new_set id) j

  -- After any run, the list of entities names each entity once, at the place where the dense array has
  -- its component.
  run-listed :
      (id : ℕ) (ops : List (Operation T)) (i j entity : ℕ)
      → let s = run ops (new_set id) in
        get_elem? s.entities i ≡ some entity
        → get_elem? s.entities j ≡ some entity
        → (i ≡ j) × (get entity s ≡ get_elem? s.dense i)
  run-listed id ops i j entity at_i at_j =
      let s = run ops (new_set id) in
      let v = run-IsSparse ops (new_set id) (new_set-IsSparse id) in
      let slot_i = v.linked.slot_of entity i at_i in
      (ground (arith, slot_i, v.linked.slot_of entity j at_j), get-some s entity i slot_i)
