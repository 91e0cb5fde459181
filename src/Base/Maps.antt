-- ===== src/Base/Maps.antt =====
-- std::map with unsigned keys: an association list in key order.
use Prim.Native.Nat.{ℕ, ◌≤◌, ◌<◌}
use mathlib.Core.Path.{◌≡◌, refl}
use mathlib.Core.Bool.{Bool, true, false}
use mathlib.Core.Option.{Option, none, some}
use mathlib.Core.List.{List, [], ◌∷◌}
use native.Mathlib.Omega.{arith}
use rtype.Base.Lists.{length}
use mathlib.Core.Logic.{inl, inr, ◌≢◌}
use rtype.Base.Tests.{◌==◌, ltb, if◌then◌else◌, Bool-cases}

module _ {ℓ} {V : Type ℓ} where
  unfoldable pub lookup : ℕ → List (ℕ × V) → Option V
  lookup k [] = none
  lookup k ((j, v) ∷ m) = if j == k then some v else lookup k m

  -- `m[k] = v`
  unfoldable pub insert : ℕ → V → List (ℕ × V) → List (ℕ × V)
  insert k v [] = (k, v) ∷ []
  insert k v ((j, w) ∷ m) =
      let rest = insert k v m in
      if j == k then (k, v) ∷ m else if ltb k j then (k, v) ∷ (j, w) ∷ m else (j, w) ∷ rest

  unfoldable pub erase : ℕ → List (ℕ × V) → List (ℕ × V)
  erase k [] = []
  erase k ((j, w) ∷ m) = let rest = erase k m in if j == k then rest else (j, w) ∷ rest

  -- `m[k]`, with the value a missing key is given.
  abbrev pub lookup_or : ℕ → V → List (ℕ × V) → V
  lookup_or k d m = elim (lookup k m) [ none ↦ d | some v ↦ v ]

  abbrev pub contains_key : ℕ → List (ℕ × V) → Bool
  contains_key k m = elim (lookup k m) [ none ↦ false | some v ↦ true ]

  pub lookup-insert :
      (k i : ℕ) (v : V) (m : List (ℕ × V))
      → lookup i (insert k v m) ≡ (if k == i then some v else lookup i m)
  unfolding lookup insert
  lookup-insert k i v [] = refl
  lookup-insert k i v ((j, w) ∷ m) = ground (arith, lookup-insert k i v m)

  pub lookup-erase :
      (k i : ℕ) (m : List (ℕ × V)) → lookup i (erase k m) ≡ (if k == i then none else lookup i m)
  unfolding lookup erase
  lookup-erase k i [] = ground arith
  lookup-erase k i ((j, w) ∷ m) = ground (arith, lookup-erase k i m)

  pub length-erase-le : (k : ℕ) (m : List (ℕ × V)) → length (erase k m) ≤ length m
  unfolding erase
  length-erase-le k [] = omega arith
  length-erase-le k ((j, w) ∷ m) = ground (arith, length-erase-le k m)

  pub length-erase-lt :
      (k : ℕ) (v : V) (m : List (ℕ × V)) → lookup k m ≡ some v → length (erase k m) < length m
  unfolding erase lookup
  length-erase-lt k v [] h = absurd (let e : none ≡ some v = h in cc)
  length-erase-lt k v ((j, w) ∷ m) h = ground (arith, length-erase-lt k v m, length-erase-le k m)

  pub lookup_empty : (k : ℕ) (m : List (ℕ × V)) → length m ≤ 0 → lookup k m ≡ none
  unfolding lookup
  lookup_empty k [] h = refl
  lookup_empty k (e ∷ m) h = absurd (omega arith)

module _ {V : Type 0} where
  -- The keys rise.
  unfoldable pub IsSorted : List (ℕ × V) → Type 0
  IsSorted [] = Unit
  IsSorted ((k, v) ∷ m) = ((i : ℕ) → i ≤ k → lookup i m ≡ none) × IsSorted m

  pub insert-IsSorted : (k : ℕ) (v : V) (m : List (ℕ × V)) → IsSorted m → IsSorted (insert k v m)
  unfolding insert IsSorted lookup
  insert-IsSorted k v [] h = (λ i le. refl, tt)
  insert-IsSorted k v ((j, w) ∷ m) h = elim (Bool-cases (j == k)) [
    | inl same ↦ rw (same, insert) (λ i le. h.0 i (ground (arith, same)), h.1)
    | inr other ↦ elim (Bool-cases (ltb k j)) [
      | inl before ↦
          rw (other, before, insert) (λ i le. ground (arith, h.0 i (ground (arith, before))), h)
      | inr behind ↦
          rw (other, behind, insert)
            (
              λ i le. ground (arith, lookup-insert k i v m, h.0 i le, other, behind),
              insert-IsSorted k v m h.1,
            )
    ]
  ]

  pub erase-IsSorted : (k : ℕ) (m : List (ℕ × V)) → IsSorted m → IsSorted (erase k m)
  unfolding erase IsSorted
  erase-IsSorted k [] h = tt
  erase-IsSorted k ((j, w) ∷ m) h = elim (Bool-cases (j == k)) [
    | inl same ↦ rw (same, erase) (erase-IsSorted k m h.1)
    | inr other ↦
        rw (other, erase)
          (λ i le. ground (arith, lookup-erase k i m, h.0 i le), erase-IsSorted k m h.1)
  ]

  -- An entry behind the head of a map has another key.
  pub lookup_behind :
      (k i : ℕ) (v w : V) (m : List (ℕ × V))
      → IsSorted ((k, v) ∷ m)
      → lookup i m ≡ some w
      → (k ≢ i) × (lookup i ((k, v) ∷ m) ≡ some w)
  unfolding IsSorted lookup
  lookup_behind k i v w m h found =
      let other : k ≢ i = λ e. ground (arith, h.0 i (omega (arith, e)), found) in
      (other, ground (arith, other))

  pub lookup_head : (k : ℕ) (v : V) (m : List (ℕ × V)) → lookup k ((k, v) ∷ m) ≡ some v
  unfolding lookup
  lookup_head k v m = ground arith

  pub tail-IsSorted : (k : ℕ) (v : V) (m : List (ℕ × V)) → IsSorted ((k, v) ∷ m) → IsSorted m
  unfolding IsSorted
  tail-IsSorted k v m h = h.1
