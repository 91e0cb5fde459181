-- ===== src/Base/Tests.antt =====
-- Boolean tests on numbers and the conditional, as the sources' comparisons and branches.
use Prim.Native.Nat.{ℕ, ◌≤◌, ◌<◌, compare, Ordering}
use mathlib.Core.Path.{◌≡◌, refl, ap}
use mathlib.Core.Logic.{◌↔◌, ◌⊎◌, inl, inr}
use mathlib.Core.Bool.{Bool, true, false}
use mathlib.Core.Option.{Option, none, some}
use native.Mathlib.Omega.{arith}

-- These compute to `compare`, which `ground` and `grind` read with no lemma listed.
abbrev pub ltb : ℕ → ℕ → Bool
ltb a b = elim (compare a b) [ Ordering.lt ↦ true | _ ↦ false ]

abbrev pub leb : ℕ → ℕ → Bool
leb a b = elim (compare a b) [ Ordering.gt ↦ false | _ ↦ true ]

infix 50 ◌==◌
abbrev pub ◌==◌ : ℕ → ℕ → Bool
a == b = elim (compare a b) [ Ordering.eq ↦ true | _ ↦ false ]

infix 1 if◌then◌else◌
abbrev pub if◌then◌else◌ {ℓ} : {A : Type ℓ} → Bool → A → A → A
if true then x else y = x
if false then x else y = y

-- `omega` reads a test through such lemmas.
pub ltb→lt : (a b : ℕ) → ltb a b ≡ true → a < b
ltb→lt a b h = ground arith

pub lt→ltb : (a b : ℕ) → a < b → ltb a b ≡ true
lt→ltb a b h = ground arith

pub leb→le : (a b : ℕ) → leb a b ≡ true → a ≤ b
leb→le a b h = ground arith

pub ==_iff : (a b : ℕ) → ((a == b) ≡ true) ↔ (a ≡ b)
==_iff a b = ground arith

pub ruleset tests = (arith, ltb→lt, lt→ltb, leb→le)

-- To split on a computed value and keep the equation.
pub Bool-cases : (b : Bool) → (b ≡ true) ⊎ (b ≡ false)
Bool-cases true = inl refl
Bool-cases false = inr refl

pub Option-cases {ℓ} : {A : Type ℓ} (o : Option A) → (o ≡ none) ⊎ ((a : A) × (o ≡ some a))
Option-cases none = inl refl
Option-cases (some a) = inr (a, refl)

pub some-injective {ℓ} : {A : Type ℓ} {x y : A} → some x ≡ some y → x ≡ y
some-injective {x = x} e = ap (λ o. elim o [ none ↦ x | some z ↦ z ]) e

-- What holds of a branch if it holds in each case.
module _ {ℓ κ} {A : Type ℓ} (P : A → Type κ) {x y : A} where
  pub if-rule : (b : Bool) → (b ≡ true → P x) → (b ≡ false → P y) → P (if b then x else y)
  if-rule true h k = h refl
  if-rule false h k = k refl

module _ {ℓ κ λ'} {A : Type ℓ} {B : Type λ'} (P : A → Type κ) {x : A} {f : B → A} where
  pub Option-rule :
      (o : Option B)
      → (o ≡ none → P x)
      → ((b : B) → o ≡ some b → P (f b))
      → P (elim o [ none ↦ x | some b ↦ f b ])
  Option-rule none h k = h refl
  Option-rule (some b) h k = k b refl

-- A branch whose test is known, also where the test is a field of what the branch returns.
module _ {ℓ} {A : Type ℓ} (x y : A) where
  pub if-eq-then : {b : Bool} → b ≡ true → (if b then x else y) ≡ x
  if-eq-then e = ap (λ (b : Bool). if b then x else y) e

  pub if-eq-else : {b : Bool} → b ≡ false → (if b then x else y) ≡ y
  if-eq-else e = ap (λ (b : Bool). if b then x else y) e

module _ {ℓ κ} {A : Type ℓ} {B : Type κ} (x : A) (f : B → A) where
  pub elim-eq-some :
      {o : Option B} {b : B} → o ≡ some b → (elim o [ none ↦ x | some b ↦ f b ]) ≡ f b
  elim-eq-some e = ap (λ (o : Option B). elim o [ none ↦ x | some b ↦ f b ]) e

  pub elim-eq-none : {o : Option B} → o ≡ none → (elim o [ none ↦ x | some b ↦ f b ]) ≡ x
  elim-eq-none e = ap (λ (o : Option B). elim o [ none ↦ x | some b ↦ f b ]) e
