-- ===== src/Lobby/Cleaning.antt =====
-- `Manager::update`, which drops the lobbies that have stopped.
use rtype.Base.{
  ℕ, zero, suc, ◌<◌, ◌≤◌, ◌≡◌, refl, ap, inl, inr, List, Option, none, some, Bool, true, false,
  ◌&&◌, ◌||◌, ◌==◌, ltb, leb, lookup, erase, contains_key, lookup-erase, length, length-erase-lt,
  Bool-cases, Option-cases, if-rule, Option-rule, if◌then◌else◌, arith,
}
use rtype.Lobby.Room.{Lobby}
use rtype.Lobby.Manager.{Manager, update, update_from}

-- As many keys are there as there are entries, at least.
module _ {V : Type 0} where
  keys-le : (n : ℕ) (m : List (ℕ × V)) → ((i : ℕ) → i < n → contains_key i m ≡ true) → n ≤ length m
  keys-le zero m h = omega arith
  keys-le (suc n) m h = elim (Option-cases (lookup n m)) [
    | inl absent ↦ absurd (ground (arith, absent, h n (omega arith)))
    | inr (v, there) ↦
        let rest =
          keys-le n (erase n m)
            (λ i l. ground (arith, lookup-erase n i m, h i (omega (arith, l)))) in
        omega (arith, rest, length-erase-lt n v m there)
  ]

  -- A key beyond the number of entries leaves a gap below.
  keys-lt :
      (n j : ℕ) (m : List (ℕ × V))
      → contains_key j m ≡ true
      → n ≤ j
      → ((i : ℕ) → i < n → contains_key i m ≡ true)
      → n < length m
  keys-lt n j m there le h = elim (Option-cases (lookup j m)) [
    | inl absent ↦ absurd (ground (arith, absent, there))
    | inr (v, found) ↦
        let rest =
          keys-le n (erase j m) (λ i l. ground (arith, lookup-erase j i m, h i l, l, le)) in
        omega (arith, rest, length-erase-lt j v m found)
  ]

module _ {A : Type 0} where
  -- A lobby that has stopped is dropped.
  abbrev pub survivor : Option (Lobby A) → Option (Lobby A)
  survivor none = none
  survivor (some lobby) = if lobby.is_running then some lobby else none

  module _ (i : ℕ) (m : Manager A) (lobby : Lobby A) (there : lookup i m.lobbies ≡ some lobby) where
    abbrev swept : Manager A
    swept = if lobby.is_running then m else record m { lobbies = erase i m.lobbies }

    lookup-swept :
        (j : ℕ)
        → lookup j swept.lobbies
          ≡ (if i == j then survivor (lookup j m.lobbies) else lookup j m.lobbies)
    lookup-swept j =
        if-rule
          (λ (t : Manager A).
            lookup j t.lobbies
            ≡ (if i == j then survivor (lookup j m.lobbies) else lookup j m.lobbies))
          lobby.is_running
          (λ h. ground (arith, h, there, ap (λ k. lookup k m.lobbies) {x = i} {y = j}))
          (λ h. ground (
            arith,
            h,
            there,
            ap (λ k. lookup k m.lobbies) {x = i} {y = j},
            lookup-erase i j m.lobbies,
          ))

  -- Where `at` does not throw, the indices were there, and the lobbies that have stopped are gone.
  update_from-true :
      (n : ℕ) (m : Manager A)
      → (update_from n m).1 ≡ true
      → ((j : ℕ)
          → lookup j (update_from n m).0.lobbies
            ≡ (if ltb 0 j && leb j n then survivor (lookup j m.lobbies) else lookup j m.lobbies))
        × ((j : ℕ) → 0 < j → j ≤ n → contains_key j m.lobbies ≡ true)
  unfolding update_from
  update_from-true zero m h = (λ j. ground arith, λ j l k. absurd (omega (arith, l, k)))
  update_from-true (suc n) m h =
      Option-rule
        (λ (r : Manager A × Bool).
          r.1 ≡ true
          → ((j : ℕ)
              → lookup j r.0.lobbies ≡ (
                  if ltb 0 j && leb j (suc n)
                  then survivor (lookup j m.lobbies)
                  else lookup j m.lobbies))
            × ((j : ℕ) → 0 < j → j ≤ suc n → contains_key j m.lobbies ≡ true))
        (lookup (suc n) m.lobbies) (λ absent. λ h. absurd (let f : false ≡ true = h in cc))
        (λ lobby there. λ h.
          let (after, present) = update_from-true n (swept (suc n) m lobby there) h in
          (
            λ j. ground (arith, after j, lookup-swept (suc n) m lobby there j),
            λ j l k. ground (
              arith,
              l,
              k,
              present j,
              lookup-swept (suc n) m lobby there j,
              there,
              ap (λ i. lookup i m.lobbies) {x = suc n} {y = j},
            ),
          ))
        h

  update_from-done :
      (n : ℕ) (m : Manager A)
      → ((j : ℕ) → 0 < j → j ≤ n → contains_key j m.lobbies ≡ true)
      → (update_from n m).1 ≡ true
  unfolding update_from
  update_from-done zero m present = refl
  update_from-done (suc n) m present =
      Option-rule (λ (r : Manager A × Bool). r.1 ≡ true) (lookup (suc n) m.lobbies)
        (λ absent. absurd (ground (arith, absent, present (suc n) (omega arith) (omega arith))))
        (λ lobby there. update_from-done n (swept (suc n) m lobby there) (λ j l k.
          ground
            (arith, l, k, present j l (omega (arith, k)), lookup-swept (suc n) m lobby there j)))

  update-rule :
      (P : Manager A × Bool → Type 0) (m : Manager A)
      → (length m.lobbies ≡ 0 → P (m, false))
      → ((n : ℕ) → length m.lobbies ≡ suc n → P (update_from n m))
      → P (update m)
  unfolding update
  update-rule P m nothing something = by_length (length m.lobbies) nothing something
    where
      by_length :
          (k : ℕ)
          → (k ≡ 0 → P (m, false))
          → ((n : ℕ) → k ≡ suc n → P (update_from n m))
          → P (elim k [ zero ↦ (m, false) | suc n ↦ update_from n m ])
      by_length zero f g = f refl
      by_length (suc n) f g = g n refl

  update-done :
      (m : Manager A)
      → (update m).1 ≡ true
      → ((j : ℕ)
          → lookup j (update m).0.lobbies ≡ (
              if ltb 0 j && ltb j (length m.lobbies)
              then survivor (lookup j m.lobbies)
              else lookup j m.lobbies))
        × ((j : ℕ) → (leb j 0 || leb (length m.lobbies) j || contains_key j m.lobbies) ≡ true)
  update-done m =
      update-rule
        (λ (r : Manager A × Bool).
          r.1 ≡ true
          → ((j : ℕ)
              → lookup j r.0.lobbies ≡ (
                  if ltb 0 j && ltb j (length m.lobbies)
                  then survivor (lookup j m.lobbies)
                  else lookup j m.lobbies))
            × ((j : ℕ) → (leb j 0 || leb (length m.lobbies) j || contains_key j m.lobbies) ≡ true))
        m (λ nothing. λ h. absurd (let f : false ≡ true = h in cc))
        (λ n size. λ h.
          let (after, present) = update_from-true n m h in
          (λ j. ground (arith, after j, size), λ j. ground (arith, present j, size)))

  -- If there are lobbies, and each ID below their number is that of one, `update` does not throw, drops
  -- the lobbies but the lobby 0 that have stopped, and leaves every other lobby as it is.
  pub update-survivors :
      (m : Manager A)
      → 0 < length m.lobbies
      → ((j : ℕ) → j < length m.lobbies → contains_key j m.lobbies ≡ true)
      → ((update m).1 ≡ true)
        × ((j : ℕ)
            → lookup j (update m).0.lobbies
              ≡ (if ltb 0 j then survivor (lookup j m.lobbies) else lookup j m.lobbies))
  update-survivors m some_lobby present =
      let done : (update m).1 ≡ true =
        update-rule (λ (r : Manager A × Bool). r.1 ≡ true) m
          (λ nothing. absurd (omega (arith, nothing, some_lobby)))
          (λ n size. update_from-done n m (λ j l k. present j (omega (arith, size, k)))) in
      let (after, known) = update-done m done in (done, λ j. ground (arith, after j, beyond_gone j))
    where
      beyond_gone : (j : ℕ) → length m.lobbies ≤ j → lookup j m.lobbies ≡ none
      beyond_gone j le = elim (Bool-cases (contains_key j m.lobbies)) [
        | inl there ↦
            absurd (omega (arith, keys-lt (length m.lobbies) j m.lobbies there le present))
        | inr absent ↦ ground (arith, absent)
      ]

  -- Where the lobby 0 is there and some lobby has an ID that is not below the number of lobbies, as
  -- it is once another one was dropped, `update` throws.
  pub update-gap :
      (m : Manager A) (j : ℕ)
      → contains_key 0 m.lobbies ≡ true
      → contains_key j m.lobbies ≡ true
      → length m.lobbies ≤ j
      → (update m).1 ≡ false
  update-gap m j first there beyond = elim (Bool-cases (update m).1) [
    | inl done ↦
        let (after, present) = update-done m done in
        absurd (
          omega (
            arith,
            keys-lt (length m.lobbies) j m.lobbies there beyond (λ i l.
                ground
                  (arith, first, l, present i, ap (λ k. contains_key k m.lobbies) {x = i} {y = 0})),
          ))
    | inr threw ↦ threw
  ]
