-- ===== src/Lobby/Paging.antt =====
-- `Manager::getLobbiesId` and `getLobbiesMaxPage`.
use rtype.Base.{
  ℕ, zero, suc, ◌+◌, ◌-◌, ◌*◌, ◌%◌, ◌<◌, ◌≤◌, ◌≡◌, refl, sym, ap, ap₂, ◌∙◌, List, [], ◌∷◌, ◌++◌,
  map, ltb, ◌==◌, length, length-map, false, take, drop, take-append-drop, u32_mod, if-rule,
  if◌then◌else◌, arith,
}
use rtype.Lobby.Room.{Lobby}
use rtype.Lobby.Manager.{Manager, page_from, get_lobbies_id, get_lobbies_max_page}

take_nil : (n : ℕ) → ◌≡◌ {A = List ℕ} (take n []) []
take_nil zero = refl
take_nil (suc n) = refl

drop_nil : (n : ℕ) → ◌≡◌ {A = List ℕ} (drop n []) []
drop_nil zero = refl
drop_nil (suc n) = refl

-- The page is full, or goes on.
last_taken :
    (ids rest : List ℕ) (offset i found : ℕ)
    → ltb i offset ≡ false
    → found < 20
    → (found + 1 < 20 → rest ≡ take (20 - (found + 1)) (drop (offset - i) ids))
    → (if found + 1 == 20 then [] else rest) ≡ take (20 - (found + 1)) ids
last_taken ids rest offset i found h lt goes_on =
    if-rule (λ r. r ≡ take (20 - (found + 1)) ids) (found + 1 == 20)
      (λ full. ap (λ n. take n ids) {x = 0} {y = 20 - (found + 1)} (ground (arith, full)))
      (λ room.
        goes_on (ground (arith, room, lt))
        ∙ ap (λ n. take (20 - (found + 1)) (drop n ids)) {x = offset - i} {y = 0}
            (ground (arith, h)))

page_from-eq :
    (ids : List ℕ) (offset i found : ℕ)
    → i ≤ offset
    → found < 20
    → page_from offset i found ids ≡ take (20 - found) (drop (offset - i) ids)
unfolding page_from
page_from-eq [] offset i found le lt =
    sym (take_nil (20 - found)) ∙ ap (take (20 - found)) (sym (drop_nil (offset - i)))
page_from-eq (id ∷ ids) offset i found le lt =
    if-rule (λ r. r ≡ take (20 - found) (drop (offset - i) (id ∷ ids))) (ltb i offset)
      (λ h.
        page_from-eq ids offset (i + 1) found (ground (arith, h)) lt
        ∙ ap (λ n. take (20 - found) (drop n (id ∷ ids))) {x = suc (offset - (i + 1))}
            {y = offset - i} (ground (arith, h)))
      (λ h.
        ap (λ r. id ∷ r)
          (last_taken ids (page_from offset i (found + 1) ids) offset i found h lt
            (λ room. page_from-eq ids offset i (found + 1) le room))
        ∙ ap (λ n. take n (id ∷ ids)) {x = suc (20 - (found + 1))} {y = 20 - found}
            (omega (arith, lt))
        ∙ ap (λ n. take (20 - found) (drop n (id ∷ ids))) {x = 0} {y = offset - i}
            (ground (arith, h)))

drop_beyond : (n : ℕ) (xs : List ℕ) → length xs ≤ n → drop n xs ≡ []
drop_beyond zero [] h = refl
drop_beyond zero (x ∷ xs) h = absurd (omega (arith, h))
drop_beyond (suc n) [] h = refl
drop_beyond (suc n) (x ∷ xs) h = drop_beyond n xs (omega (arith, h))

drop-drop : (a b : ℕ) (xs : List ℕ) → drop a (drop b xs) ≡ drop (b + a) xs
drop-drop a zero xs = ap (λ n. drop n xs) {y = zero + a} (omega arith)
drop-drop a (suc b) [] = drop_nil a ∙ sym (drop_nil (suc b + a))
drop-drop a (suc b) (x ∷ xs) =
    drop-drop a b xs ∙ ap (λ n. drop n (x ∷ xs)) {x = suc (b + a)} (omega arith)

module _ {A : Type 0} where
  -- The `n` pages from `p` on, one after the other.
  unfoldable pub pages : ℕ → ℕ → Manager A → List ℕ
  pages p zero m = []
  pages p (suc n) m = get_lobbies_id p m ++ pages (p + 1) n m

  pages-from :
      (n p : ℕ) (m : Manager A)
      → (p + n) * 20 < u32_mod
      → length m.lobbies ≤ (p + n) * 20
      → pages p n m ≡ drop (p * 20) (map (λ l. l.0) m.lobbies)
  unfolding pages get_lobbies_id
  pages-from zero p m small all = sym (
      drop_beyond (p * 20) (map (λ l. l.0) m.lobbies)
        (omega (arith, all, length-map m.lobbies (λ l. l.0))))
  pages-from (suc n) p m small all =
      let ids = map (λ (l : ℕ × Lobby A). l.0) m.lobbies in
      let offset : p * 20 % u32_mod ≡ p * 20 = omega (arith, small) in
      let page : get_lobbies_id p m ≡ take 20 (drop (p * 20) ids) =
        page_from-eq ids (p * 20 % u32_mod) 0 0 (omega arith) (omega arith)
        ∙ ap (λ k. take 20 (drop k ids)) (omega (arith, offset)) in
      let rest = pages-from n (p + 1) m (omega (arith, small)) (omega (arith, all)) in
      ap₂ (λ xs ys. xs ++ ys) page
        (rest
          ∙ ap (λ k. drop k ids) {x = (p + 1) * 20} {y = p * 20 + 20} (omega arith)
          ∙ sym (drop-drop 20 (p * 20) ids))
      ∙ take-append-drop 20 (drop (p * 20) ids)

  -- While there are fewer than 2^32 - 20 lobbies, the pages that `getLobbiesMaxPage` counts are, one
  -- after the other, the IDs of all the lobbies, in the order in which the table is walked.
  pub pages-all :
      (m : Manager A)
      → length m.lobbies + 20 < u32_mod
      → pages 0 (get_lobbies_max_page m) m ≡ map (λ l. l.0) m.lobbies
  unfolding get_lobbies_max_page
  pages-all m small = pages-from _ 0 m (omega (arith, small)) (omega (arith, small))
