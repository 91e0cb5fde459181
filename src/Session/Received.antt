-- ===== src/Session/Received.antt =====
-- Which IDs the window of session.cpp takes for received.
use rtype.Base.{
  ℕ, zero, suc, ◌+◌, ◌-◌, ◌^◌, ◌≤◌, ◌<◌, ◌≡◌, refl, sym, ap, ◌∙◌, inl, inr, List, [], ◌∷◌, ◌++◌,
  Bool, true, false, ◌&&◌, ◌||◌, ◌==◌, ltb, leb, length, length-append, All, Bool-cases, bit_or,
  bit_at, has_bit-bit_at, bit_at-zero, bit_at-or, bit_at-pow, bit_at-shl32, sub32, if◌then◌else◌,
  u32_mod, arith,
}
use rtype.Session.Window.{
  Window, contains, pushed, remember, advance_head, fill_behind, shift_left,
  update_acknowledge_info, is_duplicate, max_packet_history_size,
}

-- What the session keeps true of its window: every bit stands for an ID that is not negative, and the
-- history is older than the bitfield reaches.
pub record IsWindow (w : Window) : Type 0 where
  pub ack_fits : w.remote_acknowledge_id < u32_mod
  pub bits_fit : w.remote_acknowledge_bitfield < u32_mod
  pub bits_behind :
      (k : ℕ) → bit_at w.remote_acknowledge_bitfield k ≡ true → k < w.remote_acknowledge_id
  pub history_old : All (λ x. x + 32 < w.remote_acknowledge_id) w.old_packet_history
  pub fresh :
      w.has_received_remote_packet ≡ false
      → (w.remote_acknowledge_bitfield ≡ 0) × (w.old_packet_history ≡ [])

contains-append :
    (x : ℕ) (xs ys : List ℕ) → contains x (xs ++ ys) ≡ (contains x xs || contains x ys)
unfolding contains
contains-append x [] ys = refl
contains-append x (y ∷ xs) ys = ground (arith, contains-append x xs ys)

contains_old :
    (x ack : ℕ) (xs : List ℕ) → All (λ y. y + 32 < ack) xs → ack ≤ x + 32 → contains x xs ≡ false
unfolding contains
contains_old x ack [] h l = refl
contains_old x ack (y ∷ xs) h l = ground (arith, contains_old x ack xs h.1 l)

module _ (ack bits : ℕ) (small : ack < u32_mod)
    (behind : (k : ℕ) → bit_at bits k ≡ true → k < ack) where
  pub contains-pushed :
      (x i n : ℕ)
      → contains x (pushed ack bits i n) ≡ (
          ltb x ack
          && (leb i (ack - x - 1) && (ltb (ack - x - 1) (i + n) && bit_at bits (ack - x - 1))))
  unfolding contains pushed
  contains-pushed x i zero = ground arith
  contains-pushed x i (suc n) =
      ground (arith, has_bit-bit_at bits i, behind i, contains-pushed x (i + 1) n)

-- `is_duplicate` of a window that has received something, with no wrap-around left.
unfoldable pub seen : ℕ → ℕ → List ℕ → ℕ → Bool
seen ack bits history x =
    if x == ack
    then true
    else if ltb ack x
    then false
    else if leb (ack - x) 32
    then bit_at bits (ack - x - 1)
    else contains x history

pub is_duplicate-seen :
    (w : Window) (x : ℕ)
    → w.has_received_remote_packet ≡ true
    → w.remote_acknowledge_id < u32_mod
    → is_duplicate w x
      ≡ seen w.remote_acknowledge_id w.remote_acknowledge_bitfield w.old_packet_history x
unfolding is_duplicate seen
is_duplicate-seen w x received small =
    ground (arith, has_bit-bit_at w.remote_acknowledge_bitfield (w.remote_acknowledge_id - x - 1))

module _ (ack bits : ℕ) (history : List ℕ) (small : ack < u32_mod)
    (behind : (k : ℕ) → bit_at bits k ≡ true → k < ack)
    (old : All (λ y. y + 32 < ack) history) where
  -- A jump past the window: everything in it goes to the history.
  seen-far :
      (id x : ℕ)
      → ack + 32 < id
      → seen id 0 (history ++ (pushed ack bits 0 32 ++ ack ∷ [])) x
        ≡ (x == id || seen ack bits history x)
  unfolding seen contains
  seen-far id x far = ground (
    arith,
    contains-append x history (pushed ack bits 0 32 ++ ack ∷ []),
    contains-append x (pushed ack bits 0 32) (ack ∷ []),
    contains-pushed ack bits small behind x 0 32,
    contains_old x ack history old,
    bit_at-zero (id - x - 1),
  )

  -- A jump inside the window, where the shifted bits are `bits'`.
  seen-near :
      (bits' id x : ℕ)
      → ack < id
      → id ≤ ack + 32
      → ((k : ℕ) → k < 32 → bit_at bits' k ≡ (leb (id - ack) k && bit_at bits (k - (id - ack))))
      → seen id
          (bit_or bits' (2 ^ (id - ack - 1)))
          (history ++ pushed ack bits (32 - (id - ack)) (id - ack))
          x
        ≡ (x == id || seen ack bits history x)
  unfolding seen
  seen-near bits' id x ahead near moved = ground (
    arith,
    contains-append x history (pushed ack bits (32 - (id - ack)) (id - ack)),
    contains-pushed ack bits small behind x (32 - (id - ack)) (id - ack),
    contains_old x ack history old,
    bit_at-or bits' (2 ^ (id - ack - 1)) (id - x - 1),
    bit_at-pow (id - ack - 1) (id - x - 1),
    moved (id - x - 1),
  )

  -- An ID inside the window.
  seen-fill :
      (id x : ℕ)
      → id < ack
      → ack ≤ id + 32
      → seen ack (bit_or bits (2 ^ (ack - id - 1))) history x ≡ (x == id || seen ack bits history x)
  unfolding seen
  seen-fill id x below inside = ground (
    arith,
    bit_at-or bits (2 ^ (ack - id - 1)) (ack - x - 1),
    bit_at-pow (ack - id - 1) (ack - x - 1),
  )

contains-remember :
    (id x : ℕ) (history : List ℕ)
    → length history < max_packet_history_size
    → contains x (remember id history) ≡ (x == id || contains x history)
unfolding remember contains
contains-remember id x history room =
    ground (arith, contains-append x history (id ∷ []), length-append history (id ∷ []))

seen-remember :
    (ack bits id x : ℕ) (history : List ℕ)
    → id + 32 < ack
    → length history < max_packet_history_size
    → seen ack bits (remember id history) x ≡ (x == id || seen ack bits history x)
unfolding seen
seen-remember ack bits id x history older room = ground (arith, contains-remember id x history room)

module _ (wide : ℕ → ℕ) (w : Window) (id x : ℕ) (v : IsWindow w) (fits : id < u32_mod) where
  abbrev ack : ℕ
  ack = w.remote_acknowledge_id

  abbrev bits : ℕ
  bits = w.remote_acknowledge_bitfield

  abbrev seen_before : Bool
  seen_before = seen ack bits w.old_packet_history x

  abbrev seen_in : Window → Bool
  seen_in u = seen u.remote_acknowledge_id u.remote_acknowledge_bitfield u.old_packet_history x

  shifted_bits :
      (shift : ℕ)
      → (shift ≡ 32 → wide bits ≡ 0)
      → shift ≤ 32
      → (k : ℕ) → k < 32
      → bit_at (shift_left wide bits shift) k ≡ (leb shift k && bit_at bits (k - shift))
  shifted_bits shift meant near k below = ground (arith, bit_at-shl32 shift bits k, bit_at-zero k)

  seen-advance :
      ack < id
      → (id ≡ ack + 32 → wide bits ≡ 0)
      → seen_in (advance_head wide w id) ≡ (x == id || seen_before)
  unfolding advance_head
  seen-advance ahead meant =
      let plain : sub32 id ack ≡ id - ack = omega (arith, v.ack_fits) in
      rw (plain, advance_head)
        (elim (Bool-cases (ltb 32 (id - ack))) [
          | inl far ↦
              rw (far, advance_head)
                (seen-far ack bits w.old_packet_history v.ack_fits v.bits_behind v.history_old id x
                  (ground arith))
          | inr near ↦
              rw (near, advance_head)
                (seen-near ack bits w.old_packet_history v.ack_fits v.bits_behind v.history_old
                  (shift_left wide bits (id - ack)) id x ahead (ground arith)
                  (shifted_bits (id - ack) (λ e. meant (omega (arith, e))) (ground arith)))
        ])

  seen-behind :
      id < ack
      → length w.old_packet_history < max_packet_history_size
      → seen_in (fill_behind w id) ≡ (x == id || seen_before)
  unfolding fill_behind
  seen-behind below room =
      let plain : sub32 ack id ≡ ack - id = omega (arith, v.ack_fits) in
      rw (plain, fill_behind)
        (elim (Bool-cases (leb (ack - id) 32)) [
          | inl inside ↦
              rw (inside, fill_behind)
                (seen-fill ack bits w.old_packet_history v.ack_fits v.bits_behind v.history_old id x
                  below (ground arith))
          | inr outside ↦
              rw (outside, fill_behind)
                (seen-remember ack bits id x w.old_packet_history (ground arith) room)
        ])

  seen-first :
      w.has_received_remote_packet ≡ false → seen id bits w.old_packet_history x ≡ (x == id)
  unfolding seen contains
  seen-first none_yet =
      let (no_bits, no_history) = v.fresh none_yet in
      rw (no_bits, no_history) (ground (arith, bit_at-zero (id - x - 1)))

  update-received : (update_acknowledge_info wide w id).has_received_remote_packet ≡ true
  unfolding update_acknowledge_info advance_head fill_behind
  update-received = ground arith

  seen-same : id ≡ ack → seen_before ≡ (x == id || seen_before)
  unfolding seen
  seen-same e = ground arith

  seen-update :
      w.has_received_remote_packet ≡ true
      → length w.old_packet_history < max_packet_history_size
      → (id ≡ ack + 32 → wide bits ≡ 0)
      → seen_in (update_acknowledge_info wide w id) ≡ (x == id || seen_before)
  unfolding update_acknowledge_info
  seen-update received room meant = simp received (elim (Bool-cases (ltb ack id)) [
    | inl ahead ↦ rw (ahead, update_acknowledge_info) (seen-advance (ground arith) meant)
    | inr rest ↦
        rw (rest, update_acknowledge_info)
          (elim (Bool-cases (ltb id ack)) [
            | inl below ↦ rw (below, update_acknowledge_info) (seen-behind (ground arith) room)
            | inr same ↦ rw (same, update_acknowledge_info) (seen-same (ground arith))
          ])
  ])

  update-ack-fits : (update_acknowledge_info wide w id).remote_acknowledge_id < u32_mod
  unfolding update_acknowledge_info advance_head fill_behind
  update-ack-fits = ground (arith, v.ack_fits)

  is_duplicate-first :
      w.has_received_remote_packet ≡ false
      → is_duplicate (update_acknowledge_info wide w id) x ≡ (x == id || is_duplicate w x)
  unfolding update_acknowledge_info is_duplicate
  is_duplicate-first none_yet =
      is_duplicate-seen (update_acknowledge_info wide w id) x update-received update-ack-fits
      ∙ ground (arith, seen-first none_yet)

  -- One 32-bit ID handed to `updateAcknowledgeInfo` in a well-formed window is one ID more that
  -- `isDuplicate` knows: the others are reported as before, wherever the ID lies. The history has
  -- room for it, and if the ID is exactly 32 ahead of the window's head the shift by the full width
  -- clears the bitfield.
  pub is_duplicate-update :
      length w.old_packet_history < max_packet_history_size
      → (id ≡ ack + 32 → wide bits ≡ 0)
      → is_duplicate (update_acknowledge_info wide w id) x ≡ (x == id || is_duplicate w x)
  is_duplicate-update room meant = elim (Bool-cases w.has_received_remote_packet) [
    | inl received ↦
        is_duplicate-seen (update_acknowledge_info wide w id) x update-received update-ack-fits
        ∙ seen-update received room meant
        ∙ ap (λ (b : Bool). x == id || b) (sym (is_duplicate-seen w x received v.ack_fits))
    | inr none_yet ↦ is_duplicate-first none_yet
  ]
