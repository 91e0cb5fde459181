-- ===== src/Session/Invariant.antt =====
-- The invariant of the window of session.cpp, kept by `updateAcknowledgeInfo`.
use rtype.Base.{
  ℕ, zero, suc, ◌+◌, ◌-◌, ◌^◌, ◌≤◌, ◌<◌, ◌≡◌, inl, inr, List, [], ◌∷◌, ◌++◌, true, ltb, leb, All,
  All-append, Bool-cases, bit_or, bit_or-lt, pow-lt-word, bit_at, has_bit-bit_at, bit_at-or,
  bit_at-pow, bit_at-shl32, bit_at-high, bit_at-zero, sub32, shl32, u32_mod, arith,
}
use rtype.Session.Window.{
  Window, pushed, remember, shift_left, advance_head, fill_behind, update_acknowledge_info,
}
use rtype.Session.Received.{IsWindow}

-- The whole history lies below the bound.
abbrev Older : ℕ → List ℕ → Type 0
Older ack = All (λ x. x + 32 < ack)

Older-mono : (a b : ℕ) (xs : List ℕ) → a ≤ b → Older a xs → Older b xs
Older-mono a b [] l h = tt
Older-mono a b (x ∷ xs) l h = (omega (arith, h.0), Older-mono a b xs l h.1)

Older-append : (a : ℕ) (xs ys : List ℕ) → Older a xs → Older a ys → Older a (xs ++ ys)
Older-append a = All-append (λ x. x + 32 < a)

pushed-Older :
    (ack bits id i n : ℕ)
    → ack < u32_mod
    → ((k : ℕ) → bit_at bits k ≡ true → k < ack)
    → ack + 31 < id + i
    → Older id (pushed ack bits i n)
unfolding pushed
pushed-Older ack bits id i zero small behind far = tt
pushed-Older ack bits id i (suc n) small behind far = ground (
  arith,
  has_bit-bit_at bits i,
  behind i,
  pushed-Older ack bits id (i + 1) n small behind (omega arith),
)

remember-Older :
    (ack id : ℕ) (xs : List ℕ) → id + 32 < ack → Older ack xs → Older ack (remember id xs)
unfolding remember
remember-Older ack id [] l h = ground arith
remember-Older ack id (x ∷ xs) l h = ground (arith, Older-append ack xs (id ∷ []) h.1 (l, tt))

module _ (wide : ℕ → ℕ) (w : Window) (id : ℕ) (v : IsWindow w) (fits : id < u32_mod) where
  abbrev ack : ℕ
  ack = w.remote_acknowledge_id

  abbrev bits : ℕ
  bits = w.remote_acknowledge_bitfield

  behind-or :
      (b head diff : ℕ)
      → ((k : ℕ) → bit_at b k ≡ true → k < head)
      → diff < head
      → (k : ℕ) → bit_at (bit_or b (2 ^ diff)) k ≡ true
      → k < head
  behind-or b head diff h l k set = ground (arith, bit_at-or b (2 ^ diff) k, bit_at-pow diff k, h k)

  fill-IsWindow : w.has_received_remote_packet ≡ true → id < ack → IsWindow (fill_behind w id)
  unfolding fill_behind
  fill-IsWindow received below =
      let plain : sub32 ack id ≡ ack - id = omega (arith, v.ack_fits) in
      rw (plain, fill_behind)
        (elim (Bool-cases (leb (ack - id) 32)) [
          | inl inside ↦
              rw (inside, fill_behind)
                (record {
                  ack_fits = v.ack_fits;
                  bits_fit =
                      bit_or-lt 32 bits (2 ^ (ack - id - 1)) v.bits_fit
                        (pow-lt-word (ack - id - 1) 32 (ground arith));
                  bits_behind = behind-or bits ack (ack - id - 1) v.bits_behind (omega arith);
                  history_old = v.history_old;
                  fresh = λ e. cc;
                })
          | inr outside ↦
              rw (outside, fill_behind)
                (record {
                  ack_fits = v.ack_fits;
                  bits_fit = v.bits_fit;
                  bits_behind = v.bits_behind;
                  history_old =
                      remember-Older ack id w.old_packet_history (ground arith) v.history_old;
                  fresh = λ e. cc;
                })
        ])

  moved_bits : ((b : ℕ) → wide b < u32_mod) → (shift : ℕ) → shift_left wide bits shift < u32_mod
  moved_bits wide_fits shift = ground (arith, wide_fits bits)

  moved-behind :
      ((b : ℕ) → wide b < u32_mod)
      → (shift k : ℕ) → shift ≤ 32
      → bit_at (shift_left wide bits shift) k ≡ true
      → k < ack + shift
  moved-behind wide_fits shift k near set = ground (
    arith,
    wide_fits bits,
    bit_at-high 32 (wide bits) k,
    bit_at-high 32 (shl32 bits shift) k,
    bit_at-shl32 shift bits k,
    v.bits_behind (k - shift),
  )

  advance-IsWindow :
      w.has_received_remote_packet ≡ true
      → ((b : ℕ) → wide b < u32_mod)
      → ack < id
      → IsWindow (advance_head wide w id)
  unfolding advance_head
  advance-IsWindow received wide_fits ahead =
      let plain : sub32 id ack ≡ id - ack = omega (arith, v.ack_fits) in
      let aged = Older-mono ack id w.old_packet_history (omega arith) v.history_old in
      rw (plain, advance_head)
        (elim (Bool-cases (ltb 32 (id - ack))) [
          | inl far ↦
              rw (far, advance_head)
                (record {
                  ack_fits = fits;
                  bits_fit = omega arith;
                  bits_behind = λ k set. ground (arith, bit_at-zero k);
                  history_old =
                      Older-append id w.old_packet_history (pushed ack bits 0 32 ++ ack ∷ []) aged (
                        Older-append id (pushed ack bits 0 32) (ack ∷ [])
                          (pushed-Older ack bits id 0 32 v.ack_fits v.bits_behind (ground arith))
                          (ground arith));
                  fresh = λ e. cc;
                })
          | inr near ↦
              let reach : id - ack ≤ 32 = ground arith in
              rw (near, advance_head)
                (record {
                  ack_fits = fits;
                  bits_fit =
                      bit_or-lt 32 (shift_left wide bits (id - ack)) (2 ^ (id - ack - 1))
                        (moved_bits wide_fits (id - ack))
                        (pow-lt-word (id - ack - 1) 32 (omega (arith, reach)));
                  bits_behind =
                      behind-or (shift_left wide bits (id - ack)) id (id - ack - 1)
                        (λ k set. omega (arith, moved-behind wide_fits (id - ack) k reach set))
                        (omega arith);
                  history_old =
                      Older-append id w.old_packet_history
                        (pushed ack bits (32 - (id - ack)) (id - ack)) aged
                        (pushed-Older ack bits id (32 - (id - ack)) (id - ack) v.ack_fits
                          v.bits_behind (omega (arith, reach)));
                  fresh = λ e. cc;
                })
        ])

  -- `updateAcknowledgeInfo` keeps the window well formed, wherever the ID lies, if a shift by the full
  -- width yields some 32-bit value.
  pub update-IsWindow : ((b : ℕ) → wide b < u32_mod) → IsWindow (update_acknowledge_info wide w id)
  unfolding update_acknowledge_info
  update-IsWindow wide_fits = elim (Bool-cases w.has_received_remote_packet) [
    | inr none_yet ↦ simp none_yet (record {
      ack_fits = fits;
      bits_fit = v.bits_fit;
      bits_behind = λ k set. ground (arith, (v.fresh none_yet).0, bit_at-zero k);
      history_old = rw (v.fresh none_yet).1 tt;
      fresh = λ e. cc;
    })
    | inl received ↦ simp received (elim (Bool-cases (ltb ack id)) [
      | inl ahead ↦
          rw (ahead, update_acknowledge_info) (advance-IsWindow received wide_fits (ground arith))
      | inr rest ↦
          rw (rest, update_acknowledge_info)
            (elim (Bool-cases (ltb id ack)) [
              | inl below ↦
                  rw (below, update_acknowledge_info) (fill-IsWindow received (ground arith))
              | inr same ↦ rw (same, update_acknowledge_info) v
            ])
    ])
  ]
