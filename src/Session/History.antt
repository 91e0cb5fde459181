-- ===== src/Session/History.antt =====
-- The window of session.cpp over a whole run of received IDs: how many it holds, and that it stands
-- for the set of all of them.
use mathlib.Core.List.{Mem, mem-cons, mem-cons_self, not-mem-nil}
use mathlib.Core.Logic.{◌↔◌}
use mathlib.Core.Logic.Or
use rtype.Base.{
  ℕ, zero, suc, ◌+◌, ◌-◌, ◌^◌, ◌≤◌, ◌<◌, ◌≡◌, refl, ap, ◌∙◌, inl, inr, List, [], ◌∷◌, ◌++◌, Bool,
  true, false, ◌&&◌, ◌||◌, ◌==◌, ltb, leb, length, length-append, All, Bool-cases, bit_or, bit_at,
  has_bit-bit_at, bit_at-or, bit_at-pow, bit_at-shl32, bit_at-zero, sub32, if◌then◌else◌, u32_mod,
  arith,
}
use rtype.Session.Window.{
  Window, empty_window, contains, pushed, remember, shift_left, advance_head, fill_behind,
  update_acknowledge_info, is_duplicate, max_packet_history_size,
}
use rtype.Session.Received.{IsWindow, is_duplicate-update}
use rtype.Session.Invariant.{update-IsWindow}

contains→Mem : {x : ℕ} (ids : List ℕ) → contains x ids ≡ true → Mem x ids
unfolding contains
contains→Mem [] h = cc
contains→Mem {x} (y ∷ ys) h = elim (Bool-cases (y == x)) [
  | inl hit ↦ rw (let e : x ≡ y = ground arith in e) mem-cons_self
  | inr miss ↦ mem-cons.1 (Or.inr (contains→Mem ys (ground arith)))
]

true-prop : (b : Bool) → IsProp (b ≡ true)
true-prop b = hlevel

Mem→contains : {x : ℕ} (ids : List ℕ) → Mem x ids → contains x ids ≡ true
unfolding contains
Mem→contains [] m = absurd (not-mem-nil m)
Mem→contains {x} (y ∷ ys) m =
    Or.elim (true-prop _) (mem-cons.0 m) (λ e. ground arith)
      (λ later. ground (arith, Mem→contains ys later))

-- How many of the numbers from `i` on, `n` of them, pass the test.
tally : (ℕ → Bool) → ℕ → ℕ → ℕ
tally p i zero = 0
tally p i (suc n) = (if p i then 1 else 0) + tally p (i + 1) n

tally-le-add :
    (p q r : ℕ → Bool) (i n : ℕ)
    → ((k : ℕ) → i ≤ k → k < i + n → p k ≡ (q k || r k))
    → tally p i n ≤ tally q i n + tally r i n
unfolding tally
tally-le-add p q r i zero h = omega arith
tally-le-add p q r i (suc n) h =
    let ih = tally-le-add p q r (i + 1) n (λ k l m. h k (omega arith) (omega arith)) in
    ground (arith, h i (omega arith) (omega arith), ih)

tally-none :
    (p : ℕ → Bool) (i n : ℕ) → ((k : ℕ) → i ≤ k → k < i + n → p k ≡ false) → tally p i n ≡ 0
unfolding tally
tally-none p i zero h = refl
tally-none p i (suc n) h =
    let ih = tally-none p (i + 1) n (λ k l m. h k (omega arith) (omega arith)) in
    ground (arith, h i (omega arith) (omega arith), ih)

tally-eq :
    (p q : ℕ → Bool) (i n : ℕ)
    → ((k : ℕ) → i ≤ k → k < i + n → p k ≡ q k)
    → tally p i n ≡ tally q i n
unfolding tally
tally-eq p q i zero h = refl
tally-eq p q i (suc n) h =
    let ih = tally-eq p q (i + 1) n (λ k l m. h k (omega arith) (omega arith)) in
    ground (arith, h i (omega arith) (omega arith), ih)

tally-one : (j i n : ℕ) → tally (λ k. j == k) i n ≤ 1
unfolding tally
tally-one j i zero = omega arith
tally-one j i (suc n) =
    let after_hit : j ≡ i → tally (λ k. j == k) (i + 1) n ≡ 0 =
      λ e. tally-none (λ k. j == k) (i + 1) n (λ k l m. ground arith) in
    ground (arith, tally-one j (i + 1) n, after_hit)

tally-append : (p : ℕ → Bool) (i n m : ℕ) → tally p i (n + m) ≡ tally p i n + tally p (i + n) m
unfolding tally
tally-append p i zero m =
    rw (let e : 0 + m ≡ m = omega arith in e, let e : i + 0 ≡ i = omega arith in e) (omega arith)
tally-append p i (suc n) m =
    rw
      (
        let e : suc n + m ≡ suc (n + m) = omega arith in e,
        let e : i + suc n ≡ i + 1 + n = omega arith in e,
      )
      (omega (arith, tally-append p (i + 1) n m))

tally-moved : (p : ℕ → Bool) (s i n : ℕ) → tally (λ k. leb s k && p (k - s)) (s + i) n ≡ tally p i n
unfolding tally
tally-moved p s i zero = refl
tally-moved p s i (suc n) =
    rw
      (
        let e : s + i + 1 ≡ s + (i + 1) = omega arith in e,
        let e : s + i - s ≡ i = omega arith in e,
        let e : leb s (s + i) ≡ true = ground arith in e,
      )
      (omega (arith, tally-moved p s (i + 1) n))

length-pushed : (ack bits i n : ℕ) → length (pushed ack bits i n) ≡ tally (bit_at bits) i n
unfolding tally pushed
length-pushed ack bits i zero = refl
length-pushed ack bits i (suc n) =
    ground (arith, has_bit-bit_at bits i, length-pushed ack bits (i + 1) n)

-- How many IDs below its head the window holds.
pub held : Window → ℕ
held w = tally (bit_at w.remote_acknowledge_bitfield) 0 32 + length w.old_packet_history

tally-or_pow : (b j : ℕ) → tally (bit_at (bit_or b (2 ^ j))) 0 32 ≤ tally (bit_at b) 0 32 + 1
tally-or_pow b j = omega (
  arith,
  tally-le-add (bit_at (bit_or b (2 ^ j))) (bit_at b) (λ k. j == k) 0 32
      (λ k l m. ground (arith, bit_at-or b (2 ^ j) k, bit_at-pow j k)),
  tally-one j 0 32,
)

length-remember : (id : ℕ) (xs : List ℕ) → length (remember id xs) ≤ length xs + 1
unfolding remember
length-remember id [] = ground arith
length-remember id (x ∷ xs) = ground (arith, length-append xs (id ∷ []))

module _ (wide : ℕ → ℕ) (w : Window) (id : ℕ) (v : IsWindow w) (fits : id < u32_mod) where
  abbrev ack : ℕ
  ack = w.remote_acknowledge_id

  abbrev bits : ℕ
  bits = w.remote_acknowledge_bitfield

  -- The bits that a shift keeps and those that it hands to the history.
  tally-shifted :
      (bits' s : ℕ)
      → s ≤ 32
      → ((k : ℕ) → k < 32 → bit_at bits' k ≡ (leb s k && bit_at bits (k - s)))
      → tally (bit_at bits') 0 32 + tally (bit_at bits) (32 - s) s ≡ tally (bit_at bits) 0 32
  tally-shifted bits' s near moved =
      let low = tally-none (bit_at bits') 0 s (λ k l m. ground (arith, moved k (omega arith))) in
      let high =
        tally-eq (bit_at bits') (λ k. leb s k && bit_at bits (k - s)) (s + 0) (32 - s)
          (λ k l m. moved k (omega arith)) in
      omega (
        arith,
        low,
        high,
        tally-moved (bit_at bits) s 0 (32 - s),
        ap (λ (t : ℕ). tally (bit_at bits') 0 t) {x = 32} {y = s + (32 - s)} (omega arith),
        tally-append (bit_at bits') 0 s (32 - s),
        ap (λ (t : ℕ). tally (bit_at bits') t (32 - s)) {x = 0 + s} {y = s + 0} (omega arith),
        ap (λ (t : ℕ). tally (bit_at bits) 0 t) {x = 32} {y = 32 - s + s} (omega arith),
        tally-append (bit_at bits) 0 (32 - s) s,
        ap (λ (t : ℕ). tally (bit_at bits) t s) {x = 0 + (32 - s)} {y = 32 - s} (omega arith),
      )

  held-fill : id < ack → held (fill_behind w id) ≤ held w + 1
  unfolding fill_behind held
  held-fill below =
      let diff = sub32 ack id - 1 in
      ground (arith, tally-or_pow bits diff, length-remember id w.old_packet_history)

  held-advance :
      ack < id → (id ≡ ack + 32 → wide bits ≡ 0) → held (advance_head wide w id) ≤ held w + 1
  unfolding advance_head held
  held-advance ahead meant =
      let plain : sub32 id ack ≡ id - ack = omega (arith, v.ack_fits) in
      let bits' = shift_left wide bits (id - ack) in
      rw (plain, advance_head)
        (elim (Bool-cases (ltb 32 (id - ack))) [
          | inl far ↦
              rw (far, advance_head)
                (omega (
                  arith,
                  tally-none (bit_at 0) 0 32 (λ k l m. bit_at-zero k),
                  length-append w.old_packet_history (pushed ack bits 0 32 ++ ack ∷ []),
                  length-append (pushed ack bits 0 32) (ack ∷ []),
                  length-pushed ack bits 0 32,
                ))
          | inr near ↦
              let reach : id - ack ≤ 32 = ground arith in
              let moved : (k : ℕ)
                  → k < 32
                  → bit_at bits' k ≡ (leb (id - ack) k && bit_at bits (k - (id - ack))) =
                λ k below. ground (arith, bit_at-shl32 (id - ack) bits k, bit_at-zero k) in
              rw (near, advance_head)
                (omega (
                  arith,
                  tally-or_pow bits' (id - ack - 1),
                  tally-shifted bits' (id - ack) reach moved,
                  length-append w.old_packet_history (pushed ack bits (32 - (id - ack)) (id - ack)),
                  length-pushed ack bits (32 - (id - ack)) (id - ack),
                ))
        ])

  pub held-update :
      (id ≡ ack + 32 → wide bits ≡ 0) → held (update_acknowledge_info wide w id) ≤ held w + 1
  unfolding update_acknowledge_info held
  held-update meant = elim (Bool-cases w.has_received_remote_packet) [
    | inr none_yet ↦ simp none_yet (omega arith)
    | inl received ↦ simp received (elim (Bool-cases (ltb ack id)) [
      | inl ahead ↦ rw (ahead, update_acknowledge_info) (held-advance (ground arith) meant)
      | inr rest ↦
          rw (rest, update_acknowledge_info)
            (elim (Bool-cases (ltb id ack)) [
              | inl below ↦ rw (below, update_acknowledge_info) (held-fill (ground arith))
              | inr same ↦ rw (same, update_acknowledge_info) (omega arith)
            ])
    ])
  ]

-- The IDs handed to `updateAcknowledgeInfo` one after the other.
unfoldable pub receive_all : (ℕ → ℕ) → Window → List ℕ → Window
receive_all wide w [] = w
receive_all wide w (id ∷ ids) = receive_all wide (update_acknowledge_info wide w id) ids

pub history-le-held : (w : Window) → length w.old_packet_history ≤ held w
unfolding held
history-le-held w = omega arith

pub held-empty : held empty_window ≡ 0
unfolding held
held-empty = omega (arith, tally-none (bit_at 0) 0 32 (λ k l m. bit_at-zero k))

pub nothing_yet : (x : ℕ) → is_duplicate empty_window x ≡ false
unfolding is_duplicate
nothing_yet x = refl

pub empty-IsWindow : IsWindow empty_window
empty-IsWindow = record {
  ack_fits = omega arith;
  bits_fit = omega arith;
  bits_behind = λ k set. ground (arith, bit_at-zero k);
  history_old = tt;
  fresh = λ e. (refl, refl);
}

module _ (wide : ℕ → ℕ) (clears : (b : ℕ) → wide b ≡ 0) where
  pub wide-fits : (b : ℕ) → wide b < u32_mod
  wide-fits b = omega (arith, clears b)

  receive_all-from :
      (w : Window) (ids : List ℕ) (x : ℕ)
      → IsWindow w
      → All (λ id. id < u32_mod) ids
      → held w + length ids ≤ max_packet_history_size
      → is_duplicate (receive_all wide w ids) x ≡ (contains x ids || is_duplicate w x)
  unfolding receive_all contains
  receive_all-from w [] x v fit room = refl
  receive_all-from w (id ∷ ids) x v fit room =
      let cleared =
        λ (e : id ≡ w.remote_acknowledge_id + 32). clears w.remote_acknowledge_bitfield in
      let grown = held-update wide w id v fit.0 cleared in
      let one =
        is_duplicate-update wide w id x v fit.0 (omega (arith, history-le-held w)) cleared in
      receive_all-from (update_acknowledge_info wide w id) ids x
        (update-IsWindow wide w id v fit.0 wide-fits) fit.1 (omega arith)
      ∙ ground (arith, one)

  -- After any run of at most 32768 IDs of 32 bits, in any order and with any repetitions,
  -- `isDuplicate` reports exactly the IDs of the run, where a shift by the full width clears the
  -- bitfield.
  pub is_duplicate-receive_all :
      (ids : List ℕ) (x : ℕ)
      → All (λ id. id < u32_mod) ids
      → length ids ≤ max_packet_history_size
      → (is_duplicate (receive_all wide empty_window ids) x ≡ true) ↔ Mem x ids
  is_duplicate-receive_all ids x fit room =
      rw (receive_all-from empty_window ids x empty-IsWindow fit (omega (arith, held-empty)))
        ((λ h. contains→Mem ids (ground (arith, nothing_yet x))), (λ m. rw (Mem→contains ids m)))
