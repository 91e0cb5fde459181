-- ===== src/Session/Order.antt =====
-- Ordered delivery on one channel of session.cpp: in order, without gaps, once each, and as far as the
-- packets that have arrived allow.
use rtype.Base.{
  ℕ, zero, suc, ◌+◌, ◌≤◌, ◌<◌, ◌≡◌, refl, sym, ap, ap₂, ◌∙◌, inl, inr, List, [], ◌∷◌, ◌++◌, none,
  some, Bool, true, false, ◌&&◌, ◌||◌, ◌==◌, ltb, leb, length, lookup, erase, lookup-insert,
  lookup-erase, lookup_empty, length-erase-lt, Bool-cases, Option-cases, if◌then◌else◌, u32_mod,
  All, arith,
}
use rtype.Wire.Packet.{Packet}
use rtype.Session.State.{next_u32}
use rtype.Session.Window.{contains}
use rtype.Session.Reorder.{Channel, drain, deliver}

-- The packets that were sent under `n` order IDs from `i` on.
abbrev pub segment : (ℕ → Packet) → ℕ → ℕ → List Packet
segment sent i zero = []
segment sent i (suc n) = sent i ∷ segment sent (i + 1) n

segment-append :
    (sent : ℕ → Packet) (i n m : ℕ)
    → segment sent i n ++ segment sent (i + n) m ≡ segment sent i (n + m)
segment-append sent i zero m =
    rw (let e : 0 + m ≡ m = omega arith in e, let e : i + 0 ≡ i = omega arith in e)
segment-append sent i (suc n) m =
    rw
      (
        let e : suc n + m ≡ suc (n + m) = omega arith in e,
        let e : i + suc n ≡ i + 1 + n = omega arith in e,
      )
      (ap (◌∷◌ (sent i)) (segment-append sent (i + 1) n m))

length-segment : (sent : ℕ → Packet) (i n : ℕ) → length (segment sent i n) ≡ n
length-segment sent i zero = refl
length-segment sent i (suc n) = ap suc (length-segment sent (i + 1) n)

-- What is true of a channel between two packets: it waits for the first ID that has not arrived, and
-- holds exactly the later packets that have.
pub record Waits (sent : ℕ → Packet) (arrived : ℕ → Bool) (bound : ℕ) (c : Channel) : Type 0 where
  pub stored :
      (k : ℕ)
      → lookup k c.reorder_buffer
        ≡ (if ltb c.next_expected k && arrived k then some (sent k) else none)
  pub complete : (k : ℕ) → k < c.next_expected → arrived k ≡ true
  pub missing : arrived c.next_expected ≡ false
  pub below : (k : ℕ) → arrived k ≡ true → k < bound

-- An outcome that delivers the packets from `first` on and leaves the channel waiting.
pub record Delivers (sent : ℕ → Packet) (arrived : ℕ → Bool) (bound first : ℕ)
    (out : List Packet × Channel) : Type 0 where
  pub many : ℕ
  pub packets : out.0 ≡ segment sent first many
  pub moved : out.1.next_expected ≡ first + many
  pub waits : Waits sent arrived bound out.1

module _ (sent : ℕ → Packet) (arrived : ℕ → Bool) (bound : ℕ) (small : bound < u32_mod)
    (below : (k : ℕ) → arrived k ≡ true → k < bound) where
  -- Nothing to take out: the channel waits where it stands.
  stop-Delivers :
      (c : Channel)
      → lookup c.next_expected c.reorder_buffer ≡ none
      → ((k : ℕ)
          → lookup k c.reorder_buffer
            ≡ (if leb c.next_expected k && arrived k then some (sent k) else none))
      → ((k : ℕ) → k < c.next_expected → arrived k ≡ true)
      → Delivers sent arrived bound c.next_expected ([], c)
  stop-Delivers c absent stored complete =
      let missing : arrived c.next_expected ≡ false = ground (arith, stored c.next_expected) in
      record {
        many = 0;
        packets = refl;
        moved = omega arith;
        waits = record {
          stored = λ k. ground (arith, stored k, missing);
          complete = complete;
          missing = missing;
          below = below;
        };
      }

  -- One more packet in front of what a later part delivers.
  cons-Delivers :
      (first second : ℕ) (p : Packet) (out : List Packet × Channel)
      → p ≡ sent first
      → second ≡ first + 1
      → Delivers sent arrived bound second out
      → Delivers sent arrived bound first (p ∷ out.0, out.1)
  cons-Delivers first second p out is_sent e d = record {
    many = suc d.many;
    packets = ap₂ ◌∷◌ is_sent (d.packets ∙ ap (λ (i : ℕ). segment sent i d.many) e);
    moved = omega (arith, d.moved, e);
    waits = d.waits;
  }

  drain-Delivers :
      (fuel : ℕ) (c : Channel)
      → length c.reorder_buffer ≤ fuel
      → ((k : ℕ)
          → lookup k c.reorder_buffer
            ≡ (if leb c.next_expected k && arrived k then some (sent k) else none))
      → ((k : ℕ) → k < c.next_expected → arrived k ≡ true)
      → Delivers sent arrived bound c.next_expected (drain fuel c)
  unfolding drain
  drain-Delivers zero c room stored complete =
      stop-Delivers c (lookup_empty c.next_expected c.reorder_buffer room) stored complete
  drain-Delivers (suc fuel) c room stored complete =
      elim (Option-cases (lookup c.next_expected c.reorder_buffer)) [
        | inl absent ↦ rw (absent, drain) (stop-Delivers c absent stored complete)
        | inr (p, present) ↦
            let next = c.next_expected in
            let here : arrived next ≡ true = ground (arith, stored next) in
            let is_sent : p ≡ sent next = ground (arith, stored next) in
            let plain : next_u32 next ≡ next + 1 = omega (arith, below next here) in
            let c' : Channel = record {
              next_expected = next_u32 next;
              reorder_buffer = erase next c.reorder_buffer;
            } in
            let rest =
              drain-Delivers fuel c'
                (omega (arith, length-erase-lt next p c.reorder_buffer present))
                (λ k. ground (arith, plain, lookup-erase next k c.reorder_buffer, stored k))
                (λ k l. ground (arith, plain, here, complete k)) in
            rw (present, drain)
              (cons-Delivers next (next_u32 next) p (drain fuel c') is_sent plain rest)
      ]

abbrev also : ℕ → (ℕ → Bool) → ℕ → Bool
also id arrived k = id == k || arrived k

module _ (sent : ℕ → Packet) (arrived : ℕ → Bool) (bound : ℕ) (small : bound < u32_mod) (id : ℕ)
    (fits : id < bound) (c : Channel) (w : Waits sent arrived bound c) where
  also-below : (k : ℕ) → also id arrived k ≡ true → k < bound
  also-below k h = ground (arith, w.below k)

  deliver-Delivers : Delivers sent (also id arrived) bound c.next_expected (deliver id (sent id) c)
  unfolding deliver
  deliver-Delivers =
      let next = c.next_expected in
      elim (Bool-cases (id == next)) [
        | inl here ↦
            let same : id ≡ next = ground arith in
            let plain : next_u32 next ≡ next + 1 = omega (arith, same) in
            let c' : Channel = record c { next_expected = next_u32 next } in
            rw (here, deliver)
              (cons-Delivers sent (also id arrived) bound small also-below next (next_u32 next)
                (sent id) (drain (length c.reorder_buffer) c') (ap sent same) plain
                (drain-Delivers sent (also id arrived) bound small also-below
                  (length c.reorder_buffer) c' (omega arith)
                  (λ k. ground (arith, plain, w.stored k))
                  (λ k l. ground (arith, plain, w.complete k))))
        | inr elsewhere ↦
            rw (elsewhere, deliver)
              (elim (Bool-cases (ltb next id)) [
                | inl later ↦
                    rw (later, deliver)
                      (record {
                        many = 0;
                        packets = refl;
                        moved = omega arith;
                        waits = record {
                          stored = λ k.
                              ground
                                (arith, lookup-insert id k (sent id) c.reorder_buffer, w.stored k);
                          complete = λ k l. ground (arith, w.complete k);
                          missing = ground (arith, w.missing);
                          below = also-below;
                        };
                      })
                | inr old ↦
                    rw (old, deliver)
                      (record {
                        many = 0;
                        packets = refl;
                        moved = omega arith;
                        waits = record {
                          stored = λ k. ground (arith, w.stored k);
                          complete = λ k l. ground (arith, w.complete k);
                          missing = ground (arith, w.missing);
                          below = also-below;
                        };
                      })
              ])
      ]

-- Packets that arrive on the channel one after the other, each under the ID it was sent with, and all
-- that is delivered meanwhile.
unfoldable pub deliver_all : (ℕ → Packet) → List ℕ → Channel → List Packet × Channel
deliver_all sent [] c = ([], c)
deliver_all sent (id ∷ ids) c =
    let (now, c') = deliver id (sent id) c in
    let (later, c'') = deliver_all sent ids c' in (now ++ later, c'')

abbrev pub empty_channel : Channel
empty_channel = record { next_expected = 0; reorder_buffer = [] }

-- All IDs up to this one are in the list.
abbrev pub contains_through : ℕ → List ℕ → Bool
contains_through zero ids = contains 0 ids
contains_through (suc k) ids = contains (suc k) ids && contains_through k ids

module _ (sent : ℕ → Packet) (bound : ℕ) (small : bound < u32_mod) where
  -- What the channel has delivered and waits for after a run, on top of the earlier arrivals.
  record Served (arrived : ℕ → Bool) (first : ℕ) (ids : List ℕ) (out : List Packet × Channel)
      : Type 0 where
    many : ℕ
    packets : out.0 ≡ segment sent first many
    moved : out.1.next_expected ≡ first + many
    complete : (k : ℕ) → k < out.1.next_expected → (contains k ids || arrived k) ≡ true
    missing : (contains out.1.next_expected ids || arrived out.1.next_expected) ≡ false

  deliver_all-Served :
      (arrived : ℕ → Bool) (ids : List ℕ) (c : Channel)
      → All (λ id. id < bound) ids
      → Waits sent arrived bound c
      → Served arrived c.next_expected ids (deliver_all sent ids c)
  unfolding deliver_all contains
  deliver_all-Served arrived [] c fit w = record {
    many = 0;
    packets = refl;
    moved = omega arith;
    complete = λ k l. w.complete k l;
    missing = w.missing;
  }
  deliver_all-Served arrived (id ∷ ids) c fit w =
      let d = deliver-Delivers sent arrived bound small id fit.0 c w in
      let c' = (deliver id (sent id) c).1 in
      let rest = deliver_all-Served (also id arrived) ids c' fit.1 d.waits in
      record {
        many = d.many + rest.many;
        packets =
            ap₂ ◌++◌ d.packets (rest.packets ∙ ap (λ (i : ℕ). segment sent i rest.many) d.moved)
            ∙ segment-append sent c.next_expected d.many rest.many;
        moved = omega (arith, rest.moved, d.moved);
        complete = λ k l. ground (arith, rest.complete k l);
        missing = ground (arith, rest.missing);
      }

  -- The first ID that is missing bounds the IDs up to which all have arrived.
  through-lt :
      (ids : List ℕ) (next k : ℕ)
      → ((i : ℕ) → i < next → contains i ids ≡ true)
      → contains next ids ≡ false
      → ltb k next ≡ contains_through k ids
  through-lt ids next zero complete missing = ground (arith, complete 0)
  through-lt ids next (suc k) complete missing =
      ground (arith, complete (suc k), through-lt ids next k complete missing)

  empty-Waits : Waits sent (λ k. false) bound empty_channel
  unfolding lookup
  empty-Waits = record {
    stored = λ k. ground arith;
    complete = λ k l. absurd (omega (arith, l));
    missing = refl;
    below = λ k h. cc;
  }

  -- However the packets of one channel arrive, in any order and with any repetitions, as long as
  -- their order IDs do not reach the end of the 32 bits, what has been delivered at the end is the
  -- packets sent under the IDs from 0 on, in order and once each; and the one sent under k is among
  -- them exactly when the packets 0 to k have all arrived.
  pub deliver_all-exact :
      (ids : List ℕ) (k : ℕ)
      → All (λ id. id < bound) ids
      → let out = deliver_all sent ids empty_channel in
        (out.0 ≡ segment sent 0 (length out.0)) × (ltb k (length out.0) ≡ contains_through k ids)
  deliver_all-exact ids k fit =
      let served = deliver_all-Served (λ i. false) ids empty_channel fit empty-Waits in
      let out = deliver_all sent ids empty_channel in
      let count : length out.0 ≡ served.many =
        ap length served.packets ∙ length-segment sent 0 served.many in
      let next : out.1.next_expected ≡ length out.0 = omega (arith, count, served.moved) in
      (
        served.packets ∙ ap (segment sent 0) (sym count),
        ap (ltb k) (sym next)
            ∙ through-lt ids out.1.next_expected k (λ i l. ground (arith, served.complete i l))
                (ground (arith, served.missing)),
      )
