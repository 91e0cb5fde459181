-- ===== src/Session/WideShift.antt =====
-- What `updateAcknowledgeInfo` does when a packet arrives exactly 32 ahead of the window's head on a
-- machine whose shift instruction looks at the low five bits of the count, as on x86-64.
use rtype.Base.{
  ℕ, ◌+◌, ◌-◌, ◌^◌, ◌<◌, ◌≡◌, true, false, bit_at, bit_at-or, bit_or, has_bit-bit_at, u32_mod,
  arith,
}
use rtype.Session.Window.{Window, advance_head, update_acknowledge_info, is_duplicate}
use rtype.Session.Received.{IsWindow}

-- On hardware that takes the count of a shift modulo 32, let the head of the window move by exactly 32.
-- There every packet that stands in the bitfield, at bit j below 31, makes `isDuplicate` report an ID
-- that is ahead of the old head, and that was not reported before, as a duplicate.
pub is_duplicate-wide_shift :
    (w : Window) (j : ℕ)
    → IsWindow w
    → w.has_received_remote_packet ≡ true
    → w.remote_acknowledge_id + 32 < u32_mod
    → bit_at w.remote_acknowledge_bitfield j ≡ true
    → j < 31
    → let fresh = w.remote_acknowledge_id + 31 - j in
      (is_duplicate w fresh ≡ false)
      × (is_duplicate (update_acknowledge_info (λ b. b) w (w.remote_acknowledge_id + 32)) fresh
          ≡ true)
unfolding is_duplicate update_acknowledge_info advance_head
is_duplicate-wide_shift w j v received fits set low =
    let ack = w.remote_acknowledge_id in
    let bits' = bit_or w.remote_acknowledge_bitfield (2 ^ 31) in
    (
      ground arith,
      ground (arith, has_bit-bit_at bits' j, bit_at-or w.remote_acknowledge_bitfield (2 ^ 31) j),
    )
