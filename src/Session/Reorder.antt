-- ===== src/Session/Reorder.antt =====
-- The reorder buffer of one channel in lib/rtnt/src/core/session.cpp, the last part of
-- `handleIncoming`: an ordered packet is delivered with all that it was missing, kept, or ignored.
use rtype.Base.{
  ℕ, zero, suc, List, [], ◌∷◌, none, some, ◌==◌, ltb, length, lookup, insert, erase, if◌then◌else◌,
}
use rtype.Wire.Packet.{Packet}
use rtype.Session.State.{next_u32}

-- `_nextExpectedOrderIds[channel]` and `_reorderBuffers[channel]`.
pub record Channel : Type 0 where
  pub next_expected : ℕ
  pub reorder_buffer : List (ℕ × Packet)

-- `while (reorderBuffer.contains(nextExpected))`: a round takes an entry out, so the size of the buffer
-- is fuel enough. The packets come out in order, with the channel that is left.
unfoldable pub drain : ℕ → Channel → List Packet × Channel
drain zero c = ([], c)
drain (suc fuel) c = elim (lookup c.next_expected c.reorder_buffer) [
  | none ↦ ([], c)
  | some p ↦
      let (ready, c') = drain fuel (record {
        next_expected = next_u32 c.next_expected;
        reorder_buffer = erase c.next_expected c.reorder_buffer;
      }) in
      (p ∷ ready, c')
]

unfoldable pub deliver : ℕ → Packet → Channel → List Packet × Channel
deliver order_id p c =
    let (ready, c') =
      drain (length c.reorder_buffer) (record c { next_expected = next_u32 c.next_expected }) in
    if order_id == c.next_expected
    then (p ∷ ready, c')
    else if ltb c.next_expected order_id
    then ([], record c { reorder_buffer = insert order_id p c.reorder_buffer })
    else ([], c)
