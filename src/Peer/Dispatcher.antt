-- ===== src/Peer/Dispatcher.antt =====
-- lib/rtnt/include/rtnt/core/dispatcher.hpp and src/core/dispatcher.cpp: the handlers by packet ID.
-- A handler acts on the state `S` of the program around it; a session is an address.
use rtype.Base.{
  ℕ, ◌≡◌, List, none, some, lookup, insert, contains_key, lookup-insert, ◌==◌, if◌then◌else◌, arith,
}
use rtype.Wire.Packet.{Packet, Stream, Outcome, done, throws}

-- A call that may throw: either way the state is as it was left.
pub data Attempt {ℓ} (S : Type ℓ) : Type ℓ where
  finished : S → Attempt S
  raised : S → Attempt S

abbrev pub left_by {ℓ} : {S : Type ℓ} → Attempt S → S
left_by (finished s) = s
left_by (raised s) = s

-- `PacketHandler`: the packet is passed by reference.
abbrev pub Handler : Type 0 → Type 0
Handler S = ℕ → Packet → S → S × Packet

abbrev pub Dispatcher : Type 0 → Type 0
Dispatcher S = List (ℕ × Handler S)

module _ {S T : Type 0} (id : ℕ) (read : Stream T) (callback : ℕ → T → S → Attempt S) where
  -- What follows the read in the lambda of `registerHandler`: what the callback throws, or the read,
  -- goes to the log.
  abbrev pub after_read : ℕ → S → Outcome T → S × Packet
  after_read session s (done data' q) = (left_by (callback session data' s), q)
  after_read session s (throws _ q) = (s, q)

  unfoldable pub handler : Handler S
  handler session p s = after_read session s (read p)

  unfoldable pub register_handler : Dispatcher S → Dispatcher S
  register_handler d = if contains_key id d then d else insert id handler d

  -- The first binding of an ID stays; another ID is not touched.
  pub lookup-register_handler :
      (k : ℕ) (d : Dispatcher S)
      → lookup k (register_handler d) ≡ (
          if id == k
          then elim (lookup k d) [ none ↦ some handler | some h ↦ some h ]
          else lookup k d)
  unfolding register_handler
  lookup-register_handler k d = ground (arith, lookup-insert id k handler d)

module _ {S : Type 0} where
  unfoldable pub dispatch : Dispatcher S → ℕ → Packet → S → S × Packet
  dispatch d session p s = elim (lookup p.message_id d) [
    | none ↦ (s, p)
    | some handle ↦ handle session p s
  ]
