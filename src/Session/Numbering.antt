-- ===== src/Session/Numbering.antt =====
-- The counters of `send` in session.cpp over a run of packets.
use rtype.Base.{ℕ, ◌+◌, List, [], ◌∷◌, ◌&&◌, ◌==◌, lookup_or, if◌then◌else◌}
use rtype.Wire.Endian.{Host}
use rtype.Wire.Packet.{Packet}
use rtype.Session.State.{Session}
use rtype.Session.Outgoing.{send, is_ordered}

-- The packets of a run that are ordered on one channel.
unfoldable pub count_ordered : ℕ → List Packet → ℕ
count_ordered c [] = 0
count_ordered c (p ∷ ps) = (if is_ordered p && p.channel_id == c then 1 else 0) + count_ordered c ps

-- The order ID that the next ordered packet of a channel takes.
abbrev pub next_order : ℕ → Session → ℕ
next_order c s = lookup_or c 0 s.local_order_ids

module _ (host : Host) (now : ℕ) where
  unfoldable pub send_all : List Packet → Session → Session
  send_all [] s = s
  send_all (p ∷ ps) s = send_all ps (send host now p s)
