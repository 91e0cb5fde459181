-- ===== src/Session/RichAck.antt =====
-- `_internal_sendAck` in session.cpp: what the peer reads of the chunks that it sends.
use rtype.Base.{ℕ, ◌<◌, ◌≡◌, true, u32_mod}
use rtype.Wire.Endian.{Host}
use rtype.Wire.Packet.{Packet}
use rtype.Session.State.{Session, next_u32}

-- A session that can number and send a packet.
pub record IsReady (s : Session) : Type 0 where
  pub sequence_fits : s.local_sequence_id < u32_mod
  pub acknowledge_fits : s.remote_acknowledge_id < u32_mod
  pub bitfield_fits : s.remote_acknowledge_bitfield < u32_mod
  pub connected : s.has_send_function ≡ true

module _ (host : Host) (now : ℕ) where
  abbrev counted : Session → Session
  counted s = record s { local_sequence_id = next_u32 s.local_sequence_id }
