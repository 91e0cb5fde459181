-- ===== src/Session/Resend.antt =====
-- `update` in session.cpp: what is left to retransmit after it ran.
use rtype.Base.{
  ℕ, ◌-◌, ◌≤◌, ◌≡◌, List, [], none, some, Option, Bool, true, false, ◌&&◌, ltb, lookup, ◌++◌,
  if◌then◌else◌, ◌⊎◌,
}
use rtype.Wire.Endian.{Host}
use rtype.Session.State.{Session, SentPacketInfo}
use rtype.Session.Incoming.{is_empty}
use rtype.Session.SentAgain.{late_datagrams, handed_on}
use rtype.Session.Outgoing.{
  internal_send_ack, resend_all, update, resend_timeout, max_resend_attempts, ack_timeout,
}

module _ (host : Host) (now : ℕ) where
  -- Each packet that is kept was sent again at most eight times, and either its time is not up or the
  -- loop has it still to do.
  IsPending : List (ℕ × SentPacketInfo) → Session → Type 0
  IsPending rest s =
      (k : ℕ) (info : SentPacketInfo)
      → lookup k s.sent_packets ≡ some info
      → (info.retries ≤ max_resend_attempts)
        × ((now - info.sent_time ≤ resend_timeout) ⊎ (lookup k rest ≡ some info))

  -- How the loop ends: it closed the session, or nothing is left to do.
  Ends : Session × Bool → Type 0
  Ends r = (r.0.should_close ≡ true) ⊎ ((r.1 ≡ true) × IsPending [] r.0)

  -- The acknowledgement behind the loop.
  finish : Session × Bool → Session
  finish r =
      if r.1 && (r.0.has_unsent_ack && ltb ack_timeout (now - r.0.last_ack_time))
      then internal_send_ack host now r.0
      else r.0

  abbrev late_ones : Session → List (List ℕ)
  late_ones s = late_datagrams host now s s.sent_packets

  -- The datagrams of the packets whose time is up or, where there is none, of an acknowledgement that is
  -- due, behind what was handed on before.
  unfoldable pub due_datagrams : Session → List (List ℕ)
  due_datagrams s =
      if is_empty (late_ones s)
      then (if s.has_unsent_ack && ltb ack_timeout (now - s.last_ack_time)
          then (internal_send_ack host now s).transmitted
          else s.transmitted)
      else s.transmitted ++ handed_on host now s (late_ones s)

  -- What is to hold of the packet under a key, where there is one.
  unfoldable pub IsRecent : Option SentPacketInfo → Type 0
  IsRecent none = Unit
  IsRecent (some info) =
      (info.retries ≤ max_resend_attempts) × (now - info.sent_time ≤ resend_timeout)

  module _ (s : Session)
      (few : (j : ℕ) (i : SentPacketInfo)
        → lookup j s.sent_packets ≡ some i
        → i.retries ≤ max_resend_attempts)
      (alive : (update host now s).should_close ≡ false) where
    abbrev looped : Session × Bool
    looped = resend_all host now s.sent_packets s
