-- ===== src/Session/SentAgain.antt =====
-- `update` in session.cpp: the datagrams of the packets that it sends again.
use mathlib.Core.Path.{subst}
use rtype.Base.{
  ℕ, ◌-◌, ◌≡◌, refl, sym, ap, ◌∙◌, inl, inr, List, [], ◌∷◌, ◌++◌, append_assoc, append-nil, Bool,
  true, false, ltb, leb, Bool-cases, if-eq-then, if-eq-else, if◌then◌else◌, arith,
}
use rtype.Wire.Endian.{Host}
use rtype.Wire.Header.{serialize}
use rtype.Session.State.{Session, SentPacketInfo}
use rtype.Session.Incoming.{is_empty}
use rtype.Session.Outgoing.{
  outgoing_header, raw_send, disconnect, resend, resend_all, resend_timeout, max_resend_attempts,
}

module _ (host : Host) (now : ℕ) where
  pub resend_all-nil : (s : Session) → resend_all host now [] s ≡ (s, true)
  unfolding resend_all
  resend_all-nil s = refl

  module _ (key : ℕ) (info : SentPacketInfo) (rest : List (ℕ × SentPacketInfo)) (s : Session) where
    pub resend_all-skip :
        ltb resend_timeout (now - info.sent_time) ≡ false
        → resend_all host now ((key, info) ∷ rest) s ≡ resend_all host now rest s
    unfolding resend_all
    resend_all-skip in_time = rw (in_time, resend_all) refl

    pub resend_all-give_up :
        ltb resend_timeout (now - info.sent_time) ≡ true
        → leb max_resend_attempts info.retries ≡ true
        → resend_all host now ((key, info) ∷ rest) s ≡ (disconnect host now s, false)
    unfolding resend_all
    resend_all-give_up late often = rw (late, often, resend_all) refl

    pub resend_all-again :
        ltb resend_timeout (now - info.sent_time) ≡ true
        → leb max_resend_attempts info.retries ≡ false
        → resend_all host now ((key, info) ∷ rest) s
          ≡ resend_all host now rest (resend host now key info s)
    unfolding resend_all
    resend_all-again late few = rw (late, few, resend_all) refl

  -- The datagrams of the packets whose time is up, in the order of the map, each under the IDs that it
  -- was sent under.
  unfoldable pub late_datagrams : Session → List (ℕ × SentPacketInfo) → List (List ℕ)
  late_datagrams s [] = []
  late_datagrams s ((key, info) ∷ rest) =
      let others = late_datagrams s rest in
      if ltb resend_timeout (now - info.sent_time)
      then (serialize host (outgoing_header host now info.packet info.sequence_id info.order_id s)
          ++ info.packet.buffer)
        ∷ others
      else others

  late_datagrams-resend :
      (key : ℕ) (info : SentPacketInfo) (s : Session) (rest : List (ℕ × SentPacketInfo))
      → late_datagrams (resend host now key info s) rest ≡ late_datagrams s rest
  unfolding late_datagrams resend raw_send outgoing_header
  late_datagrams-resend key info s [] = refl
  late_datagrams-resend key info s ((k, i) ∷ rest) =
      ap
        (λ (others : List (List ℕ)).
          if ltb resend_timeout (now - i.sent_time)
          then (serialize host (outgoing_header host now i.packet i.sequence_id i.order_id s)
              ++ i.packet.buffer)
            ∷ others
          else others)
        (late_datagrams-resend key info s rest)

  -- Where there is no send function, nothing is handed on.
  unfoldable pub handed_on : Session → List (List ℕ) → List (List ℕ)
  handed_on s datagrams = if s.has_send_function then datagrams else []

  handed_on-nil : (s : Session) → s.transmitted ≡ s.transmitted ++ handed_on s []
  unfolding handed_on
  handed_on-nil s = elim (Bool-cases s.has_send_function) [
    | inl set ↦ rw set (sym (append-nil s.transmitted))
    | inr unset ↦ rw unset (sym (append-nil s.transmitted))
  ]

  -- What the loop leaves that did not give the connection up.
  abbrev pub Sends : Session → List (List ℕ) → Session × Bool → Type 0
  Sends s datagrams r =
      r.1 ≡ true
      → (r.0.transmitted ≡ s.transmitted ++ handed_on s datagrams)
        × (r.0.has_unsent_ack ≡ (if is_empty datagrams then s.has_unsent_ack else false))

  module _ (key : ℕ) (info : SentPacketInfo) (s : Session) where
    abbrev datagram : List ℕ
    datagram =
        serialize host (outgoing_header host now info.packet info.sequence_id info.order_id s)
        ++ info.packet.buffer

    resend-transmitted :
        (resend host now key info s).transmitted
        ≡ (if s.has_send_function then s.transmitted ++ datagram ∷ [] else s.transmitted)
    unfolding resend raw_send
    resend-transmitted = refl

    resend-rest :
        ((resend host now key info s).has_send_function ≡ s.has_send_function)
        × ((resend host now key info s).has_unsent_ack ≡ false)
    unfolding resend raw_send
    resend-rest = (refl, refl)

    handed_on-resend :
        (datagrams : List (List ℕ))
        → (resend host now key info s).transmitted
            ++ handed_on (resend host now key info s) datagrams
          ≡ s.transmitted ++ handed_on s (datagram ∷ datagrams)
    unfolding handed_on outgoing_header
    handed_on-resend datagrams =
        rw (resend-transmitted, resend-rest.0)
          (elim (Bool-cases s.has_send_function) [
            | inl set ↦ rw set (append_assoc s.transmitted (datagram ∷ []) datagrams)
            | inr unset ↦ rw unset refl
          ])

    Sends-resend :
        (datagrams : List (List ℕ)) (r : Session × Bool)
        → Sends (resend host now key info s) datagrams r
        → Sends s (datagram ∷ datagrams) r
    Sends-resend datagrams r sends through =
        let (transmitted, unsent) = sends through in
        (transmitted ∙ handed_on-resend datagrams, ground (arith, unsent, resend-rest.1))

  pub resend_all-Sends :
      (rest : List (ℕ × SentPacketInfo)) (s : Session)
      → Sends s (late_datagrams s rest) (resend_all host now rest s)
  unfolding late_datagrams
  resend_all-Sends [] s =
      subst (λ (r : Session × Bool). Sends s [] r) (sym (resend_all-nil s))
        (λ through. (handed_on-nil s, refl))
  resend_all-Sends ((key, info) ∷ rest) s =
      elim (Bool-cases (ltb resend_timeout (now - info.sent_time))) [
        | inr in_time ↦
            subst (λ (ds : List (List ℕ)). Sends s ds (resend_all host now ((key, info) ∷ rest) s))
              (sym (if-eq-else _ _ in_time))
              (subst (λ (r : Session × Bool). Sends s (late_datagrams s rest) r)
                (sym (resend_all-skip key info rest s in_time)) (resend_all-Sends rest s))
        | inl late ↦
            subst (λ (ds : List (List ℕ)). Sends s ds (resend_all host now ((key, info) ∷ rest) s))
              (sym (if-eq-then _ _ late))
              (elim (Bool-cases (leb max_resend_attempts info.retries)) [
                | inl often ↦
                    subst
                      (λ (r : Session × Bool).
                        Sends s (datagram key info s ∷ late_datagrams s rest) r)
                      (sym (resend_all-give_up key info rest s late often))
                      (λ through. absurd (let e : false ≡ true = through in cc))
                | inr few ↦
                    subst
                      (λ (r : Session × Bool).
                        Sends s (datagram key info s ∷ late_datagrams s rest) r)
                      (sym (resend_all-again key info rest s late few))
                      (Sends-resend key info s (late_datagrams s rest)
                        (resend_all host now rest (resend host now key info s))
                        (subst
                          (λ (ds : List (List ℕ)).
                            Sends (resend host now key info s) ds
                              (resend_all host now rest (resend host now key info s)))
                          (late_datagrams-resend key info s rest)
                          (resend_all-Sends rest (resend host now key info s))))
              ])
      ]

  -- Where no packet is late, the loop does nothing.
  pub resend_all-none :
      (rest : List (ℕ × SentPacketInfo)) (s : Session)
      → is_empty (late_datagrams s rest) ≡ true
      → resend_all host now rest s ≡ (s, true)
  unfolding late_datagrams
  resend_all-none [] s none_late = resend_all-nil s
  resend_all-none ((key, info) ∷ rest) s none_late =
      elim (Bool-cases (ltb resend_timeout (now - info.sent_time))) [
        | inr in_time ↦
            resend_all-skip key info rest s in_time
            ∙ resend_all-none rest s (ap is_empty (sym (if-eq-else _ _ in_time)) ∙ none_late)
        | inl late ↦
            absurd
              (let e : false ≡ true = ap is_empty (sym (if-eq-then _ _ late)) ∙ none_late in cc)
      ]
