-- ===== src/Peer/ServerRun.antt =====
-- A server over a run: datagrams, updates and what the application does between them.
use rtype.Base.{
  ℕ, ◌≡◌, List, [], ◌∷◌, none, some, true, lookup, lookup-insert, lookup-erase, Bool-cases, inl,
  inr, ◌⊎◌, ◌==◌, arith,
}
use rtype.Wire.Endian.{Host}
use rtype.Wire.Header.{is_packet}
use rtype.Peer.Store.{make_session}
use rtype.Peer.Packets.{connect_id}
use rtype.Peer.Server.{Server, ServerConfig, Call, answer, new_server}
use rtype.Peer.Serving.{process_events, update, receive_on, accept, on_receive}
use rtype.Peer.Stable.{
  IsStable, answer-keeps, process_events_from-keeps, notify_disconnected-keeps,
  send_connect_ack-keeps,
}
use rtype.Peer.Valid.{
  IsServer, IsServer-IsStable, new_server-IsServer, on_receive-rule, update-IsServer,
  on_receive-IsServer, sweep-keeps, receive_on-keeps,
}

-- Each with the time at which it happens.
pub data Input (A : Type 0) : Type 0 where
  datagram : ℕ → ℕ → List ℕ → Input A
  tick : ℕ → ℕ → Input A
  code : ℕ → A × List Call → Input A

module _ {A : Type 0} (host : Host) (wide : ℕ → ℕ) (config : ServerConfig A) where
  unfoldable pub step : Input A → Server A → Server A
  step (datagram now sender bytes) s = on_receive host wide config now sender bytes s
  step (tick now timeout) s = update host wide config now timeout s
  step (code now r) s = answer host now r s

  unfoldable pub run : List (Input A) → Server A → Server A
  run [] s = s
  run (i ∷ is) s = run is (step i s)

  step-IsServer : (i : Input A) (s : Server A) → IsServer s → IsServer (step i s)
  unfolding step
  step-IsServer (datagram now sender bytes) s v =
      on_receive-IsServer host wide config now sender bytes s v
  step-IsServer (tick now timeout) s v = update-IsServer host wide config now timeout s v
  step-IsServer (code now r) s v = answer-keeps IsServer IsServer-IsStable host now r s v

  run-from-IsServer : (is : List (Input A)) (s : Server A) → IsServer s → IsServer (run is s)
  unfolding run
  run-from-IsServer [] s v = v
  run-from-IsServer (i ∷ is) s v = run-from-IsServer is (step i s) (step-IsServer i s v)

  -- After any run of a new server, whatever the application does, each entry of `_sessions` points to
  -- a live session of its endpoint, and the endpoints rise.
  pub run-IsServer : (is : List (Input A)) (a : A) → IsServer (run is (new_server a))
  run-IsServer is a = run-from-IsServer is (new_server a) (new_server-IsServer a)

  -- The endpoint has sent a CONNECT during the run.
  abbrev pub HasAsked : ℕ → List (Input A) → Type 0
  HasAsked e [] = ⊥
  HasAsked e (datagram now sender bytes ∷ is) =
      ((sender ≡ e) × (is_packet host connect_id bytes ≡ true)) ⊎ HasAsked e is
  HasAsked e (tick now timeout ∷ is) = HasAsked e is
  HasAsked e (code now r ∷ is) = HasAsked e is

  -- A session that is there was there before.
  abbrev Since : ℕ → ℕ → Server A → Server A → Type 0
  Since e a s t = lookup e t.sessions ≡ some a → lookup e s.sessions ≡ some a

  Since-IsStable : (e a : ℕ) (s : Server A) → IsStable (Since e a s)
  Since-IsStable e a s = record { on_session = λ b f t keeps h. h; on_app = λ x t h. h }

  update-Since :
      (now timeout e a : ℕ) (s : Server A) → Since e a s (update host wide config now timeout s)
  unfolding update process_events
  update-Since now timeout e a s =
      let stable = Since-IsStable e a s in
      notify_disconnected-keeps (Since e a s) stable host wide config now _ _ (
        sweep-keeps host wide config now (Since e a s) timeout _ _ stable
          (λ i t h found. h (ground (arith, lookup-erase i e t.sessions, found)))
          (process_events_from-keeps (Since e a s) stable host wide config now _ s (λ q t h. h)
            (λ found. found)))

  receive_on-Since :
      (now e a b : ℕ) (bytes : List ℕ) (s t : Server A)
      → Since e a s t
      → Since e a s (receive_on host wide config now b bytes t)
  receive_on-Since now e a b bytes s t h =
      receive_on-keeps host wide config now (Since e a s) b bytes t (Since-IsStable e a s)
        (λ q t h. h) h

  accept-asked :
      (now sender : ℕ) (s : Server A) (e a : ℕ)
      → lookup e (accept host wide config now sender s).1.sessions ≡ some a
      → (lookup e s.sessions ≡ some a) ⊎ (sender ≡ e)
  unfolding accept make_session
  accept-asked now sender s e a found = elim (Bool-cases (sender == e)) [
    | inl same ↦ inr (ground (arith, same))
    | inr other ↦ inl (ground (arith, lookup-insert sender e s.store.next_address s.sessions))
  ]

  -- The session of an endpoint was there, or the datagram asks for it.
  abbrev Explained : ℕ → List ℕ → ℕ → ℕ → Server A → Server A → Type 0
  Explained sender bytes e a s t =
      lookup e t.sessions ≡ some a
      → (lookup e s.sessions ≡ some a) ⊎ ((sender ≡ e) × (is_packet host connect_id bytes ≡ true))

  on_receive-asked :
      (now sender : ℕ) (bytes : List ℕ) (s : Server A) (e a : ℕ)
      → Explained sender bytes e a s (on_receive host wide config now sender bytes s)
  on_receive-asked now sender bytes s e a =
      on_receive-rule host wide config now (Explained sender bytes e a s) sender bytes s
        (λ b there asks found.
          inl (
            send_connect_ack-keeps (Since e a s) (Since-IsStable e a s) host now b s (λ h. h)
              found))
        (λ b there other found. inl (receive_on-Since now e a b bytes s s (λ h. h) found))
        (λ absent asks found.
          elim (accept-asked now sender s e a (
            receive_on-Since now e a (accept host wide config now sender s).0 bytes
              (accept host wide config now sender s).1 (accept host wide config now sender s).1
              (λ h. h) found)) [ inl before ↦ inl before | inr same ↦ inr (same, asks) ])
        (λ absent other found. inl found)

  -- An endpoint has a session only if it has asked for one.
  asked_run :
      (is : List (Input A)) (s : Server A) (e a : ℕ)
      → lookup e (run is s).sessions ≡ some a
      → (lookup e s.sessions ≡ some a) ⊎ HasAsked e is
  unfolding run step
  asked_run [] s e a found = inl found
  asked_run (datagram now sender bytes ∷ is) s e a found =
      elim (asked_run is (step (datagram now sender bytes) s) e a found) [
        | inr later ↦ inr (inr later)
        | inl there ↦ elim (on_receive-asked now sender bytes s e a there) [
          | inl before ↦ inl before
          | inr asks ↦ inr (inl asks)
        ]
      ]
  asked_run (tick now timeout ∷ is) s e a found =
      elim (asked_run is (step (tick now timeout) s) e a found) [
        | inr later ↦ inr later
        | inl there ↦ inl (update-Since now timeout e a s there)
      ]
  asked_run (code now r ∷ is) s e a found = elim (asked_run is (step (code now r) s) e a found) [
    | inr later ↦ inr later
    | inl there ↦
        inl (answer-keeps (Since e a s) (Since-IsStable e a s) host now r s (λ h. h) there)
  ]

  -- An endpoint has a session at the end of a run of a new server only if it has sent a CONNECT in
  -- that run, whatever else arrives and whatever the application does.
  pub session_of_asked :
      (is : List (Input A)) (x : A) (e a : ℕ)
      → lookup e (run is (new_server x)).sessions ≡ some a
      → HasAsked e is
  session_of_asked is x e a found = elim (asked_run is (new_server x) e a found) [
    | inl before ↦ absurd (unfold lookup in let no : none ≡ some a = before in cc)
    | inr asked ↦ asked
  ]
