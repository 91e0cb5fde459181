-- ===== src/Peer/GiveUp.antt =====
-- `update` of client.cpp while the server does not answer.
use mathlib.Core.Path.{subst}
use rtype.Base.{
  ℕ, zero, suc, ◌+◌, ◌-◌, ◌%◌, ◌≤◌, ◌<◌, ◌≡◌, refl, sym, ap, ◌∙◌, List, [], ◌∷◌, length, map, none,
  some, true, false, ltb, if-eq-then, if-eq-else, elim-eq-some, elim-eq-none, if◌then◌else◌, ◌||◌,
  u8_mod, arith,
}
use rtype.Wire.Endian.{Host}
use rtype.Wire.Packet.{Packet}
use rtype.Session.State.{Session, new_session}
use rtype.Session.Outgoing.{raw_send, remember_sent, take_order_id, send}
use rtype.Session.Outgoing
use rtype.Peer.Queue.{pop}
use rtype.Peer.Store.{deref, make_session, deref-on_session, deref-make_session}
use rtype.Peer.Packets.{connect_packet}
use rtype.Peer.Client.{
  Client, ClientConfig, on_client_session, attempt_connection, max_reconnection_attempts,
  reconnection_timeout,
}
use rtype.Peer.Connecting.{process_events, maintain, retry, check, update}
use rtype.Peer.ClientRun.{tick, step, run}

-- The client waits for the answer to a CONNECT: its session is open, and nothing has come in.
pub record IsWaiting {A : Type 0} (s : Client A) : Type 0 where
  pub address : ℕ
  pub session : Session
  pub has_session : s.server_session ≡ some address
  pub stored : deref address s.store ≡ some session
  pub open_still : session.should_close ≡ false
  pub off : s.is_connected ≡ false
  pub idle : s.event_queue ≡ []

close-send :
    (host : Host) (now : ℕ) (p : Packet) (x : Session)
    → (send host now p x).should_close ≡ x.should_close
unfolding send raw_send remember_sent take_order_id
close-send host now p x = ground arith

close-new_session : (id endpoint now : ℕ) → (new_session id endpoint now).should_close ≡ false
unfolding new_session
close-new_session id endpoint now = refl

module _ {A : Type 0} (host : Host) (config : ClientConfig A) (now : ℕ) where
  pub attempt_connection-IsWaiting :
      (s : Client A)
      → s.is_connected ≡ false
      → s.event_queue ≡ []
      → IsWaiting (attempt_connection host now s)
  unfolding attempt_connection make_session
  attempt_connection-IsWaiting s off idle =
      let x = new_session s.store.next_id s.server_endpoint now in
      let a = s.store.next_address in
      let st = (make_session now s.server_endpoint s.store).1 in
      record {
        address = a;
        session = send host now connect_packet x;
        has_session = refl;
        stored = ground (
          arith,
          deref-on_session a a (send host now connect_packet) st,
          deref-make_session now s.server_endpoint a s.store,
        );
        open_still =
            close-send host now connect_packet x
            ∙ close-new_session s.store.next_id s.server_endpoint now;
        off = off;
        idle = idle;
      }

  pub process_events-idle :
      (fuel : ℕ) (s : Client A) → s.event_queue ≡ [] → process_events host config now fuel s ≡ s
  unfolding process_events pop
  process_events-idle zero s idle = refl
  process_events-idle (suc fuel) s idle = elim-eq-none _ _ (ap pop idle)

  -- An update that finds a waiting client late.
  check-late :
      (timeout : ℕ) (s : Client A) (v : IsWaiting s)
      → reconnection_timeout < now - s.last_connection_attempt
      → check host config now timeout s ≡ (
          if ltb s.reconnection_retries max_reconnection_attempts
          then attempt_connection host now
              (record s { reconnection_retries = (s.reconnection_retries + 1) % u8_mod })
          else on_client_session v.address
              (Outgoing.update host now)
              (record s { server_session = none }))
  unfolding check retry maintain
  check-late timeout s v late =
      elim-eq-some _ _ v.has_session
      ∙ elim-eq-some _ _ v.stored
      ∙ if-eq-else _ _ v.off
      ∙ if-eq-then _ _ (
          let e : (ltb reconnection_timeout (now - s.last_connection_attempt)
                || v.session.should_close)
              ≡ true =
            ground (arith, late) in
          e)
      ∙ ap
          (λ (t : Client A).
            if ltb s.reconnection_retries max_reconnection_attempts
            then attempt_connection host now
                (record s { reconnection_retries = (s.reconnection_retries + 1) % u8_mod })
            else t)
          (if-eq-else _ _ v.open_still)

  retries-attempt_connection :
      (s : Client A) → (attempt_connection host now s).reconnection_retries ≡ s.reconnection_retries
  unfolding attempt_connection
  retries-attempt_connection s = refl

  last-attempt_connection :
      (s : Client A) → (attempt_connection host now s).last_connection_attempt ≡ now
  unfolding attempt_connection
  last-attempt_connection s = refl

  -- Nothing happens to a client that has no session and no event.
  update-idle :
      (fuel timeout : ℕ) (s : Client A)
      → s.server_session ≡ none
      → s.event_queue ≡ []
      → update host config now fuel timeout s ≡ s
  unfolding update check
  update-idle fuel timeout s gone idle =
      ap (check host config now timeout) (process_events-idle fuel s idle) ∙ elim-eq-none _ _ gone

-- Each time is more than the timeout of an attempt behind the one before it.
abbrev pub IsLate : ℕ → List ℕ → Type 0
IsLate last [] = Unit
IsLate last (t ∷ ts) = (reconnection_timeout < t - last) × IsLate t ts

-- The client has no session, no event is pending, and no update will ever change it.
pub record HasGivenUp {A : Type 0} (host : Host) (config : ClientConfig A) (s : Client A)
    : Type 0 where
  pub no_session : s.server_session ≡ none
  pub off : s.is_connected ≡ false
  pub retried : s.reconnection_retries ≡ max_reconnection_attempts
  pub silent : s.event_queue ≡ []
  pub at_rest : (now fuel timeout : ℕ) → update host config now fuel timeout s ≡ s

module _ {A : Type 0} (host : Host) (wide : ℕ → ℕ) (config : ClientConfig A)
    (fuel timeout : ℕ) where
  update-late :
      (now : ℕ) (s : Client A) (v : IsWaiting s)
      → reconnection_timeout < now - s.last_connection_attempt
      → update host config now fuel timeout s ≡ (
          if ltb s.reconnection_retries max_reconnection_attempts
          then attempt_connection host now
              (record s { reconnection_retries = (s.reconnection_retries + 1) % u8_mod })
          else on_client_session v.address
              (Outgoing.update host now)
              (record s { server_session = none }))
  unfolding update
  update-late now s v late =
      ap (check host config now timeout) (process_events-idle host config now fuel s v.idle)
      ∙ check-late host config now timeout s v late

  last_update :
      (now : ℕ) (s : Client A)
      → IsWaiting s
      → s.reconnection_retries ≡ max_reconnection_attempts
      → reconnection_timeout < now - s.last_connection_attempt
      → HasGivenUp host config (update host config now fuel timeout s)
  last_update now s v spent late =
      let given_up =
        on_client_session v.address (Outgoing.update host now)
          (record s { server_session = none }) in
      let e : update host config now fuel timeout s ≡ given_up =
        update-late now s v late
        ∙ if-eq-else _ _ (
            let no : ltb s.reconnection_retries max_reconnection_attempts ≡ false =
              ground (arith, spent) in
            no) in
      subst (HasGivenUp host config) (sym e) (record {
        no_session = refl;
        off = v.off;
        retried = spent;
        silent = v.idle;
        at_rest =
            λ now' fuel' timeout'. update-idle host config now' fuel' timeout' given_up refl v.idle;
      })

  -- If no answer comes, and each update comes more than two seconds after the attempt before it, a
  -- client that waits for an answer gives up for good with the fourth attempt that fails: its session
  -- is gone, and no event tells the application.
  pub gives_up :
      (times : List ℕ) (s : Client A)
      → IsWaiting s
      → s.reconnection_retries ≤ max_reconnection_attempts
      → s.reconnection_retries + length times ≡ max_reconnection_attempts + 1
      → IsLate s.last_connection_attempt times
      → HasGivenUp host config (run host wide config (map (λ t. tick t fuel timeout) times) s)
  unfolding run step
  gives_up [] s v few count late = absurd (omega (arith, few, count))
  gives_up (t ∷ []) s v few count late = last_update t s v (omega (arith, count)) late.0
  gives_up (t ∷ u ∷ ts) s v few count late =
      let again : Client A = record s {
        reconnection_retries = (s.reconnection_retries + 1) % u8_mod;
      } in
      let e : update host config t fuel timeout s ≡ attempt_connection host t again =
        update-late t s v late.0
        ∙ if-eq-then _ _ (
            let yes : ltb s.reconnection_retries max_reconnection_attempts ≡ true =
              ground (arith, count) in
            yes) in
      let retries = retries-attempt_connection host config t again in
      subst
        (λ (c : Client A).
          HasGivenUp host config (run host wide config (map (λ t. tick t fuel timeout) (u ∷ ts)) c))
        (sym e)
        (gives_up (u ∷ ts) (attempt_connection host t again)
          (attempt_connection-IsWaiting host config t again v.off v.idle)
          (omega (arith, retries, few, count)) (omega (arith, retries, few, count))
          (subst (λ (l : ℕ). IsLate l (u ∷ ts)) (sym (last-attempt_connection host config t again))
            late.1))
