-- ===== src/Peer/ClientRun.antt =====
-- The invariant of client.hpp over any run: the session is one with the server that `connect` named,
-- and the number of retries is bounded.
use mathlib.Core.Path.{subst}
use rtype.Base.{
  ℕ, ◌≤◌, ◌≡◌, refl, ◌∙◌, some-injective, List, [], ◌∷◌, Option, none, some, lookup, ◌==◌, if-rule,
  Option-rule, arith,
}
use rtype.Wire.Endian.{Host}
use rtype.Session.State.{Session, new_session}
use rtype.Session.Outgoing.{send}
use rtype.Session.Identity.{who, who-send}
use rtype.Peer.Store.{
  Store, HasRoom, deref, on_session, make_session, deref-on_session, deref-make_session,
  on_session-HasRoom, make_session-HasRoom,
}
use rtype.Peer.Packets.{connect_packet, disconnect_packet}
use rtype.Peer.Client.{
  Client, ClientConfig, Call, new_client, internal_send, attempt_connection, connect, disconnect,
  answer, max_reconnection_attempts,
}
use rtype.Peer.Connecting.{update, on_receive}
use rtype.Peer.Valid.{endpoint-eq, endpoint-new_session}
use rtype.Peer.ClientStable.{IsClientStable, answer-keeps, update-keeps, on_receive-keeps}

-- The object at an address is a session with an endpoint.
abbrev pub IsWith : Store → ℕ → ℕ → Type 0
IsWith st endpoint a = (x : Session) × (deref a st ≡ some x) × (x.endpoint ≡ endpoint)

pub record IsClient {A : Type 0} (s : Client A) : Type 0 where
  pub alive : (a : ℕ) → s.server_session ≡ some a → IsWith s.store s.server_endpoint a
  pub room : HasRoom s.store
  pub bounded : s.reconnection_retries ≤ max_reconnection_attempts

IsWith-on_session :
    (st : Store) (endpoint a b : ℕ) (f : Session → Session)
    → ((x : Session) → who (f x) ≡ who x)
    → IsWith st endpoint a
    → IsWith (on_session b f st) endpoint a
IsWith-on_session st endpoint a b f keeps (x, found, mine) =
    if-rule
      (λ (o : Option Session).
        deref a (on_session b f st) ≡ o → IsWith (on_session b f st) endpoint a)
      {x = some (f x)} {y = some x} (b == a)
      (λ same e. (f x, e, endpoint-eq (f x) x (keeps x) ∙ mine)) (λ other e. (x, e, mine))
      (ground (arith, deref-on_session b a f st))

module _ {A : Type 0} (host : Host) (now : ℕ) where
  -- A new session with the server, from which a CONNECT is sent.
  attempt_connection-IsClient :
      (s : Client A)
      → HasRoom s.store
      → s.reconnection_retries ≤ max_reconnection_attempts
      → IsClient (attempt_connection host now s)
  unfolding attempt_connection make_session
  attempt_connection-IsClient s room bounded =
      let a = s.store.next_address in
      let st = (make_session now s.server_endpoint s.store).1 in
      let x = new_session s.store.next_id s.server_endpoint now in
      let here : deref a st ≡ some x =
        ground (arith, deref-make_session now s.server_endpoint a s.store) in
      let fresh : IsWith (on_session a (send host now connect_packet) st) s.server_endpoint a =
        IsWith-on_session st s.server_endpoint a a (send host now connect_packet)
          (who-send host now connect_packet)
          (x, here, endpoint-new_session s.store.next_id s.server_endpoint now) in
      record {
        alive = λ b e.
            subst
              (λ (c : ℕ).
                IsWith (on_session a (send host now connect_packet) st) s.server_endpoint c)
              (some-injective e) fresh;
        room = on_session-HasRoom a _ st (make_session-HasRoom now s.server_endpoint s.store room);
        bounded = bounded;
      }

  connect-IsClient :
      (endpoint : ℕ) (s : Client A) → IsClient s → IsClient (connect host now endpoint s)
  unfolding connect
  connect-IsClient endpoint s v =
      if-rule IsClient s.is_connected (λ e. v)
        (λ e. attempt_connection-IsClient _ v.room (omega arith))

  -- What the end of a session leaves of the invariant.
  abbrev IsSound : Client A → Type 0
  IsSound s = HasRoom s.store × (s.reconnection_retries ≤ max_reconnection_attempts)

  internal_send-IsSound :
      (s : Client A) → IsSound s → IsSound (internal_send host now disconnect_packet s)
  unfolding internal_send
  internal_send-IsSound s h =
      Option-rule IsSound s.server_session (λ e. h)
        (λ a e. (on_session-HasRoom a (send host now disconnect_packet) s.store h.0, h.1))

  disconnect-IsClient : (s : Client A) → IsClient s → IsClient (disconnect host now s)
  unfolding disconnect
  disconnect-IsClient s v =
      let h : IsSound s = (v.room, v.bounded) in
      let kept = if-rule IsSound s.is_connected (λ e. internal_send-IsSound s h) (λ e. h) in
      record {
        alive = λ a e. absurd (let no : none ≡ some a = e in cc);
        room = kept.0;
        bounded = kept.1;
      }

IsClient-IsStable : {A : Type 0} (host : Host) → IsClientStable {A = A} host IsClient
IsClient-IsStable host = record {
  on_session = λ a f s keeps v. record {
    alive = λ b e. IsWith-on_session s.store s.server_endpoint b a f keeps (v.alive b e);
    room = on_session-HasRoom a f s.store v.room;
    bounded = v.bounded;
  };
  on_app = λ x s v. record { alive = v.alive; room = v.room; bounded = v.bounded };
  on_queue = λ q s v. record { alive = v.alive; room = v.room; bounded = v.bounded };
  on_ack = λ s v. record { alive = v.alive; room = v.room; bounded = v.bounded };
  on_drop = λ s v. record {
    alive = λ a e. absurd (let no : none ≡ some a = e in cc);
    room = v.room;
    bounded = v.bounded;
  };
  on_connect = λ now endpoint s v. connect-IsClient host now endpoint s v;
  on_leave = λ now s v. disconnect-IsClient host now s v;
  on_retry = λ now s few v. attempt_connection-IsClient host now _ v.room (omega (arith, few));
}

-- Each with the time at which it happens; an update states how many events it may process.
pub data Input (A : Type 0) : Type 0 where
  datagram : ℕ → ℕ → List ℕ → Input A
  tick : ℕ → ℕ → ℕ → Input A
  code : ℕ → A × List Call → Input A

module _ {A : Type 0} (host : Host) (wide : ℕ → ℕ) (config : ClientConfig A) where
  unfoldable pub step : Input A → Client A → Client A
  step (datagram now sender bytes) s = on_receive host wide now sender bytes s
  step (tick now fuel timeout) s = update host config now fuel timeout s
  step (code now r) s = answer host now r s

  unfoldable pub run : List (Input A) → Client A → Client A
  run [] s = s
  run (i ∷ is) s = run is (step i s)

  step-IsClient : (i : Input A) (s : Client A) → IsClient s → IsClient (step i s)
  unfolding step
  step-IsClient (datagram now sender bytes) s v =
      on_receive-keeps host IsClient (IsClient-IsStable host) now wide sender bytes s v
  step-IsClient (tick now fuel timeout) s v =
      update-keeps host IsClient (IsClient-IsStable host) now config fuel timeout s v
  step-IsClient (code now r) s v = answer-keeps host IsClient (IsClient-IsStable host) now r s v

  run-from-IsClient : (is : List (Input A)) (s : Client A) → IsClient s → IsClient (run is s)
  unfolding run
  run-from-IsClient [] s v = v
  run-from-IsClient (i ∷ is) s v = run-from-IsClient is (step i s) (step-IsClient i s v)

  -- After any run of a new client, whatever arrives and whatever the application does, the client has
  -- retried at most three times since it was told to connect, and its session, if it has one, is live
  -- and with the endpoint that it was told to connect to.
  pub run-IsClient : (is : List (Input A)) (a : A) → IsClient (run is (new_client a))
  unfolding lookup
  run-IsClient is a = run-from-IsClient is (new_client a) (record {
    alive = λ b e. absurd (let no : none ≡ some b = e in cc);
    room = λ b h. refl;
    bounded = omega arith;
  })
