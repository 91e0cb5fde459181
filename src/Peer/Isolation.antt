-- ===== src/Peer/Isolation.antt =====
-- `onReceive` of server.cpp: a datagram reaches the session of its sender only.
use rtype.Base.{
  ℕ, ◌≡◌, ◌≢◌, refl, ◌∙◌, List, Option, none, some, lookup, lookup-insert, Option-cases, inl, inr,
  arith,
}
use rtype.Wire.Endian.{Host}
use rtype.Session.State.{Session}
use rtype.Peer.Store.{deref, on_session, make_session, deref-on_session, deref-make_session}
use rtype.Peer.Server.{Server, ServerConfig, on_server_session}
use rtype.Peer.Internal.{send_connect_ack}
use rtype.Peer.Serving.{receive_on, accept, on_receive}
use rtype.Peer.Valid.{IsServer, on_receive-rule, accept-IsServer}
use rtype.Peer.Sweep.{Holds-ne}

-- The session of an endpoint.
unfoldable pub session_of : {A : Type 0} → ℕ → Server A → Option Session
session_of e s = elim (lookup e s.sessions) [ none ↦ none | some a ↦ deref a s.store ]

module _ {A : Type 0} (e sender : ℕ) (other : e ≢ sender) where
  deref_other :
      (s : Server A) (a b : ℕ) (f : Session → Session)
      → IsServer s
      → lookup sender s.sessions ≡ some a
      → lookup e s.sessions ≡ some b
      → deref b (on_session a f s.store) ≡ deref b s.store
  deref_other s a b f v mine yours =
      let apart = Holds-ne s e sender b a other (v.alive e b yours) (v.alive sender a mine) in
      ground (arith, apart, deref-on_session a b f s.store)

  session_of-on_session :
      (s : Server A) (a : ℕ) (f : Session → Session)
      → IsServer s
      → lookup sender s.sessions ≡ some a
      → session_of e (on_server_session a f s) ≡ session_of e s
  unfolding session_of
  session_of-on_session s a f v mine = elim (Option-cases (lookup e s.sessions)) [
    | inl absent ↦ rw (absent, session_of) refl
    | inr (b, yours) ↦ rw (yours, session_of) (deref_other s a b f v mine yours)
  ]

  module _ (host : Host) (wide : ℕ → ℕ) (config : ServerConfig A) (now : ℕ) where
    session_of-receive_on :
        (s : Server A) (a : ℕ) (bytes : List ℕ)
        → IsServer s
        → lookup sender s.sessions ≡ some a
        → session_of e (receive_on host wide config now a bytes s) ≡ session_of e s
    unfolding receive_on session_of
    session_of-receive_on s a bytes v mine = elim (Option-cases (deref a s.store)) [
      | inl gone ↦ rw (gone, receive_on) refl
      | inr (x, there) ↦ rw (there, receive_on) (session_of-on_session s a _ v mine)
    ]

    session_of-accept :
        (s : Server A)
        → IsServer s
        → session_of e (accept host wide config now sender s).1 ≡ session_of e s
    unfolding accept session_of make_session
    session_of-accept s v = elim (Option-cases (lookup e s.sessions)) [
      | inl absent ↦ ground (arith, lookup-insert sender e s.store.next_address s.sessions)
      | inr (b, yours) ↦
          let (x, found, mine) = v.alive e b yours in
          ground (
            arith,
            found,
            v.room b,
            lookup-insert sender e s.store.next_address s.sessions,
            deref-make_session now sender b s.store,
          )
    ]

    lookup-accept :
        (s : Server A)
        → lookup sender (accept host wide config now sender s).1.sessions
          ≡ some (accept host wide config now sender s).0
    unfolding accept make_session
    lookup-accept s = ground (arith, lookup-insert sender sender s.store.next_address s.sessions)

    -- In a well-formed server, a datagram, whatever it holds, leaves the session of any endpoint but
    -- its sender as it was: nothing in it changes, and none appears or goes.
    pub session_of-on_receive :
        (bytes : List ℕ) (s : Server A)
        → IsServer s
        → session_of e (on_receive host wide config now sender bytes s) ≡ session_of e s
    unfolding send_connect_ack
    session_of-on_receive bytes s v =
        on_receive-rule host wide config now (λ t. session_of e t ≡ session_of e s) sender bytes s
          (λ a there asks. session_of-on_session s a _ v there)
          (λ a there no. session_of-receive_on s a bytes v there)
          (λ absent asks.
            session_of-receive_on (accept host wide config now sender s).1 _ bytes
              (accept-IsServer host wide config now sender s v) (lookup-accept s)
            ∙ session_of-accept s v)
          (λ absent no. refl)
