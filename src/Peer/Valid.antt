-- ===== src/Peer/Valid.antt =====
-- The invariant of server.hpp: each entry of `_sessions` points to a session of its endpoint.
use rtype.Base.{
  ℕ, ◌≡◌, refl, ap, ◌∙◌, List, [], ◌∷◌, none, some, true, false, lookup, erase, lookup-insert,
  lookup-erase, IsSorted, insert-IsSorted, erase-IsSorted, Bool-cases, Option-cases, inl, inr, ◌==◌,
  arith,
}
use rtype.Wire.Endian.{Host}
use rtype.Wire.Header.{is_packet}
use rtype.Session.State.{Session, new_session}
use rtype.Session.Identity.{Identity, who, who-update, who-handle_incoming}
use rtype.Peer.Store.{
  HasRoom, deref, make_session, deref-on_session, on_session-HasRoom, make_session-HasRoom,
  deref-make_session,
}
use rtype.Peer.Packets.{connect_id}
use rtype.Peer.Server.{Server, ServerConfig, Event, on_server_session, new_server}
use rtype.Peer.Internal.{send_connect_ack}
use rtype.Peer.Serving.{is_expired, sweep, process_events, update, receive_on, accept, on_receive}
use rtype.Peer.Stable.{
  IsStable, process_events_from-keeps, notify_disconnected-keeps, send_connect_ack-keeps,
}

-- The session of an endpoint.
abbrev pub Holds : {A : Type 0} → Server A → ℕ → ℕ → Type 0
Holds s endpoint a = (x : Session) × (deref a s.store ≡ some x) × (x.endpoint ≡ endpoint)

pub record IsServer {A : Type 0} (s : Server A) : Type 0 where
  pub alive : (endpoint a : ℕ) → lookup endpoint s.sessions ≡ some a → Holds s endpoint a
  pub room : HasRoom s.store
  pub sorted : IsSorted s.sessions

pub endpoint-eq : (x y : Session) → who x ≡ who y → x.endpoint ≡ y.endpoint
endpoint-eq x y e = ap (λ (i : Identity). i.endpoint) e

pub endpoint-new_session : (id endpoint now : ℕ) → (new_session id endpoint now).endpoint ≡ endpoint
unfolding new_session
endpoint-new_session id endpoint now = refl

pub Holds-on_session :
    {A : Type 0} (s : Server A) (endpoint a b : ℕ) (f : Session → Session)
    → ((x : Session) → who (f x) ≡ who x)
    → Holds s endpoint a
    → Holds (on_server_session b f s) endpoint a
Holds-on_session s endpoint a b f keeps (x, found, mine) = elim (Bool-cases (b == a)) [
  | inl same ↦
      (f x, ground (arith, deref-on_session b a f s.store), endpoint-eq (f x) x (keeps x) ∙ mine)
  | inr other ↦ (x, ground (arith, deref-on_session b a f s.store), mine)
]

pub IsServer-IsStable : {A : Type 0} → IsStable {A = A} IsServer
IsServer-IsStable = record {
  on_session = λ a f s keeps v. record {
    alive = λ endpoint b found. Holds-on_session s endpoint b a f keeps (v.alive endpoint b found);
    room = on_session-HasRoom a f s.store v.room;
    sorted = v.sorted;
  };
  on_app = λ x s v. record { alive = v.alive; room = v.room; sorted = v.sorted };
}

pub on_queue-IsServer :
    {A : Type 0} (q : List Event) (s : Server A)
    → IsServer s
    → IsServer (record s { event_queue = q })
on_queue-IsServer q s v = record { alive = v.alive; room = v.room; sorted = v.sorted }

pub new_server-IsServer : {A : Type 0} (a : A) → IsServer (new_server a)
unfolding lookup IsSorted
new_server-IsServer a = record {
  alive = λ endpoint b found. absurd (let e : none ≡ some b = found in cc);
  room = λ b h. refl;
  sorted = tt;
}

module _ {A : Type 0} (host : Host) (wide : ℕ → ℕ) (config : ServerConfig A) (now : ℕ) where
  pub process_events-IsServer :
      (s : Server A) → IsServer s → IsServer (process_events host wide config now s)
  unfolding process_events
  process_events-IsServer s v =
      process_events_from-keeps IsServer IsServer-IsStable host wide config now _ s
        on_queue-IsServer v

  -- The loop of `update` keeps what a method of a session and a removal from the map keep.
  pub sweep-keeps :
      (P : Server A → Type 0) (timeout : ℕ) (l : List (ℕ × ℕ)) (s : Server A)
      → IsStable P
      → ((e : ℕ) (t : Server A) → P t → P (record t { sessions = erase e t.sessions }))
      → P s
      → P (sweep host wide config now timeout l s).0
  unfolding sweep
  sweep-keeps P timeout [] s stable erasing h = h
  sweep-keeps P timeout ((endpoint, a) ∷ rest) s stable erasing h =
      elim (Option-cases (deref a s.store)) [
        | inl e ↦ rw (e, sweep) (sweep-keeps P timeout rest s stable erasing h)
        | inr (x, e) ↦ elim (Bool-cases (is_expired now timeout x)) [
          | inl old ↦
              rw (e, sweep)
                (rw (old, sweep)
                  (sweep-keeps P timeout rest _ stable erasing (erasing endpoint s h)))
          | inr young ↦
              rw (e, sweep)
                (rw (young, sweep)
                  (sweep-keeps P timeout rest _ stable erasing
                    (stable.on_session a _ s (who-update host now) h)))
        ]
      ]

  erasing-IsServer :
      (e : ℕ) (s : Server A) → IsServer s → IsServer (record s { sessions = erase e s.sessions })
  erasing-IsServer e s v = record {
    alive =
        λ endpoint a found. v.alive endpoint a (ground (arith, lookup-erase e endpoint s.sessions));
    room = v.room;
    sorted = erase-IsSorted e s.sessions v.sorted;
  }

  pub update-IsServer :
      (timeout : ℕ) (s : Server A) → IsServer s → IsServer (update host wide config now timeout s)
  unfolding update
  update-IsServer timeout s v =
      notify_disconnected-keeps IsServer IsServer-IsStable host wide config now _ _ (
        sweep-keeps IsServer timeout _ _ IsServer-IsStable erasing-IsServer
          (process_events-IsServer s v))

  -- `handleIncoming` on a session of the server.
  pub receive_on-keeps :
      (P : Server A → Type 0) (a : ℕ) (bytes : List ℕ) (s : Server A)
      → IsStable P
      → ((q : List Event) (t : Server A) → P t → P (record t { event_queue = q }))
      → P s
      → P (receive_on host wide config now a bytes s)
  unfolding receive_on
  receive_on-keeps P a bytes s stable on_queue h = elim (Option-cases (deref a s.store)) [
    | inl e ↦ rw (e, receive_on) h
    | inr (x, e) ↦
        rw (e, receive_on)
          (on_queue _ _ (stable.on_session a _ s (who-handle_incoming host wide now bytes) h))
  ]

  Holds-accept :
      (sender endpoint a : ℕ) (s : Server A)
      → HasRoom s.store
      → Holds s endpoint a
      → Holds (accept host wide config now sender s).1 endpoint a
  unfolding accept
  Holds-accept sender endpoint a s room (x, found, mine) =
      (x, ground (arith, deref-make_session now sender a s.store, room a), mine)

  pub accept-IsServer :
      (sender : ℕ) (s : Server A) → IsServer s → IsServer (accept host wide config now sender s).1
  unfolding accept make_session
  accept-IsServer sender s v = record {
    alive = λ endpoint a found. elim (Bool-cases (sender == endpoint)) [
      | inl same ↦ (
        new_session s.store.next_id sender now,
        ground (
          arith,
          lookup-insert sender endpoint s.store.next_address s.sessions,
          deref-make_session now sender a s.store,
          found,
        ),
        ground (arith, same, endpoint-new_session s.store.next_id sender now),
      )
      | inr other ↦ Holds-accept sender endpoint a s v.room (
          v.alive endpoint a
            (ground (arith, lookup-insert sender endpoint s.store.next_address s.sessions, found)))
    ];
    room = make_session-HasRoom now sender s.store v.room;
    sorted = insert-IsSorted sender _ s.sessions v.sorted;
  }

  -- What holds of `onReceive` if it holds on each of its branches.
  pub on_receive-rule :
      (P : Server A → Type 0) (sender : ℕ) (bytes : List ℕ) (s : Server A)
      → ((a : ℕ)
          → lookup sender s.sessions ≡ some a
          → is_packet host connect_id bytes ≡ true
          → P (send_connect_ack on_server_session host now a s))
      → ((a : ℕ)
          → lookup sender s.sessions ≡ some a
          → is_packet host connect_id bytes ≡ false
          → P (receive_on host wide config now a bytes s))
      → (lookup sender s.sessions ≡ none
          → is_packet host connect_id bytes ≡ true
          → P (
              receive_on host wide config now
                (accept host wide config now sender s).0
                bytes
                (accept host wide config now sender s).1))
      → (lookup sender s.sessions ≡ none → is_packet host connect_id bytes ≡ false → P s)
      → P (on_receive host wide config now sender bytes s)
  unfolding on_receive
  on_receive-rule P sender bytes s again known new noise =
      elim (Bool-cases (is_packet host connect_id bytes)) [
        | inl asks ↦ elim (Option-cases (lookup sender s.sessions)) [
          | inl e ↦ rw (e, on_receive) (rw (asks, on_receive) (new e asks))
          | inr (a, e) ↦ rw (e, on_receive) (rw (asks, on_receive) (again a e asks))
        ]
        | inr other ↦ elim (Option-cases (lookup sender s.sessions)) [
          | inl e ↦ rw (e, on_receive) (rw (other, on_receive) (noise e other))
          | inr (a, e) ↦ rw (e, on_receive) (rw (other, on_receive) (known a e other))
        ]
      ]

  pub on_receive-IsServer :
      (sender : ℕ) (bytes : List ℕ) (s : Server A)
      → IsServer s
      → IsServer (on_receive host wide config now sender bytes s)
  on_receive-IsServer sender bytes s v =
      let received = λ (a : ℕ) (t : Server A) (w : IsServer t).
        receive_on-keeps IsServer a bytes t IsServer-IsStable on_queue-IsServer w in
      on_receive-rule IsServer sender bytes s
        (λ a e asks. send_connect_ack-keeps IsServer IsServer-IsStable host now a s v)
        (λ a e other. received a s v) (λ e asks. received _ _ (accept-IsServer sender s v))
        (λ e other. v)
