-- ===== src/Peer/Sweep.antt =====
-- The loop of `update` of server.cpp over the sessions: which it removes, and what becomes of the others.
use mathlib.Core.Path.{subst}
use rtype.Base.{
  ℕ, ◌≡◌, ◌≢◌, refl, sym, ap, ◌∙◌, some-injective, if-eq-then, if-eq-else, List, [], ◌∷◌, Option,
  none, some, true, false, lookup, erase, lookup-erase, IsSorted, lookup_behind, lookup_head,
  tail-IsSorted, Bool-cases, Option-cases, inl, inr, ◌==◌, if◌then◌else◌, arith,
}
use rtype.Wire.Endian.{Host}
use rtype.Session.State.{Session}
use rtype.Session.Outgoing
use rtype.Session.Identity.{who, who-update}
use rtype.Peer.Store.{Store, deref, on_session, deref-on_session}
use rtype.Peer.Server.{Server, ServerConfig, on_server_session}
use rtype.Peer.Serving.{is_expired, sweep}
use rtype.Peer.Valid.{Holds, Holds-on_session}

module _ (now timeout : ℕ) where
  -- The addresses of the expired sessions among the entries of a map, in its order.
  unfoldable pub expired : List (ℕ × ℕ) → Store → List ℕ
  expired [] st = []
  expired ((endpoint, a) ∷ rest) st =
      let others = expired rest st in
      elim (deref a st) [
        | none ↦ others
        | some x ↦ if is_expired now timeout x then a ∷ others else others
      ]

  -- What becomes of an entry, given what the map holds otherwise.
  unfoldable pub verdict : Option ℕ → Option ℕ → Store → Option ℕ
  verdict none entry st = entry
  verdict (some a) entry st = elim (deref a st) [
    | none ↦ entry
    | some x ↦ if is_expired now timeout x then none else entry
  ]

-- What becomes of the session of an entry: one that is expired stays as it is.
unfoldable pub renewed : Host → ℕ → ℕ → Option Session → Option Session
renewed host now timeout none = none
renewed host now timeout (some x) =
    some (if is_expired now timeout x then x else Outgoing.update host now x)

-- Each entry of the list points to a session of its endpoint.
abbrev pub PointsIn : {A : Type 0} → List (ℕ × ℕ) → Server A → Type 0
PointsIn l s = (endpoint a : ℕ) → lookup endpoint l ≡ some a → Holds s endpoint a

module _ {A : Type 0} where
  -- Two endpoints have two sessions.
  pub Holds-ne : (s : Server A) (e i a b : ℕ) → e ≢ i → Holds s e a → Holds s i b → a ≢ b
  Holds-ne s e i a b other (x, ex, mine) (y, ey, yours) same = other (
      sym mine
      ∙ ap (λ (z : Session). z.endpoint)
          (some-injective (sym ex ∙ ap (λ (c : ℕ). deref c s.store) same ∙ ey))
      ∙ yours)

  module _ (e a : ℕ) (rest : List (ℕ × ℕ)) (s : Server A) (sorted : IsSorted ((e, a) ∷ rest))
      (points : PointsIn ((e, a) ∷ rest) s) where
    head_points : Holds s e a
    head_points = points e a (lookup_head e a rest)

    tail_points : PointsIn rest s
    tail_points i b found = points i b (lookup_behind e i a b rest sorted found).1

    tail_ne : (i b : ℕ) → lookup i rest ≡ some b → a ≢ b
    tail_ne i b found =
        Holds-ne s e i a b (lookup_behind e i a b rest sorted found).0 head_points
          (tail_points i b found)

    tail_absent : lookup e rest ≡ none
    unfolding IsSorted
    tail_absent = sorted.0 e (omega arith)

    tail_points-on_session :
        (f : Session → Session)
        → ((x : Session) → who (f x) ≡ who x)
        → PointsIn rest (on_server_session a f s)
    tail_points-on_session f keeps i b found =
        Holds-on_session s i b a f keeps (tail_points i b found)

  expired-on_session :
      (now timeout a : ℕ) (f : Session → Session) (rest : List (ℕ × ℕ)) (s : Server A)
      → IsSorted rest
      → ((i b : ℕ) → lookup i rest ≡ some b → a ≢ b)
      → expired now timeout rest (on_session a f s.store) ≡ expired now timeout rest s.store
  unfolding expired
  expired-on_session now timeout a f [] s sorted apart = refl
  expired-on_session now timeout a f ((i, b) ∷ rest) s sorted apart = ground (
    arith,
    deref-on_session a b f s.store,
    apart i b (lookup_head i b rest),
    expired-on_session now timeout a f rest s (tail-IsSorted i b rest sorted)
        (λ j c found. apart j c (lookup_behind i j b c rest sorted found).1),
  )

  -- The loop of `update` at one entry, of a session that is expired or not.
  module _ (now timeout e a : ℕ) (rest : List (ℕ × ℕ)) (s : Server A)
      (sorted : IsSorted ((e, a) ∷ rest)) (points : PointsIn ((e, a) ∷ rest) s) (x : Session)
      (found : deref a s.store ≡ some x) (i : ℕ) where
    verdict_expired :
        is_expired now timeout x ≡ true
        → verdict now timeout (lookup i rest) (lookup i (erase e s.sessions)) s.store
          ≡ verdict now timeout (lookup i ((e, a) ∷ rest)) (lookup i s.sessions) s.store
    unfolding verdict lookup
    verdict_expired old = elim (Bool-cases (e == i)) [
      | inl same ↦ ground (arith, lookup-erase e i s.sessions, tail_absent e a rest s sorted points)
      | inr other ↦ ground (arith, lookup-erase e i s.sessions)
    ]

    verdict_young :
        (f : Session → Session)
        → is_expired now timeout x ≡ false
        → verdict now timeout (lookup i rest) (lookup i s.sessions) (on_session a f s.store)
          ≡ verdict now timeout (lookup i ((e, a) ∷ rest)) (lookup i s.sessions) s.store
    unfolding verdict lookup
    verdict_young f young = elim (Bool-cases (e == i)) [
      | inl same ↦ ground (arith, tail_absent e a rest s sorted points)
      | inr other ↦ elim (Option-cases (lookup i rest)) [
        | inl none_there ↦ ground arith
        | inr (b, there) ↦
            ground
              (arith, tail_ne e a rest s sorted points i b there, deref-on_session a b f s.store)
      ]
    ]

module _ {A : Type 0} (host : Host) (wide : ℕ → ℕ) (config : ServerConfig A) (now timeout : ℕ) where
  pub lookup-sweep :
      (l : List (ℕ × ℕ)) (s : Server A) (i : ℕ)
      → IsSorted l
      → PointsIn l s
      → lookup i (sweep host wide config now timeout l s).0.sessions
        ≡ verdict now timeout (lookup i l) (lookup i s.sessions) s.store
  unfolding sweep
  lookup-sweep [] s i sorted points = unfold verdict lookup in refl
  lookup-sweep ((e, a) ∷ rest) s i sorted points =
      let (x, found, mine) = head_points e a rest s sorted points in
      elim (Bool-cases (is_expired now timeout x)) [
        | inl old ↦
            rw (found, sweep)
              (rw (old, sweep)
                (lookup-sweep rest _ i (tail-IsSorted e a rest sorted)
                    (tail_points e a rest s sorted points)
                  ∙ verdict_expired now timeout e a rest s sorted points x found i old))
        | inr young ↦
            rw (found, sweep)
              (rw (young, sweep)
                (lookup-sweep rest _ i (tail-IsSorted e a rest sorted)
                    (tail_points-on_session e a rest s sorted points _ (who-update host now))
                  ∙ verdict_young now timeout e a rest s sorted points x found i
                      (Outgoing.update host now) young))
      ]

  pub removed-sweep :
      (l : List (ℕ × ℕ)) (s : Server A)
      → IsSorted l
      → PointsIn l s
      → (sweep host wide config now timeout l s).1 ≡ expired now timeout l s.store
  unfolding sweep expired
  removed-sweep [] s sorted points = refl
  removed-sweep ((e, a) ∷ rest) s sorted points =
      let (x, found, mine) = head_points e a rest s sorted points in
      elim (Bool-cases (is_expired now timeout x)) [
        | inl old ↦
            rw (found, sweep, expired)
              (rw (old, sweep, expired)
                (ap (◌∷◌ a) (
                  removed-sweep rest _ (tail-IsSorted e a rest sorted)
                    (tail_points e a rest s sorted points))))
        | inr young ↦
            rw (found, sweep, expired)
              (rw (young, sweep, expired)
                (removed-sweep rest _ (tail-IsSorted e a rest sorted)
                    (tail_points-on_session e a rest s sorted points _ (who-update host now))
                  ∙ expired-on_session now timeout a (Outgoing.update host now) rest s
                      (tail-IsSorted e a rest sorted) (tail_ne e a rest s sorted points)))
      ]

  sweep-other :
      (l : List (ℕ × ℕ)) (s : Server A) (b : ℕ)
      → IsSorted l
      → PointsIn l s
      → ((i c : ℕ) → lookup i l ≡ some c → b ≢ c)
      → deref b (sweep host wide config now timeout l s).0.store ≡ deref b s.store
  unfolding sweep
  sweep-other [] s b sorted points apart = refl
  sweep-other ((e, a) ∷ rest) s b sorted points apart =
      let (x, found, mine) = head_points e a rest s sorted points in
      let apart' : (i c : ℕ) → lookup i rest ≡ some c → b ≢ c =
        λ i c there. apart i c (lookup_behind e i a c rest sorted there).1 in
      elim (Bool-cases (is_expired now timeout x)) [
        | inl old ↦
            rw (found, sweep)
              (rw (old, sweep)
                (sweep-other rest _ b (tail-IsSorted e a rest sorted)
                  (tail_points e a rest s sorted points) apart'))
        | inr young ↦
            rw (found, sweep)
              (rw (young, sweep)
                (sweep-other rest _ b (tail-IsSorted e a rest sorted)
                    (tail_points-on_session e a rest s sorted points _ (who-update host now)) apart'
                  ∙ ground (
                    arith,
                    deref-on_session a b (Outgoing.update host now) s.store,
                    apart e a (lookup_head e a rest),
                  )))
      ]

  module _ (e a : ℕ) (rest : List (ℕ × ℕ)) (s : Server A) (sorted : IsSorted ((e, a) ∷ rest))
      (points : PointsIn ((e, a) ∷ rest) s) where
    on_other :
        (i b : ℕ)
        → lookup i rest ≡ some b
        → deref b (on_session a (Outgoing.update host now) s.store) ≡ deref b s.store
    on_other i b behind = ground (
      arith,
      deref-on_session a b (Outgoing.update host now) s.store,
      tail_ne e a rest s sorted points i b behind,
    )

    head_renewed :
        (x : Session)
        → deref a s.store ≡ some x
        → deref a (sweep host wide config now timeout ((e, a) ∷ rest) s).0.store
          ≡ renewed host now timeout (deref a s.store)
    unfolding sweep renewed
    head_renewed x found = elim (Bool-cases (is_expired now timeout x)) [
      | inl old ↦
          rw (found, sweep)
            (rw (old, sweep)
              (sweep-other rest _ a (tail-IsSorted e a rest sorted)
                  (tail_points e a rest s sorted points) (tail_ne e a rest s sorted points)
                ∙ found))
      | inr young ↦
          rw (found, sweep)
            (rw (young, sweep)
              (sweep-other rest _ a (tail-IsSorted e a rest sorted)
                  (tail_points-on_session e a rest s sorted points _ (who-update host now))
                  (tail_ne e a rest s sorted points)
                ∙ ground (arith, found, deref-on_session a a (Outgoing.update host now) s.store)))
    ]

  pub deref-sweep :
      (l : List (ℕ × ℕ)) (s : Server A) (i b : ℕ)
      → IsSorted l
      → PointsIn l s
      → lookup i l ≡ some b
      → deref b (sweep host wide config now timeout l s).0.store
        ≡ renewed host now timeout (deref b s.store)
  unfolding sweep lookup renewed
  deref-sweep [] s i b sorted points there = absurd (let f : none ≡ some b = there in cc)
  deref-sweep ((e, a) ∷ rest) s i b sorted points there =
      let (x, found, mine) = head_points e a rest s sorted points in
      elim (Bool-cases (e == i)) [
        | inl hit ↦
            let same : a ≡ b = some-injective (sym (if-eq-then _ _ hit) ∙ there) in
            subst
              (λ (c : ℕ).
                deref c (sweep host wide config now timeout ((e, a) ∷ rest) s).0.store
                ≡ renewed host now timeout (deref c s.store))
              same (head_renewed e a rest s sorted points x found)
        | inr miss ↦
            let behind : lookup i rest ≡ some b = sym (if-eq-else _ _ miss) ∙ there in
            elim (Bool-cases (is_expired now timeout x)) [
              | inl old ↦
                  rw (found, sweep)
                    (rw (old, sweep)
                      (deref-sweep rest _ i b (tail-IsSorted e a rest sorted)
                        (tail_points e a rest s sorted points) behind))
              | inr young ↦
                  rw (found, sweep)
                    (rw (young, sweep)
                      (deref-sweep rest _ i b (tail-IsSorted e a rest sorted)
                          (tail_points-on_session e a rest s sorted points _ (who-update host now))
                          behind
                        ∙ ap (renewed host now timeout)
                            (on_other e a rest s sorted points i b behind)))
            ]
      ]

  pub app-sweep :
      (l : List (ℕ × ℕ)) (s : Server A) → (sweep host wide config now timeout l s).0.app ≡ s.app
  unfolding sweep
  app-sweep [] s = refl
  app-sweep ((e, a) ∷ rest) s = elim (Option-cases (deref a s.store)) [
    | inl absent ↦ rw (absent, sweep) (app-sweep rest s)
    | inr (x, found) ↦ elim (Bool-cases (is_expired now timeout x)) [
      | inl old ↦
          rw (found, sweep)
            (rw (old, sweep) (app-sweep rest (record s { sessions = erase e s.sessions })))
      | inr young ↦
          rw (found, sweep)
            (rw (young, sweep) (app-sweep rest (on_server_session a (Outgoing.update host now) s)))
    ]
  ]
