-- ===== src/Peer/Expiry.antt =====
-- `update` of server.cpp: which sessions go, and which call of `_onDisconnect` each of them brings.
use rtype.Base.{ℕ, ◌≡◌, refl, ap, ◌∙◌, List, [], ◌∷◌, Option, none, some, lookup, IsSorted}
use rtype.Wire.Endian.{Host}
use rtype.Session.State.{Session}
use rtype.Peer.Store.{Store, deref}
use rtype.Peer.Server.{Server, ServerConfig, Callback, perform_all, notify}
use rtype.Peer.Serving.{sweep, process_events, update, notify_disconnected}
use rtype.Peer.Sweep.{
  PointsIn, expired, verdict, renewed, lookup-sweep, removed-sweep, deref-sweep, app-sweep,
}
use rtype.Peer.Stable.{notify_disconnected-keeps}
use rtype.Peer.Valid.{IsServer, process_events-IsServer}

-- The session of an entry of the map of `s1`, in the store.
abbrev pub session_at : Option ℕ → Store → Option Session
session_at none st = none
session_at (some a) st = deref a st

module _ {A : Type 0} (host : Host) (now : ℕ) where
  -- The call of `_onDisconnect` for a session, and what it answers.
  unfoldable pub tell : Option (Callback A) → ℕ → Server A → Server A
  tell none a s = s
  tell (some callback) a s = elim (deref a s.store) [
    | none ↦ s
    | some x ↦
        let (app, calls) = callback a x s.app in perform_all host now calls (record s { app = app })
  ]

  -- For one session after the other.
  unfoldable pub tell_each : Option (Callback A) → List ℕ → Server A → Server A
  tell_each callback [] s = s
  tell_each callback (a ∷ rest) s = tell_each callback rest (tell callback a s)

  tell-notify :
      (callback : Option (Callback A)) (a : ℕ) (s : Server A)
      → notify host now callback a s ≡ tell callback a s
  unfolding notify tell
  tell-notify none a s = refl
  tell-notify (some callback) a s = refl

module _ {A : Type 0} (host : Host) (wide : ℕ → ℕ) (config : ServerConfig A) (now timeout : ℕ) where
  sessions-notify_disconnected :
      (gone : List ℕ) (s : Server A)
      → (notify_disconnected host wide config now gone s).sessions ≡ s.sessions
  sessions-notify_disconnected gone s =
      notify_disconnected-keeps (λ t. t.sessions ≡ s.sessions)
        (record { on_session = λ a f t keeps h. h; on_app = λ x t h. h }) host wide config now gone
        s refl

  tell_each-notify :
      (gone : List ℕ) (s : Server A)
      → notify_disconnected host wide config now gone s
        ≡ tell_each host now config.on_disconnect gone s
  unfolding notify_disconnected tell_each
  tell_each-notify [] s = refl
  tell_each-notify (a ∷ rest) s =
      tell_each-notify rest (notify host now config.on_disconnect a s)
      ∙ ap (tell_each host now config.on_disconnect rest)
          (tell-notify host now config.on_disconnect a s)

  session_at-sweep :
      (l : List (ℕ × ℕ)) (s : Server A) (i : ℕ) (entry : Option ℕ)
      → IsSorted l
      → PointsIn l s
      → lookup i l ≡ entry
      → session_at entry (sweep host wide config now timeout l s).0.store
        ≡ renewed host now timeout (session_at entry s.store)
  unfolding renewed
  session_at-sweep l s i none sorted points there = refl
  session_at-sweep l s i (some b) sorted points there =
      deref-sweep host wide config now timeout l s i b sorted points there

  -- Let the server be well formed, s1 what `update` makes of it by the events, and s2 what the
  -- loop over the sessions then leaves. An endpoint keeps its session exactly when that has
  -- been heard of within the timeout and is not to be closed; in s2 such a session is updated,
  -- one that goes is as it was, and the state of the application is that of s1. From s2 on,
  -- `_onDisconnect`, if it is set, is called once for each session that goes, in the order of
  -- the endpoints, with the session and the state of the application at that time, and what it
  -- answers is performed before the next call.
  pub update-expired :
      (s : Server A)
      → IsServer s
      → let s1 = process_events host wide config now s in
        let s2 = (sweep host wide config now timeout s1.sessions s1).0 in
        ((e : ℕ)
          → (lookup e (update host wide config now timeout s).sessions
              ≡ verdict now timeout (lookup e s1.sessions) (lookup e s1.sessions) s1.store)
            × (session_at (lookup e s1.sessions) s2.store
                ≡ renewed host now timeout (session_at (lookup e s1.sessions) s1.store)))
        × (s2.app ≡ s1.app)
        × (update host wide config now timeout s
            ≡ tell_each host now config.on_disconnect (expired now timeout s1.sessions s1.store) s2)
  unfolding update
  update-expired s v =
      let s1 = process_events host wide config now s in
      let v1 = process_events-IsServer host wide config now s v in
      let s2 = (sweep host wide config now timeout s1.sessions s1).0 in
      let gone = (sweep host wide config now timeout s1.sessions s1).1 in
      (
        λ e. (
          ap (lookup e) (sessions-notify_disconnected gone s2)
              ∙ lookup-sweep host wide config now timeout s1.sessions s1 e v1.sorted v1.alive,
          session_at-sweep s1.sessions s1 e (lookup e s1.sessions) v1.sorted v1.alive refl,
        ),
        app-sweep host wide config now timeout s1.sessions s1,
        tell_each-notify gone s2
            ∙ ap (λ (l : List ℕ). tell_each host now config.on_disconnect l s2)
                (removed-sweep host wide config now timeout s1.sessions s1 v1.sorted v1.alive),
      )
