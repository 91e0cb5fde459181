-- ===== src/Tests/Server.antt =====
-- lib/rtnt/src/core/server.cpp on a server that one client has joined.
use rtype.Base.{ℕ, suc, ◌≡◌, refl, ap, ◌∙◌, List, [], ◌∷◌, none, some, lookup, lookup-insert, arith}
use rtype.Wire.Endian.{little, big}
use rtype.Peer.Server.{Server, ServerConfig, new_server}
use rtype.Peer.Serving.{sweep, process_events, update, on_receive}
use rtype.Peer.Valid.{IsServer}
use rtype.Peer.Sweep.{expired, verdict, renewed}
use rtype.Peer.Expiry.{tell_each, session_at, update-expired}
use rtype.Peer.ServerRun.{Input, datagram, run, step, HasAsked, run-IsServer, session_of_asked}
use rtype.Peer.Isolation.{session_of, session_of-on_receive}
use rtype.Peer.EventOrder.{run_events, process_events-eq}
use rtype.Peer.Handshake.{connect_bytes}
use rtype.Peer.Joining.{on_receive-connect}

abbrev clear : ℕ → ℕ
clear n = 0

-- The application counts the players that come and go.
abbrev pub counting : ServerConfig ℕ
counting = record {
  bindings = [];
  on_connect = some (λ a x app. (suc app, []));
  on_disconnect = some (λ a x app. (0, []));
  on_message = none;
}

abbrev arrivals : List (Input ℕ)
arrivals = datagram 1 7 (connect_bytes big) ∷ []

abbrev joined : Server ℕ
joined = run little clear counting arrivals (new_server 0)

joined-IsServer : IsServer joined
joined-IsServer = run-IsServer little clear counting arrivals 0

run-IsServer_example : IsServer joined
run-IsServer_example = run-IsServer little clear counting arrivals 0

lookup-joined : lookup 7 joined.sessions ≡ some 0
unfolding run step
lookup-joined =
    ap (λ (u : Server ℕ). lookup 7 u.sessions)
      (on_receive-connect little clear counting 1 big 7 (new_server 0) (unfold lookup in refl) refl)
    ∙ lookup-insert 7 7 0 []

session_of_asked_example : HasAsked little clear counting 7 arrivals
session_of_asked_example = session_of_asked little clear counting arrivals 0 7 0 lookup-joined

session_of-on_receive_example :
    session_of 7 (on_receive little clear counting 2 9 (connect_bytes little) joined)
    ≡ session_of 7 joined
session_of-on_receive_example =
    session_of-on_receive 7 9 (λ e. absurd (omega arith)) little clear counting 2
      (connect_bytes little) joined joined-IsServer

process_events-eq_example :
    (process_events little clear counting 2 joined
      ≡ run_events little clear counting 2 joined.event_queue joined)
    × ((process_events little clear counting 2 joined).event_queue ≡ [])
process_events-eq_example = process_events-eq little clear counting 2 joined

-- Twenty milliseconds later, with a timeout of ten.
update-expired_example :
    let s1 = process_events little clear counting 20_000_001 joined in
    let s2 = (sweep little clear counting 20_000_001 10 s1.sessions s1).0 in
    ((e : ℕ)
      → (lookup e (update little clear counting 20_000_001 10 joined).sessions
          ≡ verdict 20_000_001 10 (lookup e s1.sessions) (lookup e s1.sessions) s1.store)
        × (session_at (lookup e s1.sessions) s2.store
            ≡ renewed little 20_000_001 10 (session_at (lookup e s1.sessions) s1.store)))
    × (s2.app ≡ s1.app)
    × (update little clear counting 20_000_001 10 joined
        ≡ tell_each little 20_000_001 counting.on_disconnect
            (expired 20_000_001 10 s1.sessions s1.store)
            s2)
update-expired_example = update-expired little clear counting 20_000_001 10 joined joined-IsServer
