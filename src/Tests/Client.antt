-- ===== src/Tests/Client.antt =====
-- lib/rtnt/src/core/client.cpp: a client that is answered, and one that is not.
use rtype.Base.{ℕ, suc, ◌≡◌, refl, List, [], ◌∷◌, map, none, some, true, lookup, arith}
use rtype.Wire.Endian.{little, big}
use rtype.Peer.Server.{Server, ServerConfig, new_server}
use rtype.Peer.Serving
use rtype.Session.Incoming.{incoming_packet}
use rtype.Peer.Handshake.{connect_ack_header, connect_ack_bytes}
use rtype.Peer.LateAnswer.{late_answer}
use rtype.Peer.Client.{
  received, disconnect, Client, ClientConfig, new_client, attempt_connection, connect, connect_to,
  leave,
}
use rtype.Peer.Connecting.{process_events, on_receive}
use rtype.Peer.ClientRun.{Input, datagram, tick, code, run, IsClient, run-IsClient}
use rtype.Peer.GiveUp.{HasGivenUp, attempt_connection-IsWaiting, gives_up}
use rtype.Peer.Isolation.{session_of}
use rtype.Peer.Joining.{datagrams}
use rtype.Peer.Connected.{server_session_of, handshake}

abbrev clear : ℕ → ℕ
clear n = 0

-- The applications count what they are told.
abbrev counting : ClientConfig ℕ
counting = record {
  bindings = [];
  on_connect = some (λ app. (suc app, []));
  on_disconnect = some (λ app. (0, []));
  on_message = none;
}

abbrev welcoming : ServerConfig ℕ
welcoming = record {
  bindings = [];
  on_connect = some (λ a x app. (suc app, []));
  on_disconnect = none;
  on_message = none;
}

abbrev idle : Client ℕ
idle = new_client 0

abbrev empty : Server ℕ
empty = new_server 0

-- The client is told to connect, waits and is told to leave.
abbrev visit : List (Input ℕ)
visit =
    code 1 (0, connect_to 5 ∷ [])
    ∷ tick 3_000_000_000 9 10
    ∷ datagram 4 5 (1 ∷ [])
    ∷ code 5 (0, leave ∷ [])
    ∷ []

run-IsClient_example : IsClient (run little clear counting visit idle)
run-IsClient_example = run-IsClient little clear counting visit 0

abbrev late_times : List ℕ
late_times = 2_000_000_001 ∷ 4_000_000_002 ∷ 6_000_000_003 ∷ 8_000_000_004 ∷ []

gives_up_example : HasGivenUp little counting (
    run little clear counting
      (map (λ t. tick t 9 10) late_times)
      (attempt_connection little 0 idle))
unfolding attempt_connection
gives_up_example =
    gives_up little clear counting 9 10 late_times (attempt_connection little 0 idle)
      (attempt_connection-IsWaiting little counting 0 idle refl refl) (omega arith) refl
      (omega arith, (omega arith, (omega arith, (omega arith, tt))))

handshake_example :
    (request reply : List ℕ) × (datagrams (server_session_of (connect little 1 5 idle))
      ≡ request ∷ [])
    × (datagrams (
          session_of 7 (
            Serving.process_events big clear welcoming 3
              (Serving.on_receive big clear welcoming 2 7 request empty)))
        ≡ reply ∷ [])
    × ((process_events little counting 5
          (suc 0)
          (on_receive little clear 4 5 reply (connect little 1 5 idle))).is_connected
        ≡ true)
unfolding lookup
handshake_example =
    handshake little big clear counting welcoming 1 2 3 4 5 0 5 7 idle empty refl refl (λ app. refl)
      (λ p. tt) refl refl (omega arith) (λ a x app. refl)

-- The answer to a CONNECT is there, and the client leaves.
abbrev answered : Client ℕ
answered = record idle {
  event_queue =
      received 0 (incoming_packet little connect_ack_header (connect_ack_bytes big 3)) ∷ [];
}

late_answer_example :
    let t = process_events little counting 5 (suc (suc 0)) (disconnect little 5 answered) in
    (t.is_connected ≡ true)
    × (t.server_session ≡ none)
    × ((later endpoint : ℕ) → connect little later endpoint t ≡ t)
late_answer_example =
    late_answer little counting 5 0 big 0 3 answered (omega arith) refl refl (λ app. refl)
      (λ app. refl) (λ p. tt)
