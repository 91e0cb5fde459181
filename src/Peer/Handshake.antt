-- ===== src/Peer/Handshake.antt =====
-- The handshake of lib/rtnt between two sessions: what a CONNECT and its answer become on the wire, and
-- what a new session makes of them.
use rtype.Base.{
  if-eq-else, if-eq-then, elim-eq-some, ℕ, ◌-◌, ◌%◌, ◌<◌, ◌≡◌, refl, sym, ap, ◌∙◌, List, [], ◌∷◌,
  ◌++◌, append-nil, length, Bool, true, false, ◌&&◌, ◌==◌, leb, drop-append, lookup, u32_mod,
  u16_mod, arith,
}
use rtype.Wire.Endian.{Host, network_bytes, length-network_bytes}
use rtype.Wire.Packet.{Packet, done}
use rtype.Wire.Codec.{advance, read_int-reads}
use rtype.Wire.Header.{
  Header, default_header, header_size, parse, serialize, success, Result, is_packet,
}
use rtype.Wire.Framing.{IsHeader, length-serialize, parse-serialize}
use rtype.Session.Window.{update_acknowledge_info, is_duplicate}
use rtype.Session.State.{Session, new_session, count_received}
use rtype.Session.Outgoing.{send, raw_send, remember_sent, take_order_id, outgoing_header}
use rtype.Session.Incoming.{
  incoming_packet, acknowledge, acknowledge_one, account, handle_payload, handle_sequence,
  handle_header, handle_incoming,
}
use rtype.Session.Delivery.{parse-outgoing}
use rtype.Peer.Packets.{connect_packet, connect_ack_packet, read_connect_ack, connect_ack_packet-eq}

abbrev pub connect_header : Header
connect_header = record default_header { message_id = 2 }

abbrev pub connect_ack_header : Header
connect_ack_header = record default_header { message_id = 3; flags = 9; packet_size = 4 }

-- A session that has taken its first datagram, of sequence ID 0.
abbrev pub greeted : ℕ → Header → List ℕ → Session → Session
greeted now h bytes s = record s {
  last_seen = now;
  metrics = count_received h.channel_id (length bytes) s.metrics;
  window = record s.window { remote_acknowledge_id = 0; has_received_remote_packet = true };
  has_unsent_ack = true;
  packets_since_last_ack = 1;
}

and_false : (b : Bool) → (b && false) ≡ false
and_false true = refl
and_false false = refl

module _ (host : Host) (wide : ℕ → ℕ) (now : ℕ) where
  handle-connect :
      (bytes : List ℕ) (id endpoint start : ℕ)
      → let s = new_session id endpoint start in
        handle_header host wide now connect_header bytes s
        ≡ (greeted now connect_header bytes s, incoming_packet host connect_header bytes ∷ [])
  unfolding new_session handle_header handle_sequence handle_payload account acknowledge
      acknowledge_one is_duplicate update_acknowledge_info incoming_packet lookup
  handle-connect bytes id endpoint start =
      if-eq-else _ _ (and_false (length bytes - header_size == 0))

  handle-connect_ack :
      (client : Host) (bytes : List ℕ) (id endpoint start : ℕ)
      → let s = send client start connect_packet (new_session id endpoint start) in
        handle_header host wide now connect_ack_header bytes s ≡ (
          greeted now connect_ack_header bytes s,
          incoming_packet host connect_ack_header bytes ∷ [],
        )
  unfolding new_session handle_header handle_sequence handle_payload account acknowledge
      acknowledge_one is_duplicate update_acknowledge_info incoming_packet lookup send raw_send
      remember_sent take_order_id
  handle-connect_ack client bytes id endpoint start =
      if-eq-else _ _ (and_false (length bytes - header_size == 0))

-- What the client hands to the send function, and what the server does.
pub transmitted-connect :
    (client : Host) (now id endpoint : ℕ)
    → (send client now connect_packet (new_session id endpoint now)).transmitted
      ≡ (serialize client connect_header ++ []) ∷ []
unfolding send raw_send remember_sent take_order_id new_session outgoing_header
transmitted-connect client now id endpoint = refl

pub transmitted-connect_ack :
    (server : Host) (start heard now id endpoint : ℕ) (bytes : List ℕ)
    → (send server now
        (connect_ack_packet server id)
        (greeted heard connect_header bytes (new_session id endpoint start))).transmitted
      ≡ (serialize server connect_ack_header ++ network_bytes 4 id) ∷ []
unfolding send raw_send remember_sent take_order_id new_session outgoing_header
transmitted-connect_ack server start heard now id endpoint bytes =
    ap
      (λ (p : Packet).
        (send server now p
          (greeted heard connect_header bytes (new_session id endpoint start))).transmitted)
      (connect_ack_packet-eq server id)
    ∙ ap
        (λ (n : ℕ).
          (serialize server (record connect_ack_header { packet_size = n }) ++ network_bytes 4 id)
          ∷ [])
        (let e : length (network_bytes 4 id) % u16_mod ≡ 4 =
            omega (arith, length-network_bytes 4 id) in
          e)

parse-connect :
    (client server : Host)
    → parse server (serialize client connect_header ++ []) ≡ success connect_header
unfolding outgoing_header new_session
parse-connect client server =
    parse-outgoing client 0 server connect_packet 0 0 (new_session 0 0 0)
      (record {
        message_id_fits = omega arith;
        flag_fits = omega arith;
        channel_id_fits = omega arith;
        payload_fits = omega arith;
      })
      (omega arith) (omega arith) (omega arith) (omega arith)

parse-connect_ack :
    (server client : Host) (payload : List ℕ)
    → length payload ≡ 4
    → parse client (serialize server connect_ack_header ++ payload) ≡ success connect_ack_header
parse-connect_ack server client payload four =
    let fits : IsHeader connect_ack_header = record {
      protocol_fits = omega arith;
      version_fits = omega arith;
      sequence_id_fits = omega arith;
      channel_id_fits = omega arith;
      order_id_fits = omega arith;
      acknowledge_id_fits = omega arith;
      acknowledge_bitfield_fits = omega arith;
      message_id_fits = omega arith;
      flags_fits = omega arith;
      packet_size_fits = omega arith;
    } in
    parse-serialize server client connect_ack_header payload fits
    ∙ if-eq-then _ _ (let e : leb 4 (length payload) ≡ true = ground (arith, four) in e)

unfoldable pub connect_bytes : Host → List ℕ
connect_bytes client = serialize client connect_header ++ []

unfoldable pub connect_ack_bytes : Host → ℕ → List ℕ
connect_ack_bytes server id = serialize server connect_ack_header ++ network_bytes 4 id

pub is_packet-connect : (client server : Host) → is_packet server 2 (connect_bytes client) ≡ true
unfolding is_packet connect_bytes
is_packet-connect client server = rw (parse-connect client server, is_packet) refl

-- A new session takes a CONNECT.
pub handle_incoming-connect :
    (client server : Host) (wide : ℕ → ℕ) (now id endpoint start : ℕ)
    → let s = new_session id endpoint start in
      let bytes = connect_bytes client in
      handle_incoming server wide now bytes s
      ≡ (greeted now connect_header bytes s, incoming_packet server connect_header bytes ∷ [])
unfolding handle_incoming connect_bytes
handle_incoming-connect client server wide now id endpoint start =
    elim-eq-some _ _ (ap (λ (r : Result). r.header) (parse-connect client server))
    ∙ handle-connect server wide now (connect_bytes client) id endpoint start

-- The session of a client takes the answer to its CONNECT.
pub handle_incoming-connect_ack :
    (client server : Host) (wide : ℕ → ℕ) (now id endpoint start assigned : ℕ)
    → let s = send client start connect_packet (new_session id endpoint start) in
      let bytes = connect_ack_bytes server assigned in
      handle_incoming client wide now bytes s ≡ (
        greeted now connect_ack_header bytes s,
        incoming_packet client connect_ack_header bytes ∷ [],
      )
unfolding handle_incoming connect_ack_bytes
handle_incoming-connect_ack client server wide now id endpoint start assigned =
    elim-eq-some _ _ (
      ap (λ (r : Result). r.header)
        (parse-connect_ack server client (network_bytes 4 assigned)
          (length-network_bytes 4 assigned)))
    ∙ handle-connect_ack client wide now client (connect_ack_bytes server assigned) id endpoint
        start

-- The client reads the ID that the server assigned.
pub read-connect_ack :
    (client server : Host) (assigned : ℕ)
    → assigned < u32_mod
    → (q : Packet) × (read_connect_ack client
          (incoming_packet client connect_ack_header (connect_ack_bytes server assigned))
        ≡ done assigned q)
unfolding read_connect_ack incoming_packet connect_ack_bytes
read-connect_ack client server assigned fits =
    let payload = network_bytes 4 assigned in
    let p = incoming_packet client connect_ack_header (connect_ack_bytes server assigned) in
    (
      advance 4 p,
      read_int-reads client 4 assigned [] p (omega arith) (omega (arith, fits)) (
          drop-append header_size (serialize server connect_ack_header) payload
            (length-serialize server connect_ack_header)
          ∙ sym (append-nil payload)),
    )
