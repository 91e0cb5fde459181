-- ===== src/Session/State.antt =====
-- lib/rtnt/include/rtnt/core/session.hpp and stat/metrics.hpp: the state of a session. Times are the
-- nanoseconds of the steady clock; what an operation hands to `_sendToPeerFunction` is the list
-- `transmitted`, the oldest buffer first. The mutex and the log have no counterpart.
use rtype.Base.{
  ℕ, ◌+◌, ◌*◌, ◌%◌, List, [], Bool, true, false, lookup_or, insert, ltb, if◌then◌else◌, u32_mod,
  u64_mod,
}
use rtype.Wire.Packet.{Packet}
use rtype.Session.Window.{Window, empty_window}

pub record SentPacketInfo : Type 0 where
  pub packet : Packet
  pub sent_time : ℕ
  pub sequence_id : ℕ
  pub order_id : ℕ
  pub retries : ℕ

pub record ChannelMetrics : Type 0 where
  pub packets_sent : ℕ
  pub packets_received : ℕ
  pub bytes_sent : ℕ
  pub bytes_received : ℕ

abbrev pub no_traffic : ChannelMetrics
no_traffic = record { packets_sent = 0; packets_received = 0; bytes_sent = 0; bytes_received = 0 }

-- The array of channels is a map in which an absent channel has seen no traffic.
pub record SessionMetrics : Type 0 where
  pub rtt : ℕ
  pub max_rtt : ℕ
  pub retransmit_count : ℕ
  pub duplicate_count : ℕ
  pub channels : List (ℕ × ChannelMetrics)

pub record Session : Type 0 where
  pub id : ℕ
  pub endpoint : ℕ
  pub has_send_function : Bool
  pub window : Window
  pub open window use *
  pub local_sequence_id : ℕ
  pub local_order_ids : List (ℕ × ℕ)
  pub next_expected_order_ids : List (ℕ × ℕ)
  pub reorder_buffers : List (ℕ × List (ℕ × Packet))
  pub sent_packets : List (ℕ × SentPacketInfo)
  pub pending_rich_acks : List ℕ
  pub packets_since_last_ack : ℕ
  pub has_unsent_ack : Bool
  pub last_ack_time : ℕ
  pub last_seen : ℕ
  pub should_close : Bool
  pub metrics : SessionMetrics
  pub transmitted : List (List ℕ)

-- The constructor, with the value of the global counter and of the clock.
unfoldable pub new_session : ℕ → ℕ → ℕ → Session
new_session id endpoint now = record {
  id = id;
  endpoint = endpoint;
  has_send_function = true;
  window = empty_window;
  local_sequence_id = 0;
  local_order_ids = [];
  next_expected_order_ids = [];
  reorder_buffers = [];
  sent_packets = [];
  pending_rich_acks = [];
  packets_since_last_ack = 0;
  has_unsent_ack = false;
  last_ack_time = 0;
  last_seen = now;
  should_close = false;
  metrics = record {
    rtt = 0;
    max_rtt = 0;
    retransmit_count = 0;
    duplicate_count = 0;
    channels = [];
  };
  transmitted = [];
}

-- `x++` and `fetch_add` on the unsigned counters.
abbrev pub next_u32 : ℕ → ℕ
next_u32 n = (n + 1) % u32_mod

abbrev pub add_u64 : ℕ → ℕ → ℕ
add_u64 n k = (n + k) % u64_mod

unfoldable pub count_received : ℕ → ℕ → SessionMetrics → SessionMetrics
count_received channel bytes m =
    let c = lookup_or channel no_traffic m.channels in
    record m {
      channels =
          insert channel
            (record c {
              packets_received = add_u64 c.packets_received 1;
              bytes_received = add_u64 c.bytes_received bytes;
            })
            m.channels;
    }

unfoldable pub count_sent : ℕ → ℕ → SessionMetrics → SessionMetrics
count_sent channel bytes m =
    let c = lookup_or channel no_traffic m.channels in
    record m {
      channels =
          insert channel
            (record c {
              packets_sent = add_u64 c.packets_sent 1;
              bytes_sent = add_u64 c.bytes_sent bytes;
            })
            m.channels;
    }

abbrev pub milliseconds : ℕ → ℕ
milliseconds n = n * 1_000_000

-- `_updateRtt`, of a round-trip time in milliseconds.
unfoldable pub update_rtt : ℕ → SessionMetrics → SessionMetrics
update_rtt rtt m =
    let rtt_ms = rtt % u32_mod in
    record m { rtt = rtt_ms; max_rtt = if ltb m.max_rtt rtt_ms then rtt_ms else m.max_rtt }
