-- ===== src/Context/Handshake/Receive/Runs.antt =====
-- The two connections of a handshake after each of its packets.
use simple_quic.Common.{ℕ, ◌≡◌, refl, ap, ◌∙◌, List, [], ◌∷◌, true, false, some, ok}
use simple_quic.Utils.Interval.{range_comp, point_comp, merge, holds}
use simple_quic.Payload.Frame.{Frame}
use simple_quic.Payload.Packet.{Header, get_pkt_num}
use simple_quic.Payload.Packet.Whole.{Packet}
use simple_quic.Context.ConnectionId.{ConnectionId, same_id}
use simple_quic.Context.ConnectionId.Order.{same_id_refl}
use simple_quic.Context.Congestion.{ConnectionState, CongestionState, init_congestion_state}
use simple_quic.Context.Queue.{single, enqueue}
use simple_quic.Context.Ledger.{
  TimeVal, msec_of, add_rec_pkt, rem_need_ack_pkt, sweep, add_acked_sent_pkt_num, new_sweep,
  get_need_ack_rec_pkt, have_received_pkt,
}
use simple_quic.Context.Incoming.{Connection}
use simple_quic.Context.Handshake.{
  new_connection, new_ledger, client_connection, accept_connection, ack_frames, initial_packet,
}
use simple_quic.Context.Handshake.Receive.{on_known, answer, answer_if, answer_as}
use simple_quic.Payload.Packet.Make.{make_initial, make_long}
use simple_quic.Utils.Codec.{encode_var_int_len, encode_params, encode_index}
use simple_quic.Context.Closing.{queue_new, with_state}
use simple_quic.Utils.Interval.Sets.{contain, add_interval, add_interval_set}
use simple_quic.Context.Sending.{update_idle_time}
use simple_quic.Context.Rtt.{update_pto, reset_rtt}

-- An INITIAL packet that the code builds, with a number below 64.
abbrev pub initial_of : (src dst : ConnectionId) → ℕ → List Frame → Packet
initial_of src dst num frames = record {
  header =
      Header.initial
        (record { packet_type = 0; lower = 0; upper = 0; version = 4; dst = dst; src = src }) [] 1
        num;
  payload = some frames;
}

abbrev pub ack_one : List Frame
ack_one = Frame.ack 0 (single 1 ∷ []) ∷ []

-- After CreateConnection.
abbrev pub started : TimeVal → (src dst : ConnectionId) → Connection
started now src dst = record new_connection {
  local = src;
  remote = dst;
  now_pkt_num = 1;
  rtt = record new_connection.rtt { smoothed_rtt = 500; rtt_var = 250 };
  sender = record {
    queue = record {
      pending = initial_of src dst 1 [] ∷ [];
      need_ack = true ∷ [];
      to_send = single 1 ∷ [];
    };
    ledger = record new_ledger { pto = 1500; larget_acked_packet = 0xffff_ffff };
    idle_time = msec_of now;
    no_ack_elicity_packet_sent = true;
  };
}

-- The server's connection, once the first packet has come.
abbrev pub accepted : TimeVal → (src dst fresh : ConnectionId) → Connection
accepted now src dst fresh = record new_connection {
  local = dst;
  remote = fresh;
  now_pkt_num = 1;
  sender = record {
    queue = record {
      pending = initial_of dst fresh 1 ack_one ∷ [];
      need_ack = true ∷ [];
      to_send = single 1 ∷ [];
    };
    ledger = record new_ledger {
      rec_pkt = initial_of src dst 1 [] ∷ [];
      rec_pkt_num = single 1 ∷ [];
      congestion = record new_ledger.congestion { cur_state = ConnectionState.peer_established };
    };
    idle_time = msec_of now;
    no_ack_elicity_packet_sent = true;
  };
}

-- The client's connection, once the answer has come.
abbrev pub answered : (t now : TimeVal) (src dst fresh : ConnectionId) → Connection
answered t now src dst fresh =
    let c = started t src dst in
    record c {
      local = fresh;
      now_pkt_num = 2;
      sender = record {
        queue = record {
          pending = initial_of src dst 1 [] ∷ initial_of fresh dst 2 ack_one ∷ [];
          need_ack = true ∷ false ∷ [];
          to_send = record { start = 1; end = 2 } ∷ [];
        };
        ledger = record c.sender.ledger {
          rec_pkt = initial_of dst fresh 1 [] ∷ [];
          rec_pkt_num = single 1 ∷ [];
          congestion = record {
            cur_state = ConnectionState.established;
            window = 1080;
            threshold = 10800;
            state = CongestionState.slow_start;
            on_flight = 0;
            three_times_ack = 0;
          };
        };
        idle_time = msec_of now;
        no_ack_elicity_packet_sent = true;
      };
    }

-- The server's connection, once the client has confirmed.
abbrev pub confirmed : (t now : TimeVal) (src dst fresh : ConnectionId) → Connection
confirmed t now src dst fresh =
    let c = accepted t src dst fresh in
    record c {
      sender = record c.sender {
        ledger = record c.sender.ledger {
          rec_pkt = initial_of src dst 1 [] ∷ initial_of fresh dst 2 [] ∷ [];
          rec_pkt_num = record { start = 1; end = 2 } ∷ [];
          congestion = record {
            cur_state = ConnectionState.established;
            window = 10800;
            threshold = 108000;
            state = CongestionState.slow_start;
            on_flight = 0;
            three_times_ack = 0;
          };
        };
        idle_time = msec_of now;
      };
    }

pub client_connection-started :
    (now : TimeVal) (src dst : ConnectionId)
    → client_connection now src dst ≡ ok (started now src dst)
unfolding client_connection make_initial make_long encode_var_int_len encode_params encode_index
    queue_new enqueue add_interval update_idle_time get_pkt_num update_pto reset_rtt
client_connection-started now src dst = refl

pub accept_connection-accepted :
    (now : TimeVal) (src dst fresh : ConnectionId)
    → accept_connection now (initial_of src dst 1 []) dst fresh ≡ ok (accepted now src dst fresh)
unfolding accept_connection add_rec_pkt add_interval get_need_ack_rec_pkt add_interval_set
    range_comp point_comp get_pkt_num make_initial make_long encode_var_int_len encode_params
    encode_index queue_new enqueue update_idle_time with_state
accept_connection-accepted now src dst fresh = refl

answer-answer_as :
    (now : TimeVal) (p : Packet) (src dst : ConnectionId) (frames : List Frame) (c : Connection)
    → same_id c.remote src ≡ true
    → answer now p src dst frames c ≡ answer_as now p src dst frames c
unfolding answer answer_if
answer-answer_as now p src dst frames c e = ap (λ b. answer_if b now p src dst frames c) e

answer_as-answered :
    (t now : TimeVal) (src dst fresh : ConnectionId)
    → answer_as now (initial_of dst fresh 1 []) dst fresh [] (started t src dst)
      ≡ ok (answered t now src dst fresh)
unfolding answer_as get_pkt_num add_rec_pkt add_interval with_state range_comp merge ack_frames
    rem_need_ack_pkt sweep add_acked_sent_pkt_num add_interval_set update_idle_time new_sweep
    init_congestion_state get_need_ack_rec_pkt point_comp make_initial make_long encode_var_int_len
    encode_params encode_index queue_new enqueue initial_packet
answer_as-answered t now src dst fresh = refl

pub on_known-answered :
    (t now : TimeVal) (src dst fresh : ConnectionId)
    → on_known ConnectionState.created now
        (initial_of dst fresh 1 [])
        dst
        fresh
        []
        (started t src dst)
      ≡ ok (answered t now src dst fresh)
unfolding on_known have_received_pkt contain
on_known-answered t now src dst fresh =
    answer-answer_as now (initial_of dst fresh 1 []) dst fresh [] (started t src dst)
      (same_id_refl dst)
    ∙ answer_as-answered t now src dst fresh

pub on_known-confirmed :
    (t now : TimeVal) (src dst fresh : ConnectionId)
    → on_known ConnectionState.peer_established now
        (initial_of fresh dst 2 [])
        fresh
        dst
        []
        (accepted t src dst fresh)
      ≡ ok (confirmed t now src dst fresh)
unfolding on_known have_received_pkt contain holds get_pkt_num add_rec_pkt add_interval with_state
    range_comp merge ack_frames rem_need_ack_pkt sweep add_acked_sent_pkt_num add_interval_set
    update_idle_time new_sweep init_congestion_state
on_known-confirmed t now src dst fresh = refl
