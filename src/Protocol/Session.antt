-- ===== src/Protocol/Session.antt =====
-- pkg/protocol/session.go: the state of a session, its states and its windows. Atomic fields and
-- channels are fields; a closed channel is a Boolean. Each method that holds a lock is one step, and
-- reads the clock once: `now` is in microseconds. The address, the cipher, the user and the metrics
-- of a session are left out.
pub mod Read
pub mod Receive
pub mod Send
pub mod Examples
use mieru.Common.{
  ℕ, ◌+◌, ◌-◌, ◌*◌, ◌%◌, ◌^◌, ◌≤◌, ◌<◌, ◌≡◌, Bool, true, false, Option, none, some, List, [], leb,
  ltb, ◌==◌, ◌&&◌, if◌then◌else◌, arith,
}
use mieru.Mathext.Numbers.{min_num, max_num}
use mieru.Protocol.Metadata.{open_session_response}
use mieru.Protocol.Segment.{
  Segment, BTree, Transport, packet_transport, stream_transport, unknown_transport, protocol_of,
}
use mieru.Protocol.Segment.Tree.{SegmentTree, len, new_segment_tree}

abbrev pub segment_tree_capacity : ℕ
segment_tree_capacity = 4096

abbrev pub segment_send_queue_tree_capacity : ℕ
segment_send_queue_tree_capacity = 1024

abbrev pub min_window_size : ℕ
min_window_size = 16

abbrev pub packet_ack_delay : ℕ
packet_ack_delay = 1000

-- `sessionState`
abbrev pub session_init : ℕ
session_init = 0

abbrev pub session_attached : ℕ
session_attached = 1

abbrev pub session_established : ℕ
session_established = 2

abbrev pub session_closed : ℕ
session_closed = 3

-- What a session uses of pkg/congestion: the round-trip statistics and the window algorithm, each
-- call with the time at which it is made.
pub record Congestion : Type 1 where
  pub Rtt : Type 0
  pub new_rtt : Rtt
  pub update_rtt : ℕ → Rtt → Rtt
  pub rto : Rtt → ℕ
  pub Cubic : Type 0
  pub new_cubic : Cubic
  pub on_ack : ℕ → Cubic → Cubic
  pub on_loss : ℕ → Cubic → Cubic
  pub on_timeout : Cubic → Cubic
  pub congestion_window_size : Cubic → ℕ

module _ (bt : BTree) (cc : Congestion) where
  pub record Session : Type 0 where
    pub id : ℕ
    pub is_client : Bool
    pub mtu : ℕ
    pub transport : Transport
    pub state : ℕ
    pub status : ℕ
    pub close_requested : Bool
    pub closed : Bool
    pub input_has_err : Bool
    pub output_has_err : Bool
    pub send_queue : SegmentTree bt
    pub send_buf : SegmentTree bt
    pub recv_buf : SegmentTree bt
    pub recv_queue : SegmentTree bt
    pub packet_output_wakeup : Bool
    pub next_send : ℕ
    pub next_recv : ℕ
    pub last_send : ℕ
    pub last_rx_time : ℕ
    pub last_tx_time : ℕ
    pub next_retransmission_time : ℕ
    pub ack_on_data_recv : Bool
    pub ack_deadline : ℕ
    pub unread_buf : List ℕ
    pub rtt_stat : cc.Rtt
    pub cubic_send_algorithm : cc.Cubic
    pub remote_window_size : ℕ
    pub open_session_request_sent : Bool
    pub client_use_low_entropy : Bool
    -- mode and rotation, where the traffic pattern enables low entropy
    pub low_entropy : Option (ℕ × ℕ)
    -- the random number of milliseconds that `randomHeartbeatJitter` starts from, 0 to 2000
    pub heartbeat_jitter : ℕ

  -- `newSessionWithServerUserPolicy`
  unfoldable pub new_session : ℕ → Bool → ℕ → Transport → Option (ℕ × ℕ) → ℕ → ℕ → Session
  new_session id is_client mtu transport low_entropy now heartbeat_jitter = record {
    id = id;
    is_client = is_client;
    mtu = mtu;
    transport = transport;
    state = session_init;
    status = 0;
    close_requested = false;
    closed = false;
    input_has_err = false;
    output_has_err = false;
    send_queue = new_segment_tree bt segment_send_queue_tree_capacity;
    send_buf = new_segment_tree bt segment_tree_capacity;
    recv_buf = new_segment_tree bt segment_tree_capacity;
    recv_queue = new_segment_tree bt segment_tree_capacity;
    packet_output_wakeup = false;
    next_send = 0;
    next_recv = 0;
    last_send = 0;
    last_rx_time = now;
    last_tx_time = now;
    next_retransmission_time = 0;
    ack_on_data_recv = false;
    ack_deadline = 0;
    unread_buf = [];
    rtt_stat = cc.new_rtt;
    cubic_send_algorithm = cc.new_cubic;
    remote_window_size = min_window_size;
    open_session_request_sent = false;
    client_use_low_entropy = false;
    low_entropy = low_entropy;
    heartbeat_jitter = heartbeat_jitter;
  }

  -- `isState`, `isStateBefore` and `isStateAfter`
  abbrev pub is_state : Session → ℕ → Bool
  is_state s target = s.state == target

  abbrev pub is_state_before : Session → ℕ → Bool → Bool
  is_state_before s target include = if include then leb s.state target else ltb s.state target

  abbrev pub is_state_after : Session → ℕ → Bool → Bool
  is_state_after s target include = if include then leb target s.state else ltb target s.state

  -- `forwardStateTo`; the compare-and-swap succeeds at once, since a step is not interrupted.
  unfoldable pub forward_state_to : Session → ℕ → Session
  forward_state_to s next = if leb next s.state then s else record s { state = next }

  abbrev pub is_packet : Transport → Bool
  is_packet packet_transport = true
  is_packet _ = false

  -- `isClientPacketSessionOpening` and `isClientPacketSessionOpenResponse`
  abbrev pub is_client_packet_session_opening : Session → Bool
  is_client_packet_session_opening s =
      s.is_client && is_packet s.transport && is_state s session_attached

  abbrev pub is_client_packet_session_open_response : Session → Segment → Bool
  is_client_packet_session_open_response s seg =
      is_client_packet_session_opening s && protocol_of seg == open_session_response

  -- `sendWindowSize`: a negative difference counts as 0 in the source too, by `Max(0, …)`.
  abbrev pub send_window_size : Session → ℕ
  send_window_size s =
      min_num (cc.congestion_window_size s.cubic_send_algorithm - len bt s.send_buf)
        s.remote_window_size

  -- `receiveWindowSize`, likewise
  abbrev pub receive_window_size : Session → ℕ
  receive_window_size s = segment_tree_capacity - len bt s.recv_buf - len bt s.recv_queue

  -- `wakePacketOutput` and `requestPacketAck`
  abbrev pub wake_packet_output : Session → Session
  wake_packet_output s = record s { packet_output_wakeup = true }

  unfoldable pub request_packet_ack : ℕ → Session → Session
  request_packet_ack now s =
      if s.ack_on_data_recv
      then s
      else wake_packet_output
          (record s { ack_deadline = now + packet_ack_delay; ack_on_data_recv = true })
