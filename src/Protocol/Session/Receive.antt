-- ===== src/Protocol/Session/Receive.antt =====
-- pkg/protocol/session.go: what a session does with the segments that arrive.
pub mod Deliver
pub mod InOrder
pub mod Packet
pub mod Acks
pub mod Open
use mieru.Common.{
  ℕ, zero, suc, ◌+◌, ◌-◌, ◌%◌, ◌^◌, ◌≤◌, ◌<◌, ◌≡◌, Bool, true, false, not, ◌&&◌, ◌||◌, Option, none,
  some, List, [], ◌∷◌, leb, ltb, ◌==◌, if◌then◌else◌,
}
use mieru.Protocol.Metadata.{
  Metadata, session, data_ack, SessionStruct, DataAckStruct, open_session_request,
  open_session_response, status_quota_exhausted,
}
use mieru.Protocol.Segment.{
  Segment, BTree, Transport, packet_transport, stream_transport, unknown_transport, protocol_of,
  seq_of,
}
use mieru.Protocol.Segment.Tree.{SegmentTree, len, remaining, insert, delete_min_if, ascend}
use mieru.Protocol.Session.{
  Session, Congestion, receive_window_size, request_packet_ack, wake_packet_output,
  forward_state_to, is_state, session_attached, session_established,
}
use mieru.Protocol.Session.Send.{new_segment}

module _ (bt : BTree) (cc : Congestion) where
  -- What a handler comes to: it runs to its end, returns early with no error, fails, calls `Close` and
  -- returns with no error, or waits for the application to read.
  pub data Outcome : Type 0 where
    done : Session bt cc → Outcome
    returned : Session bt cc → Outcome
    failed : Session bt cc → Outcome
    closing : Session bt cc → Outcome
    blocked : Outcome

  -- The round-trip sample and the window update for an acknowledged segment
  abbrev pub acked : ℕ → Segment → Session bt cc → Session bt cc
  acked now seg s = record s {
    rtt_stat = cc.update_rtt (now - seg.tx_time) s.rtt_stat;
    cubic_send_algorithm = cc.on_ack now s.cubic_send_algorithm;
  }

  -- The loop of `inputData` and `inputAck` that takes the acknowledged segments from `sendBuf`. The
  -- number is fuel.
  pub drop_acked : ℕ → ℕ → ℕ → Session bt cc → Session bt cc
  drop_acked zero now un_ack_seq s = s
  drop_acked (suc fuel) now un_ack_seq s =
      let (r, buf) = delete_min_if bt s.send_buf (λ seg. ltb (seq_of seg) un_ack_seq) in
      let s' = record s { send_buf = buf } in
      elim r [
        | none ↦ s'
        | some (seg, deleted) ↦ elim deleted [
          | false ↦ s'
          | true ↦ drop_acked fuel now un_ack_seq (acked now seg s')
        ]
      ]

  -- Acknowledgement and window of a data or ack segment; each round takes a segment away.
  unfoldable pub accept_ack : ℕ → DataAckStruct → Session bt cc → Session bt cc
  unfolding drop_acked
  accept_ack now das s = record (drop_acked (suc (len bt s.send_buf)) now das.un_ack_seq s) {
    remote_window_size = das.window_size;
  }

  abbrev pub remote_window : Metadata → ℕ → ℕ
  remote_window (session ss) w = w
  remote_window (data_ack das) w = das.window_size

  -- The end of a round of `moveRecvBufToRecvQueue` that moved `seg`.
  abbrev pub advance : Segment → Session bt cc → Session bt cc
  advance seg s = record s {
    next_recv = (s.next_recv + 1) % 2 ^ 32;
    remote_window_size = remote_window seg.metadata s.remote_window_size;
  }

  -- `moveRecvBufToRecvQueue`, on fuel
  pub move_loop : ℕ → Session bt cc → Outcome
  move_loop zero s = done s
  move_loop (suc fuel) s =
      let (r, buf) = delete_min_if bt s.recv_buf (λ seg. leb (seq_of seg) s.next_recv) in
      let s' = record s { recv_buf = buf } in
      let rest : Outcome = elim r [
        | none ↦ done s'
        | some (seg, deleted) ↦
            let (inserted, queue) = insert bt s.recv_queue seg in
            let (back, buf') = insert bt buf seg in
            let skip = move_loop fuel s' in
            let next = move_loop fuel (advance seg (record s' { recv_queue = queue })) in
            let put_back = record s' { recv_queue = queue; recv_buf = buf' } in
            if not deleted
            then done s'
            else if ltb (seq_of seg) s.next_recv
            then skip
            else if inserted
            then next
            else if back
            then done put_back
            else failed put_back
      ] in
      if remaining bt s.recv_queue == 0 then done s else rest

  -- Each round but the last takes a segment out of `recvBuf`.
  unfoldable pub move_recv_buf_to_recv_queue : Session bt cc → Outcome
  unfolding move_loop
  move_recv_buf_to_recv_queue s = move_loop (suc (len bt s.recv_buf)) s

  -- `waitForRecvQueueSpace`, and what runs after it
  abbrev when_recv_queue_space :
      Session bt cc → (Session bt cc → Outcome) → (Session bt cc → Outcome) → Outcome
  when_recv_queue_space s yes_space no_space =
      if s.closed
      then no_space s
      else if ltb 0 (remaining bt s.recv_queue)
      then yes_space s
      else blocked

  -- `das, ok := seg.metadata.(*dataAckStruct)`, and what is done if it is one
  abbrev pub accept_piggybacked : ℕ → Metadata → Session bt cc → Session bt cc
  accept_piggybacked now (session ss) s = s
  accept_piggybacked now (data_ack das) s = accept_ack now das s

  abbrev pub wake_if_queued : Session bt cc → Session bt cc
  wake_if_queued s = if ltb 0 (len bt s.send_queue) then wake_packet_output bt cc s else s

  abbrev pub and_then : Outcome → (Session bt cc → Outcome) → Outcome
  and_then (done s) k = k s
  and_then (returned s) k = returned s
  and_then (failed s) k = failed s
  and_then (closing s) k = closing s
  and_then blocked k = blocked

  -- `inputData` on the packet transport, in its order: the acknowledgement that the segment carries
  -- and the request for one, …
  abbrev pub prepare_packet : ℕ → Segment → Session bt cc → Session bt cc
  prepare_packet now seg s =
      request_packet_ack bt cc now (wake_if_queued (accept_piggybacked now seg.metadata s))

  -- … then the delivery to `recvBuf` and on to `recvQueue`
  unfoldable pub store_packet : ℕ → Segment → Session bt cc → Outcome
  store_packet now seg s =
      if receive_window_size bt cc s == 0
      then returned s
      else let (inserted, buf) = insert bt s.recv_buf seg in
        let s = record s { recv_buf = buf } in
        if not inserted
        then returned s
        else and_then (when_recv_queue_space s move_recv_buf_to_recv_queue (λ s. done s))
            (λ s. done (request_packet_ack bt cc now s))

  unfoldable pub receive_packet : ℕ → Segment → Session bt cc → Outcome
  receive_packet now seg s = store_packet now seg (prepare_packet now seg s)

  -- `inputData` on the stream transport, likewise
  unfoldable pub receive_stream : Segment → Session bt cc → Outcome
  receive_stream seg s =
      when_recv_queue_space s
        (λ s.
          let (inserted, queue) = insert bt s.recv_queue seg in
          let s' = record s { recv_queue = queue } in if inserted then done s' else failed s')
        (λ s. done s)

  -- The answer to an open request
  abbrev pub open_response : Session bt cc → Segment
  open_response s =
      new_segment
        (session (record {
          base_struct = record { protocol = open_session_response; timestamp = 0 };
          session_id = s.id;
          seq = s.next_send;
          status_code = 0;
          payload_len = 0;
          suffix_len = 0;
        }))
        []

  unfoldable pub send_open_response : Session bt cc → Outcome
  send_open_response s =
      let (inserted, queue) = insert bt s.send_queue (open_response s) in
      let s' = record s { send_queue = queue; next_send = (s.next_send + 1) % 2 ^ 32 } in
      if inserted then done (forward_state_to bt cc s' session_established) else failed s'

  -- `quota` is what `checkQuota` says of the user, if there is one.
  abbrev pub answer_by_quota : Option Bool → Session bt cc → Outcome
  answer_by_quota none s = send_open_response s
  answer_by_quota (some true) s = send_open_response s
  answer_by_quota (some false) s = closing (record s { status = status_quota_exhausted })

  -- What `inputData` does at its end
  unfoldable pub answer_open : Option Bool → Segment → Session bt cc → Outcome
  answer_open quota seg s =
      if not s.is_client && protocol_of seg == open_session_request
      then if is_state bt cc s session_attached then answer_by_quota quota s else done s
      else done s

  -- `inputData`, on the transport of the session
  unfoldable pub input_data_on : Transport → ℕ → Option Bool → Segment → Session bt cc → Outcome
  input_data_on unknown_transport now quota seg s = failed s
  input_data_on stream_transport now quota seg s =
      and_then (receive_stream seg s) (answer_open quota seg)
  input_data_on packet_transport now quota seg s =
      and_then (receive_packet now seg s) (answer_open quota seg)

  unfoldable pub input_data : ℕ → Option Bool → Segment → Session bt cc → Outcome
  unfolding input_data_on
  input_data now quota seg s = input_data_on s.transport now quota seg s

  -- `inputAck`
  abbrev pub count_ack : ℕ → Segment → Segment × Bool
  count_ack un_ack_seq seg =
      if ltb un_ack_seq (seq_of seg)
      then (seg, false)
      else if seq_of seg == un_ack_seq
      then (record seg { ack_count = (seg.ack_count + 1) % 2 ^ 8 }, true)
      else (seg, true)

  abbrev pub acknowledge : ℕ → DataAckStruct → Session bt cc → Session bt cc
  acknowledge now das s =
      let s = accept_ack now das s in
      wake_if_queued (record s { send_buf = ascend bt s.send_buf (count_ack das.un_ack_seq) })

  unfoldable pub input_ack : ℕ → DataAckStruct → Session bt cc → Outcome
  input_ack now das s = elim s.transport [
    | unknown_transport ↦ failed s
    | stream_transport ↦ done s
    | packet_transport ↦ done (acknowledge now das s)
  ]
