-- ===== src/Protocol/Session/Send.antt =====
-- pkg/protocol/session.go: `Write`, which cuts the data into segments for the send queue. Without a
-- write deadline; `blocked` is the wait for room in the send queue, and `still_waiting` the wait for
-- it to move.
pub mod Fragments
pub mod Chunk
use mieru.Common.{
  ℕ, zero, suc, ◌+◌, ◌-◌, ◌*◌, ◌/◌, ◌%◌, ◌^◌, ◌≤◌, ◌<◌, ◌≡◌, Bool, true, false, not, ◌&&◌, ◌||◌,
  Option, none, some, List, [], ◌∷◌, leb, ltb, ◌==◌, if◌then◌else◌, Result, ok, err, ◌>>=◌, ◌>>◌,
  fail_if, map_err, length, take, drop,
}
use mieru.Mathext.Numbers.{min_num}
use mieru.Protocol.Metadata.{
  Metadata, session, data_ack, SessionStruct, DataAckStruct, BaseStruct, open_session_request,
  data_client_to_server, data_server_to_client, data_client_to_server_low_entropy,
  data_server_to_client_low_entropy, max_session_open_payload,
}
use mieru.Protocol.LowEntropy.Params.{LowEntropyError, mode_off, low_entropy_encoded_payload_len}
use mieru.Protocol.Segment.{Segment, BTree}
use mieru.Protocol.Segment.FragmentSize.{FragmentError, max_fragment_size, max_pdu}
use mieru.Protocol.Segment.Tree.{SegmentTree, insert, remaining, min_seq}
use mieru.Protocol.Session.{
  Session, Congestion, receive_window_size, is_state, is_state_before, is_state_after,
  session_attached, session_closed,
}

pub data WriteError : Type 0 where
  eof closed_pipe short_write not_ready insert_failed blocked still_waiting : WriteError
  -- a panic of Go's integer division
  division_by_zero : WriteError
  fragment_error : FragmentError → WriteError
  encode_error : LowEntropyError → WriteError

-- A segment that has not been sent.
abbrev pub new_segment : Metadata → List ℕ → Segment
new_segment m payload = record {
  metadata = m;
  payload = payload;
  ack_count = 0;
  tx_count = 0;
  tx_time = 0;
  tx_timeout = 0;
}

abbrev pub data_protocol : Bool → Bool → ℕ
data_protocol is_client low_entropy =
    if is_client
    then if low_entropy then data_client_to_server_low_entropy else data_client_to_server
    else if low_entropy
    then data_server_to_client_low_entropy
    else data_server_to_client

abbrev pub mode_of : Option (ℕ × ℕ) → ℕ
mode_of none = mode_off
mode_of (some (mode, rotation)) = mode

abbrev pub fragment_count : ℕ → ℕ → ℕ
fragment_count len size = if ltb size len then (len - 1) / size + 1 else 1

module _ (bt : BTree) (cc : Congestion) where
  -- `lowEntropySendConfig`: the mode and rotation, if low entropy data is sent
  unfoldable pub low_entropy_send_config : Session bt cc → Option (ℕ × ℕ)
  low_entropy_send_config s =
      if not s.is_client && not s.client_use_low_entropy then none else s.low_entropy

  -- The segment for one fragment; `encoded_len` is what `payloadLen` says.
  abbrev plain_data : Session bt cc → ℕ → List ℕ → Segment
  plain_data s i part =
      new_segment
        (data_ack (record {
          base_struct = record { protocol = data_protocol s.is_client false; timestamp = 0 };
          low_entropy_mode = 0;
          session_id = s.id;
          seq = s.next_send;
          un_ack_seq = s.next_recv;
          window_size = receive_window_size bt cc s % 2 ^ 16;
          fragment = i % 2 ^ 8;
          prefix_len = 0;
          payload_len = length part % 2 ^ 16;
          suffix_len = 0;
          low_entropy_mask = 0;
          extracted_payload_len = 0;
          low_entropy_mask_rotation = 0;
        }))
        part

  abbrev low_entropy_data : Session bt cc → ℕ → List ℕ → ℕ → ℕ → ℕ → Segment
  low_entropy_data s i part mode rotation encoded_len =
      new_segment
        (data_ack (record {
          base_struct = record { protocol = data_protocol s.is_client true; timestamp = 0 };
          low_entropy_mode = mode % 2 ^ 8;
          session_id = s.id;
          seq = s.next_send;
          un_ack_seq = s.next_recv;
          window_size = receive_window_size bt cc s % 2 ^ 16;
          fragment = i % 2 ^ 8;
          prefix_len = 0;
          payload_len = encoded_len;
          suffix_len = 0;
          low_entropy_mask = 0;
          extracted_payload_len = length part % 2 ^ 16;
          low_entropy_mask_rotation = rotation % 2 ^ 8;
        }))
        part

  unfoldable pub make_fragment :
      Session bt cc → Option (ℕ × ℕ) → ℕ → List ℕ → Result WriteError Segment
  make_fragment s none i part = ok (plain_data s i part)
  make_fragment s (some (mode, rotation)) i part = do
    encoded_len ← map_err encode_error (low_entropy_encoded_payload_len (length part) mode)
    ok (low_entropy_data s i part mode rotation encoded_len)

  -- One round of the fragment loop: the segment takes the next sequence number and is queued.
  unfoldable pub queue_segment : Segment → Session bt cc → Result WriteError (Session bt cc)
  queue_segment seg s =
      let (inserted, queue) = insert bt s.send_queue seg in
      let s' = record s { send_queue = queue; next_send = (s.next_send + 1) % 2 ^ 32 } in
      if inserted then ok s' else err insert_failed

  -- The fragment loop; the number is `i + 1`.
  unfoldable pub write_fragments :
      ℕ → ℕ → Option (ℕ × ℕ) → List ℕ → Session bt cc → Result WriteError (Session bt cc)
  write_fragments zero size low ptr s = ok s
  write_fragments (suc i) size low ptr s = do
    fail_if s.closed eof
    fail_if s.output_has_err closed_pipe
    let part_len = min_num size (length ptr)
    seg ← make_fragment s low i (take part_len ptr)
    s' ← queue_segment seg s
    write_fragments i size low (drop part_len ptr) s'

  -- `seqBeforeWrite, _ := s.sendQueue.MinSeq()`
  abbrev pub seq_or_zero : Option ℕ → ℕ
  seq_or_zero none = 0
  seq_or_zero (some seq) = seq

  abbrev pub has_moved : ℕ → Option ℕ → Bool
  has_moved before none = true
  has_moved before (some seq) = ltb before seq

  -- One round of the wait for the send queue to be empty or to move: whether it is over. A round
  -- that finds the event of an empty queue consumes it.
  unfoldable pub wait_round : ℕ → Session bt cc → Bool × Session bt cc
  wait_round before s =
      if s.send_queue.empty_event
      then (true, record s { send_queue = record s.send_queue { empty_event = false } })
      else (has_moved before (min_seq bt s.send_queue), s)

  -- The wait, with what other goroutines do to the session in each delay between two rounds.
  unfoldable pub wait_moving :
      List (Session bt cc → Session bt cc) → ℕ → Session bt cc → Result WriteError (Session bt cc)
  wait_moving [] before s =
      let (over, t) = wait_round before s in if over then ok t else err still_waiting
  wait_moving (f ∷ fs) before s =
      let rest = wait_moving fs before (f s) in
      let (over, t) = wait_round before s in if over then ok t else rest

  -- `writeChunk` without a write deadline; `others` is what other goroutines do while it waits.
  unfoldable pub write_chunk :
      List (Session bt cc → Session bt cc)
      → List ℕ
      → Session bt cc
      → Result WriteError (ℕ × Session bt cc)
  write_chunk others b s = do
    fail_if (ltb max_pdu (length b)) short_write
    let low = low_entropy_send_config s
    size ← map_err fragment_error (max_fragment_size s.mtu s.transport (mode_of low))
    fail_if (size == 0 && ltb 0 (length b)) division_by_zero
    let count = fragment_count (length b) size
    let full = leb (remaining bt s.send_queue) count
    fail_if (full && s.closed) eof
    fail_if (full && s.output_has_err) closed_pipe
    fail_if full blocked
    s' ← write_fragments count size low b s
    t ← wait_moving others (seq_or_zero (min_seq bt s.send_queue)) s'
    ok (length b, t)
