-- ===== src/Protocol/Output.antt =====
-- pkg/protocol/session.go: what a session hands to its underlay (`output`), and how it is closed. The
-- underlay's `writeOneSegment` is a parameter: what it comes to may depend on the time and on all
-- that it was given before.
pub mod Stream
pub mod Loop
mod Examples
use mieru.Common.{
  ℕ, ◌+◌, ◌%◌, ◌^◌, Bool, true, false, not, ◌||◌, List, [], ◌∷◌, ◌++◌, leb, ◌==◌, if◌then◌else◌,
}
use mieru.Protocol.Metadata.{
  Metadata, session, SessionStruct, close_session_request, close_session_response, status_ok,
}
use mieru.Protocol.Segment.{
  Segment, BTree, Transport, packet_transport, stream_transport, unknown_transport, seq_of,
  protocol_of,
}
use mieru.Protocol.Segment.Tree.{SegmentTree, insert, delete_all}
use mieru.Protocol.Session.{
  Session, Congestion, forward_state_to, is_state, session_attached, session_established,
  session_closed,
}
use mieru.Protocol.Session.Send.{new_segment}

-- What `writeOneSegment` comes to; `not_ready` is an error for which `stderror.IsNotReady` holds.
pub data Delivery : Type 0 where
  delivered not_ready broken : Delivery

-- The segments that the underlay was given, with the outcome, in order.
abbrev pub Log : Type 0
Log = List (Segment × Delivery)

-- A control segment of the session.
abbrev pub control_segment : ℕ → ℕ → ℕ → ℕ → Segment
control_segment protocol id seq status_code =
    new_segment
      (session (record {
        base_struct = record { protocol = protocol; timestamp = 0 };
        session_id = id;
        seq = seq;
        status_code = status_code;
        payload_len = 0;
        suffix_len = 0;
      }))
      []

module _ (bt : BTree) (cc : Congestion) (write_one_segment : ℕ → Log → Segment → Delivery) where
  -- A session with what its underlay was given.
  pub record Link : Type 0 where
    pub session : Session bt cc
    pub log : Log

  abbrev pub note : ℕ → Segment → Delivery → Link → Link
  note now seg delivered l = record {
    session = record l.session { last_send = seq_of seg; last_tx_time = now };
    log = l.log ++ ((seg, delivered) ∷ []);
  }
  note now seg d l = record l { log = l.log ++ ((seg, d) ∷ []) }

  -- Whether the outcome is an error of `output` on the transport.
  abbrev pub is_error : Transport → Delivery → Bool
  is_error tr delivered = false
  is_error packet_transport not_ready = false
  is_error stream_transport not_ready = true
  is_error unknown_transport not_ready = true
  is_error tr broken = true

  -- `output` on the transport of the session: whether there is no error
  unfoldable pub output_on : Transport → ℕ → Segment → Link → Bool × Link
  output_on unknown_transport now seg l = (false, l)
  output_on stream_transport now seg l =
      let d = write_one_segment now l.log seg in
      (not (is_error stream_transport d), note now seg d l)
  output_on packet_transport now seg l =
      let d = write_one_segment now l.log seg in
      (not (is_error packet_transport d), note now seg d l)

  unfoldable pub output : ℕ → Segment → Link → Bool × Link
  unfolding output_on
  output now seg l = output_on l.session.transport now seg l

  abbrev pub set_session : Session bt cc → Link → Link
  set_session s l = record l { session = s }

  -- The end of `closeWithError`
  unfoldable pub shut : Link → Link
  shut l =
      let s = record l.session {
        send_queue = delete_all bt l.session.send_queue;
        send_buf = delete_all bt l.session.send_buf;
      } in
      set_session (record (forward_state_to bt cc s session_closed) { closed = true }) l

  abbrev pub close_request : Session bt cc → Segment
  close_request s = control_segment close_session_request s.id s.next_send s.status

  abbrev pub take_seq : Session bt cc → Session bt cc
  take_seq s = record s { next_send = (s.next_send + 1) % 2 ^ 32 }

  abbrev pub is_open : Session bt cc → Bool
  is_open s = is_state bt cc s session_attached || is_state bt cc s session_established

  -- `closeWithError` with an error
  unfoldable pub close_with_error : ℕ → Link → Link
  close_with_error now l =
      let s = record l.session { close_requested = true } in
      if l.session.close_requested
      then l
      else if is_open s
      then shut (output now (close_request s) (set_session (take_seq s) l)).1
      else shut (set_session s l)

  -- What `Close` comes to before it waits: it is over, or it polls `lastSend` for the segment.
  pub data Closing : Type 0 where
    over : Link → Closing
    waiting : Segment → Link → Closing

  -- `Close`, that is `closeWithError(nil)`, up to the wait
  unfoldable pub close_begin : ℕ → Link → Closing
  close_begin now l =
      let s = record l.session { close_requested = true } in
      let seg = close_request s in
      let (inserted, queue) = insert bt s.send_queue seg in
      let s' = record (take_seq s) { send_queue = queue } in
      if l.session.close_requested
      then over l
      else if is_open s
      then if inserted
        then waiting seg (set_session s' l)
        else over (shut (output now seg (set_session s' l)).1)
      else over (shut (set_session s l))

  -- … and after it, when `lastSend` has reached the segment or a second is over
  unfoldable pub close_end : ℕ → Segment → Link → Link
  close_end now seg l =
      if leb (seq_of seg) l.session.last_send then shut l else shut (output now seg l).1

  -- `if s.outputHasErr.CompareAndSwap(false, true) { close(s.outputErr) }`
  abbrev pub fail_output : Link → Link
  fail_output l = set_session (record l.session { output_has_err = true }) l

  pub data InputClose : Type 0 where
    closing : Closing → InputClose
    output_failed : Link → InputClose
    nothing : Link → InputClose

  -- `inputClose`
  unfoldable pub input_close : ℕ → Segment → Link → InputClose
  input_close now seg l =
      let reply =
        control_segment close_session_response l.session.id l.session.next_send status_ok in
      let (ok, l') = output now reply (set_session (take_seq l.session) l) in
      if protocol_of seg == close_session_request
      then if ok then closing (close_begin now l') else output_failed l'
      else if protocol_of seg == close_session_response
      then closing (close_begin now l)
      else nothing l
