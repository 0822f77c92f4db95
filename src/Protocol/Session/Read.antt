-- ===== src/Protocol/Session/Read.antt =====
-- pkg/protocol/session.go: `Read`, without a read deadline. `blocked` is the wait for segments, when
-- no event is left over in the channel of the receive queue.
pub mod Stream
use mieru.Common.{
  ℕ, zero, suc, ◌+◌, ◌-◌, Bool, true, false, not, ◌&&◌, ◌||◌, Option, none, some, List, [], ◌∷◌,
  ◌++◌, ltb, ◌==◌, if◌then◌else◌, Result, ok, err, length, take, drop,
}
use mieru.Protocol.Metadata.{open_session_response}
use mieru.Protocol.Segment.{Segment, BTree, protocol_of}
use mieru.Protocol.Segment.Tree.{SegmentTree, len, delete_min}
use mieru.Protocol.Session.{
  Session, Congestion, forward_state_to, is_state, session_attached, session_established,
}

pub data ReadError : Type 0 where
  eof unexpected_eof blocked : ReadError

module _ (bt : BTree) (cc : Congestion) where
  abbrev pub opened : Segment → Session bt cc → Session bt cc
  opened seg s =
      if s.is_client
        && protocol_of seg == open_session_response
        && is_state bt cc s session_attached
      then forward_state_to bt cc s session_established
      else s

  -- The end of a round with nothing to read: `acc` are the bytes copied so far.
  abbrev pub nothing_left : List ℕ → Session bt cc → Result ReadError (List ℕ × Session bt cc)
  nothing_left acc s =
      if ltb 0 (length acc)
      then ok (acc, s)
      else if s.closed
      then err eof
      else if s.input_has_err
      then err unexpected_eof
      else err blocked

  -- The loop, with `room` free bytes in the buffer.
  unfoldable pub read_loop :
      ℕ → ℕ → List ℕ → Session bt cc → Result ReadError (List ℕ × Session bt cc)
  read_loop zero room acc s = ok (acc, s)
  read_loop (suc fuel) room acc s =
      let acc1 = acc ++ take room s.unread_buf in
      let room1 = room - length (take room s.unread_buf) in
      let s1 = record s { unread_buf = drop room s.unread_buf } in
      let (r, queue) = delete_min bt s.recv_queue in
      let pulled : Result ReadError (List ℕ × Session bt cc) = elim r [
        | none ↦ read_loop fuel room1 acc1 s1
        | some seg ↦
            let acc2 = acc1 ++ take room1 seg.payload in
            let room2 = room1 - length (take room1 seg.payload) in
            let s2 = record (opened seg s1) {
              recv_queue = queue;
              unread_buf = drop room1 seg.payload;
            } in
            let rest = read_loop fuel room2 acc2 s2 in if room2 == 0 then ok (acc2, s2) else rest
      ] in
      if ltb 0 (length s.unread_buf) && (room1 == 0 || ltb 0 (length s1.unread_buf))
      then ok (acc1, s1)
      else if ltb 0 (len bt s.recv_queue)
      then pulled
      else nothing_left acc1 s1

  -- `Read` into a buffer of `size` bytes: the bytes it puts there. Each round but the last takes a
  -- segment out of the receive queue.
  unfoldable pub read : ℕ → Session bt cc → Result ReadError (List ℕ × Session bt cc)
  unfolding read_loop
  read size s = if size == 0 then ok ([], s) else read_loop (suc (len bt s.recv_queue)) size [] s
