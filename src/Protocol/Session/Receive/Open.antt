-- ===== src/Protocol/Session/Receive/Open.antt =====
-- `inputData` as a whole: the receive side, and the answer of a server to an open request.
use mieru.Common.{◌+◌, ◌%◌, ◌^◌, ◌≤◌, ◌≡◌, Bool, true, false, not, ◌&&◌, Option, some, ◌==◌, length}
use mieru.Protocol.Metadata.{open_session_request, status_quota_exhausted}
use mieru.Protocol.Segment.{Segment, BTree, protocol_of, insert_in_order}
use mieru.Protocol.Segment.Tree.{contents}
use mieru.Protocol.Session.{Session, Congestion, is_state, session_attached, session_established}
use mieru.Protocol.Session.Receive.{Outcome, done, returned, failed, closing, open_response}
use mieru.Protocol.Session.Receive.Packet.{SameReceive}

module _ (bt : BTree) (cc : Congestion) where
  -- A session that was opened: the response is queued under the next sequence number.
  pub record Opened (s t : Session bt cc) : Type 0 where
    pub queue :
        contents bt t.send_queue
        ≡ insert_in_order (open_response bt cc s) (contents bt s.send_queue)
    pub next : t.next_send ≡ (s.next_send + 1) % 2 ^ 32
    pub state : session_established ≤ t.state
    pub receive : SameReceive bt cc s t

  -- A server that waits for the open request, and gets it.
  abbrev pub is_opening : Segment → Session bt cc → Bool
  is_opening seg s =
      not s.is_client
      && protocol_of seg == open_session_request
      && is_state bt cc s session_attached

  -- What follows when the receive side has come to `s`.
  pub data Answered (quota : Option Bool) (seg : Segment) (s : Session bt cc)
      : Outcome bt cc → Type 0 where
    dropped : Answered quota seg s (returned s)
    nothing_to_answer : is_opening seg s ≡ false → Answered quota seg s (done s)
    response_queued :
        (t : Session bt cc) → is_opening seg s ≡ true → Opened s t → Answered quota seg s (done t)
    refused :
        is_opening seg s ≡ true
        → quota ≡ some false
        → Answered quota seg s (closing (record s { status = status_quota_exhausted }))
    queue_full :
        (t : Session bt cc)
        → is_opening seg s ≡ true
        → s.send_queue.cap ≤ length (contents bt s.send_queue)
        → Answered quota seg s (failed t)
