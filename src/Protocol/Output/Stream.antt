-- ===== src/Protocol/Output/Stream.antt =====
-- `runOutputOnceStream`: the send queue goes to the underlay.
pub mod Order
use mieru.Common.{ℕ, zero, suc, Bool, true, false, Option, none, some, List, if◌then◌else◌}
use mieru.Protocol.Segment.{Segment, BTree}
use mieru.Protocol.Segment.Tree.{SegmentTree, len, delete_min}
use mieru.Protocol.Session.{Session, Congestion}
use mieru.Protocol.Output.{Delivery, Log, Link, output, close_with_error, fail_output, set_session}

module _ (bt : BTree) (cc : Congestion) (write_one_segment : ℕ → Log → Segment → Delivery) where
  -- The loop, on fuel; each round but the last takes a segment out of the queue.
  unfoldable pub stream_loop : ℕ → ℕ → Link bt cc write_one_segment → Link bt cc write_one_segment
  stream_loop zero now l = l
  stream_loop (suc fuel) now l =
      let (r, queue) = delete_min bt l.session.send_queue in
      let l' = set_session bt cc write_one_segment (record l.session { send_queue = queue }) l in
      elim r [
        | none ↦ l'
        | some seg ↦
            let (ok, sent) = output bt cc write_one_segment now seg l' in
            let rest = stream_loop fuel now sent in
            if ok
            then rest
            else close_with_error bt cc write_one_segment now
                (fail_output bt cc write_one_segment sent)
      ]

  unfoldable pub run_output_once_stream :
      ℕ → Link bt cc write_one_segment → Link bt cc write_one_segment
  run_output_once_stream now l =
      if l.session.output_has_err then l else stream_loop (suc (len bt l.session.send_queue)) now l
