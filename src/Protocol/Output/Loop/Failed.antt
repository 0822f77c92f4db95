-- ===== src/Protocol/Output/Loop/Failed.antt =====
-- An error of the output is not taken back by the second part of `runOutputOncePacket`.
use mieru.Common.{ℕ, zero, suc, ◌+◌, ◌∙◌, inl, inr, ◌&&◌, leb, ltb, Bool-cases, Option-cases}
use mieru.Protocol.Segment.{Segment, BTree}
use mieru.Protocol.Segment.Tree.{len, remaining, delete_min_if}
use mieru.Protocol.Session.{Congestion, send_window_size}
use mieru.Protocol.Output.{Delivery, Log, Link, set_session}
use mieru.Protocol.Output.Loop.{
  stamp_segment, place, send_new, send_loop, send_queued, should_defer_next_packet_data,
}
use mieru.Protocol.Output.Loop.Resend.{output-SameQueues}
use mieru.Protocol.Output.Loop.Due.{HasFailed}
use mieru.Protocol.Output.Loop.Place.{schedule_same, placed_failed}

module _ (bt : BTree) (cc : Congestion) (write_one_segment : ℕ → Log → Segment → Delivery)
    (backoff : ℕ → ℕ → ℕ) where
  -- An error of the output stays.
  place_failed :
      (seg : Segment) (l : Link bt cc write_one_segment)
      → HasFailed bt cc write_one_segment l
      → HasFailed bt cc write_one_segment (place bt cc write_one_segment backoff seg l).1
  unfolding place
  place_failed seg l h = (schedule_same bt cc write_one_segment backoff seg l.session).3 ∙ h

  send_new_failed :
      (now : ℕ) (seg : Segment) (l : Link bt cc write_one_segment)
      → HasFailed bt cc write_one_segment l
      → HasFailed bt cc write_one_segment (send_new bt cc write_one_segment backoff now seg l).1
  unfolding send_new
  send_new_failed now seg l h =
      let seg' = stamp_segment bt cc write_one_segment backoff now l.session seg in
      let (inserted, there) = place bt cc write_one_segment backoff seg' l in
      elim (placed_failed bt cc write_one_segment backoff now seg' inserted there) [
        | inl failed ↦ failed.1
        | inr (_, _, same) ↦ rw same (
            (output-SameQueues bt cc write_one_segment now seg' there).failed
            ∙ place_failed seg' l h)
      ]

  send_loop_failed :
      (fuel now count : ℕ) (l : Link bt cc write_one_segment)
      → HasFailed bt cc write_one_segment l
      → HasFailed bt cc write_one_segment
          (send_loop bt cc write_one_segment backoff fuel now count l)
  unfolding send_loop
  send_loop_failed zero now count l h = h
  send_loop_failed (suc fuel) now count l h =
      elim (Bool-cases (leb (remaining bt l.session.send_buf) 1)) [
        | inl full ↦ rw full h
        | inr room ↦
            elim (Bool-cases
              (should_defer_next_packet_data bt cc write_one_segment backoff l.session)) [
                | inl wait ↦ rw (room, wait) h
                | inr go ↦
                    let test = λ (seg : Segment). ltb count (send_window_size bt cc l.session) in
                    let l' =
                      set_session bt cc write_one_segment
                        (record l.session {
                          send_queue = (delete_min_if bt l.session.send_queue test).1;
                        })
                        l in
                    elim (Option-cases (delete_min_if bt l.session.send_queue test).0) [
                      | inl none_left ↦ rw (room, go, none_left) h
                      | inr ((x, deleted), found) ↦ elim (Bool-cases deleted) [
                        | inr kept ↦ rw (room, go, found, kept) h
                        | inl taken ↦
                            let after = send_new_failed now x l' h in
                            elim (Bool-cases
                              (send_new bt cc write_one_segment backoff now x l').0) [
                                | inl ok ↦
                                    rw (room, go, found, taken, ok)
                                      (send_loop_failed fuel now (count + 1)
                                        (send_new bt cc write_one_segment backoff now x l').1 after)
                                | inr failed ↦ rw (room, go, found, taken, failed) after
                              ]
                      ]
                    ]
              ]
      ]

  pub send_queued_failed :
      (now count : ℕ) (l : Link bt cc write_one_segment)
      → HasFailed bt cc write_one_segment l
      → HasFailed bt cc write_one_segment (send_queued bt cc write_one_segment backoff now count l)
  unfolding send_queued
  send_queued_failed now count l h =
      elim (Bool-cases
        (ltb 0 (len bt l.session.send_queue) && ltb 0 (send_window_size bt cc l.session))) [
          | inl run ↦ rw run (send_loop_failed (suc (len bt l.session.send_queue)) now count l h)
          | inr skip ↦ rw skip h
        ]
