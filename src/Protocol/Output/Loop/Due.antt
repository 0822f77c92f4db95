-- ===== src/Protocol/Output/Loop/Due.antt =====
-- The first part of `runOutputOncePacket`: the segments that are due.
use mieru.Common.{
  ℕ, ◌≤◌, ◌≡◌, refl, ap, ◌∙◌, ◌⊎◌, inl, inr, Bool, true, false, ◌&&◌, Option, none, some, List, [],
  ◌∷◌, ◌++◌, leb, ltb, All, Bool-cases,
}
use mieru.Protocol.Segment.{Segment, BTree}
use mieru.Protocol.Segment.Tree.{SegmentTree, contents, len, ascend_with}
use mieru.Protocol.Segment.Tree.Laws.{ascend_with_visit}
use mieru.Protocol.Session.{Session, Congestion, forward_state_to, session_closed}
use mieru.Protocol.Output.{
  Delivery, Log, Link, output, close_with_error, set_session, shut, is_open, take_seq,
  close_request,
}
use mieru.Protocol.Output.Loop.{
  Pass, resend, resend_pass, first_pass, store_next, resend_due, congested,
}
use mieru.Protocol.Output.Loop.Resend.{
  deadline, AllAfter, carried, output-SameQueues, Stopped, Passed, visit_all,
}

module _ (bt : BTree) (cc : Congestion) (write_one_segment : ℕ → Log → Segment → Delivery) where
  abbrev pub HasFailed : Link bt cc write_one_segment → Type 0
  HasFailed l = l.session.output_has_err ≡ true

  shut_failed :
      (l : Link bt cc write_one_segment)
      → (shut bt cc write_one_segment l).session.output_has_err ≡ l.session.output_has_err
  unfolding shut forward_state_to
  shut_failed l = elim (Bool-cases (leb session_closed l.session.state)) [
    | inl over ↦ rw over refl
    | inr before ↦ rw before refl
  ]

  -- Closing does not take an error of the output back.
  pub close_with_error_failed :
      (now : ℕ) (l : Link bt cc write_one_segment)
      → HasFailed l
      → HasFailed (close_with_error bt cc write_one_segment now l)
  unfolding close_with_error
  close_with_error_failed now l h = elim (Bool-cases l.session.close_requested) [
    | inl again ↦ rw again h
    | inr first ↦
        let s = record l.session { close_requested = true } in
        let l1 = set_session bt cc write_one_segment (take_seq bt cc write_one_segment s) l in
        elim (Bool-cases (is_open bt cc write_one_segment s)) [
          | inl open_now ↦
              rw (first, open_now)
                (shut_failed
                    (output bt cc write_one_segment now (close_request bt cc write_one_segment s)
                      l1).1
                  ∙ (output-SameQueues bt cc write_one_segment now
                      (close_request bt cc write_one_segment s) l1).failed
                  ∙ h)
          | inr closed_now ↦
              rw (first, closed_now) (shut_failed (set_session bt cc write_one_segment s l) ∙ h)
        ]
  ]

  -- Every segment that waits for its acknowledgement is due at the next check or after it.
  abbrev pub Covered : Session bt cc → Type 0
  Covered s = All (λ seg. s.next_retransmission_time ≤ deadline seg) (contents bt s.send_buf)

  -- The segments in flight and the queued ones, one after the other.
  abbrev pub in_flight : Session bt cc → List Segment
  in_flight s = contents bt s.send_buf ++ contents bt s.send_queue

  module _ (backoff : ℕ → ℕ → ℕ) where
    -- The first part leaves the schedule in order, and the segments with what they carry.
    pub record ResentAll (s s' : Session bt cc) : Type 0 where
      pub covered : Covered s'
      pub same : carried (contents bt s'.send_buf) ≡ carried (contents bt s.send_buf)
      pub queue : s'.send_queue ≡ s.send_queue
      pub next : s'.next_send ≡ s.next_send
      pub failed : s'.output_has_err ≡ s.output_has_err
      pub cap : s'.send_buf.cap ≡ s.send_buf.cap

    none_after :
        (xs : List Segment)
        → AllAfter bt cc write_one_segment backoff none xs
        → (n : ℕ) → All (λ seg. n ≤ deadline seg) xs
    none_after [] h n = tt
    none_after (x ∷ xs) h n = absurd h.0

    store_next-Covered :
        (next : Option ℕ) (s : Session bt cc)
        → AllAfter bt cc write_one_segment backoff next (contents bt s.send_buf)
        → Covered (store_next bt cc write_one_segment backoff next s)
    store_next-Covered none s h = none_after (contents bt s.send_buf) h s.next_retransmission_time
    store_next-Covered (some t) s h = h

    pub store_next_same :
        (next : Option ℕ) (s : Session bt cc)
        → let s' = store_next bt cc write_one_segment backoff next s in
          (s'.send_buf ≡ s.send_buf)
          × (s'.send_queue ≡ s.send_queue)
          × (s'.next_send ≡ s.next_send)
          × (s'.output_has_err ≡ s.output_has_err)
    store_next_same none s = (refl, refl, refl, refl)
    store_next_same (some t) s = (refl, refl, refl, refl)

    abbrev written :
        Pass bt cc write_one_segment backoff → SegmentTree bt → Pass bt cc write_one_segment backoff
    written p buf = record p {
      link =
          set_session bt cc write_one_segment
            (store_next bt cc write_one_segment backoff p.next_tx
              (record p.link.session { send_buf = buf }))
            p.link;
    }

    written_lem :
        (l : Link bt cc write_one_segment) (p : Pass bt cc write_one_segment backoff)
        (buf : SegmentTree bt)
        → Stopped bt cc write_one_segment backoff p
          ⊎ Passed bt cc write_one_segment backoff
              (first_pass bt cc write_one_segment backoff l)
              p
              (contents bt l.session.send_buf)
              (contents bt buf)
        → buf.cap ≡ l.session.send_buf.cap
        → Stopped bt cc write_one_segment backoff (written p buf)
          ⊎ (((written p buf).close_reason ≡ false)
              × ResentAll l.session (written p buf).link.session)
    written_lem l p buf (inl (reason, failed)) cap =
        inl (
          reason,
          (store_next_same p.next_tx (record p.link.session { send_buf = buf })).3 ∙ failed,
        )
    written_lem l p buf (inr passed) cap =
        let s = record p.link.session { send_buf = buf } in
        let (same_buf, same_queue, same_next, same_failed) = store_next_same p.next_tx s in
        inr (
          passed.reason,
          record {
            covered = store_next-Covered p.next_tx s passed.after;
            same = ap (λ (t : SegmentTree bt). carried (contents bt t)) same_buf ∙ passed.same;
            queue = same_queue ∙ passed.queues.queue;
            next = same_next ∙ passed.queues.next;
            failed = same_failed ∙ passed.queues.failed;
            cap = ap (λ (t : SegmentTree bt). t.cap) same_buf ∙ cap;
          },
        )

    resend_pass_lem :
        (now : ℕ) (l : Link bt cc write_one_segment)
        → Stopped bt cc write_one_segment backoff
            (resend_pass bt cc write_one_segment backoff now l)
          ⊎ (((resend_pass bt cc write_one_segment backoff now l).close_reason ≡ false)
              × ResentAll l.session
                  (resend_pass bt cc write_one_segment backoff now l).link.session)
    unfolding resend_pass
    resend_pass_lem now l =
        let p = first_pass bt cc write_one_segment backoff l in
        let f = resend bt cc write_one_segment backoff now in
        let (state, items, cap) =
          ascend_with_visit bt (Pass bt cc write_one_segment backoff) f p l.session.send_buf in
        written_lem l
          (ascend_with bt (Pass bt cc write_one_segment backoff) f p l.session.send_buf).0
          (ascend_with bt (Pass bt cc write_one_segment backoff) f p l.session.send_buf).1
          (rw (state, items)
            (visit_all bt cc write_one_segment backoff now (contents bt l.session.send_buf) p))
          cap

    congested_same :
        (timeout loss : Bool) (now : ℕ) (s : Session bt cc)
        → Covered s
        → let s' = congested bt cc write_one_segment backoff timeout loss now s in
          Covered s'
          × (s'.send_buf ≡ s.send_buf)
          × (s'.send_queue ≡ s.send_queue)
          × (s'.next_send ≡ s.next_send)
          × (s'.output_has_err ≡ s.output_has_err)
    congested_same true loss now s h = (h, refl, refl, refl, refl)
    congested_same false true now s h = (h, refl, refl, refl, refl)
    congested_same false false now s h = (h, refl, refl, refl, refl)

    pub congested_failed :
        (timeout loss : Bool) (now : ℕ) (s : Session bt cc)
        → (congested bt cc write_one_segment backoff timeout loss now s).output_has_err
          ≡ s.output_has_err
    congested_failed true loss now s = refl
    congested_failed false true now s = refl
    congested_failed false false now s = refl

    -- The first part fails, or it keeps what is in flight and leaves the schedule in order.
    pub resend_due_lem :
        (now : ℕ) (l : Link bt cc write_one_segment)
        → Covered l.session
        → let l' = (resend_due bt cc write_one_segment backoff now l).1 in
          HasFailed l' ⊎ ResentAll l.session l'.session
    unfolding resend_due
    resend_due_lem now l c =
        let p = resend_pass bt cc write_one_segment backoff now l in
        elim (Bool-cases
          (ltb 0 (len bt l.session.send_buf) && leb l.session.next_retransmission_time now)) [
            | inr idle ↦ rw idle (
                inr (record {
                  covered = c;
                  same = refl;
                  queue = refl;
                  next = refl;
                  failed = refl;
                  cap = refl;
                }))
            | inl due ↦ elim (resend_pass_lem now l) [
              | inl (reason, failed) ↦
                  let closed = close_with_error bt cc write_one_segment now p.link in
                  rw (due, reason)
                    (inl (
                      congested_failed p.has_timeout p.has_loss now closed.session
                      ∙ close_with_error_failed now p.link failed))
              | inr (reason, all) ↦
                  let (covered, buf, queue, next, failed) =
                    congested_same p.has_timeout p.has_loss now p.link.session all.covered in
                  rw (due, reason)
                    (inr (record {
                      covered = covered;
                      same = ap (λ (t : SegmentTree bt). carried (contents bt t)) buf ∙ all.same;
                      queue = queue ∙ all.queue;
                      next = next ∙ all.next;
                      failed = failed ∙ all.failed;
                      cap = ap (λ (t : SegmentTree bt). t.cap) buf ∙ all.cap;
                    }))
            ]
          ]
