-- ===== src/Protocol/Output/Loop/Packet.antt =====
-- `runOutputOncePacket` as a whole, and when the loop wakes up again.
use mieru.Common.{
  ℕ, ◌+◌, ◌≤◌, ◌≡◌, refl, sym, ap, ◌∙◌, ◌⊎◌, inl, inr, Bool, true, false, not, ◌&&◌, ◌||◌, Option,
  none, some, List, [], ◌∷◌, ◌++◌, leb, ltb, if◌then◌else◌, arith, All, Bool-cases, List-cases,
  length,
}
use mieru.Mathext.Numbers.{max_num}
use mieru.Protocol.Segment.{Segment, BTree}
use mieru.Protocol.Segment.Tree.{SegmentTree, contents, len}
use mieru.Protocol.Segment.Tree.Laws.{len-contents}
use mieru.Protocol.Session.{Session, Congestion, is_client_packet_session_opening}
use mieru.Protocol.Output.{Delivery, Log, Link, output, fail_output, set_session}
use mieru.Protocol.Output.Loop.{
  resend_due, send_queued, send_ack, ack_segment, run_output_once_packet, jittered_interval,
  next_packet_output_delay, earliest_if, delay_until, min_output_interval,
}
use mieru.Protocol.Output.Loop.Resend.{NotAfter, deadline, carried, output-SameQueues, SameQueues}
use mieru.Protocol.Output.Loop.Due.{
  HasFailed, Covered, in_flight, close_with_error_failed, resend_due_lem, ResentAll,
}
use mieru.Protocol.Output.Loop.Place.{carried-append, Consecutive-carried}
use mieru.Protocol.Output.Loop.Queue.{Flowing, send_queued_lem}
use mieru.Protocol.Output.Loop.Failed.{send_queued_failed}

module _ (bt : BTree) (cc : Congestion) (write_one_segment : ℕ → Log → Segment → Delivery)
    (backoff : ℕ → ℕ → ℕ) where
  ResentAll-Flowing :
      (lo : ℕ) (c : List (ℕ × List ℕ)) (s s' : Session bt cc)
      → Flowing bt cc write_one_segment backoff lo c s
      → ResentAll bt cc write_one_segment backoff s s'
      → Flowing bt cc write_one_segment backoff lo c s'
  ResentAll-Flowing lo c s s' f r =
      let q = contents bt s.send_queue in
      let queue : contents bt s'.send_queue ≡ q =
        ap (λ (t : SegmentTree bt). contents bt t) r.queue in
      let all : carried (contents bt s'.send_buf ++ contents bt s'.send_queue)
          ≡ carried (contents bt s.send_buf ++ q) =
        rw
          (
            queue,
            carried-append (contents bt s'.send_buf) q,
            carried-append (contents bt s.send_buf) q,
            r.same,
          )
          refl in
      record {
        covered = r.covered;
        order = rw r.next (
            Consecutive-carried lo s.next_send (in_flight bt cc write_one_segment s)
              (in_flight bt cc write_one_segment s') (sym all) f.order);
        same = all ∙ f.same;
      }

  SameQueues-Flowing :
      (lo : ℕ) (c : List (ℕ × List ℕ)) (s s' : Session bt cc)
      → Flowing bt cc write_one_segment backoff lo c s
      → SameQueues bt cc write_one_segment s s'
      → Flowing bt cc write_one_segment backoff lo c s'
  SameQueues-Flowing lo c s s' f k = record {
    covered = rw (k.buf, k.retransmission) f.covered;
    order = rw (k.buf, k.queue, k.next) f.order;
    same = rw (k.buf, k.queue) f.same;
  }

  -- What the last part comes to, by whether the acknowledgement was sent.
  send_ack_lem :
      (now jitter lo : ℕ) (c : List (ℕ × List ℕ)) (l : Link bt cc write_one_segment)
      → let l' = send_ack bt cc write_one_segment backoff now jitter l in
        (HasFailed bt cc write_one_segment l → HasFailed bt cc write_one_segment l')
        × (Flowing bt cc write_one_segment backoff lo c l.session
            → HasFailed bt cc write_one_segment l'
              ⊎ Flowing bt cc write_one_segment backoff lo c l'.session)
  unfolding send_ack
  send_ack_lem now jitter lo c l =
      let s = record l.session { ack_on_data_recv = false } in
      let seg = ack_segment bt cc write_one_segment backoff s in
      let l1 = set_session bt cc write_one_segment s l in
      let kept = output-SameQueues bt cc write_one_segment now seg l1 in
      let sent = (output bt cc write_one_segment now seg l1).1 in
      let due = l.session.ack_on_data_recv && leb l.session.ack_deadline now in
      let heartbeat =
        ltb (l.session.last_tx_time + jittered_interval bt cc write_one_segment backoff l.session)
          now in
      elim (Bool-cases
        (not (is_client_packet_session_opening bt cc l.session) && (due || heartbeat))) [
          | inr quiet ↦ rw quiet ((λ h. h), (λ f. inr f))
          | inl ack ↦ elim (Bool-cases (output bt cc write_one_segment now seg l1).0) [
            | inl ok ↦
                let same : SameQueues bt cc write_one_segment l.session
                    (record sent.session { heartbeat_jitter = jitter }) =
                  record {
                    queue = kept.queue;
                    buf = kept.buf;
                    next = kept.next;
                    retransmission = kept.retransmission;
                    failed = kept.failed;
                  } in
                rw (ack, ok)
                  (
                    (λ h. kept.failed ∙ h),
                    (λ f. inr (
                        SameQueues-Flowing lo c l.session
                          (record sent.session { heartbeat_jitter = jitter }) f same)),
                  )
            | inr failed ↦
                let closed =
                  close_with_error_failed bt cc write_one_segment now
                    (fail_output bt cc write_one_segment sent) refl in
                rw (ack, failed) ((λ h. closed), (λ f. inl closed))
          ]
        ]

  if_either :
      (P : Link bt cc write_one_segment → Type 0) (b : Bool) (l l' : Link bt cc write_one_segment)
      → (b ≡ true → P l)
      → P l'
      → P (if b then l else l')
  if_either P true l l' h h' = h refl
  if_either P false l l' h h' = h'

  -- One run of the packet output loop on a session in order ends with an error of the output, or it
  -- leaves the session in order: no segment that waits for its acknowledgement is due before the next
  -- check, and the segments in flight and queued carry the same numbers and payloads as before, none
  -- lost, repeated or changed.
  pub run_output_once_packet_lem :
      (now jitter lo : ℕ) (c : List (ℕ × List ℕ)) (l : Link bt cc write_one_segment)
      → Flowing bt cc write_one_segment backoff lo c l.session
      → let l' = run_output_once_packet bt cc write_one_segment backoff now jitter l in
        HasFailed bt cc write_one_segment l'
        ⊎ Flowing bt cc write_one_segment backoff lo c l'.session
  unfolding run_output_once_packet
  run_output_once_packet_lem now jitter lo c l f =
      let (count, resent) = resend_due bt cc write_one_segment backoff now l in
      let queued = send_queued bt cc write_one_segment backoff now count resent in
      let ack = send_ack_lem now jitter lo c queued in
      if_either
        (λ l'.
          HasFailed bt cc write_one_segment l'
          ⊎ Flowing bt cc write_one_segment backoff lo c l'.session)
        l.session.output_has_err l (send_ack bt cc write_one_segment backoff now jitter queued)
        (λ failed. inl failed)
        (elim (resend_due_lem bt cc write_one_segment backoff now l f.covered) [
          | inl failed ↦
              inl
                (ack.0 (send_queued_failed bt cc write_one_segment backoff now count resent failed))
          | inr all ↦
              elim (send_queued_lem bt cc write_one_segment backoff now count lo c resent
                (ResentAll-Flowing lo c l.session resent.session f all)) [
                  | inl failed ↦ inl (ack.0 failed)
                  | inr flowing ↦ ack.1 flowing
                ]
        ])

  earliest_if-NotAfter :
      (test : Bool) (t u : ℕ) (next : Option ℕ)
      → NotAfter next t
      → NotAfter (earliest_if bt cc write_one_segment backoff test u next) t
  earliest_if-NotAfter true t u none h = absurd h
  earliest_if-NotAfter true t u (some s) h = ground arith
  earliest_if-NotAfter false t u next h = h

  delay_until_bound :
      (now t : ℕ) (next : Option ℕ)
      → NotAfter next t
      → now + delay_until bt cc write_one_segment backoff now next
        ≤ max_num (now + min_output_interval) t
  delay_until_bound now t none h = absurd h
  delay_until_bound now t (some s) h = ground arith

  wakes_for :
      (now n : ℕ) (xs : List Segment)
      → (t : ℕ) → ((u : ℕ) → t ≤ u → n ≤ max_num (now + min_output_interval) u)
      → All (λ seg. t ≤ deadline seg) xs
      → All (λ seg. n ≤ max_num (now + min_output_interval) (deadline seg)) xs
  wakes_for now n [] t h a = tt
  wakes_for now n (x ∷ xs) t h a = (h (deadline x) a.0, wakes_for now n xs t h a.1)

  -- The loop sleeps no longer than until the earliest deadline of a segment that waits for its
  -- acknowledgement, or a millisecond if that is over, when the time of the next check is
  -- not after those deadlines.
  pub wakes_in_time :
      (now : ℕ) (s : Session bt cc)
      → Covered bt cc write_one_segment s
      → All
          (λ seg.
            now + next_packet_output_delay bt cc write_one_segment backoff now s
            ≤ max_num (now + min_output_interval) (deadline seg))
          (contents bt s.send_buf)
  unfolding next_packet_output_delay
  wakes_in_time now s c = elim (List-cases (contents bt s.send_buf)) [
    | inl e ↦ rw e tt
    | inr (x, xs, e) ↦
        let there : ltb 0 (len bt s.send_buf) ≡ true =
          ground (arith, len-contents bt s.send_buf, ap (λ (l : List Segment). length l) e) in
        let opening = is_client_packet_session_opening bt cc s in
        let first =
          earliest_if bt cc write_one_segment backoff (ltb 0 (len bt s.send_buf))
            s.next_retransmission_time none in
        let second =
          earliest_if bt cc write_one_segment backoff (not opening && s.ack_on_data_recv)
            s.ack_deadline first in
        let beat = s.last_tx_time + jittered_interval bt cc write_one_segment backoff s in
        wakes_for now (now + next_packet_output_delay bt cc write_one_segment backoff now s)
          (contents bt s.send_buf) s.next_retransmission_time
          (λ u h.
            delay_until_bound now u
              (earliest_if bt cc write_one_segment backoff (not opening) beat second)
              (earliest_if-NotAfter (not opening) u beat second (
                earliest_if-NotAfter (not opening && s.ack_on_data_recv) u s.ack_deadline first
                  (rw there h))))
          c
  ]
