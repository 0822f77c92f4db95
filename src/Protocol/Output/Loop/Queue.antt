-- ===== src/Protocol/Output/Loop/Queue.antt =====
-- The second part of `runOutputOncePacket`: new segments from the send queue.
use mieru.Common.{
  ℕ, zero, suc, ◌+◌, ◌<◌, ◌≡◌, refl, sym, ap, ◌∙◌, ◌⊎◌, inl, inr, Bool, ◌&&◌, Option, List, [], ◌∷◌,
  ◌++◌, leb, ltb, arith, All, Bool-cases, List-cases,
}
use mathlib.Core.List.{append_assoc}
use mieru.Protocol.Segment.{Segment, BTree, seq_of}
use mieru.Protocol.Segment.Tree.{SegmentTree, contents, len, remaining, delete_min_if}
use mieru.Protocol.Segment.Tree.Laws.{
  len-contents, delete_min_if-nil, delete_min_if-hit, delete_min_if-miss,
}
use mieru.Protocol.Session.{Session, Congestion, send_window_size}
use mieru.Protocol.Session.Receive.Deliver.{Consecutive, Consecutive-below}
use mieru.Protocol.Output.{Delivery, Log, Link, set_session}
use mieru.Protocol.Output.Loop.{send_new, send_loop, send_queued, should_defer_next_packet_data}
use mieru.Protocol.Output.Loop.Resend.{carried}
use mieru.Protocol.Output.Loop.Due.{HasFailed, Covered, in_flight}
use mieru.Protocol.Output.Loop.Place.{
  carried-append, Consecutive-carried, Consecutive-append, SentNew, send_new_lem,
}

module _ (bt : BTree) (cc : Congestion) (write_one_segment : ℕ → Log → Segment → Delivery)
    (backoff : ℕ → ℕ → ℕ) where
  -- A session that sends in order: nothing is due before the next check, what is in flight and what is
  -- queued carry consecutive numbers up to the next one to use, and they carry `c`.
  pub record Flowing (lo : ℕ) (c : List (ℕ × List ℕ)) (s : Session bt cc) : Type 0 where
    pub covered : Covered bt cc write_one_segment s
    pub order : Consecutive lo (in_flight bt cc write_one_segment s) s.next_send
    pub same : carried (in_flight bt cc write_one_segment s) ≡ c

  Flowing-queue :
      (lo : ℕ) (c : List (ℕ × List ℕ)) (s : Session bt cc) (t : SegmentTree bt)
      → contents bt t ≡ contents bt s.send_queue
      → Flowing lo c s
      → Flowing lo c (record s { send_queue = t })
  Flowing-queue lo c s t e f = record {
    covered = f.covered;
    order = rw e f.order;
    same = rw e f.same;
  }

  pub flow_on :
      (lo : ℕ) (c : List (ℕ × List ℕ)) (x : Segment) (xs : List Segment) (s t s' : Session bt cc)
      → Flowing lo c s
      → contents bt s.send_queue ≡ x ∷ xs
      → contents bt t.send_queue ≡ xs
      → t.send_buf ≡ s.send_buf
      → t.next_send ≡ s.next_send
      → SentNew bt cc write_one_segment backoff x t s'
      → Flowing lo c s'
  flow_on lo c x xs s t s' f e rest buf next sent =
      let split : contents bt s'.send_buf ++ contents bt s'.send_queue
          ≡ contents bt s.send_buf ++ (sent.sent ∷ xs) =
        rw (sent.buf, sent.queue, rest, buf)
          (append_assoc (contents bt s.send_buf) (sent.sent ∷ []) xs) in
      let there : carried (contents bt s.send_buf ++ (sent.sent ∷ xs))
          ≡ carried (contents bt s.send_buf ++ (x ∷ xs)) =
        rw
          (
            carried-append (contents bt s.send_buf) (sent.sent ∷ xs),
            carried-append (contents bt s.send_buf) (x ∷ xs),
          )
          (ap (λ (r : List (ℕ × List ℕ)). carried (contents bt s.send_buf) ++ (r ++ carried xs))
            sent.same) in
      let all : carried (in_flight bt cc write_one_segment s')
          ≡ carried (in_flight bt cc write_one_segment s) =
        rw (split, e) there in
      record {
        covered = sent.covered;
        order =
            rw (sent.next, next)
              (Consecutive-carried lo s.next_send (in_flight bt cc write_one_segment s)
                (in_flight bt cc write_one_segment s') (sym all) f.order);
        same = all ∙ f.same;
      }

  pub below_queue :
      (lo : ℕ) (c : List (ℕ × List ℕ)) (x : Segment) (xs : List Segment) (s : Session bt cc)
      → Flowing lo c s
      → contents bt s.send_queue ≡ x ∷ xs
      → All (λ y. seq_of y < seq_of x) (contents bt s.send_buf)
  below_queue lo c x xs s f e =
      let (mid, left, right) =
        Consecutive-append lo s.next_send (contents bt s.send_buf) (x ∷ xs) (rw e at f.order) in
      rw right.0 (Consecutive-below lo mid (contents bt s.send_buf) left).1

  -- The loop fails, or it keeps all that is in flight or queued.
  send_loop_lem :
      (fuel now count lo : ℕ) (c : List (ℕ × List ℕ)) (l : Link bt cc write_one_segment)
      → Flowing lo c l.session
      → HasFailed bt cc write_one_segment
          (send_loop bt cc write_one_segment backoff fuel now count l)
        ⊎ Flowing lo c (send_loop bt cc write_one_segment backoff fuel now count l).session
  unfolding send_loop
  send_loop_lem zero now count lo c l f = inr f
  send_loop_lem (suc fuel) now count lo c l f =
      elim (Bool-cases (leb (remaining bt l.session.send_buf) 1)) [
        | inl full ↦ rw full (inr f)
        | inr room ↦
            elim (Bool-cases
              (should_defer_next_packet_data bt cc write_one_segment backoff l.session)) [
                | inl wait ↦ rw (room, wait) (inr f)
                | inr go ↦ elim (List-cases (contents bt l.session.send_queue)) [
                  | inl e ↦
                      let none_left =
                        delete_min_if-nil bt l.session.send_queue
                          (λ seg. ltb count (send_window_size bt cc l.session)) e in
                      rw
                        (
                          room,
                          go,
                          ap (λ (r : Option (Segment × Bool) × SegmentTree bt). r.0) none_left,
                        )
                        (inr (
                          Flowing-queue lo c l.session _
                            (ap (λ (r : Option (Segment × Bool) × SegmentTree bt). contents bt r.1)
                              none_left)
                            f))
                  | inr (x, xs, e) ↦
                      let test = λ (seg : Segment). ltb count (send_window_size bt cc l.session) in
                      elim (Bool-cases (ltb count (send_window_size bt cc l.session))) [
                        | inr closed ↦
                            let (found, same, _) =
                              delete_min_if-miss bt l.session.send_queue test x xs e closed in
                            rw (room, go, found)
                              (inr (Flowing-queue lo c l.session _ (ap bt.items same) f))
                        | inl open_window ↦
                            let (found, rest, _) =
                              delete_min_if-hit bt l.session.send_queue test x xs e open_window in
                            let l' =
                              set_session bt cc write_one_segment
                                (record l.session {
                                  send_queue = (delete_min_if bt l.session.send_queue test).1;
                                })
                                l in
                            elim (send_new_lem bt cc write_one_segment backoff now x l' f.covered
                              (below_queue lo c x xs l.session f e)
                              (ground (arith, len-contents bt l.session.send_buf))) [
                                | inl (ok, failed) ↦ rw (room, go, found, ok) (inl failed)
                                | inr (ok, sent) ↦
                                    rw (room, go, found, ok)
                                      (send_loop_lem fuel now (count + 1) lo c
                                        (send_new bt cc write_one_segment backoff now x l').1
                                        (flow_on lo c x xs l.session l'.session
                                          (send_new bt cc write_one_segment backoff now x
                                            l').1.session
                                          f e rest refl refl sent))
                              ]
                      ]
                ]
              ]
      ]

  pub send_queued_lem :
      (now count lo : ℕ) (c : List (ℕ × List ℕ)) (l : Link bt cc write_one_segment)
      → Flowing lo c l.session
      → HasFailed bt cc write_one_segment (send_queued bt cc write_one_segment backoff now count l)
        ⊎ Flowing lo c (send_queued bt cc write_one_segment backoff now count l).session
  unfolding send_queued
  send_queued_lem now count lo c l f =
      elim (Bool-cases
        (ltb 0 (len bt l.session.send_queue) && ltb 0 (send_window_size bt cc l.session))) [
          | inl run ↦ rw run (send_loop_lem (suc (len bt l.session.send_queue)) now count lo c l f)
          | inr skip ↦ rw skip (inr f)
        ]
