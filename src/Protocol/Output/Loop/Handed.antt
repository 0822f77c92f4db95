-- ===== src/Protocol/Output/Loop/Handed.antt =====
-- The first part of `runOutputOncePacket` hands what is due to the underlay.
use mieru.Common.{
  All-mono, ℕ, ◌+◌, ◌≤◌, ◌<◌, ◌≡◌, refl, sym, ap, ◌∙◌, ◌⊎◌, inl, inr, true, false, ◌&&◌, ◌||◌, List,
  [], ◌∷◌, ◌++◌, leb, ltb, All, arith, Bool-cases, List-cases, length,
}
use mathlib.Core.List.{append-nil, append_assoc}
use mieru.Protocol.Segment.{
  Segment, BTree, Transport, packet_transport, stream_transport, unknown_transport, seq_of,
}
use mieru.Protocol.Segment.Tree.{contents, len, ascend_with}
use mieru.Protocol.Segment.Tree.Laws.{ascend_with_visit, len-contents}
use mieru.Protocol.Session.{Session, Congestion}
use mieru.Protocol.Output.{
  Delivery, delivered, not_ready, broken, Log, Link, output, output_on, note, close_with_error,
}
use mieru.Protocol.Output.Loop.{
  Pass, stamp_segment, is_early, resend, tx_count_limit, first_pass, resend_pass, resend_due,
}
use mieru.Protocol.Output.Loop.Resend.{deadline, Stopped, visit_resend, seq_stamp_segment}
use mieru.Protocol.Output.Loop.Due.{
  HasFailed, Covered, close_with_error_failed, store_next_same, congested_failed,
}

-- The underlay was given a segment with this sequence number and payload.
abbrev pub HandedIn : Log → Segment → Type 0
HandedIn [] seg = ⊥
HandedIn ((x, d) ∷ log) seg =
    ((seq_of x ≡ seq_of seg) × (x.payload ≡ seg.payload)) ⊎ HandedIn log seg

abbrev pub IsServed : ℕ → Log → Segment → Type 0
IsServed now log seg = (now < deadline seg) ⊎ HandedIn log seg

HandedIn-left : (xs ys : Log) (seg : Segment) → HandedIn xs seg → HandedIn (xs ++ ys) seg
HandedIn-left [] ys seg h = absurd h
HandedIn-left (x ∷ xs) ys seg (inl e) = inl e
HandedIn-left (x ∷ xs) ys seg (inr h) = inr (HandedIn-left xs ys seg h)

HandedIn-right : (xs ys : Log) (seg : Segment) → HandedIn ys seg → HandedIn (xs ++ ys) seg
HandedIn-right [] ys seg h = h
HandedIn-right (x ∷ xs) ys seg h = inr (HandedIn-right xs ys seg h)

IsServed-left :
    (now : ℕ) (xs ys : Log) (seg : Segment) → IsServed now xs seg → IsServed now (xs ++ ys) seg
IsServed-left now xs ys seg (inl later) = inl later
IsServed-left now xs ys seg (inr h) = inr (HandedIn-left xs ys seg h)

IsServed-right :
    (now : ℕ) (xs ys : Log) (seg : Segment) → IsServed now ys seg → IsServed now (xs ++ ys) seg
IsServed-right now xs ys seg (inl later) = inl later
IsServed-right now xs ys seg (inr h) = inr (HandedIn-right xs ys seg h)

module _ (bt : BTree) (cc : Congestion) (write_one_segment : ℕ → Log → Segment → Delivery) where
  log-note :
      (now : ℕ) (seg : Segment) (d : Delivery) (l : Link bt cc write_one_segment)
      → (note bt cc write_one_segment now seg d l).log ≡ l.log ++ ((seg, d) ∷ [])
  log-note now seg delivered l = refl
  log-note now seg not_ready l = refl
  log-note now seg broken l = refl

  log-output_on :
      (tr : Transport) (now : ℕ) (seg : Segment) (l : Link bt cc write_one_segment)
      → (output_on bt cc write_one_segment tr now seg l).0 ≡ true
      → (output_on bt cc write_one_segment tr now seg l).1.log
        ≡ l.log ++ ((seg, write_one_segment now l.log seg) ∷ [])
  unfolding output_on
  log-output_on unknown_transport now seg l h = absurd (ground arith)
  log-output_on stream_transport now seg l h = log-note now seg (write_one_segment now l.log seg) l
  log-output_on packet_transport now seg l h = log-note now seg (write_one_segment now l.log seg) l

  log-output :
      (now : ℕ) (seg : Segment) (l : Link bt cc write_one_segment)
      → (output bt cc write_one_segment now seg l).0 ≡ true
      → (output bt cc write_one_segment now seg l).1.log
        ≡ l.log ++ ((seg, write_one_segment now l.log seg) ∷ [])
  unfolding output
  log-output now seg l h = log-output_on l.session.transport now seg l h

  module _ (backoff : ℕ → ℕ → ℕ) where
    -- What was handed over between two states, with every one of the segments served.
    record Served (now : ℕ) (p p' : Pass bt cc write_one_segment backoff) (xs : List Segment)
        : Type 0 where
      reason : p'.close_reason ≡ p.close_reason
      handed : Log
      log : p'.link.log ≡ p.link.log ++ handed
      all : All (IsServed now handed) xs

    resend-Served :
        (now : ℕ) (p : Pass bt cc write_one_segment backoff) (x : Segment)
        → let r = resend bt cc write_one_segment backoff now p x in
          ((r.2 ≡ false) × Stopped bt cc write_one_segment backoff r.0)
          ⊎ ((r.2 ≡ true) × Served now p r.0 (x ∷ []))
    unfolding resend
    resend-Served now p x = elim (Bool-cases (leb tx_count_limit x.tx_count)) [
      | inl limit ↦ rw limit (inl (refl, (refl, refl)))
      | inr below ↦
          elim (Bool-cases
            (is_early bt cc write_one_segment backoff x || leb (x.tx_time + x.tx_timeout) now)) [
              | inr early ↦
                  rw (below, early)
                    (inr (
                      refl,
                      record {
                        reason = refl;
                        handed = [];
                        log = sym (append-nil p.link.log);
                        all = (inl (ground (arith, early)), tt);
                      },
                    ))
              | inl due ↦
                  let x' =
                    record (stamp_segment bt cc write_one_segment backoff now p.link.session x) {
                      ack_count = 0;
                    } in
                  elim (Bool-cases (output bt cc write_one_segment now x' p.link).0) [
                    | inr failed ↦ rw (below, due, failed) (inl (refl, (refl, refl)))
                    | inl sent ↦
                        rw (below, due, sent)
                          (inr (
                            refl,
                            record {
                              reason = refl;
                              handed = (x', write_one_segment now p.link.log x') ∷ [];
                              log = log-output now x' p.link sent;
                              all = (
                                inr (
                                    inl (
                                      seq_stamp_segment bt cc write_one_segment backoff now
                                          p.link.session x,
                                      refl,
                                    )),
                                tt,
                              );
                            },
                          ))
                  ]
            ]
    ]

    Served-cons :
        (now : ℕ) (p q r : Pass bt cc write_one_segment backoff) (x : Segment) (xs : List Segment)
        → Served now p q (x ∷ [])
        → Served now q r xs
        → Served now p r (x ∷ xs)
    Served-cons now p q r x xs h k = record {
      reason = k.reason ∙ h.reason;
      handed = h.handed ++ k.handed;
      log = k.log ∙ ap (λ l. l ++ k.handed) h.log ∙ append_assoc p.link.log h.handed k.handed;
      all = (
        IsServed-left now h.handed k.handed x h.all.0,
        All-mono (IsServed now k.handed) (IsServed now (h.handed ++ k.handed)) xs
            (λ y. IsServed-right now h.handed k.handed y) k.all,
      );
    }

    visit-Served :
        (now : ℕ) (xs : List Segment) (p : Pass bt cc write_one_segment backoff)
        → let p' = (visit_resend bt cc write_one_segment backoff now p xs).0 in
          Stopped bt cc write_one_segment backoff p' ⊎ Served now p p' xs
    visit-Served now [] p =
        inr (record { reason = refl; handed = []; log = sym (append-nil p.link.log); all = tt })
    visit-Served now (x ∷ xs) p =
        let q = (resend bt cc write_one_segment backoff now p x).0 in
        elim (resend-Served now p x) [
          | inl (stop, failed) ↦ rw stop (inl failed)
          | inr (more, here) ↦ rw more (elim (visit-Served now xs q) [
            | inl failed ↦ inl failed
            | inr rest ↦ inr (
                Served-cons now p q (visit_resend bt cc write_one_segment backoff now q xs).0 x xs
                  here rest)
          ])
        ]

    not_due :
        (now : ℕ) (s : Session bt cc)
        → Covered bt cc write_one_segment s
        → (ltb 0 (len bt s.send_buf) && leb s.next_retransmission_time now) ≡ false
        → All (IsServed now []) (contents bt s.send_buf)
    not_due now s c idle = elim (List-cases (contents bt s.send_buf)) [
      | inl e ↦ rw e tt
      | inr (x, xs, e) ↦
          let some_there : ltb 0 (len bt s.send_buf) ≡ true =
            ground (arith, len-contents bt s.send_buf, ap (λ (l : List Segment). length l) e) in
          let later : now < s.next_retransmission_time = ground (arith, some_there, idle) in
          All-mono (λ seg. s.next_retransmission_time ≤ deadline seg) (IsServed now [])
            (contents bt s.send_buf) (λ y h. inl (omega arith)) c
    ]

    -- When the time of the next check is not after any deadline, the first part of
    -- `runOutputOncePacket` ends with an error of the output, or it has handed to the underlay, with
    -- its sequence number and payload, every segment in flight whose deadline has come.
    pub due_handed_over :
        (now : ℕ) (l : Link bt cc write_one_segment)
        → Covered bt cc write_one_segment l.session
        → let l' = (resend_due bt cc write_one_segment backoff now l).1 in
          HasFailed bt cc write_one_segment l'
          ⊎ ((handed : Log) × (l'.log ≡ l.log ++ handed)
              × All (IsServed now handed) (contents bt l.session.send_buf))
    unfolding resend_due resend_pass
    due_handed_over now l c =
        let p = resend_pass bt cc write_one_segment backoff now l in
        let f = resend bt cc write_one_segment backoff now in
        let first = first_pass bt cc write_one_segment backoff l in
        let q = ascend_with bt (Pass bt cc write_one_segment backoff) f first l.session.send_buf in
        let state =
          (ascend_with_visit bt (Pass bt cc write_one_segment backoff) f first
            l.session.send_buf).0 in
        let run : Stopped bt cc write_one_segment backoff q.0
            ⊎ Served now first q.0 (contents bt l.session.send_buf) =
          rw state (visit-Served now (contents bt l.session.send_buf) first) in
        elim (Bool-cases
          (ltb 0 (len bt l.session.send_buf) && leb l.session.next_retransmission_time now)) [
            | inr idle ↦ rw idle (inr ([], sym (append-nil l.log), not_due now l.session c idle))
            | inl due ↦ elim run [
              | inl (reason, failed) ↦
                  let closed = close_with_error bt cc write_one_segment now p.link in
                  rw (due, reason)
                    (inl (
                      congested_failed bt cc write_one_segment backoff q.0.has_timeout q.0.has_loss
                        now closed.session
                      ∙ close_with_error_failed bt cc write_one_segment now p.link (
                          (store_next_same bt cc write_one_segment backoff q.0.next_tx
                            (record q.0.link.session { send_buf = q.1 })).3
                          ∙ failed)))
              | inr served ↦ rw (due, served.reason) (inr (served.handed, served.log, served.all))
            ]
          ]
