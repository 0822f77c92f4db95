-- ===== src/Protocol/Output/Stream/Order.antt =====
-- What the underlay of a stream session is given, and in which order.
use mieru.Common.{
  ℕ, zero, suc, ◌≡◌, refl, sym, ap, ◌∙◌, ◌⊎◌, inl, inr, Bool, Option, true, false, not, List, [],
  ◌∷◌, ◌++◌, arith, Bool-cases, if◌then◌else◌, length, ◌<◌,
}
use mathlib.Core.List.{append-nil, append_assoc}
use mieru.Protocol.Segment.{
  Segment, BTree, Transport, stream_transport, packet_transport, unknown_transport, protocol_of,
}
use mieru.Protocol.Segment.Tree.{SegmentTree, contents, len, delete_min}
use mieru.Protocol.Segment.Tree.Laws.{len-contents, delete_min-cons, delete_min-nil}
use mieru.Protocol.Session.{Congestion}
use mieru.Protocol.Output.{
  Delivery, delivered, not_ready, broken, Log, Link, output, output_on, note, is_error,
  close_with_error, fail_output, set_session, shut, is_open, take_seq, close_request,
}
use mieru.Protocol.Output.Loop.Due.{HasFailed, close_with_error_failed}
use mieru.Protocol.Output.Stream.{stream_loop, run_output_once_stream}

-- Segments that the underlay took.
abbrev pub all_delivered : List Segment → Log
all_delivered [] = []
all_delivered (x ∷ xs) = (x, delivered) ∷ all_delivered xs

abbrev pub IsCloseRequest : Segment → Type 0
IsCloseRequest seg = (protocol_of seg ≡ 4) × (seg.payload ≡ [])

-- Nothing, or one close request.
abbrev pub AtMostClose : Log → Type 0
AtMostClose [] = Unit {0}
AtMostClose ((seg, d) ∷ []) = IsCloseRequest seg
AtMostClose (a ∷ b ∷ rest) = ⊥

pub data IsFailure : Delivery → Type 0 where
  was_not_ready : IsFailure not_ready
  was_broken : IsFailure broken

module _ (bt : BTree) (cc : Congestion) (write_one_segment : ℕ → Log → Segment → Delivery) where
  abbrev StreamLink : Type 0
  StreamLink = Link bt cc write_one_segment

  record Kept (l l' : StreamLink) : Type 0 where
    queue : l'.session.send_queue ≡ l.session.send_queue
    transport : l'.session.transport ≡ l.session.transport
    failed : l'.session.output_has_err ≡ l.session.output_has_err

  noted :
      (now : ℕ) (seg : Segment) (d : Delivery) (l : StreamLink)
      → ((not (is_error bt cc write_one_segment stream_transport d) ≡ true)
          × ((note bt cc write_one_segment now seg d l).log ≡ l.log ++ ((seg, delivered) ∷ []))
          × Kept l (note bt cc write_one_segment now seg d l))
        ⊎ ((not (is_error bt cc write_one_segment stream_transport d) ≡ false)
            × ((note bt cc write_one_segment now seg d l).log ≡ l.log ++ ((seg, d) ∷ []))
            × IsFailure d)
  noted now seg delivered l =
      inl (refl, refl, record { queue = refl; transport = refl; failed = refl })
  noted now seg not_ready l = inr (refl, refl, was_not_ready)
  noted now seg broken l = inr (refl, refl, was_broken)

  output_stream_lem :
      (now : ℕ) (seg : Segment) (l : StreamLink)
      → l.session.transport ≡ stream_transport
      → let (sent, l') = output bt cc write_one_segment now seg l in
        ((sent ≡ true) × (l'.log ≡ l.log ++ ((seg, delivered) ∷ [])) × Kept l l')
        ⊎ ((sent ≡ false) × (d : Delivery) × (l'.log ≡ l.log ++ ((seg, d) ∷ [])) × IsFailure d)
  unfolding output
  output_stream_lem now seg l e =
      let d = write_one_segment now l.log seg in
      let there : output_on bt cc write_one_segment l.session.transport now seg l ≡ (
        not (is_error bt cc write_one_segment stream_transport d),
        note bt cc write_one_segment now seg d l,
      ) =
        ap (λ (tr : Transport). output_on bt cc write_one_segment tr now seg l) e
        ∙ unfold output_on in refl in
      elim (noted now seg d l) [
        | inl (sent, log, kept) ↦ rw there (inl (sent, log, kept))
        | inr (failed, log, failure) ↦ rw there (inr (failed, d, log, failure))
      ]

  -- The underlay is given the segment, or nothing.
  output_log :
      (tr : Transport) (now : ℕ) (seg : Segment) (l : StreamLink)
      → IsCloseRequest seg
      → (rest : Log) × ((output_on bt cc write_one_segment tr now seg l).1.log ≡ l.log ++ rest)
        × AtMostClose rest
  unfolding output_on
  output_log unknown_transport now seg l close = ([], sym (append-nil l.log), tt)
  output_log stream_transport now seg l close =
      elim (noted now seg (write_one_segment now l.log seg) l) [
        | inl (_, log, _) ↦ (_, log, close)
        | inr (_, log, _) ↦ (_, log, close)
      ]
  output_log packet_transport now seg l close =
      elim (noted now seg (write_one_segment now l.log seg) l) [
        | inl (_, log, _) ↦ (_, log, close)
        | inr (_, log, _) ↦ (_, log, close)
      ]

  shut_log : (l : StreamLink) → (shut bt cc write_one_segment l).log ≡ l.log
  unfolding shut
  shut_log l = refl

  -- Closing on an error gives the underlay at most a close request.
  close_log :
      (now : ℕ) (l : StreamLink)
      → (rest : Log) × ((close_with_error bt cc write_one_segment now l).log ≡ l.log ++ rest)
        × AtMostClose rest
  unfolding close_with_error output
  close_log now l =
      let s = record l.session { close_requested = true } in
      let l1 = set_session bt cc write_one_segment (take_seq bt cc write_one_segment s) l in
      elim (Bool-cases l.session.close_requested) [
        | inl again ↦ rw again ([], sym (append-nil l.log), tt)
        | inr first ↦ elim (Bool-cases (is_open bt cc write_one_segment s)) [
          | inr over ↦
              rw (first, over)
                (
                  [],
                  shut_log (set_session bt cc write_one_segment s l) ∙ sym (append-nil l.log),
                  tt,
                )
          | inl here ↦
              let (rest, log, close) =
                output_log l.session.transport now (close_request bt cc write_one_segment s) l1
                  (refl, refl) in
              rw (first, here)
                (
                  rest,
                  shut_log
                        (output bt cc write_one_segment now
                          (close_request bt cc write_one_segment s) l1).1
                      ∙ log,
                  close,
                )
        ]
      ]

  -- All segments of `xs` were taken, in order.
  pub record AllSent (l : StreamLink) (xs : List Segment) (l' : StreamLink) : Type 0 where
    pub empty : contents bt l'.session.send_queue ≡ []
    pub log : l'.log ≡ l.log ++ all_delivered xs
    pub healthy : l'.session.output_has_err ≡ l.session.output_has_err

  -- Those before `failing` were taken, in order; nothing but a close request follows it.
  pub record SentUntil (l : StreamLink) (xs : List Segment) (l' : StreamLink) : Type 0 where
    pub taken : List Segment
    pub failing : Segment
    pub left : List Segment
    pub outcome : Delivery
    pub rest : Log
    pub split : xs ≡ taken ++ (failing ∷ left)
    pub log : l'.log ≡ l.log ++ (all_delivered taken ++ ((failing, outcome) ∷ rest))
    pub failure : IsFailure outcome
    pub close : AtMostClose rest

  one_sent :
      (x : Segment) (xs : List Segment) (l sent l' : StreamLink)
      → sent.log ≡ l.log ++ ((x, delivered) ∷ [])
      → sent.session.output_has_err ≡ l.session.output_has_err
      → AllSent sent xs l'
      → AllSent l (x ∷ xs) l'
  one_sent x xs l sent l' log healthy a = record {
    empty = a.empty;
    log =
        a.log
        ∙ ap (λ r. r ++ all_delivered xs) log
        ∙ append_assoc l.log ((x, delivered) ∷ []) (all_delivered xs);
    healthy = a.healthy ∙ healthy;
  }

  one_taken :
      (x : Segment) (xs : List Segment) (l sent l' : StreamLink)
      → sent.log ≡ l.log ++ ((x, delivered) ∷ [])
      → SentUntil sent xs l'
      → SentUntil l (x ∷ xs) l'
  one_taken x xs l sent l' log u = record {
    taken = x ∷ u.taken;
    failing = u.failing;
    left = u.left;
    outcome = u.outcome;
    rest = u.rest;
    split = ap (λ r. x ∷ r) u.split;
    log =
        u.log
        ∙ ap (λ r. r ++ (all_delivered u.taken ++ ((u.failing, u.outcome) ∷ u.rest))) log
        ∙ append_assoc l.log ((x, delivered) ∷ [])
            (all_delivered u.taken ++ ((u.failing, u.outcome) ∷ u.rest));
    failure = u.failure;
    close = u.close;
  }

  one_failed :
      (now : ℕ) (x : Segment) (xs : List Segment) (d : Delivery) (l sent : StreamLink)
      → sent.log ≡ l.log ++ ((x, d) ∷ [])
      → IsFailure d
      → let l' =
          close_with_error bt cc write_one_segment now (fail_output bt cc write_one_segment sent) in
        HasFailed bt cc write_one_segment l' × SentUntil l (x ∷ xs) l'
  one_failed now x xs d l sent log failure =
      let failed = fail_output bt cc write_one_segment sent in
      let (rest, more, close) = close_log now failed in
      (
        close_with_error_failed bt cc write_one_segment now failed refl,
        record {
          taken = [];
          failing = x;
          left = xs;
          outcome = d;
          rest = rest;
          split = refl;
          log = more ∙ ap (λ r. r ++ rest) log ∙ append_assoc l.log ((x, d) ∷ []) rest;
          failure = failure;
          close = close;
        },
      )

  stream_loop_lem :
      (fuel now : ℕ) (xs : List Segment) (l : StreamLink)
      → l.session.transport ≡ stream_transport
      → contents bt l.session.send_queue ≡ xs
      → length xs < fuel
      → let l' = stream_loop bt cc write_one_segment fuel now l in
        AllSent l xs l' ⊎ (HasFailed bt cc write_one_segment l' × SentUntil l xs l')
  unfolding stream_loop
  stream_loop_lem zero now xs l on e f = absurd (omega arith)
  stream_loop_lem (suc fuel) now [] l on e f =
      let none_left = delete_min-nil bt l.session.send_queue e in
      rw (ap (λ (r : Option Segment × SegmentTree bt). r.0) none_left, stream_loop)
        (inl (record {
          empty = ap (λ (r : Option Segment × SegmentTree bt). contents bt r.1) none_left ∙ e;
          log = sym (append-nil l.log);
          healthy = refl;
        }))
  stream_loop_lem (suc fuel) now (x ∷ xs) l on e f =
      let (found, rest, _) = delete_min-cons bt l.session.send_queue (λ seg. true) x xs e in
      let l1 =
        set_session bt cc write_one_segment
          (record l.session { send_queue = (delete_min bt l.session.send_queue).1 }) l in
      let sent = (output bt cc write_one_segment now x l1).1 in
      elim (output_stream_lem now x l1 on) [
        | inl (good, log, kept) ↦
            rw (found, good, stream_loop)
              (elim (stream_loop_lem fuel now xs sent (kept.transport ∙ on)
                (ap (λ (t : SegmentTree bt). contents bt t) kept.queue ∙ rest) (omega arith)) [
                  | inl a ↦ inl (one_sent x xs l sent _ log kept.failed a)
                  | inr (failed, u) ↦ inr (failed, one_taken x xs l sent _ log u)
                ])
        | inr (bad, d, log, failure) ↦
            rw (found, bad, stream_loop) (inr (one_failed now x xs d l sent log failure))
      ]

  if_fine :
      (b : Bool) (l l' : StreamLink) (P : StreamLink → Type 0)
      → b ≡ false
      → P l'
      → P (if b then l else l')
  if_fine true l l' P e h = absurd (ground (arith, e))
  if_fine false l l' P e h = h

  -- One run of the stream output loop on a session without an error of the output either hands the
  -- whole send queue to the underlay, in order, and leaves the queue empty and the session without an
  -- error; or it fails at a segment that the underlay refuses: those before it were handed over in
  -- order, nothing but at most one close request follows it, and the error is noted.
  pub run_output_once_stream_lem :
      (now : ℕ) (l : StreamLink)
      → l.session.transport ≡ stream_transport
      → l.session.output_has_err ≡ false
      → let l' = run_output_once_stream bt cc write_one_segment now l in
        let queued = contents bt l.session.send_queue in
        AllSent l queued l' ⊎ (HasFailed bt cc write_one_segment l' × SentUntil l queued l')
  unfolding run_output_once_stream
  run_output_once_stream_lem now l on fine =
      if_fine l.session.output_has_err l
        (stream_loop bt cc write_one_segment (suc (len bt l.session.send_queue)) now l)
        (λ l'.
          AllSent l (contents bt l.session.send_queue) l'
          ⊎ (HasFailed bt cc write_one_segment l'
              × SentUntil l (contents bt l.session.send_queue) l'))
        fine
        (stream_loop_lem (suc (len bt l.session.send_queue)) now (contents bt l.session.send_queue)
          l on refl (omega (arith, len-contents bt l.session.send_queue)))
