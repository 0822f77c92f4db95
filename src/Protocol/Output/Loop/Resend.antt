-- ===== src/Protocol/Output/Loop/Resend.antt =====
-- The pass over the segments that wait for an acknowledgement.
use mieru.Common.{
  ℕ, ◌+◌, ◌≤◌, ◌≡◌, refl, ◌∙◌, ◌⊎◌, inl, inr, Bool, true, false, ◌||◌, Option, none, some, List, [],
  ◌∷◌, leb, if◌then◌else◌, arith, All, Bool-cases,
}
use mieru.Protocol.Metadata.{Metadata, session, data_ack, is_data_ack_protocol}
use mieru.Protocol.Segment.{
  Segment, BTree, Transport, packet_transport, stream_transport, unknown_transport, seq_of,
  metadata_seq, protocol_of, visit_with,
}
use mieru.Protocol.Session.{Session, Congestion}
use mieru.Protocol.Output.{
  Delivery, delivered, not_ready, broken, Log, Link, output, output_on, note,
}
use mieru.Protocol.Output.Loop.{
  Pass, stamp_segment, set_un_ack, earlier, is_early, resend, tx_count_limit,
}

-- When a segment is to be sent again.
abbrev pub deadline : Segment → ℕ
deadline seg = seg.tx_time + seg.tx_timeout

abbrev pub NotAfter : Option ℕ → ℕ → Type 0
NotAfter none t = ⊥
NotAfter (some s) t = s ≤ t

abbrev pub NotLater : Option ℕ → Option ℕ → Type 0
NotLater next none = Unit {0}
NotLater next (some t) = NotAfter next t

earlier-NotAfter : (next : Option ℕ) (t : ℕ) → NotAfter (earlier next t) t
earlier-NotAfter none t = omega arith
earlier-NotAfter (some s) t = ground arith

earlier-NotLater : (next : Option ℕ) (t : ℕ) → NotLater (earlier next t) next
earlier-NotLater none t = tt
earlier-NotLater (some s) t = ground arith

NotLater-refl : (a : Option ℕ) → NotLater a a
NotLater-refl none = tt
NotLater-refl (some s) = omega arith

NotAfter-trans : (a b : Option ℕ) (t : ℕ) → NotLater a b → NotAfter b t → NotAfter a t
NotAfter-trans a none t h k = absurd k
NotAfter-trans none (some s) t h k = absurd h
NotAfter-trans (some r) (some s) t h k = omega arith

NotLater-trans : (a b c : Option ℕ) → NotLater a b → NotLater b c → NotLater a c
NotLater-trans a b none h k = tt
NotLater-trans a b (some t) h k = NotAfter-trans a b t h k

-- What a list of segments carries: the sequence numbers with their payloads.
abbrev pub carried : List Segment → List (ℕ × List ℕ)
carried [] = []
carried (x ∷ xs) = (seq_of x, x.payload) ∷ carried xs

seq_set_un_ack : (n : ℕ) (m : Metadata) → metadata_seq (set_un_ack n m) ≡ metadata_seq m
seq_set_un_ack n (session ss) = refl
seq_set_un_ack n (data_ack das) = refl

module _ (bt : BTree) (cc : Congestion) (write_one_segment : ℕ → Log → Segment → Delivery) where
  -- What `output` leaves alone.
  pub record SameQueues (s s' : Session bt cc) : Type 0 where
    pub queue : s'.send_queue ≡ s.send_queue
    pub buf : s'.send_buf ≡ s.send_buf
    pub next : s'.next_send ≡ s.next_send
    pub retransmission : s'.next_retransmission_time ≡ s.next_retransmission_time
    pub failed : s'.output_has_err ≡ s.output_has_err

  pub SameQueues-refl : (s : Session bt cc) → SameQueues s s
  SameQueues-refl s = record {
    queue = refl;
    buf = refl;
    next = refl;
    retransmission = refl;
    failed = refl;
  }

  pub SameQueues-trans : (s t u : Session bt cc) → SameQueues s t → SameQueues t u → SameQueues s u
  SameQueues-trans s t u h k = record {
    queue = k.queue ∙ h.queue;
    buf = k.buf ∙ h.buf;
    next = k.next ∙ h.next;
    retransmission = k.retransmission ∙ h.retransmission;
    failed = k.failed ∙ h.failed;
  }

  note-SameQueues :
      (now : ℕ) (seg : Segment) (d : Delivery) (l : Link bt cc write_one_segment)
      → SameQueues l.session (note bt cc write_one_segment now seg d l).session
  note-SameQueues now seg delivered l = record {
    queue = refl;
    buf = refl;
    next = refl;
    retransmission = refl;
    failed = refl;
  }
  note-SameQueues now seg not_ready l = SameQueues-refl l.session
  note-SameQueues now seg broken l = SameQueues-refl l.session

  output_on-SameQueues :
      (tr : Transport) (now : ℕ) (seg : Segment) (l : Link bt cc write_one_segment)
      → SameQueues l.session (output_on bt cc write_one_segment tr now seg l).1.session
  unfolding output_on
  output_on-SameQueues unknown_transport now seg l = SameQueues-refl l.session
  output_on-SameQueues stream_transport now seg l =
      note-SameQueues now seg (write_one_segment now l.log seg) l
  output_on-SameQueues packet_transport now seg l =
      note-SameQueues now seg (write_one_segment now l.log seg) l

  pub output-SameQueues :
      (now : ℕ) (seg : Segment) (l : Link bt cc write_one_segment)
      → SameQueues l.session (output bt cc write_one_segment now seg l).1.session
  unfolding output
  output-SameQueues now seg l = output_on-SameQueues l.session.transport now seg l

  module _ (backoff : ℕ → ℕ → ℕ) where
    pub seq_stamp_segment :
        (now : ℕ) (s : Session bt cc) (seg : Segment)
        → seq_of (stamp_segment bt cc write_one_segment backoff now s seg) ≡ seq_of seg
    seq_stamp_segment now s seg = elim (Bool-cases (is_data_ack_protocol (protocol_of seg))) [
      | inl yes_ack ↦ rw yes_ack (seq_set_un_ack s.next_recv seg.metadata)
      | inr no_ack ↦ rw no_ack refl
    ]

    -- The iterator goes on, or it stops with an error.
    pub data Resent (p : Pass bt cc write_one_segment backoff) (seg : Segment)
        : Pass bt cc write_one_segment backoff × Segment × Bool → Type 0 where
      goes_on :
          (p' : Pass bt cc write_one_segment backoff) (seg' : Segment)
          → p'.next_tx ≡ earlier p.next_tx (deadline seg')
          → p'.close_reason ≡ p.close_reason
          → seq_of seg' ≡ seq_of seg
          → seg'.payload ≡ seg.payload
          → SameQueues p.link.session p'.link.session
          → Resent p seg (p', seg', true)
      stops :
          (p' : Pass bt cc write_one_segment backoff) (seg' : Segment)
          → p'.close_reason ≡ true
          → p'.link.session.output_has_err ≡ true
          → Resent p seg (p', seg', false)

    resend-Resent :
        (now : ℕ) (p : Pass bt cc write_one_segment backoff) (seg : Segment)
        → Resent p seg (resend bt cc write_one_segment backoff now p seg)
    unfolding resend
    resend-Resent now p seg = elim (Bool-cases (leb tx_count_limit seg.tx_count)) [
      | inl limit ↦ rw limit (stops _ _ refl refl)
      | inr below ↦
          elim (Bool-cases
            (is_early bt cc write_one_segment backoff seg || leb (deadline seg) now)) [
              | inl due ↦
                  let seg' =
                    record (stamp_segment bt cc write_one_segment backoff now p.link.session seg) {
                      ack_count = 0;
                    } in
                  let kept = output-SameQueues now seg' p.link in
                  elim (Bool-cases (output bt cc write_one_segment now seg' p.link).0) [
                    | inl sent ↦
                        rw (below, due, sent)
                          (goes_on _ _ refl refl (seq_stamp_segment now p.link.session seg) refl
                            kept)
                    | inr failed ↦ rw (below, due, failed) (stops _ _ refl refl)
                  ]
              | inr early ↦
                  rw (below, early)
                    (goes_on _ _ refl refl refl refl (SameQueues-refl p.link.session))
            ]
    ]

    -- No segment is due before the next check.
    abbrev pub AllAfter : Option ℕ → List Segment → Type 0
    AllAfter next xs = All (λ seg. NotAfter next (deadline seg)) xs

    abbrev pub Stopped : Pass bt cc write_one_segment backoff → Type 0
    Stopped p = (p.close_reason ≡ true) × (p.link.session.output_has_err ≡ true)

    -- What a pass that was not stopped comes to.
    pub record Passed (p p' : Pass bt cc write_one_segment backoff) (xs xs' : List Segment)
        : Type 0 where
      pub after : AllAfter p'.next_tx xs'
      pub later : NotLater p'.next_tx p.next_tx
      pub reason : p'.close_reason ≡ p.close_reason
      pub same : carried xs' ≡ carried xs
      pub queues : SameQueues p.link.session p'.link.session

    abbrev pub visit_resend :
        ℕ
        → Pass bt cc write_one_segment backoff
        → List Segment
        → Pass bt cc write_one_segment backoff × List Segment
    visit_resend now = visit_with (resend bt cc write_one_segment backoff now)

    visit_cons :
        (now : ℕ) (p : Pass bt cc write_one_segment backoff) (x : Segment) (xs : List Segment)
        (r : Pass bt cc write_one_segment backoff × Segment × Bool)
        → Resent p x r
        → ((p' : Pass bt cc write_one_segment backoff)
            → Stopped (visit_resend now p' xs).0
              ⊎ Passed p' (visit_resend now p' xs).0 xs (visit_resend now p' xs).1)
        → let rest = visit_resend now r.0 xs in
          let all : Pass bt cc write_one_segment backoff × List Segment =
            if r.2 then (rest.0, r.1 ∷ rest.1) else (r.0, r.1 ∷ xs) in
          Stopped all.0 ⊎ Passed p all.0 (x ∷ xs) all.1
    visit_cons now p x xs _ (stops p' x' reason failed) ih = inl (reason, failed)
    visit_cons now p x xs _ (goes_on p' x' next reason seq payload kept) ih = elim (ih p') [
      | inl stopped ↦ inl stopped
      | inr passed ↦
          let next' = (visit_resend now p' xs).0.next_tx in
          let first : NotAfter p'.next_tx (deadline x') =
            rw next (earlier-NotAfter p.next_tx (deadline x')) in
          let before : NotLater p'.next_tx p.next_tx =
            rw next (earlier-NotLater p.next_tx (deadline x')) in
          inr (record {
            after =
                (NotAfter-trans next' p'.next_tx (deadline x') passed.later first, passed.after);
            later = NotLater-trans next' p'.next_tx p.next_tx passed.later before;
            reason = passed.reason ∙ reason;
            same = rw (seq, payload, passed.same) refl;
            queues = SameQueues-trans p.link.session p'.link.session _ kept passed.queues;
          })
    ]

    pub visit_all :
        (now : ℕ) (xs : List Segment) (p : Pass bt cc write_one_segment backoff)
        → Stopped (visit_resend now p xs).0
          ⊎ Passed p (visit_resend now p xs).0 xs (visit_resend now p xs).1
    visit_all now [] p = inr (record {
      after = tt;
      later = NotLater-refl p.next_tx;
      reason = refl;
      same = refl;
      queues = SameQueues-refl p.link.session;
    })
    visit_all now (x ∷ xs) p =
        visit_cons now p x xs (resend bt cc write_one_segment backoff now p x)
          (resend-Resent now p x) (λ p'. visit_all now xs p')
