-- ===== src/Protocol/Output/Loop/Place.antt =====
-- A new segment on its way from the send queue to the send buffer and to the underlay.
use mieru.Common.{
  ℕ, suc, ◌≤◌, ◌<◌, ◌≡◌, refl, sym, ap, ◌∙◌, ◌⊎◌, inl, inr, Bool, true, false, List, [], ◌∷◌, ◌++◌,
  ltb, ◌==◌, arith, All, All-append, Bool-cases, List-cases, length,
}
use mieru.Protocol.Segment.{Segment, BTree, seq_of}
use mieru.Protocol.Segment.Tree.{contents, len}
use mieru.Protocol.Segment.Tree.Laws.{len-contents, contents-insert, insert_in_order-last}
use mieru.Protocol.Session.{Session, Congestion}
use mieru.Protocol.Session.Receive.Deliver.{Consecutive}
use mieru.Protocol.Output.{Delivery, Log, Link, output, fail_output}
use mieru.Protocol.Output.Loop.{stamp_segment, schedule, place, placed, send_new}
use mieru.Protocol.Output.Loop.Resend.{deadline, carried, output-SameQueues, seq_stamp_segment}
use mieru.Protocol.Output.Loop.Due.{HasFailed, Covered, close_with_error_failed}

pub carried-append : (xs ys : List Segment) → carried (xs ++ ys) ≡ carried xs ++ carried ys
carried-append [] ys = refl
carried-append (x ∷ xs) ys = ap (λ r. (seq_of x, x.payload) ∷ r) (carried-append xs ys)

-- Lists that carry the same have the same numbers.
pub Consecutive-carried :
    (lo hi : ℕ) (xs ys : List Segment)
    → carried xs ≡ carried ys
    → Consecutive lo xs hi
    → Consecutive lo ys hi
Consecutive-carried lo hi [] [] e c = c
Consecutive-carried lo hi [] (y ∷ ys) e c = absurd (grind arith)
Consecutive-carried lo hi (x ∷ xs) [] e c = absurd (grind arith)
Consecutive-carried lo hi (x ∷ xs) (y ∷ ys) e c =
    let same : seq_of x ≡ seq_of y = ground (arith, e) in
    let rest : carried xs ≡ carried ys = ground (arith, e) in
    (sym same ∙ c.0, Consecutive-carried (suc lo) hi xs ys rest c.1)

pub Consecutive-append :
    (lo hi : ℕ) (xs ys : List Segment)
    → Consecutive lo (xs ++ ys) hi
    → (mid : ℕ) × Consecutive lo xs mid × Consecutive mid ys hi
Consecutive-append lo hi [] ys c = (lo, refl, c)
Consecutive-append lo hi (x ∷ xs) ys c =
    let (mid, left, right) = Consecutive-append (suc lo) hi xs ys c.1 in (mid, (c.0, left), right)

module _ (bt : BTree) (cc : Congestion) (write_one_segment : ℕ → Log → Segment → Delivery)
    (backoff : ℕ → ℕ → ℕ) where
  abbrev new_check : Segment → Session bt cc → ℕ
  new_check seg s = (schedule bt cc write_one_segment backoff seg s).next_retransmission_time

  lower_check :
      (n m : ℕ) (xs : List Segment)
      → n ≤ m
      → All (λ x. m ≤ deadline x) xs
      → All (λ x. n ≤ deadline x) xs
  lower_check n m [] h a = tt
  lower_check n m (x ∷ xs) h a = (omega arith, lower_check n m xs h a.1)

  schedule_check :
      (seg : Segment) (s : Session bt cc)
      → Covered bt cc write_one_segment s
      → All (λ x. new_check seg s ≤ deadline x) (contents bt s.send_buf)
        × (new_check seg s ≤ deadline seg)
  schedule_check seg s c = elim (List-cases (contents bt s.send_buf)) [
    | inl e ↦
        let empty : (len bt s.send_buf == 0) ≡ true =
          ground (arith, len-contents bt s.send_buf, ap (λ (l : List Segment). length l) e) in
        let first : new_check seg s ≤ deadline seg =
          rw (empty, new_check, schedule) (ground arith) in
        rw e (tt, first)
    | inr (x, xs, e) ↦
        let some_there : (len bt s.send_buf == 0) ≡ false =
          ground (arith, len-contents bt s.send_buf, ap (λ (l : List Segment). length l) e) in
        elim (Bool-cases (ltb (deadline seg) s.next_retransmission_time)) [
          | inl sooner ↦
              rw (some_there, sooner, new_check, schedule)
                (
                  lower_check (deadline seg) s.next_retransmission_time (contents bt s.send_buf)
                      (ground arith) c,
                  omega arith,
                )
          | inr later ↦ rw (some_there, later, new_check, schedule) (c, ground arith)
        ]
  ]

  pub schedule_same :
      (seg : Segment) (s : Session bt cc)
      → let s' = schedule bt cc write_one_segment backoff seg s in
        (s'.send_buf ≡ s.send_buf)
        × (s'.send_queue ≡ s.send_queue)
        × (s'.next_send ≡ s.next_send)
        × (s'.output_has_err ≡ s.output_has_err)
  schedule_same seg s = elim (Bool-cases (len bt s.send_buf == 0)) [
    | inl empty ↦ rw empty (refl, refl, refl, refl)
    | inr more ↦ elim (Bool-cases (ltb (deadline seg) s.next_retransmission_time)) [
      | inl sooner ↦ rw (more, sooner) (refl, refl, refl, refl)
      | inr later ↦ rw (more, later) (refl, refl, refl, refl)
    ]
  ]

  -- What `send_new` comes to when it succeeds.
  pub record SentNew (seg : Segment) (s s' : Session bt cc) : Type 0 where
    pub covered : Covered bt cc write_one_segment s'
    pub sent : Segment
    pub buf : contents bt s'.send_buf ≡ contents bt s.send_buf ++ (sent ∷ [])
    pub same : carried (sent ∷ []) ≡ carried (seg ∷ [])
    pub queue : s'.send_queue ≡ s.send_queue
    pub next : s'.next_send ≡ s.next_send

  pub placed_failed :
      (now : ℕ) (seg : Segment) (inserted : Bool) (l : Link bt cc write_one_segment)
      → let (ok, l') = placed bt cc write_one_segment backoff now seg (inserted, l) in
        ((ok ≡ false) × HasFailed bt cc write_one_segment l')
        ⊎ ((ok ≡ true) × (inserted ≡ true) × (l' ≡ (output bt cc write_one_segment now seg l).1))
  placed_failed now seg false l = inl (
    refl,
    close_with_error_failed bt cc write_one_segment now (fail_output bt cc write_one_segment l)
        refl,
  )
  placed_failed now seg true l =
      let l' = (output bt cc write_one_segment now seg l).1 in
      elim (Bool-cases (output bt cc write_one_segment now seg l).0) [
        | inl ok ↦ rw ok (inr (refl, refl, refl))
        | inr failed ↦ rw failed (
            inl (
              refl,
              close_with_error_failed bt cc write_one_segment now
                  (fail_output bt cc write_one_segment l') refl,
            ))
      ]

  -- The session after a segment was put into the send buffer.
  pub record Placed (seg : Segment) (s s' : Session bt cc) : Type 0 where
    covered : Covered bt cc write_one_segment s'
    buf : contents bt s'.send_buf ≡ contents bt s.send_buf ++ (seg ∷ [])
    queue : s'.send_queue ≡ s.send_queue
    next : s'.next_send ≡ s.next_send

  place_lem :
      (seg : Segment) (l : Link bt cc write_one_segment)
      → Covered bt cc write_one_segment l.session
      → All (λ x. seq_of x < seq_of seg) (contents bt l.session.send_buf)
      → length (contents bt l.session.send_buf) < l.session.send_buf.cap
      → Placed seg l.session (place bt cc write_one_segment backoff seg l).1.session
  unfolding place
  place_lem seg l c below room =
      let s = l.session in
      let (buf, queue, next, failed) = schedule_same seg s in
      let (early, first) = schedule_check seg s c in
      let (_, items, _) = contents-insert bt s.send_buf seg room in
      let last = items ∙ insert_in_order-last seg (contents bt s.send_buf) below in
      record {
        covered =
            rw (buf, last)
              (All-append (λ x. new_check seg s ≤ deadline x) (contents bt s.send_buf) (seg ∷ [])
                early (first, tt));
        buf = rw buf last;
        queue = queue;
        next = next;
      }

  Placed-SentNew :
      (now : ℕ) (seg seg' : Segment) (s : Session bt cc) (l l' : Link bt cc write_one_segment)
      → Placed seg' s l.session
      → carried (seg' ∷ []) ≡ carried (seg ∷ [])
      → l' ≡ (output bt cc write_one_segment now seg' l).1
      → SentNew seg s l'.session
  Placed-SentNew now seg seg' s l l' p same e =
      let kept = output-SameQueues bt cc write_one_segment now seg' l in
      rw e (record {
        covered = rw (kept.retransmission, kept.buf) p.covered;
        sent = seg';
        buf = rw kept.buf p.buf;
        same = same;
        queue = kept.queue ∙ p.queue;
        next = kept.next ∙ p.next;
      })

  pub send_new_lem :
      (now : ℕ) (seg : Segment) (l : Link bt cc write_one_segment)
      → Covered bt cc write_one_segment l.session
      → All (λ x. seq_of x < seq_of seg) (contents bt l.session.send_buf)
      → length (contents bt l.session.send_buf) < l.session.send_buf.cap
      → let r = send_new bt cc write_one_segment backoff now seg l in
        ((r.0 ≡ false) × HasFailed bt cc write_one_segment r.1)
        ⊎ ((r.0 ≡ true) × SentNew seg l.session r.1.session)
  unfolding send_new
  send_new_lem now seg l c below room =
      let seg' = stamp_segment bt cc write_one_segment backoff now l.session seg in
      let seq = seq_stamp_segment bt cc write_one_segment backoff now l.session seg in
      let (inserted, there) = place bt cc write_one_segment backoff seg' l in
      let p = place_lem seg' l c (rw seq below) room in
      elim (placed_failed now seg' inserted there) [
        | inl failed ↦ inl failed
        | inr (ok, _, same) ↦
            inr (ok, Placed-SentNew now seg seg' l.session there _ p (rw seq refl) same)
      ]
