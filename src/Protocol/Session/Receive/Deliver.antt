-- ===== src/Protocol/Session/Receive/Deliver.antt =====
-- What `moveRecvBufToRecvQueue` moves, as a function of two lists of segments.
use mieru.Common.{
  ℕ, zero, suc, ◌+◌, ◌^◌, ◌≤◌, ◌<◌, ◌≡◌, refl, sym, ap, ◌∙◌, Bool, Option, List, [], ◌∷◌, ◌++◌, leb,
  ltb, ◌==◌, if◌then◌else◌, arith, All, length, order_cases, length-append, inl, inr,
}
use mathlib.Core.List.{append-nil, append_assoc}
use mieru.Protocol.Segment.{Segment, BTree, seq_of}
use mieru.Protocol.Segment.Tree.{SegmentTree, contents, insert, delete_min_if}
use mieru.Protocol.Segment.Tree.Laws.{
  insert_in_order-last, len-contents, contents-insert, delete_min_if-nil, delete_min_if-hit,
  delete_min_if-miss,
}
use mieru.Protocol.Session.{Session, Congestion}
use mieru.Protocol.Session.Receive.{done, move_loop, advance}

-- The numbers `lo`, `lo + 1`, … below `hi`, in this order.
abbrev pub Consecutive : ℕ → List Segment → ℕ → Type 0
Consecutive lo [] hi = lo ≡ hi
Consecutive lo (x ∷ xs) hi = (seq_of x ≡ lo) × Consecutive (suc lo) xs hi

pub Consecutive-below :
    (lo hi : ℕ) (xs : List Segment) → Consecutive lo xs hi → (lo ≤ hi) × All (λ x. seq_of x < hi) xs
Consecutive-below lo hi [] c = (omega arith, tt)
Consecutive-below lo hi (x ∷ xs) c =
    let (le, all) = Consecutive-below (suc lo) hi xs c.1 in (omega arith, (omega arith, all))

pub Consecutive-snoc :
    (lo hi : ℕ) (xs : List Segment) (s : Segment)
    → Consecutive lo xs hi
    → seq_of s ≡ hi
    → Consecutive lo (xs ++ (s ∷ [])) (suc hi)
Consecutive-snoc lo hi [] s c e = (e ∙ sym c, ap suc c)
Consecutive-snoc lo hi (x ∷ xs) s c e = (c.0, Consecutive-snoc (suc lo) hi xs s c.1 e)

-- With `room` places and `next` expected: what moves, and what stays.
unfoldable pub deliver : ℕ → ℕ → List Segment → List Segment × List Segment
deliver zero next buf = ([], buf)
deliver (suc room) next [] = ([], [])
deliver (suc room) next (x ∷ xs) =
    let stale = deliver (suc room) next xs in
    let (moved, rest) = deliver room (suc next) xs in
    if ltb (seq_of x) next
    then stale
    else if seq_of x == next
    then (x ∷ moved, rest)
    else ([], x ∷ xs)

module _ (room next : ℕ) (x : Segment) (xs : List Segment) where
  deliver_stale : seq_of x < next → deliver (suc room) next (x ∷ xs) ≡ deliver (suc room) next xs
  unfolding deliver
  deliver_stale h = ground arith

  deliver_next :
      seq_of x ≡ next
      → deliver (suc room) next (x ∷ xs)
        ≡ (x ∷ (deliver room (suc next) xs).0, (deliver room (suc next) xs).1)
  unfolding deliver
  deliver_next h = ground arith

  deliver_early : next < seq_of x → deliver (suc room) next (x ∷ xs) ≡ ([], x ∷ xs)
  unfolding deliver
  deliver_early h = ground arith

module _ (bt : BTree) (cc : Congestion) where
  -- The session after a loop that moved `moved` and left `rest`.
  pub record Delivered (s : Session bt cc) (moved rest : List Segment) (s' : Session bt cc)
      : Type 0 where
    pub queue : contents bt s'.recv_queue ≡ contents bt s.recv_queue ++ moved
    pub buf : contents bt s'.recv_buf ≡ rest
    pub next : s'.next_recv ≡ s.next_recv + length moved
    pub cap : s'.recv_queue.cap ≡ s.recv_queue.cap
    pub buf_cap : s'.recv_buf.cap ≡ s.recv_buf.cap

  module _ (fuel : ℕ) (s : Session bt cc) where
    move_none :
        s.recv_queue.cap ≤ length (contents bt s.recv_queue) → move_loop bt cc (suc fuel) s ≡ done s
    unfolding move_loop
    move_none h = ground (arith, len-contents bt s.recv_queue)

    move_empty :
        length (contents bt s.recv_queue) < s.recv_queue.cap
        → contents bt s.recv_buf ≡ []
        → move_loop bt cc (suc fuel) s ≡ done (record s { recv_buf = s.recv_buf })
    unfolding move_loop
    move_empty h e = ground (
      arith,
      len-contents bt s.recv_queue,
      delete_min_if-nil bt s.recv_buf (λ seg. leb (seq_of seg) s.next_recv) e,
    )

    abbrev taken : Option (Segment × Bool) × SegmentTree bt
    taken = delete_min_if bt s.recv_buf (λ seg. leb (seq_of seg) s.next_recv)

    module _ (h : length (contents bt s.recv_queue) < s.recv_queue.cap) (x : Segment)
        (xs : List Segment) (e : contents bt s.recv_buf ≡ x ∷ xs) where
      move_stale :
          seq_of x < s.next_recv
          → (move_loop bt cc (suc fuel) s ≡ move_loop bt cc fuel (record s { recv_buf = taken.1 }))
            × (contents bt taken.1 ≡ xs)
            × (taken.1.cap ≡ s.recv_buf.cap)
      unfolding move_loop
      move_stale lt = ground (
        arith,
        len-contents bt s.recv_queue,
        delete_min_if-hit bt s.recv_buf (λ seg. leb (seq_of seg) s.next_recv) x xs e,
      )

      move_early :
          s.next_recv < seq_of x
          → (move_loop bt cc (suc fuel) s ≡ done (record s { recv_buf = taken.1 }))
            × (contents bt taken.1 ≡ x ∷ xs)
            × (taken.1.cap ≡ s.recv_buf.cap)
      unfolding move_loop
      move_early lt = ground (
        arith,
        len-contents bt s.recv_queue,
        e,
        delete_min_if-miss bt s.recv_buf (λ seg. leb (seq_of seg) s.next_recv) x xs e,
      )

      move_next :
          seq_of x ≡ s.next_recv
          → All (λ y. seq_of y < seq_of x) (contents bt s.recv_queue)
          → let s' = record s { recv_buf = taken.1; recv_queue = (insert bt s.recv_queue x).1 } in
            (move_loop bt cc (suc fuel) s ≡ move_loop bt cc fuel (advance bt cc x s'))
            × (contents bt taken.1 ≡ xs)
            × (contents bt s'.recv_queue ≡ contents bt s.recv_queue ++ (x ∷ []))
            × (s'.recv_queue.cap ≡ s.recv_queue.cap)
            × (taken.1.cap ≡ s.recv_buf.cap)
      unfolding move_loop
      move_next eq below = ground (
        arith,
        len-contents bt s.recv_queue,
        contents-insert bt s.recv_queue x h,
        insert_in_order-last x (contents bt s.recv_queue) below,
        delete_min_if-hit bt s.recv_buf (λ seg. leb (seq_of seg) s.next_recv) x xs e,
      )

  -- A loop that moves nothing.
  nothing :
      (s s' : Session bt cc)
      → s'.recv_queue ≡ s.recv_queue
      → s'.next_recv ≡ s.next_recv
      → s'.recv_buf.cap ≡ s.recv_buf.cap
      → Delivered s [] (contents bt s'.recv_buf) s'
  nothing s s' q n b = record {
    queue = rw (q, append-nil);
    buf = refl;
    next = omega arith;
    cap = rw q;
    buf_cap = b;
  }

  -- A round that moves `x`, and the rounds after it.
  moved_one :
      (s t s' : Session bt cc) (x : Segment) (moved rest : List Segment)
      → contents bt t.recv_queue ≡ contents bt s.recv_queue ++ (x ∷ [])
      → t.recv_queue.cap ≡ s.recv_queue.cap
      → t.next_recv ≡ s.next_recv + 1
      → t.recv_buf.cap ≡ s.recv_buf.cap
      → Delivered t moved rest s'
      → Delivered s (x ∷ moved) rest s'
  moved_one s t s' x moved rest q c n b d = record {
    queue =
        d.queue ∙ ap (λ l. l ++ moved) q ∙ append_assoc (contents bt s.recv_queue) (x ∷ []) moved;
    buf = d.buf;
    next = omega (arith, d.next);
    cap = d.cap ∙ c;
    buf_cap = d.buf_cap ∙ b;
  }

  -- The loop moves what `deliver` says, and does not run out of fuel.
  pub move_loop-Delivered :
      (fuel : ℕ) (s : Session bt cc) (lo room : ℕ) (buf : List Segment)
      → contents bt s.recv_buf ≡ buf
      → s.recv_queue.cap ≡ length (contents bt s.recv_queue) + room
      → length buf < fuel
      → Consecutive lo (contents bt s.recv_queue) s.next_recv
      → s.next_recv + length buf < 2 ^ 32
      → (s' : Session bt cc) × (move_loop bt cc fuel s ≡ done s')
        × Delivered s (deliver room s.next_recv buf).0 (deliver room s.next_recv buf).1 s'
  move_loop-Delivered zero s lo room buf e c h k n = absurd (omega arith)
  move_loop-Delivered (suc fuel) s lo zero buf e c h k n =
      (s, move_none fuel s (omega arith), unfold deliver in (rw e at (nothing s s refl refl refl)))
  move_loop-Delivered (suc fuel) s lo (suc room) [] e c h k n =
      let t = record s { recv_buf = s.recv_buf } in
      (
        t,
        move_empty fuel s (omega arith) e,
        unfold deliver in (rw e at (nothing s t refl refl refl)),
      )
  move_loop-Delivered (suc fuel) s lo (suc room) (x ∷ xs) e c h k n =
      elim (order_cases (seq_of x) s.next_recv) [
        | inl lt ↦
            let (step, left, b) = move_stale fuel s (omega arith) x xs e lt in
            let t = record s { recv_buf = (taken fuel s).1 } in
            let (s', run, d) =
              move_loop-Delivered fuel t lo (suc room) xs left c (omega arith) k (omega arith) in
            (
              s',
              step ∙ run,
              rw (deliver_stale room s.next_recv x xs lt) (record {
                queue = d.queue;
                buf = d.buf;
                next = d.next;
                cap = d.cap;
                buf_cap = d.buf_cap ∙ b;
              }),
            )
        | inr (inl eq) ↦
            let below = (Consecutive-below lo s.next_recv (contents bt s.recv_queue) k).1 in
            let (step, left, put, cap, b) =
              move_next fuel s (omega arith) x xs e eq (rw (sym eq) at below) in
            let t = advance bt cc x (record s {
              recv_buf = (taken fuel s).1;
              recv_queue = (insert bt s.recv_queue x).1;
            }) in
            let next : t.next_recv ≡ suc s.next_recv = omega arith in
            let (s', run, d) =
              move_loop-Delivered fuel t lo room xs left
                (omega (
                  arith,
                  ap (λ (l : List Segment). length l) put,
                  length-append {0} (contents bt s.recv_queue) (x ∷ []),
                ))
                (omega arith)
                (rw (put, next) (Consecutive-snoc lo s.next_recv (contents bt s.recv_queue) x k eq))
                (omega arith) in
            (
              s',
              step ∙ run,
              rw (deliver_next room s.next_recv x xs eq, ← next)
                  (moved_one s t s' x _ _ put cap (omega arith) b d),
            )
        | inr (inr gt) ↦
            let (step, left, room_left) = move_early fuel s (omega arith) x xs e gt in
            let t = record s { recv_buf = (taken fuel s).1 } in
            (
              t,
              step,
              rw (deliver_early room s.next_recv x xs gt)
                  (rw left at (nothing s t refl refl room_left)),
            )
      ]
