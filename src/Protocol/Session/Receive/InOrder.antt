-- ===== src/Protocol/Session/Receive/InOrder.antt =====
-- Packets are handed to the application in the order of their sequence numbers.
use mieru.Common.{
  ℕ, zero, suc, ◌+◌, ◌-◌, ◌^◌, ◌≤◌, ◌<◌, ◌≡◌, refl, ap, ◌∙◌, List, [], ◌∷◌, ◌++◌, arith, length,
  All, All-mono, Bool-cases, ltb, ◌==◌, subst, length-append, inl, inr, ◌⊎◌,
}
use mieru.Protocol.Segment.{Segment, BTree, seq_of}
use mieru.Protocol.Segment.Tree.{contents, len}
use mieru.Protocol.Segment.Tree.Laws.{len-contents}
use mieru.Protocol.Session.{Session, Congestion, segment_tree_capacity}
use mieru.Protocol.Session.Receive.{done, move_recv_buf_to_recv_queue}
use mieru.Protocol.Session.Receive.Deliver.{Consecutive, deliver, Delivered, move_loop-Delivered}

-- The first segment left, if any, is still ahead of the expected number.
abbrev pub Ahead : ℕ → List Segment → Type 0
Ahead next [] = Unit {0}
Ahead next (x ∷ xs) = next < seq_of x

Consecutive-append :
    (lo mid hi : ℕ) (xs ys : List Segment)
    → Consecutive lo xs mid
    → Consecutive mid ys hi
    → Consecutive lo (xs ++ ys) hi
Consecutive-append lo mid hi [] ys c d = rw c d
Consecutive-append lo mid hi (x ∷ xs) ys c d = (c.0, Consecutive-append (suc lo) mid hi xs ys c.1 d)

-- What `deliver` moves carries the expected numbers one after the other.
pub deliver-Consecutive :
    (room next : ℕ) (buf : List Segment)
    → Consecutive next (deliver room next buf).0 (next + length (deliver room next buf).0)
unfolding deliver
deliver-Consecutive zero next buf = omega arith
deliver-Consecutive (suc room) next [] = omega arith
deliver-Consecutive (suc room) next (x ∷ xs) =
    ground (arith, deliver-Consecutive (suc room) next xs, deliver-Consecutive room (suc next) xs)

-- It stops only where the room is used up or the next segment has not come.
pub deliver_complete :
    (room next : ℕ) (buf : List Segment)
    → let (moved, rest) = deliver room next buf in
      (length moved ≡ room) ⊎ Ahead (next + length moved) rest
unfolding deliver
deliver_complete zero next buf = inl refl
deliver_complete (suc room) next [] = inr tt
deliver_complete (suc room) next (x ∷ xs) =
    ground (arith, deliver_complete (suc room) next xs, deliver_complete room (suc next) xs)

pub length-deliver :
    (room next : ℕ) (buf : List Segment)
    → let (moved, rest) = deliver room next buf in
      (length moved ≤ room) × (length moved + length rest ≤ length buf)
unfolding deliver
length-deliver zero next buf = omega arith
length-deliver (suc room) next [] = omega arith
length-deliver (suc room) next (x ∷ xs) =
    ground (arith, length-deliver (suc room) next xs, length-deliver room (suc next) xs)

-- What leaves the buffer is at its front, and below the number that is expected then.
deliver_split :
    (room next : ℕ) (buf : List Segment)
    → let (moved, rest) = deliver room next buf in
      (left : List Segment) × (buf ≡ left ++ rest) × All (λ x. seq_of x < next + length moved) left
unfolding deliver
deliver_split zero next buf = ([], refl, tt)
deliver_split (suc room) next [] = ([], refl, tt)
deliver_split (suc room) next (x ∷ xs) = elim (Bool-cases (ltb (seq_of x) next)) [
  | inl stale ↦
      let (left, e, below) = deliver_split (suc room) next xs in
      rw stale (x ∷ left, ap (λ l. x ∷ l) e, (ground (arith, stale), below))
  | inr due ↦ elim (Bool-cases (seq_of x == next)) [
    | inr early ↦ rw (due, early) ([], refl, tt)
    | inl now ↦
        let (left, e, below) = deliver_split room (suc next) xs in
        let moved = (deliver room (suc next) xs).0 in
        rw (due, now)
          (
            x ∷ left,
            ap (λ l. x ∷ l) e,
            (
              ground (arith, now),
              All-mono (λ y. seq_of y < suc next + length moved)
                  (λ y. seq_of y < next + suc (length moved)) left (λ y k. omega arith) below,
            ),
          )
  ]
]

-- In the order of the sequence numbers.
abbrev pub Ascending : List Segment → Type 0
Ascending [] = Unit {0}
Ascending (x ∷ xs) = All (λ y. seq_of x ≤ seq_of y) xs × Ascending xs

Ascending-rest : (xs ys : List Segment) → Ascending (xs ++ ys) → Ascending ys
Ascending-rest [] ys h = h
Ascending-rest (x ∷ xs) ys h = Ascending-rest xs ys h.1

Ahead-Ascending :
    (next : ℕ) (xs : List Segment) → Ahead next xs → Ascending xs → All (λ y. next < seq_of y) xs
Ahead-Ascending next [] h a = tt
Ahead-Ascending next (x ∷ xs) h a =
    (h, All-mono (λ y. seq_of x ≤ seq_of y) (λ y. next < seq_of y) xs (λ y k. omega arith) a.0)

module _ (bt : BTree) (cc : Congestion) where
  -- The receive queue holds `lo`, `lo + 1`, … up to the expected number, within its capacity.
  pub record Receiving (lo : ℕ) (s : Session bt cc) : Type 0 where
    pub queue : Consecutive lo (contents bt s.recv_queue) s.next_recv
    pub bounded : length (contents bt s.recv_queue) ≤ s.recv_queue.cap
    pub capacity : s.recv_queue.cap ≡ segment_tree_capacity
    pub buf_capacity : s.recv_buf.cap ≡ segment_tree_capacity

  -- What `moveRecvBufToRecvQueue` has done when it ends.
  pub record Moved (lo : ℕ) (s s' : Session bt cc) : Type 0 where
    pub receiving : Receiving lo s'
    pub moved : List Segment
    pub rest_queue : contents bt s'.recv_queue ≡ contents bt s.recv_queue ++ moved
    pub numbered : Consecutive s.next_recv moved s'.next_recv
    pub complete :
        (length (contents bt s'.recv_queue) ≡ segment_tree_capacity)
        ⊎ Ahead s'.next_recv (contents bt s'.recv_buf)
    pub left :
        (out : List Segment) × (contents bt s.recv_buf ≡ out ++ contents bt s'.recv_buf)
        × All (λ x. seq_of x < s'.next_recv) out

  moved_by :
      (lo : ℕ) (s s' : Session bt cc)
      → Receiving lo s
      → let room = s.recv_queue.cap - length (contents bt s.recv_queue) in
        let (moved, rest) = deliver room s.next_recv (contents bt s.recv_buf) in
        Delivered bt cc s moved rest s' → Moved lo s s'
  moved_by lo s s' v d =
      let buf = contents bt s.recv_buf in
      let room = s.recv_queue.cap - length (contents bt s.recv_queue) in
      let moved = (deliver room s.next_recv buf).0 in
      let numbered : Consecutive s.next_recv moved s'.next_recv =
        rw d.next (deliver-Consecutive room s.next_recv buf) in
      let size =
        ap (λ (l : List Segment). length l) d.queue
        ∙ length-append {0} (contents bt s.recv_queue) moved in
      record {
        receiving = record {
          queue =
              rw d.queue (Consecutive-append lo s.next_recv s'.next_recv _ moved v.queue numbered);
          bounded = omega (arith, size, length-deliver room s.next_recv buf, v.bounded, d.cap);
          capacity = d.cap ∙ v.capacity;
          buf_capacity = d.buf_cap ∙ v.buf_capacity;
        };
        moved = moved;
        rest_queue = d.queue;
        numbered = numbered;
        complete =
            rw (d.buf, d.next)
              (ground (arith, size, deliver_complete room s.next_recv buf, v.bounded, v.capacity));
        left = rw (d.buf, d.next) (deliver_split room s.next_recv buf);
      }

  -- The loop ends with no error, and what it has done is described by `Moved`.
  pub move_to_queue :
      (lo : ℕ) (s : Session bt cc)
      → Receiving lo s
      → s.next_recv + length (contents bt s.recv_buf) < 2 ^ 32
      → (s' : Session bt cc) × (move_recv_buf_to_recv_queue bt cc s ≡ done s') × Moved lo s s'
  unfolding move_recv_buf_to_recv_queue
  move_to_queue lo s v n =
      let buf = contents bt s.recv_buf in
      let room = s.recv_queue.cap - length (contents bt s.recv_queue) in
      let (s', run, d) =
        move_loop-Delivered bt cc (suc (len bt s.recv_buf)) s lo room buf refl
          (omega (arith, v.bounded)) (omega (arith, len-contents bt s.recv_buf)) v.queue n in
      (s', run, moved_by lo s s' v d)

  -- From a session whose receive queue holds consecutive sequence numbers up to the expected one,
  -- within the capacities of 4096, and whose receive buffer is in the order of the sequence numbers,
  -- `moveRecvBufToRecvQueue` ends with no error, if no number wraps: it appends to the queue segments
  -- that carry the expected numbers one after the other, and takes nothing out of the buffer but
  -- segments below the new expected number. It stops only when the queue holds 4096 segments or every
  -- segment left in the buffer is beyond the expected number.
  pub move_in_order :
      (lo : ℕ) (s : Session bt cc)
      → Receiving lo s
      → s.next_recv + length (contents bt s.recv_buf) < 2 ^ 32
      → Ascending (contents bt s.recv_buf)
      → (s' : Session bt cc) × (move_recv_buf_to_recv_queue bt cc s ≡ done s')
        × Moved lo s s'
        × ((length (contents bt s'.recv_queue) ≡ segment_tree_capacity)
            ⊎ All (λ x. s'.next_recv < seq_of x) (contents bt s'.recv_buf))
  move_in_order lo s v n a =
      let (s', run, m) = move_to_queue lo s v n in
      let (out, split, below) = m.left in
      let rest = Ascending-rest out (contents bt s'.recv_buf) (subst Ascending split a) in
      (
        s',
        run,
        m,
        elim m.complete [
          | inl full ↦ inl full
          | inr ahead ↦ inr (Ahead-Ascending s'.next_recv (contents bt s'.recv_buf) ahead rest)
        ],
      )
