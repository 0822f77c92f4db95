-- ===== src/Protocol/Session/Read/Stream.antt =====
-- What `Read` delivers.
use mieru.Common.{
  take-append, drop-append, take-all, drop-all, ℕ, zero, suc, ◌+◌, ◌-◌, ◌≤◌, ◌<◌, ◌≡◌, refl, sym,
  ap, ◌∙◌, inl, inr, true, List, [], ◌∷◌, ◌++◌, ltb, Result, ok, length, take, drop, length-append,
  length-take, List-cases, Bool-cases, arith,
}
use mathlib.Core.List.{append-nil, append_assoc}
use mieru.Protocol.Segment.{Segment, BTree}
use mieru.Protocol.Segment.Tree.{contents, len, delete_min}
use mieru.Protocol.Segment.Tree.Laws.{len-contents, delete_min-cons}
use mieru.Protocol.Session.{Session, Congestion}
use mieru.Protocol.Session.Read.{ReadError, read, read_loop, opened}
use mieru.Protocol.Session.Send.Fragments.{bytes_of}

module _ (bt : BTree) (cc : Congestion) where
  -- The bytes that are ready: what was left unread, and what the receive queue holds.
  abbrev pub ready : Session bt cc → List ℕ
  ready s = s.unread_buf ++ bytes_of (contents bt s.recv_queue)

  -- The unread bytes fill the buffer.
  read_loop-unread :
      (fuel room : ℕ) (acc : List ℕ) (s : Session bt cc)
      → 1 ≤ room
      → room ≤ length s.unread_buf
      → read_loop bt cc (suc fuel) room acc s
        ≡ ok (acc ++ take room s.unread_buf, record s { unread_buf = drop room s.unread_buf })
  unfolding read_loop
  read_loop-unread fuel room acc s pos h = ground (arith, length-take {0} room s.unread_buf)

  read_loop-empty :
      (fuel room : ℕ) (acc : List ℕ) (s : Session bt cc)
      → length s.unread_buf < room
      → contents bt s.recv_queue ≡ []
      → 1 ≤ length acc + length s.unread_buf
      → read_loop bt cc (suc fuel) room acc s
        ≡ ok (acc ++ s.unread_buf, record s { unread_buf = [] })
  unfolding read_loop
  read_loop-empty fuel room acc s h e some_bytes =
      rw (take-all room s.unread_buf (omega arith), drop-all room s.unread_buf (omega arith))
        (ground (
          arith,
          len-contents bt s.recv_queue,
          ap (λ (l : List Segment). length l) e,
          length-append {0} acc s.unread_buf,
        ))

  -- The session after the first segment was taken.
  abbrev after_pull : ℕ → Segment → Session bt cc → Session bt cc
  after_pull room x s = record (opened bt cc x (record s { unread_buf = [] })) {
    recv_queue = (delete_min bt s.recv_queue).1;
    unread_buf = drop (room - length s.unread_buf) x.payload;
  }

  module _ (fuel room : ℕ) (acc : List ℕ) (s : Session bt cc) (x : Segment) (xs : List Segment)
      (small : length s.unread_buf < room) (e : contents bt s.recv_queue ≡ x ∷ xs) where
    read_loop-full :
        room - length s.unread_buf ≤ length x.payload
        → read_loop bt cc (suc fuel) room acc s
          ≡ ok (
            (acc ++ s.unread_buf) ++ take (room - length s.unread_buf) x.payload,
            after_pull room x s,
          )
    unfolding read_loop
    read_loop-full h =
        rw
          (
            (delete_min-cons bt s.recv_queue (λ _. true) x xs e).0,
            take-all room s.unread_buf (omega arith),
            drop-all room s.unread_buf (omega arith),
          )
          (ground (
            arith,
            len-contents bt s.recv_queue,
            ap (λ (l : List Segment). length l) e,
            length-take {0} (room - length s.unread_buf) x.payload,
          ))

    read_loop-more :
        length x.payload < room - length s.unread_buf
        → read_loop bt cc (suc fuel) room acc s
          ≡ read_loop bt cc fuel
              (room - length s.unread_buf - length x.payload)
              ((acc ++ s.unread_buf) ++ x.payload)
              (after_pull room x s)
    unfolding read_loop
    read_loop-more h =
        rw
          (
            (delete_min-cons bt s.recv_queue (λ _. true) x xs e).0,
            take-all room s.unread_buf (omega arith),
            drop-all room s.unread_buf (omega arith),
            take-all (room - length s.unread_buf) x.payload (omega arith),
          )
          (ground (arith, len-contents bt s.recv_queue, ap (λ (l : List Segment). length l) e))

  -- `room` bytes, or all, of what was ready have been added, and the rest is still ready.
  abbrev Delivers : ℕ → List ℕ → Session bt cc → Result ReadError (List ℕ × Session bt cc) → Type 0
  Delivers room acc s r =
      (s' : Session bt cc) × (r ≡ ok (acc ++ take room (ready s), s'))
      × (ready s' ≡ drop room (ready s))

  Delivers-unread :
      (fuel room : ℕ) (acc : List ℕ) (s : Session bt cc)
      → 1 ≤ room
      → room ≤ length s.unread_buf
      → Delivers room acc s (read_loop bt cc (suc fuel) room acc s)
  Delivers-unread fuel room acc s pos h =
      let u = s.unread_buf in
      let q = bytes_of (contents bt s.recv_queue) in
      let none_more : room - length u ≡ 0 = omega arith in
      (
        record s { unread_buf = drop room u },
        rw (take-append room u q, none_more, append-nil (take room u))
            (read_loop-unread fuel room acc s pos h),
        rw (drop-append room u q, none_more) refl,
      )

  Delivers-empty :
      (fuel room : ℕ) (acc : List ℕ) (s : Session bt cc)
      → length s.unread_buf < room
      → contents bt s.recv_queue ≡ []
      → 1 ≤ length acc + length (ready s)
      → Delivers room acc s (read_loop bt cc (suc fuel) room acc s)
  Delivers-empty fuel room acc s h e some_bytes =
      let u = s.unread_buf in
      let all : ready s ≡ u = rw e (append-nil u) in
      (
        record s { unread_buf = [] },
        rw (all, take-all room u (omega arith))
            (read_loop-empty fuel room acc s h e (rw all at some_bytes)),
        rw (all, drop-all room u (omega arith), e) refl,
      )

  Delivers-full :
      (fuel room : ℕ) (acc : List ℕ) (s : Session bt cc) (x : Segment) (xs : List Segment)
      → length s.unread_buf < room
      → contents bt s.recv_queue ≡ x ∷ xs
      → room - length s.unread_buf ≤ length x.payload
      → Delivers room acc s (read_loop bt cc (suc fuel) room acc s)
  Delivers-full fuel room acc s x xs small e h =
      let u = s.unread_buf in
      let more = room - length u in
      let done : more - length x.payload ≡ 0 = omega arith in
      (
        after_pull room x s,
        rw
            (
              e,
              take-append room u (x.payload ++ bytes_of xs),
              take-all room u (omega arith),
              take-append more x.payload (bytes_of xs),
              done,
              append-nil (take more x.payload),
              sym (append_assoc acc u (take more x.payload)),
            )
            (read_loop-full fuel room acc s x xs small e h),
        rw
            (
              e,
              (delete_min-cons bt s.recv_queue (λ _. true) x xs e).1,
              drop-append room u (x.payload ++ bytes_of xs),
              drop-all room u (omega arith),
              drop-append more x.payload (bytes_of xs),
              done,
            )
            refl,
      )

  ready-after_pull :
      (room : ℕ) (s : Session bt cc) (x : Segment) (xs : List Segment)
      → contents bt s.recv_queue ≡ x ∷ xs
      → length x.payload < room - length s.unread_buf
      → ready (after_pull room x s) ≡ bytes_of xs
  ready-after_pull room s x xs e h =
      rw
        (
          (delete_min-cons bt s.recv_queue (λ _. true) x xs e).1,
          drop-all (room - length s.unread_buf) x.payload (omega arith),
        )
        refl

  Delivers-more :
      (fuel room : ℕ) (acc : List ℕ) (s : Session bt cc) (x : Segment) (xs : List Segment)
      → length s.unread_buf < room
      → contents bt s.recv_queue ≡ x ∷ xs
      → length x.payload < room - length s.unread_buf
      → let room' = room - length s.unread_buf - length x.payload in
        let acc' = (acc ++ s.unread_buf) ++ x.payload in
        Delivers room' acc'
          (after_pull room x s)
          (read_loop bt cc fuel room' acc' (after_pull room x s))
        → Delivers room acc s (read_loop bt cc (suc fuel) room acc s)
  Delivers-more fuel room acc s x xs small e h (s', run, left) =
      let u = s.unread_buf in
      let p = x.payload in
      let more = room - length u in
      let rest = ready-after_pull room s x xs e h in
      let joined =
        append_assoc (acc ++ u) p (take (more - length p) (bytes_of xs))
        ∙ append_assoc acc u (p ++ take (more - length p) (bytes_of xs)) in
      (
        s',
        rw
            (
              e,
              take-append room u (p ++ bytes_of xs),
              take-all room u (omega arith),
              take-append more p (bytes_of xs),
              take-all more p (omega arith),
              sym joined,
            )
            (read_loop-more fuel room acc s x xs small e h ∙ (rw rest at run)),
        rw
            (
              e,
              drop-append room u (p ++ bytes_of xs),
              drop-all room u (omega arith),
              drop-append more p (bytes_of xs),
              drop-all more p (omega arith),
            )
            (rw rest at left),
      )

  ready_bytes :
      (room : ℕ) (acc : List ℕ) (s : Session bt cc) (x : Segment) (xs : List Segment)
      → contents bt s.recv_queue ≡ x ∷ xs
      → length s.unread_buf < room
      → length x.payload < room - length s.unread_buf
      → 1 ≤ length acc + length (ready s)
      → 1 ≤ length ((acc ++ s.unread_buf) ++ x.payload) + length (ready (after_pull room x s))
  ready_bytes room acc s x xs e small h some_bytes =
      let all : ready s ≡ s.unread_buf ++ (x.payload ++ bytes_of xs) = rw e refl in
      rw (ready-after_pull room s x xs e h) (
        omega (
          arith,
          rw all at some_bytes,
          length-append {0} s.unread_buf (x.payload ++ bytes_of xs),
          length-append {0} x.payload (bytes_of xs),
          length-append {0} (acc ++ s.unread_buf) x.payload,
          length-append {0} acc s.unread_buf,
        ))

  read_loop_lem :
      (fuel room : ℕ) (acc : List ℕ) (s : Session bt cc)
      → length (contents bt s.recv_queue) < fuel
      → 1 ≤ room
      → 1 ≤ length acc + length (ready s)
      → Delivers room acc s (read_loop bt cc fuel room acc s)
  read_loop_lem zero room acc s n pos some_bytes = absurd (omega arith)
  read_loop_lem (suc fuel) room acc s n pos some_bytes =
      elim (Bool-cases (ltb (length s.unread_buf) room)) [
        | inl small ↦ elim (List-cases (contents bt s.recv_queue)) [
          | inl e ↦ Delivers-empty fuel room acc s (ground arith) e some_bytes
          | inr (x, xs, e) ↦
              elim (Bool-cases (ltb (length x.payload) (room - length s.unread_buf))) [
                | inl more ↦
                    let len = ap (λ (l : List Segment). length l) e in
                    let len' =
                      ap (λ (l : List Segment). length l)
                        (delete_min-cons bt s.recv_queue (λ _. true) x xs e).1 in
                    Delivers-more fuel room acc s x xs (ground arith) e (ground arith) (
                      read_loop_lem fuel (room - length s.unread_buf - length x.payload)
                        ((acc ++ s.unread_buf) ++ x.payload) (after_pull room x s)
                        (omega (arith, n, len, len')) (ground arith)
                        (ready_bytes room acc s x xs e (ground arith) (ground arith) some_bytes))
                | inr full ↦ Delivers-full fuel room acc s x xs (ground arith) e (ground arith)
              ]
        ]
        | inr enough ↦ Delivers-unread fuel room acc s pos (ground arith)
      ]

  -- If bytes are ready, `Read` into a buffer that is not empty never waits or fails: it delivers the
  -- ready bytes in order, as many as fit the buffer or all of them, and exactly the others stay ready
  -- for the next call.
  pub read_delivers :
      (size : ℕ) (s : Session bt cc)
      → 1 ≤ size
      → 1 ≤ length (ready s)
      → (s' : Session bt cc) × (read bt cc size s ≡ ok (take size (ready s), s'))
        × (ready s' ≡ drop size (ready s))
  unfolding read
  read_delivers size s pos some_bytes =
      let (s', run, left) =
        read_loop_lem (suc (len bt s.recv_queue)) size [] s
          (omega (arith, len-contents bt s.recv_queue)) pos (omega (arith, some_bytes)) in
      (s', ground (arith, run), left)
