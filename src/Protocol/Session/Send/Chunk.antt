-- ===== src/Protocol/Session/Send/Chunk.antt =====
-- `writeChunk` as a whole: what it queues, and that its wait for the queue ends.
use mieru.Common.{
  ℕ, ◌+◌, ◌^◌, ◌≤◌, ◌<◌, ◌≡◌, refl, true, none, List, [], ◌∷◌, ok, length, arith, inl, inr,
  Bool-cases,
}
use mieru.Protocol.Segment.{BTree}
use mieru.Protocol.Segment.FragmentSize.{max_fragment_size, max_pdu}
use mieru.Protocol.Segment.Tree.{SegmentTree, contents, min_seq}
use mieru.Protocol.Segment.Tree.Laws.{len-contents}
use mieru.Protocol.Session.{Session, Congestion}
use mieru.Protocol.Session.Send.{
  low_entropy_send_config, fragment_count, mode_of, write_chunk, wait_round, wait_moving,
  seq_or_zero,
}
use mieru.Protocol.Session.Send.Fragments.{
  Sending, CanEncode, Wrote, write_fragments_lem, low_entropy_part, Fills-fragment_count,
}

module _ (bt : BTree) (cc : Congestion) where
  abbrev pub after_others : List (Session bt cc → Session bt cc) → Session bt cc → Session bt cc
  after_others [] s = s
  after_others (f ∷ fs) s = after_others fs (f s)

  min_seq-nil : (t : SegmentTree bt) → contents bt t ≡ [] → min_seq bt t ≡ none
  unfolding min_seq
  min_seq-nil t e = rw (bt.min_item-nil t.tr e, min_seq) refl

  round_empty :
      (before : ℕ) (s : Session bt cc)
      → contents bt s.send_queue ≡ []
      → (wait_round bt cc before s).0 ≡ true
  unfolding wait_round
  round_empty before s e = elim (Bool-cases s.send_queue.empty_event) [
    | inl event ↦ rw event refl
    | inr no_event ↦ rw (min_seq-nil s.send_queue e, no_event) refl
  ]

  -- The wait is over at the latest when the others have emptied the queue.
  wait_ends :
      (others : List (Session bt cc → Session bt cc)) (before : ℕ) (s : Session bt cc)
      → contents bt (after_others others s).send_queue ≡ []
      → (t : Session bt cc) × (wait_moving bt cc others before s ≡ ok t)
  unfolding wait_moving
  wait_ends [] before s e = ((wait_round bt cc before s).1, rw (round_empty before s e) refl)
  wait_ends (f ∷ fs) before s e = elim (Bool-cases (wait_round bt cc before s).0) [
    | inl over ↦ ((wait_round bt cc before s).1, rw over refl)
    | inr wait ↦ let (t, run) = wait_ends fs before (f s) e in (t, rw wait run)
  ]

  -- With the send queue in order, room for the fragments and one slot left over, and numbers that do
  -- not wrap, `writeChunk` of 1 to 32768 bytes, without a write deadline, queues as many segments as
  -- it counted, which carry the data in order under consecutive sequence numbers, with fragment
  -- numbers down to 0 and no fragment above the size. It then waits for the queue, and if the other
  -- goroutines have emptied that in the end, whatever the session, it returns the number of bytes.
  pub write_chunk_lem :
      (others : List (Session bt cc → Session bt cc)) (lo size : ℕ) (b : List ℕ) (s : Session bt cc)
      → let low = low_entropy_send_config bt cc s in
        let count = fragment_count (length b) size in
        ((t : Session bt cc) → contents bt (after_others others t).send_queue ≡ [])
        → Sending bt cc lo s
        → CanEncode bt cc s low
        → max_fragment_size s.mtu s.transport (mode_of low) ≡ ok size
        → 1 ≤ size
        → 1 ≤ length b
        → length b ≤ max_pdu
        → length (contents bt s.send_queue) + count < s.send_queue.cap
        → s.next_send + count < 2 ^ 32
        → (s' : Session bt cc) × (t : Session bt cc) × Wrote bt cc lo size count b s s'
          × (wait_moving bt cc others (seq_or_zero bt cc (min_seq bt s.send_queue)) s' ≡ ok t)
          × (write_chunk bt cc others b s ≡ ok (length b, t))
  unfolding write_chunk
  write_chunk_lem others lo size b s drained v c e pos some_bytes fits room n =
      let low = low_entropy_send_config bt cc s in
      let count = fragment_count (length b) size in
      let (s', run, w) =
        write_fragments_lem bt cc count size lo low b s
          (λ len. low_entropy_part bt cc s low size len c e) pos v
          (Fills-fragment_count bt cc (length b) size some_bytes pos) (omega arith) n in
      let (t, waited) =
        wait_ends others (seq_or_zero bt cc (min_seq bt s.send_queue)) s' (drained s') in
      (s', t, w, waited, ground (arith, len-contents bt s.send_queue, v, e, run, waited))
