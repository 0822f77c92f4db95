-- ===== src/Protocol/Session/Receive/Acks.antt =====
-- `inputAck`: what an acknowledgement does to the segments that wait for one.
use mieru.Common.{
  ℕ, zero, suc, ◌+◌, ◌%◌, ◌^◌, ◌<◌, ◌≡◌, refl, List, [], ◌∷◌, ltb, ◌==◌, if◌then◌else◌, arith, All,
  length, inl, inr, Bool-cases, order_cases,
}
use mieru.Protocol.Metadata.{DataAckStruct}
use mieru.Protocol.Segment.{Segment, BTree, packet_transport, seq_of, visit}
use mieru.Protocol.Segment.Tree.{contents, delete_min_if, len}
use mieru.Protocol.Segment.Tree.Laws.{
  len-contents, delete_min_if-nil, delete_min_if-hit, delete_min_if-miss, contents-ascend,
}
use mieru.Protocol.Session.Receive.Packet.{SameReceive, drop_acked-SameReceive}
use mieru.Protocol.Session.{Session, Congestion}
use mieru.Protocol.Session.Receive.{
  done, drop_acked, accept_ack, acked, acknowledge, input_ack, count_ack,
}

-- The segments that an acknowledgement of all below `un_ack_seq` leaves.
abbrev pub unacked : ℕ → List Segment → List Segment
unacked un_ack_seq [] = []
unacked un_ack_seq (x ∷ xs) = if ltb (seq_of x) un_ack_seq then unacked un_ack_seq xs else x ∷ xs

-- The sequence numbers rise.
abbrev pub Ascending : List Segment → Type 0
Ascending [] = Unit {0}
Ascending (x ∷ xs) = All (λ y. seq_of x < seq_of y) xs × Ascending xs

-- The acknowledged number itself counts one more request for it.
abbrev pub counted : ℕ → List Segment → List Segment
counted un_ack_seq [] = []
counted un_ack_seq (x ∷ xs) =
    (if seq_of x == un_ack_seq then record x { ack_count = (x.ack_count + 1) % 2 ^ 8 } else x) ∷ xs

module _ (bt : BTree) (cc : Congestion) where
  visit_above :
      (un : ℕ) (xs : List Segment)
      → All (λ y. un < seq_of y) xs
      → visit (count_ack bt cc un) xs ≡ xs
  visit_above un [] h = refl
  visit_above un (x ∷ xs) h = ground arith

  visit-count_ack :
      (un : ℕ) (xs : List Segment)
      → Ascending xs
      → visit (count_ack bt cc un) (unacked un xs) ≡ counted un (unacked un xs)
  visit-count_ack un [] a = refl
  visit-count_ack un (x ∷ xs) a = elim (order_cases (seq_of x) un) [
    | inl lt ↦ ground (arith, visit-count_ack un xs a.1)
    | inr (inl eq) ↦
        let above : All (λ y. un < seq_of y) xs = rw eq at a.0 in
        ground (arith, visit_above un xs above)
    | inr (inr gt) ↦ ground arith
  ]

  contents-drop_acked :
      (fuel now un : ℕ) (s : Session bt cc) (xs : List Segment)
      → contents bt s.send_buf ≡ xs
      → length xs < fuel
      → contents bt (drop_acked bt cc fuel now un s).send_buf ≡ unacked un xs
  unfolding drop_acked
  contents-drop_acked zero now un s xs e h = absurd (omega arith)
  contents-drop_acked (suc fuel) now un s [] e h =
      ground (arith, delete_min_if-nil bt s.send_buf (λ seg. ltb (seq_of seg) un) e)
  contents-drop_acked (suc fuel) now un s (x ∷ xs) e h = elim (Bool-cases (ltb (seq_of x) un)) [
    | inl old ↦
        let (r, buf) = delete_min_if bt s.send_buf (λ seg. ltb (seq_of seg) un) in
        let t = acked bt cc now x (record s { send_buf = buf }) in
        let (hit, left, _) =
          delete_min_if-hit bt s.send_buf (λ seg. ltb (seq_of seg) un) x xs e old in
        rw (hit, drop_acked, old) (contents-drop_acked fuel now un t xs left (omega arith))
    | inr new ↦
        ground (arith, delete_min_if-miss bt s.send_buf (λ seg. ltb (seq_of seg) un) x xs e new)
  ]

  -- On the packet transport an acknowledgement takes the segments below its number off the send
  -- buffer and keeps all others, counts the request for the segment of that number itself, sets the
  -- remote window, and leaves the receive side alone.
  pub input_ack_packet :
      (now : ℕ) (das : DataAckStruct) (s : Session bt cc)
      → s.transport ≡ packet_transport
      → Ascending (contents bt s.send_buf)
      → (s' : Session bt cc) × (input_ack bt cc now das s ≡ done s')
        × (contents bt s'.send_buf
            ≡ counted das.un_ack_seq (unacked das.un_ack_seq (contents bt s.send_buf)))
        × (s'.remote_window_size ≡ das.window_size)
        × SameReceive bt cc s s'
  unfolding input_ack accept_ack
  input_ack_packet now das s tr a =
      let fuel = suc (len bt s.send_buf) in
      let t = acknowledge bt cc now das s in
      let left =
        contents-drop_acked fuel now das.un_ack_seq s (contents bt s.send_buf) refl
          (omega (arith, len-contents bt s.send_buf)) in
      let same = drop_acked-SameReceive bt cc fuel now das.un_ack_seq s in
      (
        t,
        rw tr refl,
        ground (
          arith,
          left,
          contents-ascend bt (drop_acked bt cc fuel now das.un_ack_seq s).send_buf
              (count_ack bt cc das.un_ack_seq),
          visit-count_ack das.un_ack_seq (contents bt s.send_buf) a,
        ),
        ground arith,
        ground (arith, same),
      )
