-- ===== src/Protocol/Session/Receive/Packet.antt =====
-- `inputData` on the packet transport keeps the receive side in order, and never waits.
use mieru.Common.{
  ℕ, zero, suc, ◌+◌, ◌^◌, ◌<◌, ◌≡◌, refl, ap, ◌∙◌, true, false, List, ltb, ◌==◌, arith, length, inl,
  inr, ◌⊎◌, Option-cases, Bool-cases,
}
use mieru.Protocol.Metadata.{Metadata, session, data_ack}
use mieru.Protocol.Segment.{Segment, BTree, seq_of}
use mieru.Protocol.Segment.Tree.{contents, insert, delete_min_if, len}
use mieru.Protocol.Segment.Tree.Laws.{len-contents, contents-insert, length-insert_in_order}
use mieru.Protocol.Session.{Session, Congestion, request_packet_ack, receive_window_size}
use mieru.Protocol.Session.Receive.{
  done, returned, drop_acked, accept_ack, acked, accept_piggybacked, receive_packet, wake_if_queued,
  prepare_packet, store_packet,
}
use mieru.Protocol.Session.Receive.InOrder.{Receiving, move_to_queue}

module _ (bt : BTree) (cc : Congestion) where
  -- The receive side of two sessions is the same.
  pub record SameReceive (s s' : Session bt cc) : Type 0 where
    pub queue : s'.recv_queue ≡ s.recv_queue
    pub buf : s'.recv_buf ≡ s.recv_buf
    pub next : s'.next_recv ≡ s.next_recv

  pub drop_acked-SameReceive :
      (fuel now un : ℕ) (s : Session bt cc) → SameReceive s (drop_acked bt cc fuel now un s)
  unfolding drop_acked
  drop_acked-SameReceive zero now un s = record { queue = refl; buf = refl; next = refl }
  drop_acked-SameReceive (suc fuel) now un s =
      let (r, buf) = delete_min_if bt s.send_buf (λ seg. ltb (seq_of seg) un) in
      elim (Option-cases r) [
        | inl e ↦ rw (e, drop_acked) (record { queue = refl; buf = refl; next = refl })
        | inr ((seg, false), e) ↦
            rw (e, drop_acked) (record { queue = refl; buf = refl; next = refl })
        | inr ((seg, true), e) ↦
            let ih =
              drop_acked-SameReceive fuel now un
                (acked bt cc now seg (record s { send_buf = buf })) in
            rw (e, drop_acked) (record { queue = ih.queue; buf = ih.buf; next = ih.next })
      ]

  ack_same :
      (now : ℕ) (s t : Session bt cc)
      → SameReceive s t
      → SameReceive s (request_packet_ack bt cc now (wake_if_queued bt cc t))
  unfolding request_packet_ack
  ack_same now s t e = ground arith

  prepare-SameReceive :
      (now : ℕ) (seg : Segment) (s : Session bt cc) → SameReceive s (prepare_packet bt cc now seg s)
  unfolding accept_ack
  prepare-SameReceive now seg s = prepare_cases seg.metadata
    where
      prepare_cases :
          (m : Metadata)
          → SameReceive s (
              request_packet_ack bt cc now
                (wake_if_queued bt cc (accept_piggybacked bt cc now m s)))
      prepare_cases (session ss) = ack_same now s _ (ground arith)
      prepare_cases (data_ack das) =
          ack_same now s _
            (ground (arith, drop_acked-SameReceive (suc (len bt s.send_buf)) now das.un_ack_seq s))

  ack_request_same : (now : ℕ) (s : Session bt cc) → SameReceive s (request_packet_ack bt cc now s)
  unfolding request_packet_ack
  ack_request_same now s = ground arith

  Receiving-Same :
      (lo : ℕ) (s t : Session bt cc) → SameReceive s t → Receiving bt cc lo s → Receiving bt cc lo t
  Receiving-Same lo s t e v = record {
    queue = rw (e.queue, e.next) v.queue;
    bounded = rw e.queue v.bounded;
    capacity = rw e.queue v.capacity;
    buf_capacity = rw e.buf v.buf_capacity;
  }

  -- Where the segment has been put into the receive buffer
  module _ (now lo : ℕ) (seg : Segment) (s : Session bt cc) (v : Receiving bt cc lo s)
      (n : s.next_recv + length (contents bt s.recv_buf) + 1 < 2 ^ 32) where
    abbrev stored : Session bt cc
    stored = record s { recv_buf = (insert bt s.recv_buf seg).1 }

    abbrev room : ℕ
    room = receive_window_size bt cc s

    fits_when_room :
        0 < room
        → ((insert bt s.recv_buf seg).0 ≡ true)
          × Receiving bt cc lo stored
          × (stored.next_recv + length (contents bt stored.recv_buf) < 2 ^ 32)
    fits_when_room h =
        let small : length (contents bt s.recv_buf) < s.recv_buf.cap =
          omega (arith, len-contents bt s.recv_buf, len-contents bt s.recv_queue, v.buf_capacity) in
        let (fits, put, cap) = contents-insert bt s.recv_buf seg small in
        (
          fits,
          record {
            queue = v.queue;
            bounded = v.bounded;
            capacity = v.capacity;
            buf_capacity = cap ∙ v.buf_capacity;
          },
          omega (
            arith,
            ap (λ (l : List Segment). length l) put,
            length-insert_in_order seg (contents bt s.recv_buf),
          ),
        )

    store_in_order :
        (s' : Session bt cc) × ((store_packet bt cc now seg s ≡ done s')
          ⊎ (store_packet bt cc now seg s ≡ returned s'))
        × Receiving bt cc lo s'
    unfolding store_packet
    store_in_order = elim (Bool-cases (room == 0)) [
      | inl z ↦ (s, inr (ground arith), v)
      | inr p ↦
          let (fits, vt, nt) = fits_when_room (ground arith) in
          elim (Bool-cases s.closed) [
            | inl c ↦ (
              request_packet_ack bt cc now stored,
              inl (ground (arith, fits)),
              Receiving-Same lo stored _ (ack_request_same now stored) vt,
            )
            | inr o ↦
                let (s', run, m) = move_to_queue bt cc lo stored vt nt in
                (
                  request_packet_ack bt cc now s',
                  inl (
                      ground (
                        arith,
                        fits,
                        run,
                        len-contents bt s.recv_buf,
                        len-contents bt s.recv_queue,
                        v.capacity,
                      )),
                  Receiving-Same lo s' _ (ack_request_same now s') m.receiving,
                )
          ]
    ]

  -- The segment goes into the receive buffer, and what is due goes on to the queue: the session stays
  -- in order. The method ends, with or without the segment; it neither fails nor waits for room.
  pub receive_packet_in_order :
      (now lo : ℕ) (seg : Segment) (s : Session bt cc)
      → Receiving bt cc lo s
      → s.next_recv + length (contents bt s.recv_buf) + 1 < 2 ^ 32
      → (s' : Session bt cc) × ((receive_packet bt cc now seg s ≡ done s')
          ⊎ (receive_packet bt cc now seg s ≡ returned s'))
        × Receiving bt cc lo s'
  unfolding receive_packet
  receive_packet_in_order now lo seg s v n =
      let same = prepare-SameReceive now seg s in
      store_in_order now lo seg (prepare_packet bt cc now seg s) (Receiving-Same lo s _ same v)
        (rw (same.next, same.buf) n)
