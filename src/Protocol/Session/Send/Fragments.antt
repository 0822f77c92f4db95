-- ===== src/Protocol/Session/Send/Fragments.antt =====
-- The fragments of one `writeChunk` are the data, in order.
use mieru.Common.{
  ℕ, zero, suc, ◌+◌, ◌-◌, ◌*◌, ◌/◌, ◌%◌, ◌^◌, ◌≤◌, ◌<◌, ◌≡◌, ◌≢◌, refl, sym, ap, ◌∙◌, false, Option,
  none, some, List, [], ◌∷◌, ◌++◌, ltb, ok, arith, All, length, length-append, length-take,
  length-drop, take-append-drop, take, drop, inl, inr, Bool-cases,
}
use mathlib.Core.List.{append-nil, append_assoc}
use native.Mathlib.Nat.{mod-lt, div-add-mod}
use native.Mathlib.Numerals.{add-one}
use mieru.Mathext.Numbers.{min_num}
use mieru.Protocol.Metadata.{Metadata, session, data_ack}
use mieru.Protocol.LowEntropy.Params.{mode_off, low_entropy_encoded_payload_len}
use mieru.Protocol.Segment.{
  Segment, BTree, Transport, unknown_transport, stream_transport, packet_transport, seq_of,
}
use mieru.Protocol.Segment.FragmentSize.{
  max_fragment_size, encoded_fragment_fits, encoded_stream_fragment,
}
use mieru.Protocol.Segment.Tree.{contents, insert}
use mieru.Protocol.Segment.Tree.Laws.{contents-insert, insert_in_order-last}
use mieru.Protocol.Session.{Session, Congestion}
use mieru.Protocol.Session.Receive.Deliver.{Consecutive, Consecutive-below, Consecutive-snoc}
use mieru.Protocol.Session.Send.{
  make_fragment, plain_data, low_entropy_data, queue_segment, write_fragments, mode_of,
  fragment_count,
}

-- The bytes that a list of segments carries.
abbrev pub bytes_of : List Segment → List ℕ
bytes_of [] = []
bytes_of (x ∷ xs) = x.payload ++ bytes_of xs

abbrev pub fragment_of : Metadata → ℕ
fragment_of (session ss) = 0
fragment_of (data_ack das) = das.fragment

-- The fragment numbers count down to 0.
abbrev pub CountDown : ℕ → List Segment → Type 0
CountDown zero [] = Unit {0}
CountDown zero (x ∷ xs) = ⊥
CountDown (suc i) [] = ⊥
CountDown (suc i) (x ∷ xs) = (fragment_of x.metadata ≡ i % 2 ^ 8) × CountDown i xs

module _ (bt : BTree) (cc : Congestion) where
  -- The send queue holds consecutive numbers up to the next one to use; the session can write.
  pub record Sending (lo : ℕ) (s : Session bt cc) : Type 0 where
    pub queue : Consecutive lo (contents bt s.send_queue) s.next_send
    pub is_open : s.closed ≡ false
    pub no_err : s.output_has_err ≡ false

  -- `n` segments were queued that carry `b`, each with at most `size` bytes.
  pub record Wrote (lo size n : ℕ) (b : List ℕ) (s s' : Session bt cc) : Type 0 where
    pub sending : Sending lo s'
    pub segments : List Segment
    pub queued : contents bt s'.send_queue ≡ contents bt s.send_queue ++ segments
    pub carried : bytes_of segments ≡ b
    pub numbered : Consecutive s.next_send segments s'.next_send
    pub counted : CountDown n segments
    pub small : All (λ (x : Segment). length x.payload ≤ size) segments
    pub cap : s'.send_queue.cap ≡ s.send_queue.cap

  queue_segment_lem :
      (lo : ℕ) (seg : Segment) (s : Session bt cc)
      → Sending lo s
      → seq_of seg ≡ s.next_send
      → length (contents bt s.send_queue) < s.send_queue.cap
      → s.next_send + 1 < 2 ^ 32
      → (s' : Session bt cc) × (queue_segment bt cc seg s ≡ ok s')
        × Sending lo s'
        × (contents bt s'.send_queue ≡ contents bt s.send_queue ++ (seg ∷ []))
        × (s'.next_send ≡ suc s.next_send)
        × (s'.send_queue.cap ≡ s.send_queue.cap)
  unfolding queue_segment
  queue_segment_lem lo seg s v e room n =
      let below = (Consecutive-below lo s.next_send (contents bt s.send_queue) v.queue).1 in
      let (fits, put, cap) = contents-insert bt s.send_queue seg room in
      let last = put ∙ insert_in_order-last seg (contents bt s.send_queue) (rw (sym e) at below) in
      let s' = record s {
        send_queue = (insert bt s.send_queue seg).1;
        next_send = (s.next_send + 1) % 2 ^ 32;
      } in
      let next : s'.next_send ≡ suc s.next_send = omega arith in
      (
        s',
        rw fits refl,
        record {
          queue =
              rw (last, next)
                (Consecutive-snoc lo s.next_send (contents bt s.send_queue) seg v.queue e);
          is_open = v.is_open;
          no_err = v.no_err;
        },
        last,
        next,
        cap,
      )

  abbrev Encodes : Option (ℕ × ℕ) → ℕ → Type 0
  Encodes none len = Unit {0}
  Encodes (some (mode, rotation)) len = (k : ℕ) × (low_entropy_encoded_payload_len len mode ≡ ok k)

  make_fragment_lem :
      (s : Session bt cc) (low : Option (ℕ × ℕ)) (i : ℕ) (part : List ℕ)
      → Encodes low (length part)
      → (seg : Segment) × (make_fragment bt cc s low i part ≡ ok seg)
        × (seq_of seg ≡ s.next_send)
        × (seg.payload ≡ part)
        × (fragment_of seg.metadata ≡ i % 2 ^ 8)
  unfolding make_fragment
  make_fragment_lem s none i part h = (plain_data bt cc s i part, refl, refl, refl, refl)
  make_fragment_lem s (some (mode, rotation)) i part (k, e) =
      (low_entropy_data bt cc s i part mode rotation k, rw e refl, refl, refl, refl)

  -- `len` bytes fill `n` fragments, the last one perhaps not to its end.
  abbrev Fills : ℕ → ℕ → ℕ → Type 0
  Fills zero size len = len ≡ 0
  Fills (suc i) size len = (i * size < len) × (len ≤ i * size + size)

  Fills-rest : (i size len : ℕ) → Fills (suc i) size len → Fills i size (len - min_num size len)
  Fills-rest zero size len f = ground arith
  Fills-rest (suc i) size len f = grind arith

  write_fragments_step :
      (i size lo : ℕ) (low : Option (ℕ × ℕ)) (ptr : List ℕ) (s : Session bt cc)
      → Sending lo s
      → Encodes low (length (take (min_num size (length ptr)) ptr))
      → length (contents bt s.send_queue) < s.send_queue.cap
      → s.next_send + 1 < 2 ^ 32
      → let part_len = min_num size (length ptr) in
        (seg : Segment) × (t : Session bt cc) × (write_fragments bt cc (suc i) size low ptr s
          ≡ write_fragments bt cc i size low (drop part_len ptr) t)
        × (seg.payload ≡ take part_len ptr)
        × (fragment_of seg.metadata ≡ i % 2 ^ 8)
        × (seq_of seg ≡ s.next_send)
        × Sending lo t
        × (contents bt t.send_queue ≡ contents bt s.send_queue ++ (seg ∷ []))
        × (t.next_send ≡ suc s.next_send)
        × (t.send_queue.cap ≡ s.send_queue.cap)
  unfolding write_fragments
  write_fragments_step i size lo low ptr s v enc room n =
      let part = take (min_num size (length ptr)) ptr in
      let (seg, made, seq, payload, fragment) = make_fragment_lem s low i part enc in
      let (t, put, vt, last, next, cap) = queue_segment_lem lo seg s v seq room n in
      (seg, t, ground (arith, v, made, put), payload, fragment, seq, vt, last, next, cap)

  more_written :
      (lo size i part_len : ℕ) (ptr : List ℕ) (s t s' : Session bt cc) (seg : Segment)
      → seg.payload ≡ take part_len ptr
      → length (take part_len ptr) ≤ size
      → seq_of seg ≡ s.next_send
      → fragment_of seg.metadata ≡ i % 2 ^ 8
      → contents bt t.send_queue ≡ contents bt s.send_queue ++ (seg ∷ [])
      → t.next_send ≡ suc s.next_send
      → t.send_queue.cap ≡ s.send_queue.cap
      → Wrote lo size i (drop part_len ptr) t s'
      → Wrote lo size (suc i) ptr s s'
  more_written lo size i part_len ptr s t s' seg payload hi seq fragment last next cap w = record {
    sending = w.sending;
    segments = seg ∷ w.segments;
    queued =
        w.queued
        ∙ ap (λ l. l ++ w.segments) last
        ∙ append_assoc (contents bt s.send_queue) (seg ∷ []) w.segments;
    carried = rw (payload, w.carried) (take-append-drop part_len ptr);
    numbered = (seq, rw next at w.numbered);
    counted = (fragment, w.counted);
    small = (rw payload hi, w.small);
    cap = w.cap ∙ cap;
  }

  pub write_fragments_lem :
      (n size lo : ℕ) (low : Option (ℕ × ℕ)) (ptr : List ℕ) (s : Session bt cc)
      → ((len : ℕ) → 1 ≤ len → len ≤ size → Encodes low len)
      → 1 ≤ size
      → Sending lo s
      → Fills n size (length ptr)
      → length (contents bt s.send_queue) + n ≤ s.send_queue.cap
      → s.next_send + n < 2 ^ 32
      → (s' : Session bt cc) × (write_fragments bt cc n size low ptr s ≡ ok s')
        × Wrote lo size n ptr s s'
  write_fragments_lem zero size lo low [] s enc pos v f room n = (
    s,
    unfold write_fragments in refl,
    record {
      sending = v;
      segments = [];
      queued = sym (append-nil _);
      carried = refl;
      numbered = refl;
      counted = tt;
      small = tt;
      cap = refl;
    },
  )
  write_fragments_lem zero size lo low (x ∷ ptr) s enc pos v f room n = absurd (omega arith)
  write_fragments_lem (suc i) size lo low ptr s enc pos v f room n =
      let part_len = min_num size (length ptr) in
      let taken = length-take {0} part_len ptr in
      let dropped = length-drop {0} part_len ptr in
      let lo' : 1 ≤ length (take part_len ptr) = ground (arith, taken) in
      let hi : length (take part_len ptr) ≤ size = ground (arith, taken) in
      let (seg, t, step, payload, fragment, seq, vt, last, next, cap) =
        write_fragments_step i size lo low ptr s v (enc _ lo' hi) (omega arith) (omega arith) in
      let (s', run, w) =
        write_fragments_lem i size lo low (drop part_len ptr) t enc pos vt
          (rw dropped (Fills-rest i size (length ptr) f))
          (omega (
            arith,
            cap,
            ap (λ (l : List Segment). length l) last,
            length-append {0} (contents bt s.send_queue) (seg ∷ []),
          ))
          (omega arith) in
      (
        s',
        step ∙ run,
        more_written lo size i part_len ptr s t s' seg payload hi seq fragment last next cap w,
      )

  -- The low entropy mode, if any, is one that can be encoded on the session's transport.
  abbrev pub CanEncode : Session bt cc → Option (ℕ × ℕ) → Type 0
  CanEncode s none = Unit {0}
  CanEncode s (some (mode, rotation)) =
      (mode ≢ mode_off) × (s.mtu < 2 ^ 16) × (s.transport ≢ unknown_transport)

  encodes_on :
      (mtu mode size len : ℕ) (tr : Transport)
      → mode ≢ mode_off
      → mtu < 2 ^ 16
      → tr ≢ unknown_transport
      → max_fragment_size mtu tr mode ≡ ok size
      → 1 ≤ len
      → len ≤ size
      → (k : ℕ) × (low_entropy_encoded_payload_len len mode ≡ ok k)
  encodes_on mtu mode size len unknown_transport m small tr e lo hi = absurd (tr refl)
  encodes_on mtu mode size len stream_transport m small tr e lo hi =
      (_, encoded_stream_fragment mtu mode size len m e lo hi)
  encodes_on mtu mode size len packet_transport m small tr e lo hi =
      let (k, enc, _, _) = encoded_fragment_fits mtu mode size len m small e lo hi in (k, enc)

  pub low_entropy_part :
      (s : Session bt cc) (low : Option (ℕ × ℕ)) (size len : ℕ)
      → CanEncode s low
      → max_fragment_size s.mtu s.transport (mode_of low) ≡ ok size
      → 1 ≤ len
      → len ≤ size
      → Encodes low len
  low_entropy_part s none size len c e lo hi = tt
  low_entropy_part s (some (mode, rotation)) size len (m, small, tr) e lo hi =
      encodes_on s.mtu mode size len s.transport m small tr e lo hi

  Fills-suc : (len size q : ℕ) → 1 ≤ len → 1 ≤ size → q ≡ (len - 1) / size → Fills (suc q) size len
  Fills-suc len size q lo pos e =
      let bound = mod-lt (len - 1) {m = size} pos in
      let div = div-add-mod (len - 1) size in grind arith

  pub Fills-fragment_count :
      (len size : ℕ) → 1 ≤ len → 1 ≤ size → Fills (fragment_count len size) size len
  Fills-fragment_count len size lo pos = elim (Bool-cases (ltb size len)) [
    | inl more ↦ rw (more, add-one) (Fills-suc len size _ lo pos refl)
    | inr one ↦ rw one (ground arith)
  ]
