-- ===== src/Protocol/Underlay/Stream/Sequence.antt =====
-- A connection from its first segment on: both directions, and many segments.
use mieru.Common.{
  ℕ, ◌≤◌, ◌≡◌, refl, inl, true, false, Option, none, some, List, [], ◌∷◌, ◌++◌, Result, ok, ◌>>=◌,
  length, All,
}
use mathlib.Core.List.{append_assoc}
use mieru.Common.Bytes.{IsU32}
use mieru.Mathext.Numbers.{within_range}
use mieru.Cipher.{Crypto, BlockCipher, decrypt, set_implicit_nonce_mode, max_user_name_len}
use mieru.Cipher.Sync.{at, synced}
use mieru.Protocol.Segment.{Segment}
use mieru.Protocol.Session.Send.{new_segment}
use mieru.Protocol.Underlay.{LowEntropyCodec, UnderlayError}
use mieru.Protocol.Underlay.Stream.{
  StreamUnderlay, send_cipher, recv_cipher, write_one_segment, read_one_segment,
}
use mieru.Protocol.Underlay.Stream.RoundTrip.{Connected, Sendable, as_sent, segment_round_trip}

module _ (cy : Crypto) (codec : LowEntropyCodec) (discover : List ℕ → Option BlockCipher)
    (pool : ℕ → List ℕ) where
  -- A new underlay of the client, whose cipher has the key and sends the user's hint.
  abbrev pub new_client : (key user_name : List ℕ) → StreamUnderlay
  new_client key user_name = record {
    is_client = true;
    block = at cy key [] user_name;
    send = none;
    recv = none;
  }

  -- An underlay of the server whose `recv` is given; its `block` is not used.
  abbrev pub server : BlockCipher → Option BlockCipher → StreamUnderlay
  server unused recv = record { is_client = false; block = unused; send = none; recv = recv }

  -- A new client can reach a new server whose registry finds the client's key for what opens with it.
  pub new_connection :
      (key client_name server_name : List ℕ) (unused found : BlockCipher)
      → length client_name ≤ max_user_name_len
      → ((b p : List ℕ) (r' : BlockCipher)
          → decrypt cy (at cy key [] server_name) b ≡ (r', ok p)
          → discover b ≡ some found)
      → set_implicit_nonce_mode true found ≡ at cy key [] server_name
      → Connected cy codec discover pool (new_client key client_name) (server unused none)
  unfolding send_cipher recv_cipher
  new_connection key client_name server_name unused found named finds set = record {
    s = at cy key [] client_name;
    r = at cy key [] server_name;
    sends = refl;
    first_write = refl;
    first_read = refl;
    receives = λ b p r' d. rw (finds b p r' d, set) refl;
    in_step = synced key [] client_name server_name named (inl refl);
  }

  -- A server that has read with the client's key can answer the client, with a nonce of its own.
  pub answer_connection :
      (key nonce client_name server_name : List ℕ) (unused : BlockCipher)
      (sending : Option BlockCipher)
      → length server_name ≤ max_user_name_len
      → Connected cy codec discover pool
          (server unused (some (at cy key nonce server_name)))
          (record (new_client key client_name) { send = sending })
  unfolding send_cipher recv_cipher
  answer_connection key nonce client_name server_name unused sending named = record {
    s = at cy key [] server_name;
    r = at cy key [] client_name;
    sends = refl;
    first_write = refl;
    first_read = refl;
    receives = λ b p r' d. refl;
    in_step = synced key [] server_name client_name named (inl refl);
  }

  -- A segment with what the code draws for it: the minutes of the clocks when it is written and when
  -- it is read, the nonce of a cipher that has none yet, the paddings and the half of the mask.
  pub record Sending : Type 0 where
    pub segment : Segment
    pub sent : ℕ
    pub received : ℕ
    pub fresh : List ℕ
    pub padding1 : List ℕ
    pub padding2 : List ℕ
    pub half_mask : ℕ

  -- Segments one after the other on one end, and the bytes of all.
  abbrev pub write_all :
      List Sending → StreamUnderlay → Result UnderlayError (StreamUnderlay × List ℕ)
  write_all [] u = ok (u, [])
  write_all (w ∷ ws) u = do
    (u', m, b) ←
        write_one_segment cy codec discover pool w.sent w.fresh w.padding1 w.padding2 w.half_mask
          w.segment u
    (u'', bs) ← write_all ws u'
    ok (u'', b ++ bs)

  -- The segments read one after the other, at their times.
  abbrev pub read_all :
      List Sending
      → StreamUnderlay
      → List ℕ
      → Result UnderlayError (StreamUnderlay × List Segment × List ℕ)
  read_all [] v input = ok (v, [], input)
  read_all (w ∷ ws) v input = do
    (v', seg, rest) ← read_one_segment cy codec discover pool w.received false v input
    (v'', segs, rest) ← read_all ws v' rest
    ok (v'', seg ∷ segs, rest)

  -- What the reader makes of the segments
  abbrev pub as_received : List Sending → List Segment
  as_received [] = []
  as_received (w ∷ ws) =
      new_segment
        (as_sent cy codec discover pool w.sent (length w.padding1) (length w.padding2)
          w.segment.metadata)
        w.segment.payload
      ∷ as_received ws

  -- A segment that can be sent, with values of the sizes that the code draws, and clocks that agree.
  pub record Drawn (w : Sending) : Type 0 where
    pub sendable : Sendable cy codec discover pool w.segment.metadata w.segment.payload
    pub nonce : length w.fresh ≡ cy.nonce_size
    pub small1 : length w.padding1 ≤ 255
    pub small2 : length w.padding2 ≤ 255
    pub clock : IsU32 w.sent
    pub near : within_range 32 w.received w.sent 1 ≡ true

  -- Segments without low entropy encoding whose fields fit, written one after the other on one end of
  -- a connection whose ciphers are in step, are read on the other end one after the other with their
  -- payloads, in order, and what follows is left. Each segment has paddings, a nonce and clocks of its
  -- own: the paddings have at most 255 bytes, the clocks agree within the time range, and no segment
  -- is reported as a replay.
  pub segments_in_order :
      (sized : (n : ℕ) → length (pool n) ≡ n) (ws : List Sending) (u v : StreamUnderlay)
      → Connected cy codec discover pool u v
      → All Drawn ws
      → (u' : StreamUnderlay) × (v' : StreamUnderlay) × (bs : List ℕ) × (write_all ws u
          ≡ ok (u', bs))
        × ((more : List ℕ) → read_all ws v (bs ++ more) ≡ ok (v', as_received ws, more))
        × Connected cy codec discover pool u' v'
  segments_in_order sized [] u v k h = (u, v, [], refl, (λ more. refl), k)
  segments_in_order sized (w ∷ ws) u v k (d, h) =
      let (u1, v1, m, b, wrote, reads, k1) =
        segment_round_trip cy codec discover pool sized w.sent w.received w.fresh w.padding1
          w.padding2 w.half_mask d.nonce d.small1 d.small2 d.clock d.near w.segment u v k
          d.sendable in
      let (u2, v2, bs, wrote_all, reads_all, k2) = segments_in_order sized ws u1 v1 k1 h in
      (
        u2,
        v2,
        b ++ bs,
        rw (wrote, wrote_all) refl,
        (λ more. rw (append_assoc b bs more, reads (bs ++ more), reads_all more) refl),
        k2,
      )
