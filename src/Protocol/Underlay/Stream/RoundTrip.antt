-- ===== src/Protocol/Underlay/Stream/RoundTrip.antt =====
-- A segment that one end of a connection writes, the other end reads.
use mieru.Common.{
  ℕ, ◌+◌, ◌%◌, ◌^◌, ◌≤◌, ◌≡◌, refl, sym, ap, ◌∙◌, subst, Bool, true, false, not, ◌&&◌, Option, some,
  List, ◌++◌, ok, length, arith, if◌then◌else◌, ◌==◌, get_or, inl, inr, Bool-cases,
}
use mathlib.Core.List.{append_assoc}
use mieru.Common.Bytes.{IsU32}
use mieru.Common.Stream.{read_full, read_full-append}
use mieru.Mathext.Numbers.{within_range}
use mieru.Cipher.{Crypto, BlockCipher, decrypt, need_send_nonce}
use mieru.Cipher.Sync.{Synced}
use mieru.Protocol.Metadata.{
  Metadata, session, data_ack, SessionStruct, DataAckStruct, is_session_protocol,
  is_data_ack_protocol, is_low_entropy_protocol, max_session_open_payload,
}
use mieru.Protocol.Metadata.Session
use mieru.Protocol.Metadata.DataAck
use mieru.Protocol.Metadata.DataAck.RoundTrip
use mieru.Protocol.Segment.{Segment}
use mieru.Protocol.Session.Send.{new_segment}
use mieru.Protocol.Underlay.{LowEntropyCodec}
use mieru.Protocol.Underlay.Stream.{
  StreamUnderlay, is_none, metadata_len, send_cipher, recv_cipher, read_metadata, read_body,
  read_session_segment, read_data_ack_segment, read_one_segment, write_one_segment, write_with,
}
use mieru.Protocol.Underlay.Stream.SessionFrame.{session_crosses}
use mieru.Protocol.Underlay.Stream.DataFrame.{data_crosses}

module _ (cy : Crypto) (codec : LowEntropyCodec) (discover : List ℕ → Option BlockCipher)
    (pool : ℕ → List ℕ) where
  -- What `u` sends next, `v` can read. The registry of a server that has not read anything finds the
  -- cipher that opens the metadata.
  pub record Connected (u v : StreamUnderlay) : Type 0 where
    pub s : BlockCipher
    pub r : BlockCipher
    pub sends : send_cipher u ≡ ok s
    pub first_write : is_none u.send ≡ need_send_nonce cy s
    pub first_read : is_none v.recv ≡ need_send_nonce cy s
    pub receives :
        (b p : List ℕ) (r' : BlockCipher)
        → decrypt cy r b ≡ (r', ok p)
        → recv_cipher cy codec discover pool false b v ≡ ok r
    pub in_step : Synced cy s r

  -- The metadata and the payload belong together, and fit their fields.
  abbrev pub Sendable : Metadata → List ℕ → Type 0
  Sendable (session ss) payload =
      (Session.Fits ss)
      × (is_session_protocol ss.protocol ≡ true)
      × (ss.payload_len ≡ length payload)
      × (length payload ≤ max_session_open_payload)
  Sendable (data_ack das) payload =
      (RoundTrip.Fits das)
      × (is_data_ack_protocol das.protocol ≡ true)
      × (is_low_entropy_protocol das.protocol ≡ false)
      × (das.payload_len ≡ length payload)

  -- The metadata with the time of sending and the lengths of the paddings
  abbrev pub as_sent : ℕ → ℕ → ℕ → Metadata → Metadata
  as_sent now prefix_len suffix_len (session ss) = session (record ss {
    base_struct = record { protocol = ss.protocol; timestamp = now };
    suffix_len = suffix_len;
  })
  as_sent now prefix_len suffix_len (data_ack das) = data_ack (
      RoundTrip.carried (record das {
        base_struct = record { protocol = das.protocol; timestamp = now };
        prefix_len = prefix_len;
        suffix_len = suffix_len;
      }))

  not_replayed : (a b : Bool) → (a && not b && false) ≡ false
  not_replayed true true = refl
  not_replayed true false = refl
  not_replayed false b = refl

  metadata_read :
      (v : StreamUnderlay) (r between : BlockCipher) (meta p rest : List ℕ)
      → recv_cipher cy codec discover pool false meta v ≡ ok r
      → decrypt cy r meta ≡ (between, ok p)
      → length meta ≡ 48 + (if is_none v.recv then 24 else 0)
      → length p ≡ 32
      → read_metadata cy codec discover pool false v (meta ++ rest) ≡ ok (between, p, rest)
  unfolding read_metadata
  metadata_read v r between meta p rest found d len plain =
      let there : read_full (48 + (if is_none v.recv then 24 else 0)) (meta ++ rest)
          ≡ some (meta, rest) =
        subst (λ n. read_full n (meta ++ rest) ≡ some (meta, rest)) len
          (read_full-append meta rest) in
      let whole : (length p == 32) ≡ true = ground (arith, plain) in
      rw (not_replayed (is_none v.recv) v.is_client, there, found, d, whole) refl

  length-marshal_session : (now : ℕ) (ss : SessionStruct) → length (Session.marshal now ss).1 ≡ 32
  unfolding Session.marshal
  length-marshal_session now ss = refl

  length-marshal_data : (now : ℕ) (das : DataAckStruct) → length (DataAck.marshal now das).1 ≡ 32
  unfolding DataAck.marshal
  length-marshal_data now das = elim (Bool-cases (is_low_entropy_protocol das.protocol)) [
    | inl low ↦ rw low refl
    | inr high ↦ rw high refl
  ]

  protocol_session :
      (now : ℕ) (ss : SessionStruct) → get_or (Session.marshal now ss).1 0 0 ≡ ss.protocol
  unfolding Session.marshal
  protocol_session now ss = refl

  protocol_data :
      (now : ℕ) (das : DataAckStruct)
      → is_low_entropy_protocol das.protocol ≡ false
      → get_or (DataAck.marshal now das).1 0 0 ≡ das.protocol
  unfolding DataAck.marshal
  protocol_data now das low = rw low refl

  -- Both ends go on with the ciphers that the segment has left.
  keep_running :
      (u v : StreamUnderlay) (s r : BlockCipher)
      → Synced cy s r
      → need_send_nonce cy s ≡ false
      → Connected (record u { send = some s }) (record v { recv = some r })
  unfolding send_cipher recv_cipher
  keep_running u v s r y run = record {
    s = s;
    r = r;
    sends = refl;
    first_write = sym run;
    first_read = sym run;
    receives = λ b p r' d. refl;
    in_step = y;
  }

  metadata_size :
      (u v : StreamUnderlay) (k : Connected u v) (b meta : List ℕ)
      → length b ≡ 32
      → length meta ≡ metadata_len cy codec discover pool (is_none u.send) b
      → length meta ≡ 48 + (if is_none v.recv then 24 else 0)
  metadata_size u v k b meta len size =
      let same : is_none v.recv ≡ is_none u.send = k.first_read ∙ sym k.first_write in
      rw (same, sym cy.nonce_size_lem) (omega (arith, size, len, cy.overhead_lem))

  one_read :
      (received : ℕ) (v : StreamUnderlay) (between receiver : BlockCipher) (seg : Segment)
      (meta p rest more : List ℕ)
      → read_metadata cy codec discover pool false v (meta ++ (rest ++ more))
        ≡ ok (between, p, rest ++ more)
      → read_body cy codec discover pool received between p (rest ++ more)
        ≡ ok (receiver, seg, more)
      → read_one_segment cy codec discover pool received false v ((meta ++ rest) ++ more)
        ≡ ok (record v { recv = some receiver }, seg, more)
  unfolding read_one_segment
  one_read received v between receiver seg meta p rest more e f =
      rw (append_assoc meta rest more, e, f) refl

  module _ (sized : (n : ℕ) → length (pool n) ≡ n) (sent received : ℕ)
      (fresh padding1 padding2 : List ℕ) (half_mask : ℕ) (nonce : length fresh ≡ cy.nonce_size)
      (small1 : length padding1 ≤ 255) (small2 : length padding2 ≤ 255) (clock : IsU32 sent)
      (near : within_range 32 received sent 1 ≡ true) where
    -- What `u` makes of the segment, `v` reads as the segment.
    pub record Delivered (m : Metadata) (payload : List ℕ) (u v : StreamUnderlay) : Type 0 where
      pub sender : StreamUnderlay
      pub receiver : StreamUnderlay
      pub meta : Metadata
      pub bytes : List ℕ
      pub written :
          write_with cy codec discover pool sent fresh padding1 padding2 half_mask m payload u
          ≡ ok (sender, meta, bytes)
      pub read :
          (more : List ℕ)
          → read_one_segment cy codec discover pool received false v (bytes ++ more)
            ≡ ok (
              receiver,
              new_segment (as_sent sent (length padding1) (length padding2) m) payload,
              more,
            )
      pub connected : Connected sender receiver

    byte1 : length padding1 % 2 ^ 8 ≡ length padding1
    byte1 = omega arith

    byte2 : length padding2 % 2 ^ 8 ≡ length padding2
    byte2 = omega arith

    session_body :
        (c : BlockCipher) (ss : SessionStruct) (payload input : List ℕ)
        → Sendable (session ss) payload
        → let ss' = record ss { suffix_len = length padding2 % 2 ^ 8 } in
          read_body cy codec discover pool received c (Session.marshal sent ss').1 input
          ≡ read_session_segment cy codec discover pool c (Session.marshal sent ss').0 input
    unfolding read_body
    session_body c ss payload input (fits, p, len, small) =
        let ss' = record ss { suffix_len = length padding2 % 2 ^ 8 } in
        let fits' : Session.Fits ss' = record {
          session_id = fits.session_id;
          seq = fits.seq;
          status_code = fits.status_code;
          payload_len = fits.payload_len;
          suffix_len = omega arith;
        } in
        rw
          (
            protocol_session sent ss',
            p,
            Session.session_round_trip sent received ss' fits' p (omega (arith, len)) clock near,
          )
          refl

    session_sent :
        (ss : SessionStruct)
        → session (Session.marshal sent (record ss { suffix_len = length padding2 % 2 ^ 8 })).0
          ≡ as_sent sent (length padding1) (length padding2) (session ss)
    unfolding Session.marshal
    session_sent ss = rw byte2 refl

    deliver_session :
        (ss : SessionStruct) (payload : List ℕ) (u v : StreamUnderlay)
        → Connected u v
        → Sendable (session ss) payload
        → Delivered (session ss) payload u v
    deliver_session ss payload u v k h =
        let f =
          session_crosses cy codec discover pool sized sent fresh padding2 (is_none u.send) k.s k.r
            ss payload k.in_step k.first_write nonce in
        let ss' = record ss { suffix_len = length padding2 % 2 ^ 8 } in
        let b = (Session.marshal sent ss').1 in
        record {
          sender = record u { send = some f.sender };
          receiver = record v { recv = some f.receiver };
          meta = session (Session.marshal sent ss').0;
          bytes = f.meta ++ f.rest;
          written = unfold write_with in rw (k.sends, f.written) refl;
          read = λ more.
              one_read received v f.between f.receiver
                (new_segment (as_sent sent (length padding1) (length padding2) (session ss))
                  payload)
                f.meta b f.rest more
                (metadata_read v k.r f.between f.meta b (f.rest ++ more)
                  (k.receives f.meta b f.between f.meta_read) f.meta_read
                  (metadata_size u v k b f.meta (length-marshal_session sent ss') f.meta_size)
                  (length-marshal_session sent ss'))
                (session_body f.between ss payload (f.rest ++ more) h
                  ∙ f.rest_read (Session.marshal sent ss').0 more (unfold Session.marshal in h.2)
                      (unfold Session.marshal in byte2)
                  ∙ ap (λ m. ok (f.receiver, new_segment m payload, more)) (session_sent ss));
          connected = keep_running u v f.sender f.receiver f.synced_after f.running;
        }

    abbrev padded : DataAckStruct → DataAckStruct
    padded das = record das {
      prefix_len = length padding1 % 2 ^ 8;
      suffix_len = length padding2 % 2 ^ 8;
    }

    data_body :
        (c : BlockCipher) (das : DataAckStruct) (payload input : List ℕ)
        → Sendable (data_ack das) payload
        → read_body cy codec discover pool received c (DataAck.marshal sent (padded das)).1 input
          ≡ read_data_ack_segment cy codec discover pool c
              (RoundTrip.carried (DataAck.marshal sent (padded das)).0)
              input
    unfolding read_body
    data_body c das payload input (fits, p, low, len) =
        let fits' : RoundTrip.Fits (padded das) = record {
          session_id = fits.session_id;
          seq = fits.seq;
          un_ack_seq = fits.un_ack_seq;
          window_size = fits.window_size;
          payload_len = fits.payload_len;
          low_entropy_mask = fits.low_entropy_mask;
          extracted_payload_len = fits.extracted_payload_len;
        } in
        let no_session : is_session_protocol das.protocol ≡ false = ground (arith, p) in
        rw
          (
            protocol_data sent (padded das) low,
            no_session,
            p,
            RoundTrip.data_ack_round_trip sent received (padded das) fits' p (inl low) clock near,
          )
          refl

    data_sent :
        (das : DataAckStruct)
        → data_ack (RoundTrip.carried (DataAck.marshal sent (padded das)).0)
          ≡ as_sent sent (length padding1) (length padding2) (data_ack das)
    unfolding DataAck.marshal
    data_sent das = rw (byte1, byte2) refl

    deliver_data :
        (das : DataAckStruct) (payload : List ℕ) (u v : StreamUnderlay)
        → Connected u v
        → Sendable (data_ack das) payload
        → Delivered (data_ack das) payload u v
    deliver_data das payload u v k h =
        let f =
          data_crosses cy codec discover pool sized sent fresh padding1 padding2 half_mask
            (is_none u.send) k.s k.r das payload h.2 k.in_step k.first_write nonce in
        let b = (DataAck.marshal sent (padded das)).1 in
        let das' = RoundTrip.carried (DataAck.marshal sent (padded das)).0 in
        record {
          sender = record u { send = some f.sender };
          receiver = record v { recv = some f.receiver };
          meta = data_ack (DataAck.marshal sent (padded das)).0;
          bytes = f.meta ++ f.rest;
          written = unfold write_with in rw (k.sends, f.written) refl;
          read = λ more.
              one_read received v f.between f.receiver
                (new_segment (as_sent sent (length padding1) (length padding2) (data_ack das))
                  payload)
                f.meta b f.rest more
                (metadata_read v k.r f.between f.meta b (f.rest ++ more)
                  (k.receives f.meta b f.between f.meta_read) f.meta_read
                  (metadata_size u v k b f.meta (length-marshal_data sent (padded das)) f.meta_size)
                  (length-marshal_data sent (padded das)))
                (data_body f.between das payload (f.rest ++ more) h
                  ∙ f.rest_read das' more (unfold DataAck.marshal in h.2)
                      (unfold DataAck.marshal in byte1) (unfold DataAck.marshal in h.3)
                      (unfold DataAck.marshal in byte2)
                  ∙ ap (λ m. ok (f.receiver, new_segment m payload, more)) (data_sent das));
          connected = keep_running u v f.sender f.receiver f.synced_after f.running;
        }

    deliver :
        (m : Metadata) (payload : List ℕ) (u v : StreamUnderlay)
        → Connected u v
        → Sendable m payload
        → Delivered m payload u v
    deliver (session ss) payload u v k h = deliver_session ss payload u v k h
    deliver (data_ack das) payload u v k h = deliver_data das payload u v k h

    -- A segment without low entropy encoding whose fields fit, written on one end of a connection
    -- whose ciphers are in step, with paddings of at most 255 bytes: the writing succeeds, and the
    -- other end reads the segment with its payload, the time of sending and the lengths of the
    -- paddings, within the time range and unless it is reported as a replay, and leaves what follows
    -- on the connection; the ciphers are in step again.
    pub segment_round_trip :
        (seg : Segment) (u v : StreamUnderlay)
        → Connected u v
        → Sendable seg.metadata seg.payload
        → (u' : StreamUnderlay) × (v' : StreamUnderlay) × (m : Metadata) × (b : List ℕ)
          × (write_one_segment cy codec discover pool sent fresh padding1 padding2 half_mask seg u
              ≡ ok (u', m, b))
          × ((more : List ℕ)
              → read_one_segment cy codec discover pool received false v (b ++ more)
                ≡ ok (
                  v',
                  new_segment
                      (as_sent sent (length padding1) (length padding2) seg.metadata)
                      seg.payload,
                  more,
                ))
          × Connected u' v'
    unfolding write_one_segment
    segment_round_trip seg u v k h =
        let d = deliver seg.metadata seg.payload u v k h in
        (d.sender, d.receiver, d.meta, d.bytes, d.written, d.read, d.connected)
