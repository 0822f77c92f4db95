-- ===== src/Protocol/Underlay/Stream.antt =====
-- pkg/protocol/underlay_stream.go: segments on a stream, encrypted and padded. Arguments stand for
-- what is random (nonces, paddings, half masks), for the clock in minutes, and for the answer of the
-- replay cache. `discover` is the search of the user registry for a cipher that opens the metadata,
-- and `pool` the content of a buffer of the pool. Timeouts and metrics are left out.
pub mod Buffer
pub mod Frame
pub mod SessionFrame
pub mod DataFrame
pub mod RoundTrip
pub mod Sequence
mod Examples
use mieru.Common.{
  ℕ, ◌+◌, ◌-◌, ◌%◌, ◌^◌, Bool, true, false, not, ◌&&◌, Option, none, some, List, [], ◌∷◌, ◌++◌, ltb,
  ◌==◌, if◌then◌else◌, Result, ok, err, ◌>>=◌, ◌>>◌, fail_if, map_err, length, take, drop, get_or,
}
use mieru.Common.Stream.{read_full}
use mieru.Cipher.{
  Crypto, CipherError, BlockCipher, clone, set_implicit_nonce_mode, encrypt, decrypt, is_empty,
}
use mieru.Protocol.Metadata.{
  Metadata, session, data_ack, SessionStruct, DataAckStruct, metadata_length, is_session_protocol,
  is_data_ack_protocol, is_low_entropy_protocol,
}
use mieru.Protocol.Metadata.Session
use mieru.Protocol.Metadata.DataAck
use mieru.Protocol.Segment.{Segment}
use mieru.Protocol.Session.Send.{new_segment}
use mieru.Protocol.Underlay.{
  LowEntropyCodec, UnderlayError, no_recv_cipher, encrypt_failed, network_error, crypto_error,
  replay_error, protocol_error, default_nonce_size, default_overhead,
  encode_low_entropy_encrypted_payload, decode_low_entropy_encrypted_payload,
  prepare_low_entropy_data_ack_for_send,
}

-- The ciphers of the underlay; `block` is that of the client.
pub record StreamUnderlay : Type 0 where
  pub is_client : Bool
  pub block : BlockCipher
  pub send : Option BlockCipher
  pub recv : Option BlockCipher

abbrev pub is_none : Option BlockCipher → Bool
is_none none = true
is_none (some c) = false

-- A copy of `bytes` into a buffer at an offset
abbrev pub put_at : ℕ → List ℕ → List ℕ → List ℕ
put_at i bytes buf = take i buf ++ (bytes ++ drop (i + length bytes) buf)

-- `maybeInitSendBlockCipher`
unfoldable pub send_cipher : StreamUnderlay → Result UnderlayError BlockCipher
send_cipher u = elim u.send [
  | some c ↦ ok c
  | none ↦ if u.is_client then ok (clone u.block) else (elim u.recv [
    | some c ↦ ok (set_implicit_nonce_mode true (set_implicit_nonce_mode false (clone c)))
    | none ↦ err no_recv_cipher
  ])
]

abbrev pub no_network : {A : Type 0} → Option A → Result UnderlayError A
no_network none = err network_error
no_network (some a) = ok a

abbrev pub decrypted :
    UnderlayError
    → BlockCipher × Result CipherError (List ℕ)
    → Result UnderlayError (BlockCipher × List ℕ)
decrypted e (c, err x) = err e
decrypted e (c, ok p) = ok (c, p)

-- `if len > 0 { io.ReadFull(...) }` into a padding
abbrev pub skip_padding : ℕ → List ℕ → Result UnderlayError (List ℕ)
skip_padding n input = do (padding, rest) ← no_network (read_full n input); ok rest

module _ (cy : Crypto) (codec : LowEntropyCodec) (discover : List ℕ → Option BlockCipher)
    (pool : ℕ → List ℕ) where
  abbrev pub metadata_len : Bool → List ℕ → ℕ
  metadata_len first b = length b + cy.overhead + (if first then cy.nonce_size else 0)

  abbrev pub payload_len : List ℕ → ℕ
  payload_len [] = 0
  payload_len (x ∷ xs) = length (x ∷ xs) + cy.overhead

  -- `t.send.Encrypt(dataToSend[offset:offset], seg.payload)` if there is a payload
  abbrev pub encrypt_at :
      List ℕ → ℕ → ℕ → BlockCipher → List ℕ → List ℕ → Result UnderlayError (BlockCipher × List ℕ)
  encrypt_at fresh room offset c [] buf = ok (c, buf)
  encrypt_at fresh room offset c (x ∷ xs) buf = do
    (c', b) ← map_err encrypt_failed (encrypt cy fresh room c (x ∷ xs))
    ok (c', put_at offset b buf)

  -- The bytes of a segment with session metadata
  unfoldable pub write_session :
      ℕ
      → List ℕ
      → List ℕ
      → Bool
      → BlockCipher
      → SessionStruct
      → List ℕ
      → Result UnderlayError (BlockCipher × SessionStruct × List ℕ)
  write_session now fresh padding first c ss payload = do
    let (sent, b) = Session.marshal now (record ss { suffix_len = length padding % 2 ^ 8 })
    let offset = metadata_len first b
    let total = offset + payload_len payload + length padding
    (c1, meta) ← map_err encrypt_failed (encrypt cy fresh total c b)
    (c2, buf) ← encrypt_at fresh (total - offset) offset c1 payload (put_at 0 meta (pool total))
    ok (c2, sent, put_at (offset + payload_len payload) padding buf)

  -- The low entropy encoding of the encrypted payload, in place
  abbrev pub encode_at : Bool → ℕ → DataAckStruct → List ℕ → List ℕ → Result UnderlayError (List ℕ)
  encode_at false offset das payload buf = ok buf
  encode_at true offset das [] buf = ok buf
  encode_at true offset das (x ∷ xs) buf = do
    wire ←
        encode_low_entropy_encrypted_payload codec
          (take (length (x ∷ xs) + cy.overhead) (drop offset buf)) das
    ok (put_at offset wire buf)

  abbrev pub wire_payload_len : Bool → DataAckStruct → List ℕ → ℕ
  wire_payload_len low das [] = 0
  wire_payload_len low das (x ∷ xs) =
      if low then das.payload_len + cy.overhead else length (x ∷ xs) + cy.overhead

  -- The bytes of a segment with data or ack metadata
  unfoldable pub write_data_ack :
      ℕ
      → List ℕ
      → List ℕ
      → List ℕ
      → ℕ
      → Bool
      → BlockCipher
      → DataAckStruct
      → List ℕ
      → Result UnderlayError (BlockCipher × DataAckStruct × List ℕ)
  write_data_ack now fresh padding1 padding2 half_mask first c das payload = do
    let low = is_low_entropy_protocol das.protocol
    das' ←
        (if low
          then prepare_low_entropy_data_ack_for_send half_mask das (length payload)
          else ok das)
    let (sent, b) =
        DataAck.marshal now (record das' {
          prefix_len = length padding1 % 2 ^ 8;
          suffix_len = length padding2 % 2 ^ 8;
        })
    let offset = metadata_len first b
    let body = offset + length padding1
    let wire_len = wire_payload_len low sent payload
    let total = body + wire_len + length padding2
    (c1, meta) ← map_err encrypt_failed (encrypt cy fresh total c b)
    let buf = put_at offset padding1 (put_at 0 meta (pool total))
    (c2, buf) ← encrypt_at fresh (total - body) body c1 payload buf
    buf ← encode_at low body sent payload buf
    ok (c2, sent, put_at (body + wire_len) padding2 buf)

  -- A segment by the kind of its metadata, whose protocol is one of that kind. The source looks at the
  -- protocol, and refuses one of neither kind.
  unfoldable pub write_with :
      ℕ
      → List ℕ
      → List ℕ
      → List ℕ
      → ℕ
      → Metadata
      → List ℕ
      → StreamUnderlay
      → Result UnderlayError (StreamUnderlay × Metadata × List ℕ)
  write_with now fresh padding1 padding2 half_mask (session ss) payload u = do
    c ← send_cipher u
    (c', sent, b) ← write_session now fresh padding2 (is_none u.send) c ss payload
    ok (record u { send = some c' }, session sent, b)
  write_with now fresh padding1 padding2 half_mask (data_ack das) payload u = do
    c ← send_cipher u
    (c', sent, b) ←
        write_data_ack now fresh padding1 padding2 half_mask (is_none u.send) c das payload
    ok (record u { send = some c' }, data_ack sent, b)

  -- `writeOneSegment`: the metadata as it was sent, and the bytes for the connection
  unfoldable pub write_one_segment :
      ℕ
      → List ℕ
      → List ℕ
      → List ℕ
      → ℕ
      → Segment
      → StreamUnderlay
      → Result UnderlayError (StreamUnderlay × Metadata × List ℕ)
  unfolding write_with
  write_one_segment now fresh padding1 padding2 half_mask seg u =
      write_with now fresh padding1 padding2 half_mask seg.metadata seg.payload u

  -- The cipher that the metadata is read with; `replay` is what the replay cache says.
  unfoldable pub recv_cipher : Bool → List ℕ → StreamUnderlay → Result UnderlayError BlockCipher
  recv_cipher replay b u = elim u.recv [
    | some c ↦ ok c
    | none ↦ if u.is_client then ok (clone u.block) else (elim (discover b) [
      | some c ↦ ok (set_implicit_nonce_mode true c)
      | none ↦ err (if replay then replay_error else crypto_error)
    ])
  ]

  -- A payload of `n` bytes, without its encryption and its encoding
  abbrev pub read_payload :
      ℕ
      → (List ℕ → Result UnderlayError (List ℕ))
      → BlockCipher
      → List ℕ
      → Result UnderlayError (BlockCipher × List ℕ × List ℕ)
  read_payload n decode c input = if n == 0 then ok (c, [], input) else (do
    (b, rest) ← no_network (read_full (n + default_overhead) input)
    b' ← decode b
    (c', p) ← decrypted crypto_error (decrypt cy c b')
    ok (c', p, rest))

  unfoldable pub read_session_segment :
      BlockCipher → SessionStruct → List ℕ → Result UnderlayError (BlockCipher × Segment × List ℕ)
  read_session_segment c ss input = do
    (c', payload, rest) ← read_payload ss.payload_len (λ b. ok b) c input
    rest ← skip_padding ss.suffix_len rest
    ok (c', new_segment (session ss) payload, rest)

  -- What `readDataAckSegment` does to the encrypted payload
  abbrev pub decode_payload : DataAckStruct → List ℕ → Result UnderlayError (List ℕ)
  decode_payload das b =
      if is_low_entropy_protocol das.protocol
      then (elim (decode_low_entropy_encrypted_payload codec b das) [
        | ok body ↦ ok body
        | err e ↦ err protocol_error
      ])
      else ok b

  unfoldable pub read_data_ack_segment :
      BlockCipher → DataAckStruct → List ℕ → Result UnderlayError (BlockCipher × Segment × List ℕ)
  read_data_ack_segment c das input = do
    rest ← skip_padding das.prefix_len input
    (c', payload, rest) ← read_payload das.payload_len (decode_payload das) c rest
    rest ← skip_padding das.suffix_len rest
    ok (c', new_segment (data_ack das) payload, rest)

  -- The metadata in the first bytes of a segment
  unfoldable pub read_metadata :
      Bool → StreamUnderlay → List ℕ → Result UnderlayError (BlockCipher × List ℕ × List ℕ)
  read_metadata replay u input = do
    let first = is_none u.recv
    let read_len = metadata_length + default_overhead + (if first then default_nonce_size else 0)
    let replayed = first && not u.is_client && replay
    (b, rest) ← no_network (read_full read_len input)
    c ← recv_cipher replay b u
    (c', p) ← decrypted (if replayed then replay_error else crypto_error) (decrypt cy c b)
    fail_if replayed replay_error
    fail_if (not (length p == metadata_length)) protocol_error
    ok (c', p, rest)

  -- The rest of a segment with the metadata `p`
  unfoldable pub read_body :
      ℕ → BlockCipher → List ℕ → List ℕ → Result UnderlayError (BlockCipher × Segment × List ℕ)
  read_body now c p input =
      let protocol = get_or p 0 0 in
      if is_session_protocol protocol
      then (elim (Session.unmarshal now p) [
        | ok ss ↦ read_session_segment c ss input
        | err e ↦ err protocol_error
      ])
      else if is_data_ack_protocol protocol
      then (elim (DataAck.unmarshal now p) [
        | ok das ↦ read_data_ack_segment c das input
        | err e ↦ err protocol_error
      ])
      else err protocol_error

  -- `readOneSegment`: the segment, and what is left on the connection
  unfoldable pub read_one_segment :
      ℕ → Bool → StreamUnderlay → List ℕ → Result UnderlayError (StreamUnderlay × Segment × List ℕ)
  read_one_segment now replay u input = do
    (c, p, rest) ← read_metadata replay u input
    (c', seg, rest) ← read_body now c p rest
    ok (record u { recv = some c' }, seg, rest)
