-- ===== src/Protocol/Underlay/Stream/DataFrame.antt =====
-- Plain data and acknowledgements on the wire.
use mieru.Common.{
  ℕ, ◌+◌, ◌-◌, ◌%◌, ◌^◌, ◌≡◌, refl, sym, ◌∙◌, Bool, false, Option, List, [], ◌∷◌, ◌++◌, ok, length,
  arith, length-append,
}
use mathlib.Core.List.{append_assoc}
use mieru.Cipher.{Crypto, BlockCipher, encrypt, decrypt, need_send_nonce}
use mieru.Cipher.Sync.{Synced, crosses}
use mieru.Protocol.Metadata.{DataAckStruct, data_ack, is_low_entropy_protocol}
use mieru.Protocol.Metadata.DataAck.{marshal}
use mieru.Protocol.Session.Send.{new_segment}
use mieru.Protocol.Underlay.{LowEntropyCodec}
use mieru.Protocol.Underlay.Stream.{
  put_at, payload_len, encrypt_at, metadata_len, write_data_ack, read_payload,
  read_data_ack_segment, wire_payload_len,
}
use mieru.Protocol.Underlay.Stream.Buffer.{put_at-Filled}
use mieru.Protocol.Underlay.Stream.Frame.{
  payload_crosses, fill_front, fill_end, metadata_len_lem, skip_padding-append,
}

module _ (cy : Crypto) (codec : LowEntropyCodec) (discover : List ℕ → Option BlockCipher)
    (pool : ℕ → List ℕ) (sized : (n : ℕ) → length (pool n) ≡ n) where
  abbrev pub sealed : ℕ → List ℕ → List ℕ → DataAckStruct → DataAckStruct × List ℕ
  sealed now padding1 padding2 das =
      marshal now
        (record das { prefix_len = length padding1 % 2 ^ 8; suffix_len = length padding2 % 2 ^ 8 })

  pub record DataFrame (now : ℕ) (fresh padding1 padding2 : List ℕ) (half_mask : ℕ) (first : Bool)
      (s r : BlockCipher) (das : DataAckStruct) (payload : List ℕ) : Type 0 where
    pub sender : BlockCipher
    pub meta : List ℕ
    pub rest : List ℕ
    pub written :
        write_data_ack cy codec discover pool now fresh padding1 padding2 half_mask first s das
          payload
        ≡ ok (sender, (sealed now padding1 padding2 das).0, meta ++ rest)
    pub meta_size :
        length meta ≡ metadata_len cy codec discover pool first (sealed now padding1 padding2 das).1
    pub between : BlockCipher
    pub meta_read : decrypt cy r meta ≡ (between, ok (sealed now padding1 padding2 das).1)
    pub receiver : BlockCipher
    pub rest_read :
        (das' : DataAckStruct) (more : List ℕ)
        → is_low_entropy_protocol das'.protocol ≡ false
        → das'.prefix_len ≡ length padding1
        → das'.payload_len ≡ length payload
        → das'.suffix_len ≡ length padding2
        → read_data_ack_segment cy codec discover pool between das' (rest ++ more)
          ≡ ok (receiver, new_segment (data_ack das') payload, more)
    pub synced_after : Synced cy sender receiver
    pub running : need_send_nonce cy sender ≡ false

  rest_of_data :
      (between receiver : BlockCipher) (das : DataAckStruct)
      (payload padding1 bytes padding2 more : List ℕ)
      → ((rest : List ℕ)
          → read_payload cy codec discover pool (length payload) (λ b. ok b) between (bytes ++ rest)
            ≡ ok (receiver, payload, rest))
      → is_low_entropy_protocol das.protocol ≡ false
      → das.prefix_len ≡ length padding1
      → das.payload_len ≡ length payload
      → das.suffix_len ≡ length padding2
      → read_data_ack_segment cy codec discover pool between das
          ((padding1 ++ (bytes ++ padding2)) ++ more)
        ≡ ok (receiver, new_segment (data_ack das) payload, more)
  unfolding read_data_ack_segment
  rest_of_data between receiver das payload padding1 bytes padding2 more received low prefix len
        suffix =
      rw
        (
          append_assoc padding1 (bytes ++ padding2) more,
          skip_padding-append das.prefix_len padding1 ((bytes ++ padding2) ++ more) prefix,
          append_assoc bytes padding2 more,
          len,
          low,
          received (padding2 ++ more),
          skip_padding-append das.suffix_len padding2 more suffix,
        )
        refl

  wire_len_lem :
      (das : DataAckStruct) (payload : List ℕ)
      → wire_payload_len cy codec discover pool false das payload
        ≡ payload_len cy codec discover pool payload
  wire_len_lem das [] = refl
  wire_len_lem das (x ∷ xs) = refl

  written_data :
      (now : ℕ) (fresh padding1 padding2 : List ℕ) (half_mask : ℕ) (first : Bool) (s : BlockCipher)
      (das : DataAckStruct) (payload : List ℕ) (s1 s2 : BlockCipher) (meta bytes buffer : List ℕ)
      → is_low_entropy_protocol das.protocol ≡ false
      → let b = (sealed now padding1 padding2 das).1 in
        let offset = metadata_len cy codec discover pool first b in
        let body = offset + length padding1 in
        let size = payload_len cy codec discover pool payload in
        let total = body + size + length padding2 in
        encrypt cy fresh total s b ≡ ok (s1, meta)
        → encrypt_at cy codec discover pool fresh
            (total - body)
            body
            s1
            payload
            (put_at offset padding1 (put_at 0 meta (pool total)))
          ≡ ok (s2, buffer)
        → put_at (body + size) padding2 buffer ≡ ((meta ++ padding1) ++ bytes) ++ padding2
        → write_data_ack cy codec discover pool now fresh padding1 padding2 half_mask first s das
            payload
          ≡ ok (s2, (sealed now padding1 padding2 das).0, meta ++ (padding1 ++ (bytes ++ padding2)))
  unfolding write_data_ack
  written_data now fresh padding1 padding2 half_mask first s das payload s1 s2 meta bytes buffer low
        e f g =
      rw
        (
          low,
          wire_len_lem (sealed now padding1 padding2 das).0 payload,
          e,
          f,
          g,
          append_assoc (meta ++ padding1) bytes padding2,
          append_assoc meta padding1 (bytes ++ padding2),
        )
        refl

  pub data_crosses :
      (now : ℕ) (fresh padding1 padding2 : List ℕ) (half_mask : ℕ) (first : Bool)
      (s r : BlockCipher) (das : DataAckStruct) (payload : List ℕ)
      → is_low_entropy_protocol das.protocol ≡ false
      → Synced cy s r
      → first ≡ need_send_nonce cy s
      → length fresh ≡ cy.nonce_size
      → DataFrame now fresh padding1 padding2 half_mask first s r das payload
  data_crosses now fresh padding1 padding2 half_mask first s r das payload low y e f =
      let b = (sealed now padding1 padding2 das).1 in
      let offset = metadata_len cy codec discover pool first b in
      let body = offset + length padding1 in
      let size = payload_len cy codec discover pool payload in
      let total = body + size + length padding2 in
      let meta_len = metadata_len_lem cy codec discover pool first s b e in
      let c = crosses cy fresh total s r b y f (omega arith) in
      let meta_size : length c.bytes ≡ offset = c.size ∙ meta_len in
      let start =
        put_at-Filled offset (total - length c.bytes) c.bytes padding1
          (put_at 0 c.bytes (pool total)) (fill_front cy codec discover pool total c.bytes sized)
          (sym meta_size) in
      let p =
        payload_crosses cy codec discover pool fresh (total - body) body
          (total - length c.bytes - length padding1) c.sender c.receiver payload
          (c.bytes ++ padding1) (put_at offset padding1 (put_at 0 c.bytes (pool total)))
          c.synced_after c.running f (omega arith) start
          (omega (arith, meta_size, length-append {0} c.bytes padding1)) in
      let done =
        fill_end cy codec discover pool (body + size)
          (total - length c.bytes - length padding1 - size) ((c.bytes ++ padding1) ++ p.bytes)
          padding2 p.buffer p.filled
          (omega (
            arith,
            meta_size,
            p.size,
            length-append {0} c.bytes padding1,
            length-append {0} (c.bytes ++ padding1) p.bytes,
          ))
          (omega (arith, meta_size)) in
      record {
        sender = p.sender;
        meta = c.bytes;
        rest = padding1 ++ (p.bytes ++ padding2);
        written =
            written_data now fresh padding1 padding2 half_mask first s das payload c.sender p.sender
              c.bytes p.bytes p.buffer low c.sent p.written done;
        meta_size = meta_size;
        between = c.receiver;
        meta_read = c.received;
        receiver = p.receiver;
        rest_read = λ das' more.
            rest_of_data c.receiver p.receiver das' payload padding1 p.bytes padding2 more
              p.received;
        synced_after = p.synced_after;
        running = p.running;
      }
