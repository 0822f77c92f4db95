-- ===== src/Protocol/Underlay/Stream/SessionFrame.antt =====
-- Segments with session metadata on the wire.
use mieru.Common.{
  ℕ, ◌+◌, ◌-◌, ◌%◌, ◌^◌, ◌≡◌, refl, ◌∙◌, Bool, false, Option, List, ◌++◌, ok, length, arith,
  length-append,
}
use mathlib.Core.List.{append_assoc}
use mieru.Cipher.{Crypto, BlockCipher, encrypt, decrypt, need_send_nonce}
use mieru.Cipher.Sync.{Synced, crosses}
use mieru.Protocol.Metadata.{SessionStruct}
use mieru.Protocol.Metadata.Session.{marshal}
use mieru.Protocol.Metadata.{session}
use mieru.Protocol.Session.Send.{new_segment}
use mieru.Protocol.Underlay.{LowEntropyCodec}
use mieru.Protocol.Underlay.Stream.{
  put_at, payload_len, encrypt_at, metadata_len, write_session, read_payload, read_session_segment,
}
use mieru.Protocol.Underlay.Stream.Frame.{
  payload_crosses, fill_front, fill_end, metadata_len_lem, skip_padding-append,
}

module _ (cy : Crypto) (codec : LowEntropyCodec) (discover : List ℕ → Option BlockCipher)
    (pool : ℕ → List ℕ) (sized : (n : ℕ) → length (pool n) ≡ n) where
  abbrev pub sealed : ℕ → List ℕ → SessionStruct → SessionStruct × List ℕ
  sealed now padding ss = marshal now (record ss { suffix_len = length padding % 2 ^ 8 })

  -- The bytes of a segment, in their parts, and what the receiver makes of them.
  pub record SessionFrame (now : ℕ) (fresh padding : List ℕ) (first : Bool) (s r : BlockCipher)
      (ss : SessionStruct) (payload : List ℕ) : Type 0 where
    pub sender : BlockCipher
    pub meta : List ℕ
    pub rest : List ℕ
    pub written :
        write_session cy codec discover pool now fresh padding first s ss payload
        ≡ ok (sender, (sealed now padding ss).0, meta ++ rest)
    pub meta_size :
        length meta ≡ metadata_len cy codec discover pool first (sealed now padding ss).1
    pub between : BlockCipher
    pub meta_read : decrypt cy r meta ≡ (between, ok (sealed now padding ss).1)
    pub receiver : BlockCipher
    pub rest_read :
        (ss' : SessionStruct) (more : List ℕ)
        → ss'.payload_len ≡ length payload
        → ss'.suffix_len ≡ length padding
        → read_session_segment cy codec discover pool between ss' (rest ++ more)
          ≡ ok (receiver, new_segment (session ss') payload, more)
    pub synced_after : Synced cy sender receiver
    pub running : need_send_nonce cy sender ≡ false

  rest_of_session :
      (between receiver : BlockCipher) (ss : SessionStruct) (payload bytes padding more : List ℕ)
      → ((rest : List ℕ)
          → read_payload cy codec discover pool (length payload) (λ b. ok b) between (bytes ++ rest)
            ≡ ok (receiver, payload, rest))
      → ss.payload_len ≡ length payload
      → ss.suffix_len ≡ length padding
      → read_session_segment cy codec discover pool between ss ((bytes ++ padding) ++ more)
        ≡ ok (receiver, new_segment (session ss) payload, more)
  unfolding read_session_segment
  rest_of_session between receiver ss payload bytes padding more received len suffix =
      rw
        (
          append_assoc bytes padding more,
          len,
          received (padding ++ more),
          skip_padding-append ss.suffix_len padding more suffix,
        )
        refl

  written_session :
      (now : ℕ) (fresh padding : List ℕ) (first : Bool) (s : BlockCipher) (ss : SessionStruct)
      (payload : List ℕ) (s1 s2 : BlockCipher) (meta bytes buffer : List ℕ)
      → let b = (sealed now padding ss).1 in
        let offset = metadata_len cy codec discover pool first b in
        let size = payload_len cy codec discover pool payload in
        let total = offset + size + length padding in
        encrypt cy fresh total s b ≡ ok (s1, meta)
        → encrypt_at cy codec discover pool fresh
            (total - offset)
            offset
            s1
            payload
            (put_at 0 meta (pool total))
          ≡ ok (s2, buffer)
        → put_at (offset + size) padding buffer ≡ (meta ++ bytes) ++ padding
        → write_session cy codec discover pool now fresh padding first s ss payload
          ≡ ok (s2, (sealed now padding ss).0, meta ++ (bytes ++ padding))
  unfolding write_session
  written_session now fresh padding first s ss payload s1 s2 meta bytes buffer e f g =
      rw (e, f, g, append_assoc meta bytes padding) refl

  pub session_crosses :
      (now : ℕ) (fresh padding : List ℕ) (first : Bool) (s r : BlockCipher) (ss : SessionStruct)
      (payload : List ℕ)
      → Synced cy s r
      → first ≡ need_send_nonce cy s
      → length fresh ≡ cy.nonce_size
      → SessionFrame now fresh padding first s r ss payload
  session_crosses now fresh padding first s r ss payload y e f =
      let b = (sealed now padding ss).1 in
      let offset = metadata_len cy codec discover pool first b in
      let size = payload_len cy codec discover pool payload in
      let total = offset + size + length padding in
      let meta_len = metadata_len_lem cy codec discover pool first s b e in
      let c = crosses cy fresh total s r b y f (omega arith) in
      let p =
        payload_crosses cy codec discover pool fresh (total - offset) offset
          (total - length c.bytes) c.sender c.receiver payload c.bytes
          (put_at 0 c.bytes (pool total)) c.synced_after c.running f (omega arith)
          (fill_front cy codec discover pool total c.bytes sized) (omega (arith, c.size)) in
      let done =
        fill_end cy codec discover pool (offset + size) (total - length c.bytes - size)
          (c.bytes ++ p.bytes) padding p.buffer p.filled
          (omega (arith, c.size, p.size, length-append {0} c.bytes p.bytes))
          (omega (arith, c.size)) in
      record {
        sender = p.sender;
        meta = c.bytes;
        rest = p.bytes ++ padding;
        written =
            written_session now fresh padding first s ss payload c.sender p.sender c.bytes p.bytes
              p.buffer c.sent p.written done;
        meta_size = c.size ∙ meta_len;
        between = c.receiver;
        meta_read = c.received;
        receiver = p.receiver;
        rest_read = λ ss' more.
            rest_of_session c.receiver p.receiver ss' payload p.bytes padding more p.received;
        synced_after = p.synced_after;
        running = p.running;
      }
