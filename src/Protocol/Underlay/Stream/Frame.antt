-- ===== src/Protocol/Underlay/Stream/Frame.antt =====
-- What a segment's parts are on the wire, and how they are read again.
use mieru.Common.{
  ℕ, suc, ◌+◌, ◌-◌, ◌≤◌, ◌≡◌, refl, sym, ap, ◌∙◌, subst, Bool, false, Option, some, List, [], ◌∷◌,
  ◌++◌, ◌==◌, ok, length, arith,
}
use mathlib.Core.List.{append-nil}
use mieru.Common.Stream.{read_full, read_full-append}
use mieru.Cipher.{Crypto, BlockCipher, result_len, need_send_nonce}
use mieru.Cipher.Sync.{Synced, Crossed, crosses}
use mieru.Protocol.Underlay.{LowEntropyCodec, default_overhead}
use mieru.Protocol.Underlay.Stream.{
  put_at, skip_padding, payload_len, encrypt_at, read_payload, metadata_len,
}
use mieru.Protocol.Underlay.Stream.Buffer.{Filled, put_at-Filled, Filled-end}

pub skip_padding-append :
    (n : ℕ) (padding rest : List ℕ)
    → n ≡ length padding
    → skip_padding n (padding ++ rest) ≡ ok rest
skip_padding-append n padding rest e = rw (e, read_full-append padding rest) refl

module _ (cy : Crypto) (codec : LowEntropyCodec) (discover : List ℕ → Option BlockCipher)
    (pool : ℕ → List ℕ) where
  -- The payload in the buffer of the sender, and what the receiver makes of it.
  pub record PayloadCrossed (fresh : List ℕ) (room offset : ℕ) (s r : BlockCipher)
      (payload front buf : List ℕ) (m : ℕ) : Type 0 where
    pub sender : BlockCipher
    pub bytes : List ℕ
    pub buffer : List ℕ
    pub written :
        encrypt_at cy codec discover pool fresh room offset s payload buf ≡ ok (sender, buffer)
    pub size : length bytes ≡ payload_len cy codec discover pool payload
    pub filled : Filled (front ++ bytes) (m - payload_len cy codec discover pool payload) buffer
    pub receiver : BlockCipher
    pub received :
        (rest : List ℕ)
        → read_payload cy codec discover pool (length payload) (λ b. ok b) r (bytes ++ rest)
          ≡ ok (receiver, payload, rest)
    pub synced_after : Synced cy sender receiver
    pub running : need_send_nonce cy sender ≡ false

  no_payload :
      (fresh : List ℕ) (room offset m : ℕ) (s r : BlockCipher) (front buf : List ℕ)
      → Synced cy s r
      → need_send_nonce cy s ≡ false
      → Filled front m buf
      → PayloadCrossed fresh room offset s r [] front buf m
  no_payload fresh room offset m s r front buf y run fill = record {
    sender = s;
    bytes = [];
    buffer = buf;
    written = refl;
    size = refl;
    filled = record {
      tail = fill.tail;
      split = fill.split ∙ ap (λ l. l ++ fill.tail) (sym (append-nil front));
      left = omega (arith, fill.left);
    };
    receiver = r;
    received = λ rest. refl;
    synced_after = y;
    running = run;
  }

  some_payload :
      (fresh : List ℕ) (room offset m x : ℕ) (s r : BlockCipher) (xs front buf : List ℕ)
      → (c : Crossed cy fresh room s r (x ∷ xs)) → length c.bytes ≡ length (x ∷ xs) + cy.overhead
      → Filled front m buf
      → offset ≡ length front
      → PayloadCrossed fresh room offset s r (x ∷ xs) front buf m
  some_payload fresh room offset m x s r xs front buf c len fill e = record {
    sender = c.sender;
    bytes = c.bytes;
    buffer = put_at offset c.bytes buf;
    written = rw c.sent refl;
    size = len;
    filled =
        subst (λ n. Filled (front ++ c.bytes) (m - n) (put_at offset c.bytes buf)) len
          (put_at-Filled offset m front c.bytes buf fill e);
    receiver = c.receiver;
    received = λ rest.
        let some_bytes : (suc (length xs) == 0) ≡ false = ground arith in
        let there : read_full (suc (length xs) + default_overhead) (c.bytes ++ rest)
            ≡ some (c.bytes, rest) =
          subst (λ n. read_full n (c.bytes ++ rest) ≡ some (c.bytes, rest))
            (omega (arith, cy.overhead_lem)) (read_full-append c.bytes rest) in
        rw (some_bytes, there, c.received) refl;
    synced_after = c.synced_after;
    running = c.running;
  }

  -- A payload, if there is one, crosses from the sender to the receiver, and fills its place in the
  -- buffer.
  pub payload_crosses :
      (fresh : List ℕ) (room offset m : ℕ) (s r : BlockCipher) (payload front buf : List ℕ)
      → Synced cy s r
      → need_send_nonce cy s ≡ false
      → length fresh ≡ cy.nonce_size
      → payload_len cy codec discover pool payload ≤ room
      → Filled front m buf
      → offset ≡ length front
      → PayloadCrossed fresh room offset s r payload front buf m
  payload_crosses fresh room offset m s r [] front buf y run f h fill e =
      no_payload fresh room offset m s r front buf y run fill
  payload_crosses fresh room offset m s r (x ∷ xs) front buf y run f h fill e =
      let p = x ∷ xs in
      let len : result_len cy s p ≡ length p + cy.overhead + 0 = rw run refl in
      let c = crosses cy fresh room s r p y f (omega arith) in
      some_payload fresh room offset m x s r xs front buf c (omega (arith, c.size, len)) fill e

  -- The metadata at the front of the buffer, and the padding at its end.
  pub fill_front :
      (total : ℕ) (meta : List ℕ)
      → ((n : ℕ) → length (pool n) ≡ n)
      → Filled meta (total - length meta) (put_at 0 meta (pool total))
  fill_front total meta sized =
      put_at-Filled 0 total [] meta (pool total)
        (record { tail = pool total; split = refl; left = sized total }) refl

  pub fill_end :
      (i n : ℕ) (front padding buf : List ℕ)
      → Filled front n buf
      → i ≡ length front
      → n ≡ length padding
      → put_at i padding buf ≡ front ++ padding
  fill_end i n front padding buf fill e m = Filled-end (front ++ padding) (put_at i padding buf) (
      subst (λ k. Filled (front ++ padding) k (put_at i padding buf)) (omega arith)
        (put_at-Filled i n front padding buf fill e))

  pub metadata_len_lem :
      (first : Bool) (s : BlockCipher) (b : List ℕ)
      → first ≡ need_send_nonce cy s
      → result_len cy s b ≡ metadata_len cy codec discover pool first b
  metadata_len_lem first s b e = rw e refl
