-- ===== src/Cipher/Sync.antt =====
-- Two ends of a connection with implicit nonces stay in step.
use mieru.Common.{
  ℕ, suc, ◌+◌, ◌-◌, ◌≤◌, ◌≡◌, refl, sym, ap, ◌∙◌, ◌⊎◌, inl, inr, true, false, List, [], ◌∷◌, ◌++◌,
  ltb, Result, ok, err, ◌>>=◌, length, take, drop, subst, arith, Bool-cases, length-append,
  length-take, take-length-append, drop-length-append,
}
use mieru.Cipher.{
  Crypto, BlockCipher, CipherError, decrypt_stateless_to, is_empty, increase_from, increase_nonce,
  add_user_hint_to_nonce, encrypt, decrypt, result_len, need_send_nonce, max_user_name_len,
}

length-increase_from : (bs : List ℕ) → length (increase_from bs).0 ≡ length bs
length-increase_from [] = refl
length-increase_from (b ∷ bs) = elim (Bool-cases (increase_from bs).1) [
  | inl carry ↦ rw carry (ap suc (length-increase_from bs))
  | inr stays ↦ rw stays (ap suc (length-increase_from bs))
]

module _ (cy : Crypto) where
  abbrev pub IsSized : List ℕ → Type 0
  IsSized nonce = length nonce ≡ cy.nonce_size

  hinted :
      (c : BlockCipher) (nonce : List ℕ)
      → length c.user_name ≤ max_user_name_len
      → IsSized nonce
      → (n : List ℕ) × (add_user_hint_to_nonce cy c nonce ≡ ok n) × IsSized n
  unfolding add_user_hint_to_nonce
  hinted c nonce fits len = elim (Bool-cases (is_empty c.user_name)) [
    | inl unnamed ↦ rw unnamed (nonce, refl, len)
    | inr named ↦
        let short : ltb max_user_name_len (length c.user_name) ≡ false = ground arith in
        let long : ltb (length nonce) 20 ≡ false = ground (arith, cy.nonce_size_lem) in
        let output = cy.sha256 (c.user_name ++ take 16 nonce) in
        rw (named, short, long)
          (
            _,
            refl,
            omega (
              arith,
              cy.nonce_size_lem,
              cy.length-sha256 (c.user_name ++ take 16 nonce),
              length-append {0} (take (length nonce - 4) nonce) (take 4 output),
              length-take {0} (length nonce - 4) nonce,
              length-take {0} 4 output,
            ),
          )
  ]

  abbrev pub UnsetOrSized : List ℕ → Type 0
  UnsetOrSized nonce = (nonce ≡ []) ⊎ IsSized nonce

  -- A cipher that sends or receives a stream, with the nonce of its last message.
  abbrev pub at : (key nonce user_name : List ℕ) → BlockCipher
  at key nonce user_name = record {
    key = key;
    enable_implicit_nonce = true;
    implicit_nonce = nonce;
    user_name = user_name;
  }

  -- A sender and a receiver of one direction that have seen the same messages.
  pub data Synced : BlockCipher → BlockCipher → Type 0 where
    synced :
        (key nonce sender_name receiver_name : List ℕ)
        → length sender_name ≤ max_user_name_len
        → UnsetOrSized nonce
        → Synced (at key nonce sender_name) (at key nonce receiver_name)

  -- What the sender makes of `p` has the expected length, the receiver makes `p` of it, and both
  -- are in step again.
  pub record Crossed (fresh : List ℕ) (room : ℕ) (s r : BlockCipher) (p : List ℕ) : Type 0 where
    pub sender : BlockCipher
    pub bytes : List ℕ
    pub sent : encrypt cy fresh room s p ≡ ok (sender, bytes)
    pub size : length bytes ≡ result_len cy s p
    pub receiver : BlockCipher
    pub received : decrypt cy r bytes ≡ (receiver, ok p)
    pub synced_after : Synced sender receiver
    pub running : need_send_nonce cy sender ≡ false

  sized_is_set : (nonce : List ℕ) → IsSized nonce → is_empty nonce ≡ false
  sized_is_set [] h = absurd (omega (arith, cy.nonce_size_lem))
  sized_is_set (b ∷ bs) h = refl

  encrypt_first :
      (fresh : List ℕ) (room : ℕ) (key su p nonce : List ℕ)
      → add_user_hint_to_nonce cy (at key [] su) fresh ≡ ok nonce
      → length p + cy.overhead + cy.nonce_size ≤ room
      → encrypt cy fresh room (at key [] su) p ≡ ok (at key nonce su, nonce ++ cy.seal key nonce p)
  unfolding encrypt
  encrypt_first fresh room key su p nonce hint h =
      let fits : ltb room (length p + cy.overhead + cy.nonce_size) ≡ false = ground arith in
      rw (fits, hint) refl

  decrypt_first :
      (key ru p nonce : List ℕ)
      → IsSized nonce
      → decrypt cy (at key [] ru) (nonce ++ cy.seal key nonce p) ≡ (at key nonce ru, ok p)
  unfolding decrypt
  decrypt_first key ru p nonce len =
      let c = cy.seal key nonce p in
      let front : take cy.nonce_size (nonce ++ c) ≡ nonce =
        subst (λ n. take n (nonce ++ c) ≡ nonce) len (take-length-append {0} nonce c) in
      let back : drop cy.nonce_size (nonce ++ c) ≡ c =
        subst (λ n. drop n (nonce ++ c) ≡ c) len (drop-length-append {0} nonce c) in
      let long : ltb (length (nonce ++ c)) cy.nonce_size ≡ false =
        ground (arith, length-append {0} nonce c) in
      rw (long, front, back, cy.open_sealed-seal key nonce p len) refl

  later_nonce : (nonce : List ℕ) → IsSized nonce → IsSized (increase_nonce nonce)
  later_nonce nonce len = length-increase_from nonce ∙ len

  encrypt_later :
      (fresh : List ℕ) (room : ℕ) (key su p nonce : List ℕ)
      → IsSized nonce
      → length p + cy.overhead ≤ room
      → let next = increase_nonce nonce in
        encrypt cy fresh room (at key nonce su) p ≡ ok (at key next su, cy.seal key next p)
  unfolding encrypt
  encrypt_later fresh room key su p nonce len h =
      let fits : ltb room (length p + cy.overhead + 0) ≡ false = ground arith in
      rw (sized_is_set nonce len, fits) refl

  decrypt_later :
      (key ru p nonce : List ℕ)
      → IsSized nonce
      → let next = increase_nonce nonce in
        decrypt cy (at key nonce ru) (cy.seal key next p) ≡ (at key next ru, ok p)
  unfolding decrypt
  decrypt_later key ru p nonce len =
      rw
        (
          sized_is_set nonce len,
          cy.open_sealed-seal key (increase_nonce nonce) p (later_nonce nonce len),
        )
        refl

  first_crosses :
      (fresh : List ℕ) (room : ℕ) (key su ru p : List ℕ)
      → length su ≤ max_user_name_len
      → IsSized fresh
      → length p + cy.overhead + cy.nonce_size ≤ room
      → Crossed fresh room (at key [] su) (at key [] ru) p
  first_crosses fresh room key su ru p named f h =
      let (nonce, hint, len) = hinted (at key [] su) fresh named f in
      record {
        sender = at key nonce su;
        bytes = nonce ++ cy.seal key nonce p;
        sent = encrypt_first fresh room key su p nonce hint h;
        size =
            omega
              (arith, length-append {0} nonce (cy.seal key nonce p), cy.length-seal key nonce p);
        receiver = at key nonce ru;
        received = decrypt_first key ru p nonce len;
        synced_after = synced key nonce su ru named (inr len);
        running = sized_is_set nonce len;
      }

  later_crosses :
      (fresh : List ℕ) (room : ℕ) (key nonce su ru p : List ℕ)
      → length su ≤ max_user_name_len
      → IsSized nonce
      → result_len cy (at key nonce su) p ≤ room
      → Crossed fresh room (at key nonce su) (at key nonce ru) p
  later_crosses fresh room key nonce su ru p named len h =
      let next = increase_nonce nonce in
      let size : result_len cy (at key nonce su) p ≡ length p + cy.overhead + 0 =
        rw (sized_is_set nonce len) refl in
      record {
        sender = at key next su;
        bytes = cy.seal key next p;
        sent = encrypt_later fresh room key su p nonce len (omega arith);
        size = omega (arith, size, cy.length-seal key next p);
        receiver = at key next ru;
        received = decrypt_later key ru p nonce len;
        synced_after = synced key next su ru named (inr (later_nonce nonce len));
        running = sized_is_set next (later_nonce nonce len);
      }

  -- A message of a sender in step with its receiver: `Encrypt` succeeds with enough room, its output
  -- has the length that the callers allow for, `Decrypt` gives the message back, both ends are in step
  -- again, and no later message carries a nonce.
  pub crosses :
      (fresh : List ℕ) (room : ℕ) (s r : BlockCipher) (p : List ℕ)
      → Synced s r
      → length fresh ≡ cy.nonce_size
      → result_len cy s p ≤ room
      → Crossed fresh room s r p
  crosses fresh room s r p (synced key nonce su ru named (inl e)) f h =
      subst (λ n. Crossed fresh room (at key n su) (at key n ru) p) (sym e)
        (first_crosses fresh room key su ru p named f (rw e at h))
  crosses fresh room s r p (synced key nonce su ru named (inr len)) f h =
      later_crosses fresh room key nonce su ru p named len h

  -- Messages one after the other, into buffers of the length that the callers allow for.
  abbrev pub encrypt_all :
      List ℕ → BlockCipher → List (List ℕ) → Result CipherError (BlockCipher × List (List ℕ))
  encrypt_all fresh s [] = ok (s, [])
  encrypt_all fresh s (p ∷ ps) = do
    (s', b) ← encrypt cy fresh (result_len cy s p) s p
    (s'', bs) ← encrypt_all fresh s' ps
    ok (s'', b ∷ bs)

  abbrev pub received_with :
      BlockCipher × Result CipherError (List ℕ)
      → (BlockCipher → Result CipherError (List (List ℕ)))
      → Result CipherError (List (List ℕ))
  received_with (r, err e) rest = err e
  received_with (r, ok p) rest = rest r >>= λ ps. ok (p ∷ ps)

  abbrev pub decrypt_all : BlockCipher → List (List ℕ) → Result CipherError (List (List ℕ))
  decrypt_all r [] = ok []
  decrypt_all r (b ∷ bs) = received_with (decrypt cy r b) (λ r'. decrypt_all r' bs)

  -- Any messages that a sender encrypts one after the other, its receiver decrypts to what they were,
  -- in order.
  pub stream_round_trip :
      (fresh : List ℕ) (s r : BlockCipher) (ps : List (List ℕ))
      → Synced s r
      → length fresh ≡ cy.nonce_size
      → (s' : BlockCipher) × (bs : List (List ℕ)) × (encrypt_all fresh s ps ≡ ok (s', bs))
        × (decrypt_all r bs ≡ ok ps)
  stream_round_trip fresh s r [] y f = (s, [], refl, refl)
  stream_round_trip fresh s r (p ∷ ps) y f =
      let c = crosses fresh (result_len cy s p) s r p y f (omega arith) in
      let (s', bs, sent, received) =
        stream_round_trip fresh c.sender c.receiver ps c.synced_after f in
      (s', c.bytes ∷ bs, rw (c.sent, sent) refl, rw (c.received, received) refl)

  abbrev pub stateless : (key user_name : List ℕ) → BlockCipher
  stateless key user_name = record {
    key = key;
    enable_implicit_nonce = false;
    implicit_nonce = [];
    user_name = user_name;
  }

  -- A packet that a stateless cipher encrypts with a fresh nonce, a cipher with the same key decrypts
  -- without any state, and `Decrypt` agrees with `DecryptStatelessTo` and changes nothing.
  pub packet_round_trip :
      (fresh : List ℕ) (room : ℕ) (key su ru p : List ℕ)
      → length su ≤ max_user_name_len
      → length fresh ≡ cy.nonce_size
      → length p + cy.overhead + cy.nonce_size ≤ room
      → (b : List ℕ) × (encrypt cy fresh room (stateless key su) p ≡ ok (stateless key su, b))
        × (decrypt_stateless_to cy (stateless key ru) b ≡ ok p)
        × (decrypt cy (stateless key ru) b ≡ (stateless key ru, ok p))
  unfolding encrypt decrypt decrypt_stateless_to
  packet_round_trip fresh room key su ru p named f h =
      let (nonce, hint, len) = hinted (stateless key su) fresh named f in
      let c = cy.seal key nonce p in
      let fits : ltb room (length p + cy.overhead + cy.nonce_size) ≡ false = ground arith in
      let front : take cy.nonce_size (nonce ++ c) ≡ nonce =
        subst (λ n. take n (nonce ++ c) ≡ nonce) len (take-length-append {0} nonce c) in
      let back : drop cy.nonce_size (nonce ++ c) ≡ c =
        subst (λ n. drop n (nonce ++ c) ≡ c) len (drop-length-append {0} nonce c) in
      let long : ltb (length (nonce ++ c)) cy.nonce_size ≡ false =
        ground (arith, length-append {0} nonce c) in
      let there = cy.open_sealed-seal key nonce p len in
      (
        nonce ++ c,
        rw (fits, hint) refl,
        rw (long, front, back, there) refl,
        rw (long, front, back, there) refl,
      )
