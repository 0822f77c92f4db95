-- ===== src/Cipher/Examples.antt =====
-- The transparent cipher: it appends an empty tag.
use mieru.Common.{
  ℕ, ◌-◌, ◌≡◌, ◌≢◌, refl, ap, inl, some, List, [], ◌∷◌, ◌++◌, ok, length, take, replicate,
  length-append, take-length-append, arith,
}
use mieru.Cipher.{Crypto, BlockCipher, encrypt, decrypt, decrypt_stateless_to}
use mieru.Cipher.Nonce.{nonce_after, no_nonce_twice}
use mieru.Cipher.Sync.{
  at, synced, encrypt_all, decrypt_all, stateless, stream_round_trip, packet_round_trip,
}

abbrev tag : List ℕ
tag = replicate 16 0

pub length_without_tag : (p : List ℕ) → length (p ++ tag) - 16 ≡ length p
length_without_tag p = omega (arith, length-append {0} p tag)

abbrev pub transparent : Crypto
transparent = record {
  nonce_size = 24;
  overhead = 16;
  seal = λ key nonce p. p ++ tag;
  open_sealed = λ key nonce b. some (take (length b - 16) b);
  sha256 = λ b. replicate 32 7;
  nonce_size_lem = refl;
  overhead_lem = refl;
  length-seal = λ key nonce p. length-append {0} p tag;
  open_sealed-seal =
      λ key nonce p h. rw (length_without_tag p) (ap some (take-length-append {0} p tag));
  length-sha256 = λ b. refl;
}

abbrev pub nonce : List ℕ
nonce = replicate 24 9

stream_round_trip_example :
    let s = at transparent (1 ∷ []) [] (65 ∷ []) in
    (s' : BlockCipher) × (bs : List (List ℕ)) × (encrypt_all transparent nonce s
        ((1 ∷ 2 ∷ []) ∷ [] ∷ (3 ∷ []) ∷ [])
      ≡ ok (s', bs))
    × (decrypt_all transparent (at transparent (1 ∷ []) [] []) bs
        ≡ ok ((1 ∷ 2 ∷ []) ∷ [] ∷ (3 ∷ []) ∷ []))
stream_round_trip_example =
    stream_round_trip transparent nonce (at transparent (1 ∷ []) [] (65 ∷ []))
      (at transparent (1 ∷ []) [] []) ((1 ∷ 2 ∷ []) ∷ [] ∷ (3 ∷ []) ∷ [])
      (synced (1 ∷ []) [] (65 ∷ []) [] (omega arith) (inl refl)) refl

packet_round_trip_example :
    (b : List ℕ) × (encrypt transparent nonce 100
        (stateless transparent (1 ∷ []) (65 ∷ []))
        (1 ∷ 2 ∷ [])
      ≡ ok (stateless transparent (1 ∷ []) (65 ∷ []), b))
    × (decrypt_stateless_to transparent (stateless transparent (1 ∷ []) []) b ≡ ok (1 ∷ 2 ∷ []))
    × (decrypt transparent (stateless transparent (1 ∷ []) []) b
        ≡ (stateless transparent (1 ∷ []) [], ok (1 ∷ 2 ∷ [])))
packet_round_trip_example =
    packet_round_trip transparent nonce 100 (1 ∷ []) (65 ∷ []) [] (1 ∷ 2 ∷ []) (omega arith) refl
      (omega arith)

no_nonce_twice_example : nonce_after 3 (255 ∷ 255 ∷ []) ≢ nonce_after 700 (255 ∷ 255 ∷ [])
no_nonce_twice_example =
    no_nonce_twice (255 ∷ 255 ∷ []) 3 700 (omega arith, (omega arith, tt)) (omega arith)
      (omega arith)
