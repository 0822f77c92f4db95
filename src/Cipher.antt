-- ===== src/Cipher.antt =====
-- pkg/cipher/cipher.go: `aeadBlockCipher`. The AEAD algorithm of golang.org/x/crypto and the SHA-256
-- of the standard library are the parameter `Crypto`, with what their documentation says. A nonce of
-- `newNonce`, which is random, is an argument.
pub mod Nonce
pub mod Sync
pub mod Examples
use mieru.Common.{
  ℕ, ◌+◌, ◌-◌, ◌%◌, ◌^◌, ◌≡◌, Bool, true, false, not, ◌||◌, Option, none, some, List, [], ◌∷◌, ◌++◌,
  leb, ltb, ◌==◌, if◌then◌else◌, Result, ok, err, ◌>>=◌, ◌>>◌, fail_if, length, take, drop,
}

pub record Crypto : Type 0 where
  pub nonce_size : ℕ
  pub overhead : ℕ
  pub seal : (key nonce plaintext : List ℕ) → List ℕ
  pub open_sealed : (key nonce ciphertext : List ℕ) → Option (List ℕ)
  pub sha256 : List ℕ → List ℕ
  pub nonce_size_lem : nonce_size ≡ 24
  pub overhead_lem : overhead ≡ 16
  pub length-seal : (key nonce p : List ℕ) → length (seal key nonce p) ≡ length p + overhead
  pub open_sealed-seal :
      (key nonce p : List ℕ)
      → length nonce ≡ nonce_size
      → open_sealed key nonce (seal key nonce p) ≡ some p
  pub length-sha256 : (b : List ℕ) → length (sha256 b) ≡ 32

pub data CipherError : Type 0 where
  destination_too_small ciphertext_too_short open_failed : CipherError
  not_supported wrong_nonce_size unable_to_decrypt user_hint_panic : CipherError

-- `aeadBlockCipher`, without the nonce pattern. An empty `implicit_nonce` is one that is not set.
pub record BlockCipher : Type 0 where
  pub key : List ℕ
  pub enable_implicit_nonce : Bool
  pub implicit_nonce : List ℕ
  pub user_name : List ℕ

abbrev pub max_user_name_len : ℕ
max_user_name_len = 64

abbrev pub nonce_prefix_len_for_user_hint : ℕ
nonce_prefix_len_for_user_hint = 16

abbrev pub nonce_suffix_len_for_user_hint : ℕ
nonce_suffix_len_for_user_hint = 4

abbrev pub is_empty : List ℕ → Bool
is_empty [] = true
is_empty (b ∷ bs) = false

-- The loop of `increaseNonce` from the last byte on; it goes on with the byte before as long as the
-- increased one is 0.
abbrev pub increase_from : List ℕ → List ℕ × Bool
increase_from [] = ([], true)
increase_from (b ∷ bs) =
    let (bs', carry) = increase_from bs in
    let b' = (b + 1) % 2 ^ 8 in if carry then (b' ∷ bs', b' == 0) else (b ∷ bs', false)

abbrev pub increase_nonce : List ℕ → List ℕ
increase_nonce nonce = (increase_from nonce).0

-- `Clone`
abbrev pub clone : BlockCipher → BlockCipher
clone c = record {
  key = c.key;
  enable_implicit_nonce = c.enable_implicit_nonce;
  implicit_nonce = c.implicit_nonce;
  user_name = c.user_name;
}

-- `SetImplicitNonceMode`
abbrev pub set_implicit_nonce_mode : Bool → BlockCipher → BlockCipher
set_implicit_nonce_mode true c = record c { enable_implicit_nonce = true }
set_implicit_nonce_mode false c = record c { enable_implicit_nonce = false; implicit_nonce = [] }

module _ (cy : Crypto) where
  -- `addUserHintToNonce`
  unfoldable pub add_user_hint_to_nonce : BlockCipher → List ℕ → Result CipherError (List ℕ)
  add_user_hint_to_nonce c nonce =
      let input = c.user_name ++ take nonce_prefix_len_for_user_hint nonce in
      let output = take nonce_suffix_len_for_user_hint (cy.sha256 input) in
      if is_empty c.user_name
      then ok nonce
      else if ltb max_user_name_len (length c.user_name)
      then err user_hint_panic
      else if ltb (length nonce) (nonce_prefix_len_for_user_hint + nonce_suffix_len_for_user_hint)
      then err user_hint_panic
      else ok (take (length nonce - nonce_suffix_len_for_user_hint) nonce ++ output)

  abbrev pub need_send_nonce : BlockCipher → Bool
  need_send_nonce c = not c.enable_implicit_nonce || is_empty c.implicit_nonce

  abbrev pub result_len : BlockCipher → List ℕ → ℕ
  result_len c p = length p + cy.overhead + (if need_send_nonce c then cy.nonce_size else 0)

  -- `Encrypt` into a buffer with `room` bytes left; `fresh` is a new nonce.
  unfoldable pub encrypt :
      List ℕ → ℕ → BlockCipher → List ℕ → Result CipherError (BlockCipher × List ℕ)
  encrypt fresh room c p = do
    fail_if (ltb room (result_len c p)) destination_too_small
    (if need_send_nonce c
        then (do
          nonce ← add_user_hint_to_nonce c fresh
          let c' = if c.enable_implicit_nonce then record c { implicit_nonce = nonce } else c
          ok (c', nonce ++ cy.seal c.key nonce p))
        else let nonce = increase_nonce c.implicit_nonce in
          ok (record c { implicit_nonce = nonce }, cy.seal c.key nonce p))

  -- `EncryptWithNonce`
  unfoldable pub encrypt_with_nonce :
      ℕ → BlockCipher → List ℕ → List ℕ → Result CipherError (List ℕ)
  encrypt_with_nonce room c nonce p = do
    fail_if c.enable_implicit_nonce not_supported
    fail_if (not (length nonce == cy.nonce_size)) wrong_nonce_size
    fail_if (ltb room (length p + cy.overhead)) destination_too_small
    ok (cy.seal c.key nonce p)

  abbrev pub opened : Option (List ℕ) → Result CipherError (List ℕ)
  opened none = err open_failed
  opened (some p) = ok p

  -- `Decrypt`: a failure to open leaves the nonce that was tried.
  unfoldable pub decrypt : BlockCipher → List ℕ → BlockCipher × Result CipherError (List ℕ)
  decrypt c b =
      let front = take cy.nonce_size b in
      let back = drop cy.nonce_size b in
      let next = increase_nonce c.implicit_nonce in
      if need_send_nonce c
      then if ltb (length b) cy.nonce_size then (c, err ciphertext_too_short) else (
        if c.enable_implicit_nonce then record c { implicit_nonce = front } else c,
        opened (cy.open_sealed c.key front back),
      )
      else (record c { implicit_nonce = next }, opened (cy.open_sealed c.key next b))

  -- `DecryptWithNonce`
  unfoldable pub decrypt_with_nonce : BlockCipher → List ℕ → List ℕ → Result CipherError (List ℕ)
  decrypt_with_nonce c b nonce = do
    fail_if c.enable_implicit_nonce not_supported
    fail_if (not (length nonce == cy.nonce_size)) wrong_nonce_size
    opened (cy.open_sealed c.key nonce b)

  -- `DecryptStatelessTo` into an empty buffer
  unfoldable pub decrypt_stateless_to : BlockCipher → List ℕ → Result CipherError (List ℕ)
  decrypt_stateless_to c b = do
    fail_if (ltb (length b) cy.nonce_size) ciphertext_too_short
    opened (cy.open_sealed c.key (take cy.nonce_size b) (drop cy.nonce_size b))

  -- `selectDecryptStateless`: the first cipher that decrypts the data
  unfoldable pub select_decrypt_stateless :
      List ℕ → List BlockCipher → Result CipherError (BlockCipher × List ℕ)
  select_decrypt_stateless b [] = err unable_to_decrypt
  select_decrypt_stateless b (c ∷ cs) =
      let rest = select_decrypt_stateless b cs in
      elim (decrypt_stateless_to c b) [ ok p ↦ ok (c, p) | err e ↦ rest ]
