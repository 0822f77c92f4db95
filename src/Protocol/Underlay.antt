-- ===== src/Protocol/Underlay.antt =====
-- pkg/protocol/underlay_base.go, the part on low entropy payloads. The codec of low_entropy.go is the
-- interface `LowEntropyCodec`; the half mask that is drawn for a segment is an argument.
pub mod Stream
use mieru.Common.{
  ℕ, ◌+◌, ◌≡◌, Bool, not, List, ◌++◌, ◌==◌, Result, ok, ◌>>=◌, ◌>>◌, fail_if, map_err, length, take,
  drop,
}
use mieru.Cipher.{CipherError}
use mieru.Protocol.Metadata.{DataAckStruct, is_low_entropy_protocol}
use mieru.Protocol.Metadata.DataAck.{UnmarshalError, validate_low_entropy_data_ack_metadata}
use mieru.Protocol.LowEntropy.Params.{
  LowEntropyError, low_entropy_encoded_payload_len, is_valid_low_entropy_rotation,
}

-- `encodeLowEntropyPayload` and `decodeLowEntropyPayload`
pub record LowEntropyCodec : Type 0 where
  pub encode : (src : List ℕ) (mode half_mask rotation : ℕ) → Result LowEntropyError (List ℕ)
  pub decode :
      (encoded : List ℕ) (extracted_len mode half_mask rotation : ℕ)
      → Result LowEntropyError (List ℕ)

-- Why a segment is not written, or not read. The last four are the types of error of the reader.
pub data UnderlayError : Type 0 where
  no_recv_cipher : UnderlayError
  encrypt_failed : CipherError → UnderlayError
  not_low_entropy wrong_plaintext_len wrong_payload_len wrong_rotation : UnderlayError
  wrong_encrypted_len wrong_encoded_len : UnderlayError
  invalid_metadata : UnmarshalError → UnderlayError
  codec_failed : LowEntropyError → UnderlayError
  network_error crypto_error replay_error protocol_error : UnderlayError

abbrev pub default_nonce_size : ℕ
default_nonce_size = 24

abbrev pub default_overhead : ℕ
default_overhead = 16

module _ (codec : LowEntropyCodec) where
  unfoldable pub encode_low_entropy_encrypted_payload :
      List ℕ → DataAckStruct → Result UnderlayError (List ℕ)
  encode_low_entropy_encrypted_payload b das = do
    let n = das.extracted_payload_len
    fail_if (not (length b == n + default_overhead)) wrong_encrypted_len
    body ← map_err codec_failed (
        codec.encode (take n b) das.low_entropy_mode das.low_entropy_mask
          das.low_entropy_mask_rotation)
    fail_if (not (length body == das.payload_len)) wrong_encoded_len
    ok (body ++ drop n b)

  unfoldable pub decode_low_entropy_encrypted_payload :
      List ℕ → DataAckStruct → Result UnderlayError (List ℕ)
  decode_low_entropy_encrypted_payload b das = do
    map_err invalid_metadata (validate_low_entropy_data_ack_metadata das)
    fail_if (not (length b == das.payload_len + default_overhead)) wrong_encrypted_len
    body ← map_err codec_failed (
        codec.decode (take das.payload_len b) das.extracted_payload_len das.low_entropy_mode
          das.low_entropy_mask das.low_entropy_mask_rotation)
    ok (body ++ drop das.payload_len b)

-- `half_mask` is what `newLowEntropyHalfMask` draws for the mode.
unfoldable pub prepare_low_entropy_data_ack_for_send :
    ℕ → DataAckStruct → ℕ → Result UnderlayError DataAckStruct
prepare_low_entropy_data_ack_for_send half_mask das len = do
  fail_if (not (is_low_entropy_protocol das.protocol)) not_low_entropy
  fail_if (not (len == das.extracted_payload_len)) wrong_plaintext_len
  expected ← map_err codec_failed (low_entropy_encoded_payload_len len das.low_entropy_mode)
  fail_if (not (das.payload_len == expected)) wrong_payload_len
  fail_if (not (is_valid_low_entropy_rotation das.low_entropy_mask_rotation)) wrong_rotation
  let das' = record das { low_entropy_mask = half_mask }
  map_err invalid_metadata (validate_low_entropy_data_ack_metadata das')
  ok das'
