-- ===== src/Protocol/Metadata/DataAck.antt =====
-- pkg/protocol/metadata.go: `dataAckStruct` on the wire, with its low entropy fields.
pub mod RoundTrip
use mieru.Common.{
  ℕ, ◌+◌, ◌%◌, ◌≤◌, ◌<◌, ◌^◌, ◌≡◌, refl, ◌⊎◌, inl, inr, Bool, Bool-cases, true, false, not, List,
  arith, leb, ltb, ◌==◌, Result, ok, err, ◌>>=◌, ◌>>◌, fail_if, map_err, length, get_or, set,
  replicate, if◌then◌else◌,
}
use mieru.Common.Bytes.{
  IsByte, IsU16, IsU32, uint16, uint32, put_uint16, put_uint32, uint16_parts, uint32_parts,
}
use mieru.Mathext.Numbers.{within_range}
use mieru.Protocol.Metadata.{
  BaseStruct, DataAckStruct, metadata_length, is_data_ack_protocol, is_low_entropy_protocol,
}
use mieru.Protocol.LowEntropy.Params.{
  LowEntropyError, chunk_len, low_entropy_encoded_payload_len, validate_low_entropy_codec_params,
}

pub data UnmarshalError : Type 0 where
  bad_length bad_protocol bad_timestamp : UnmarshalError
  not_low_entropy extracted_too_long not_whole_chunks payload_len_mismatch : UnmarshalError
  low_entropy : LowEntropyError → UnmarshalError

-- `maxPDU`
abbrev pub max_pdu : ℕ
max_pdu = 32768

unfoldable pub validate_low_entropy_data_ack_metadata :
    DataAckStruct → Result UnmarshalError (Unit {0})
unfolding validate_low_entropy_codec_params low_entropy_encoded_payload_len
validate_low_entropy_data_ack_metadata das = do
  fail_if (not (is_low_entropy_protocol das.protocol)) not_low_entropy
  fail_if (ltb max_pdu das.extracted_payload_len) extracted_too_long
  fail_if (not (das.payload_len % chunk_len == 0)) not_whole_chunks
  params ← map_err low_entropy (
      validate_low_entropy_codec_params das.low_entropy_mode das.low_entropy_mask
        das.low_entropy_mask_rotation)
  expected ←
      (if das.extracted_payload_len == 0
        then ok 0
        else map_err low_entropy
            (low_entropy_encoded_payload_len das.extracted_payload_len das.low_entropy_mode))
  fail_if (not (das.payload_len == expected)) payload_len_mismatch

abbrev stamp : ℕ → DataAckStruct → DataAckStruct
stamp now das = record das { base_struct = record das.base_struct { timestamp = now } }

unfoldable pub marshal : ℕ → DataAckStruct → DataAckStruct × List ℕ
marshal now das =
    let b = set (replicate metadata_length 0) 0 das.protocol in
    let b = if is_low_entropy_protocol das.protocol then set b 1 das.low_entropy_mode else b in
    let das' = stamp now das in
    let b = put_uint32 b 2 das'.timestamp in
    let b = put_uint32 b 6 das'.session_id in
    let b = put_uint32 b 10 das'.seq in
    let b = put_uint32 b 14 das'.un_ack_seq in
    let b = put_uint16 b 18 das'.window_size in
    let b = set b 20 das'.fragment in
    let b = set b 21 das'.prefix_len in
    let b = put_uint16 b 22 das'.payload_len in
    let b = set b 24 das'.suffix_len in
    let b =
      if is_low_entropy_protocol das.protocol
      then set (put_uint16 (put_uint32 b 25 das'.low_entropy_mask) 29 das'.extracted_payload_len) 31
          das'.low_entropy_mask_rotation
      else b in
    (das', b)

-- The struct that `Unmarshal` validates before it reads the rest.
abbrev candidate : List ℕ → DataAckStruct
candidate b = record {
  base_struct = record { protocol = get_or b 0 0; timestamp = 0 };
  low_entropy_mode = get_or b 1 0;
  session_id = 0;
  seq = 0;
  un_ack_seq = 0;
  window_size = 0;
  fragment = 0;
  prefix_len = 0;
  payload_len = uint16 b 22;
  suffix_len = 0;
  low_entropy_mask = uint32 b 25;
  extracted_payload_len = uint16 b 29;
  low_entropy_mask_rotation = get_or b 31 0;
}

unfoldable pub unmarshal : ℕ → List ℕ → Result UnmarshalError DataAckStruct
unmarshal now b = do
  fail_if (not (length b == metadata_length)) bad_length
  let protocol = get_or b 0 0
  let low_entropy = is_low_entropy_protocol protocol
  fail_if (not (is_data_ack_protocol protocol)) bad_protocol
  let original_timestamp = uint32 b 2
  fail_if (not (within_range 32 now original_timestamp 1)) bad_timestamp
  (if low_entropy then validate_low_entropy_data_ack_metadata (candidate b) else ok tt)
  ok (record {
    base_struct = record { protocol = protocol; timestamp = original_timestamp };
    low_entropy_mode = if low_entropy then get_or b 1 0 else 0;
    session_id = uint32 b 6;
    seq = uint32 b 10;
    un_ack_seq = uint32 b 14;
    window_size = uint16 b 18;
    fragment = get_or b 20 0;
    prefix_len = get_or b 21 0;
    payload_len = uint16 b 22;
    suffix_len = get_or b 24 0;
    low_entropy_mask = if low_entropy then uint32 b 25 else 0;
    extracted_payload_len = if low_entropy then uint16 b 29 else 0;
    low_entropy_mask_rotation = if low_entropy then get_or b 31 0 else 0;
  })
