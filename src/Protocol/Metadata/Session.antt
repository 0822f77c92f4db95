-- ===== src/Protocol/Metadata/Session.antt =====
-- pkg/protocol/metadata.go: `sessionStruct` on the wire. `now` is `uint32(time.Now().Unix() / 60)`.
use mieru.Common.{
  ℕ, ◌≤◌, ◌≡◌, true, not, List, arith, ltb, ◌==◌, Result, ok, ◌>>◌, fail_if, length, get_or, set,
  replicate,
}
use mieru.Common.Bytes.{
  IsByte, IsU16, IsU32, uint16, uint32, put_uint16, put_uint32, uint16_parts, uint32_parts,
}
use mieru.Mathext.Numbers.{within_range}
use mieru.Protocol.Metadata.{
  SessionStruct, metadata_length, max_session_open_payload, is_session_protocol,
}

pub data UnmarshalError : Type 0 where
  bad_length bad_protocol bad_timestamp payload_too_long : UnmarshalError

-- `Marshal` stamps the struct with the current time, and writes it into 32 zero bytes.
unfoldable pub marshal : ℕ → SessionStruct → SessionStruct × List ℕ
marshal now ss =
    let b = set (replicate metadata_length 0) 0 ss.protocol in
    let ss' = record ss { base_struct = record ss.base_struct { timestamp = now } } in
    let b = put_uint32 b 2 ss'.timestamp in
    let b = put_uint32 b 6 ss'.session_id in
    let b = put_uint32 b 10 ss'.seq in
    let b = set b 14 ss'.status_code in
    let b = put_uint16 b 15 ss'.payload_len in let b = set b 17 ss'.suffix_len in (ss', b)

unfoldable pub unmarshal : ℕ → List ℕ → Result UnmarshalError SessionStruct
unmarshal now b = do
  fail_if (not (length b == metadata_length)) bad_length
  fail_if (not (is_session_protocol (get_or b 0 0))) bad_protocol
  let original_timestamp = uint32 b 2
  fail_if (not (within_range 32 now original_timestamp 1)) bad_timestamp
  let payload_len = uint16 b 15
  fail_if (ltb max_session_open_payload payload_len) payload_too_long
  ok (record {
    base_struct = record { protocol = get_or b 0 0; timestamp = original_timestamp };
    session_id = uint32 b 6;
    seq = uint32 b 10;
    status_code = get_or b 14 0;
    payload_len = payload_len;
    suffix_len = get_or b 17 0;
  })

-- Every field is within its Go type.
pub record Fits (ss : SessionStruct) : Type 0 where
  pub session_id : IsU32 ss.session_id
  pub seq : IsU32 ss.seq
  pub status_code : IsByte ss.status_code
  pub payload_len : IsU16 ss.payload_len
  pub suffix_len : IsByte ss.suffix_len

pub session_round_trip :
    (sent received : ℕ) (ss : SessionStruct)
    → Fits ss
    → is_session_protocol ss.protocol ≡ true
    → ss.payload_len ≤ max_session_open_payload
    → IsU32 sent
    → within_range 32 received sent 1 ≡ true
    → let (stamped, b) = marshal sent ss in unmarshal received b ≡ ok stamped
unfolding marshal unmarshal
session_round_trip sent received ss fits p len s r = ground (
  arith,
  uint32_parts sent s,
  uint32_parts ss.session_id fits.session_id,
  uint32_parts ss.seq fits.seq,
  uint16_parts ss.payload_len fits.payload_len,
)
