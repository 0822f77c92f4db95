-- ===== src/Protocol/Metadata.antt =====
-- pkg/protocol/metadata.go: the two kinds of metadata and their protocol types.
pub mod Session
pub mod DataAck
mod Examples
use mieru.Common.{ℕ, Bool, ◌||◌, ◌==◌}

-- `protocolType` and its constants
abbrev pub close_conn_request : ℕ
close_conn_request = 0

abbrev pub close_conn_response : ℕ
close_conn_response = 1

abbrev pub open_session_request : ℕ
open_session_request = 2

abbrev pub open_session_response : ℕ
open_session_response = 3

abbrev pub close_session_request : ℕ
close_session_request = 4

abbrev pub close_session_response : ℕ
close_session_response = 5

abbrev pub data_client_to_server : ℕ
data_client_to_server = 6

abbrev pub data_server_to_client : ℕ
data_server_to_client = 7

abbrev pub ack_client_to_server : ℕ
ack_client_to_server = 8

abbrev pub ack_server_to_client : ℕ
ack_server_to_client = 9

abbrev pub data_client_to_server_low_entropy : ℕ
data_client_to_server_low_entropy = 10

abbrev pub data_server_to_client_low_entropy : ℕ
data_server_to_client_low_entropy = 11

-- `statusCode` and its constants
abbrev pub status_ok : ℕ
status_ok = 0

abbrev pub status_quota_exhausted : ℕ
status_quota_exhausted = 1

-- `MetadataLength`
abbrev pub metadata_length : ℕ
metadata_length = 32

-- `MaxSessionOpenPayload`
abbrev pub max_session_open_payload : ℕ
max_session_open_payload = 1024

-- `baseStruct`; its blank byte holds nothing.
pub record BaseStruct : Type 0 where
  pub protocol : ℕ
  pub timestamp : ℕ

pub record SessionStruct : Type 0 where
  pub base_struct : BaseStruct
  pub open base_struct use *
  pub session_id : ℕ
  pub seq : ℕ
  pub status_code : ℕ
  pub payload_len : ℕ
  pub suffix_len : ℕ

pub record DataAckStruct : Type 0 where
  pub base_struct : BaseStruct
  pub open base_struct use *
  pub low_entropy_mode : ℕ
  pub session_id : ℕ
  pub seq : ℕ
  pub un_ack_seq : ℕ
  pub window_size : ℕ
  pub fragment : ℕ
  pub prefix_len : ℕ
  pub payload_len : ℕ
  pub suffix_len : ℕ
  pub low_entropy_mask : ℕ
  pub extracted_payload_len : ℕ
  pub low_entropy_mask_rotation : ℕ

-- The interface `metadata` with its two implementations.
pub data Metadata : Type 0 where
  session : SessionStruct → Metadata
  data_ack : DataAckStruct → Metadata

abbrev pub is_session_protocol : ℕ → Bool
is_session_protocol p =
    p == open_session_request
    || p == open_session_response
    || p == close_session_request
    || p == close_session_response

abbrev pub is_low_entropy_protocol : ℕ → Bool
is_low_entropy_protocol p =
    p == data_client_to_server_low_entropy || p == data_server_to_client_low_entropy

abbrev pub is_data_protocol : ℕ → Bool
is_data_protocol p =
    p == data_client_to_server || p == data_server_to_client || is_low_entropy_protocol p

abbrev pub is_ack_protocol : ℕ → Bool
is_ack_protocol p = p == ack_client_to_server || p == ack_server_to_client

abbrev pub is_data_ack_protocol : ℕ → Bool
is_data_ack_protocol p = is_data_protocol p || is_ack_protocol p
