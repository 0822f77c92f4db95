-- ===== src/Protocol/Metadata/Examples.antt =====
-- Runs of the metadata codecs.
use mieru.Common.{◌≡◌, refl, inr, ok, arith, length}
use mieru.Mathext.Numbers.{within_range}
use mieru.Protocol.Metadata.{SessionStruct, DataAckStruct}
use mieru.Protocol.Metadata.Session
use mieru.Protocol.Metadata.DataAck
use mieru.Protocol.Metadata.DataAck.RoundTrip

abbrev open_request : SessionStruct
open_request = record {
  base_struct = record { protocol = 2; timestamp = 0 };
  session_id = 0x01020304;
  seq = 0;
  status_code = 0;
  payload_len = 300;
  suffix_len = 9;
}

abbrev stamped_request : SessionStruct
stamped_request = record open_request {
  base_struct = record { protocol = 2; timestamp = 28000000 };
}

abbrev low_entropy_data : DataAckStruct
low_entropy_data = record {
  base_struct = record { protocol = 10; timestamp = 0 };
  low_entropy_mode = 1;
  session_id = 7;
  seq = 5;
  un_ack_seq = 4;
  window_size = 4096;
  fragment = 0;
  prefix_len = 3;
  payload_len = 16;
  suffix_len = 4;
  low_entropy_mask = 0xffff;
  extracted_payload_len = 6;
  low_entropy_mask_rotation = 16;
}

abbrev stamped_data : DataAckStruct
stamped_data = record low_entropy_data {
  base_struct = record { protocol = 10; timestamp = 28000000 };
}

-- The bytes of the session identifier stand at 6 to 9, those of the payload length at 15 and 16.
request_bytes : length (Session.marshal 28000000 open_request).1 ≡ 32
unfolding Session.marshal
request_bytes = refl

session_round_trip_example :
    Session.unmarshal 28000001 (Session.marshal 28000000 open_request).1 ≡ ok stamped_request
unfolding Session.marshal within_range
session_round_trip_example =
    Session.session_round_trip 28000000 28000001 open_request (omega arith) refl (omega arith)
      (omega arith) refl

data_ack_round_trip_example :
    DataAck.unmarshal 28000000 (DataAck.marshal 28000000 low_entropy_data).1 ≡ ok stamped_data
unfolding DataAck.marshal within_range DataAck.validate_low_entropy_data_ack_metadata
data_ack_round_trip_example =
    RoundTrip.data_ack_round_trip 28000000 28000000 low_entropy_data (omega arith) refl (inr refl)
      (omega arith) refl
