-- ===== src/Protocol/Metadata/DataAck/RoundTrip.antt =====
-- `dataAckStruct`: what `Marshal` writes is what `Unmarshal` reads.
use mieru.Common.{
  ℕ, ◌≡◌, refl, ◌⊎◌, inl, inr, Bool, Bool-cases, true, false, arith, ok, if◌then◌else◌,
}
use mieru.Common.Bytes.{IsU16, IsU32, uint16_parts, uint32_parts}
use mieru.Mathext.Numbers.{within_range}
use mieru.Protocol.Metadata.{DataAckStruct, is_data_ack_protocol, is_low_entropy_protocol}
use mieru.Protocol.Metadata.DataAck.{
  marshal, unmarshal, candidate, validate_low_entropy_data_ack_metadata,
}

-- Every field is within its Go type.
pub record Fits (das : DataAckStruct) : Type 0 where
  pub session_id : IsU32 das.session_id
  pub seq : IsU32 das.seq
  pub un_ack_seq : IsU32 das.un_ack_seq
  pub window_size : IsU16 das.window_size
  pub payload_len : IsU16 das.payload_len
  pub low_entropy_mask : IsU32 das.low_entropy_mask
  pub extracted_payload_len : IsU16 das.extracted_payload_len

-- What the wire carries: the low entropy fields only for the low entropy protocols.
abbrev pub carried : DataAckStruct → DataAckStruct
carried das = record das {
  low_entropy_mode = if low_entropy then das.low_entropy_mode else 0;
  low_entropy_mask = if low_entropy then das.low_entropy_mask else 0;
  extracted_payload_len = if low_entropy then das.extracted_payload_len else 0;
  low_entropy_mask_rotation = if low_entropy then das.low_entropy_mask_rotation else 0;
}
  where
    low_entropy : Bool
    low_entropy = is_low_entropy_protocol das.protocol

-- The validation reads the protocol and five more fields.
validate_fields :
    (a b : DataAckStruct)
    → a.protocol ≡ b.protocol
    → a.low_entropy_mode ≡ b.low_entropy_mode
    → a.payload_len ≡ b.payload_len
    → a.low_entropy_mask ≡ b.low_entropy_mask
    → a.extracted_payload_len ≡ b.extracted_payload_len
    → a.low_entropy_mask_rotation ≡ b.low_entropy_mask_rotation
    → validate_low_entropy_data_ack_metadata a ≡ validate_low_entropy_data_ack_metadata b
unfolding validate_low_entropy_data_ack_metadata
validate_fields a b p m l k e r = rw (p, m, l, k, e, r) refl

module _ (sent received : ℕ) (das : DataAckStruct) (fits : Fits das)
    (p : is_data_ack_protocol das.protocol ≡ true) (s : IsU32 sent)
    (r : within_range 32 received sent 1 ≡ true) where
  plain :
      is_low_entropy_protocol das.protocol ≡ false
      → let (stamped, b) = marshal sent das in unmarshal received b ≡ ok (carried stamped)
  unfolding marshal unmarshal
  plain low = rw low (
      ground (
        arith,
        uint32_parts sent s,
        uint32_parts das.session_id fits.session_id,
        uint32_parts das.seq fits.seq,
        uint32_parts das.un_ack_seq fits.un_ack_seq,
        uint16_parts das.window_size fits.window_size,
        uint16_parts das.payload_len fits.payload_len,
      ))

  low_entropy_lem :
      is_low_entropy_protocol das.protocol ≡ true
      → validate_low_entropy_data_ack_metadata das ≡ ok tt
      → let (stamped, b) = marshal sent das in unmarshal received b ≡ ok (carried stamped)
  unfolding marshal unmarshal
  low_entropy_lem low valid = rw low (
      ground (
        arith,
        uint32_parts sent s,
        uint32_parts das.session_id fits.session_id,
        uint32_parts das.seq fits.seq,
        uint32_parts das.un_ack_seq fits.un_ack_seq,
        uint16_parts das.window_size fits.window_size,
        uint16_parts das.payload_len fits.payload_len,
        uint32_parts das.low_entropy_mask fits.low_entropy_mask,
        uint16_parts das.extracted_payload_len fits.extracted_payload_len,
        validate_fields (candidate (marshal sent das).1) das,
      ))

-- A low entropy segment that validates, and any plain data or ack segment, reads back as what the
-- wire carries of it.
pub data_ack_round_trip :
    (sent received : ℕ) (das : DataAckStruct)
    → Fits das
    → is_data_ack_protocol das.protocol ≡ true
    → (is_low_entropy_protocol das.protocol ≡ false)
      ⊎ (validate_low_entropy_data_ack_metadata das ≡ ok tt)
    → IsU32 sent
    → within_range 32 received sent 1 ≡ true
    → let (stamped, b) = marshal sent das in unmarshal received b ≡ ok (carried stamped)
data_ack_round_trip sent received das fits p valid s r =
    elim (Bool-cases (is_low_entropy_protocol das.protocol)) [
      | inl low ↦
          low_entropy_lem sent received das fits p s r low
            (elim valid [ inl no_low ↦ cc | inr v ↦ v ])
      | inr low ↦ plain sent received das fits p s r low
    ]
