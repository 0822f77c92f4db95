-- ===== src/Protocol/LowEntropy/Params.antt =====
-- pkg/protocol/low_entropy.go: modes, encoded lengths, rotations and their validation.
use mieru.Common.{
  ℕ, zero, suc, ◌+◌, ◌*◌, ◌/◌, ◌%◌, ◌^◌, Bool, ◌&&◌, ◌||◌, not, ltb, leb, ◌==◌, if◌then◌else◌,
  Result, ok, err, ◌>>=◌, ◌>>◌, fail_if,
}

pub data LowEntropyError : Type 0 where
  invalid_mode invalid_extracted_len too_long mask_ones invalid_rotation : LowEntropyError
  invalid_padding_bit encoded_len_mismatch mixed_padding non_uniform_padding : LowEntropyError

-- `appctlpb.LowEntropyMode_LOW_ENTROPY_MODE_OFF`, `_32`, `_40`, `_48` and `_56`
abbrev pub mode_off : ℕ
mode_off = 0

abbrev pub mode_32 : ℕ
mode_32 = 1

abbrev pub mode_40 : ℕ
mode_40 = 2

abbrev pub mode_48 : ℕ
mode_48 = 3

abbrev pub mode_56 : ℕ
mode_56 = 4

abbrev pub chunk_len : ℕ
chunk_len = 8

abbrev pub max_uint16 : ℕ
max_uint16 = 65535

-- `lowEntropyModeParams`
pub record ModeParams : Type 0 where
  pub source_bytes_per_chunk : ℕ
  pub half_mask_ones : ℕ

unfoldable pub build_low_entropy_params : ℕ → Result LowEntropyError ModeParams
build_low_entropy_params mode =
    if mode == mode_32
    then ok (record { source_bytes_per_chunk = 4; half_mask_ones = 16 })
    else if mode == mode_40
    then ok (record { source_bytes_per_chunk = 5; half_mask_ones = 20 })
    else if mode == mode_48
    then ok (record { source_bytes_per_chunk = 6; half_mask_ones = 24 })
    else if mode == mode_56
    then ok (record { source_bytes_per_chunk = 7; half_mask_ones = 28 })
    else err invalid_mode

-- The chunks that a payload takes, the last one perhaps not full.
abbrev pub chunk_count : ℕ → ℕ → ℕ
chunk_count len bytes = if len % bytes == 0 then len / bytes else len / bytes + 1

unfoldable pub low_entropy_encoded_payload_len : ℕ → ℕ → Result LowEntropyError ℕ
unfolding build_low_entropy_params
low_entropy_encoded_payload_len extracted_len mode = do
  params ← build_low_entropy_params mode
  fail_if (extracted_len == 0) invalid_extracted_len
  let count = chunk_count extracted_len params.source_bytes_per_chunk
  fail_if (ltb (max_uint16 / chunk_len) count) too_long
  ok (count * chunk_len % 2 ^ 16)

-- Right rotations are 1 to 15, left rotations 16 times 1 to 15.
unfoldable pub is_valid_low_entropy_rotation : ℕ → Bool
is_valid_low_entropy_rotation r =
    r == 0 || (leb 1 r && leb r 15) || (leb 16 r && leb r 240 && r % 16 == 0)

-- `bits.OnesCount32`, over the lowest `n` bits
pub ones_count : ℕ → ℕ → ℕ
ones_count zero x = 0
ones_count (suc n) x = x % 2 + ones_count n (x / 2)

unfoldable pub validate_low_entropy_codec_params : ℕ → ℕ → ℕ → Result LowEntropyError ModeParams
unfolding build_low_entropy_params is_valid_low_entropy_rotation ones_count
validate_low_entropy_codec_params mode half_mask rotation = do
  params ← build_low_entropy_params mode
  fail_if (not (ones_count 32 half_mask == params.half_mask_ones)) mask_ones
  fail_if (not (is_valid_low_entropy_rotation rotation)) invalid_rotation
  ok params
