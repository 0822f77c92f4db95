-- ===== src/Protocol/Segment/FragmentSize.antt =====
-- pkg/protocol/segment.go: the largest fragment of a payload.
use mieru.Common.{
  ℕ, ◌+◌, ◌-◌, ◌*◌, ◌/◌, ◌≤◌, ◌<◌, ◌^◌, ◌≡◌, arith, ◌==◌, if◌then◌else◌, Result, ok, err, ◌>>=◌,
  map_err, ◌≢◌,
}
use mieru.Mathext.Numbers.{min_num}
use mieru.Protocol.Segment.{Transport, unknown_transport, stream_transport, packet_transport}
use mieru.Protocol.LowEntropy.Params.{
  mode_off, chunk_len, max_uint16, build_low_entropy_params, low_entropy_encoded_payload_len,
  chunk_count,
}

abbrev pub max_pdu : ℕ
max_pdu = 32768

pub data FragmentError : Type 0 where
  invalid_mode no_capacity : FragmentError

-- `packetOverhead`: a nonce of 24 bytes, the metadata, and two tags of 16 bytes
abbrev pub packet_overhead : ℕ
packet_overhead = 24 + 32 + 16 * 2

-- `maxFragmentSizeInternal`; a negative difference counts as 0 in the source too.
unfoldable pub max_fragment_size_internal : ℕ → Transport → ℕ
max_fragment_size_internal mtu stream_transport = max_pdu
max_fragment_size_internal mtu packet_transport = mtu - packet_overhead
max_fragment_size_internal mtu unknown_transport = mtu - packet_overhead

-- The `switch transport` for a low entropy mode with `n` source bytes to a chunk. Go's division
-- rounds a negative difference towards 0, so it has no positive count either.
low_entropy_fragment_size : ℕ → Transport → ℕ → Result FragmentError ℕ
unfolding max_fragment_size_internal
low_entropy_fragment_size mtu stream_transport n =
    ok (min_num (max_fragment_size_internal mtu stream_transport) (max_uint16 / chunk_len * n))
low_entropy_fragment_size mtu packet_transport n =
    if (mtu - packet_overhead) / chunk_len == 0
    then err no_capacity
    else ok ((mtu - packet_overhead) / chunk_len * n)
low_entropy_fragment_size mtu unknown_transport n =
    ok (max_fragment_size_internal mtu unknown_transport)

unfoldable pub max_fragment_size : ℕ → Transport → ℕ → Result FragmentError ℕ
unfolding low_entropy_fragment_size max_fragment_size_internal build_low_entropy_params
max_fragment_size mtu transport mode =
    if mode == mode_off then ok (max_fragment_size_internal mtu transport) else (do
      params ← map_err (λ _. FragmentError.invalid_mode) (build_low_entropy_params mode)
      low_entropy_fragment_size mtu transport params.source_bytes_per_chunk)

-- A fragment of at most the size that `maxFragmentSize` allows has an encoded length, and on the
-- packet transport the encoded fragment fits the MTU together with its overhead.
pub encoded_fragment_fits :
    (mtu mode size len : ℕ)
    → mode ≢ mode_off
    → mtu < 2 ^ 16
    → max_fragment_size mtu packet_transport mode ≡ ok size
    → 1 ≤ len
    → len ≤ size
    → (k : ℕ) × (low_entropy_encoded_payload_len len mode ≡ ok k)
      × (len < k)
      × (k + packet_overhead ≤ mtu)
unfolding max_fragment_size low_entropy_encoded_payload_len
encoded_fragment_fits mtu mode size len m small e lo hi =
    (chunk_count len (mode + 3) * chunk_len, ground arith, ground arith, ground arith)

-- On the stream transport it has an encoded length too.
pub encoded_stream_fragment :
    (mtu mode size len : ℕ)
    → mode ≢ mode_off
    → max_fragment_size mtu stream_transport mode ≡ ok size
    → 1 ≤ len
    → len ≤ size
    → low_entropy_encoded_payload_len len mode ≡ ok (chunk_count len (mode + 3) * chunk_len)
unfolding max_fragment_size low_entropy_encoded_payload_len
encoded_stream_fragment mtu mode size len m e lo hi = ground arith
