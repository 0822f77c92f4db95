-- ===== src/Protocol/Segment/Examples.antt =====
-- Fragment sizes on concrete sizes.
use mieru.Common.{ℕ, ◌+◌, ◌≤◌, ◌<◌, ◌≡◌, ◌≢◌, refl, ok, arith}
use mieru.Protocol.LowEntropy.Params.{mode_32, mode_off, low_entropy_encoded_payload_len}
use mieru.Protocol.Segment.{packet_transport}
use mieru.Protocol.Segment.FragmentSize.{max_fragment_size, packet_overhead, encoded_fragment_fits}

low_entropy_size : max_fragment_size 1400 packet_transport mode_32 ≡ ok 656
unfolding max_fragment_size
low_entropy_size = refl

mode_32_on : mode_32 ≢ mode_off
mode_32_on e = absurd (omega (arith, e))

encoded_fragment_fits_example :
    (k : ℕ) × (low_entropy_encoded_payload_len 650 mode_32 ≡ ok k)
    × (650 < k)
    × (k + packet_overhead ≤ 1400)
encoded_fragment_fits_example =
    encoded_fragment_fits 1400 mode_32 656 650 mode_32_on (omega arith) low_entropy_size
      (omega arith) (omega arith)
