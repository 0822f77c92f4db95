-- ===== src/Protocol/Padding/Examples.antt =====
-- A packet of 1400 bytes.
use mieru.Common.{◌+◌, ◌≤◌, Option, none, some, arith}
use mieru.Protocol.Segment.{packet_transport}
use mieru.Protocol.Segment.FragmentSize.{packet_overhead}
use mieru.Protocol.Padding.{
  PaddingPattern, at_most, middle_padding, end_padding, max_padding_size,
  max_padding_size_with_pattern, paddings_fit,
}

abbrev short_end : Option PaddingPattern
short_end = some (record { max_middle_padding_len = none; max_end_padding_len = some (at_most 10) })

room1 : 100 ≤ max_padding_size_with_pattern 1400 packet_transport 1200 0 short_end middle_padding
unfolding max_padding_size_with_pattern max_padding_size
room1 = omega arith

room2 : 10 ≤ max_padding_size_with_pattern 1400 packet_transport 1200 100 short_end end_padding
unfolding max_padding_size_with_pattern max_padding_size
room2 = omega arith

paddings_fit_example : (100 ≤ 255) × (10 ≤ 255) × (1200 + 100 + 10 + packet_overhead ≤ 1400)
paddings_fit_example = paddings_fit 1400 1200 100 10 short_end (omega arith) room1 room2
