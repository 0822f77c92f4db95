-- ===== src/Protocol/Padding.antt =====
-- pkg/protocol/padding.go: how long a padding may be. A length of the traffic pattern is an `int32`.
mod Examples
use mieru.Common.{
  ℕ, ◌+◌, ◌-◌, ◌≤◌, ◌≡◌, refl, Option, none, some, leb, if◌then◌else◌, arith, Bool-cases, inl, inr,
}
use mieru.Mathext.Numbers.{min_num}
use mieru.Protocol.Segment.{Transport, unknown_transport, stream_transport, packet_transport}
use mieru.Protocol.Segment.FragmentSize.{packet_overhead}

pub data PaddingPosition : Type 0 where
  middle_padding end_padding : PaddingPosition

pub data ConfiguredLen : Type 0 where
  negative : ConfiguredLen
  at_most : ℕ → ConfiguredLen

-- The part of the traffic pattern on paddings; `none` is a nil pointer.
pub record PaddingPattern : Type 0 where
  pub max_middle_padding_len : Option ConfiguredLen
  pub max_end_padding_len : Option ConfiguredLen

-- `maxPaddingSize`: where the difference of the source is negative, it is not above the existing
-- padding either.
unfoldable pub max_padding_size : ℕ → Transport → ℕ → ℕ → ℕ
max_padding_size mtu stream_transport fragment_size existing = 255
max_padding_size mtu packet_transport fragment_size existing =
    let res = mtu - fragment_size - packet_overhead in
    if leb res existing then 0 else min_num (res - existing) 255
max_padding_size mtu unknown_transport fragment_size existing =
    let res = mtu - fragment_size - packet_overhead in
    if leb res existing then 0 else min_num (res - existing) 255

abbrev configured_for : PaddingPosition → PaddingPattern → Option ConfiguredLen
configured_for middle_padding p = p.max_middle_padding_len
configured_for end_padding p = p.max_end_padding_len

abbrev limited : ℕ → Option ConfiguredLen → ℕ
limited size none = size
limited size (some negative) = 0
limited size (some (at_most n)) = min_num size n

-- `maxPaddingSizeWithTrafficPattern`
unfoldable pub max_padding_size_with_pattern :
    ℕ → Transport → ℕ → ℕ → Option PaddingPattern → PaddingPosition → ℕ
unfolding max_padding_size
max_padding_size_with_pattern mtu tr fragment_size existing none position =
    max_padding_size mtu tr fragment_size existing
max_padding_size_with_pattern mtu tr fragment_size existing (some p) position =
    limited (max_padding_size mtu tr fragment_size existing) (configured_for position p)

limited_below : (size : ℕ) (c : Option ConfiguredLen) → limited size c ≤ size
limited_below size none = omega arith
limited_below size (some negative) = omega arith
limited_below size (some (at_most n)) = ground arith

pattern_below :
    (mtu : ℕ) (tr : Transport) (fragment_size existing : ℕ) (pattern : Option PaddingPattern)
    (position : PaddingPosition)
    → max_padding_size_with_pattern mtu tr fragment_size existing pattern position
      ≤ max_padding_size mtu tr fragment_size existing
unfolding max_padding_size_with_pattern
pattern_below mtu tr fragment_size existing none position = omega arith
pattern_below mtu tr fragment_size existing (some p) position =
    limited_below (max_padding_size mtu tr fragment_size existing) (configured_for position p)

size_byte :
    (mtu : ℕ) (tr : Transport) (fragment_size existing : ℕ)
    → max_padding_size mtu tr fragment_size existing ≤ 255
unfolding max_padding_size
size_byte mtu unknown_transport fragment_size existing = ground arith
size_byte mtu stream_transport fragment_size existing = omega arith
size_byte mtu packet_transport fragment_size existing = ground arith

packet_room :
    (mtu fragment_size existing n : ℕ)
    → fragment_size + existing + packet_overhead ≤ mtu
    → n ≤ max_padding_size mtu packet_transport fragment_size existing
    → fragment_size + existing + n + packet_overhead ≤ mtu
unfolding max_padding_size
packet_room mtu fragment_size existing n fits h = ground arith

-- Two paddings of a data packet that are within the sizes allowed for them, the second one given the
-- first, have at most 255 bytes each, whatever the traffic pattern, and the packet fits the MTU with
-- them if its fragment does without.
pub paddings_fit :
    (mtu fragment_size len1 len2 : ℕ) (pattern : Option PaddingPattern)
    → fragment_size + packet_overhead ≤ mtu
    → len1
      ≤ max_padding_size_with_pattern mtu packet_transport fragment_size 0 pattern middle_padding
    → len2
      ≤ max_padding_size_with_pattern mtu packet_transport fragment_size len1 pattern end_padding
    → (len1 ≤ 255) × (len2 ≤ 255) × (fragment_size + len1 + len2 + packet_overhead ≤ mtu)
paddings_fit mtu fragment_size len1 len2 pattern fits h k =
    let a = pattern_below mtu packet_transport fragment_size 0 pattern middle_padding in
    let b = pattern_below mtu packet_transport fragment_size len1 pattern end_padding in
    let first = packet_room mtu fragment_size 0 len1 (omega arith) (omega (arith, a)) in
    (
      omega (arith, a, size_byte mtu packet_transport fragment_size 0),
      omega (arith, b, size_byte mtu packet_transport fragment_size len1),
      packet_room mtu fragment_size len1 len2 (omega (arith, first)) (omega (arith, b)),
    )
