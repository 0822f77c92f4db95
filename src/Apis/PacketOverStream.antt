-- ===== src/Apis/PacketOverStream.antt =====
-- apis/common/packet_over_stream.go: packets with their boundaries on a stream.
use mieru.Common.{
  ℕ, zero, suc, ◌+◌, ◌*◌, ◌/◌, ◌%◌, ◌^◌, ◌≤◌, ◌<◌, ◌≡◌, refl, ap, not, Option, none, some, List, [],
  ◌∷◌, ◌++◌, ltb, ◌==◌, if◌then◌else◌, Result, ok, err, ◌>>=◌, ◌>>◌, fail_if, length, set, take,
  drop, All, get_or, arith, ◌⊎◌, inl, inr, Bool-cases,
}
use mieru.Common.Bytes.{put_uint16, uint16}
use mieru.Common.Stream.{read_full, read_full-append}
use mathlib.Core.List.{append_assoc}

pub data TunnelError : Type 0 where
  end_of_stream bad_prefix short_buffer bad_suffix too_large : TunnelError

abbrev pub max_length : ℕ
max_length = 65535

-- Go's `copy`: as many elements as both sides have
abbrev pub copy : List ℕ → List ℕ → List ℕ
copy [] src = []
copy (d ∷ dst) [] = d ∷ dst
copy (d ∷ dst) (x ∷ src) = x ∷ copy dst src

-- What `io.ReadFull` gives, with an error for a stream that ends too early.
abbrev pub from_stream : Option (List ℕ × List ℕ) → Result TunnelError (List ℕ × List ℕ)
from_stream none = err end_of_stream
from_stream (some r) = ok r

-- `Read` with a buffer of `space` bytes: the bytes it fills and the rest of the stream. What an
-- error leaves of the stream is not modelled.
unfoldable pub read : ℕ → List ℕ → Result TunnelError (List ℕ × List ℕ)
unfolding read_full
read space stream = do
  (prefix, stream) ← from_stream (read_full 1 stream)
  fail_if (not (get_or prefix 0 0 == 0)) bad_prefix
  (length_bytes, stream) ← from_stream (read_full 2 stream)
  fail_if (ltb space (uint16 length_bytes 0)) short_buffer
  (packet, stream) ← from_stream (read_full (uint16 length_bytes 0) stream)
  (suffix, stream) ← from_stream (read_full 1 stream)
  fail_if (not (get_or suffix 0 0 == 255)) bad_suffix
  ok (packet, stream)

-- The bytes of the pooled buffer when `Write` sends it.
abbrev pub frame : List ℕ → List ℕ → List ℕ
frame buf p =
    let sized = put_uint16 (set buf 0 0) 1 (length p % 2 ^ 16) in
    set (take 3 sized ++ copy (drop 3 sized) p) (3 + length p) 255

-- `Write`, where `acquire` is the buffer pool: the length it returns and the bytes it sends.
unfoldable pub write : (ℕ → List ℕ) → List ℕ → Result TunnelError (ℕ × List ℕ)
write acquire p =
    if ltb max_length (length p)
    then err too_large
    else ok (length p, frame (acquire (4 + length p)) p)

set-copy :
    (r p : List ℕ) → length r ≡ suc (length p) → set (copy r p) (length p) 255 ≡ p ++ (255 ∷ [])
set-copy [] p e = absurd (omega arith)
set-copy (a ∷ []) [] e = refl
set-copy (a ∷ b ∷ r) [] e = absurd (omega arith)
set-copy (a ∷ r) (x ∷ p) e = ap (λ l. x ∷ l) (set-copy r p (omega arith))

-- The documented format.
abbrev pub wrapped : List ℕ → List ℕ
wrapped p = 0 ∷ (length p / 2 ^ 8) ∷ (length p % 2 ^ 8) ∷ p ++ (255 ∷ [])

frame-wrapped :
    (buf p : List ℕ) → length buf ≡ 4 + length p → length p ≤ max_length → frame buf p ≡ wrapped p
frame-wrapped [] p e h = absurd (omega arith)
frame-wrapped (a ∷ []) p e h = absurd (omega arith)
frame-wrapped (a ∷ b ∷ []) p e h = absurd (omega arith)
frame-wrapped (a ∷ b ∷ c ∷ r) p e h =
    let three : 3 + length p ≡ suc (suc (suc (length p))) = omega arith in
    rw (three, set-copy r p (omega arith)) (ground arith)

-- `Write` of at most 65535 bytes sends the documented format, whatever the pooled buffer held.
pub write-wrapped :
    (acquire : ℕ → List ℕ) (p : List ℕ)
    → ((n : ℕ) → length (acquire n) ≡ n)
    → length p ≤ max_length
    → write acquire p ≡ ok (length p, wrapped p)
unfolding write
write-wrapped acquire p pool h =
    ground (arith, frame-wrapped (acquire (4 + length p)) p (pool (4 + length p)) h)

read_frame :
    (space hi lo : ℕ) (p rest : List ℕ)
    → hi * 2 ^ 8 + lo ≡ length p
    → length p ≤ space
    → read space (0 ∷ hi ∷ lo ∷ p ++ (255 ∷ rest)) ≡ ok (p, rest)
unfolding read
read_frame space hi lo p rest e fits = ground (
  arith,
  read_full-append (0 ∷ []) (hi ∷ lo ∷ p ++ (255 ∷ rest)),
  read_full-append (hi ∷ lo ∷ []) (p ++ (255 ∷ rest)),
  read_full-append p (255 ∷ rest),
  read_full-append (255 ∷ []) rest,
)

-- A tunnel reads the documented format of a packet that fits its buffer, and leaves what follows.
pub read-wrapped :
    (space : ℕ) (p rest : List ℕ) → length p ≤ space → read space (wrapped p ++ rest) ≡ ok (p, rest)
read-wrapped space p rest fits =
    rw (append_assoc p (255 ∷ []) rest)
      (read_frame space (length p / 2 ^ 8) (length p % 2 ^ 8) p rest (omega arith) fits)

-- The bytes of several writes, one after the other.
abbrev pub write_all : (ℕ → List ℕ) → List (List ℕ) → Result TunnelError (List ℕ)
write_all acquire [] = ok []
write_all acquire (p ∷ packets) = do
  (n, sent) ← write acquire p
  more ← write_all acquire packets
  ok (sent ++ more)

-- As many reads, one after the other.
abbrev pub read_all : ℕ → ℕ → List ℕ → Result TunnelError (List (List ℕ) × List ℕ)
read_all zero space stream = ok ([], stream)
read_all (suc n) space stream = do
  (p, stream) ← read space stream
  (packets, stream) ← read_all n space stream
  ok (p ∷ packets, stream)

-- Packets of at most 65535 bytes, written one after the other and read with buffers that hold each of
-- them, come out with the boundaries they had, and what follows on the stream is left there. It does
-- not matter what the pooled buffers held.
pub packets_round_trip :
    (acquire : ℕ → List ℕ) (space : ℕ) (packets : List (List ℕ)) (rest : List ℕ)
    → ((n : ℕ) → length (acquire n) ≡ n)
    → All (λ (p : List ℕ). (length p ≤ max_length) × (length p ≤ space)) packets
    → (sent : List ℕ) × (write_all acquire packets ≡ ok sent)
      × (read_all (length packets) space (sent ++ rest) ≡ ok (packets, rest))
packets_round_trip acquire space [] rest pool h = ([], refl, refl)
packets_round_trip acquire space (p ∷ packets) rest pool ((hi, fits), h) =
    let (more, wrote, back) = packets_round_trip acquire space packets rest pool h in
    let one = read-wrapped space p (more ++ rest) fits in
    (
      wrapped p ++ more,
      rw (write-wrapped acquire p pool hi, wrote) refl,
      rw (append_assoc (wrapped p) more rest, one, back) refl,
    )

-- A packet above 65535 bytes is refused, and one above the reader's buffer is a short buffer error.
pub too_large_refused :
    (acquire : ℕ → List ℕ) (space : ℕ) (p rest : List ℕ)
    → ((n : ℕ) → length (acquire n) ≡ n)
    → space < length p
    → (write acquire p ≡ err too_large)
      ⊎ ((sent : List ℕ) × (write acquire p ≡ ok (length p, sent))
          × (read space (sent ++ rest) ≡ err short_buffer))
unfolding write read
too_large_refused acquire space p rest pool small = elim (Bool-cases (ltb max_length (length p))) [
  | inl big ↦ inl (rw big refl)
  | inr fine ↦
      let sent = write-wrapped acquire p pool (ground arith) in
      inr (
        wrapped p,
        sent,
        ground (
          arith,
          read_full-append (0 ∷ [])
              ((length p / 2 ^ 8) ∷ (length p % 2 ^ 8) ∷ (p ++ (255 ∷ [])) ++ rest),
          read_full-append ((length p / 2 ^ 8) ∷ (length p % 2 ^ 8) ∷ [])
              ((p ++ (255 ∷ [])) ++ rest),
        ),
      )
]
