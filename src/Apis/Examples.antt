-- ===== src/Apis/Examples.antt =====
-- Packets on a concrete stream.
use mieru.Common.{
  ℕ, zero, suc, ◌≡◌, ◌⊎◌, refl, List, [], ◌∷◌, ◌++◌, ok, err, length, replicate, arith,
}
use mieru.Apis.PacketOverStream.{
  read, write, write_all, read_all, packets_round_trip, too_large_refused, too_large, short_buffer,
}

-- A pool whose buffers are full of 170.
abbrev stale : ℕ → List ℕ
stale n = replicate n 170

length-stale : (n : ℕ) → length (stale n) ≡ n
length-stale zero = refl
length-stale (suc n) = omega (arith, length-stale n)

packet_written : write stale (7 ∷ 8 ∷ []) ≡ ok (2, 0 ∷ 0 ∷ 2 ∷ 7 ∷ 8 ∷ 255 ∷ [])
unfolding write
packet_written = refl

packets_round_trip_example :
    (sent : List ℕ) × (write_all stale ((7 ∷ 8 ∷ []) ∷ [] ∷ []) ≡ ok sent)
    × (read_all 2 1500 (sent ++ (1 ∷ [])) ≡ ok ((7 ∷ 8 ∷ []) ∷ [] ∷ [], 1 ∷ []))
packets_round_trip_example =
    packets_round_trip stale 1500 ((7 ∷ 8 ∷ []) ∷ [] ∷ []) (1 ∷ []) length-stale
      ((omega arith, omega arith), ((omega arith, omega arith), tt))

too_large_refused_example :
    (write stale (7 ∷ 8 ∷ []) ≡ err too_large)
    ⊎ ((sent : List ℕ) × (write stale (7 ∷ 8 ∷ []) ≡ ok (2, sent))
        × (read 1 (sent ++ []) ≡ err short_buffer))
too_large_refused_example = too_large_refused stale 1 (7 ∷ 8 ∷ []) [] length-stale (omega arith)
