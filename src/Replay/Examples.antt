-- ===== src/Replay/Examples.antt =====
-- The replay cache on concrete calls; the signature is the first byte.
use mieru.Common.{ℕ, get_or, ◌≡◌, ◌≤◌, refl, true, false, List, [], ◌∷◌, arith}
use mieru.Replay.{ReplayCache, is_duplicate, after_calls, new_cache, empty_tag, sizes}
use mieru.Replay.Remembered.{replay_detected}
use mieru.Replay.Sizes.{sizes_bounded}

abbrev first_byte : List ℕ → ℕ
first_byte message = get_or message 0 0

abbrev two_entries : ReplayCache
two_entries = record {
  capacity = 2;
  expire_time = 100;
  expire_interval = 50;
  current = (7, empty_tag) ∷ (9, empty_tag) ∷ [];
  previous = [];
}

-- The full map is replaced on the first of the calls, and message 5 is found all the same.
replay_detected_example :
    let c' = (is_duplicate first_byte 60 (5 ∷ []) (1 ∷ []) two_entries).1 in
    (is_duplicate first_byte 90
      (5 ∷ [])
      empty_tag
      (after_calls first_byte ((80, 6 ∷ [], empty_tag) ∷ []) c')).0
    ≡ true
replay_detected_example =
    replay_detected first_byte 60 90 (5 ∷ []) (1 ∷ []) ((80, 6 ∷ [], empty_tag) ∷ []) two_entries
      (omega arith) ((omega arith, omega arith), tt) (omega arith) (omega arith)

sizes_bounded_example :
    let (current, previous) =
      sizes (after_calls first_byte ((80, 6 ∷ [], empty_tag) ∷ []) (new_cache 10 2 50)) in
    (current ≤ 2) × (previous ≤ 2)
sizes_bounded_example = sizes_bounded first_byte 10 2 50 ((80, 6 ∷ [], empty_tag) ∷ [])

-- With the first packet in the previous map, a replay from another address is found the first time
-- and passes the second time.
second_replay_passes :
    let c = record two_entries { current = []; previous = (5, 1 ∷ []) ∷ [] } in
    let (first, c') = is_duplicate first_byte 60 (5 ∷ []) (2 ∷ []) c in
    (first ≡ true) × ((is_duplicate first_byte 61 (5 ∷ []) (2 ∷ []) c').0 ≡ false)
unfolding is_duplicate
second_replay_passes = (refl, refl)
