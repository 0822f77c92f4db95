-- ===== src/Protocol/ServerUser/SourceCache/Examples.antt =====
-- A cache with three records.
use mieru.Common.{ℕ, List, [], ◌∷◌, All, arith}
use mieru.Protocol.ServerUser.SourceCache.{Entry, candidates, lookup, record_authenticated}
use mieru.Protocol.ServerUser.SourceCache.Slots.{Has}
use mieru.Protocol.ServerUser.SourceCache.Order.{
  Sorted, Distinct, IsSeen, IsCovered, candidates_ordered,
}
use mieru.Protocol.ServerUser.SourceCache.Sound.{Event}
use mieru.Protocol.ServerUser.SourceCache.Runs.{
  run, RecordedLately, lookup_only_recorded, recorded_is_found,
}

abbrev same_hash : ℕ → ℕ
same_hash key = 5

abbrev events : List Event
events =
    record { when = 30; key = 7; user = 2 }
    ∷ record { when = 20; key = 8; user = 3 }
    ∷ record { when = 10; key = 7; user = 1 }
    ∷ []

lookup_only_recorded_example :
    All
      (λ user. RecordedLately same_hash events 40 7 user)
      (lookup same_hash 40 7 (run same_hash events))
lookup_only_recorded_example = lookup_only_recorded same_hash events 40 7

recorded_is_found_example :
    Has 4 (lookup same_hash 100 8 (record_authenticated same_hash 50 8 4 (run same_hash events)))
recorded_is_found_example =
    recorded_is_found same_hash events 50 100 8 4 (λ e. ground (arith, e)) (omega arith)

abbrev three_slots : Entry
three_slots = record {
  key = 7;
  last_active = 30;
  users =
      record { id = 1; seen = 10 }
      ∷ record { id = 2; seen = 30 }
      ∷ record { id = 1; seen = 20 }
      ∷ [];
}

candidates_ordered_example :
    Sorted (candidates 40 three_slots)
    × Distinct (candidates 40 three_slots)
    × All (IsSeen 40 three_slots.users) (candidates 40 three_slots)
    × All (IsCovered 40 (candidates 40 three_slots)) three_slots.users
candidates_ordered_example = candidates_ordered 40 three_slots
