-- ===== src/Metrics/Counter/Examples.antt =====
-- Counters on concrete calls.
use mieru.Common.{ℕ, ◌≡◌, ◌≤◌, refl, true, false, none, some, List, [], ◌∷◌, All, arith}
use mieru.Metrics.Counter.{Counter, new_counter, delta_between}
use mieru.Metrics.Counter.Valid.{add_all, total_all, Ordered, history_conserved, Valid}
use mieru.Metrics.Counter.Between.{delta_between-within}

-- A clock that goes backwards, and a call two minutes later that compacts.
abbrev calls : List (ℕ × ℕ)
calls = (5, 10000) ∷ (7, 9000) ∷ (1, 140000) ∷ []

history_conserved_example :
    let c = add_all calls (new_counter true) in
    (c.value ≡ 13) × (total_all c.history ≡ 13) × All Ordered c.history
history_conserved_example = history_conserved calls (omega arith)

abbrev three_buckets : Counter
three_buckets = record (new_counter true) {
  value = 13;
  history =
      (record { start = 1000; delta = 6 } ∷ record { start = 3000; delta = 4 } ∷ [])
      ∷ (record { start = 0; delta = 3 } ∷ [])
      ∷ []
      ∷ []
      ∷ [];
}

three_buckets-Valid : Valid three_buckets
three_buckets-Valid = (refl, omega arith, refl, ((omega arith, tt), (tt, (tt, (tt, tt)))))

delta_between-within_example :
    (delta_between 500 3000 three_buckets ≡ some 10)
    × (10 ≤ 13)
    × (delta_between 500 3000 (record three_buckets { time_series = false }) ≡ none)
delta_between-within_example =
    delta_between-within 500 3000 three_buckets three_buckets-Valid (omega arith)
