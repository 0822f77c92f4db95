-- ===== src/Metrics/Counter/Valid.antt =====
-- The history of a counter adds up to its value and stays in order.
use mieru.Common.{
  ℕ, ◌+◌, ◌-◌, ◌^◌, ◌≤◌, ◌<◌, ◌≡◌, refl, ◌∙◌, inl, inr, true, List, [], ◌∷◌, leb, ltb, ◌==◌, length,
  arith, Bool-cases, All,
}
use mieru.Metrics.Counter.{
  Bucket, Counter, Tier, tiers, record_bucket, record_in, expire, compact, record_finest,
  add_with_time, add_int64, floor_to, new_counter,
}

abbrev pub total : List Bucket → ℕ
total [] = 0
total (b ∷ h) = b.delta + total h

abbrev pub total_all : List (List Bucket) → ℕ
total_all [] = 0
total_all (h ∷ hs) = total h + total_all hs

-- The starts of the buckets ascend.
abbrev pub Ordered : List Bucket → Type 0
Ordered [] = Unit {0}
Ordered (b ∷ []) = Unit {0}
Ordered (b ∷ c ∷ h) = (b.start < c.start) × Ordered (c ∷ h)

total-record_bucket :
    (start delta : ℕ) (h : List Bucket)
    → total h + delta < 2 ^ 64
    → total (record_bucket start delta h) ≡ total h + delta
total-record_bucket start delta [] n = omega arith
total-record_bucket start delta (b ∷ []) n = ground arith
total-record_bucket start delta (b ∷ c ∷ h) n =
    omega (arith, total-record_bucket start delta (c ∷ h) (omega arith))

Ordered-record_bucket :
    (start delta : ℕ) (h : List Bucket) → Ordered h → Ordered (record_bucket start delta h)
Ordered-record_bucket start delta [] o = tt
Ordered-record_bucket start delta (b ∷ []) o = elim (Bool-cases (leb start b.start)) [
  | inl old ↦ rw old tt
  | inr new ↦ rw new (ground arith, tt)
]
Ordered-record_bucket start delta (b ∷ c ∷ []) (lt, o) = elim (Bool-cases (leb start c.start)) [
  | inl old ↦ rw old (lt, tt)
  | inr new ↦ rw new (lt, (ground arith, tt))
]
Ordered-record_bucket start delta (b ∷ c ∷ d ∷ h) (lt, o) =
    (lt, Ordered-record_bucket start delta (c ∷ d ∷ h) o)

pub Ordered-tail : (b : Bucket) (h : List Bucket) → Ordered (b ∷ h) → Ordered h
Ordered-tail b [] o = tt
Ordered-tail b (c ∷ h) o = o.1

expire_lem :
    (now : ℕ) (tier next : Tier) (h h' : List Bucket)
    → total h + total h' < 2 ^ 64
    → Ordered h
    → Ordered h'
    → let moved = expire now tier next h h' in
      (total moved.0 + total moved.1 ≡ total h + total h') × Ordered moved.0 × Ordered moved.1
expire_lem now tier next [] h' n o o' = (refl, tt, o')
expire_lem now tier next (b ∷ h) h' n o o' =
    let h2 = record_in next b.start b.delta h' in
    let added = total-record_bucket (floor_to b.start next.width) b.delta h' (omega arith) in
    let (sum, left, put) =
      expire_lem now tier next h h2 (omega (arith, added)) (Ordered-tail b h o)
        (Ordered-record_bucket (floor_to b.start next.width) b.delta h' o') in
    elim (Bool-cases (ltb tier.retain (now - b.start))) [
      | inl expired ↦ rw expired (omega (arith, sum, added), left, put)
      | inr live ↦ rw live (refl, o, o')
    ]

compact_lem :
    (now : ℕ) (ts : List Tier) (hs : List (List Bucket))
    → total_all hs < 2 ^ 64
    → All Ordered hs
    → (total_all (compact now ts hs) ≡ total_all hs) × All Ordered (compact now ts hs)
compact_lem now [] hs n o = (refl, o)
compact_lem now (tier ∷ []) hs n o = (refl, o)
compact_lem now (tier ∷ next ∷ ts) [] n o = (refl, o)
compact_lem now (tier ∷ next ∷ ts) (h ∷ []) n o = (refl, o)
compact_lem now (tier ∷ next ∷ ts) (h ∷ h' ∷ hs) n (o, (o', os)) =
    let (sum, left, put) = expire_lem now tier next h h' (omega arith) o o' in
    let (more, ordered) =
      compact_lem now (next ∷ ts) ((expire now tier next h h').1 ∷ hs) (omega (arith, sum))
        (put, os) in
    (omega (arith, sum, more), (left, ordered))

-- The history of a time series adds up to the value, with the buckets of each tier in order.
abbrev pub Valid : Counter → Type 0
Valid c =
    (c.time_series ≡ true)
    × (1 ≤ length c.history)
    × (total_all c.history ≡ c.value)
    × All Ordered c.history

record_finest_lem :
    (ms delta : ℕ) (hs : List (List Bucket))
    → 1 ≤ length hs
    → total_all hs + delta < 2 ^ 64
    → All Ordered hs
    → (total_all (record_finest ms delta hs) ≡ total_all hs + delta)
      × All Ordered (record_finest ms delta hs)
      × (length (record_finest ms delta hs) ≡ length hs)
record_finest_lem ms delta [] len n o = absurd (omega arith)
record_finest_lem ms delta (h ∷ hs) len n (o, os) = (
  omega (arith, total-record_bucket (floor_to ms 1000) delta h (omega arith)),
  (Ordered-record_bucket (floor_to ms 1000) delta h o, os),
  refl,
)

length-compact :
    (now : ℕ) (ts : List Tier) (hs : List (List Bucket)) → length (compact now ts hs) ≡ length hs
length-compact now [] hs = refl
length-compact now (tier ∷ []) hs = refl
length-compact now (tier ∷ next ∷ ts) [] = refl
length-compact now (tier ∷ next ∷ ts) (h ∷ []) = refl
length-compact now (tier ∷ next ∷ ts) (h ∷ h' ∷ hs) =
    omega (arith, length-compact now (next ∷ ts) ((expire now tier next h h').1 ∷ hs))

-- Adding to a time series, at any time and with or without a compaction, adds exactly `delta` to the
-- value, and the history again adds up to the value with the buckets of each tier in order, as long as
-- the value stays below 2^63.
pub add_with_time-Valid :
    (delta ms : ℕ) (c : Counter)
    → Valid c
    → c.value + delta < 2 ^ 63
    → ((add_with_time delta ms c).value ≡ c.value + delta) × Valid (add_with_time delta ms c)
unfolding add_with_time
add_with_time-Valid delta ms c (series, len, sum, o) n =
    let (recorded, ordered, len') =
      record_finest_lem ms delta c.history len (omega (arith, sum)) o in
    let hs = record_finest ms delta c.history in
    let (same, ordered') = compact_lem ms tiers hs (omega (arith, recorded, sum)) ordered in
    let value : add_int64 c.value delta ≡ c.value + delta = omega arith in
    elim (Bool-cases (delta == 0)) [
      | inl nothing ↦ rw nothing (ground arith, (series, len, sum, o))
      | inr changed ↦ elim (Bool-cases (leb c.next_compact ms)) [
        | inl due ↦
            rw (changed, series, due)
              (
                value,
                (
                  refl,
                  omega (arith, len, len', length-compact ms tiers hs),
                  same ∙ recorded ∙ omega (arith, sum, value),
                  ordered',
                ),
              )
        | inr later ↦
            rw (changed, series, later)
              (
                value,
                (refl, omega (arith, len, len'), omega (arith, recorded, sum, value), ordered),
              )
      ]
    ]

-- Calls with an amount and a time.
abbrev pub add_all : List (ℕ × ℕ) → Counter → Counter
add_all [] c = c
add_all ((delta, ms) ∷ calls) c = add_all calls (add_with_time delta ms c)

abbrev pub amount : List (ℕ × ℕ) → ℕ
amount [] = 0
amount ((delta, ms) ∷ calls) = delta + amount calls

add_all_lem :
    (calls : List (ℕ × ℕ)) (c : Counter)
    → Valid c
    → c.value + amount calls < 2 ^ 63
    → ((add_all calls c).value ≡ c.value + amount calls) × Valid (add_all calls c)
add_all_lem [] c v n = (omega arith, v)
add_all_lem ((delta, ms) ∷ calls) c v n =
    let (value, v') = add_with_time-Valid delta ms c v (omega arith) in
    let (last, v2) = add_all_lem calls (add_with_time delta ms c) v' (omega (arith, value)) in
    (omega (arith, last, value), v2)

-- However the clock moves, a new time series that has been added to has the sum of the amounts as its
-- value and as the total of its history, and the buckets of each tier are in order, if the sum is
-- below 2^63: compaction neither loses nor repeats an amount.
pub history_conserved :
    (calls : List (ℕ × ℕ))
    → amount calls < 2 ^ 63
    → let c = add_all calls (new_counter true) in
      (c.value ≡ amount calls) × (total_all c.history ≡ amount calls) × All Ordered c.history
history_conserved calls n =
    let (value, (_, _, sum, ordered)) =
      add_all_lem calls (new_counter true) (refl, omega arith, refl, (tt, (tt, (tt, (tt, tt)))))
        (omega arith) in
    (omega (arith, value), omega (arith, value, sum), ordered)
