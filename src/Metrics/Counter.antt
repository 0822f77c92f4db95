-- ===== src/Metrics/Counter.antt =====
-- pkg/metrics/counter.go: `Counter`. Times are milliseconds since 1970 and not negative; an int64 is
-- its bit pattern. The lock makes each operation a step of its own.
pub mod Valid
pub mod Between
pub mod Examples
use mieru.Common.{
  ℕ, ◌+◌, ◌-◌, ◌*◌, ◌%◌, ◌^◌, Bool, true, false, not, Option, none, some, List, [], ◌∷◌, leb, ltb,
  ◌==◌, if◌then◌else◌,
}
use mieru.Mathext.Numbers.{max_num}

abbrev pub compact_interval_ms : ℕ
compact_interval_ms = 1000

pub record Tier : Type 0 where
  pub width : ℕ
  pub retain : ℕ

-- Seconds, minutes, hours and days.
abbrev pub tiers : List Tier
tiers =
    record { width = 1000; retain = 120 * 1000 }
    ∷ record { width = 60 * 1000; retain = 120 * 60 * 1000 }
    ∷ record { width = 3600 * 1000; retain = 8 * 24 * 3600 * 1000 }
    ∷ record { width = 24 * 3600 * 1000; retain = 0 }
    ∷ []

pub record Bucket : Type 0 where
  pub start : ℕ
  pub delta : ℕ

pub record Counter : Type 0 where
  pub value : ℕ
  pub time_series : Bool
  pub history : List (List Bucket)
  pub last_update : ℕ
  pub next_compact : ℕ

-- `&Counter{timeSeries: time_series}`
abbrev pub new_counter : Bool → Counter
new_counter time_series = record {
  value = 0;
  time_series = time_series;
  history = [] ∷ [] ∷ [] ∷ [] ∷ [];
  last_update = 0;
  next_compact = 0;
}

abbrev pub add_int64 : ℕ → ℕ → ℕ
add_int64 a b = (a + b) % 2 ^ 64

abbrev pub floor_to : ℕ → ℕ → ℕ
floor_to ms width = ms - ms % width

-- `record` on the buckets of one tier, whose last one is the newest
abbrev pub record_bucket : ℕ → ℕ → List Bucket → List Bucket
record_bucket start delta [] = record { start = start; delta = delta } ∷ []
record_bucket start delta (b ∷ []) =
    if leb start b.start
    then record b { delta = add_int64 b.delta delta } ∷ []
    else b ∷ record { start = start; delta = delta } ∷ []
record_bucket start delta (b ∷ c ∷ h) = b ∷ record_bucket start delta (c ∷ h)

abbrev pub record_in : Tier → ℕ → ℕ → List Bucket → List Bucket
record_in tier ms delta h = record_bucket (floor_to ms tier.width) delta h

-- One round of `compact`: the expired front of a tier goes to the next one.
abbrev pub expire : ℕ → Tier → Tier → List Bucket → List Bucket → List Bucket × List Bucket
expire now tier next [] h' = ([], h')
expire now tier next (b ∷ h) h' =
    let rest = expire now tier next h (record_in next b.start b.delta h') in
    if ltb tier.retain (now - b.start) then rest else (b ∷ h, h')

abbrev pub compact : ℕ → List Tier → List (List Bucket) → List (List Bucket)
compact now [] hs = hs
compact now (tier ∷ []) hs = hs
compact now (tier ∷ next ∷ ts) [] = []
compact now (tier ∷ next ∷ ts) (h ∷ []) = h ∷ []
compact now (tier ∷ next ∷ ts) (h ∷ h' ∷ hs) =
    let moved = expire now tier next h h' in moved.0 ∷ compact now (next ∷ ts) (moved.1 ∷ hs)

abbrev pub record_finest : ℕ → ℕ → List (List Bucket) → List (List Bucket)
record_finest ms delta [] = []
record_finest ms delta (h ∷ hs) =
    record_in (record { width = 1000; retain = 120 * 1000 }) ms delta h ∷ hs

unfoldable pub add_with_time : ℕ → ℕ → Counter → Counter
add_with_time delta ms c =
    let value = add_int64 c.value delta in
    let history = record_finest ms delta c.history in
    let last_update = max_num c.last_update ms in
    if delta == 0
    then c
    else if c.time_series
    then if leb c.next_compact ms
      then record c {
        value = value;
        history = compact ms tiers history;
        last_update = last_update;
        next_compact = ms + compact_interval_ms;
      }
      else record c { value = value; history = history; last_update = last_update }
    else record c { value = value }

-- `sort.Search` for the first bucket after `from`, on buckets in order
abbrev pub after_start : ℕ → List Bucket → List Bucket
after_start from [] = []
after_start from (b ∷ h) = if ltb from b.start then b ∷ h else after_start from h

abbrev pub sum_to : ℕ → List Bucket → ℕ
sum_to to [] = 0
sum_to to (b ∷ h) = let rest = sum_to to h in if leb b.start to then add_int64 b.delta rest else 0

abbrev pub sum_tiers : ℕ → ℕ → List (List Bucket) → ℕ
sum_tiers from to [] = 0
sum_tiers from to (h ∷ hs) = add_int64 (sum_to to (after_start from h)) (sum_tiers from to hs)

-- `DeltaBetween`; `none` is a panic.
unfoldable pub delta_between : ℕ → ℕ → Counter → Option ℕ
delta_between from to c =
    if ltb to from
    then none
    else if not c.time_series
    then none
    else some (sum_tiers from to c.history)
