-- ===== src/Metrics/Counter/Between.antt =====
-- What `DeltaBetween` adds up.
use mieru.Common.{
  ℕ, ◌+◌, ◌^◌, ◌≤◌, ◌<◌, ◌≡◌, refl, inl, inr, true, false, ◌&&◌, none, some, List, [], ◌∷◌, leb,
  ltb, if◌then◌else◌, arith, Bool-cases, All,
}
use mieru.Metrics.Counter.{Bucket, Counter, after_start, sum_to, sum_tiers, delta_between}
use mieru.Metrics.Counter.Valid.{total, total_all, Ordered, Ordered-tail, Valid}

-- The sum of the buckets that begin after `from` and no later than `to`.
abbrev pub within : ℕ → ℕ → List Bucket → ℕ
within from to [] = 0
within from to (b ∷ h) =
    (if ltb from b.start && leb b.start to then b.delta else 0) + within from to h

abbrev pub within_all : ℕ → ℕ → List (List Bucket) → ℕ
within_all from to [] = 0
within_all from to (h ∷ hs) = within from to h + within_all from to hs

within_bounded : (from to : ℕ) (h : List Bucket) → within from to h ≤ total h
within_bounded from to [] = omega arith
within_bounded from to (b ∷ h) = ground (arith, within_bounded from to h)

within_all_bounded : (from to : ℕ) (hs : List (List Bucket)) → within_all from to hs ≤ total_all hs
within_all_bounded from to [] = omega arith
within_all_bounded from to (h ∷ hs) =
    omega (arith, within_bounded from to h, within_all_bounded from to hs)

within-late :
    (from to : ℕ) (b : Bucket) (h : List Bucket)
    → Ordered (b ∷ h)
    → to < b.start
    → within from to (b ∷ h) ≡ 0
within-late from to b [] o late = ground arith
within-late from to b (c ∷ h) (lt, o) late = ground (arith, within-late from to c h o (omega arith))

sum_to-within :
    (from to : ℕ) (b : Bucket) (h : List Bucket)
    → Ordered (b ∷ h)
    → from < b.start
    → total (b ∷ h) < 2 ^ 64
    → sum_to to (b ∷ h) ≡ within from to (b ∷ h)
sum_to-within from to b [] o late n = ground arith
sum_to-within from to b (c ∷ h) (lt, o) late n = elim (Bool-cases (leb b.start to)) [
  | inl early ↦ ground (
    arith,
    sum_to-within from to c h o (omega arith) (omega arith),
    within_bounded from to (c ∷ h),
  )
  | inr past ↦ ground (arith, within-late from to b (c ∷ h) (lt, o) (ground arith))
]

after_start-within :
    (from to : ℕ) (h : List Bucket)
    → Ordered h
    → total h < 2 ^ 64
    → sum_to to (after_start from h) ≡ within from to h
after_start-within from to [] o n = refl
after_start-within from to (b ∷ h) o n = elim (Bool-cases (ltb from b.start)) [
  | inl found ↦ rw found (ground (arith, sum_to-within from to b h o (ground arith) n))
  | inr before ↦ ground (arith, after_start-within from to h (Ordered-tail b h o) (omega arith))
]

sum_tiers-within :
    (from to : ℕ) (hs : List (List Bucket))
    → All Ordered hs
    → total_all hs < 2 ^ 64
    → sum_tiers from to hs ≡ within_all from to hs
sum_tiers-within from to [] o n = refl
sum_tiers-within from to (h ∷ hs) (o, os) n = omega (
  arith,
  after_start-within from to h o (omega arith),
  sum_tiers-within from to hs os (omega arith),
  within_bounded from to h,
  within_all_bounded from to hs,
)

-- On a time series in order whose value fits, `DeltaBetween` of a time and one that is not before it
-- is the sum of all buckets that begin after the first time and no later than the second one, and at
-- most the value; with the times the other way round, or on a counter without a history, it panics.
pub delta_between-within :
    (from to : ℕ) (c : Counter)
    → Valid c
    → c.value < 2 ^ 63
    → (delta_between from to c
        ≡ (if leb from to then some (within_all from to c.history) else none))
      × (within_all from to c.history ≤ c.value)
      × (delta_between from to (record c { time_series = false }) ≡ none)
unfolding delta_between
delta_between-within from to c (series, len, sum, o) n =
    let same = sum_tiers-within from to c.history o (omega (arith, sum)) in
    let bound : within_all from to c.history ≤ c.value =
      omega (arith, within_all_bounded from to c.history, sum) in
    elim (Bool-cases (ltb to from)) [
      | inl late ↦
          let wrong : leb from to ≡ false = ground (arith, late) in
          rw (late, wrong) (refl, bound, refl)
      | inr fine ↦
          let right : leb from to ≡ true = ground (arith, fine) in
          rw (fine, right, series, same) (refl, bound, refl)
    ]
