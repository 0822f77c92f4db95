-- ===== src/Mathext/Numbers.antt =====
-- pkg/mathext/numbers.go at the unsigned integers of a given width.
use mieru.Common.{
  ℕ, ◌+◌, ◌-◌, ◌%◌, ◌^◌, ◌≤◌, ◌<◌, ◌≡◌, ◌↔◌, Bool, true, arith, ltb, leb, ◌==◌, if◌then◌else◌,
}

-- `Min`
abbrev pub min_num : ℕ → ℕ → ℕ
min_num a b = if leb a b then a else b

-- `Max`
abbrev pub max_num : ℕ → ℕ → ℕ
max_num a b = if leb b a then a else b

-- One `if values[i] > values[j] { swap }`.
abbrev pub order_two : ℕ → ℕ → ℕ × ℕ
order_two a b = if ltb b a then (b, a) else (a, b)

-- `Mid`, the three exchanges on the array of values.
unfoldable pub mid : ℕ → ℕ → ℕ → ℕ
mid a b c =
    let (x, y) = order_two a b in let (x', z) = order_two x c in let (y', z') = order_two y z in y'

-- `WithinRange` at a w-bit unsigned type: both ends of the interval wrap.
unfoldable pub within_range : ℕ → ℕ → ℕ → ℕ → Bool
unfolding mid
within_range w v target margin =
    mid v ((target + 2 ^ w - margin) % 2 ^ w) ((target + margin) % 2 ^ w) == v

-- The median is one of the three numbers, with one of the others on each side of it.
pub mid_bounds :
    (a b c : ℕ)
    → (min_num (max_num a b) c ≤ mid a b c)
      × (mid a b c ≤ max_num (min_num a b) (max_num c (min_num a b)))
unfolding mid
mid_bounds a b c = ground arith

-- Away from the ends of the type `WithinRange` is membership in the interval.
pub within_range_lem :
    (v target : ℕ)
    → 1 ≤ target
    → target + 1 < 2 ^ 32
    → (within_range 32 v target 1 ≡ true) ↔ ((target ≤ v + 1) × (v ≤ target + 1))
unfolding within_range
within_range_lem v target lo hi = ground arith
