-- ===== src/Version.antt =====
-- pkg/version/scheme.go: the order of version numbers. The components of a version are never
-- negative, as those that Parse reads from digits.
use mieru.Common.{
  ℕ, ◌<◌, ◌≡◌, ◌⊎◌, ◌↔◌, inl, inr, Bool, true, false, arith, ltb, leb, if◌then◌else◌,
}
mod Examples

pub record Version : Type 0 where
  pub major : ℕ
  pub minor : ℕ
  pub patch : ℕ

-- `IsLessThan`
unfoldable pub is_less_than : Version → Version → Bool
is_less_than v another =
    if ltb another.major v.major
    then false
    else if ltb v.major another.major
    then true
    else if ltb another.minor v.minor
    then false
    else if ltb v.minor another.minor
    then true
    else if leb another.patch v.patch
    then false
    else true

-- A version is less than another one exactly if its major number is less, or these are the same
-- and its minor number is less, or both are the same and its patch number is less.
pub is_less_than_lem :
    (v w : Version)
    → (is_less_than v w ≡ true) ↔ (
        (v.major < w.major)
        ⊎ ((v.major ≡ w.major)
            × ((v.minor < w.minor) ⊎ ((v.minor ≡ w.minor) × (v.patch < w.patch)))))
unfolding is_less_than
is_less_than_lem v w = ground arith

trichotomy : (m n : ℕ) → (m < n) ⊎ (n < m) ⊎ (m ≡ n)
trichotomy m n = ground arith

total : (v w : Version) → (is_less_than v w ≡ true) ⊎ (is_less_than w v ≡ true) ⊎ (v ≡ w)
unfolding is_less_than
total v w = elim (trichotomy v.major w.major) [
  | inl less ↦ inl (ground arith)
  | inr (inl more) ↦ inr (inl (ground arith))
  | inr (inr major) ↦ elim (trichotomy v.minor w.minor) [
    | inl less ↦ inl (ground arith)
    | inr (inl more) ↦ inr (inl (ground arith))
    | inr (inr minor) ↦ elim (trichotomy v.patch w.patch) [
      | inl less ↦ inl (ground arith)
      | inr (inl more) ↦ inr (inl (ground arith))
      | inr (inr patch) ↦
          inr (inr (λ i. record { major = major i; minor = minor i; patch = patch i }))
    ]
  ]
]

-- Of two versions the first one is less, the second one is less, or they are the same; no version
-- is less than itself; and what is less than a version is less than those above it.
pub version_order :
    (u v w : Version)
    → ((is_less_than v w ≡ true) ⊎ (is_less_than w v ≡ true) ⊎ (v ≡ w))
      × (is_less_than v v ≡ false)
      × (is_less_than u v ≡ true → is_less_than v w ≡ true → is_less_than u w ≡ true)
unfolding is_less_than
version_order u v w = (total v w, ground arith, ground arith)
