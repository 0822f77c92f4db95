-- ===== src/Protocol/ServerUser/SourceCache/Ways.antt =====
-- A record in a bucket: which way it takes, and what a lookup finds there.
use mieru.Common.{
  ℕ, zero, suc, ◌+◌, ◌≤◌, ◌<◌, ◌≡◌, refl, inl, inr, true, false, Option, none, some, List, [], ◌∷◌,
  ltb, ◌==◌, if◌then◌else◌, set, length, All, arith, Bool-cases, Option-cases, map,
}
use mieru.Protocol.ServerUser.SourceCache.{
  Entry, Bucket, Candidate, match_way, empty_way, expired_way, oldest_way, way_age, select_way,
  lookup_ways, candidates, is_expired,
}

-- What a lookup makes of an entry with its key
abbrev pub found_in : ℕ → Entry → List ℕ
found_in now e =
    if is_expired now e.last_active then [] else map (λ (c : Candidate). c.user) (candidates now e)

-- What a lookup finds when the way `way` is taken for an entry with the key.
abbrev Taken : ℕ → Bucket → ℕ → Type 0
Taken key ws way =
    (now : ℕ) (e : Entry) → e.key ≡ key → lookup_ways now key (set ws way (some e)) ≡ found_in now e

-- The way that a record of a known key refreshes, or that there is none.
pub data MatchCase (key k : ℕ) (ws : Bucket) : Option (ℕ × Entry) → Type 1 where
  matched :
      (i way : ℕ) (e : Entry)
      → i ≡ k + way
      → e.key ≡ key
      → ((P : Option Entry → Type 0) → All P ws → P (some e))
      → Taken key ws way
      → MatchCase key k ws (some (i, e))
  unmatched : ((way : ℕ) → way < length ws → Taken key ws way) → MatchCase key k ws none

found_first :
    (now key : ℕ) (e : Entry) (ws : Bucket)
    → e.key ≡ key
    → lookup_ways now key (some e ∷ ws) ≡ found_in now e
found_first now key e ws h = let same : (e.key == key) ≡ true = ground (arith, h) in rw same refl

skip_none :
    (key : ℕ) (k : ℕ) (ws : Bucket) (r : Option (ℕ × Entry))
    → MatchCase key (k + 1) ws r
    → MatchCase key k (none ∷ ws) r
skip_none key k ws r (matched i way e at_way same holds taken) =
    matched i (suc way) e (omega (arith, at_way)) same (λ P all. holds P all.1) taken
skip_none key k ws r (unmatched taken) =
    unmatched (λ way below now e same. skip_taken way now e same below)
  where
    skip_taken :
        (way now : ℕ) (e : Entry)
        → e.key ≡ key
        → way < suc (length ws)
        → lookup_ways now key (set (none ∷ ws) way (some e)) ≡ found_in now e
    skip_taken zero now e same below = found_first now key e ws same
    skip_taken (suc way) now e same below = taken way (omega arith) now e same

skip_other :
    (key k : ℕ) (d : Entry) (ws : Bucket) (r : Option (ℕ × Entry))
    → (d.key == key) ≡ false
    → MatchCase key (k + 1) ws r
    → MatchCase key k (some d ∷ ws) r
skip_other key k d ws r other (matched i way e at_way same holds taken) =
    matched i (suc way) e (omega (arith, at_way)) same (λ P all. holds P all.1)
      (λ now e' same'. rw other (taken now e' same'))
skip_other key k d ws r other (unmatched taken) =
    unmatched (λ way below now e same. skip_taken way now e same below)
  where
    skip_taken :
        (way now : ℕ) (e : Entry)
        → e.key ≡ key
        → way < suc (length ws)
        → lookup_ways now key (set (some d ∷ ws) way (some e)) ≡ found_in now e
    skip_taken zero now e same below = found_first now key e ws same
    skip_taken (suc way) now e same below = rw other (taken way (omega arith) now e same)

pub match_way_case : (key k : ℕ) (ws : Bucket) → MatchCase key k ws (match_way key k ws)
match_way_case key k [] = unmatched (λ way below. absurd (omega arith))
match_way_case key k (none ∷ ws) =
    skip_none key k ws (match_way key (k + 1) ws) (match_way_case key (k + 1) ws)
match_way_case key k (some d ∷ ws) = elim (Bool-cases (d.key == key)) [
  | inl here ↦
      let same : d.key ≡ key = ground (arith, here) in
      rw here (
        matched k 0 d (omega arith) same (λ P all. all.0)
          (λ now e same'. found_first now key e ws same'))
  | inr other ↦
      rw other
        (skip_other key k d ws (match_way key (k + 1) ws) other (match_way_case key (k + 1) ws))
]

empty_below : (n i : ℕ) (ws : Bucket) (j : ℕ) → i + length ws ≤ n → empty_way i ws ≡ some j → j < n
empty_below n i [] j h e = absurd (grind arith)
empty_below n i (none ∷ ws) j h e = grind arith
empty_below n i (some d ∷ ws) j h e = empty_below n (i + 1) ws j (omega arith) e

expired_below :
    (n now i : ℕ) (ws : Bucket) (j : ℕ) → i + length ws ≤ n → expired_way now i ws ≡ some j → j < n
expired_below n now i [] j h e = absurd (grind arith)
expired_below n now i (none ∷ ws) j h e = expired_below n now (i + 1) ws j (omega arith) e
expired_below n now i (some d ∷ ws) j h e = elim (Bool-cases (is_expired now d.last_active)) [
  | inl here ↦ let e' = rw here at e in grind arith
  | inr live ↦ expired_below n now (i + 1) ws j (omega arith) (rw live at e)
]

oldest_below :
    (n now i best best_age : ℕ) (ws : Bucket)
    → i + length ws ≤ n
    → best < n
    → oldest_way now i best best_age ws < n
oldest_below n now i best best_age [] h k = k
oldest_below n now i best best_age (w ∷ ws) h k = elim (Bool-cases (ltb best_age (way_age now w))) [
  | inl older ↦
      rw older (oldest_below n now (i + 1) i (way_age now w) ws (omega arith) (omega arith))
  | inr younger ↦ rw younger (oldest_below n now (i + 1) best best_age ws (omega arith) k)
]

-- The chosen way is one of the bucket.
pub select_way_below : (now : ℕ) (ws : Bucket) → 0 < length ws → (select_way now ws).0 < length ws
unfolding select_way
select_way_below now [] h = absurd (omega arith)
select_way_below now (w ∷ ws) h =
    let n = suc (length ws) in
    elim (Option-cases (empty_way 0 (w ∷ ws))) [
      | inr (i, e) ↦ rw (e, select_way) (empty_below n 0 (w ∷ ws) i (omega arith) e)
      | inl none_empty ↦ elim (Option-cases (expired_way now 0 (w ∷ ws))) [
        | inr (i, e) ↦
            rw (none_empty, e, select_way) (expired_below n now 0 (w ∷ ws) i (omega arith) e)
        | inl none_expired ↦
            rw (none_empty, none_expired, select_way)
              (oldest_below n now 1 0 (way_age now w) ws (omega arith) (omega arith))
      ]
    ]
