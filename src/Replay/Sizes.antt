-- ===== src/Replay/Sizes.antt =====
-- The sizes of the maps of the replay cache.
use mieru.Common.{
  ℕ, ◌≤◌, ◌<◌, ◌≡◌, refl, ◌∙◌, inl, inr, Option, none, some, List, [], ◌∷◌, ◌==◌, length, arith,
  Bool-cases,
}
use mieru.Replay.{
  ReplayCache, Signature, Tag, lookup, expire, rotate, in_current, is_duplicate, after_calls, Call,
  new_cache, sizes,
}

-- Neither map is larger than the capacity.
abbrev pub Bounded : ReplayCache → Type 0
Bounded c = (length c.current ≤ c.capacity) × (length c.previous ≤ c.capacity)

refreshed-Bounded :
    (now : ℕ) (c : ReplayCache)
    → 1 ≤ c.capacity
    → Bounded c
    → let c' = rotate now (expire now c) in
      (length c'.current < c'.capacity)
      × (length c'.previous ≤ c'.capacity)
      × (c'.capacity ≡ c.capacity)
unfolding rotate expire
refreshed-Bounded now c pos b = (ground arith, ground arith, ground arith)

in_current-Bounded :
    (found : Option Tag) (sig : Signature) (tag : Tag) (c : ReplayCache)
    → length c.current < c.capacity
    → length c.previous ≤ c.capacity
    → Bounded (in_current found sig tag c).1
      × ((in_current found sig tag c).1.capacity ≡ c.capacity)
in_current-Bounded (some old) sig tag c n m = ((omega arith, m), refl)
in_current-Bounded none sig tag c n m = ((omega arith, m), refl)

module _ (compute_signature : List ℕ → Signature) where
  is_duplicate-Bounded :
      (now : ℕ) (message : List ℕ) (tag : Tag) (c : ReplayCache)
      → Bounded c
      → let c' = (is_duplicate compute_signature now message tag c).1 in
        Bounded c' × (c'.capacity ≡ c.capacity)
  unfolding is_duplicate
  is_duplicate-Bounded now message tag c b = elim (Bool-cases (c.capacity == 0)) [
    | inl off ↦ rw off (b, refl)
    | inr on ↦
        let (n, m, same) = refreshed-Bounded now c (ground arith) b in
        let sig = compute_signature message in
        let c' = rotate now (expire now c) in
        let (bounded, kept) = in_current-Bounded (lookup sig c'.current) sig tag c' n m in
        rw on (bounded, kept ∙ same)
  ]

  after_calls-Bounded :
      (calls : List Call) (c : ReplayCache)
      → Bounded c
      → Bounded (after_calls compute_signature calls c)
        × ((after_calls compute_signature calls c).capacity ≡ c.capacity)
  unfolding after_calls
  after_calls-Bounded [] c b = (b, refl)
  after_calls-Bounded ((now, message, tag) ∷ calls) c b =
      let (bounded, kept) = is_duplicate-Bounded now message tag c b in
      let (last, same) =
        after_calls-Bounded calls (is_duplicate compute_signature now message tag c).1 bounded in
      (last, same ∙ kept)

  -- After any sequence of calls on a new cache neither map has more entries than the capacity.
  pub sizes_bounded :
      (start capacity interval : ℕ) (calls : List Call)
      → let (current, previous) =
          sizes (after_calls compute_signature calls (new_cache start capacity interval)) in
        (current ≤ capacity) × (previous ≤ capacity)
  unfolding new_cache
  sizes_bounded start capacity interval calls =
      let (bounded, same) =
        after_calls-Bounded calls (new_cache start capacity interval) (omega arith, omega arith) in
      (omega (arith, bounded, same), omega (arith, bounded, same))
