-- ===== src/Replay/Remembered.antt =====
-- How long an entry of the replay cache lasts.
use mieru.Common.{
  ℕ, suc, ◌+◌, ◌≤◌, ◌<◌, ◌≡◌, refl, ◌∙◌, ◌⊎◌, inl, inr, true, ◌||◌, Option, none, some, List, [],
  ◌∷◌, leb, ltb, ◌==◌, length, All, arith, Bool-cases,
}
use mieru.Replay.{
  ReplayCache, Signature, Tag, Signatures, empty_tag, lookup, is_replay, expire, rotate, in_current,
  is_duplicate, after_calls, Call,
}

-- Some tag is stored under the signature.
abbrev Has : Signature → Signatures → Type 0
Has sig m = (tag : Tag) × (lookup sig m ≡ some tag)

-- The entry lasts for `k` more calls up to the time `t`: it is current, or it is in the previous map
-- and the current one will not be replaced by then.
abbrev pub Lasts : Signature → ℕ → ℕ → ReplayCache → Type 0
Lasts sig t k c =
    (1 ≤ c.capacity)
    × ((Has sig c.current × (t ≤ c.expire_time + c.expire_interval))
        ⊎ (Has sig c.previous × (length c.current + k < c.capacity) × (t ≤ c.expire_time)))

-- The state after the maps have been replaced where they have to be.
abbrev refreshed : ℕ → ReplayCache → ReplayCache
refreshed now c = rotate now (expire now c)

abbrev Ready : Signature → ℕ → ℕ → ReplayCache → Type 0
Ready sig t k c =
    (1 ≤ c.capacity)
    × (length c.current < c.capacity)
    × ((Has sig c.current × (t ≤ c.expire_time + c.expire_interval))
        ⊎ (Has sig c.previous × (length c.current + k < c.capacity) × (t ≤ c.expire_time)))

expire-kept : (sig t k now : ℕ) (c : ReplayCache) → Lasts sig t k c → now ≤ t → expire now c ≡ c
unfolding expire
expire-kept sig t k now c (pos, inl (m, e)) h = ground arith
expire-kept sig t k now c (pos, inr (m, n, e)) h = ground arith

rotate-Ready :
    (sig t k now : ℕ) (c : ReplayCache)
    → Lasts sig t k c
    → now ≤ t
    → t ≤ now + c.expire_interval
    → k < c.capacity
    → Ready sig t k (rotate now c)
unfolding rotate
rotate-Ready sig t k now c (pos, inl (m, e)) h r n =
    elim (Bool-cases (leb c.capacity (length c.current) || ltb c.expire_time now)) [
      | inl hit ↦ rw hit (pos, pos, inr (m, omega arith, r))
      | inr miss ↦ rw miss (pos, ground arith, inl (m, e))
    ]
rotate-Ready sig t k now c (pos, inr (m, n, e)) h r room =
    elim (Bool-cases (leb c.capacity (length c.current) || ltb c.expire_time now)) [
      | inl hit ↦ absurd (ground arith)
      | inr miss ↦ rw miss (pos, ground arith, inr (m, n, e))
    ]

refreshed-Ready :
    (sig t k now : ℕ) (c : ReplayCache)
    → Lasts sig t k c
    → now ≤ t
    → t ≤ now + c.expire_interval
    → k < c.capacity
    → Ready sig t k (refreshed now c)
refreshed-Ready sig t k now c l h r n =
    rw (expire-kept sig t k now c l h) (rotate-Ready sig t k now c l h r n)

refreshed_same :
    (now : ℕ) (c : ReplayCache)
    → ((refreshed now c).capacity ≡ c.capacity)
      × ((refreshed now c).expire_interval ≡ c.expire_interval)
      × (now ≤ (refreshed now c).expire_time)
unfolding rotate expire
refreshed_same now c = (ground arith, ground arith, ground arith)

Has-cons :
    (sig other : Signature) (tag : Tag) (m : Signatures) → Has sig m → Has sig ((other, tag) ∷ m)
Has-cons sig other tag m h = elim (Bool-cases (sig == other)) [
  | inl hit ↦ (tag, rw hit refl)
  | inr miss ↦ (h.0, rw miss h.1)
]

Has-here : (sig : Signature) (tag : Tag) (m : Signatures) → Has sig ((sig, tag) ∷ m)
Has-here sig tag m = (tag, ground arith)

-- A call keeps the entries of the current map.
in_current-Lasts :
    (sig t k other : ℕ) (tag : Tag) (c : ReplayCache) (found : Option Tag)
    → Ready sig t (suc k) c
    → Lasts sig t k (in_current found other tag c).1
in_current-Lasts sig t k other tag c (some old) (pos, room, inl m) = (pos, inl m)
in_current-Lasts sig t k other tag c (some old) (pos, room, inr (m, n, e)) =
    (pos, inr (m, omega arith, e))
in_current-Lasts sig t k other tag c none (pos, room, inl (m, e)) =
    (pos, inl (Has-cons sig other tag c.current m, e))
in_current-Lasts sig t k other tag c none (pos, room, inr (m, n, e)) =
    (pos, inr (m, omega arith, e))

in_current-Has :
    (sig : ℕ) (tag : Tag) (c : ReplayCache) (found : Option Tag)
    → lookup sig c.current ≡ found
    → Has sig (in_current found sig tag c).1.current
in_current-Has sig tag c (some old) e = (old, e)
in_current-Has sig tag c none e = Has-here sig tag c.current

in_current_same :
    (sig : ℕ) (tag : Tag) (c : ReplayCache) (found : Option Tag)
    → let c' = (in_current found sig tag c).1 in
      (c'.capacity ≡ c.capacity)
      × (c'.expire_interval ≡ c.expire_interval)
      × (c'.expire_time ≡ c.expire_time)
in_current_same sig tag c (some old) = (refl, refl, refl)
in_current_same sig tag c none = (refl, refl, refl)

is_replay-empty_tag : (existing : Tag) → is_replay existing empty_tag ≡ true
is_replay-empty_tag [] = refl
is_replay-empty_tag (a ∷ s) = refl

in_current-found :
    (sig t : ℕ) (c : ReplayCache) (found : Option Tag)
    → lookup sig c.current ≡ found
    → Ready sig t 0 c
    → (in_current found sig empty_tag c).0 ≡ true
in_current-found sig t c (some old) e r = is_replay-empty_tag old
in_current-found sig t c none e (pos, room, inl ((tag, m), x)) = absurd (ground arith)
in_current-found sig t c none e (pos, room, inr ((tag, m), n, x)) = rw m (is_replay-empty_tag tag)

-- The calls in between, no earlier than `start` and no later than an interval after it.
abbrev pub During : ℕ → ℕ → Call → Type 0
During start interval call = (start ≤ call.0) × (call.0 ≤ start + interval)

module _ (compute_signature : List ℕ → Signature) where
  is_duplicate-on :
      (now : ℕ) (message : List ℕ) (tag : Tag) (c : ReplayCache)
      → 1 ≤ c.capacity
      → is_duplicate compute_signature now message tag c
        ≡ in_current
            (lookup (compute_signature message) (refreshed now c).current)
            (compute_signature message)
            tag
            (refreshed now c)
  unfolding is_duplicate
  is_duplicate-on now message tag c pos = ground arith

  is_duplicate_same :
      (now : ℕ) (message : List ℕ) (tag : Tag) (c : ReplayCache)
      → 1 ≤ c.capacity
      → let c' = (is_duplicate compute_signature now message tag c).1 in
        (c'.capacity ≡ c.capacity)
        × (c'.expire_interval ≡ c.expire_interval)
        × (now ≤ c'.expire_time)
  is_duplicate_same now message tag c pos =
      let sig = compute_signature message in
      let same = in_current_same sig tag (refreshed now c) (lookup sig (refreshed now c).current) in
      let before = refreshed_same now c in
      rw (is_duplicate-on now message tag c pos)
        (same.0 ∙ before.0, same.1 ∙ before.1, rw same.2 before.2)

  -- The first call stores the message or finds it.
  is_duplicate-Lasts :
      (k now : ℕ) (message : List ℕ) (tag : Tag) (c : ReplayCache)
      → 1 ≤ c.capacity
      → Lasts
          (compute_signature message)
          (now + c.expire_interval)
          k
          (is_duplicate compute_signature now message tag c).1
  is_duplicate-Lasts k now message tag c pos =
      let sig = compute_signature message in
      let (capacity, interval, later) = is_duplicate_same now message tag c pos in
      let stored : Has sig (is_duplicate compute_signature now message tag c).1.current =
        rw (is_duplicate-on now message tag c pos)
          (in_current-Has sig tag (refreshed now c) (lookup sig (refreshed now c).current) refl) in
      (rw capacity pos, inl (stored, omega (arith, later, interval)))

  after_calls-Lasts :
      (sig start interval : ℕ) (calls : List Call) (c : ReplayCache)
      → c.expire_interval ≡ interval
      → Lasts sig (start + interval) (length calls) c
      → All (During start interval) calls
      → length calls < c.capacity
      → let c' = after_calls compute_signature calls c in
        Lasts sig (start + interval) 0 c' × (c'.expire_interval ≡ interval)
  unfolding after_calls
  after_calls-Lasts sig start interval [] c e l d n = (l, e)
  after_calls-Lasts sig start interval ((now, message, tag) ∷ calls) c e l ((lo, hi), d) n =
      let (capacity, same, _) = is_duplicate_same now message tag c l.0 in
      let t = start + interval in
      let r = refreshed-Ready sig t (suc (length calls)) now c l hi (omega (arith, e)) n in
      let other = compute_signature message in
      let l' : Lasts sig t (length calls) (is_duplicate compute_signature now message tag c).1 =
        rw (is_duplicate-on now message tag c l.0) (
          in_current-Lasts sig t (length calls) other tag (refreshed now c)
            (lookup other (refreshed now c).current) r) in
      after_calls-Lasts sig start interval calls _ (same ∙ e) l' d (omega (arith, capacity))

  -- A message that was checked once is a duplicate, whatever was checked in between, if fewer than
  -- `capacity` other calls came in between, no call is earlier than the first one or later than an
  -- expiry interval after it, and the last one has the empty tag.
  pub replay_detected :
      (start now : ℕ) (message : List ℕ) (tag : Tag) (calls : List Call) (c : ReplayCache)
      → let c' = (is_duplicate compute_signature start message tag c).1 in
        length calls < c.capacity
        → All (During start c.expire_interval) calls
        → start ≤ now
        → now ≤ start + c.expire_interval
        → (is_duplicate compute_signature now message empty_tag
            (after_calls compute_signature calls c')).0
          ≡ true
  replay_detected start now message tag calls c n d lo hi =
      let sig = compute_signature message in
      let t = start + c.expire_interval in
      let (capacity, interval, _) = is_duplicate_same start message tag c (omega arith) in
      let l = is_duplicate-Lasts (length calls) start message tag c (omega arith) in
      let (last, same) =
        after_calls-Lasts sig start c.expire_interval calls _ interval l d
          (omega (arith, capacity)) in
      let c2 =
        after_calls compute_signature calls
          (is_duplicate compute_signature start message tag c).1 in
      let r = refreshed-Ready sig t 0 now c2 last hi (omega (arith, same)) last.0 in
      rw (is_duplicate-on now message empty_tag c2 last.0)
        (in_current-found sig t (refreshed now c2) (lookup sig (refreshed now c2).current) refl r)
