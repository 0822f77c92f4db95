-- ===== src/Protocol/ServerUser/SourceCache/Runs.antt =====
-- The cache over a run of records.
use mieru.Common.{
  ℕ, ◌<◌, ◌≡◌, ◌≢◌, subst, ◌⊎◌, inl, inr, true, false, none, some, List, [], ◌∷◌, ◌==◌, All, arith,
  Bool-cases,
}
use mieru.Protocol.ServerUser.SourceCache.{
  Slot, Bucket, Table, cache_life_seconds, age, is_expired, match_way, lookup_ways, record_bucket,
  bucket_index, new_table, lookup, put_bucket, record_authenticated,
}
use mieru.Protocol.ServerUser.SourceCache.Slots.{Has}
use mieru.Protocol.ServerUser.SourceCache.Candidates.{candidates-Has, candidates-All}
use mieru.Protocol.ServerUser.SourceCache.Ways.{match_way_case}
use mieru.Protocol.ServerUser.SourceCache.Sound.{
  Event, Recorded, SoundWay, SoundBucket, bucket_later, record_at_lem,
}

module _ (hash : ℕ → ℕ) where
  -- The table after a run of records on a new cache, the latest one first.
  abbrev pub run : List Event → Table
  run [] = new_table hash
  run (x ∷ xs) = record_authenticated hash x.when x.key x.user (run xs)

  put_sound :
      (es : List Event) (i : ℕ) (ws : Bucket) (t : Table) (j : ℕ)
      → SoundBucket es ws
      → SoundBucket es (t j)
      → SoundBucket es (put_bucket hash i ws t j)
  put_sound es i ws t j h k = elim (Bool-cases (j == i)) [
    | inl here ↦ rw here h
    | inr other ↦ rw other k
  ]

  record_sound :
      (es : List Event) (x : Event) (t : Table)
      → ((j : ℕ) → SoundBucket es (t j))
      → (j : ℕ) → SoundBucket (x ∷ es) (record_authenticated hash x.when x.key x.user t j)
  unfolding record_authenticated
  record_sound es x t h j = elim (Bool-cases (x.user == 0)) [
    | inl no_user ↦ rw no_user (bucket_later x es (t j) (h j))
    | inr user ↦
        let i = bucket_index hash x.key in
        let b =
          record_at_lem es x.when x.key x.user (t i) (match_way x.key 0 (t i)) (h i)
            (match_way_case x.key 0 (t i)) in
        rw user (
          put_sound (x ∷ es) i (record_bucket x.key x.user x.when (t i)).0 t j b.sound
            (bucket_later x es (t j) (h j)))
  ]

  run_sound : (es : List Event) (j : ℕ) → SoundBucket es (run es j)
  run_sound [] j = (omega arith, (tt, (tt, (tt, (tt, tt)))))
  run_sound (x ∷ es) j = record_sound es x (run es) (run_sound es) j

  -- A user that was recorded for the key less than the life of the cache ago
  abbrev pub RecordedLately : List Event → ℕ → ℕ → ℕ → Type 0
  RecordedLately es now key user =
      (when : ℕ) × Recorded es key user when × (age now when < cache_life_seconds)

  found_lately :
      (es : List Event) (now key : ℕ) (ws : Bucket)
      → All (λ w. SoundWay es w) ws
      → All (λ user. RecordedLately es now key user) (lookup_ways now key ws)
  found_lately es now key [] h = tt
  found_lately es now key (none ∷ ws) h = found_lately es now key ws h.1
  found_lately es now key (some e ∷ ws) h = elim (Bool-cases (e.key == key)) [
    | inr other ↦ rw other (found_lately es now key ws h.1)
    | inl same ↦ elim (Bool-cases (is_expired now e.last_active)) [
      | inl old ↦ rw (same, old) tt
      | inr live ↦
          let keys : e.key ≡ key = ground (arith, same) in
          rw (same, live)
            (candidates-All (λ user. RecordedLately es now key user) now
              (λ id seen. Recorded es key id seen) (λ id seen r l. (seen, r, l)) e
              (subst (λ n. All (λ (s : Slot). (s.id ≡ 0) ⊎ Recorded es n s.id s.seen) e.users) keys
                h.0.1))
    ]
  ]

  -- After any run of records on a new cache, a lookup of a key finds only users that were recorded for
  -- that very key, less than 600 ticks before it.
  pub lookup_only_recorded :
      (es : List Event) (now key : ℕ)
      → All (λ user. RecordedLately es now key user) (lookup hash now key (run es))
  unfolding lookup
  lookup_only_recorded es now key =
      let i = bucket_index hash key in found_lately es now key (run es i) (run_sound es i).1

  -- A user that is recorded for a key after any run of records is among those that a lookup of the key
  -- finds, at any time less than 600 ticks after it, whatever was evicted for it; the user 0 is excepted.
  pub recorded_is_found :
      (es : List Event) (now later key user : ℕ)
      → user ≢ 0
      → age later now < cache_life_seconds
      → Has user (lookup hash later key (record_authenticated hash now key user (run es)))
  unfolding lookup record_authenticated
  recorded_is_found es now later key user n live =
      let i = bucket_index hash key in
      let ws = run es i in
      let b =
        record_at_lem es now key user ws (match_way key 0 ws) (run_sound es i)
          (match_way_case key 0 ws) in
      let some_user : (user == 0) ≡ false = ground (arith, n) in
      let here : (i == i) ≡ true = ground arith in
      let not_old : is_expired later b.entry.last_active ≡ false = rw b.active (ground arith) in
      rw (some_user, here, b.found later, not_old)
        (candidates-Has later user now b.entry n live b.there)
