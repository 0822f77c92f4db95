-- ===== src/Protocol/ServerUser/SourceCache/Sound.antt =====
-- A bucket holds only what was recorded.
use mieru.Common.{
  All-mono, ℕ, zero, suc, ◌<◌, ◌≡◌, refl, sym, ◌∙◌, subst, ◌⊎◌, inl, inr, Option, none, some, List,
  [], ◌∷◌, set, length, All, arith, replicate,
}
use mieru.Protocol.ServerUser.SourceCache.{
  Slot, Entry, Bucket, no_slot, lookup_ways, record_user, select_way, new_entry, record_at,
}
use mieru.Protocol.ServerUser.SourceCache.Slots.{Has, length-set, set-All, record_user_lem}
use mieru.Protocol.ServerUser.SourceCache.Ways.{
  MatchCase, matched, unmatched, select_way_below, found_in,
}

-- A call of `recordAuthenticated`
pub record Event : Type 0 where
  pub when : ℕ
  pub key : ℕ
  pub user : ℕ

-- The user was recorded for the key at the time.
abbrev pub Recorded : List Event → ℕ → ℕ → ℕ → Type 0
Recorded [] key user when = ⊥
Recorded (x ∷ xs) key user when =
    ((x.key ≡ key) × (x.user ≡ user) × (x.when ≡ when)) ⊎ Recorded xs key user when

-- An entry knows only users that were recorded for its key.
abbrev pub SoundEntry : List Event → Entry → Type 0
SoundEntry es e =
    (0 < length e.users) × All (λ (s : Slot). (s.id ≡ 0) ⊎ Recorded es e.key s.id s.seen) e.users

abbrev pub SoundWay : List Event → Option Entry → Type 0
SoundWay es none = Unit {0}
SoundWay es (some e) = SoundEntry es e

abbrev pub SoundBucket : List Event → Bucket → Type 0
SoundBucket es ws = (0 < length ws) × All (λ w. SoundWay es w) ws

slot_later :
    (x : Event) (es : List Event) (key : ℕ) (s : Slot)
    → (s.id ≡ 0) ⊎ Recorded es key s.id s.seen
    → (s.id ≡ 0) ⊎ Recorded (x ∷ es) key s.id s.seen
slot_later x es key s (inl e) = inl e
slot_later x es key s (inr r) = inr (inr r)

way_later : (x : Event) (es : List Event) (w : Option Entry) → SoundWay es w → SoundWay (x ∷ es) w
way_later x es none h = tt
way_later x es (some e) h = (
  h.0,
  All-mono (λ (s : Slot). (s.id ≡ 0) ⊎ Recorded es e.key s.id s.seen)
      (λ (s : Slot). (s.id ≡ 0) ⊎ Recorded (x ∷ es) e.key s.id s.seen) e.users
      (slot_later x es e.key) h.1,
)

pub bucket_later :
    (x : Event) (es : List Event) (ws : Bucket) → SoundBucket es ws → SoundBucket (x ∷ es) ws
bucket_later x es ws h =
    (h.0, All-mono (λ w. SoundWay es w) (λ w. SoundWay (x ∷ es) w) ws (way_later x es) h.1)

empty_slots :
    (es : List Event) (key n : ℕ)
    → All (λ (s : Slot). (s.id ≡ 0) ⊎ Recorded es key s.id s.seen) (replicate n no_slot)
empty_slots es key zero = tt
empty_slots es key (suc n) = (inl refl, empty_slots es key n)

new_entry_sound :
    (now key user : ℕ) (es : List Event)
    → SoundEntry (record { when = now; key = key; user = user } ∷ es) (new_entry key user now)
new_entry_sound now key user es = (
  omega arith,
  (
    inr (inl (refl, refl, refl)),
    empty_slots (record { when = now; key = key; user = user } ∷ es) key 15,
  ),
)

-- What a record does to a bucket.
pub record BucketRecorded (es : List Event) (now key user : ℕ) (ws' : Bucket) : Type 0 where
  pub sound : SoundBucket (record { when = now; key = key; user = user } ∷ es) ws'
  pub entry : Entry
  pub same_key : entry.key ≡ key
  pub active : entry.last_active ≡ now
  pub there : Has (record { id = user; seen = now }) entry.users
  pub found : (later : ℕ) → lookup_ways later key ws' ≡ found_in later entry

record_matched :
    (es : List Event) (now key user way : ℕ) (e : Entry) (ws : Bucket)
    → e.key ≡ key
    → SoundBucket es ws
    → SoundEntry es e
    → ((later : ℕ) (e' : Entry)
        → e'.key ≡ key
        → lookup_ways later key (set ws way (some e')) ≡ found_in later e')
    → let e' = record (record_user user now e).0 { last_active = now } in
      BucketRecorded es now key user (set ws way (some e'))
record_matched es now key user way e ws same h k taken =
    let r = record_user_lem user now e k.0 in
    let e' = record (record_user user now e).0 { last_active = now } in
    let x : Event = record { when = now; key = key; user = user } in
    let keys : e'.key ≡ key = r.key ∙ same in
    let old = bucket_later x es ws h in
    let slots =
      r.kept (λ s. (s.id ≡ 0) ⊎ Recorded (x ∷ es) e.key s.id s.seen)
        (inr (inl (sym same, refl, refl))) (way_later x es (some e) k).1 in
    record {
      sound = (
        omega (arith, h.0, length-set ws way (some e')),
        set-All (λ w. SoundWay (x ∷ es) w) ws way (some e') old.1
            (
              omega (arith, k.0, r.len),
              subst (λ n. All (λ (s : Slot). (s.id ≡ 0) ⊎ Recorded (x ∷ es) n s.id s.seen) e'.users)
                  (sym r.key) slots,
            ),
      );
      entry = e';
      same_key = keys;
      active = refl;
      there = r.there;
      found = λ later. taken later e' keys;
    }

record_new :
    (es : List Event) (now key user way : ℕ) (ws : Bucket)
    → SoundBucket es ws
    → ((later : ℕ) (e' : Entry)
        → e'.key ≡ key
        → lookup_ways later key (set ws way (some e')) ≡ found_in later e')
    → BucketRecorded es now key user (set ws way (some (new_entry key user now)))
record_new es now key user way ws h taken =
    let e' = new_entry key user now in
    let x : Event = record { when = now; key = key; user = user } in
    record {
      sound = (
        omega (arith, h.0, length-set ws way (some e')),
        set-All (λ w. SoundWay (x ∷ es) w) ws way (some e') (bucket_later x es ws h).1
            (new_entry_sound now key user es),
      );
      entry = e';
      same_key = refl;
      active = refl;
      there = inl refl;
      found = λ later. taken later e' refl;
    }

pub record_at_lem :
    (es : List Event) (now key user : ℕ) (ws : Bucket) (r : Option (ℕ × Entry))
    → SoundBucket es ws
    → MatchCase key 0 ws r
    → BucketRecorded es now key user (record_at key user now ws r).0
unfolding record_at
record_at_lem es now key user ws r h (matched i way e at_way same holds taken) =
    let e' = record (record_user user now e).0 { last_active = now } in
    let here : i ≡ way = omega (arith, at_way) in
    subst (λ n. BucketRecorded es now key user (set ws n (some e'))) (sym here)
      (record_matched es now key user way e ws same h (holds (λ w. SoundWay es w) h.1)
        (λ later e' k. taken later e' k))
record_at_lem es now key user ws r h (unmatched taken) =
    let way = (select_way now ws).0 in
    record_new es now key user way ws h
      (λ later e' k. taken way (select_way_below now ws h.0) later e' k)
