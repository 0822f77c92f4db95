-- ===== src/Protocol/ServerUser/SourceCache.antt =====
-- pkg/protocol/serveruser/source_user_cache.go: which users were seen at a source address. Writers of a
-- bucket hold its lock, so that a record is one step and its exchange of a slot does not fail. A key of
-- 16 bytes is a number, a slot is the pair of what is packed into 64 bits, and the hash of a key is a
-- parameter. The counters of the statistics are left out; the transition that they count is a result.
pub mod Slots
pub mod Candidates
pub mod Order
pub mod Ways
pub mod Sound
pub mod Runs
mod Examples
use mieru.Common.{
  ℕ, zero, suc, ◌+◌, ◌-◌, ◌%◌, ◌^◌, Bool, true, false, not, ◌&&◌, ◌||◌, Option, none, some, List,
  [], ◌∷◌, leb, ltb, ◌==◌, if◌then◌else◌, get_or, set, replicate, map,
}

abbrev pub cache_life_seconds : ℕ
cache_life_seconds = 600

abbrev pub cache_bucket_count : ℕ
cache_bucket_count = 4096

abbrev pub cache_ways : ℕ
cache_ways = 4

abbrev pub cache_users : ℕ
cache_users = 16

-- A slot: a user and when it was seen; the user 0 is an empty slot.
pub record Slot : Type 0 where
  pub id : ℕ
  pub seen : ℕ

pub record Entry : Type 0 where
  pub key : ℕ
  pub last_active : ℕ
  pub users : List Slot

-- `sourceUserCacheBucket`, with `none` for a nil pointer
abbrev pub Bucket : Type 0
Bucket = List (Option Entry)

abbrev pub Table : Type 0
Table = ℕ → Bucket

-- `sourceUserCacheAge`: a difference of 32 bits that wraps around
abbrev pub age : ℕ → ℕ → ℕ
age now since = (now + 2 ^ 32 - since) % 2 ^ 32

abbrev pub is_expired : ℕ → ℕ → Bool
is_expired now since = leb cache_life_seconds (age now since)

pub record Candidate : Type 0 where
  pub user : ℕ
  pub how_old : ℕ

-- A candidate for a user that has one keeps the smaller age.
abbrev pub merge_candidate : ℕ → ℕ → List Candidate → List Candidate
merge_candidate id old [] = record { user = id; how_old = old } ∷ []
merge_candidate id old (c ∷ cs) =
    if c.user == id
    then record c { how_old = if ltb old c.how_old then old else c.how_old } ∷ cs
    else c ∷ merge_candidate id old cs

-- An empty slot or an expired one gives no candidate.
abbrev pub add_slot : ℕ → Slot → List Candidate → List Candidate
add_slot now s cs =
    if s.id == 0 || is_expired now s.seen then cs else merge_candidate s.id (age now s.seen) cs

abbrev pub collect : ℕ → List Slot → List Candidate → List Candidate
collect now [] cs = cs
collect now (s ∷ ss) cs = collect now ss (add_slot now s cs)

-- A step of the insertion sort: the candidate moves down past those that are older.
abbrev pub insert_candidate : Candidate → List Candidate → List Candidate
insert_candidate c [] = c ∷ []
insert_candidate c (x ∷ xs) =
    if ltb c.how_old x.how_old then c ∷ x ∷ xs else x ∷ insert_candidate c xs

abbrev pub sort_candidates : List Candidate → List Candidate → List Candidate
sort_candidates sorted [] = sorted
sort_candidates sorted (c ∷ cs) = sort_candidates (insert_candidate c sorted) cs

abbrev pub candidates : ℕ → Entry → List Candidate
candidates now e = sort_candidates [] (collect now e.users [])

-- The search of `lookup` in the ways of a bucket
abbrev pub lookup_ways : ℕ → ℕ → Bucket → List ℕ
lookup_ways now key [] = []
lookup_ways now key (none ∷ ws) = lookup_ways now key ws
lookup_ways now key (some e ∷ ws) =
    let rest = lookup_ways now key ws in
    if not (e.key == key)
    then rest
    else if is_expired now e.last_active
    then []
    else map (λ (c : Candidate). c.user) (candidates now e)

-- `sourceUserCacheRecordTransition`
pub record Transition : Type 0 where
  pub inserted : Bool
  pub expired : Bool
  pub evicted : Bool

-- The choice of a slot: `none` is the index -1.
pub record Scan : Type 0 where
  pub same : Option ℕ
  pub empty : Option ℕ
  pub expired_slot : Option ℕ
  pub oldest : Option ℕ
  pub oldest_age : ℕ

abbrev pub is_unset : Option ℕ → Bool
is_unset none = true
is_unset (some i) = false

abbrev pub scan_slot : ℕ → ℕ → ℕ → Slot → Scan → Scan
scan_slot user now i s a =
    if s.id == user && is_unset a.same
    then record a { same = some i }
    else if s.id == 0 && is_unset a.empty
    then record a { empty = some i }
    else if not (s.id == 0) && is_expired now s.seen && is_unset a.expired_slot
    then record a { expired_slot = some i }
    else if not (s.id == 0) && not (is_expired now s.seen)
    then if is_unset a.oldest || ltb a.oldest_age (age now s.seen)
      then record a { oldest = some i; oldest_age = age now s.seen }
      else a
    else a

abbrev pub scan_slots : ℕ → ℕ → ℕ → List Slot → Scan → Scan
scan_slots user now i [] a = a
scan_slots user now i (s ∷ ss) a = scan_slots user now (i + 1) ss (scan_slot user now i s a)

abbrev pub first_of : Option ℕ → ℕ → ℕ
first_of none i = i
first_of (some i) j = i

abbrev pub no_scan : Scan
no_scan = record { same = none; empty = none; expired_slot = none; oldest = none; oldest_age = 0 }

-- Each slot is of one of the kinds, so one of the indices is set.
abbrev pub chosen_slot : Scan → ℕ
chosen_slot a = first_of a.same (first_of a.empty (first_of a.expired_slot (first_of a.oldest 0)))

abbrev pub no_slot : Slot
no_slot = record { id = 0; seen = 0 }

-- `recordUser`
unfoldable pub record_user : ℕ → ℕ → Entry → Entry × Transition
record_user user now e =
    let slot = chosen_slot (scan_slots user now 0 e.users no_scan) in
    let old = get_or e.users slot no_slot in
    let old_expired = not (old.id == 0) && is_expired now old.seen in
    if old.id == user && old.seen == now
    then (e, record { inserted = false; expired = false; evicted = false })
    else (
      record e { users = set e.users slot (record { id = user; seen = now }) },
      record {
        inserted = old.id == 0 || old_expired || not (old.id == user);
        expired = old_expired;
        evicted = not (old.id == 0) && not old_expired && not (old.id == user);
      },
    )

-- The first way with the key
abbrev pub match_way : ℕ → ℕ → Bucket → Option (ℕ × Entry)
match_way key i [] = none
match_way key i (none ∷ ws) = match_way key (i + 1) ws
match_way key i (some e ∷ ws) =
    let rest = match_way key (i + 1) ws in if e.key == key then some (i, e) else rest

-- `selectSourceUserCacheWay`: an empty way, else an expired one, else the oldest
abbrev pub empty_way : ℕ → Bucket → Option ℕ
empty_way i [] = none
empty_way i (none ∷ ws) = some i
empty_way i (some e ∷ ws) = empty_way (i + 1) ws

abbrev pub expired_way : ℕ → ℕ → Bucket → Option ℕ
expired_way now i [] = none
expired_way now i (none ∷ ws) = expired_way now (i + 1) ws
expired_way now i (some e ∷ ws) =
    let rest = expired_way now (i + 1) ws in if is_expired now e.last_active then some i else rest

abbrev pub way_age : ℕ → Option Entry → ℕ
way_age now none = 0
way_age now (some e) = age now e.last_active

abbrev pub oldest_way : ℕ → ℕ → ℕ → ℕ → Bucket → ℕ
oldest_way now i best best_age [] = best
oldest_way now i best best_age (w ∷ ws) =
    if ltb best_age (way_age now w)
    then oldest_way now (i + 1) i (way_age now w) ws
    else oldest_way now (i + 1) best best_age ws

abbrev pub oldest_of : ℕ → Bucket → ℕ
oldest_of now [] = 0
oldest_of now (w ∷ ws) = oldest_way now 1 0 (way_age now w) ws

-- The way, and whether what it holds has expired
unfoldable pub select_way : ℕ → Bucket → ℕ × Bool
select_way now ws = elim (empty_way 0 ws) [
  | some i ↦ (i, false)
  | none ↦ elim (expired_way now 0 ws) [ some i ↦ (i, true) | none ↦ (oldest_of now ws, false) ]
]

abbrev pub new_entry : ℕ → ℕ → ℕ → Entry
new_entry key user now = record {
  key = key;
  last_active = now;
  users = record { id = user; seen = now } ∷ replicate 15 no_slot;
}

abbrev pub is_filled : Option Entry → Bool
is_filled none = false
is_filled (some e) = true

-- A record into the way that matches, or into the one that is selected
unfoldable pub record_at : ℕ → ℕ → ℕ → Bucket → Option (ℕ × Entry) → Bucket × Transition
record_at key user now ws (some (i, e)) =
    let (e', t) = record_user user now e in
    (
      set ws i (some (record e' { last_active = now })),
      if is_expired now e.last_active
          then record { inserted = true; expired = true; evicted = false }
          else t,
    )
record_at key user now ws none =
    let (i, expired) = select_way now ws in
    let filled = is_filled (get_or ws i none) in
    (
      set ws i (some (new_entry key user now)),
      record { inserted = true; expired = expired; evicted = filled && not expired },
    )

-- `recordAuthenticatedInTable` on the bucket of the key
abbrev pub record_bucket : ℕ → ℕ → ℕ → Bucket → Bucket × Transition
record_bucket key user now ws = record_at key user now ws (match_way key 0 ws)

module _ (hash : ℕ → ℕ) where
  -- `sourceUserCacheBucketIndex`
  abbrev pub bucket_index : ℕ → ℕ
  bucket_index key = hash key % cache_bucket_count

  -- The table of a new cache
  abbrev pub new_table : Table
  new_table i = replicate 4 none

  -- `lookup`
  unfoldable pub lookup : ℕ → ℕ → Table → List ℕ
  lookup now key t = lookup_ways now key (t (bucket_index key))

  abbrev pub put_bucket : ℕ → Bucket → Table → Table
  put_bucket i ws t j = if j == i then ws else t j

  -- `recordAuthenticated`
  unfoldable pub record_authenticated : ℕ → ℕ → ℕ → Table → Table
  record_authenticated now key user t =
      let i = bucket_index key in
      if user == 0 then t else put_bucket i (record_bucket key user now (t i)).0 t
