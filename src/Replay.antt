-- ===== src/Replay.antt =====
-- pkg/replay/replay.go: the cache of signatures of recent packets. Times are numbers of nanoseconds;
-- the FNV hash of Go's library is an arbitrary function here.
pub mod Remembered
pub mod Sizes
pub mod Examples
use mieru.Common.{
  ℕ, ◌+◌, ◌-◌, Bool, true, false, not, ◌&&◌, ◌||◌, Option, none, some, List, [], ◌∷◌, leb, ltb,
  ◌==◌, if◌then◌else◌, length,
}

abbrev pub Signature : Type 0
Signature = ℕ

abbrev pub Tag : Type 0
Tag = List ℕ

-- A map from signatures to tags.
abbrev pub Signatures : Type 0
Signatures = List (Signature × Tag)

abbrev pub empty_tag : Tag
empty_tag = []

pub record ReplayCache : Type 0 where
  pub capacity : ℕ
  pub expire_time : ℕ
  pub expire_interval : ℕ
  pub current : Signatures
  pub previous : Signatures

-- `NewCache` behind its checks: it panics on an interval that is not positive and on a negative
-- capacity, for which there is no value here; the interval 0 gives a cache all the same.
unfoldable pub new_cache : ℕ → ℕ → ℕ → ReplayCache
new_cache now capacity expire_interval = record {
  capacity = capacity;
  expire_time = now + expire_interval;
  expire_interval = expire_interval;
  current = [];
  previous = [];
}

abbrev pub lookup : Signature → Signatures → Option Tag
lookup sig [] = none
lookup sig ((key, tag) ∷ entries) = if sig == key then some tag else lookup sig entries

abbrev pub tag_eq : Tag → Tag → Bool
tag_eq [] [] = true
tag_eq [] (b ∷ t) = false
tag_eq (a ∷ s) [] = false
tag_eq (a ∷ s) (b ∷ t) = a == b && tag_eq s t

abbrev pub is_empty : Tag → Bool
is_empty [] = true
is_empty (a ∷ s) = false

-- Whether an entry with the first tag makes data with the second one a duplicate.
abbrev pub is_replay : Tag → Tag → Bool
is_replay existing tag =
    if is_empty existing || is_empty tag then true else not (tag_eq existing tag)

-- Both maps are too old.
unfoldable pub expire : ℕ → ReplayCache → ReplayCache
expire now c =
    if ltb c.expire_interval (now - c.expire_time)
    then record c { current = []; previous = []; expire_time = now + c.expire_interval }
    else c

-- The current map becomes the previous one.
unfoldable pub rotate : ℕ → ReplayCache → ReplayCache
rotate now c =
    if leb c.capacity (length c.current) || ltb c.expire_time now
    then record c { previous = c.current; current = []; expire_time = now + c.expire_interval }
    else c

abbrev pub in_previous : Option Tag → Tag → Bool
in_previous none tag = false
in_previous (some existing) tag = is_replay existing tag

abbrev pub in_current : Option Tag → Signature → Tag → ReplayCache → Bool × ReplayCache
in_current (some existing) sig tag c = (is_replay existing tag, c)
in_current none sig tag c =
    (in_previous (lookup sig c.previous) tag, record c { current = (sig, tag) ∷ c.current })

-- The time, the data and the tag of a call.
abbrev pub Call : Type 0
Call = ℕ × List ℕ × Tag

module _ (compute_signature : List ℕ → Signature) where
  unfoldable pub is_duplicate : ℕ → List ℕ → Tag → ReplayCache → Bool × ReplayCache
  unfolding expire rotate
  is_duplicate now message tag c =
      let c' = rotate now (expire now c) in
      let sig = compute_signature message in
      if c.capacity == 0 then (false, c) else in_current (lookup sig c'.current) sig tag c'

  -- The cache after a sequence of calls.
  unfoldable pub after_calls : List Call → ReplayCache → ReplayCache
  unfolding is_duplicate
  after_calls [] c = c
  after_calls ((now, message, tag) ∷ calls) c = after_calls calls (is_duplicate now message tag c).1

abbrev pub sizes : ReplayCache → ℕ × ℕ
sizes c = (length c.current, length c.previous)

abbrev pub clear : ReplayCache → ReplayCache
clear c = record c { current = []; previous = [] }
