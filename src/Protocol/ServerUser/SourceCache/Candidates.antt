-- ===== src/Protocol/ServerUser/SourceCache/Candidates.antt =====
-- The candidates of a lookup: which users they are, and their order.
use mieru.Common.{
  ℕ, ◌≤◌, ◌<◌, ◌≡◌, ◌≢◌, refl, sym, subst, ◌⊎◌, inl, inr, false, ◌||◌, List, [], ◌∷◌, ltb, ◌==◌,
  All, arith, Bool-cases, map,
}
use mieru.Protocol.ServerUser.SourceCache.{
  Slot, Entry, Candidate, merge_candidate, add_slot, collect, insert_candidate, sort_candidates,
  candidates, is_expired, age, cache_life_seconds,
}
use mieru.Protocol.ServerUser.SourceCache.Slots.{Has}

abbrev users_of : List Candidate → List ℕ
users_of cs = map (λ (c : Candidate). c.user) cs

-- There is a candidate for the user, no older than the given age.
abbrev pub HasYounger : ℕ → ℕ → List Candidate → Type 0
HasYounger user old [] = ⊥
HasYounger user old (c ∷ cs) = ((c.user ≡ user) × (c.how_old ≤ old)) ⊎ HasYounger user old cs

merge-HasYounger :
    (id old user a : ℕ) (cs : List Candidate)
    → HasYounger user a cs
    → HasYounger user a (merge_candidate id old cs)
merge-HasYounger id old user a [] h = absurd h
merge-HasYounger id old user a (c ∷ cs) h = elim (Bool-cases (c.user == id)) [
  | inl same ↦ rw same (elim h [ inl (e, le) ↦ inl (e, ground (arith, le)) | inr k ↦ inr k ])
  | inr other ↦
      rw other (elim h [ inl e ↦ inl e | inr k ↦ inr (merge-HasYounger id old user a cs k) ])
]

merge_here : (id old : ℕ) (cs : List Candidate) → HasYounger id old (merge_candidate id old cs)
merge_here id old [] = inl (refl, omega arith)
merge_here id old (c ∷ cs) = elim (Bool-cases (c.user == id)) [
  | inl same ↦ rw same (inl (ground (arith, same), ground arith))
  | inr other ↦ rw other (inr (merge_here id old cs))
]

add_slot-HasYounger :
    (now user a : ℕ) (s : Slot) (cs : List Candidate)
    → HasYounger user a cs
    → HasYounger user a (add_slot now s cs)
add_slot-HasYounger now user a s cs h = elim (Bool-cases (s.id == 0 || is_expired now s.seen)) [
  | inl none_here ↦ rw none_here h
  | inr live ↦ rw live (merge-HasYounger s.id (age now s.seen) user a cs h)
]

collect-kept :
    (now user a : ℕ) (ss : List Slot) (cs : List Candidate)
    → HasYounger user a cs
    → HasYounger user a (collect now ss cs)
collect-kept now user a [] cs h = h
collect-kept now user a (s ∷ ss) cs h =
    collect-kept now user a ss (add_slot now s cs) (add_slot-HasYounger now user a s cs h)

add_slot_here :
    (now user seen : ℕ) (cs : List Candidate)
    → user ≢ 0
    → age now seen < cache_life_seconds
    → HasYounger user (age now seen) (add_slot now (record { id = user; seen = seen }) cs)
add_slot_here now user seen cs n live =
    let here : (user == 0 || is_expired now seen) ≡ false = ground (arith, n) in
    rw here (merge_here user (age now seen) cs)

collect-HasYounger :
    (now user seen : ℕ) (ss : List Slot) (cs : List Candidate)
    → user ≢ 0
    → age now seen < cache_life_seconds
    → Has (record { id = user; seen = seen }) ss
    → HasYounger user (age now seen) (collect now ss cs)
collect-HasYounger now user seen [] cs n live h = absurd h
collect-HasYounger now user seen (s ∷ ss) cs n live (inr h) =
    collect-HasYounger now user seen ss (add_slot now s cs) n live h
collect-HasYounger now user seen (s ∷ ss) cs n live (inl e) =
    collect-kept now user (age now seen) ss (add_slot now s cs) (
      subst (λ (x : Slot). HasYounger user (age now seen) (add_slot now x cs)) (sym e)
        (add_slot_here now user seen cs n live))

insert-HasYounger :
    (user a : ℕ) (c : Candidate) (xs : List Candidate)
    → HasYounger user a (c ∷ xs)
    → HasYounger user a (insert_candidate c xs)
insert-HasYounger user a c [] h = h
insert-HasYounger user a c (x ∷ xs) h = elim (Bool-cases (ltb c.how_old x.how_old)) [
  | inl younger ↦ rw younger h
  | inr older ↦ rw older (elim h [
    | inl e ↦ inr (insert-HasYounger user a c xs (inl e))
    | inr (inl e) ↦ inl e
    | inr (inr k) ↦ inr (insert-HasYounger user a c xs (inr k))
  ])
]

sort-HasYounger :
    (user a : ℕ) (sorted cs : List Candidate)
    → HasYounger user a sorted ⊎ HasYounger user a cs
    → HasYounger user a (sort_candidates sorted cs)
sort-HasYounger user a sorted [] (inl h) = h
sort-HasYounger user a sorted [] (inr h) = absurd h
sort-HasYounger user a sorted (c ∷ cs) (inl h) =
    sort-HasYounger user a (insert_candidate c sorted) cs
      (inl (insert-HasYounger user a c sorted (inr h)))
sort-HasYounger user a sorted (c ∷ cs) (inr (inl e)) =
    sort-HasYounger user a (insert_candidate c sorted) cs
      (inl (insert-HasYounger user a c sorted (inl e)))
sort-HasYounger user a sorted (c ∷ cs) (inr (inr h)) =
    sort-HasYounger user a (insert_candidate c sorted) cs (inr h)

-- A user in a slot that is live is a candidate, no older than the slot.
pub candidates-HasYounger :
    (now user seen : ℕ) (e : Entry)
    → user ≢ 0
    → age now seen < cache_life_seconds
    → Has (record { id = user; seen = seen }) e.users
    → HasYounger user (age now seen) (candidates now e)
candidates-HasYounger now user seen e n live h =
    sort-HasYounger user (age now seen) [] (collect now e.users [])
      (inr (collect-HasYounger now user seen e.users [] n live h))

Has-users_of : (user a : ℕ) (cs : List Candidate) → HasYounger user a cs → Has user (users_of cs)
Has-users_of user a [] h = absurd h
Has-users_of user a (c ∷ cs) (inl e) = inl e.0
Has-users_of user a (c ∷ cs) (inr h) = inr (Has-users_of user a cs h)

pub candidates-Has :
    (now user seen : ℕ) (e : Entry)
    → user ≢ 0
    → age now seen < cache_life_seconds
    → Has (record { id = user; seen = seen }) e.users
    → Has user (users_of (candidates now e))
candidates-Has now user seen e n live h =
    Has-users_of user (age now seen) (candidates now e)
      (candidates-HasYounger now user seen e n live h)

module _ (Q : ℕ → Type 0) where
  merge-All :
      (id old : ℕ) (cs : List Candidate)
      → Q id
      → All Q (users_of cs)
      → All Q (users_of (merge_candidate id old cs))
  merge-All id old [] q h = (q, tt)
  merge-All id old (c ∷ cs) q h = elim (Bool-cases (c.user == id)) [
    | inl same ↦ rw same h
    | inr other ↦ rw other (h.0, merge-All id old cs q h.1)
  ]

  insert-All :
      (c : Candidate) (xs : List Candidate)
      → Q c.user
      → All Q (users_of xs)
      → All Q (users_of (insert_candidate c xs))
  insert-All c [] q h = (q, tt)
  insert-All c (x ∷ xs) q h = elim (Bool-cases (ltb c.how_old x.how_old)) [
    | inl younger ↦ rw younger (q, h)
    | inr older ↦ rw older (h.0, insert-All c xs q h.1)
  ]

  sort-All :
      (sorted cs : List Candidate)
      → All Q (users_of sorted)
      → All Q (users_of cs)
      → All Q (users_of (sort_candidates sorted cs))
  sort-All sorted [] h k = h
  sort-All sorted (c ∷ cs) h k =
      sort-All (insert_candidate c sorted) cs (insert-All c sorted k.0 h) k.1

  module _ (now : ℕ) (R : ℕ → ℕ → Type 0)
      (live : (id seen : ℕ) → R id seen → age now seen < cache_life_seconds → Q id) where
    add_slot-All :
        (s : Slot) (cs : List Candidate)
        → (s.id ≡ 0) ⊎ R s.id s.seen
        → All Q (users_of cs)
        → All Q (users_of (add_slot now s cs))
    add_slot-All s cs h k = elim (Bool-cases (s.id == 0 || is_expired now s.seen)) [
      | inl none_here ↦ rw none_here k
      | inr here ↦ elim h [
        | inl e ↦ absurd (ground (arith, here, e))
        | inr r ↦
            rw here
              (merge-All s.id (age now s.seen) cs (live s.id s.seen r (ground (arith, here))) k)
      ]
    ]

    collect-All :
        (ss : List Slot) (cs : List Candidate)
        → All (λ (s : Slot). (s.id ≡ 0) ⊎ R s.id s.seen) ss
        → All Q (users_of cs)
        → All Q (users_of (collect now ss cs))
    collect-All [] cs h k = k
    collect-All (s ∷ ss) cs h k = collect-All ss (add_slot now s cs) h.1 (add_slot-All s cs h.0 k)

    -- The candidates are users of slots that are live.
    pub candidates-All :
        (e : Entry)
        → All (λ (s : Slot). (s.id ≡ 0) ⊎ R s.id s.seen) e.users
        → All Q (users_of (candidates now e))
    candidates-All e h = sort-All [] (collect now e.users []) tt (collect-All e.users [] h tt)
