-- ===== src/Protocol/ServerUser/SourceCache/Order.antt =====
-- The candidates of a lookup are in the order of their ages, each user once.
use mieru.Common.{
  All-mono, ℕ, ◌≤◌, ◌<◌, ◌≡◌, ◌≢◌, ◌⊎◌, refl, sym, subst, inl, inr, ◌||◌, List, [], ◌∷◌, ltb, ◌==◌,
  All, arith, Bool-cases,
}
use mieru.Protocol.ServerUser.SourceCache.{
  Slot, Entry, Candidate, merge_candidate, add_slot, collect, insert_candidate, sort_candidates,
  candidates, is_expired, age, cache_life_seconds,
}
use mieru.Protocol.ServerUser.SourceCache.Slots.{Has}
use mieru.Protocol.ServerUser.SourceCache.Candidates.{HasYounger, candidates-HasYounger}

abbrev pub Sorted : List Candidate → Type 0
Sorted [] = Unit {0}
Sorted (c ∷ cs) = All (λ (x : Candidate). c.how_old ≤ x.how_old) cs × Sorted cs

abbrev pub Distinct : List Candidate → Type 0
Distinct [] = Unit {0}
Distinct (c ∷ cs) = All (λ (x : Candidate). x.user ≢ c.user) cs × Distinct cs

insert-All :
    (P : Candidate → Type 0) (c : Candidate) (xs : List Candidate)
    → P c
    → All P xs
    → All P (insert_candidate c xs)
insert-All P c [] p h = (p, tt)
insert-All P c (x ∷ xs) p h = elim (Bool-cases (ltb c.how_old x.how_old)) [
  | inl younger ↦ rw younger (p, h)
  | inr older ↦ rw older (h.0, insert-All P c xs p h.1)
]

insert-Sorted : (c : Candidate) (xs : List Candidate) → Sorted xs → Sorted (insert_candidate c xs)
insert-Sorted c [] h = (tt, tt)
insert-Sorted c (x ∷ xs) h = elim (Bool-cases (ltb c.how_old x.how_old)) [
  | inl younger ↦
      let below : c.how_old ≤ x.how_old = ground (arith, younger) in
      rw younger (
        (
          below,
          All-mono (λ (y : Candidate). x.how_old ≤ y.how_old)
              (λ (y : Candidate). c.how_old ≤ y.how_old) xs (λ y k. omega arith) h.0,
        ),
        h,
      )
  | inr older ↦
      let above : x.how_old ≤ c.how_old = ground (arith, older) in
      rw older (
        insert-All (λ (y : Candidate). x.how_old ≤ y.how_old) c xs above h.0,
        insert-Sorted c xs h.1,
      )
]

sort-Sorted : (sorted cs : List Candidate) → Sorted sorted → Sorted (sort_candidates sorted cs)
sort-Sorted sorted [] h = h
sort-Sorted sorted (c ∷ cs) h =
    sort-Sorted (insert_candidate c sorted) cs (insert-Sorted c sorted h)

insert-Distinct :
    (c : Candidate) (xs : List Candidate)
    → All (λ (x : Candidate). x.user ≢ c.user) xs
    → Distinct xs
    → Distinct (insert_candidate c xs)
insert-Distinct c [] n h = (tt, tt)
insert-Distinct c (x ∷ xs) n h = elim (Bool-cases (ltb c.how_old x.how_old)) [
  | inl younger ↦ rw younger (n, h)
  | inr older ↦ rw older (
    insert-All (λ (y : Candidate). y.user ≢ x.user) c xs (λ e. n.0 (sym e)) h.0,
    insert-Distinct c xs n.1 h.1,
  )
]

-- No user of one list is in the other.
abbrev Apart : List Candidate → List Candidate → Type 0
Apart xs [] = Unit {0}
Apart xs (c ∷ cs) = All (λ (x : Candidate). x.user ≢ c.user) xs × Apart xs cs

insert-Apart :
    (c : Candidate) (xs cs : List Candidate)
    → All (λ (x : Candidate). x.user ≢ c.user) cs
    → Apart xs cs
    → Apart (insert_candidate c xs) cs
insert-Apart c xs [] n h = tt
insert-Apart c xs (d ∷ cs) n h = (
  insert-All (λ (x : Candidate). x.user ≢ d.user) c xs (λ e. n.0 (sym e)) h.0,
  insert-Apart c xs cs n.1 h.1,
)

sort-Distinct :
    (sorted cs : List Candidate)
    → Distinct sorted
    → Distinct cs
    → Apart sorted cs
    → Distinct (sort_candidates sorted cs)
sort-Distinct sorted [] h k a = h
sort-Distinct sorted (c ∷ cs) h k a =
    sort-Distinct (insert_candidate c sorted) cs (insert-Distinct c sorted a.0 h) k.1
      (insert-Apart c sorted cs k.0 a.1)

merge-All :
    (P : ℕ → Type 0) (id old : ℕ) (cs : List Candidate)
    → P id
    → All (λ (x : Candidate). P x.user) cs
    → All (λ (x : Candidate). P x.user) (merge_candidate id old cs)
merge-All P id old [] p h = (p, tt)
merge-All P id old (c ∷ cs) p h = elim (Bool-cases (c.user == id)) [
  | inl same ↦ rw same h
  | inr other ↦ rw other (h.0, merge-All P id old cs p h.1)
]

merge-Distinct :
    (id old : ℕ) (cs : List Candidate) → Distinct cs → Distinct (merge_candidate id old cs)
merge-Distinct id old [] h = (tt, tt)
merge-Distinct id old (c ∷ cs) h = elim (Bool-cases (c.user == id)) [
  | inl same ↦ rw same h
  | inr other ↦
      let new : id ≢ c.user = λ e. ground (arith, other, e) in
      rw other (merge-All (λ u. u ≢ c.user) id old cs new h.0, merge-Distinct id old cs h.1)
]

add_slot-Distinct :
    (now : ℕ) (s : Slot) (cs : List Candidate) → Distinct cs → Distinct (add_slot now s cs)
add_slot-Distinct now s cs h = elim (Bool-cases (s.id == 0 || is_expired now s.seen)) [
  | inl none_here ↦ rw none_here h
  | inr live ↦ rw live (merge-Distinct s.id (age now s.seen) cs h)
]

collect-Distinct :
    (now : ℕ) (ss : List Slot) (cs : List Candidate) → Distinct cs → Distinct (collect now ss cs)
collect-Distinct now [] cs h = h
collect-Distinct now (s ∷ ss) cs h =
    collect-Distinct now ss (add_slot now s cs) (add_slot-Distinct now s cs h)

nothing-Apart : (cs : List Candidate) → Apart [] cs
nothing-Apart [] = tt
nothing-Apart (c ∷ cs) = (tt, nothing-Apart cs)

sort-All :
    (P : Candidate → Type 0) (sorted cs : List Candidate)
    → All P sorted
    → All P cs
    → All P (sort_candidates sorted cs)
sort-All P sorted [] h k = h
sort-All P sorted (c ∷ cs) h k =
    sort-All P (insert_candidate c sorted) cs (insert-All P c sorted k.0 h) k.1

module _ (now : ℕ) (users : List Slot) where
  -- A slot of the user that is live has this age.
  abbrev SeenAt : ℕ → ℕ → Type 0
  SeenAt user old =
      (seen : ℕ) × Has (record { id = user; seen = seen }) users
      × (old ≡ age now seen)
      × (user ≢ 0)
      × (old < cache_life_seconds)

  abbrev pub IsSeen : Candidate → Type 0
  IsSeen c = SeenAt c.user c.how_old

  merge-IsSeen :
      (id old : ℕ) (cs : List Candidate)
      → SeenAt id old
      → All IsSeen cs
      → All IsSeen (merge_candidate id old cs)
  merge-IsSeen id old [] p h = (p, tt)
  merge-IsSeen id old (c ∷ cs) p h = elim (Bool-cases (c.user == id)) [
    | inr other ↦ rw other (h.0, merge-IsSeen id old cs p h.1)
    | inl same ↦
        let e : c.user ≡ id = ground (arith, same) in
        rw same (elim (Bool-cases (ltb old c.how_old)) [
          | inl younger ↦ rw younger (subst (λ u. SeenAt u old) (sym e) p, h.1)
          | inr older ↦ rw older h
        ])
  ]

  collect-IsSeen :
      (ss : List Slot) (cs : List Candidate)
      → ((s : Slot) → Has s ss → Has s users)
      → All IsSeen cs
      → All IsSeen (collect now ss cs)
  collect-IsSeen [] cs within h = h
  collect-IsSeen (s ∷ ss) cs within h =
      collect-IsSeen ss (add_slot now s cs) (λ x k. within x (inr k))
        (elim (Bool-cases (s.id == 0 || is_expired now s.seen)) [
          | inl none_here ↦ rw none_here h
          | inr live ↦ rw live (
              merge-IsSeen s.id (age now s.seen) cs
                (
                  s.seen,
                  within s (inl refl),
                  refl,
                  (λ e. ground (arith, live, e)),
                  ground (arith, live),
                )
                h)
        ])

-- A slot is empty or expired, or there is a candidate for its user who is no older.
abbrev pub IsCovered : ℕ → List Candidate → Slot → Type 0
IsCovered now cs s =
    (s.id ≡ 0) ⊎ ((cache_life_seconds ≤ age now s.seen) ⊎ HasYounger s.id (age now s.seen) cs)

covered :
    (now : ℕ) (e : Entry) (ss : List Slot)
    → ((s : Slot) → Has s ss → Has s e.users)
    → All (IsCovered now (candidates now e)) ss
covered now e [] within = tt
covered now e (s ∷ ss) within = (
  elim (Bool-cases (s.id == 0)) [
    | inl empty ↦ inl (ground (arith, empty))
    | inr user ↦ elim (Bool-cases (is_expired now s.seen)) [
      | inl old ↦ inr (inl (ground (arith, old)))
      | inr live ↦ inr (
          inr (
            candidates-HasYounger now s.id s.seen e (λ e. ground (arith, user, e))
              (ground (arith, live)) (within s (inl refl))))
    ]
  ],
  covered now e ss (λ x k. within x (inr k)),
)

-- The candidates of an entry come in the order of their ages, and no user comes twice. The age of a
-- candidate is that of the most recent slot of the user: it is the age of a slot that is neither
-- empty nor expired, and no such slot of the user is more recent, for the users of all such slots.
pub candidates_ordered :
    (now : ℕ) (e : Entry)
    → Sorted (candidates now e)
      × Distinct (candidates now e)
      × All (IsSeen now e.users) (candidates now e)
      × All (IsCovered now (candidates now e)) e.users
candidates_ordered now e =
    let found = collect now e.users [] in
    (
      sort-Sorted [] found tt,
      sort-Distinct [] found tt (collect-Distinct now e.users [] tt) (nothing-Apart found),
      sort-All (IsSeen now e.users) [] found tt
          (collect-IsSeen now e.users e.users [] (λ s h. h) tt),
      covered now e e.users (λ s h. h),
    )
