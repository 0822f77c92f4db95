-- ===== src/Protocol/ServerUser/SourceCache/Slots.antt =====
-- The slots of an entry, and which one a record takes.
use mieru.Common.{
  ℕ, zero, suc, ◌+◌, ◌≤◌, ◌<◌, ◌≡◌, refl, ap, subst, ◌⊎◌, inl, inr, not, ◌&&◌, ◌||◌, Option, none,
  some, List, [], ◌∷◌, ltb, ◌==◌, get_or, set, length, All, arith, Bool-cases,
}
use mieru.Protocol.ServerUser.SourceCache.{
  Slot, Entry, Scan, no_scan, scan_slot, scan_slots, chosen_slot, first_of, is_unset, is_expired,
  age, record_user, no_slot,
}

abbrev pub Has : {A : Type 0} → A → List A → Type 0
Has a [] = ⊥
Has a (x ∷ xs) = (x ≡ a) ⊎ Has a xs

module _ {A : Type 0} where
  pub get_or-Has : (xs : List A) (i : ℕ) (d : A) → i < length xs → Has (get_or xs i d) xs
  get_or-Has [] i d h = absurd (omega arith)
  get_or-Has (x ∷ xs) zero d h = inl refl
  get_or-Has (x ∷ xs) (suc i) d h = inr (get_or-Has xs i d (omega arith))

  pub set-Has : (xs : List A) (i : ℕ) (v : A) → i < length xs → Has v (set xs i v)
  set-Has [] i v h = absurd (omega arith)
  set-Has (x ∷ xs) zero v h = inl refl
  set-Has (x ∷ xs) (suc i) v h = inr (set-Has xs i v (omega arith))

  pub length-set : (xs : List A) (i : ℕ) (v : A) → length (set xs i v) ≡ length xs
  length-set [] i v = refl
  length-set (x ∷ xs) zero v = refl
  length-set (x ∷ xs) (suc i) v = ap suc (length-set xs i v)

  pub set-All {κ} :
      (P : A → Type κ) (xs : List A) (i : ℕ) (v : A) → All P xs → P v → All P (set xs i v)
  set-All P [] i v h k = h
  set-All P (x ∷ xs) zero v h k = (k, h.1)
  set-All P (x ∷ xs) (suc i) v h k = (h.0, set-All P xs i v h.1 k)

abbrev IsBelow : ℕ → Option ℕ → Type 0
IsBelow n none = Unit {0}
IsBelow n (some i) = i < n

record Within (n : ℕ) (a : Scan) : Type 0 where
  same : IsBelow n a.same
  empty : IsBelow n a.empty
  expired_slot : IsBelow n a.expired_slot
  oldest : IsBelow n a.oldest

first_below : (n : ℕ) (o : Option ℕ) (j : ℕ) → IsBelow n o → j < n → first_of o j < n
first_below n none j h k = k
first_below n (some i) j h k = h

chosen_below : (n : ℕ) (a : Scan) → Within n a → 0 < n → chosen_slot a < n
chosen_below n a w h = first_below n a.same _ w.same (
    first_below n a.empty _ w.empty
      (first_below n a.expired_slot _ w.expired_slot (first_below n a.oldest 0 w.oldest h)))

scan_slot-Within :
    (n user now i : ℕ) (s : Slot) (a : Scan)
    → Within n a
    → i < n
    → Within n (scan_slot user now i s a)
scan_slot-Within n user now i s a w h = elim (Bool-cases (s.id == user && is_unset a.same)) [
  | inl b ↦
      rw b (record { same = h; empty = w.empty; expired_slot = w.expired_slot; oldest = w.oldest })
  | inr b ↦ elim (Bool-cases (s.id == 0 && is_unset a.empty)) [
    | inl c ↦
        rw (b, c)
          (record { same = w.same; empty = h; expired_slot = w.expired_slot; oldest = w.oldest })
    | inr c ↦
        elim (Bool-cases (not (s.id == 0) && is_expired now s.seen && is_unset a.expired_slot)) [
          | inl d ↦
              rw (b, c, d)
                (record { same = w.same; empty = w.empty; expired_slot = h; oldest = w.oldest })
          | inr d ↦ elim (Bool-cases (not (s.id == 0) && not (is_expired now s.seen))) [
            | inr e ↦ rw (b, c, d, e) w
            | inl e ↦ elim (Bool-cases (is_unset a.oldest || ltb a.oldest_age (age now s.seen))) [
              | inl f ↦
                  rw (b, c, d, e, f)
                    (record {
                      same = w.same;
                      empty = w.empty;
                      expired_slot = w.expired_slot;
                      oldest = h;
                    })
              | inr f ↦ rw (b, c, d, e, f) w
            ]
          ]
        ]
  ]
]

scan_slots-Within :
    (n user now i : ℕ) (ss : List Slot) (a : Scan)
    → Within n a
    → i + length ss ≤ n
    → Within n (scan_slots user now i ss a)
scan_slots-Within n user now i [] a w h = w
scan_slots-Within n user now i (s ∷ ss) a w h =
    scan_slots-Within n user now (i + 1) ss (scan_slot user now i s a)
      (scan_slot-Within n user now i s a w (omega arith)) (omega arith)

slot_path :
    (s : Slot) (id seen : ℕ) → s.id ≡ id → s.seen ≡ seen → s ≡ record { id = id; seen = seen }
slot_path s id seen p q i = record { id = p i; seen = q i }

-- The entry has the slots that it had, but for one, and a slot for the user now.
pub record RecordedUser (user now : ℕ) (e e' : Entry) : Type 1 where
  pub key : e'.key ≡ e.key
  pub len : length e'.users ≡ length e.users
  pub there : Has (record { id = user; seen = now }) e'.users
  pub kept :
      (P : Slot → Type 0) → P (record { id = user; seen = now }) → All P e.users → All P e'.users

pub record_user_lem :
    (user now : ℕ) (e : Entry)
    → 0 < length e.users
    → RecordedUser user now e (record_user user now e).0
unfolding record_user
record_user_lem user now e h =
    let slot = chosen_slot (scan_slots user now 0 e.users no_scan) in
    let old = get_or e.users slot no_slot in
    let below : slot < length e.users =
      chosen_below (length e.users) (scan_slots user now 0 e.users no_scan)
        (scan_slots-Within (length e.users) user now 0 e.users no_scan
          (record { same = tt; empty = tt; expired_slot = tt; oldest = tt }) (omega arith))
        h in
    elim (Bool-cases (old.id == user && old.seen == now)) [
      | inl again ↦
          let id : old.id ≡ user = ground (arith, again) in
          let seen : old.seen ≡ now = ground (arith, again) in
          rw again (record {
            key = refl;
            len = refl;
            there =
                subst (λ (s : Slot). Has s e.users) (slot_path old user now id seen)
                  (get_or-Has e.users slot no_slot below);
            kept = λ P p all. all;
          })
      | inr new ↦ rw new (record {
        key = refl;
        len = length-set e.users slot (record { id = user; seen = now });
        there = set-Has e.users slot (record { id = user; seen = now }) below;
        kept = λ P p all. set-All P e.users slot (record { id = user; seen = now }) all p;
      })
    ]
