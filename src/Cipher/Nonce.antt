-- ===== src/Cipher/Nonce.antt =====
-- `increaseNonce` counts, so that a nonce does not come again.
use mieru.Common.{
  ℕ, zero, suc, ◌+◌, ◌-◌, ◌*◌, ◌%◌, ◌^◌, ◌<◌, ◌≡◌, ◌≢◌, refl, sym, ap, ◌∙◌, inl, inr, Bool, true,
  false, List, [], ◌∷◌, if◌then◌else◌, ◌==◌, length, arith, Bool-cases, leb,
}
use mieru.Common.Bytes.{IsByte, IsBytes}
use mieru.Cipher.{increase_from, increase_nonce}

-- The number that bytes stand for, the most significant one first.
abbrev pub value : List ℕ → ℕ
value [] = 0
value (b ∷ bs) = b * 256 ^ length bs + value bs

abbrev carried : Bool → ℕ → ℕ
carried c n = if c then n else 0

increase_step :
    (b : ℕ) (bs bs' : List ℕ) (carry : Bool)
    → IsByte b
    → length bs' ≡ length bs
    → IsBytes bs'
    → value bs' + carried carry (256 ^ length bs) ≡ value bs + 1
    → let b' = (b + 1) % 2 ^ 8 in
      let r : List ℕ × Bool = if carry then (b' ∷ bs', b' == 0) else (b ∷ bs', false) in
      (length r.0 ≡ suc (length bs))
      × (IsBytes r.0)
      × (value r.0 + carried r.1 (256 ^ suc (length bs)) ≡ b * 256 ^ length bs + value bs + 1)
increase_step b bs bs' false h len bytes sum = (ap suc len, (h, bytes), rw len (omega arith))
increase_step b bs bs' true h len bytes sum = elim (Bool-cases (b == 255)) [
  | inl last ↦
      let e : b ≡ 255 = ground (arith, last) in
      rw e (ap suc len, (omega arith, bytes), rw len (grind arith))
  | inr more ↦
      let e : (b + 1) % 256 ≡ b + 1 = ground (arith, more) in
      rw e (ap suc len, (omega arith, bytes), rw len (grind arith))
]

increase_from_lem :
    (bs : List ℕ)
    → IsBytes bs
    → let (bs', carry) = increase_from bs in
      (length bs' ≡ length bs)
      × (IsBytes bs')
      × (value bs' + carried carry (256 ^ length bs) ≡ value bs + 1)
increase_from_lem [] h = (refl, tt, refl)
increase_from_lem (b ∷ bs) h =
    let (len, bytes, sum) = increase_from_lem bs h.1 in
    let (bs', carry) = increase_from bs in increase_step b bs bs' carry h.0 len bytes sum

-- The nonce of a message after `i` more ones.
abbrev pub nonce_after : ℕ → List ℕ → List ℕ
nonce_after zero nonce = nonce
nonce_after (suc i) nonce = increase_nonce (nonce_after i nonce)

pub length-increase_nonce :
    (nonce : List ℕ) → IsBytes nonce → length (increase_nonce nonce) ≡ length nonce
length-increase_nonce nonce h = (increase_from_lem nonce h).0

pub increase_nonce-IsBytes : (nonce : List ℕ) → IsBytes nonce → IsBytes (increase_nonce nonce)
increase_nonce-IsBytes nonce h = (increase_from_lem nonce h).1

-- The value counts up, and wraps around after all nonces of the length.
record Counted (i : ℕ) (nonce : List ℕ) : Type 0 where
  wraps : ℕ
  same_length : length (nonce_after i nonce) ≡ length nonce
  bytes : IsBytes (nonce_after i nonce)
  count : value (nonce_after i nonce) + wraps * 256 ^ length nonce ≡ value nonce + i

carried_wrap : (carry : Bool) (n : ℕ) → (k : ℕ) × (carried carry n ≡ k * n)
carried_wrap true n = (1, omega arith)
carried_wrap false n = (0, omega arith)

count_up : (a k q p v w i : ℕ) → a + k * p ≡ w + 1 → w + q * p ≡ v + i → a + (q + k) * p ≡ v + suc i
count_up a k q p v w i e f = grind arith

nonce_counts : (i : ℕ) (nonce : List ℕ) → IsBytes nonce → Counted i nonce
nonce_counts zero nonce h = record { wraps = 0; same_length = refl; bytes = h; count = omega arith }
nonce_counts (suc i) nonce h =
    let before = nonce_counts i nonce h in
    let (len, bytes, sum) = increase_from_lem (nonce_after i nonce) before.bytes in
    let p = 256 ^ length nonce in
    let (k, wrap) = carried_wrap (increase_from (nonce_after i nonce)).1 p in
    record {
      wraps = before.wraps + k;
      same_length = len ∙ before.same_length;
      bytes = bytes;
      count =
          count_up (value (nonce_after (suc i) nonce)) k before.wraps p (value nonce)
            (value (nonce_after i nonce)) i (rw wrap at (rw before.same_length at sum))
            before.count;
    }

apart_below : (v w p r d i j : ℕ) → v + (r + d) * p ≡ w + i → v + r * p ≡ w + j → i < j → ⊥
apart_below v w p r d i j e f lo = grind arith

apart_above : (v w p q d i j : ℕ) → v + q * p ≡ w + i → v + (suc q + d) * p ≡ w + j → j < i + p → ⊥
apart_above v w p q d i j e f hi = grind arith

-- `i` and `j` messages after a nonce of bytes, the nonces differ, if less than 256 ^ 24 messages are
-- in between for a nonce of 24 bytes, or 256 to the power of its length in general.
pub no_nonce_twice :
    (nonce : List ℕ) (i j : ℕ)
    → IsBytes nonce
    → i < j
    → j < i + 256 ^ length nonce
    → nonce_after i nonce ≢ nonce_after j nonce
no_nonce_twice nonce i j h lo hi e =
    let a = nonce_counts i nonce h in
    let b = nonce_counts j nonce h in
    let p = 256 ^ length nonce in
    let v = value (nonce_after i nonce) in
    let later : v + b.wraps * p ≡ value nonce + j = rw (sym e) at b.count in
    elim (Bool-cases (leb b.wraps a.wraps)) [
      | inl below ↦
          let q : a.wraps ≡ b.wraps + (a.wraps - b.wraps) = ground (arith, below) in
          apart_below v (value nonce) p b.wraps (a.wraps - b.wraps) i j (rw q at a.count) later lo
      | inr above ↦
          let q : b.wraps ≡ suc a.wraps + (b.wraps - suc a.wraps) = ground (arith, above) in
          apart_above v (value nonce) p a.wraps (b.wraps - suc a.wraps) i j a.count (rw q at later)
            hi
    ]
