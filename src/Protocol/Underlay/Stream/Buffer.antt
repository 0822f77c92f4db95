-- ===== src/Protocol/Underlay/Stream/Buffer.antt =====
-- A buffer that is filled from its front.
use mieru.Common.{
  ℕ, suc, ◌+◌, ◌-◌, ◌≡◌, refl, sym, ap, ◌∙◌, List, [], ◌∷◌, ◌++◌, length, drop, arith, length-drop,
  take-length-append, List-cases, inl, inr,
}
use mathlib.Core.List.{append-nil, append_assoc}
use mieru.Protocol.Underlay.Stream.{put_at}

-- The buffer holds `front`, and `n` bytes more.
pub record Filled (front : List ℕ) (n : ℕ) (buf : List ℕ) : Type 0 where
  pub tail : List ℕ
  pub split : buf ≡ front ++ tail
  pub left : length tail ≡ n

drop_past : (xs ys : List ℕ) (n : ℕ) → drop (length xs + n) (xs ++ ys) ≡ drop n ys
drop_past [] ys n = let e : 0 + n ≡ n = omega arith in rw e refl
drop_past (x ∷ xs) ys n =
    let e : suc (length xs) + n ≡ suc (length xs + n) = omega arith in rw e (drop_past xs ys n)

put_at_append :
    (front xs tail : List ℕ)
    → put_at (length front) xs (front ++ tail) ≡ (front ++ xs) ++ drop (length xs) tail
put_at_append front xs tail =
    rw (take-length-append {0} front tail, drop_past front tail (length xs))
      (sym (append_assoc front xs (drop (length xs) tail)))

-- A copy behind what is there already
pub put_at-Filled :
    (i n : ℕ) (front xs buf : List ℕ)
    → Filled front n buf
    → i ≡ length front
    → Filled (front ++ xs) (n - length xs) (put_at i xs buf)
put_at-Filled i n front xs buf f e = record {
  tail = drop (length xs) f.tail;
  split = rw (f.split, e) (put_at_append front xs f.tail);
  left = length-drop {0} (length xs) f.tail ∙ ap (λ m. m - length xs) f.left;
}

-- A buffer that is filled to its end
pub Filled-end : (front buf : List ℕ) → Filled front 0 buf → buf ≡ front
Filled-end front buf f = elim (List-cases f.tail) [
  | inl e ↦ f.split ∙ ap (λ t. front ++ t) e ∙ append-nil front
  | inr (x, xs, e) ↦ absurd (omega (arith, f.left, ap (λ (l : List ℕ). length l) e))
]
