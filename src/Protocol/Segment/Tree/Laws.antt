-- ===== src/Protocol/Segment/Tree/Laws.antt =====
-- What the methods of `segmentTree` do to its segments in ascending order.
use mieru.Common.{
  suc, ◌==◌, ◌∙◌, ◌≤◌, ◌<◌, ◌≡◌, refl, ap, Bool, true, false, none, some, List, [], ◌∷◌, ◌++◌,
  length, arith, All, inl, inr, List-cases,
}
use mieru.Protocol.Segment.{Segment, BTree, seq_of, insert_in_order, visit, visit_with}
use mieru.Protocol.Segment.Tree.{
  SegmentTree, contents, insert, delete_min, delete_min_if, delete_all, ascend, ascend_with, len,
}

-- A segment beyond all that are there goes to the end.
pub insert_in_order-last :
    (s : Segment) (xs : List Segment)
    → All (λ x. seq_of x < seq_of s) xs
    → insert_in_order s xs ≡ xs ++ (s ∷ [])
insert_in_order-last s [] h = refl
insert_in_order-last s (x ∷ xs) h = ground (arith, insert_in_order-last s xs h.1)

pub length-insert_in_order :
    (s : Segment) (xs : List Segment) → length (insert_in_order s xs) ≤ suc (length xs)
length-insert_in_order s [] = omega arith
length-insert_in_order s (x ∷ xs) = ground (arith, length-insert_in_order s xs)

module _ (bt : BTree) where
  pub len-contents : (t : SegmentTree bt) → len bt t ≡ length (contents bt t)
  len-contents t = bt.len_lem t.tr

  -- With room left `Insert` puts the segment into its place.
  pub contents-insert :
      (t : SegmentTree bt) (s : Segment)
      → length (contents bt t) < t.cap
      → ((insert bt t s).0 ≡ true)
        × (contents bt (insert bt t s).1 ≡ insert_in_order s (contents bt t))
        × ((insert bt t s).1.cap ≡ t.cap)
  unfolding insert
  contents-insert t s h = ground (arith, bt.len_lem t.tr, bt.items-insert s t.tr)

  -- Without it `Insert` refuses, and keeps what is there.
  pub insert_full :
      (t : SegmentTree bt) (s : Segment)
      → t.cap ≤ length (contents bt t)
      → ((insert bt t s).0 ≡ false)
        × (contents bt (insert bt t s).1 ≡ contents bt t)
        × ((insert bt t s).1.cap ≡ t.cap)
  unfolding insert
  insert_full t s h = ground (arith, bt.len_lem t.tr)

  pub delete_min_if-nil :
      (t : SegmentTree bt) (si : Segment → Bool)
      → contents bt t ≡ []
      → delete_min_if bt t si ≡ (none, t)
  unfolding delete_min_if
  delete_min_if-nil t si e = ground (arith, bt.len_lem t.tr, ap (λ (l : List Segment). length l) e)

  module _ (t : SegmentTree bt) (si : Segment → Bool) (x : Segment) (xs : List Segment)
      (e : contents bt t ≡ x ∷ xs) where
    -- `DeleteMinIf` takes the first segment away if the test passes, and else keeps all.
    pub delete_min_if-hit :
        si x ≡ true
        → ((delete_min_if bt t si).0 ≡ some (x, true))
          × (contents bt (delete_min_if bt t si).1 ≡ xs)
          × ((delete_min_if bt t si).1.cap ≡ t.cap)
    unfolding delete_min_if
    delete_min_if-hit hit = ground (
      arith,
      bt.len_lem t.tr,
      ap (λ (l : List Segment). length l) e,
      bt.min_item-cons t.tr x xs e,
      bt.delete_min-cons t.tr x xs e,
    )

    pub delete_min_if-miss :
        si x ≡ false
        → ((delete_min_if bt t si).0 ≡ some (x, false))
          × ((delete_min_if bt t si).1.tr ≡ t.tr)
          × ((delete_min_if bt t si).1.cap ≡ t.cap)
    unfolding delete_min_if
    delete_min_if-miss miss = ground (
      arith,
      bt.len_lem t.tr,
      ap (λ (l : List Segment). length l) e,
      bt.min_item-cons t.tr x xs e,
    )

    pub delete_min-cons :
        ((delete_min bt t).0 ≡ some x)
        × (contents bt (delete_min bt t).1 ≡ xs)
        × ((delete_min bt t).1.cap ≡ t.cap)
    unfolding delete_min
    delete_min-cons = ground (
      arith,
      bt.len_lem t.tr,
      ap (λ (l : List Segment). length l) e,
      bt.delete_min-cons t.tr x xs e,
    )

  pub delete_min-nil : (t : SegmentTree bt) → contents bt t ≡ [] → delete_min bt t ≡ (none, t)
  unfolding delete_min
  delete_min-nil t e = ground (arith, bt.len_lem t.tr, ap (λ (l : List Segment). length l) e)

  pub contents-delete_all : (t : SegmentTree bt) → contents bt (delete_all bt t) ≡ []
  unfolding delete_all
  contents-delete_all t = bt.items-clear t.tr

  -- `Ascend` writes what the iterator writes, up to where it stops.
  pub contents-ascend :
      (t : SegmentTree bt) (f : Segment → Segment × Bool)
      → contents bt (ascend bt t f) ≡ visit f (contents bt t)
  unfolding ascend
  contents-ascend t f = elim (List-cases (contents bt t)) [
    | inl e ↦ ground (arith, ap (visit f) e, bt.items-ascend f t.tr)
    | inr (x, xs, e) ↦
        ground
          (arith, bt.len_lem t.tr, ap (λ (l : List Segment). length l) e, bt.items-ascend f t.tr)
  ]

  pub ascend_with_visit :
      (S : Type 0) (f : S → Segment → S × Segment × Bool) (s : S) (t : SegmentTree bt)
      → ((ascend_with bt S f s t).0 ≡ (visit_with f s (contents bt t)).0)
        × (contents bt (ascend_with bt S f s t).1 ≡ (visit_with f s (contents bt t)).1)
        × ((ascend_with bt S f s t).1.cap ≡ t.cap)
  unfolding ascend_with
  ascend_with_visit S f s t = elim (List-cases (contents bt t)) [
    | inl e ↦
        let none_there : bt.len t.tr ≡ 0 =
          bt.len_lem t.tr ∙ ap (λ (l : List Segment). length l) e in
        rw (none_there, e) (refl, refl, refl)
    | inr (x, xs, e) ↦
        let some_there : (bt.len t.tr == 0) ≡ false =
          ground (arith, bt.len_lem t.tr, ap (λ (l : List Segment). length l) e) in
        let visited = bt.ascend_with_lem S f s t.tr in rw some_there (visited.0, visited.1, refl)
  ]
