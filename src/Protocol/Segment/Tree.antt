-- ===== src/Protocol/Segment/Tree.antt =====
-- pkg/protocol/segment.go: `segmentTree`.
pub mod Laws
use mieru.Common.{
  ℕ, zero, suc, ◌-◌, ◌≤◌, ◌<◌, ◌≡◌, refl, Bool, true, false, not, Option, none, some, List, [], ◌∷◌,
  length, leb, ltb, ◌==◌, if◌then◌else◌, arith,
}
use mieru.Protocol.Segment.{Segment, BTree, seq_of, insert_in_order, visit}

module _ (bt : BTree) where
  pub record SegmentTree : Type 0 where
    pub tr : bt.Tree
    pub cap : ℕ
    pub empty_event : Bool
    pub not_empty_event : Bool

  abbrev pub contents : SegmentTree → List Segment
  contents t = bt.items t.tr

  abbrev pub new_segment_tree : ℕ → SegmentTree
  new_segment_tree capacity = record {
    tr = bt.new;
    cap = capacity;
    empty_event = false;
    not_empty_event = false;
  }

  -- `notifyEmpty` and `notifyNotEmpty`: a full channel drops the event.
  abbrev notify_empty : SegmentTree → SegmentTree
  notify_empty t = record t { empty_event = true }

  abbrev notify_not_empty : SegmentTree → SegmentTree
  notify_not_empty t = record t { not_empty_event = true }

  abbrev notify : SegmentTree → SegmentTree
  notify t = if ltb 0 (bt.len t.tr) then notify_not_empty t else notify_empty t

  -- `Insert`, behind its checks. Only an insertion that replaces nothing sends an event.
  unfoldable pub insert : SegmentTree → Segment → Bool × SegmentTree
  insert t seg =
      if leb t.cap (bt.len t.tr)
      then (false, notify_not_empty t)
      else let (replace, tr) = bt.replace_or_insert seg t.tr in
        let t' = record t { tr = tr } in (true, if replace then t' else notify_not_empty t')

  -- `DeleteMin`
  unfoldable pub delete_min : SegmentTree → Option Segment × SegmentTree
  delete_min t = if bt.len t.tr == 0 then (none, t) else (elim (bt.delete_min t.tr) [
    | none ↦ (none, t)
    | some (seg, tr) ↦ (some seg, notify (record t { tr = tr }))
  ])

  -- `DeleteMinIf` returns the smallest segment and whether it was deleted.
  unfoldable pub delete_min_if :
      SegmentTree → (Segment → Bool) → Option (Segment × Bool) × SegmentTree
  delete_min_if t si = if bt.len t.tr == 0 then (none, t) else (elim (bt.min_item t.tr) [
    | none ↦ (none, t)
    | some seg ↦
        if si seg
        then (elim (bt.delete_min t.tr) [
          | none ↦ (none, t)
          | some (seg', tr) ↦ (some (seg', true), notify (record t { tr = tr }))
        ])
        else (some (seg, false), notify t)
  ])

  -- `DeleteAll`
  unfoldable pub delete_all : SegmentTree → SegmentTree
  delete_all t = notify_empty (record t { tr = bt.clear t.tr })

  -- `Ascend`, with what the iterator writes into the segments
  unfoldable pub ascend : SegmentTree → (Segment → Segment × Bool) → SegmentTree
  ascend t si = if bt.len t.tr == 0 then t else record t { tr = bt.ascend si t.tr }

  -- `Ascend` with an iterator that also changes a state of its own
  unfoldable pub ascend_with :
      (S : Type 0) → (S → Segment → S × Segment × Bool) → S → SegmentTree → S × SegmentTree
  ascend_with S f s t =
      let (s', tr) = bt.ascend_with S f s t.tr in
      if bt.len t.tr == 0 then (s, t) else (s', record t { tr = tr })

  -- `MinSeq` and `MaxSeq`; `none` is `stderror.ErrEmpty`
  unfoldable pub min_seq : SegmentTree → Option ℕ
  min_seq t = elim (bt.min_item t.tr) [ none ↦ none | some seg ↦ some (seq_of seg) ]

  unfoldable pub max_seq : SegmentTree → Option ℕ
  max_seq t = elim (bt.max_item t.tr) [ none ↦ none | some seg ↦ some (seq_of seg) ]

  -- `Len` and `Remaining`
  abbrev pub len : SegmentTree → ℕ
  len t = bt.len t.tr

  abbrev pub remaining : SegmentTree → ℕ
  remaining t = t.cap - bt.len t.tr
