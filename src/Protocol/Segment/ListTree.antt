-- ===== src/Protocol/Segment/ListTree.antt =====
-- A sorted list with the operations of `BTree`: what is assumed of the B-tree can be met.
use mieru.Common.{◌≡◌, refl, ap, ◌∙◌, Option, none, some, List, [], ◌∷◌, ◌++◌, length}
use mieru.Protocol.Segment.{Segment, BTree, insert_in_order, has_key, visit, visit_with}

abbrev first : List Segment → Option Segment
first [] = none
first (x ∷ xs) = some x

abbrev pub last : List Segment → Option Segment
last [] = none
last (x ∷ []) = some x
last (x ∷ y ∷ xs) = last (y ∷ xs)

abbrev unfirst : List Segment → Option (Segment × List Segment)
unfirst [] = none
unfirst (x ∷ xs) = some (x, xs)

pub last-append : (xs : List Segment) (x : Segment) → last (xs ++ (x ∷ [])) ≡ some x
last-append [] x = refl
last-append (y ∷ []) x = refl
last-append (y ∷ z ∷ xs) x = last-append (z ∷ xs) x

abbrev pub list_tree : BTree
list_tree = record {
  Tree = List Segment;
  new = [];
  len = λ t. length t;
  replace_or_insert = λ s t. (has_key s t, insert_in_order s t);
  min_item = first;
  max_item = last;
  delete_min = unfirst;
  clear = λ t. [];
  ascend = visit;
  ascend_with = λ S f s t. visit_with f s t;
  items = λ t. t;
  items-new = refl;
  len_lem = λ t. refl;
  items-insert = λ s t. refl;
  replaces = λ s t. refl;
  max_item-nil = λ t e. ap last e;
  max_item-append = λ t x xs e. ap last e ∙ last-append xs x;
  min_item-nil = λ t e. ap first e;
  min_item-cons = λ t x xs e. ap first e;
  delete_min-nil = λ t e. ap unfirst e;
  delete_min-cons = λ t x xs e. (xs, ap unfirst e, refl);
  items-clear = λ t. refl;
  items-ascend = λ f t. refl;
  ascend_with_lem = λ S f s t. (refl, refl);
}
