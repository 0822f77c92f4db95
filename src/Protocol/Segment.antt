-- ===== src/Protocol/Segment.antt =====
-- pkg/protocol/segment.go: segments and the tree of segments. The B-tree of github.com/google/btree
-- is the parameter `BTree`. A channel of capacity one is a Boolean: whether it holds an event. Locks
-- are left out: every method holds the lock for its whole run, so it is one step.
pub mod Tree
pub mod FragmentSize
pub mod ListTree
pub mod Examples
use mieru.Common.{
  ℕ, ◌<◌, ◌≤◌, ◌≡◌, Bool, true, false, ◌||◌, Option, none, some, List, [], ◌∷◌, ◌++◌, length, ltb,
  ◌==◌, if◌then◌else◌,
}
use mieru.Protocol.Metadata.{
  Metadata, session, data_ack, SessionStruct, DataAckStruct, is_session_protocol, is_data_protocol,
}

-- `common.TransportProtocol`
pub data Transport : Type 0 where
  unknown_transport stream_transport packet_transport : Transport

-- `segment`, without the cipher block and the server user data. Times are in microseconds.
pub record Segment : Type 0 where
  pub metadata : Metadata
  pub payload : List ℕ
  pub ack_count : ℕ
  pub tx_count : ℕ
  pub tx_time : ℕ
  pub tx_timeout : ℕ

abbrev pub metadata_protocol : Metadata → ℕ
metadata_protocol (session ss) = ss.protocol
metadata_protocol (data_ack das) = das.protocol

abbrev pub metadata_seq : Metadata → ℕ
metadata_seq (session ss) = ss.seq
metadata_seq (data_ack das) = das.seq

-- `Protocol`, `Seq` and `Less`
abbrev pub protocol_of : Segment → ℕ
protocol_of s = metadata_protocol s.metadata

abbrev pub seq_of : Segment → ℕ
seq_of s = metadata_seq s.metadata

abbrev pub less : Segment → Segment → Bool
less a b = ltb (seq_of a) (seq_of b)

-- `checkProtocolType`: where this is `false`, `Insert` panics.
abbrev pub check_protocol_type : Segment → Bool
check_protocol_type s = is_session_protocol (protocol_of s) || is_data_protocol (protocol_of s)

-- What the documentation of `ReplaceOrInsert` says of the items in order.
abbrev pub insert_in_order : Segment → List Segment → List Segment
insert_in_order s [] = s ∷ []
insert_in_order s (x ∷ xs) =
    if less s x then s ∷ x ∷ xs else if less x s then x ∷ insert_in_order s xs else s ∷ xs

-- Whether an item with the key of `s` is there to be replaced.
abbrev pub has_key : Segment → List Segment → Bool
has_key s [] = false
has_key s (x ∷ xs) = seq_of s == seq_of x || has_key s xs

-- The items that an iterator visits, with what it writes into them, until it returns `false`.
abbrev pub visit : (Segment → Segment × Bool) → List Segment → List Segment
visit f [] = []
visit f (x ∷ xs) = let (x', more) = f x in if more then x' ∷ visit f xs else x' ∷ xs

-- The same for an iterator that also changes a state of its own.
abbrev pub visit_with {ℓ} :
    {S : Type ℓ} → (S → Segment → S × Segment × Bool) → S → List Segment → S × List Segment
visit_with f s [] = (s, [])
visit_with f s (x ∷ xs) =
    let (s', x', more) = f s x in
    let rest = visit_with f s' xs in if more then (rest.0, x' ∷ rest.1) else (s', x' ∷ xs)

-- The operations of `btree.BTreeG` that the program calls, ordered by `less`, and their documented
-- effect on the items in ascending order.
pub record BTree : Type 1 where
  pub Tree : Type 0
  pub new : Tree
  pub len : Tree → ℕ
  pub replace_or_insert : Segment → Tree → Bool × Tree
  pub min_item : Tree → Option Segment
  pub max_item : Tree → Option Segment
  pub delete_min : Tree → Option (Segment × Tree)
  pub clear : Tree → Tree
  pub ascend : (Segment → Segment × Bool) → Tree → Tree
  pub ascend_with : (S : Type 0) → (S → Segment → S × Segment × Bool) → S → Tree → S × Tree
  pub items : Tree → List Segment
  pub items-new : items new ≡ []
  pub len_lem : (t : Tree) → len t ≡ length (items t)
  pub items-insert :
      (s : Segment) (t : Tree) → items (replace_or_insert s t).1 ≡ insert_in_order s (items t)
  pub replaces : (s : Segment) (t : Tree) → (replace_or_insert s t).0 ≡ has_key s (items t)
  pub max_item-nil : (t : Tree) → items t ≡ [] → max_item t ≡ none
  pub max_item-append :
      (t : Tree) (x : Segment) (xs : List Segment) → items t ≡ xs ++ (x ∷ []) → max_item t ≡ some x
  pub min_item-nil : (t : Tree) → items t ≡ [] → min_item t ≡ none
  pub min_item-cons :
      (t : Tree) (x : Segment) (xs : List Segment) → items t ≡ x ∷ xs → min_item t ≡ some x
  pub delete_min-nil : (t : Tree) → items t ≡ [] → delete_min t ≡ none
  pub delete_min-cons :
      (t : Tree) (x : Segment) (xs : List Segment)
      → items t ≡ x ∷ xs
      → (u : Tree) × (delete_min t ≡ some (x, u)) × (items u ≡ xs)
  pub items-clear : (t : Tree) → items (clear t) ≡ []
  pub items-ascend :
      (f : Segment → Segment × Bool) (t : Tree) → items (ascend f t) ≡ visit f (items t)
  pub ascend_with_lem :
      (S : Type 0) (f : S → Segment → S × Segment × Bool) (s : S) (t : Tree)
      → ((ascend_with S f s t).0 ≡ (visit_with f s (items t)).0)
        × (items (ascend_with S f s t).1 ≡ (visit_with f s (items t)).1)
