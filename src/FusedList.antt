-- ===== src/FusedList.antt =====
-- structures/linkedlist.go: the fused linked list. As in KvBucket, the doubly linked list is the list of
-- its nodes from head to tail, and a node pointer is a position or a cursor.
pub mod Recovering
pub mod Nodes
pub mod Changes
pub mod Passes
pub mod Invariant
pub mod Sets
pub mod Priorities
use mathlib.Core.Bool.{not}
use vada_db.Common.{
  ℕ, zero, suc, ◌+◌, ◌-◌, Bool, true, false, ◌&&◌, ◌||◌, Option, none, some, List, [], ◌∷◌, ◌++◌,
  length, get_or, set, insert_at, remove_at, modify, replicate, drop, leb, ◌==◌, if◌then◌else◌,
}
use vada_db.Common.Int.{ℤ, is_negative, at_least, below, to_ℕ}
use vada_db.Xor.{◌⊕◌}
use vada_db.KvBucket.{candidate_after, is_position, unwind, any_bit, disjoint, join_bits}
use vada_db.Result.{
  Result, ok, panic, ◌>>=◌, ◌>>◌, fail_if, too_few_sources, source_out_of_range, index_out_of_range,
  survivor_count, invalid_survivor, survivor_length,
}

pub record ListNode : Type 0 where
  pub value : ℕ
  pub bits : List Bool

pub record FusedList : Type 0 where
  pub sources : List (List ℕ)
  pub nodes : List ListNode

unfoldable pub new : ℤ → Result FusedList
new source_count = do
  fail_if (below source_count 2) too_few_sources
  ok (record { sources = replicate (to_ℕ source_count) []; nodes = [] })

unfoldable pub valid_source : FusedList → ℤ → Result (Unit {0})
valid_source f source =
    fail_if (is_negative source || at_least source (length f.sources)) source_out_of_range

-- `node.bits[source]`
unfoldable pub has_bit : ListNode → ℕ → Bool
has_bit n source = get_or n.bits source false

-- The loop of `Insert`: the node of `source` before `index`, and the one at `index`.
unfoldable pub find_neighbours : List ListNode → ℕ → ℕ → ℕ → ℕ → Option ℕ → Option ℕ × Option ℕ
unfolding has_bit
find_neighbours [] position source index seen previous = (previous, none)
find_neighbours (n ∷ ns) position source index seen previous = elim (has_bit n source) [
  | true ↦ elim (seen == index) [
    | true ↦ (previous, some position)
    | false ↦ find_neighbours ns (position + 1) source index (seen + 1) (some position)
  ]
  | false ↦ find_neighbours ns (position + 1) source index seen previous
]

-- `for candidate != nextSource && candidate != nil && candidate.bits[source] { candidate = candidate.next }`,
-- from the nodes at `candidate` on.
unfoldable pub skip_own : List ListNode → ℕ → ℕ → Option ℕ → ℕ
unfolding has_bit is_position
skip_own [] candidate source next_source = candidate
skip_own (n ∷ ns) candidate source next_source =
    let rest = skip_own ns (candidate + 1) source next_source in
    if not (is_position next_source candidate) && has_bit n source then rest else candidate

abbrev pub empty_node : ℕ → ListNode
empty_node source_count = record { value = 0; bits = replicate source_count false }

-- The node before `next`, or at the tail where `next` is nil.
unfoldable pub insert_before : ℕ → List ListNode → Option ℕ → List ListNode
insert_before source_count ns none = ns ++ empty_node source_count ∷ []
insert_before source_count ns (some next) = insert_at ns next (empty_node source_count)

unfoldable pub position_of_new : List ListNode → Option ℕ → ℕ
position_of_new ns none = length ns
position_of_new ns (some next) = next

-- `candidate.value ^= value; candidate.bits[source] = true`
unfoldable pub add_value : ℕ → ℕ → ListNode → ListNode
add_value source v n = record { value = n.value ⊕ v; bits = set n.bits source true }

-- The end of `Insert`: use the candidate, or a new node before `next`.
unfoldable pub add_between : ℕ → List ListNode → ℕ → ℕ → Option ℕ × Option ℕ → List ListNode
unfolding candidate_after is_position skip_own insert_before position_of_new add_value
add_between source_count ns source v (previous, next_source) =
    let first = candidate_after previous in
    let candidate = skip_own (drop first ns) first source next_source in
    if is_position next_source candidate || leb (length ns) candidate
    then modify (insert_before source_count ns next_source) (position_of_new ns next_source)
        (add_value source v)
    else modify ns candidate (add_value source v)

unfoldable pub insert_node : ℕ → List ListNode → ℕ → ℕ → ℕ → List ListNode
unfolding find_neighbours add_between
insert_node source_count ns source index v =
    add_between source_count ns source v (find_neighbours ns 0 source index 0 none)

unfoldable pub insert : FusedList → ℤ → ℤ → ℕ → Result FusedList
unfolding valid_source insert_node
insert f source index v = do
  valid_source f source
  let s = to_ℕ source
  let values = get_or f.sources s []
  fail_if (is_negative index || at_least index (length values + 1)) index_out_of_range
  ok (record {
    sources = set f.sources s (insert_at values (to_ℕ index) v);
    nodes = insert_node (length f.sources) f.nodes s (to_ℕ index) v;
  })

-- A node pointer with the nodes on both sides, those before it from the nearest on.
pub record Cursor : Type 0 where
  pub before : List ListNode
  pub node : ListNode
  pub after : List ListNode

unfoldable pub node_at : List ListNode → List ListNode → ℕ → ℕ → Option Cursor
unfolding has_bit
node_at before [] source index = none
node_at before (n ∷ ns) source index = elim (has_bit n source) [
  | true ↦ elim index [
    | zero ↦ some (record { before = before; node = n; after = ns })
    | suc i ↦ node_at (n ∷ before) ns source i
  ]
  | false ↦ node_at (n ∷ before) ns source index
]

-- `merge` without the unlinking of `right`, which its callers show as the shorter list.
unfoldable pub merge : ListNode → ListNode → ListNode
unfolding join_bits
merge left right = record {
  value = left.value ⊕ right.value;
  bits = join_bits left.bits right.bits;
}

unfoldable pub merge_previous : List ListNode → ListNode → List ListNode × ListNode
unfolding disjoint merge
merge_previous [] node = ([], node)
merge_previous (p ∷ before) node = elim (disjoint p.bits node.bits) [
  | true ↦ merge_previous before (merge p node)
  | false ↦ (p ∷ before, node)
]

unfoldable pub merge_next : ListNode → List ListNode → List ListNode
unfolding disjoint merge
merge_next node [] = node ∷ []
merge_next node (n ∷ after) = elim (disjoint node.bits n.bits) [
  | true ↦ merge_next (merge node n) after
  | false ↦ node ∷ n ∷ after
]

unfoldable pub merge_around : List ListNode → ListNode → List ListNode → List ListNode
unfolding merge_previous merge_next
merge_around before node after =
    let (before', node') = merge_previous before node in unwind before' (merge_next node' after)

-- The neighbour that `mergeNodes` goes on with once an empty node is unlinked.
unfoldable pub merge_removed : List ListNode → List ListNode → List ListNode
unfolding merge_around
merge_removed (p ∷ before) after = merge_around before p after
merge_removed [] (n ∷ after) = merge_around [] n after
merge_removed [] [] = []

unfoldable pub merge_nodes : Cursor → List ListNode
unfolding any_bit merge_removed
merge_nodes c =
    if any_bit c.node.bits
    then merge_around c.before c.node c.after
    else merge_removed c.before c.after

-- `node.value ^= value; node.bits[source] = false`
unfoldable pub drop_value : ℕ → ℕ → ListNode → ListNode
drop_value source v n = record { value = n.value ⊕ v; bits = set n.bits source false }

-- `node` is nil where the source has no such value: writing to it panics.
unfoldable pub delete_node : Option Cursor → ℕ → ℕ → Result (List ListNode)
unfolding drop_value merge_nodes
delete_node none source v = panic
delete_node (some c) source v = ok (merge_nodes (record c { node = drop_value source v c.node }))

unfoldable pub delete : FusedList → ℤ → ℤ → Result (ℕ × FusedList)
unfolding valid_source node_at delete_node
delete f source index = do
  valid_source f source
  let s = to_ℕ source
  let values = get_or f.sources s []
  fail_if (is_negative index || at_least index (length values)) index_out_of_range
  let v = get_or values (to_ℕ index) 0
  nodes ← delete_node (node_at [] f.nodes s (to_ℕ index)) s v
  ok (v, record { sources = set f.sources s (remove_at values (to_ℕ index)); nodes = nodes })
