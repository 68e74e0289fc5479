-- ===== src/KvBucket.antt =====
-- One bucket of structures/kvhashtable.go: a fused list of nodes.
-- The doubly linked list is the list of its nodes from head to tail. A node pointer is the node's
-- position, or, where the code walks from it in both directions, a cursor on it.
pub mod Slots
pub mod Merge
pub mod Locate
pub mod Change
pub mod Place
pub mod Insert
use vada_db.Common.{
  ℕ, zero, suc, ◌+◌, Bool, true, false, ◌&&◌, ◌||◌, Option, none, some, List, [], ◌∷◌, ◌++◌, length,
  get_or, set, insert_at, modify, replicate, leb, ◌==◌, if◌then◌else◌,
}
use vada_db.Xor.{◌⊕◌}
use vada_db.Result.{Result, ok, panic}

pub record KvRecord : Type 0 where
  pub key : ℕ
  pub value : ℕ

pub record KvNode : Type 0 where
  pub key : ℕ
  pub value : ℕ
  pub bits : List Bool

abbrev pub Bucket : Type 0
Bucket = List KvNode

-- `node.bits[source]`: every node has a bit for each source, and sources are checked before.
unfoldable pub has_bit : KvNode → ℕ → Bool
has_bit n source = get_or n.bits source false

-- The loop of `Insert`: the node of `source` before `index`, and the one at `index`.
unfoldable pub find_neighbours : Bucket → ℕ → ℕ → ℕ → ℕ → Option ℕ → Option ℕ × Option ℕ
unfolding has_bit
find_neighbours [] position source index seen previous = (previous, none)
find_neighbours (n ∷ ns) position source index seen previous = elim (has_bit n source) [
  | true ↦ elim (seen == index) [
    | true ↦ (previous, some position)
    | false ↦ find_neighbours ns (position + 1) source index (seen + 1) (some position)
  ]
  | false ↦ find_neighbours ns (position + 1) source index seen previous
]

-- `bucket.head`, or `previous.next`
unfoldable pub candidate_after : Option ℕ → ℕ
candidate_after none = 0
candidate_after (some position) = position + 1

-- `candidate == nextSource`
unfoldable pub is_position : Option ℕ → ℕ → Bool
is_position none position = false
is_position (some next) position = next == position

abbrev pub empty_node : ℕ → KvNode
empty_node source_count = record { key = 0; value = 0; bits = replicate source_count false }

-- The node before `next`, or at the tail where `next` is nil.
unfoldable pub insert_before : ℕ → Bucket → Option ℕ → Bucket
insert_before source_count ns none = ns ++ empty_node source_count ∷ []
insert_before source_count ns (some next) = insert_at ns next (empty_node source_count)

unfoldable pub position_of_new : Bucket → Option ℕ → ℕ
position_of_new ns none = length ns
position_of_new ns (some next) = next

-- `candidate.key ^= key; candidate.value ^= value; candidate.bits[source] = true`
unfoldable pub add_record : ℕ → KvRecord → KvNode → KvNode
add_record source r n = record {
  key = n.key ⊕ r.key;
  value = n.value ⊕ r.value;
  bits = set n.bits source true;
}

-- The end of `Insert`: use the node after `previous`, or a new one before `next`.
unfoldable pub add_between : ℕ → Bucket → ℕ → KvRecord → Option ℕ × Option ℕ → Bucket
unfolding candidate_after is_position insert_before position_of_new add_record
add_between source_count ns source r (previous, next_source) =
    let candidate = candidate_after previous in
    if is_position next_source candidate || leb (length ns) candidate
    then modify (insert_before source_count ns next_source) (position_of_new ns next_source)
        (add_record source r)
    else modify ns candidate (add_record source r)

unfoldable pub insert_node : ℕ → Bucket → ℕ → ℕ → KvRecord → Bucket
unfolding find_neighbours add_between
insert_node source_count ns source index r =
    add_between source_count ns source r (find_neighbours ns 0 source index 0 none)

-- A node pointer with the nodes on both sides, those before it from the nearest on.
pub record Cursor : Type 0 where
  pub before : Bucket
  pub node : KvNode
  pub after : Bucket

-- The whole list again.
abbrev pub unwind {ℓ} : {A : Type ℓ} → List A → List A → List A
unwind [] ns = ns
unwind (n ∷ before) ns = unwind before (n ∷ ns)

unfoldable pub node_at : Bucket → Bucket → ℕ → ℕ → Option Cursor
unfolding has_bit
node_at before [] source index = none
node_at before (n ∷ ns) source index = elim (has_bit n source) [
  | true ↦ elim index [
    | zero ↦ some (record { before = before; node = n; after = ns })
    | suc i ↦ node_at (n ∷ before) ns source i
  ]
  | false ↦ node_at (n ∷ before) ns source index
]

-- `node.value ^= oldValue ^ newValue`
unfoldable pub replace_value : KvNode → ℕ → ℕ → KvNode
replace_value n old_value new_value = record n { value = n.value ⊕ (old_value ⊕ new_value) }

-- `node` is nil where the source has no such record: reading it panics.
unfoldable pub replace_node : Option Cursor → ℕ → ℕ → Result Bucket
unfolding replace_value
replace_node none old_value new_value = panic
replace_node (some c) old_value new_value =
    ok (unwind c.before (replace_value c.node old_value new_value ∷ c.after))

unfoldable pub any_bit : List Bool → Bool
any_bit [] = false
any_bit (b ∷ bs) = b || any_bit bs

unfoldable pub disjoint : List Bool → List Bool → Bool
disjoint [] bs = true
disjoint (a ∷ as') [] = true
disjoint (a ∷ as') (b ∷ bs) = if a && b then false else disjoint as' bs

unfoldable pub join_bits : List Bool → List Bool → List Bool
join_bits [] bs = []
join_bits (a ∷ as') [] = a ∷ as'
join_bits (a ∷ as') (b ∷ bs) = (a || b) ∷ join_bits as' bs

-- `merge` without the unlinking of `right`, which its callers show as the shorter list.
unfoldable pub merge : KvNode → KvNode → KvNode
unfolding join_bits
merge left right = record {
  key = left.key ⊕ right.key;
  value = left.value ⊕ right.value;
  bits = join_bits left.bits right.bits;
}

-- `for node.previous != nil && disjoint(...) { node = f.merge(bucket, node.previous, node) }`
unfoldable pub merge_previous : Bucket → KvNode → Bucket × KvNode
unfolding disjoint merge
merge_previous [] node = ([], node)
merge_previous (p ∷ before) node = elim (disjoint p.bits node.bits) [
  | true ↦ merge_previous before (merge p node)
  | false ↦ (p ∷ before, node)
]

-- `for node.next != nil && disjoint(...) { f.merge(bucket, node, node.next) }`
unfoldable pub merge_next : KvNode → Bucket → Bucket
unfolding disjoint merge
merge_next node [] = node ∷ []
merge_next node (n ∷ after) = elim (disjoint node.bits n.bits) [
  | true ↦ merge_next (merge node n) after
  | false ↦ node ∷ n ∷ after
]

unfoldable pub merge_around : Bucket → KvNode → Bucket → Bucket
unfolding merge_previous merge_next
merge_around before node after =
    let (before', node') = merge_previous before node in unwind before' (merge_next node' after)

-- The neighbour that `mergeNodes` goes on with once an empty node is unlinked.
unfoldable pub merge_removed : Bucket → Bucket → Bucket
unfolding merge_around
merge_removed (p ∷ before) after = merge_around before p after
merge_removed [] (n ∷ after) = merge_around [] n after
merge_removed [] [] = []

unfoldable pub merge_nodes : Cursor → Bucket
unfolding any_bit merge_removed
merge_nodes c =
    if any_bit c.node.bits
    then merge_around c.before c.node c.after
    else merge_removed c.before c.after

-- `node.key ^= key; node.value ^= value; node.bits[source] = false`
unfoldable pub drop_record : ℕ → KvRecord → KvNode → KvNode
drop_record source r n = record {
  key = n.key ⊕ r.key;
  value = n.value ⊕ r.value;
  bits = set n.bits source false;
}

unfoldable pub delete_node : Option Cursor → ℕ → KvRecord → Result Bucket
unfolding drop_record merge_nodes
delete_node none source r = panic
delete_node (some c) source r = ok (merge_nodes (record c { node = drop_record source r c.node }))
