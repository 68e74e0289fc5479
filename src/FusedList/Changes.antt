-- ===== src/FusedList/Changes.antt =====
-- `Delete` and the merging of nodes agree on a list and on the bucket of its nodes.
use vada_db.Common.{
  ℕ, zero, suc, ◌≡◌, refl, ap, false, Option, none, some, List, [], ◌∷◌, get_or, Bool-cases, inl,
  inr,
}
use vada_db.KvBucket
use vada_db.KvBucket.{KvNode, unwind, any_bit, disjoint}
use vada_db.Result.{Result, ok, err, panic}
use vada_db.FusedList.{
  ListNode, has_bit, Cursor, node_at, merge, merge_previous, merge_next, merge_around,
  merge_removed, merge_nodes, drop_value, delete_node,
}
use vada_db.FusedList.Nodes.{as_record, as_kv, as_bucket}

abbrev pub as_cursor : Cursor → KvBucket.Cursor
as_cursor c = record { before = as_bucket c.before; node = as_kv c.node; after = as_bucket c.after }

abbrev pub as_found : Option Cursor → Option KvBucket.Cursor
as_found none = none
as_found (some c) = some (as_cursor c)

abbrev pub as_result : Result (List ListNode) → Result (List KvNode)
as_result (ok ns) = ok (as_bucket ns)
as_result (err e) = err e
as_result panic = panic

pub node_at-as_bucket :
    (before ns : List ListNode) (s i : ℕ)
    → as_found (node_at before ns s i) ≡ KvBucket.node_at (as_bucket before) (as_bucket ns) s i
unfolding node_at KvBucket.node_at has_bit KvBucket.has_bit
node_at-as_bucket before [] s i = refl
node_at-as_bucket before (n ∷ ns) s zero = elim (Bool-cases (get_or n.bits s false)) [
  | inr e ↦ rw (e, node_at, KvBucket.node_at) (node_at-as_bucket (n ∷ before) ns s 0)
  | inl e ↦ rw (e, node_at, KvBucket.node_at) refl
]
node_at-as_bucket before (n ∷ ns) s (suc i) = elim (Bool-cases (get_or n.bits s false)) [
  | inr e ↦ rw (e, node_at, KvBucket.node_at) (node_at-as_bucket (n ∷ before) ns s (suc i))
  | inl e ↦ rw (e, node_at, KvBucket.node_at) (node_at-as_bucket (n ∷ before) ns s i)
]

merge_previous-as_bucket :
    (before : List ListNode) (n : ListNode)
    → KvBucket.merge_previous (as_bucket before) (as_kv n)
      ≡ (as_bucket (merge_previous before n).0, as_kv (merge_previous before n).1)
unfolding merge_previous KvBucket.merge_previous merge KvBucket.merge
merge_previous-as_bucket [] n = refl
merge_previous-as_bucket (p ∷ before) n = elim (Bool-cases (disjoint p.bits n.bits)) [
  | inl e ↦
      rw (e, merge_previous, KvBucket.merge_previous) (merge_previous-as_bucket before (merge p n))
  | inr e ↦ rw (e, merge_previous, KvBucket.merge_previous) refl
]

merge_next-as_bucket :
    (n : ListNode) (after : List ListNode)
    → KvBucket.merge_next (as_kv n) (as_bucket after) ≡ as_bucket (merge_next n after)
unfolding merge_next KvBucket.merge_next merge KvBucket.merge
merge_next-as_bucket n [] = refl
merge_next-as_bucket n (m ∷ after) = elim (Bool-cases (disjoint n.bits m.bits)) [
  | inl e ↦ rw (e, merge_next, KvBucket.merge_next) (merge_next-as_bucket (merge n m) after)
  | inr e ↦ rw (e, merge_next, KvBucket.merge_next) refl
]

unwind-as_bucket :
    (before ns : List ListNode)
    → unwind (as_bucket before) (as_bucket ns) ≡ as_bucket (unwind before ns)
unwind-as_bucket [] ns = refl
unwind-as_bucket (p ∷ before) ns = unwind-as_bucket before (p ∷ ns)

merge_around-as_bucket :
    (before : List ListNode) (n : ListNode) (after : List ListNode)
    → KvBucket.merge_around (as_bucket before) (as_kv n) (as_bucket after)
      ≡ as_bucket (merge_around before n after)
unfolding merge_around KvBucket.merge_around
merge_around-as_bucket before n after =
    let r = merge_previous before n in
    rw (merge_previous-as_bucket before n, merge_next-as_bucket r.1 after)
      (unwind-as_bucket r.0 (merge_next r.1 after))

merge_removed-as_bucket :
    (before after : List ListNode)
    → KvBucket.merge_removed (as_bucket before) (as_bucket after)
      ≡ as_bucket (merge_removed before after)
unfolding merge_removed KvBucket.merge_removed
merge_removed-as_bucket (p ∷ before) after = merge_around-as_bucket before p after
merge_removed-as_bucket [] (n ∷ after) = merge_around-as_bucket [] n after
merge_removed-as_bucket [] [] = refl

merge_nodes-as_bucket :
    (c : Cursor) → KvBucket.merge_nodes (as_cursor c) ≡ as_bucket (merge_nodes c)
unfolding merge_nodes KvBucket.merge_nodes
merge_nodes-as_bucket c = elim (Bool-cases (any_bit c.node.bits)) [
  | inl e ↦ rw e (merge_around-as_bucket c.before c.node c.after)
  | inr e ↦ rw e (merge_removed-as_bucket c.before c.after)
]

pub delete_node-as_bucket :
    (o : Option Cursor) (s v : ℕ)
    → KvBucket.delete_node (as_found o) s (as_record v) ≡ as_result (delete_node o s v)
unfolding delete_node KvBucket.delete_node drop_value KvBucket.drop_record
delete_node-as_bucket none s v = refl
delete_node-as_bucket (some c) s v =
    ap ok (merge_nodes-as_bucket (record c { node = drop_value s v c.node }))
