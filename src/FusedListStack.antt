-- ===== src/FusedListStack.antt =====
-- structures/liststack.go: stacks that are fused by depth, as FusedStack, in a linked list of nodes.
-- Nodes come and go at the end of the list alone, so a node pointer is the node's position.
pub mod Heights
pub mod Invariant
pub mod Pushing
pub mod Popping
pub mod Recovery
pub mod Agreement
use vada_db.Common.{
  ℕ, zero, suc, ◌+◌, ◌-◌, Bool, true, false, ◌&&◌, ◌||◌, Option, none, some, List, [], ◌∷◌, ◌++◌,
  length, get_or, set, replicate, take, modify, leb, ◌==◌, if◌then◌else◌,
}
use mathlib.Core.Bool.{not}
use vada_db.Common.Int.{ℤ, is_negative, at_least, below, to_ℕ}
use vada_db.Xor.{◌⊕◌}
use vada_db.CoreXor.{xor_into}
use vada_db.KvBucket.{is_position}
use vada_db.Result.{
  Result, ok, err, panic, ◌>>=◌, ◌>>◌, fail_if, too_few_sources, source_out_of_range,
  survivor_count, invalid_survivor, is_empty,
}

pub record FusedListStack : Type 0 where
  pub sources : List (List ℕ)
  pub nodes : List ℕ
  pub tails : List (Option ℕ)

unfoldable pub new : ℤ → Result FusedListStack
new source_count = do
  fail_if (below source_count 2) too_few_sources
  ok (record {
    sources = replicate (to_ℕ source_count) [];
    nodes = [];
    tails = replicate (to_ℕ source_count) none;
  })

unfoldable pub valid_source : FusedListStack → ℤ → Result (Unit {0})
valid_source f source =
    fail_if (is_negative source || at_least source (length f.sources)) source_out_of_range

-- `f.head`, or `f.tails[source].next`: a position, and nil if no node stands there
unfoldable pub place_after : Option ℕ → ℕ
place_after none = 0
place_after (some tail) = tail + 1

-- `if node == nil { ... }`: a new node after the last
unfoldable pub with_node : List ℕ → ℕ → List ℕ
with_node nodes place = if leb (length nodes) place then nodes ++ 0 ∷ [] else nodes

unfoldable pub node_for : List ℕ → ℕ → ℕ
node_for nodes place = if leb (length nodes) place then length nodes else place

unfoldable pub push : FusedListStack → ℤ → ℕ → Result FusedListStack
push f source value = do
  valid_source f source
  let s = to_ℕ source
  let place = place_after (get_or f.tails s none)
  let node = node_for f.nodes place
  ok (record {
    nodes = modify (with_node f.nodes place) node (λ v. v ⊕ value);
    tails = set f.tails s (some node);
    sources = set f.sources s (get_or f.sources s [] ++ value ∷ []);
  })

-- `values[len(values)-1]`, which panics where there is none, and `values[:len(values)-1]`
unfoldable pub split_last : List ℕ → Result (ℕ × List ℕ)
split_last [] = panic
split_last (x ∷ xs) = ok (get_or (x ∷ xs) (length xs) 0, take (length xs) (x ∷ xs))

unfoldable pub previous : ℕ → Option ℕ
previous zero = none
previous (suc position) = some position

unfoldable pub tail_referenced : List (Option ℕ) → ℕ → Bool
unfolding is_position
tail_referenced [] target = false
tail_referenced (tail ∷ tails) target =
    if is_position tail target then true else tail_referenced tails target

-- `if oldTail.next == nil && !f.tailReferenced(oldTail) { ... }`
unfoldable pub unlink_last : List ℕ → List (Option ℕ) → ℕ → List ℕ
unfolding tail_referenced
unlink_last nodes tails old_tail =
    if leb (length nodes) (old_tail + 1) && not (tail_referenced tails old_tail)
    then take old_tail nodes
    else nodes

unfoldable pub pop_tail : FusedListStack → ℕ → Option ℕ → Result (ℕ × FusedListStack)
pop_tail f s none = err is_empty
pop_tail f s (some old_tail) = do
  r ← split_last (get_or f.sources s [])
  let tails = set f.tails s (previous old_tail)
  ok (
    r.0,
    record {
      sources = set f.sources s r.1;
      tails = tails;
      nodes = unlink_last (modify f.nodes old_tail (λ v. v ⊕ r.0)) tails old_tail;
    },
  )

unfoldable pub pop : FusedListStack → ℤ → Result (ℕ × FusedListStack)
pop f source = do
  valid_source f source
  pop_tail f (to_ℕ source) (get_or f.tails (to_ℕ source) none)

-- `out[i] = node.value; node = node.next`, for all of `out`; reading a node that is nil panics.
unfoldable pub copy_nodes : ℕ → List ℕ → Result (List ℕ)
copy_nodes zero nodes = ok []
copy_nodes (suc n) [] = panic
copy_nodes (suc n) (v ∷ nodes) = do rest ← copy_nodes n nodes; ok (v ∷ rest)

-- A Go map from sources to stacks, in the order in which the loop ranges over it.
abbrev pub Survivors : Type 0
Survivors = List (ℤ × List ℕ)

unfoldable pub recover_from : FusedListStack → ℤ → List ℕ → Survivors → Result (List ℕ)
recover_from f missing out [] = ok out
recover_from f missing out ((source, values) ∷ rest) = do
  fail_if (is_negative source || at_least source (length f.sources) || to_ℕ source == to_ℕ missing)
      invalid_survivor
  recover_from f missing (xor_into out values) rest

unfoldable pub recover : FusedListStack → ℤ → Survivors → Result (List ℕ)
unfolding valid_source copy_nodes recover_from
recover f missing survivors = do
  valid_source f missing
  fail_if (not (length survivors == length f.sources - 1)) survivor_count
  out ← copy_nodes (length (get_or f.sources (to_ℕ missing) [])) f.nodes
  recover_from f missing out survivors

-- The values of a source, and none if the source is out of range.
unfoldable pub source : FusedListStack → ℤ → List ℕ
source f i =
    if is_negative i || at_least i (length f.sources) then [] else get_or f.sources (to_ℕ i) []

unfoldable pub node_count : FusedListStack → ℕ
node_count f = length f.nodes
