-- ===== src/FusedList/Recovering.antt =====
-- structures/linkedlist.go: `Recover`, `Source`, `Snapshot` and `NodeCount` of the fused linked list.
use mathlib.Core.Bool.{not}
use vada_db.Common.{
  ℕ, ◌-◌, true, false, ◌||◌, List, [], ◌∷◌, length, get_or, ltb, ◌==◌, if◌then◌else◌,
}
use vada_db.Common.Int.{ℤ, is_negative, at_least, to_ℕ}
use vada_db.Xor.{◌⊕◌}
use vada_db.Result.{
  Result, ok, err, ◌>>=◌, ◌>>◌, fail_if, survivor_count, invalid_survivor, survivor_length,
}
use vada_db.FusedList.{ListNode, FusedList, valid_source, has_bit}

unfoldable pub values_of : List ListNode → List ℕ
values_of [] = []
values_of (n ∷ ns) = n.value ∷ values_of ns

-- One survivor's pass over the nodes: the values as its own are taken out, and the survivor's
-- values from `index` on. A node that has its bit and finds none left is an error.
unfoldable pub take_out : ℕ → List ListNode → List ℕ → List ℕ → Result (List ℕ × List ℕ)
unfolding has_bit
take_out source (n ∷ ns) (v ∷ vs) own = elim (has_bit n source) [
  | true ↦ elim own [
    | [] ↦ err survivor_length
    | x ∷ xs ↦ take_out source ns vs xs >>= λ r. ok ((v ⊕ x) ∷ r.0, r.1)
  ]
  | false ↦ take_out source ns vs own >>= λ r. ok (v ∷ r.0, r.1)
]
take_out source ns vs own = ok (vs, own)

-- A Go map from sources to values, in the order in which the loop ranges over it.
abbrev pub Survivors : Type 0
Survivors = List (ℤ × List ℕ)

unfoldable pub take_out_all : FusedList → ℤ → Survivors → List ℕ → Result (List ℕ)
unfolding take_out
take_out_all f missing [] values = ok values
take_out_all f missing ((source, own) ∷ rest) values = do
  fail_if (is_negative source || at_least source (length f.sources) || to_ℕ source == to_ℕ missing)
      invalid_survivor
  r ← take_out (to_ℕ source) f.nodes values own
  fail_if (ltb 0 (length r.1)) survivor_length
  take_out_all f missing rest r.0

-- The values of the nodes that have the bit of `missing`.
unfoldable pub pick : ℕ → List ListNode → List ℕ → List ℕ
unfolding has_bit
pick missing (n ∷ ns) (v ∷ vs) =
    let rest = pick missing ns vs in if has_bit n missing then v ∷ rest else rest
pick missing ns vs = []

unfoldable pub recover : FusedList → ℤ → Survivors → Result (List ℕ)
unfolding valid_source values_of take_out_all pick
recover f missing survivors = do
  valid_source f missing
  fail_if (not (length survivors == length f.sources - 1)) survivor_count
  values ← take_out_all f missing survivors (values_of f.nodes)
  ok (pick (to_ℕ missing) f.nodes values)

-- The values of a source, and none if the source is out of range.
unfoldable pub source : FusedList → ℤ → List ℕ
source f i =
    if is_negative i || at_least i (length f.sources) then [] else get_or f.sources (to_ℕ i) []

-- `Snapshot` copies the nodes, and `NodeCount` counts the copies.
unfoldable pub node_count : FusedList → ℕ
node_count f = length f.nodes
