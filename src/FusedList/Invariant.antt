-- ===== src/FusedList/Invariant.antt =====
-- `NewFusedLinkedList`, `Insert` and `Delete` keep the nodes of a fused linked list the fusion of its
-- sources.
use mathlib.Core.Path.{subst}
use vada_db.Common.{
  ℕ, zero, suc, ◌+◌, ◌<◌, ◌≤◌, ◌≡◌, refl, ap, sym, ◌∙◌, some, List, [], ◌∷◌, map, length, get_or,
  get_elem?, set, insert_at, remove_at, replicate, length-set, get_or-replicate, get_or-set,
  Bool-cases, length-map, ◌==◌, arith, inl, inr, lt→not_leb, not_ltb,
}
use vada_db.Common.Int.{pos}
use vada_db.KvBucket
use vada_db.KvBucket.{KvRecord}
use vada_db.KvBucket.Slots.{IsFused, IsFused-congr}
use vada_db.KvBucket.Change.{with_column, delete_node-IsFused}
use vada_db.KvBucket.Insert.{insert_node-IsFused}
use vada_db.Result.{Result, ok, err, panic, Returns, Returns-value}
use vada_db.FusedList
use vada_db.FusedList.{ListNode, FusedList, Cursor, node_at, insert_node, delete_node}
use vada_db.FusedList.Nodes.{as_record, as_bucket, insert_node-as_bucket, map-insert_at}
use vada_db.FusedList.Changes.{as_result, node_at-as_bucket, delete_node-as_bucket}
use vada_db.FusedList.Passes.{IsFusedList, records_of, valid_source-lt}

-- For at least two sources: a new list has as many empty sources, and fuses them.
pub new-IsFusedList :
    (n : ℕ)
    → 2 ≤ n
    → Returns (FusedList.new (pos n)) λ f. IsFusedList f × (f.sources ≡ replicate n [])
unfolding FusedList.new
new-IsFusedList n h = (
  record { sources = replicate n []; nodes = [] },
  rw (not_ltb n 2 h) refl,
  (
    record {
      slots = [];
      nodes = refl;
      width = tt;
      columns = λ s. ap (map as_record) (sym (get_or-replicate n s []));
    },
    refl,
  ),
)

map-remove_at :
    (vs : List ℕ) (i : ℕ) → map as_record (remove_at vs i) ≡ remove_at (map as_record vs) i
map-remove_at [] i = refl
map-remove_at (v ∷ vs) zero = refl
map-remove_at (v ∷ vs) (suc i) = ap (λ l. as_record v ∷ l) (map-remove_at vs i)

get_elem?-records :
    (vs : List ℕ) (i : ℕ)
    → i < length vs
    → get_elem? (map as_record vs) i ≡ some (as_record (get_or vs i 0))
get_elem?-records [] i h = absurd (omega arith)
get_elem?-records (v ∷ vs) zero h = refl
get_elem?-records (v ∷ vs) (suc i) h = get_elem?-records vs i (omega arith)

records_of-set :
    (sources : List (List ℕ)) (s u : ℕ) (vs : List ℕ) (col : List KvRecord)
    → s < length sources
    → map as_record vs ≡ col
    → with_column (records_of sources) s col u ≡ records_of (set sources s vs) u
records_of-set sources s u vs col h e = elim (Bool-cases (u == s)) [
  | inl d ↦ rw (get_or-set sources s u vs [] h, d) (sym e)
  | inr d ↦ rw (get_or-set sources s u vs [] h, d) refl
]

as_result-ok :
    (r : Result (List ListNode)) {b : List KvBucket.KvNode}
    → as_result r ≡ ok b
    → Returns r λ ns. b ≡ as_bucket ns
as_result-ok (ok ns) e =
    (ns, refl, Returns-value {P = λ c. c ≡ as_bucket ns} (as_bucket ns, refl, refl) e)
as_result-ok (err x) e = cc
as_result-ok panic e = cc

module _ (f : FusedList) (fused : IsFusedList f) (s i : ℕ) (hs : s < length f.sources) where
  abbrev values : List ℕ
  values = get_or f.sources s []

  kept_with :
      (ns : List ListNode) (vs : List ℕ) (col : List KvRecord) {b : List KvBucket.KvNode}
      → map as_record vs ≡ col
      → as_bucket ns ≡ b
      → IsFused (length f.sources) (with_column (records_of f.sources) s col) b
      → IsFusedList (record { sources = set f.sources s vs; nodes = ns })
  kept_with ns vs col {b = b} e same kept =
      subst (λ w. IsFused w (records_of (set f.sources s vs)) (as_bucket ns))
        (sym (length-set f.sources s vs))
        (subst (IsFused (length f.sources) (records_of (set f.sources s vs))) (sym same) (
          IsFused-congr (length f.sources) (with_column (records_of f.sources) s col)
            (records_of (set f.sources s vs)) b (λ u. records_of-set f.sources s u vs col hs e)
            kept))

  -- For a list that fuses its sources, a source of it and an index up to the number of its values:
  -- `Insert` succeeds and the new list again fuses its sources, in which the value stands at the index
  -- of this source and nothing else has changed.
  pub insert-IsFusedList :
      (v : ℕ)
      → i ≤ length values
      → Returns
          (FusedList.insert f (pos s) (pos i) v)
          λ f'. IsFusedList f' × (f'.sources ≡ set f.sources s (insert_at values i v))
  unfolding FusedList.insert
  insert-IsFusedList v h = (
    record {
      sources = set f.sources s (insert_at values i v);
      nodes = insert_node (length f.sources) f.nodes s i v;
    },
    rw (valid_source-lt f s hs, lt→not_leb (length values + 1) i (omega arith)) refl,
    (
      kept_with (insert_node (length f.sources) f.nodes s i v) (insert_at values i v)
          (insert_at (records_of f.sources s) i (as_record v)) (map-insert_at as_record values i v)
          (insert_node-as_bucket (length f.sources) f.nodes s i v)
          (insert_node-IsFused fused s i (as_record v) hs
            (omega (arith, length-map as_record values))),
      refl,
    ),
  )

  -- For a list that fuses its sources, a source of it and an index of one of its values: `Delete`
  -- neither fails nor panics, it returns that value, and the new list again fuses its sources, of which
  -- this one is without the value.
  pub delete-IsFusedList :
      i < length values
      → Returns (FusedList.delete f (pos s) (pos i)) λ r.
        (r.0 ≡ get_or values i 0)
        × IsFusedList r.1
        × (r.1.sources ≡ set f.sources s (remove_at values i))
  unfolding FusedList.delete
  delete-IsFusedList h =
      let v : ℕ = get_or values i 0 in
      let (b, run, kept) =
        delete_node-IsFused fused s i hs (as_record v) (get_elem?-records values i h) in
      let (ns, done, same) = as_result-ok (delete_node (node_at [] f.nodes s i) s v) (
        sym (delete_node-as_bucket (node_at [] f.nodes s i) s v)
        ∙ ap (λ o. KvBucket.delete_node o s (as_record v)) (node_at-as_bucket [] f.nodes s i)
        ∙ run) in
      (
        (v, record { sources = set f.sources s (remove_at values i); nodes = ns }),
        rw (valid_source-lt f s hs, lt→not_leb (length values) i h, done) refl,
        (
          refl,
          kept_with ns (remove_at values i) (remove_at (records_of f.sources s) i)
              (map-remove_at values i) (sym same) kept,
          refl,
        ),
      )
