-- ===== src/KvTable.antt =====
-- structures/kvhashtable.go: the fused hash table of key/value records.
pub mod Fused
pub mod Update
pub mod Pass
pub mod Survivors
pub mod Group
pub mod Sorting
pub mod Recovery
use vada_db.Common.{
  ℕ, ◌+◌, ◌-◌, ◌*◌, ◌/◌, ◌%◌, ◌^◌, Bool, true, false, ◌&&◌, ◌||◌, List, [], ◌∷◌, ◌++◌, length,
  get_or, set, modify, replicate, ltb, ◌==◌, if◌then◌else◌,
}
use vada_db.Common.Int.{ℤ, is_negative, below, at_least, to_ℕ}
use vada_db.Xor.{◌⊕◌}
use vada_db.KvBucket.{KvRecord, Bucket, has_bit, insert_node, node_at, replace_node, delete_node}
use mathlib.Core.Bool.{not}
use vada_db.Result.{
  Result, ok, panic, ◌>>=◌, ◌>>◌, fail_if, too_few_sources, too_few_buckets, source_out_of_range,
  index_out_of_range, survivor_count, invalid_survivor, survivor_length,
}

pub record Table : Type 0 where
  pub source_count : ℕ
  pub buckets : List Bucket
  pub sizes : List (List ℕ)

unfoldable pub new : ℤ → ℤ → Result Table
new source_count bucket_count = do
  fail_if (below source_count 2) too_few_sources
  fail_if (below bucket_count 1) too_few_buckets
  ok (record {
    source_count = to_ℕ source_count;
    buckets = replicate (to_ℕ bucket_count) [];
    sizes = replicate (to_ℕ source_count) (replicate (to_ℕ bucket_count) 0);
  })

unfoldable pub bucket : Table → ℕ → ℕ
bucket t key = key % length t.buckets

-- `f.sizes[source][bucket]`
unfoldable pub size_of : Table → ℕ → ℕ → ℕ
size_of t source b = get_or (get_or t.sizes source []) b 0

unfoldable pub valid_position : Table → ℤ → ℕ → ℤ → Bool → Result (Unit {0})
unfolding size_of
valid_position t source b index insert = do
  fail_if (is_negative source || at_least source t.source_count) source_out_of_range
  let limit = size_of t (to_ℕ source) b
  fail_if (is_negative index || at_least index (limit + 1) || (not insert && to_ℕ index == limit))
      index_out_of_range

-- `f.buckets[b]` and `f.sizes[source][b]` after a write
unfoldable pub write : Table → ℕ → ℕ → Bucket → ℕ → Table
write t source b ns size = record t {
  buckets = set t.buckets b ns;
  sizes = set t.sizes source (set (get_or t.sizes source []) b size);
}

unfoldable pub insert : Table → ℤ → ℤ → ℕ → ℕ → Result Table
unfolding bucket size_of write
insert t source index key value = do
  let b = bucket t key
  valid_position t source b index true
  let ns =
      insert_node t.source_count (get_or t.buckets b []) (to_ℕ source) (to_ℕ index)
        (record { key = key; value = value })
  ok (write t (to_ℕ source) b ns (size_of t (to_ℕ source) b + 1))

unfoldable pub replace : Table → ℤ → ℤ → ℕ → ℕ → ℕ → Result Table
unfolding bucket size_of write
replace t source index key old_value new_value = do
  let b = bucket t key
  valid_position t source b index false
  ns ←
      replace_node (node_at [] (get_or t.buckets b []) (to_ℕ source) (to_ℕ index)) old_value
        new_value
  ok (write t (to_ℕ source) b ns (size_of t (to_ℕ source) b))

unfoldable pub delete : Table → ℤ → ℤ → ℕ → ℕ → Result Table
unfolding bucket size_of write
delete t source index key value = do
  let b = bucket t key
  valid_position t source b index false
  ns ←
      delete_node (node_at [] (get_or t.buckets b []) (to_ℕ source) (to_ℕ index)) (to_ℕ source)
        (record { key = key; value = value })
  ok (write t (to_ℕ source) b ns (size_of t (to_ℕ source) b - 1))

-- `sort.Slice` by key. It is not stable, but no two records that it sorts have one key.
unfoldable pub insert_sorted : KvRecord → List KvRecord → List KvRecord
insert_sorted r [] = r ∷ []
insert_sorted r (x ∷ xs) = if ltb x.key r.key then x ∷ insert_sorted r xs else r ∷ x ∷ xs

unfoldable pub sort : List KvRecord → List KvRecord
unfolding insert_sorted
sort [] = []
sort (r ∷ rs) = insert_sorted r (sort rs)

-- `grouped[source][bucket] = append(grouped[source][bucket], record)`, for all records
unfoldable pub group : Table → List KvRecord → List (List KvRecord) → List (List KvRecord)
unfolding bucket
group t [] groups = groups
group t (r ∷ rs) groups = group t rs (modify groups (bucket t r.key) (λ g. g ++ r ∷ []))

-- The loop over the buckets of one survivor: sort, and compare the length.
unfoldable pub check_groups : Table → ℕ → ℕ → List (List KvRecord) → Result (List (List KvRecord))
unfolding size_of sort
check_groups t source b [] = ok []
check_groups t source b (g ∷ gs) = do
  let sorted = sort g
  fail_if (not (length sorted == size_of t source b)) survivor_length
  rest ← check_groups t source (b + 1) gs
  ok (sorted ∷ rest)

-- A Go map from sources to records, in the order in which the loops range over it. Go may take
-- another order for each loop; here one order, whatever it is, serves them all.
abbrev pub Survivors : Type 0
Survivors = List (ℤ × List KvRecord)

unfoldable pub group_all : Table → ℤ → Survivors → Result (List (ℕ × List (List KvRecord)))
unfolding group check_groups
group_all t missing [] = ok []
group_all t missing ((source, records) ∷ rest) = do
  fail_if (is_negative source || at_least source t.source_count || to_ℕ source == to_ℕ missing)
      invalid_survivor
  groups ← check_groups t (to_ℕ source) 0 (group t records (replicate (length t.buckets) []))
  others ← group_all t missing rest
  ok ((to_ℕ source, groups) ∷ others)

-- `value.Key ^= record.Key; value.Value ^= record.Value`
unfoldable pub xor_record : KvRecord → KvRecord → KvRecord
xor_record v r = record { key = v.key ⊕ r.key; value = v.value ⊕ r.value }

-- One survivor's pass over a bucket. The values are listed as their nodes are, and the records
-- from `index` on; a node that has a bit and no record left is a read out of range.
unfoldable pub xor_source : ℕ → Bucket → List KvRecord → List KvRecord → Result (List KvRecord)
unfolding has_bit xor_record
xor_source source (n ∷ ns) (v ∷ vs) records = elim (has_bit n source) [
  | true ↦ elim records [
    | [] ↦ panic
    | r ∷ rs ↦ xor_source source ns vs rs >>= λ rest. ok (xor_record v r ∷ rest)
  ]
  | false ↦ xor_source source ns vs records >>= λ rest. ok (v ∷ rest)
]
xor_source source ns vs records = ok vs

unfoldable pub xor_survivors :
    Bucket → ℕ → List (ℕ × List (List KvRecord)) → List KvRecord → Result (List KvRecord)
unfolding xor_source
xor_survivors ns b [] values = ok values
xor_survivors ns b ((source, groups) ∷ rest) values = do
  values' ← xor_source source ns values (get_or groups b [])
  xor_survivors ns b rest values'

-- The values of the nodes that have the bit of `missing`.
unfoldable pub pick : ℕ → Bucket → List KvRecord → List KvRecord
unfolding has_bit
pick missing (n ∷ ns) (v ∷ vs) =
    let rest = pick missing ns vs in if has_bit n missing then v ∷ rest else rest
pick missing ns vs = []

unfoldable pub values_of : Bucket → List KvRecord
values_of [] = []
values_of (n ∷ ns) = record { key = n.key; value = n.value } ∷ values_of ns

unfoldable pub recover_buckets :
    ℕ → List (ℕ × List (List KvRecord)) → ℕ → List Bucket → Result (List KvRecord)
unfolding xor_survivors pick values_of
recover_buckets missing grouped b [] = ok []
recover_buckets missing grouped b (ns ∷ rest) = do
  values ← xor_survivors ns b grouped (values_of ns)
  others ← recover_buckets missing grouped (b + 1) rest
  ok (pick missing ns values ++ others)

unfoldable pub recover : Table → ℤ → Survivors → Result (List KvRecord)
unfolding group_all recover_buckets sort
recover t missing survivors = do
  fail_if (is_negative missing || at_least missing t.source_count) source_out_of_range
  fail_if (not (length survivors + 1 == t.source_count)) survivor_count
  grouped ← group_all t missing survivors
  recovered ← recover_buckets (to_ℕ missing) grouped 0 t.buckets
  ok (sort recovered)

-- sums of lists of numbers
abbrev pub total : List ℕ → ℕ
total [] = 0
total (n ∷ ns) = n + total ns

unfoldable pub node_count : List Bucket → ℕ
node_count [] = 0
node_count (ns ∷ rest) = length ns + node_count rest

unfoldable pub source_record_count : List (List ℕ) → ℕ
source_record_count [] = 0
source_record_count (row ∷ rows) = total row + source_record_count rows

unfoldable pub logical_bytes : Table → ℕ
unfolding node_count
logical_bytes t = node_count t.buckets * (16 + (t.source_count + 7) / 8) % 2 ^ 64
