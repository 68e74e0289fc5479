-- ===== src/Database.antt =====
-- db/database.go: the sharded database, its fused backup and its logs.
-- The mutex makes each method one step. A shard pointer is the shard's index.
pub mod Failure
pub mod Models
pub mod Commits
pub mod Writes
pub mod Gathering
pub mod Recovery
pub mod Refinement
pub mod Runs
pub mod Reports
pub mod Scanning
pub mod Opening
pub mod Ordering
pub mod Inserting
pub mod Rebuilding
pub mod Replaying
pub mod Redoing
pub mod Files
pub mod Reopening
pub mod Logging
pub mod Committing
pub mod Extending
pub mod Keeping
pub mod Recording
pub mod Unchanged
pub mod Stepping
pub mod Restarting
pub mod Durable
pub mod Snapshotting
use vada_db.Common.{
  ℕ, zero, suc, ◌+◌, ◌*◌, ◌%◌, ◌^◌, Bool, true, false, ◌&&◌, ◌||◌, Option, none, some, List, [],
  ◌∷◌, ◌++◌, map, length, get_or, set, replicate, ltb, ◌==◌, if◌then◌else◌,
}
use mathlib.Core.Bool.{not}
use vada_db.Common.Int.{ℤ, pos, is_negative, at_least, below, to_ℕ}
use vada_db.Result.{
  Error, Result, ok, err, panic, ◌>>=◌, ◌>>◌, fail_if, too_few_shards, shard_unavailable,
  failure_active, shard_out_of_range, not_failed, wrong_shard,
}
use vada_db.KvBucket.{KvRecord}
use vada_db.KvTable
use vada_db.KvTable.{Table, Survivors, bucket, sort}
use vada_db.KvMap
use vada_db.KvMap.{KvMap, search, sort_keys}
use vada_db.Wal.{WalRecord, WriteOutcome, put_op, delete_op, append}

-- `data` is nil, here empty, while the shard is failed. `wal` is the log file, or nil.
pub record Shard : Type 0 where
  pub id : ℕ
  pub entries : KvMap
  pub wal : Option (List ℕ)
  pub failed : Bool

pub record Database : Type 0 where
  pub shards : List Shard
  pub next : ℕ
  pub committed : ℕ
  pub checkpoint : ℕ
  pub has_snapshot : Bool
  pub fusion : Table
  pub fusion_wal : Option (List ℕ)

abbrev pub default_bucket_count : ℕ
default_bucket_count = 16

-- What a method returns, and the database afterwards.
abbrev pub Outcome : Type 0 → Type 0
Outcome A = Result A × Database

-- What the file system makes of the two writes of a commit.
pub record CommitOutcome : Type 0 where
  pub source_write : WriteOutcome
  pub fusion_write : WriteOutcome

abbrev pub no_shard : Shard
no_shard = record { id = 0; entries = []; wal = none; failed = true }

abbrev pub new_shards : ℕ → ℕ → List Shard
new_shards id zero = []
new_shards id (suc count) =
    record { id = id; entries = []; wal = none; failed = false } ∷ new_shards (id + 1) count

unfoldable pub new : ℤ → Result Database
new shard_count = do
  fail_if (below shard_count 2) too_few_shards
  fusion ← KvTable.new shard_count (pos default_bucket_count)
  ok (record {
    shards = new_shards 0 (to_ℕ shard_count);
    next = 1;
    committed = 0;
    checkpoint = 0;
    has_snapshot = false;
    fusion = fusion;
    fusion_wal = none;
  })

unfoldable pub route : Database → ℕ → ℕ
route d key = key % length d.shards

-- `d.shards[d.Route(key)]`: the index is in range, since there are shards.
unfoldable pub shard_of : Database → ℕ → Shard
unfolding route
shard_of d key = get_or d.shards (route d key) no_shard

unfoldable pub set_shard : Database → ℕ → Shard → Database
set_shard d i s = record d { shards = set d.shards i s }

-- The loop of `bucketIndex`, its keys in the order of the map.
unfoldable pub keys_in : Table → ℕ → KvMap → List ℕ
keys_in t b [] = []
keys_in t b (x ∷ xs) = if bucket t x.key == b then x.key ∷ keys_in t b xs else keys_in t b xs

unfoldable pub bucket_index : Database → Shard → ℕ → ℕ
unfolding keys_in
bucket_index d s key = search (sort_keys (keys_in d.fusion (bucket d.fusion key) s.entries)) key

-- The two logs after the append: the source's first, and the fusion's only once that is written.
unfoldable pub commit_wal :
    Option (List ℕ)
    → Option (List ℕ)
    → WalRecord
    → CommitOutcome
    → Result (Unit {0}) × Option (List ℕ) × Option (List ℕ)
commit_wal none fusion_wal r io = (ok tt, none, fusion_wal)
commit_wal (some wal) none r io =
    let (result, wal') = append r io.source_write wal in
    elim result [
      | ok _ ↦ (panic, some wal', none)
      | err e ↦ (err e, some wal', none)
      | panic ↦ (panic, some wal', none)
    ]
commit_wal (some wal) (some fusion_wal) r io =
    let (result, wal') = append r io.source_write wal in
    let (result', fusion_wal') = append r io.fusion_write fusion_wal in
    elim result [
      | ok _ ↦ (result', some wal', some fusion_wal')
      | err e ↦ (err e, some wal', some fusion_wal)
      | panic ↦ (panic, some wal', some fusion_wal)
    ]

-- `d.next++`, and the commit of the record: the database with its logs.
unfoldable pub commit : ℕ → WalRecord → CommitOutcome → Database → Outcome (Unit {0})
commit i r io d =
    let s = get_or d.shards i no_shard in
    let (result, wal, fusion_wal) = commit_wal s.wal d.fusion_wal r io in
    (
      result,
      record d {
        shards = set d.shards i (record s { wal = wal });
        next = (d.next + 1) % 2 ^ 64;
        fusion_wal = fusion_wal;
      },
    )

-- The end of `Put` and `Delete`: with the fusion updated, the shard's map and `committed` follow.
abbrev pub finish : ℕ → KvMap → ℕ → Database → Result Table → Outcome (Unit {0})
finish i entries sequence d (err e) = (err e, d)
finish i entries sequence d panic = (panic, d)
finish i entries sequence d (ok fusion) = (
  ok tt,
  record d {
    shards = set d.shards i (record (get_or d.shards i no_shard) { entries = entries });
    fusion = fusion;
    committed = sequence;
  },
)

-- What follows a commit, unless that returned an error.
abbrev pub after_commit : Outcome (Unit {0}) → (Database → Outcome (Unit {0})) → Outcome (Unit {0})
after_commit (ok _, d) f = f d
after_commit (err e, d) f = (err e, d)
after_commit (panic, d) f = (panic, d)

-- `if exists { Replace } else { Insert }`
abbrev pub fuse_put : Table → ℕ → ℕ → ℕ → ℕ → Option ℕ → Result Table
fuse_put t id index key value (some old) = KvTable.replace t (pos id) (pos index) key old value
fuse_put t id index key value none = KvTable.insert t (pos id) (pos index) key value

unfoldable pub put : ℕ → ℕ → CommitOutcome → Database → Outcome (Unit {0})
put key value io d =
    let i = route d key in
    let s = shard_of d key in
    let r : WalRecord = record {
      op = put_op;
      sequence = d.next;
      shard = s.id % 2 ^ 32;
      key = key;
      value = value;
    } in
    if s.failed
    then (err shard_unavailable, d)
    else after_commit (commit i r io d) (λ d'.
      finish i (KvMap.put key value s.entries) d.next d'
        (fuse_put d'.fusion s.id (bucket_index d s key) key value (KvMap.lookup s.entries key)))

abbrev pub delete_found : ℕ → CommitOutcome → Database → Option ℕ → Outcome (Unit {0})
delete_found key io d none = (ok tt, d)
delete_found key io d (some value) =
    let i = route d key in
    let s = shard_of d key in
    let r : WalRecord = record {
      op = delete_op;
      sequence = d.next;
      shard = s.id % 2 ^ 32;
      key = key;
      value = 0;
    } in
    after_commit (commit i r io d) (λ d'.
      finish i (KvMap.remove key s.entries) d.next d'
        (KvTable.delete d'.fusion (pos s.id) (pos (bucket_index d s key)) key value))

unfoldable pub delete : ℕ → CommitOutcome → Database → Outcome (Unit {0})
delete key io d =
    let s = shard_of d key in
    if s.failed
    then (err shard_unavailable, d)
    else delete_found key io d (KvMap.lookup s.entries key)

unfoldable pub get : ℕ → Database → Result (Option ℕ)
unfolding shard_of
get key d =
    let s = shard_of d key in
    if s.failed then err shard_unavailable else ok (KvMap.lookup s.entries key)

-- `append` over the shards' maps, in the order of the shards
unfoldable pub scan_shards : List Shard → Result (List KvRecord)
scan_shards [] = ok []
scan_shards (s ∷ ss) = do
  fail_if s.failed shard_unavailable
  rest ← scan_shards ss
  ok (s.entries ++ rest)

unfoldable pub scan : Database → Result (List KvRecord)
unfolding scan_shards
scan d = do records ← scan_shards d.shards; ok (sort records)
