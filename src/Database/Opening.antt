-- ===== src/Database/Opening.antt =====
-- db/database.go: `Open` reads a database back from its snapshots and its logs.
use vada_db.Common.{
  ℕ, ◌+◌, ◌%◌, ◌^◌, Bool, true, false, ◌&&◌, ◌||◌, Option, none, some, List, [], ◌∷◌, ◌++◌, length,
  get_or, replicate, modify, ltb, leb, ◌==◌, if◌then◌else◌,
}
use mathlib.Core.Bool.{not}
use vada_db.Common.Int.{ℤ, pos}
use vada_db.Result.{
  Result, ok, err, panic, ◌>>=◌, ◌>>◌, fail_if, wrong_shard, checkpoint_mismatch,
  duplicate_sequence, log_mismatch, no_source_record,
}
use vada_db.KvBucket.{KvRecord}
use vada_db.Snapshots.{Snapshot}
use vada_db.KvMap
use vada_db.KvMap.{KvMap}
use vada_db.KvTable
use vada_db.KvTable.{Table, bucket}
use vada_db.Wal.{WalRecord, put_op, replay}
use vada_db.Database.{Shard, Database, default_bucket_count, no_shard, new, route, set_shard}

-- The directory: the checkpoint file, the snapshots of the checkpoint for the shards, the shards'
-- logs and the fusion's log. The first two are what `LoadCheckpoint` and `LoadSnapshot` make of the
-- files; opening a log succeeds.
pub record Directory : Type 0 where
  pub checkpoint : Result (Option ℕ)
  pub snapshots : List (Result Snapshot)
  pub logs : List (List ℕ)
  pub fusion_log : List ℕ

-- The records of one snapshot go into the map of its shard.
unfoldable pub load_records : Database → ℕ → List KvRecord → KvMap → Result KvMap
load_records d id [] entries = ok entries
load_records d id (r ∷ rs) entries =
    let rest = load_records d id rs (KvMap.put r.key r.value entries) in
    if route d r.key == id then rest else err wrong_shard

unfoldable pub load_snapshots :
    Database → ℕ → List (Result Snapshot) → List Shard → Result (List Shard)
unfolding load_records
load_snapshots d checkpoint snapshots [] = ok []
load_snapshots d checkpoint [] (s ∷ ss) = panic
load_snapshots d checkpoint (file ∷ files) (s ∷ ss) = do
  snapshot ← file
  fail_if (not (snapshot.sequence == checkpoint)) checkpoint_mismatch
  entries ← load_records d s.id snapshot.records s.entries
  rest ← load_snapshots d checkpoint files ss
  ok (record s { entries = entries } ∷ rest)

-- `if sequence >= next { next = sequence + 1 }`
unfoldable pub next_after : ℕ → ℕ → ℕ
next_after sequence next = if leb next sequence then (sequence + 1) % 2 ^ 64 else next

unfoldable pub load_checkpoint : Option ℕ → List (Result Snapshot) → Database → Result Database
unfolding load_snapshots next_after
load_checkpoint none snapshots d = ok d
load_checkpoint (some checkpoint) snapshots d = do
  shards ← load_snapshots d checkpoint snapshots d.shards
  ok (record d {
    shards = shards;
    next = next_after checkpoint d.next;
    committed = checkpoint;
    checkpoint = checkpoint;
    has_snapshot = true;
  })

-- The records of a source's log belong to its shard; `next` is the number after the highest.
unfoldable pub check_source : Database → ℕ → List WalRecord → ℕ → Result ℕ
unfolding next_after
check_source d id [] next = ok next
check_source d id (r ∷ rs) next =
    let rest = check_source d id rs (next_after r.sequence next) in
    if r.shard == id && route d r.key == id then rest else err wrong_shard

-- The logs of the shards from `id` on: their records, and the next sequence number.
unfoldable pub read_sources : Database → ℕ → List (List ℕ) → ℕ → Result (List WalRecord × ℕ)
unfolding check_source
read_sources d id [] next = ok ([], next)
read_sources d id (log ∷ logs) next = do
  records ← replay log
  next' ← check_source d id records next
  rest ← read_sources d (id + 1) logs next'
  ok (records ++ rest.0, rest.1)

-- `committed[sequence]`
unfoldable pub find_sequence : ℕ → List WalRecord → Option WalRecord
find_sequence sequence [] = none
find_sequence sequence (r ∷ rs) =
    if r.sequence == sequence then some r else find_sequence sequence rs

abbrev pub is_found : Option WalRecord → Bool
is_found none = false
is_found (some r) = true

-- The fusion's records, as the map `committed`: no sequence number stands twice.
unfoldable pub check_commits : List WalRecord → List WalRecord → ℕ → Result ℕ
unfolding find_sequence next_after
check_commits seen [] next = ok next
check_commits seen (r ∷ rs) next =
    let rest = check_commits (r ∷ seen) rs (next_after r.sequence next) in
    if is_found (find_sequence r.sequence seen) then err duplicate_sequence else rest

unfoldable pub apply : WalRecord → Database → Database
apply r d =
    let s = get_or d.shards r.shard no_shard in
    set_shard d r.shard (record s {
      entries =
          if r.op == put_op
          then KvMap.put r.key r.value s.entries
          else KvMap.remove r.key s.entries;
    })

unfoldable pub same_record : WalRecord → WalRecord → Bool
same_record a b =
    a.op == b.op
    && a.sequence == b.sequence
    && a.shard == b.shard
    && a.key == b.key
    && a.value == b.value

-- One source record: it takes effect if it is committed and no snapshot has it.
unfoldable pub redo : WalRecord → Option WalRecord → Database → Result Database
unfolding apply same_record
redo r none d = ok d
redo r (some commit) d = do
  fail_if (not (same_record commit r)) log_mismatch
  let d' = apply r d
  ok (record d' { committed = if ltb d'.committed r.sequence then r.sequence else d'.committed })

unfoldable pub redo_all : ℕ → List WalRecord → List WalRecord → Database → Result Database
unfolding redo find_sequence
redo_all checkpoint commits [] d = ok d
redo_all checkpoint commits (r ∷ rs) d = do
  d' ← if leb r.sequence checkpoint then ok d else redo r (find_sequence r.sequence commits) d
  redo_all checkpoint commits rs d'

-- Every commit above the checkpoint has been seen: its number is that of a source record.
unfoldable pub check_seen : ℕ → List WalRecord → List WalRecord → Result (Unit {0})
unfolding find_sequence
check_seen checkpoint sources [] = ok tt
check_seen checkpoint sources (r ∷ rs) = do
  fail_if (ltb checkpoint r.sequence && not (is_found (find_sequence r.sequence sources)))
      no_source_record
  check_seen checkpoint sources rs

-- The records of one shard, in the order in which `sort.Slice` puts them: the sort is by bucket and
-- then by key, and records of one bucket are inserted one after the other, at rising indices.
unfoldable pub insert_by_bucket : Table → KvRecord → List KvRecord → List KvRecord
insert_by_bucket t r [] = r ∷ []
insert_by_bucket t r (x ∷ xs) =
    let rest = insert_by_bucket t r xs in
    if ltb (bucket t x.key) (bucket t r.key) || bucket t x.key == bucket t r.key && ltb x.key r.key
    then x ∷ rest
    else r ∷ x ∷ xs

unfoldable pub sort_by_bucket : Table → List KvRecord → List KvRecord
unfolding insert_by_bucket
sort_by_bucket t [] = []
sort_by_bucket t (r ∷ rs) = insert_by_bucket t r (sort_by_bucket t rs)

unfoldable pub fuse_records : ℕ → List ℕ → List KvRecord → Table → Result Table
fuse_records id indices [] t = ok t
fuse_records id indices (r ∷ rs) t = do
  let b = bucket t r.key
  t' ← KvTable.insert t (pos id) (pos (get_or indices b 0)) r.key r.value
  fuse_records id (modify indices b (λ i. i + 1)) rs t'

unfoldable pub fuse_shards : List Shard → Table → Result Table
unfolding sort_by_bucket fuse_records
fuse_shards [] t = ok t
fuse_shards (s ∷ ss) t = do
  t' ← fuse_records s.id (replicate default_bucket_count 0) (sort_by_bucket t s.entries) t
  fuse_shards ss t'

unfoldable pub rebuild_fusion : Database → Result Database
unfolding fuse_shards
rebuild_fusion d = do
  empty ← KvTable.new (pos (length d.shards)) (pos default_bucket_count)
  fusion ← fuse_shards d.shards empty
  ok (record d { fusion = fusion })

unfoldable pub attach_logs : List (List ℕ) → List Shard → List Shard
attach_logs logs [] = []
attach_logs [] (s ∷ ss) = s ∷ ss
attach_logs (log ∷ logs) (s ∷ ss) = record s { wal = some log } ∷ attach_logs logs ss

unfoldable pub open_database : Directory → ℤ → Result Database
unfolding load_checkpoint read_sources check_commits redo_all check_seen rebuild_fusion attach_logs
open_database files shard_count = do
  created ← new shard_count
  checkpoint ← files.checkpoint
  d ← load_checkpoint checkpoint files.snapshots created
  sources ← read_sources d 0 files.logs d.next
  commits ← replay files.fusion_log
  next ← check_commits [] commits sources.1
  redone ← redo_all d.checkpoint commits sources.0 (record d { next = next })
  check_seen d.checkpoint sources.0 commits
  opened ← rebuild_fusion redone
  ok (record opened {
    shards = attach_logs files.logs opened.shards;
    fusion_wal = some files.fusion_log;
  })
