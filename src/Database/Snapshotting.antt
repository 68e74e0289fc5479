-- ===== src/Database/Snapshotting.antt =====
-- db/database.go: `Snapshot` writes a file for each shard, and then the checkpoint.
pub mod Writing
pub mod Loading
use vada_db.Common.{
  ℕ, ◌+◌, Bool, true, false, ◌&&◌, ◌||◌, Option, none, List, [], ◌∷◌, ◌==◌, if◌then◌else◌,
}
use mathlib.Core.Bool.{not}
use vada_db.Result.{Result, ok, err, panic, io_failed, no_directory, shard_unavailable}
use vada_db.Snapshots.{FileOutcome, CheckpointOutcome, write_snapshot, write_checkpoint}
use vada_db.Database.{Shard, Database}

-- The snapshot files by the sequence number and the shard in their names.
abbrev pub SnapshotFiles : Type 0
SnapshotFiles = ℕ → ℕ → Option (List ℕ)

-- What `Snapshot` writes: the snapshots, the checkpoint, and the file that is renamed to the checkpoint.
pub record Store : Type 0 where
  pub snapshots : SnapshotFiles
  pub temporary : Option (List ℕ)
  pub checkpoint : Option (List ℕ)

-- What the file system makes of the steps for one shard. A file that is missing is removed.
pub record ShardOutcome : Type 0 where
  pub remove_fails : Bool
  pub file : FileOutcome

pub record SnapshotOutcome : Type 0 where
  pub shards : ℕ → ShardOutcome
  pub checkpoint : CheckpointOutcome

abbrev pub with_file : ℕ → ℕ → Option (List ℕ) → SnapshotFiles → SnapshotFiles
with_file sequence id file files q i = if q == sequence && i == id then file else files q i

abbrev pub after_shard :
    Result (Unit {0})
    → SnapshotFiles
    → Result (Unit {0}) × SnapshotFiles
    → Result (Unit {0}) × SnapshotFiles
after_shard (ok _) files rest = rest
after_shard (err e) files rest = (err e, files)
after_shard panic files rest = (panic, files)

-- The loop over the shards from `id` on: the old file is removed, and the new one written.
unfoldable pub snapshot_shards :
    ℕ → ℕ → (ℕ → ShardOutcome) → List Shard → SnapshotFiles → Result (Unit {0}) × SnapshotFiles
snapshot_shards sequence id io [] files = (ok tt, files)
snapshot_shards sequence id io (s ∷ ss) files =
    let (result, file) =
      write_snapshot (record { sequence = sequence; records = s.entries }) (io id).file none in
    let written = with_file sequence id file files in
    let rest = snapshot_shards sequence (id + 1) io ss written in
    if (io id).remove_fails then (err io_failed, files) else after_shard result written rest

unfoldable pub any_failed : List Shard → Bool
any_failed [] = false
any_failed (s ∷ ss) = s.failed || any_failed ss

abbrev pub after_checkpoint :
    Result (Unit {0}) → Database → Store → Result (Unit {0}) × Database × Store
after_checkpoint (ok _) d store =
    (ok tt, record d { checkpoint = d.committed; has_snapshot = true }, store)
after_checkpoint (err e) d store = (err e, d, store)
after_checkpoint panic d store = (panic, d, store)

abbrev pub after_shards :
    Result (Unit {0}) × SnapshotFiles
    → CheckpointOutcome
    → Database
    → Store
    → Result (Unit {0}) × Database × Store
after_shards (ok _, files) io d store =
    let (result, (temporary, file)) =
      write_checkpoint d.committed io (store.temporary, store.checkpoint) in
    after_checkpoint result d
      (record { snapshots = files; temporary = temporary; checkpoint = file })
after_shards (err e, files) io d store = (err e, d, record store { snapshots = files })
after_shards (panic, files) io d store = (panic, d, record store { snapshots = files })

-- `has_dir`: the database has a directory.
unfoldable pub snapshot :
    Bool → SnapshotOutcome → Database → Store → Result (Unit {0}) × Database × Store
unfolding snapshot_shards any_failed
snapshot has_dir io d store =
    if not has_dir
    then (err no_directory, d, store)
    else if any_failed d.shards
    then (err shard_unavailable, d, store)
    else if d.has_snapshot && d.checkpoint == d.committed
    then (ok tt, d, store)
    else after_shards (snapshot_shards d.committed 0 io.shards d.shards store.snapshots)
        io.checkpoint d store
