-- ===== src/Tests/Snapshots.antt =====
-- A snapshot of two records, a checkpoint that replaces another one, and `Snapshot` with a failure.
use vada_db.Common.{
  ℕ, zero, suc, ◌==◌, ◌≢◌, if◌then◌else◌, length, ◌<◌, ◌^◌, ◌≡◌, ◌⊎◌, refl, true, false, none, some,
  [], ◌∷◌, arith,
}
use vada_db.Result.{ok, err, io_failed, duplicate_key}
use vada_db.KvTable.{sort}
use vada_db.Snapshots.{
  FileOutcome, Snapshot, CheckpointOutcome, snapshot_bytes, load_snapshot, load_checkpoint_file,
  write_checkpoint, checkpoint_bytes,
}
use vada_db.Snapshots.Codec.{load_snapshot-snapshot_bytes}
use vada_db.KvMap.{IsSorted}
use vada_db.Database.{Database}
use vada_db.Database.Models.{shard}
use vada_db.Database.Snapshotting.{Store, SnapshotOutcome, any_failed, snapshot}
use vada_db.Database.Snapshotting.Loading.{Loads, Stays, snapshot-Loads}
use vada_db.Tests.Databases.{three_shards}
use vada_db.Snapshots.Codec.{AreWords}
use vada_db.Snapshots.Checkpoint.{load-write_checkpoint}

abbrev two_records : Snapshot
two_records = record {
  sequence = 7;
  records = record { key = 53; value = 3 } ∷ record { key = 5; value = 70 } ∷ [];
}

abbrev one_key_twice : Snapshot
one_key_twice = record {
  sequence = 7;
  records = record { key = 5; value = 3 } ∷ record { key = 5; value = 70 } ∷ [];
}

-- The loop refuses a key that stands twice.
one_key_twice-refused : load_snapshot (snapshot_bytes one_key_twice) ≡ err duplicate_key
unfolding load_snapshot snapshot_bytes sort
one_key_twice-refused = refl

load_snapshot-snapshot_bytes_example :
    load_snapshot (snapshot_bytes two_records)
    ≡ ok (record { sequence = 7; records = sort two_records.records })
unfolding sort
load_snapshot-snapshot_bytes_example =
    load_snapshot-snapshot_bytes two_records (omega arith) (omega arith)
      (omega arith, omega arith, (omega arith, omega arith, tt)) ((omega arith, tt), (tt, tt))

-- The file system refuses the first rename, but not to remove the file.
abbrev renamed_again : CheckpointOutcome
renamed_again = record {
  file = record {
    open_fails = false;
    write = record { written = 12; write_fails = false; sync_fails = false };
    close_fails = false;
  };
  rename_fails = true;
  remove_fails = false;
  second_rename_fails = false;
}

load-write_checkpoint_example :
    let o = write_checkpoint 9 renamed_again (none, some (checkpoint_bytes 4)) in
    ((o.0 ≡ ok tt) × (load_checkpoint_file o.1.1 ≡ ok (some 9)))
    ⊎ ((o.0 ≡ err io_failed)
        × ((o.1.1 ≡ some (checkpoint_bytes 4)) ⊎ ((true ≡ true) × (o.1.1 ≡ none))))
load-write_checkpoint_example =
    load-write_checkpoint 9 renamed_again none (some (checkpoint_bytes 4)) (omega arith)

-- The shards' maps after a few writes, the last of which has the number 5.
abbrev written_shards : Database
written_shards = record three_shards {
  shards =
      record {
        id = 0;
        entries = record { key = 6; value = 9 } ∷ record { key = 12; value = 1 } ∷ [];
        wal = some [];
        failed = false;
      }
      ∷ record { id = 1; entries = []; wal = some []; failed = false }
      ∷ record {
        id = 2;
        entries = record { key = 5; value = 70 } ∷ [];
        wal = some [];
        failed = false;
      }
      ∷ [];
  committed = 5;
  checkpoint = 3;
  has_snapshot = true;
}

abbrev good_file : FileOutcome
good_file = record {
  open_fails = false;
  write = record { written = 1000; write_fails = false; sync_fails = false };
  close_fails = false;
}

-- The file of shard 2 is not closed without an error.
abbrev late_failure : SnapshotOutcome
late_failure = record {
  shards = λ id. record { remove_fails = false; file = record good_file { close_fails = id == 2 } };
  checkpoint = renamed_again;
}

abbrev old_store : Store
old_store = record {
  snapshots = λ q j. if q == 3 then some [] else none;
  temporary = none;
  checkpoint = some (checkpoint_bytes 3);
}

written_few : (i : ℕ) → i < 3 → length (shard written_shards i).entries < 2 ^ 64
written_few zero h = omega arith
written_few (suc zero) h = omega arith
written_few (suc (suc zero)) h = omega arith
written_few (suc (suc (suc i))) h = absurd (omega arith)

written-AreWords : (i : ℕ) → i < 3 → AreWords (shard written_shards i).entries
written-AreWords zero h = (omega arith, omega arith, (omega arith, omega arith, tt))
written-AreWords (suc zero) h = tt
written-AreWords (suc (suc zero)) h = (omega arith, omega arith, tt)
written-AreWords (suc (suc (suc i))) h = absurd (omega arith)

written-IsSorted : (i : ℕ) → i < 3 → IsSorted (shard written_shards i).entries
written-IsSorted zero h = ((omega arith, tt), (tt, tt))
written-IsSorted (suc zero) h = tt
written-IsSorted (suc (suc zero)) h = (tt, tt)
written-IsSorted (suc (suc (suc i))) h = absurd (omega arith)

written_up : any_failed written_shards.shards ≡ false
unfolding any_failed
written_up = refl

snapshot-Loads_example :
    let o = snapshot true late_failure written_shards old_store in
    (((o.0 ≡ ok tt) × Loads written_shards o.2)
      ⊎ ((o.0 ≡ err io_failed) × Stays late_failure old_store o.2))
    × ((q j : ℕ) → q ≢ 5 → o.2.snapshots q j ≡ old_store.snapshots q j)
snapshot-Loads_example =
    snapshot-Loads late_failure written_shards old_store (omega arith) written_few written-AreWords
      written-IsSorted written_up refl
