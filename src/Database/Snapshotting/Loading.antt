-- ===== src/Database/Snapshotting/Loading.antt =====
-- After `Snapshot`: what `LoadCheckpoint` and `LoadSnapshot` read from the files.
use mathlib.Core.Path.{subst}
use vada_db.Common.{
  ℕ, ◌+◌, ◌^◌, ◌<◌, ◌≡◌, ◌≢◌, ◌⊎◌, refl, ap, sym, ◌∙◌, true, false, ◌&&◌, Option, none, some, List,
  length, ◌==◌, arith, inl, inr,
}
use vada_db.Result.{Result, ok, err, panic, io_failed}
use vada_db.KvMap.{IsSorted}
use vada_db.KvTable.{sort}
use vada_db.KvTable.Sorting.{sort-IsSorted}
use vada_db.Snapshots.{snapshot_bytes, load_snapshot, load_checkpoint_file}
use vada_db.Snapshots.Codec.{AreWords, load_snapshot-snapshot_bytes}
use vada_db.Snapshots.Checkpoint.{load-write_checkpoint}
use vada_db.Database.{Database}
use vada_db.Database.Models.{shard}
use vada_db.Database.Snapshotting.{
  SnapshotFiles, Store, SnapshotOutcome, snapshot_shards, any_failed, after_checkpoint,
  after_shards, snapshot,
}
use vada_db.Database.Snapshotting.Writing.{
  of_shard, snapshot_shards-kept, Written, snapshot_shards-Written,
}

-- The checkpoint has the number of the last commit, and the snapshot of shard `i` under this number
-- has its map.
abbrev pub Loads : Database → Store → Type 0
Loads d after =
    (load_checkpoint_file after.checkpoint ≡ ok (some d.committed))
    × ((i : ℕ)
        → i < length d.shards
        → (bytes : List ℕ) × (after.snapshots d.committed i ≡ some bytes)
          × (load_snapshot bytes
              ≡ ok (record { sequence = d.committed; records = (shard d i).entries })))

-- The checkpoint is the old one, or missing where a rename was refused.
abbrev pub Stays : SnapshotOutcome → Store → Store → Type 0
Stays io before after =
    (after.checkpoint ≡ before.checkpoint)
    ⊎ ((io.checkpoint.rename_fails ≡ true) × (after.checkpoint ≡ none))

module _ (io : SnapshotOutcome) (d : Database) (store : Store) (word : d.committed < 2 ^ 64)
    (few : (i : ℕ) → i < length d.shards → length (shard d i).entries < 2 ^ 64)
    (words : (i : ℕ) → i < length d.shards → AreWords (shard d i).entries)
    (sorted : (i : ℕ) → i < length d.shards → IsSorted (shard d i).entries) where
  abbrev Safe : Result (Unit {0}) × Database × Store → Type 0
  Safe o = ((o.0 ≡ ok tt) × Loads d o.2) ⊎ ((o.0 ≡ err io_failed) × Stays io store o.2)

  loads_shard :
      (i : ℕ)
      → i < length d.shards
      → load_snapshot (snapshot_bytes (of_shard d.committed io.shards (shard d i)))
        ≡ ok (record { sequence = d.committed; records = (shard d i).entries })
  loads_shard i h =
      let same : sort (shard d i).entries ≡ (shard d i).entries =
        sort-IsSorted (shard d i).entries (sorted i h) in
      load_snapshot-snapshot_bytes (of_shard d.committed io.shards (shard d i)) word (few i h)
        (subst AreWords (sym same) (words i h)) (subst IsSorted (sym same) (sorted i h))
      ∙ ap (λ l. ok (record { sequence = d.committed; records = l })) same

  checkpoint-Safe :
      (files : SnapshotFiles) (r : Result (Unit {0})) (temporary file : Option (List ℕ))
      → ((i : ℕ)
          → i < length d.shards
          → files d.committed (0 + i)
            ≡ some (snapshot_bytes (of_shard d.committed io.shards (shard d i))))
      → ((r ≡ ok tt) × (load_checkpoint_file file ≡ ok (some d.committed)))
        ⊎ ((r ≡ err io_failed)
            × ((file ≡ store.checkpoint) ⊎ ((io.checkpoint.rename_fails ≡ true) × (file ≡ none))))
      → Safe (
          after_checkpoint r d
            (record { snapshots = files; temporary = temporary; checkpoint = file }))
  checkpoint-Safe files (ok _) temporary file each (inl (e, loads)) = inl (
    refl,
    (
      loads,
      λ i h. (
        snapshot_bytes (of_shard d.committed io.shards (shard d i)),
        ap (files d.committed) {x = i} {y = 0 + i} (omega arith) ∙ each i h,
        loads_shard i h,
      ),
    ),
  )
  checkpoint-Safe files (ok _) temporary file each (inr (e, stays)) = absurd (ground arith)
  checkpoint-Safe files (err x) temporary file each (inl (e, loads)) = absurd (ground arith)
  checkpoint-Safe files (err x) temporary file each (inr (e, stays)) = inr (e, stays)
  checkpoint-Safe files panic temporary file each (inl (e, loads)) = absurd (ground arith)
  checkpoint-Safe files panic temporary file each (inr (e, stays)) = absurd (ground arith)

  shards-Safe :
      (p : Result (Unit {0}) × SnapshotFiles)
      → Written d.committed io.shards 0 d.shards p
      → Safe (after_shards p io.checkpoint d store)
  shards-Safe (ok _, files) (inl (e, each)) =
      checkpoint-Safe files _ _ _ each
        (load-write_checkpoint d.committed io.checkpoint store.temporary store.checkpoint word)
  shards-Safe (ok _, files) (inr e) = absurd (ground arith)
  shards-Safe (err x, files) (inl (e, each)) = absurd (ground arith)
  shards-Safe (err x, files) (inr e) = inr (e, inl refl)
  shards-Safe (panic, files) (inl (e, each)) = absurd (ground arith)
  shards-Safe (panic, files) (inr e) = absurd (ground arith)

  shards_kept :
      (p : Result (Unit {0}) × SnapshotFiles) (q j : ℕ)
      → p.1 q j ≡ store.snapshots q j
      → (after_shards p io.checkpoint d store).2.snapshots q j ≡ store.snapshots q j
  shards_kept (ok _, files) q j e = by_result _ _ _
    where
      by_result :
          (r : Result (Unit {0})) (temporary file : Option (List ℕ))
          → (after_checkpoint r d (record {
            snapshots = files;
            temporary = temporary;
            checkpoint = file;
          })).2.snapshots
              q j
            ≡ store.snapshots q j
      by_result (ok _) temporary file = e
      by_result (err x) temporary file = e
      by_result panic temporary file = e
  shards_kept (err x, files) q j e = e
  shards_kept (panic, files) q j e = e

  -- `Snapshot` of a database with a directory, whose shards are all up, with maps of 64-bit numbers, and
  -- which has committed more than its last snapshot holds: whatever the file system refuses, it returns
  -- no error, and then `LoadCheckpoint` reads the number of the last commit and `LoadSnapshot` each
  -- shard's map; or it returns an error, and the checkpoint file is as it was, or, if a rename was
  -- refused, it may be missing. The snapshots of other numbers stay, so a checkpoint of one of them
  -- still has its files.
  pub snapshot-Loads :
      any_failed d.shards ≡ false
      → (d.has_snapshot && d.checkpoint == d.committed) ≡ false
      → let o = snapshot true io d store in
        (((o.0 ≡ ok tt) × Loads d o.2) ⊎ ((o.0 ≡ err io_failed) × Stays io store o.2))
        × ((q j : ℕ) → q ≢ d.committed → o.2.snapshots q j ≡ store.snapshots q j)
  unfolding snapshot
  snapshot-Loads up fresh =
      rw (up, fresh)
        (
          shards-Safe _ (snapshot_shards-Written d.committed io.shards 0 d.shards store.snapshots),
          λ q j ne.
              shards_kept (snapshot_shards d.committed 0 io.shards d.shards store.snapshots) q j (
                snapshot_shards-kept d.committed io.shards 0 d.shards store.snapshots q j (inl ne)),
        )
