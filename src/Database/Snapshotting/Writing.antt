-- ===== src/Database/Snapshotting/Writing.antt =====
-- The loop of `Snapshot`: each shard has its file then, and no other file has changed.

use native.Mathlib.Nat.{add-zero}
use vada_db.Common.{
  ℕ, zero, suc, ◌+◌, ◌<◌, ◌≡◌, ◌≢◌, ◌⊎◌, refl, ap, ◌∙◌, Option, none, some, List, [], ◌∷◌, length,
  get_or, ==_refl, Bool-cases, arith, inl, inr,
}
use vada_db.Result.{Result, ok, err, panic, io_failed}
use vada_db.Snapshots.{Snapshot, snapshot_bytes, write_snapshot}
use vada_db.Snapshots.Checkpoint.{write_snapshot_cases}
use vada_db.Database.{Shard, no_shard}
use vada_db.Database.Snapshotting.{
  SnapshotFiles, ShardOutcome, with_file, after_shard, snapshot_shards,
}

module _ (sequence : ℕ) (io : ℕ → ShardOutcome) where
  -- The files of other numbers, and of the shards before `id`, stay.
  kept_after :
      (r : Result (Unit {0})) (written files : SnapshotFiles)
      (rest : Result (Unit {0}) × SnapshotFiles) (q j : ℕ)
      → rest.1 q j ≡ files q j
      → written q j ≡ files q j
      → (after_shard r written rest).1 q j ≡ files q j
  kept_after (ok _) written files rest q j a b = a
  kept_after (err e) written files rest q j a b = b
  kept_after panic written files rest q j a b = b

  with_file_ne :
      (id : ℕ) (file : Option (List ℕ)) (files : SnapshotFiles) (q j : ℕ)
      → (q ≢ sequence) ⊎ (j < id)
      → with_file sequence id file files q j ≡ files q j
  with_file_ne id file files q j (inl ne) = ground arith
  with_file_ne id file files q j (inr h) = ground arith

  abbrev pub of_shard : Shard → Snapshot
  of_shard s = record { sequence = sequence; records = s.entries }

  pub snapshot_shards-kept :
      (id : ℕ) (ss : List Shard) (files : SnapshotFiles) (q j : ℕ)
      → (q ≢ sequence) ⊎ (j < id)
      → (snapshot_shards sequence id io ss files).1 q j ≡ files q j
  unfolding snapshot_shards
  snapshot_shards-kept id [] files q j h = refl
  snapshot_shards-kept id (s ∷ ss) files q j h =
      let w = write_snapshot (of_shard s) (io id).file none in
      let written = with_file sequence id w.1 files in
      let same : written q j ≡ files q j = with_file_ne id w.1 files q j h in
      elim (Bool-cases (io id).remove_fails) [
        | inl e ↦ rw e refl
        | inr e ↦ rw e (
            kept_after w.0 written files (snapshot_shards sequence (id + 1) io ss written) q j
              (snapshot_shards-kept (id + 1) ss written q j (later h) ∙ same) same)
      ]
    where
      later : (q ≢ sequence) ⊎ (j < id) → (q ≢ sequence) ⊎ (j < id + 1)
      later (inl ne) = inl ne
      later (inr k) = inr (omega arith)

  -- Each shard has its file, or the loop has stopped with an error.
  abbrev pub Written : ℕ → List Shard → Result (Unit {0}) × SnapshotFiles → Type 0
  Written id ss o =
      ((o.0 ≡ ok tt)
        × ((i : ℕ)
            → i < length ss
            → o.1 sequence (id + i) ≡ some (snapshot_bytes (of_shard (get_or ss i no_shard)))))
      ⊎ (o.0 ≡ err io_failed)

  pub snapshot_shards-Written :
      (id : ℕ) (ss : List Shard) (files : SnapshotFiles)
      → Written id ss (snapshot_shards sequence id io ss files)
  unfolding snapshot_shards
  snapshot_shards-Written id [] files = inl (refl, λ i h. absurd (omega arith))
  snapshot_shards-Written id (s ∷ ss) files = elim (Bool-cases (io id).remove_fails) [
    | inl e ↦ inr (rw e refl)
    | inr e ↦ elim (write_snapshot_cases (of_shard s) (io id).file) [
      | inr f ↦ inr (rw (e, f) refl)
      | inl f ↦
          let written : SnapshotFiles =
            with_file sequence id (some (snapshot_bytes (of_shard s))) files in
          rw (e, f)
            (one_more written (ground (arith, ==_refl sequence, ==_refl id))
              (snapshot_shards-kept (id + 1) ss written sequence id (inr (omega arith)))
              (snapshot_shards-Written (id + 1) ss written))
    ]
  ]
    where
      one_more :
          (written : SnapshotFiles)
          → written sequence id ≡ some (snapshot_bytes (of_shard s))
          → (snapshot_shards sequence (id + 1) io ss written).1 sequence id ≡ written sequence id
          → Written (id + 1) ss (snapshot_shards sequence (id + 1) io ss written)
          → Written id (s ∷ ss) (snapshot_shards sequence (id + 1) io ss written)
      one_more written here kept (inr e) = inr e
      one_more written here kept (inl (e, each)) = inl (e, λ i h. at_index i h)
        where
          at_index :
              (i : ℕ)
              → i < suc (length ss)
              → (snapshot_shards sequence (id + 1) io ss written).1 sequence (id + i)
                ≡ some (snapshot_bytes (of_shard (get_or (s ∷ ss) i no_shard)))
          at_index zero h =
              ap (λ k. (snapshot_shards sequence (id + 1) io ss written).1 sequence k) (add-zero id)
              ∙ kept
              ∙ here
          at_index (suc i) h =
              ap (λ k. (snapshot_shards sequence (id + 1) io ss written).1 sequence k)
                {x = id + suc i} {y = id + 1 + i} (omega arith)
              ∙ each i (omega arith)
