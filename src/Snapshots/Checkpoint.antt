-- ===== src/Snapshots/Checkpoint.antt =====
-- The checkpoint file is replaced as a whole, whatever the file system refuses.
use vada_db.Common.{
  ℕ, ◌^◌, ◌<◌, ◌≡◌, ◌⊎◌, refl, ap, sym, true, false, ◌||◌, Option, none, some, List, [], length,
  ltb, Bool-cases, arith, inl, inr,
}
use vada_db.Bytes.{be_bytes, be_value-be_bytes_8}
use vada_db.Result.{Result, ok, err, io_failed}
use vada_db.Wal.{WriteOutcome, write_bytes}
use vada_db.Wal.Replay.{take_all}
use mathlib.Core.Path.{subst}
use vada_db.Snapshots.{
  Snapshot, snapshot_bytes, write_snapshot, FileOutcome, CheckpointOutcome, Files, replace_file,
  after_write, write_file, checkpoint_bytes, load_checkpoint_file, write_checkpoint,
}

-- `LoadCheckpoint` reads what `WriteCheckpoint` has put together.
load-checkpoint_bytes :
    (sequence : ℕ)
    → sequence < 2 ^ 64
    → load_checkpoint_file (some (checkpoint_bytes sequence)) ≡ ok (some sequence)
unfolding load_checkpoint_file checkpoint_bytes be_bytes
load-checkpoint_bytes sequence h = ap (λ q. ok (some q)) (be_value-be_bytes_8 sequence h)

-- A write without an error gets all bytes into the file; one with an error says so.
write_bytes_cases :
    (bytes : List ℕ) (io : WriteOutcome)
    → (write_bytes bytes io [] ≡ (ok tt, bytes)) ⊎ ((write_bytes bytes io []).0 ≡ err io_failed)
unfolding write_bytes
write_bytes_cases bytes io = elim (Bool-cases (io.write_fails || ltb io.written (length bytes))) [
  | inl e ↦ inr (rw e refl)
  | inr e ↦ elim (Bool-cases io.sync_fails) [
    | inl f ↦ inr (rw (e, f) refl)
    | inr f ↦ inl (rw (e, f, take_all io.written bytes (ground arith)) refl)
  ]
]

write_file_cases :
    (bytes : List ℕ) (io : FileOutcome) (file : Option (List ℕ))
    → (write_file false bytes io file ≡ (ok tt, some bytes))
      ⊎ ((write_file false bytes io file).0 ≡ err io_failed)
unfolding write_file
write_file_cases bytes io file = elim (Bool-cases io.open_fails) [
  | inl e ↦ inr (rw e refl)
  | inr e ↦ elim (write_bytes_cases bytes io.write) [
    | inr f ↦ inr (rw (e, f) refl)
    | inl f ↦ elim (Bool-cases io.close_fails) [
      | inl g ↦ inr (rw (e, f, g) refl)
      | inr g ↦ inl (rw (e, f, g) refl)
    ]
  ]
]

-- A snapshot is written into a new file, as a whole, or with an error.
pub write_snapshot_cases :
    (s : Snapshot) (io : FileOutcome)
    → (write_snapshot s io none ≡ (ok tt, some (snapshot_bytes s)))
      ⊎ ((write_snapshot s io none).0 ≡ err io_failed)
unfolding write_snapshot write_file
write_snapshot_cases s io = write_file_cases (snapshot_bytes s) io none

-- `WriteCheckpoint`, whatever the file system makes of its steps: if it succeeds, `LoadCheckpoint` reads
-- the sequence number; if it fails, it returns an error, and the checkpoint file is as it was, or, if a
-- rename was refused, it may be missing.
pub load-write_checkpoint :
    (sequence : ℕ) (io : CheckpointOutcome) (temporary file : Option (List ℕ))
    → sequence < 2 ^ 64
    → let o = write_checkpoint sequence io (temporary, file) in
      ((o.0 ≡ ok tt) × (load_checkpoint_file o.1.1 ≡ ok (some sequence)))
      ⊎ ((o.0 ≡ err io_failed) × ((o.1.1 ≡ file) ⊎ ((io.rename_fails ≡ true) × (o.1.1 ≡ none))))
unfolding write_checkpoint
load-write_checkpoint sequence io temporary file h =
    by_write (write_file_cases (checkpoint_bytes sequence) io.file temporary)
  where
    Safe : Result (Unit {0}) × Files → Type 0
    Safe o =
        ((o.0 ≡ ok tt) × (load_checkpoint_file o.1.1 ≡ ok (some sequence)))
        ⊎ ((o.0 ≡ err io_failed) × ((o.1.1 ≡ file) ⊎ ((io.rename_fails ≡ true) × (o.1.1 ≡ none))))

    replaced : Safe (replace_file io (some (checkpoint_bytes sequence), file))
    replaced = elim (Bool-cases io.rename_fails) [
      | inr e ↦ rw e (inl (refl, load-checkpoint_bytes sequence h))
      | inl e ↦ elim (Bool-cases io.remove_fails) [
        | inl f ↦ rw (e, f) (inr (refl, inl refl))
        | inr f ↦ elim (Bool-cases io.second_rename_fails) [
          | inl g ↦ rw (e, f, g) (inr (refl, inr (refl, refl)))
          | inr g ↦ rw (e, f, g) (inl (refl, load-checkpoint_bytes sequence h))
        ]
      ]
    ]

    written : Result (Unit {0}) × Option (List ℕ) → Result (Unit {0}) × Files
    written w = after_write w.0 io (w.1, file)

    failed : (w : Result (Unit {0}) × Option (List ℕ)) → w.0 ≡ err io_failed → Safe (written w)
    failed w e = rw e (inr (refl, inl refl))

    by_write :
        (write_file false (checkpoint_bytes sequence) io.file temporary
            ≡ (ok tt, some (checkpoint_bytes sequence)))
          ⊎ ((write_file false (checkpoint_bytes sequence) io.file temporary).0 ≡ err io_failed)
        → Safe (written (write_file false (checkpoint_bytes sequence) io.file temporary))
    by_write (inl e) = subst (λ w. Safe (written w)) (sym e) replaced
    by_write (inr e) = failed (write_file false (checkpoint_bytes sequence) io.file temporary) e
