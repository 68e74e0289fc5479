-- ===== src/Snapshots.antt =====
-- storage/snapshot.go: the files of a snapshot and of the checkpoint. A file is its bytes, or missing.
pub mod Codec
pub mod Checkpoint
use vada_db.Common.{
  ℕ, zero, suc, ◌+◌, ◌-◌, ◌*◌, ◌/◌, ◌%◌, ◌^◌, Bool, true, false, ◌||◌, Option, none, some, List, [],
  ◌∷◌, ◌++◌, length, get_or, drop, ltb, ◌==◌, if◌then◌else◌,
}
use mathlib.Core.Bool.{not, ◌&&◌}
use vada_db.Bytes.{be_bytes, be_value, slice}
use vada_db.Result.{
  Result, ok, err, panic, ◌>>=◌, ◌>>◌, fail_if, io_failed, invalid_header, invalid_length,
  duplicate_key, invalid_checkpoint,
}
use vada_db.KvBucket.{KvRecord}
use vada_db.KvTable.{sort}
use vada_db.Wal.{WriteOutcome, write_bytes, starts_with}

-- `SnapshotRecord` has the fields of `KVRecord`.
pub record Snapshot : Type 0 where
  pub sequence : ℕ
  pub records : List KvRecord

abbrev pub snapshot_header_size : ℕ
snapshot_header_size = 24

abbrev pub snapshot_magic : List ℕ
snapshot_magic = b'V' ∷ b'D' ∷ b'S' ∷ b'1' ∷ []

abbrev pub checkpoint_magic : List ℕ
checkpoint_magic = b'V' ∷ b'D' ∷ b'C' ∷ b'1' ∷ []

unfoldable pub records_bytes : List KvRecord → List ℕ
unfolding be_bytes
records_bytes [] = []
records_bytes (r ∷ rs) = be_bytes 8 r.key ++ be_bytes 8 r.value ++ records_bytes rs

-- The bytes that `WriteSnapshot` puts together, the records in the order of their keys.
unfoldable pub snapshot_bytes : Snapshot → List ℕ
unfolding be_bytes records_bytes
snapshot_bytes s =
    snapshot_magic
    ++ (1 ∷ 0 ∷ 0 ∷ 0 ∷ [])
    ++ be_bytes 8 s.sequence
    ++ be_bytes 8 (length s.records)
    ++ records_bytes (sort s.records)

unfoldable pub has_key : ℕ → List KvRecord → Bool
has_key key [] = false
has_key key (r ∷ rs) = r.key == key || has_key key rs

-- The loop of `LoadSnapshot` from an offset on; `seen` are the records before it.
unfoldable pub load_loop : ℕ → List KvRecord → List ℕ → Result (List KvRecord)
unfolding be_value has_key
load_loop zero seen bytes = ok []
load_loop (suc count) seen bytes =
    let r : KvRecord = record {
      key = be_value 0 (slice 0 8 bytes);
      value = be_value 0 (slice 8 8 bytes);
    } in
    let rest = load_loop count (r ∷ seen) (drop 16 bytes) in
    if has_key r.key seen then err duplicate_key else (rest >>= λ rs. ok (r ∷ rs))

-- `LoadSnapshot` of a file that can be read.
unfoldable pub load_snapshot : List ℕ → Result Snapshot
unfolding be_value load_loop
load_snapshot bytes = do
  fail_if
      (ltb (length bytes) snapshot_header_size
        || not (starts_with snapshot_magic bytes)
        || not (get_or bytes 4 0 == 1))
      invalid_header
  let count = be_value 0 (slice 16 8 bytes)
  fail_if
      (ltb ((length bytes - snapshot_header_size) / 16) count
        || not (snapshot_header_size + count * 16 == length bytes))
      invalid_length
  records ← load_loop count [] (drop snapshot_header_size bytes)
  ok (record { sequence = be_value 0 (slice 8 8 bytes); records = records })

-- What the file system makes of one `writeFile`.
pub record FileOutcome : Type 0 where
  pub open_fails : Bool
  pub write : WriteOutcome
  pub close_fails : Bool

abbrev exists : Option (List ℕ) → Bool
exists none = false
exists (some file) = true

-- `writeFile` with `os.O_EXCL`, where a file that exists is an error, or else with `os.O_TRUNC`
unfoldable pub write_file :
    Bool → List ℕ → FileOutcome → Option (List ℕ) → Result (Unit {0}) × Option (List ℕ)
write_file exclusive bytes io file =
    let (result, file') = write_bytes bytes io.write [] in
    if io.open_fails || exclusive && exists file
    then (err io_failed, file)
    else (result >> fail_if io.close_fails io_failed, some file')

unfoldable pub write_snapshot :
    Snapshot → FileOutcome → Option (List ℕ) → Result (Unit {0}) × Option (List ℕ)
unfolding snapshot_bytes write_file
write_snapshot s io file = write_file true (snapshot_bytes s) io file

unfoldable pub checkpoint_bytes : ℕ → List ℕ
unfolding be_bytes
checkpoint_bytes sequence = checkpoint_magic ++ be_bytes 8 sequence

-- `LoadCheckpoint` of a file that can be read, or is missing.
unfoldable pub load_checkpoint_file : Option (List ℕ) → Result (Option ℕ)
unfolding be_value
load_checkpoint_file none = ok none
load_checkpoint_file (some bytes) = do
  fail_if (not (length bytes == 12) || not (starts_with checkpoint_magic bytes)) invalid_checkpoint
  ok (some (be_value 0 (drop 4 bytes)))

-- What the file system makes of `WriteCheckpoint`: a rename that fails changes nothing.
pub record CheckpointOutcome : Type 0 where
  pub file : FileOutcome
  pub rename_fails : Bool
  pub remove_fails : Bool
  pub second_rename_fails : Bool

-- The file beside it, which `rename` moves, and the checkpoint file.
abbrev pub Files : Type 0
Files = Option (List ℕ) × Option (List ℕ)

abbrev replace_file : CheckpointOutcome → Files → Result (Unit {0}) × Files
replace_file io (temporary, file) =
    if not io.rename_fails
    then (ok tt, (none, temporary))
    else if io.remove_fails
    then (err io_failed, (temporary, file))
    else if io.second_rename_fails
    then (err io_failed, (temporary, none))
    else (ok tt, (none, temporary))

abbrev after_write : Result (Unit {0}) → CheckpointOutcome → Files → Result (Unit {0}) × Files
after_write (ok _) io files = replace_file io files
after_write (err e) io files = (err e, files)
after_write panic io files = (panic, files)

unfoldable pub write_checkpoint : ℕ → CheckpointOutcome → Files → Result (Unit {0}) × Files
unfolding checkpoint_bytes write_file
write_checkpoint sequence io files =
    let (result, temporary) = write_file false (checkpoint_bytes sequence) io.file files.0 in
    after_write result io (temporary, files.1)
