-- ===== src/Wal.antt =====
-- storage/wal.go: the write-ahead log. A log file is its bytes.
pub mod Codec
pub mod Replay
use vada_db.Common.{
  ℕ, zero, suc, ◌-◌, Bool, true, false, ◌||◌, List, [], ◌∷◌, ◌++◌, length, get_or, take, drop, ltb,
  ◌==◌, if◌then◌else◌,
}
use mathlib.Core.Bool.{not, ◌&&◌}
use vada_db.Bytes.{be_bytes, be_value, slice}
use vada_db.Result.{
  Result, ok, err, panic, ◌>>=◌, ◌>>◌, fail_if, io_failed, invalid_operation, invalid_header,
}

-- The values of the type `Operation`: `Put` and `Delete`.
abbrev pub put_op : ℕ
put_op = 1

abbrev pub delete_op : ℕ
delete_op = 2

abbrev pub record_size : ℕ
record_size = 40

abbrev pub magic : List ℕ
magic = b'V' ∷ b'D' ∷ b'B' ∷ b'1' ∷ []

pub record WalRecord : Type 0 where
  pub op : ℕ
  pub sequence : ℕ
  pub shard : ℕ
  pub key : ℕ
  pub value : ℕ

abbrev pub is_operation : ℕ → Bool
is_operation op = op == put_op || op == delete_op

-- `data` starts as zeros: the bytes that nothing is copied to stay 0.
unfoldable pub record_bytes : WalRecord → List ℕ
unfolding be_bytes
record_bytes r =
    magic
    ++ (1 ∷ r.op ∷ 0 ∷ 0 ∷ [])
    ++ be_bytes 8 r.sequence
    ++ be_bytes 4 r.shard
    ++ (0 ∷ 0 ∷ 0 ∷ 0 ∷ [])
    ++ be_bytes 8 r.key
    ++ be_bytes 8 r.value

unfoldable pub encode_record : WalRecord → Result (List ℕ)
unfolding record_bytes
encode_record r = do fail_if (not (is_operation r.op)) invalid_operation; ok (record_bytes r)

-- `string(data[:4]) != string(magic[:])`, for as many bytes as the second has
abbrev pub starts_with : List ℕ → List ℕ → Bool
starts_with [] bytes = true
starts_with (m ∷ ms) [] = false
starts_with (m ∷ ms) (b ∷ bs) = m == b && starts_with ms bs

-- The fields at their offsets.
unfoldable pub read_record : List ℕ → WalRecord
unfolding be_value
read_record bytes = record {
  op = get_or bytes 5 0;
  sequence = be_value 0 (slice 8 8 bytes);
  shard = be_value 0 (slice 16 4 bytes);
  key = be_value 0 (slice 24 8 bytes);
  value = be_value 0 (slice 32 8 bytes);
}

unfoldable pub decode_record : List ℕ → Result WalRecord
unfolding read_record
decode_record bytes = do
  fail_if
      (not (length bytes == record_size)
        || not (starts_with magic bytes)
        || not (get_or bytes 4 0 == 1))
      invalid_header
  fail_if (not (is_operation (get_or bytes 5 0))) invalid_operation
  ok (read_record bytes)

-- What the file system makes of one `Append`: how many bytes `Write` gets into the file, and
-- whether `Write` or `Sync` returns an error.
pub record WriteOutcome : Type 0 where
  pub written : ℕ
  pub write_fails : Bool
  pub sync_fails : Bool

-- `file.Write` and `file.Sync`: the result, and the file afterwards, where what was written stays.
unfoldable pub write_bytes : List ℕ → WriteOutcome → List ℕ → Result (Unit {0}) × List ℕ
write_bytes bytes io file =
    let file' = file ++ take io.written bytes in
    if io.write_fails || ltb io.written (length bytes)
    then (err io_failed, file')
    else if io.sync_fails
    then (err io_failed, file')
    else (ok tt, file')

abbrev append_encoded : Result (List ℕ) → WriteOutcome → List ℕ → Result (Unit {0}) × List ℕ
append_encoded (ok bytes) io file = write_bytes bytes io file
append_encoded (err e) io file = (err e, file)
append_encoded panic io file = (panic, file)

unfoldable pub append : WalRecord → WriteOutcome → List ℕ → Result (Unit {0}) × List ℕ
append r io file = append_encoded (encode_record r) io file

-- The loop of `Replay` from the file's position on: it ends where no byte is left, and a read that
-- ends within a record is an error. Each round reads 40 bytes, so the file's length is fuel enough.
unfoldable pub replay_loop : ℕ → List ℕ → Result (List WalRecord)
unfolding decode_record
replay_loop fuel [] = ok []
replay_loop zero (b ∷ bytes) = ok []
replay_loop (suc fuel) (b ∷ bytes) =
    let rest = replay_loop fuel (drop record_size (b ∷ bytes)) in
    if ltb (length (b ∷ bytes)) record_size
    then err io_failed
    else decode_record (take record_size (b ∷ bytes)) >>= (λ r. rest >>= λ rs. ok (r ∷ rs))

unfoldable pub replay : List ℕ → Result (List WalRecord)
unfolding replay_loop
replay file = replay_loop (length file) file
