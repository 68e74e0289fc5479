-- ===== src/Tests/Logs.antt =====
-- A log of two records, a third that is appended, and a write that is cut short.
use vada_db.Common.{ℕ, ◌≡◌, refl, true, false, List, [], ◌∷◌, ◌++◌, length, inl, inr, arith}
use vada_db.Result.{ok, err, io_failed}
use vada_db.Wal.{
  WalRecord, WriteOutcome, put_op, delete_op, append, replay, encode_record, decode_record,
  write_bytes,
}
use vada_db.Wal.Codec.{IsRecord, encode_record_round_trip}
use vada_db.Wal.Replay.{log_then, AllRecords, replay-append, replay-append_short}

abbrev first_put : WalRecord
first_put = record { op = put_op; sequence = 1; shard = 2; key = 5; value = 70 }

abbrev second_put : WalRecord
second_put = record { op = put_op; sequence = 3; shard = 2; key = 53; value = 18446744073709551615 }

abbrev a_delete : WalRecord
a_delete = record { op = delete_op; sequence = 4; shard = 2; key = 5; value = 0 }

first_put-IsRecord : IsRecord first_put
first_put-IsRecord = record {
  op = inl refl;
  sequence = omega arith;
  shard = omega arith;
  key = omega arith;
  value = omega arith;
}

second_put-IsRecord : IsRecord second_put
second_put-IsRecord = record {
  op = inl refl;
  sequence = omega arith;
  shard = omega arith;
  key = omega arith;
  value = omega arith;
}

a_delete-IsRecord : IsRecord a_delete
a_delete-IsRecord = record {
  op = inr refl;
  sequence = omega arith;
  shard = omega arith;
  key = omega arith;
  value = omega arith;
}

abbrev two_records : List WalRecord
two_records = first_put ∷ second_put ∷ []

two_records-AllRecords : AllRecords two_records
two_records-AllRecords = (first_put-IsRecord, (second_put-IsRecord, tt))

abbrev whole : WriteOutcome
whole = record { written = 40; write_fails = false; sync_fails = false }

-- The disk is full after 12 bytes.
abbrev cut_short : WriteOutcome
cut_short = record { written = 12; write_fails = true; sync_fails = false }

whole_write : (append a_delete whole (log_then two_records [])).0 ≡ ok tt
unfolding append encode_record write_bytes
whole_write = refl

encode_record_round_trip_example :
    (bytes : List ℕ) × (encode_record second_put ≡ ok bytes)
    × (length bytes ≡ 40)
    × (decode_record bytes ≡ ok second_put)
encode_record_round_trip_example = encode_record_round_trip second_put second_put-IsRecord

replay-append_example :
    replay (append a_delete whole (log_then two_records [])).1 ≡ ok (two_records ++ a_delete ∷ [])
replay-append_example =
    replay-append two_records a_delete whole two_records-AllRecords a_delete-IsRecord whole_write

replay-append_short_example :
    ((append a_delete cut_short (log_then two_records [])).0 ≡ err io_failed)
    × (replay (append a_delete cut_short (log_then two_records [])).1 ≡ err io_failed)
replay-append_short_example =
    replay-append_short two_records a_delete cut_short two_records-AllRecords a_delete-IsRecord
      (omega arith) (omega arith)
