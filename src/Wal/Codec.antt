-- ===== src/Wal/Codec.antt =====
-- A log record comes back from its bytes.
use vada_db.Common.{ℕ, ◌^◌, ◌<◌, ◌≡◌, refl, ap, true, ◌⊎◌, List, length, arith}
use vada_db.Bytes.{be_value-be_bytes_8, be_value-be_bytes_4}
use vada_db.Result.{ok}
use vada_db.Wal.{WalRecord, is_operation, record_bytes, encode_record, decode_record, read_record}

-- The fields fit their machine words, and the operation is one of the two.
pub record IsRecord (r : WalRecord) : Type 0 where
  pub op : (r.op ≡ 1) ⊎ (r.op ≡ 2)
  pub sequence : r.sequence < 2 ^ 64
  pub shard : r.shard < 2 ^ 32
  pub key : r.key < 2 ^ 64
  pub value : r.value < 2 ^ 64

pub length-record_bytes : (r : WalRecord) → length (record_bytes r) ≡ 40
unfolding record_bytes
length-record_bytes r = refl

read_record-record_bytes : (r : WalRecord) → IsRecord r → read_record (record_bytes r) ≡ r
unfolding read_record record_bytes
read_record-record_bytes r v = λ i. record {
  op = r.op;
  sequence = be_value-be_bytes_8 r.sequence v.sequence i;
  shard = be_value-be_bytes_4 r.shard v.shard i;
  key = be_value-be_bytes_8 r.key v.key i;
  value = be_value-be_bytes_8 r.value v.value i;
}

pub is_operation-IsRecord : (r : WalRecord) → IsRecord r → is_operation r.op ≡ true
is_operation-IsRecord r v = ground arith

-- Decoding what was encoded gives the record back.
pub decode_record-record_bytes :
    (r : WalRecord) → IsRecord r → decode_record (record_bytes r) ≡ ok r
unfolding decode_record record_bytes
decode_record-record_bytes r v =
    rw (is_operation-IsRecord r v) (ap ok (read_record-record_bytes r v))

pub encode_record-IsRecord : (r : WalRecord) → IsRecord r → encode_record r ≡ ok (record_bytes r)
unfolding encode_record
encode_record-IsRecord r v = rw (is_operation-IsRecord r v)

-- A record whose fields fit their machine words and whose operation is `Put` or `Delete` is encoded,
-- in 40 bytes, and these decode to the record.
pub encode_record_round_trip :
    (r : WalRecord)
    → IsRecord r
    → (bytes : List ℕ) × (encode_record r ≡ ok bytes)
      × (length bytes ≡ 40)
      × (decode_record bytes ≡ ok r)
encode_record_round_trip r v = (
  record_bytes r,
  encode_record-IsRecord r v,
  length-record_bytes r,
  decode_record-record_bytes r v,
)
