-- ===== src/Wal/Replay.antt =====
-- `Replay` reads back what `Append` wrote, and refuses a log that ends within a record.
use mathlib.Core.List.{append-nil, append_assoc}
use native.Mathlib.Nat.{zero-add}
use vada_db.Common.{
  length-take, ℕ, zero, suc, ◌+◌, ◌-◌, ◌*◌, ◌<◌, ◌≤◌, ◌≡◌, refl, ap, sym, ◌∙◌, List, [], ◌∷◌, ◌++◌,
  length, take, drop, length-append, lt→ltb, not_ltb, arith,
}
use vada_db.Result.{ok, err, ◌>>=◌, bind-ok, bind_assoc, io_failed}
use vada_db.Wal.{
  WalRecord, WriteOutcome, record_bytes, decode_record, replay_loop, replay, write_bytes, append,
}
use vada_db.Wal.Codec.{
  IsRecord, length-record_bytes, decode_record-record_bytes, encode_record-IsRecord,
}

abbrev pub AllRecords : List WalRecord → Type 0
AllRecords [] = Unit
AllRecords (r ∷ rs) = IsRecord r × AllRecords rs

-- A file that ends with `rest` instead of at a record's end.
abbrev pub log_then : List WalRecord → List ℕ → List ℕ
log_then [] rest = rest
log_then (r ∷ rs) rest = record_bytes r ++ log_then rs rest

module _ {A : Type 0} where
  take-append_of_length : (n : ℕ) (xs ys : List A) → length xs ≡ n → take n (xs ++ ys) ≡ xs
  take-append_of_length zero [] ys e = refl
  take-append_of_length zero (x ∷ xs) ys e = absurd (omega arith)
  take-append_of_length (suc n) [] ys e = absurd (omega arith)
  take-append_of_length (suc n) (x ∷ xs) ys e =
      ap (λ l. x ∷ l) (take-append_of_length n xs ys (omega arith))

  drop-append_of_length : (n : ℕ) (xs ys : List A) → length xs ≡ n → drop n (xs ++ ys) ≡ ys
  drop-append_of_length zero [] ys e = refl
  drop-append_of_length zero (x ∷ xs) ys e = absurd (omega arith)
  drop-append_of_length (suc n) [] ys e = absurd (omega arith)
  drop-append_of_length (suc n) (x ∷ xs) ys e = drop-append_of_length n xs ys (omega arith)

-- One round of the loop, where 40 bytes or more are left, and where fewer are.
replay_loop-whole :
    (fuel : ℕ) (bytes : List ℕ)
    → 40 ≤ length bytes
    → replay_loop (suc fuel) bytes
      ≡ decode_record (take 40 bytes) >>= λ r.
          replay_loop fuel (drop 40 bytes) >>= λ rs. ok (r ∷ rs)
unfolding replay_loop
replay_loop-whole fuel [] h = absurd (omega arith)
replay_loop-whole fuel (b ∷ bytes) h = rw (not_ltb (length (b ∷ bytes)) 40 h)

replay_loop-short :
    (fuel : ℕ) (bytes : List ℕ)
    → 0 < length bytes
    → length bytes < 40
    → replay_loop (suc fuel) bytes ≡ err io_failed
unfolding replay_loop
replay_loop-short fuel [] h k = absurd (omega arith)
replay_loop-short fuel (b ∷ bytes) h k = rw (lt→ltb (length (b ∷ bytes)) 40 k)

replay_loop-cons :
    (fuel : ℕ) (r : WalRecord) (rest : List ℕ)
    → IsRecord r
    → replay_loop (suc fuel) (record_bytes r ++ rest)
      ≡ replay_loop fuel rest >>= (λ rs. ok (r ∷ rs))
replay_loop-cons fuel r rest v =
    replay_loop-whole fuel (record_bytes r ++ rest)
      (omega (arith, length-append (record_bytes r) rest, length-record_bytes r))
    ∙ (rw
        (
          take-append_of_length 40 (record_bytes r) rest (length-record_bytes r),
          drop-append_of_length 40 (record_bytes r) rest (length-record_bytes r),
          decode_record-record_bytes r v,
        )
        refl)

-- With more fuel than whole records, the loop reads them all and goes on with what is left.
replay_loop-log :
    (fuel : ℕ) (rs : List WalRecord) (rest : List ℕ)
    → AllRecords rs
    → replay_loop (length rs + fuel) (log_then rs rest)
      ≡ replay_loop fuel rest >>= (λ more. ok (rs ++ more))
replay_loop-log fuel [] rest v =
    ap (λ n. replay_loop n rest) (zero-add fuel) ∙ sym (bind-ok (replay_loop fuel rest))
replay_loop-log fuel (r ∷ rs) rest v =
    ap (λ n. replay_loop n (record_bytes r ++ log_then rs rest)) (suc-add (length rs) fuel)
    ∙ replay_loop-cons (length rs + fuel) r (log_then rs rest) v.0
    ∙ ap (λ m. m >>= λ more. ok (r ∷ more)) (replay_loop-log fuel rs rest v.1)
    ∙ bind_assoc (replay_loop fuel rest) (λ more. ok (rs ++ more)) (λ more. ok (r ∷ more))
  where
    suc-add : (n m : ℕ) → suc n + m ≡ suc (n + m)
    suc-add n m = omega arith

length-log_then :
    (rs : List WalRecord) (rest : List ℕ) → length (log_then rs rest) ≡ 40 * length rs + length rest
length-log_then [] rest = omega arith
length-log_then (r ∷ rs) rest = omega (
  arith,
  length-append (record_bytes r) (log_then rs rest),
  length-record_bytes r,
  length-log_then rs rest,
)

-- `Replay` of a file that holds whole records, and then the bytes `rest`.
replay-log_then :
    (rs : List WalRecord) (rest : List ℕ)
    → AllRecords rs
    → replay (log_then rs rest)
      ≡ replay_loop (39 * length rs + length rest) rest >>= (λ more. ok (rs ++ more))
unfolding replay
replay-log_then rs rest v =
    ap (λ fuel. replay_loop fuel (log_then rs rest)) (omega (arith, length-log_then rs rest))
    ∙ replay_loop-log (39 * length rs + length rest) rs rest v

-- `Replay` reads back all the records of a log, in order.
pub replay-log_bytes : (rs : List WalRecord) → AllRecords rs → replay (log_then rs []) ≡ ok rs
replay-log_bytes rs v = replay-log_then rs [] v ∙ unfold replay_loop in ap ok (append-nil rs)

-- A log that ends within a record cannot be replayed: no record of it is returned.
pub replay-torn :
    (rs : List WalRecord) (torn : List ℕ)
    → AllRecords rs
    → 0 < length torn
    → length torn < 40
    → replay (log_then rs torn) ≡ err io_failed
replay-torn rs torn v h k =
    replay-log_then rs torn v
    ∙ ap (λ n. replay_loop n torn >>= (λ more. ok (rs ++ more))) fuel
    ∙ ap (λ m. m >>= λ more. ok (rs ++ more))
        (replay_loop-short (39 * length rs + (length torn - 1)) torn h k)
  where
    fuel : 39 * length rs + length torn ≡ suc (39 * length rs + (length torn - 1))
    fuel = omega arith

pub AllRecords-append :
    (rs : List WalRecord) (r : WalRecord) → AllRecords rs → IsRecord r → AllRecords (rs ++ r ∷ [])
AllRecords-append [] r v w = (w, tt)
AllRecords-append (x ∷ rs) r v w = (v.0, AllRecords-append rs r v.1 w)

pub log_then-append :
    (rs : List WalRecord) (rest : List ℕ) → log_then rs [] ++ rest ≡ log_then rs rest
log_then-append [] rest = refl
log_then-append (r ∷ rs) rest =
    append_assoc (record_bytes r) (log_then rs []) rest
    ∙ ap (λ l. record_bytes r ++ l) (log_then-append rs rest)

pub log_then-snoc :
    (rs : List WalRecord) (r : WalRecord)
    → log_then rs (record_bytes r ++ []) ≡ log_then (rs ++ r ∷ []) []
log_then-snoc [] r = refl
log_then-snoc (x ∷ rs) r = ap (λ l. record_bytes x ++ l) (log_then-snoc rs r)

pub take_all {ℓ} : {A : Type ℓ} (n : ℕ) (xs : List A) → length xs ≤ n → take n xs ≡ xs
take_all zero [] h = refl
take_all zero (x ∷ xs) h = absurd (omega arith)
take_all (suc n) [] h = refl
take_all (suc n) (x ∷ xs) h = ap (λ l. x ∷ l) (take_all n xs (omega arith))

write_bytes-eq :
    (bytes : List ℕ) (io : WriteOutcome) (file : List ℕ)
    → (write_bytes bytes io file).0 ≡ ok tt
    → (write_bytes bytes io file).1 ≡ file ++ bytes
unfolding write_bytes
write_bytes-eq bytes io file h = ground (arith, take_all io.written bytes)

pub append-IsRecord :
    (r : WalRecord) (io : WriteOutcome) (file : List ℕ)
    → IsRecord r
    → append r io file ≡ write_bytes (record_bytes r) io file
unfolding append
append-IsRecord r io file v = rw (encode_record-IsRecord r v)

-- An `Append` that returned no error put the whole record at the end of the file.
append-eq :
    (r : WalRecord) (io : WriteOutcome) (file : List ℕ)
    → IsRecord r
    → (append r io file).0 ≡ ok tt
    → (append r io file).1 ≡ file ++ record_bytes r
append-eq r io file v h =
    ap (λ p. p.1) (append-IsRecord r io file v)
    ∙ write_bytes-eq (record_bytes r) io file
        (sym (ap (λ p. p.0) (append-IsRecord r io file v)) ∙ h)

-- On a log of whole records whose fields fit: once `Append` of a record whose fields fit has returned no error,
-- `Replay` of the file returns the records from before, and then the new one.
pub replay-append :
    (rs : List WalRecord) (r : WalRecord) (io : WriteOutcome)
    → AllRecords rs
    → IsRecord r
    → (append r io (log_then rs [])).0 ≡ ok tt
    → replay (append r io (log_then rs [])).1 ≡ ok (rs ++ r ∷ [])
replay-append rs r io v w h =
    ap replay (
      append-eq r io (log_then rs []) w h
      ∙ log_then-append rs (record_bytes r)
      ∙ ap (log_then rs) (sym (append-nil (record_bytes r)))
      ∙ log_then-snoc rs r)
    ∙ replay-log_bytes (rs ++ r ∷ []) (AllRecords-append rs r v w)

pub write_bytes_short :
    (bytes : List ℕ) (io : WriteOutcome) (file : List ℕ)
    → io.written < length bytes
    → write_bytes bytes io file ≡ (err io_failed, file ++ take io.written bytes)
unfolding write_bytes
write_bytes_short bytes io file h = ground arith

-- On a log of whole records whose fields fit: an `Append` of such a record whose write gets at least one byte but not all 40 into the
-- file returns an error, and leaves a file that `Replay` refuses with an error, whatever records the
-- file holds from before.
pub replay-append_short :
    (rs : List WalRecord) (r : WalRecord) (io : WriteOutcome)
    → AllRecords rs
    → IsRecord r
    → 0 < io.written
    → io.written < 40
    → ((append r io (log_then rs [])).0 ≡ err io_failed)
      × (replay (append r io (log_then rs [])).1 ≡ err io_failed)
replay-append_short rs r io v w h k =
    let short =
      append-IsRecord r io (log_then rs []) w
      ∙ write_bytes_short (record_bytes r) io (log_then rs [])
          (omega (arith, length-record_bytes r)) in
    let size = length-take io.written (record_bytes r) (omega (arith, length-record_bytes r)) in
    (
      ap (λ p. p.0) short,
      ap (λ p. replay p.1) short
          ∙ ap replay (log_then-append rs (take io.written (record_bytes r)))
          ∙ replay-torn rs (take io.written (record_bytes r)) v (omega (arith, size))
              (omega (arith, size)),
    )
