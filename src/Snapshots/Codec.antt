-- ===== src/Snapshots/Codec.antt =====
-- The snapshot that was written is loaded again.
use vada_db.Common.{
  ℕ, suc, ◌+◌, ◌*◌, ◌/◌, ◌^◌, ◌<◌, ◌≡◌, refl, ap, sym, ◌∙◌, Bool, false, ◌||◌, List, [], ◌∷◌, ◌++◌,
  length, ltb, not_ltb, if◌then◌else◌, ◌-◌, ◌==◌, arith,
}
use mathlib.Core.Bool.{not}
use vada_db.Bytes.{be_bytes, be_value-be_bytes_8}
use vada_db.Result.{
  Result, ok, err, ◌>>=◌, ◌>>◌, fail_if, duplicate_key, invalid_header, invalid_length,
}
use vada_db.KvBucket.{KvRecord}
use vada_db.KvMap.{Above, IsSorted}
use vada_db.KvTable.{sort, insert_sorted}
use vada_db.Snapshots.{snapshot_magic}
use vada_db.Snapshots.{Snapshot, records_bytes, snapshot_bytes, has_key, load_loop, load_snapshot}

-- The keys and values fit their machine words.
abbrev pub AreWords : List KvRecord → Type 0
AreWords [] = Unit
AreWords (r ∷ rs) = (r.key < 2 ^ 64) × (r.value < 2 ^ 64) × AreWords rs

-- The records of `seen` have keys below `k`.
abbrev AreBelow : ℕ → List KvRecord → Type 0
AreBelow k [] = Unit
AreBelow k (r ∷ rs) = (r.key < k) × AreBelow k rs

AreBelow-le : (k j : ℕ) (seen : List KvRecord) → k < j → AreBelow k seen → AreBelow j seen
AreBelow-le k j [] h a = tt
AreBelow-le k j (r ∷ rs) h a = (omega (arith, a.0), AreBelow-le k j rs h a.1)

has_key-AreBelow : (k : ℕ) (seen : List KvRecord) → AreBelow k seen → has_key k seen ≡ false
unfolding has_key
has_key-AreBelow k [] a = refl
has_key-AreBelow k (r ∷ rs) a = ground (arith, a.0, has_key-AreBelow k rs a.1)

length-records_bytes : (rs : List KvRecord) → length (records_bytes rs) ≡ length rs * 16
unfolding records_bytes be_bytes
length-records_bytes [] = refl
length-records_bytes (r ∷ rs) = omega (arith, length-records_bytes rs)

-- All seen keys are below those that come.
abbrev Precede : List KvRecord → List KvRecord → Type 0
Precede seen [] = Unit
Precede seen (r ∷ rs) = AreBelow r.key seen × Precede seen rs

Precede-cons :
    (r : KvRecord) (seen rs : List KvRecord)
    → Above r.key rs
    → Precede seen rs
    → Precede (r ∷ seen) rs
Precede-cons r seen [] a p = tt
Precede-cons r seen (x ∷ xs) a p = ((a.0, p.0), Precede-cons r seen xs a.1 p.1)

Precede-none : (rs : List KvRecord) → Precede [] rs
Precede-none [] = tt
Precede-none (r ∷ rs) = (tt, Precede-none rs)

load_loop-cons :
    (count : ℕ) (seen : List KvRecord) (r : KvRecord) (bytes : List ℕ)
    → r.key < 2 ^ 64
    → r.value < 2 ^ 64
    → has_key r.key seen ≡ false
    → load_loop (suc count) seen (be_bytes 8 r.key ++ be_bytes 8 r.value ++ bytes)
      ≡ (load_loop count (r ∷ seen) bytes >>= λ rs. ok (r ∷ rs))
unfolding load_loop be_bytes
load_loop-cons count seen r bytes hk hv e =
    (λ i.
      let x : KvRecord = record {
        key = be_value-be_bytes_8 r.key hk i;
        value = be_value-be_bytes_8 r.value hv i;
      } in
      if has_key x.key seen
      then err duplicate_key
      else (load_loop count (x ∷ seen) bytes >>= λ rs. ok (x ∷ rs)))
    ∙ (rw e refl)

load_loop-records_bytes :
    (seen rs : List KvRecord)
    → AreWords rs
    → IsSorted rs
    → Precede seen rs
    → load_loop (length rs) seen (records_bytes rs) ≡ ok rs
unfolding records_bytes
load_loop-records_bytes seen [] w s p = unfold load_loop in refl
load_loop-records_bytes seen (r ∷ rs) w s p =
    load_loop-cons (length rs) seen r (records_bytes rs) w.0 w.1 (has_key-AreBelow r.key seen p.0)
    ∙ ap (λ l. l >>= λ rs. ok (r ∷ rs))
        (load_loop-records_bytes (r ∷ seen) rs w.2 s.1 (Precede-cons r seen rs s.0 p.1))

-- `LoadSnapshot` on a file that starts with the header.
load_header :
    (sequence count : ℕ) (bytes : List ℕ)
    → sequence < 2 ^ 64
    → count < 2 ^ 64
    → length bytes ≡ count * 16
    → load_snapshot
        (snapshot_magic ++ (1 ∷ 0 ∷ 0 ∷ 0 ∷ []) ++ be_bytes 8 sequence ++ be_bytes 8 count ++ bytes)
      ≡ (load_loop count [] bytes >>= λ rs. ok (record { sequence = sequence; records = rs }))
unfolding load_snapshot be_bytes
load_header sequence count bytes hs hc e =
    (λ i.
      loaded (not_ltb size 24 (omega arith) i || false || false)
        (test (be_value-be_bytes_8 count hc i)) (be_value-be_bytes_8 sequence hs i)
        (be_value-be_bytes_8 count hc i))
    ∙ (λ i. loaded false (fits i) sequence count)
  where
    size : ℕ
    size =
        length (
          snapshot_magic
          ++ (1 ∷ 0 ∷ 0 ∷ 0 ∷ [])
          ++ be_bytes 8 sequence
          ++ be_bytes 8 count
          ++ bytes)

    test : ℕ → Bool
    test c = ltb ((size - 24) / 16) c || not (24 + c * 16 == size)

    loaded : Bool → Bool → ℕ → ℕ → Result Snapshot
    loaded short unfit sequence' c =
        fail_if short invalid_header
        >> (fail_if unfit invalid_length
            >> (load_loop c [] bytes >>= λ rs. ok (record { sequence = sequence'; records = rs })))

    fits : test count ≡ false
    fits = ground (arith, e)

length-insert_sorted :
    (r : KvRecord) (rs : List KvRecord) → length (insert_sorted r rs) ≡ length rs + 1
unfolding insert_sorted
length-insert_sorted r [] = refl
length-insert_sorted r (x ∷ xs) = ground (arith, length-insert_sorted r xs)

length-sort : (rs : List KvRecord) → length (sort rs) ≡ length rs
unfolding sort
length-sort [] = refl
length-sort (r ∷ rs) = omega (arith, length-insert_sorted r (sort rs), length-sort rs)

-- A snapshot whose numbers fit their machine words, and in which no two records have one key, so that
-- the sorted records are in strict order: `LoadSnapshot` of the file that `WriteSnapshot` puts together
-- returns the snapshot, with its records in the order of their keys.
pub load_snapshot-snapshot_bytes :
    (s : Snapshot)
    → s.sequence < 2 ^ 64
    → length s.records < 2 ^ 64
    → AreWords (sort s.records)
    → IsSorted (sort s.records)
    → load_snapshot (snapshot_bytes s)
      ≡ ok (record { sequence = s.sequence; records = sort s.records })
unfolding snapshot_bytes
load_snapshot-snapshot_bytes s hs hc w o =
    load_header s.sequence (length s.records) (records_bytes (sort s.records)) hs hc
      (length-records_bytes (sort s.records) ∙ ap (λ n. n * 16) (length-sort s.records))
    ∙ ap (λ l. l >>= λ rs. ok (record { sequence = s.sequence; records = rs }))
        (ap (λ n. load_loop n [] (records_bytes (sort s.records))) (sym (length-sort s.records))
          ∙ load_loop-records_bytes [] (sort s.records) w o (Precede-none (sort s.records)))
