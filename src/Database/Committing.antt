-- ===== src/Database/Committing.antt =====
-- `commitWAL` and the logs: what a commit leaves in them where no write is torn.

use mathlib.Core.List.{append-nil}
use vada_db.Common.{
  ℕ, ◌≤◌, ◌≡◌, ◌⊎◌, refl, ap, sym, ◌∙◌, false, ◌||◌, Option, some, List, [], ◌∷◌, ◌++◌, length,
  take, if◌then◌else◌, Bool-cases, not_ltb, arith, inl, inr,
}
use vada_db.Result.{Result, ok, err, panic, io_failed}
use vada_db.Wal.{WalRecord, WriteOutcome, record_bytes, write_bytes, append}
use vada_db.Wal.Codec.{IsRecord, length-record_bytes}
use vada_db.Wal.Replay.{
  log_then, log_then-append, log_then-snoc, append-IsRecord, take_all, write_bytes_short,
}
use vada_db.Database.{CommitOutcome, commit_wal}
use vada_db.Database.Replaying.{log_of}

-- A write that is not torn: it gets the whole record into the file, or nothing.
abbrev pub IsWhole : WriteOutcome → Type 0
IsWhole io = (io.written ≡ 0) ⊎ (40 ≤ io.written)

-- The same, and a record that is in the file was reported as written.
abbrev pub IsClean : WriteOutcome → Type 0
IsClean io =
    (io.written ≡ 0) ⊎ ((40 ≤ io.written) × (io.write_fails ≡ false) × (io.sync_fails ≡ false))

log_of-snoc :
    (rs : List WalRecord) (r : WalRecord) → log_of rs ++ record_bytes r ≡ log_of (rs ++ r ∷ [])
log_of-snoc rs r =
    log_then-append rs (record_bytes r)
    ∙ ap (log_then rs) (sym (append-nil (record_bytes r)))
    ∙ log_then-snoc rs r

write_bytes-all :
    (bytes : List ℕ) (io : WriteOutcome) (file : List ℕ)
    → length bytes ≤ io.written
    → write_bytes bytes io file ≡ (
      if io.write_fails then err io_failed else if io.sync_fails then err io_failed else ok tt,
      file ++ bytes,
    )
unfolding write_bytes
write_bytes-all bytes io file h =
    rw (take_all io.written bytes h, not_ltb io.written (length bytes) h)
      (elim (Bool-cases io.write_fails) [
        | inl e ↦ rw e refl
        | inr e ↦ elim (Bool-cases io.sync_fails) [
          | inl d ↦ rw (e, d) refl
          | inr d ↦ rw (e, d) refl
        ]
      ])

module _ (rs : List WalRecord) (r : WalRecord) (v : IsRecord r) (io : WriteOutcome) where
  append-nothing : io.written ≡ 0 → append r io (log_of rs) ≡ (err io_failed, log_of rs)
  append-nothing e = append-IsRecord r io (log_of rs) v ∙ nothing
    where
      nothing : write_bytes (record_bytes r) io (log_of rs) ≡ (err io_failed, log_of rs)
      nothing =
          write_bytes_short (record_bytes r) io (log_of rs)
            (omega (arith, e, length-record_bytes r))
          ∙ ap (λ k. (err io_failed, log_of rs ++ take k (record_bytes r))) e
          ∙ ap (λ l. (err io_failed, l)) (append-nil (log_of rs))

  -- The result of a write that gets all bytes into the file.
  abbrev reported : Result (Unit {0})
  reported =
      if io.write_fails then err io_failed else if io.sync_fails then err io_failed else ok tt

  append-reported : 40 ≤ io.written → append r io (log_of rs) ≡ (reported, log_of (rs ++ r ∷ []))
  append-reported h = append-IsRecord r io (log_of rs) v ∙ written
    where
      bytes : List ℕ
      bytes = record_bytes r

      written : write_bytes bytes io (log_of rs) ≡ (reported, log_of (rs ++ r ∷ []))
      written =
          write_bytes-all bytes io (log_of rs) (omega (arith, h, length-record_bytes r))
          ∙ ap (λ l. (reported, l)) (log_of-snoc rs r)

  append-whole :
      40 ≤ io.written
      → (append r io (log_of rs) ≡ (ok tt, log_of (rs ++ r ∷ [])))
        ⊎ (append r io (log_of rs) ≡ (err io_failed, log_of (rs ++ r ∷ [])))
  append-whole h = elim (Bool-cases (io.write_fails || io.sync_fails)) [
    | inl e ↦ inr (append-reported h ∙ ap (λ x. (x, log_of (rs ++ r ∷ []))) (ground arith))
    | inr e ↦ inl (append-reported h ∙ ap (λ x. (x, log_of (rs ++ r ∷ []))) (ground arith))
  ]

  append-clean :
      40 ≤ io.written
      → io.write_fails ≡ false
      → io.sync_fails ≡ false
      → append r io (log_of rs) ≡ (ok tt, log_of (rs ++ r ∷ []))
  append-clean h a b = append-reported h ∙ ap (λ x. (x, log_of (rs ++ r ∷ []))) (rw (a, b) refl)

-- What a commit leaves: nothing, the record in the source's log alone with an error, or the record in
-- both logs.
pub data Committed (h commits : List WalRecord) (r : WalRecord)
    (w : Result (Unit {0}) × Option (List ℕ) × Option (List ℕ)) : Type 0 where
  nothing_committed :
      w ≡ (err io_failed, some (log_of h), some (log_of commits)) → Committed h commits r w
  source_committed :
      w ≡ (err io_failed, some (log_of (h ++ r ∷ [])), some (log_of commits))
      → Committed h commits r w
  both_committed :
      w ≡ (ok tt, some (log_of (h ++ r ∷ [])), some (log_of (commits ++ r ∷ [])))
      → Committed h commits r w

-- `commitWAL` as a function of what its two appends make of the logs.
abbrev appended :
    Result (Unit {0}) × List ℕ
    → Result (Unit {0}) × List ℕ
    → List ℕ
    → Result (Unit {0}) × Option (List ℕ) × Option (List ℕ)
appended p q fusion_wal = elim p.0 [
  | ok _ ↦ (q.0, some p.1, some q.1)
  | err e ↦ (err e, some p.1, some fusion_wal)
  | panic ↦ (panic, some p.1, some fusion_wal)
]

commit_wal-appended :
    (wal fusion_wal : List ℕ) (r : WalRecord) (io : CommitOutcome)
    → commit_wal (some wal) (some fusion_wal) r io
      ≡ appended (append r io.source_write wal) (append r io.fusion_write fusion_wal) fusion_wal
unfolding commit_wal
commit_wal-appended wal fusion_wal r io = refl

pub commit_wal-Committed :
    (h commits : List WalRecord) (r : WalRecord) (io : CommitOutcome)
    → IsRecord r
    → IsWhole io.source_write
    → IsClean io.fusion_write
    → Committed h commits r (commit_wal (some (log_of h)) (some (log_of commits)) r io)
commit_wal-Committed h commits r io v a c = by_writes a c
  where
    result :
        {p q : Result (Unit {0}) × List ℕ}
        → append r io.source_write (log_of h) ≡ p
        → append r io.fusion_write (log_of commits) ≡ q
        → commit_wal (some (log_of h)) (some (log_of commits)) r io ≡ appended p q (log_of commits)
    result e d = commit_wal-appended (log_of h) (log_of commits) r io ∙ λ i.
        appended (e i) (d i) (log_of commits)

    by_writes :
        IsWhole io.source_write
        → IsClean io.fusion_write
        → Committed h commits r (commit_wal (some (log_of h)) (some (log_of commits)) r io)
    by_writes (inl e) d = nothing_committed (result (append-nothing h r v io.source_write e) refl)
    by_writes (inr e) d = elim (append-whole h r v io.source_write e) [
      | inr p ↦ source_committed (result p refl)
      | inl p ↦ elim d [
        | inl k ↦ source_committed (result p (append-nothing commits r v io.fusion_write k))
        | inr (k, w, s) ↦ both_committed (result p (append-clean commits r v io.fusion_write k w s))
      ]
    ]
