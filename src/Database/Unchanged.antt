-- ===== src/Database/Unchanged.antt =====
-- Which steps leave the logs as they are: a crash, a recovery, and what `Put` and `Delete` do after
-- the commit.

use vada_db.Common.{
  ℕ, zero, suc, ◌≡◌, refl, true, false, some, List, [], ◌∷◌, length, get_or, set, leb, Bool-cases,
  inl, inr,
}
use vada_db.Common.Int.{ℤ, pos, negsuc}
use vada_db.Result.{Result, ok, err, panic}
use vada_db.KvMap.{KvMap, lookup}
use vada_db.KvTable.{Table}
use vada_db.KvTable.Fused.{at}
use vada_db.Wal.{put_op, delete_op}
use vada_db.Database.{
  Shard, Database, Outcome, CommitOutcome, no_shard, commit, after_commit, finish, put, delete,
  set_shard,
}
use vada_db.Database.Failure.{crash_shard, recover_shard, restore, recovered_entries, other_failed}
use vada_db.Database.Models.{shard, Models}
use vada_db.Database.Commits.{home, home-lt, route-home, shard_of-home}
use vada_db.Database.Writes.{logged}
use vada_db.Database.Keeping.{SameLogs, SameLogs-refl}

-- A shard is written that keeps its log.
same_wals :
    (ss : List Shard) (i j : ℕ) (s : Shard)
    → s.wal ≡ (get_or ss i no_shard).wal
    → (get_or (set ss i s) j no_shard).wal ≡ (get_or ss j no_shard).wal
same_wals [] i j s e = refl
same_wals (x ∷ ss) zero zero s e = e
same_wals (x ∷ ss) zero (suc j) s e = refl
same_wals (x ∷ ss) (suc i) zero s e = refl
same_wals (x ∷ ss) (suc i) (suc j) s e = same_wals ss i j s e

finish-SameLogs :
    (i : ℕ) (entries : KvMap) (sequence : ℕ) (d : Database) (t : Result Table)
    → SameLogs d (finish i entries sequence d t).1
finish-SameLogs i entries sequence d (ok t) = record {
  next = refl;
  fusion_log = refl;
  wals =
      λ j. same_wals d.shards i j (record (get_or d.shards i no_shard) { entries = entries }) refl;
}
finish-SameLogs i entries sequence d (err e) = SameLogs-refl d
finish-SameLogs i entries sequence d panic = SameLogs-refl d

after_commit-SameLogs :
    (o : Outcome (Unit {0})) (f : Database → Outcome (Unit {0}))
    → ((d : Database) → SameLogs d (f d).1)
    → SameLogs o.1 (after_commit o f).1
after_commit-SameLogs (ok _, d) f h = h d
after_commit-SameLogs (err e, d) f h = SameLogs-refl d
after_commit-SameLogs (panic, d) f h = SameLogs-refl d

-- A crash and a recovery leave the logs as they are.
pub crash_shard-SameLogs : (id : ℤ) (d : Database) → SameLogs d (crash_shard id d).1
unfolding crash_shard set_shard
crash_shard-SameLogs (negsuc n) d = SameLogs-refl d
crash_shard-SameLogs (pos m) d = elim (Bool-cases (leb (length d.shards) m)) [
  | inl e ↦ rw e (SameLogs-refl d)
  | inr e ↦ elim (Bool-cases (other_failed m d.shards)) [
    | inl f ↦ rw (e, f) (SameLogs-refl d)
    | inr f ↦ elim (Bool-cases (shard d m).failed) [
      | inl g ↦ rw (e, f, g) (SameLogs-refl d)
      | inr g ↦
          rw (e, f, g)
            (record {
              next = refl;
              fusion_log = refl;
              wals = λ j.
                  same_wals d.shards m j (record (shard d m) { entries = []; failed = true }) refl;
            })
    ]
  ]
]

restore-SameLogs : (m : ℕ) (d : Database) (r : Result KvMap) → SameLogs d (restore m d r).1
restore-SameLogs m d (ok entries) = record {
  next = refl;
  fusion_log = refl;
  wals = λ j.
      same_wals d.shards m j
        (record (get_or d.shards m no_shard) { entries = entries; failed = false }) refl;
}
restore-SameLogs m d (err e) = SameLogs-refl d
restore-SameLogs m d panic = SameLogs-refl d

pub recover_shard-SameLogs : (id : ℤ) (d : Database) → SameLogs d (recover_shard id d).1
unfolding recover_shard
recover_shard-SameLogs (negsuc n) d = SameLogs-refl d
recover_shard-SameLogs (pos m) d = elim (Bool-cases (leb (length d.shards) m)) [
  | inl e ↦ rw e (SameLogs-refl d)
  | inr e ↦ elim (Bool-cases (shard d m).failed) [
    | inl g ↦ rw (e, g) (restore-SameLogs m d (recovered_entries (pos m) d))
    | inr g ↦ rw (e, g) (SameLogs-refl d)
  ]
]

module _ {d : Database} {maps : List KvMap} (models : Models d maps) (key : ℕ)
    (io : CommitOutcome) where
  abbrev i : ℕ
  i = home models key

  pub put-SameLogs :
      (value : ℕ)
      → (shard d i).failed ≡ false
      → SameLogs (commit i (logged models key io put_op value) io d).1 (put key value io d).1
  unfolding put
  put-SameLogs value e =
      rw (shard_of-home models key, route-home models key, e, models.ids i (home-lt models key))
        (after_commit-SameLogs (commit i (logged models key io put_op value) io d) _
          (λ d'. finish-SameLogs i _ d.next d' _))

  pub delete-SameLogs :
      (old : ℕ)
      → (shard d i).failed ≡ false
      → lookup (at maps i) key ≡ some old
      → SameLogs (commit i (logged models key io delete_op 0) io d).1 (delete key io d).1
  unfolding delete
  delete-SameLogs old e present =
      rw
        (
          shard_of-home models key,
          e,
          models.live i (home-lt models key) e,
          present,
          route-home models key,
          shard_of-home models key,
          models.ids i (home-lt models key),
        )
        (after_commit-SameLogs (commit i (logged models key io delete_op 0) io d) _
          (λ d'. finish-SameLogs i _ d.next d' _))
