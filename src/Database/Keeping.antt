-- ===== src/Database/Keeping.antt =====
-- A database with its logs: what keeps them, and what a commit makes of them.
use mathlib.Core.Path.{subst}
use vada_db.Common.{
  ℕ, ◌+◌, ◌%◌, ◌^◌, ◌<◌, ◌≤◌, ◌≡◌, refl, sym, ◌∙◌, Option, some, List, [], length, get_or, set,
  get_or-set, ◌==◌, Bool-cases, arith, inl, inr,
}
use vada_db.Result.{Result}
use vada_db.KvMap.{KvMap}
use vada_db.Wal.{WalRecord}
use vada_db.Database.{Database, Outcome, CommitOutcome, no_shard, commit_wal, commit}
use vada_db.Database.Models.{shard}
use vada_db.Database.Replaying.{log_of, AreLogs}
use vada_db.Database.Files.{committed_maps}
use vada_db.Database.Logging.{AllBelow, AllBelow-le}

-- The logs of the database hold these records, all with numbers below the next one.
pub record Keeps (n bound : ℕ) (d : Database) (hs : List (List WalRecord)) (cs : List WalRecord)
    : Type 0 where
  pub logs : AreLogs n hs cs
  pub wals : (j : ℕ) → j < n → (shard d j).wal ≡ some (log_of (get_or hs j []))
  pub fusion_log : d.fusion_wal ≡ some (log_of cs)
  pub started : 0 < d.next
  pub bounded : d.next ≤ bound
  pub below : (j : ℕ) → j < n → AllBelow d.next (get_or hs j [])
  pub below_commits : AllBelow d.next cs

-- What the logs have committed is these maps.
pub record Logged (n bound : ℕ) (d : Database) (maps : List KvMap) : Type 0 where
  pub histories : List (List WalRecord)
  pub commits : List WalRecord
  pub keeps : Keeps n bound d histories commits
  pub same : committed_maps histories commits ≡ maps

-- Two databases with the same logs.
pub record SameLogs (d d' : Database) : Type 0 where
  pub next : d'.next ≡ d.next
  pub fusion_log : d'.fusion_wal ≡ d.fusion_wal
  pub wals : (j : ℕ) → (shard d' j).wal ≡ (shard d j).wal

pub SameLogs-refl : (d : Database) → SameLogs d d
SameLogs-refl d = record { next = refl; fusion_log = refl; wals = λ j. refl }

pub Logged-same :
    {n bound : ℕ} {d d' : Database} {maps : List KvMap}
    → SameLogs d d'
    → Logged n bound d maps
    → Logged n bound d' maps
Logged-same {n} {bound} {d} {d'} s l = record {
  histories = l.histories;
  commits = l.commits;
  same = l.same;
  keeps = record {
    logs = l.keeps.logs;
    wals = λ j h. s.wals j ∙ l.keeps.wals j h;
    fusion_log = s.fusion_log ∙ l.keeps.fusion_log;
    started = omega (arith, s.next, l.keeps.started);
    bounded = omega (arith, s.next, l.keeps.bounded);
    below =
        λ j h. subst (λ k. AllBelow k (get_or l.histories j [])) (sym s.next) (l.keeps.below j h);
    below_commits = subst (λ k. AllBelow k l.commits) (sym s.next) l.keeps.below_commits;
  };
}

pub Logged-later :
    {n bound : ℕ} {d : Database} {maps : List KvMap}
    → Logged n bound d maps
    → Logged n (bound + 1) d maps
Logged-later {n} {bound} {d} l = record {
  histories = l.histories;
  commits = l.commits;
  same = l.same;
  keeps = record {
    logs = l.keeps.logs;
    wals = l.keeps.wals;
    fusion_log = l.keeps.fusion_log;
    started = l.keeps.started;
    bounded = omega (arith, l.keeps.bounded);
    below = l.keeps.below;
    below_commits = l.keeps.below_commits;
  };
}

-- `commit` with the logs that `commitWAL` leaves.
abbrev pub written :
    ℕ → Database → Result (Unit {0}) × Option (List ℕ) × Option (List ℕ) → Outcome (Unit {0})
written i d w = (
  w.0,
  record d {
    shards = set d.shards i (record (get_or d.shards i no_shard) { wal = w.1 });
    next = (d.next + 1) % 2 ^ 64;
    fusion_wal = w.2;
  },
)

pub commit-written :
    (i : ℕ) (r : WalRecord) (io : CommitOutcome) (d : Database)
    → commit i r io d ≡ written i d (commit_wal (shard d i).wal d.fusion_wal r io)
unfolding commit
commit-written i r io d = refl

module _ {n bound : ℕ} {d : Database} {hs : List (List WalRecord)} {cs : List WalRecord}
    (keeps : Keeps n bound d hs cs) (count : length d.shards ≡ n) (i : ℕ) (here : i < n)
    (low : bound + 1 < 2 ^ 64) where
  next_up : (d.next + 1) % 2 ^ 64 ≡ d.next + 1
  next_up = omega (arith, keeps.bounded, low)

  wal_after :
      (h' : List WalRecord) (x : Result (Unit {0})) (f : Option (List ℕ)) (j : ℕ)
      → j < n
      → (shard (written i d (x, some (log_of h'), f)).1 j).wal
        ≡ some (log_of (get_or (set hs i h') j []))
  wal_after h' x f j h = elim (Bool-cases (j == i)) [
    | inl e ↦
        rw
          (
            get_or-set d.shards i j (record (get_or d.shards i no_shard) { wal = some (log_of h') })
                no_shard (omega (arith, count)),
            get_or-set hs i j h' [] (omega (arith, keeps.logs.size)),
            e,
          )
          refl
    | inr e ↦
        rw
          (
            get_or-set d.shards i j (record (get_or d.shards i no_shard) { wal = some (log_of h') })
                no_shard (omega (arith, count)),
            get_or-set hs i j h' [] (omega (arith, keeps.logs.size)),
            e,
          )
          (keeps.wals j h)
  ]

  below_after :
      (h' : List WalRecord) (j : ℕ)
      → j < n
      → AllBelow (d.next + 1) h'
      → AllBelow (d.next + 1) (get_or (set hs i h') j [])
  below_after h' j h a = elim (Bool-cases (j == i)) [
    | inl e ↦ rw (get_or-set hs i j h' [] (omega (arith, keeps.logs.size)), e) a
    | inr e ↦
        rw (get_or-set hs i j h' [] (omega (arith, keeps.logs.size)), e)
          (AllBelow-le d.next (d.next + 1) (get_or hs j []) (omega arith) (keeps.below j h))
  ]

  pub written-Keeps :
      (x : Result (Unit {0})) (h' cs' : List WalRecord)
      → AreLogs n (set hs i h') cs'
      → AllBelow (d.next + 1) h'
      → AllBelow (d.next + 1) cs'
      → Keeps n
          (bound + 1)
          (written i d (x, some (log_of h'), some (log_of cs'))).1
          (set hs i h')
          cs'
  written-Keeps x h' cs' l b c = record {
    logs = l;
    wals = λ j h. wal_after h' x (some (log_of cs')) j h;
    fusion_log = refl;
    started = omega (arith, keeps.started, keeps.bounded, low);
    bounded = omega (arith, keeps.bounded, low);
    below = λ j h. rw next_up (below_after h' j h b);
    below_commits = rw next_up c;
  }
