-- ===== src/Database/Restarting.antt =====
-- What `Open` reads it keeps: the opened database has the logs, and its next number is above theirs.
use mathlib.Core.Path.{subst}
use vada_db.Common.{
  ℕ, zero, suc, ◌^◌, ◌<◌, ◌≤◌, ◌≡◌, refl, ap, sym, ◌∙◌, some, List, [], ◌∷◌, ◌++◌, map, length,
  get_or, arith,
}
use vada_db.Common.Int.{pos}
use vada_db.Result.{Returns}
use vada_db.Wal.{WalRecord}
use vada_db.Database.Opening.{next_after, open_database}
use vada_db.Database.Models.{Models}
use vada_db.Database.Replaying.{log_of, joined, next_all, AreLogs}
use vada_db.Database.Files.{directory, committed_maps}
use vada_db.Database.Reopening.{opened_shards, opened-Models, open_database-opened}
use vada_db.Database.Logging.{AllBelow, AllBelow-le}
use vada_db.Database.Keeping.{Logged}

AllBelow-append :
    (k : ℕ) (xs ys : List WalRecord) → AllBelow k (xs ++ ys) → AllBelow k xs × AllBelow k ys
AllBelow-append k [] ys a = (tt, a)
AllBelow-append k (x ∷ xs) ys a =
    let (left, right) = AllBelow-append k xs ys a.1 in ((a.0, left), right)

AllBelow-joined :
    (k : ℕ) (hs : List (List WalRecord)) (j : ℕ)
    → AllBelow k (joined hs)
    → AllBelow k (get_or hs j [])
AllBelow-joined k [] j a = tt
AllBelow-joined k (h ∷ hs) zero a = (AllBelow-append k h (joined hs) a).0
AllBelow-joined k (h ∷ hs) (suc j) a = AllBelow-joined k hs j (AllBelow-append k h (joined hs) a).1

next_after-bounds :
    (b q next : ℕ)
    → q < b
    → next ≤ b
    → b < 2 ^ 64
    → (q < next_after q next) × (next ≤ next_after q next) × (next_after q next ≤ b)
unfolding next_after
next_after-bounds b q next h k w = ground arith

next_all-bounds :
    (b : ℕ) (rs : List WalRecord) (next : ℕ)
    → AllBelow b rs
    → next ≤ b
    → b < 2 ^ 64
    → AllBelow (next_all rs next) rs × (next ≤ next_all rs next) × (next_all rs next ≤ b)
next_all-bounds b [] next a h w = (tt, omega arith, h)
next_all-bounds b (r ∷ rs) next a h w =
    let (above, more, under) = next_after-bounds b r.sequence next a.0 h w in
    let (rest, later, bound) = next_all-bounds b rs (next_after r.sequence next) a.1 under w in
    ((omega arith, rest), omega arith, bound)

module _ (n : ℕ) (many : 2 ≤ n) (histories : List (List WalRecord)) (commits : List WalRecord)
    (logs : AreLogs n histories commits) (bound : ℕ) (some_bound : 0 < bound) (low : bound < 2 ^ 64)
    (below : AllBelow bound (joined histories)) (below_commits : AllBelow bound commits) where
  -- `Open` gives a database that stands for what is committed, with the logs that it was opened from.
  pub open_database-Logged : Returns (open_database (directory histories commits) (pos n)) λ d.
      Models d (committed_maps histories commits)
      × Logged n bound d (committed_maps histories commits)
  open_database-Logged =
      let (d, run, (shards, fusion_wal, next, fused)) =
        open_database-opened n many histories commits logs in
      let (above, started, under) =
        next_all-bounds bound (joined histories) 1 below (omega arith) low in
      let (above', later, under') =
        next_all-bounds bound commits (next_all (joined histories) 1) below_commits under low in
      let at_next : (rs : List WalRecord)
          → AllBelow (next_all commits (next_all (joined histories) 1)) rs
          → AllBelow d.next rs =
        λ rs. subst (λ k. AllBelow k rs) (sym next) in
      (
        d,
        run,
        (
          opened-Models n many histories commits logs d shards fusion_wal fused,
          record {
            histories = histories;
            commits = commits;
            same = refl;
            keeps = record {
              logs = logs;
              wals = λ j h.
                  ap (λ s. s.wal) (opened_shards n many histories commits logs d shards j h)
                  ∙ ap some (get_or-logs histories j (omega (arith, logs.size)));
              fusion_log = fusion_wal;
              started = omega (arith, next);
              bounded = omega (arith, next);
              below = λ j h. at_next (get_or histories j []) (
                  AllBelow-joined _ histories j
                    (AllBelow-le (next_all (joined histories) 1) _ (joined histories) later above));
              below_commits = at_next commits above';
            };
          },
        ),
      )
    where
      get_or-logs :
          (hs : List (List WalRecord)) (j : ℕ)
          → j < length hs
          → get_or (map log_of hs) j [] ≡ log_of (get_or hs j [])
      get_or-logs [] j h = absurd (omega arith)
      get_or-logs (h ∷ hs) zero p = refl
      get_or-logs (h ∷ hs) (suc j) p = get_or-logs hs j (omega arith)
