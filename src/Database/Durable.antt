-- ===== src/Database/Durable.antt =====
-- Durability: a database that is closed at any time, and opened again from its logs alone.
use mathlib.Core.Path.{subst}
use vada_db.Common.{
  ℕ, suc, ◌+◌, ◌^◌, ◌<◌, ◌≤◌, ◌≡◌, refl, ap, sym, ◌∙◌, none, some, Option, List, [], ◌∷◌, map,
  length, length-map, get_or, arith,
}
use vada_db.Common.Int.{pos}
use vada_db.Result.{ok, Returns}
use vada_db.KvMap.{KvMap}
use vada_db.Wal.{WalRecord}
use vada_db.Database.{Shard, Database, no_shard}
use vada_db.Database.Models.{Models}
use vada_db.Database.Refinement.{Command, step, effect, step-Models}
use vada_db.Database.Opening.{Directory, open_database}
use vada_db.Database.Runs.{run, effects, run-Models, length-effect, length-effects}
use vada_db.Database.Replaying.{log_of, joined, replayed, AreLogs}
use vada_db.Database.Files.{directory, committed_maps}
use vada_db.Database.Reopening.{open_database-AreLogs}
use vada_db.Database.Restarting.{open_database-Logged}
use vada_db.Database.Logging.{AllBelow}
use vada_db.Database.Keeping.{Logged}
use vada_db.Database.Stepping.{IsSound, step-Logged}

abbrev pub AreSound : List Command → Type 0
AreSound [] = Unit
AreSound (c ∷ cs) = IsSound c × AreSound cs

pub run-Logged :
    (cs : List Command) {d : Database} {maps : List KvMap} (n bound : ℕ)
    → Models d maps
    → length maps ≡ n
    → Logged n bound d maps
    → n ≤ 2 ^ 32
    → bound + length cs < 2 ^ 64
    → AreSound cs
    → Logged n (bound + length cs) (run cs d) (effects cs d maps)
run-Logged [] {d} {maps} n bound models e l few low s =
    subst (λ b. Logged n b d maps) {x = bound} {y = bound + 0} (omega arith) l
run-Logged (c ∷ cs) {d} {maps} n bound models e l few low s =
    let l' : Logged (length maps) (bound + 1) (step c d).1 (effect c (step c d).0 maps) =
      step-Logged models (subst (λ k. Logged k bound d maps) (sym e) l) (omega (arith, e, few))
        (omega (arith, low)) c s.0 in
    subst
      (λ b. Logged n b (run cs (step c d).1) (effects cs (step c d).1 (effect c (step c d).0 maps)))
      {x = bound + 1 + length cs} {y = bound + suc (length cs)} (omega arith)
      (run-Logged cs n (bound + 1) (step-Models models c) (length-effect c (step c d).0 maps ∙ e)
        (subst (λ k. Logged k (bound + 1) (step c d).1 (effect c (step c d).0 maps)) e l') few
        (omega (arith, low)) s.1)

abbrev bytes_of : Option (List ℕ) → List ℕ
bytes_of none = []
bytes_of (some log) = log

-- The files that a database without a snapshot leaves when its process ends.
abbrev pub files : Database → Directory
files d = record {
  checkpoint = ok none;
  snapshots = [];
  logs = map (λ s. bytes_of s.wal) d.shards;
  fusion_log = bytes_of d.fusion_wal;
}

logs_of :
    (ss : List Shard) (hs : List (List WalRecord))
    → length ss ≡ length hs
    → ((j : ℕ) → j < length ss → (get_or ss j no_shard).wal ≡ some (log_of (get_or hs j [])))
    → map (λ s. bytes_of s.wal) ss ≡ map log_of hs
logs_of [] [] e h = refl
logs_of [] (x ∷ hs) e h = absurd (omega arith)
logs_of (s ∷ ss) [] e h = absurd (omega arith)
logs_of (s ∷ ss) (x ∷ hs) e h = λ i.
    bytes_of (h 0 (omega arith) i) ∷ logs_of ss hs (omega arith) (λ j p. h (suc j) (omega arith)) i

-- A database that has its logs is opened from them again, with the maps that it stands for.
reopen-Logged :
    {n bound : ℕ} {d : Database} {maps : List KvMap}
    → Models d maps
    → length maps ≡ n
    → Logged n bound d maps
    → Returns (open_database (files d) (pos n)) λ d'. Models d' maps
reopen-Logged {n} {bound} {d} {maps} models e l =
    let same : files d ≡ directory l.histories l.commits = λ i. record {
      checkpoint = ok none;
      snapshots = [];
      logs =
          logs_of d.shards l.histories (models.count ∙ e ∙ sym l.keeps.logs.size)
            (λ j p. l.keeps.wals j (omega (arith, models.count, e, p))) i;
      fusion_log = bytes_of (l.keeps.fusion_log i);
    } in
    let (d', run', models') =
      open_database-AreLogs n (omega (arith, models.many, e)) l.histories l.commits l.keeps.logs in
    (d', ap (λ f. open_database f (pos n)) same ∙ run', subst (Models d') l.same models')

-- Durability: a database of at least two and at most 2^32 shards is opened from a directory without a
-- snapshot whose logs hold whole records, each `Put` or `Delete` with fields that fit their machine
-- words. The records of a source's log are of its shard, both by the shard they name and by their key;
-- their numbers are above 0; and one that has the number of a commit is equal to that commit. No two
-- commits have one number, the number of every commit is that of some source's record, and all numbers
-- are below `bound`, which is at least 1. Then `Open` succeeds. Then come any calls of `Put`, `Delete`,
-- `CrashShard` and `RecoverShard`, with 64-bit keys and values, and fewer than 2^64 - `bound` of them; a
-- write to a source's log gets the record into it whole or not at all, and so does one to the fusion's
-- log, which is also reported as failed only if nothing was written. When the process ends there,
-- without `Close` or `Snapshot`, `Open` of the files that it leaves succeeds, and gives a database that
-- stands for what the calls that succeeded have made of the committed maps.
pub open_database-run :
    (n : ℕ) (many : 2 ≤ n) (histories : List (List WalRecord)) (commits : List WalRecord)
    (logs : AreLogs n histories commits) (bound : ℕ) (cs : List Command)
    → n ≤ 2 ^ 32
    → 0 < bound
    → bound + length cs < 2 ^ 64
    → AllBelow bound (joined histories)
    → AllBelow bound commits
    → AreSound cs
    → Returns (open_database (directory histories commits) (pos n)) λ d.
      Returns
        (open_database (files (run cs d)) (pos n))
        λ d'. Models d' (effects cs d (committed_maps histories commits))
open_database-run n many histories commits logs bound cs few some_bound low below below_commits s =
    let maps : List KvMap = committed_maps histories commits in
    let size : length maps ≡ n = length-map (λ h. replayed commits h []) histories ∙ logs.size in
    let (d, run0, (models, l)) =
      open_database-Logged n many histories commits logs bound some_bound (omega (arith, low)) below
        below_commits in
    (
      d,
      run0,
      reopen-Logged (run-Models cs models) (length-effects cs d maps ∙ size)
          (run-Logged cs n bound models size l few low s),
    )
