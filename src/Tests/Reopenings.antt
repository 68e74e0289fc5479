-- ===== src/Tests/Reopenings.antt =====
-- Two shards with logs that hold records before the first call.
use vada_db.Common.{ℕ, zero, suc, ◌<◌, refl, false, List, [], ◌∷◌, get_or, arith, inl, inr}
use vada_db.Common.Int.{pos}
use vada_db.Result.{Returns}
use vada_db.Wal.{WalRecord, WriteOutcome, put_op, delete_op}
use vada_db.Wal.Codec.{IsRecord}
use vada_db.Database.{CommitOutcome}
use vada_db.Database.Models.{Models}
use vada_db.Database.Refinement.{Command, put_command, delete_command, crash_command}
use vada_db.Database.Runs.{run, effects}
use vada_db.Database.Opening.{find_sequence, open_database}
use vada_db.Database.Replaying.{AreSource, AreLogs}
use vada_db.Database.Files.{directory, committed_maps}
use vada_db.Database.Reopening.{open_database-AreLogs}
use vada_db.Database.Durable.{files, open_database-run}

abbrev first : WalRecord
first = record { op = put_op; sequence = 1; shard = 1; key = 5; value = 70 }

-- Not committed: its number is in no record of the fusion's log.
abbrev second : WalRecord
second = record { op = put_op; sequence = 2; shard = 0; key = 6; value = 9 }

abbrev third : WalRecord
third = record { op = delete_op; sequence = 3; shard = 1; key = 5; value = 0 }

abbrev two_histories : List (List WalRecord)
two_histories = (second ∷ []) ∷ (first ∷ third ∷ []) ∷ []

abbrev two_commits : List WalRecord
two_commits = first ∷ third ∷ []

first-IsRecord : IsRecord first
first-IsRecord = record {
  op = inl refl;
  sequence = omega arith;
  shard = omega arith;
  key = omega arith;
  value = omega arith;
}

second-IsRecord : IsRecord second
second-IsRecord = record {
  op = inl refl;
  sequence = omega arith;
  shard = omega arith;
  key = omega arith;
  value = omega arith;
}

third-IsRecord : IsRecord third
third-IsRecord = record {
  op = inr refl;
  sequence = omega arith;
  shard = omega arith;
  key = omega arith;
  value = omega arith;
}

two_sources : (i : ℕ) → i < 2 → AreSource 2 i two_commits (get_or two_histories i [])
unfolding find_sequence
two_sources zero h = (second-IsRecord, refl, refl, omega arith, inl refl, tt)
two_sources (suc zero) h = (
  first-IsRecord,
  refl,
  refl,
  omega arith,
  inr refl,
  (third-IsRecord, refl, refl, omega arith, inr refl, tt),
)
two_sources (suc (suc i)) h = absurd (omega arith)

two-AreLogs : AreLogs 2 two_histories two_commits
unfolding find_sequence
two-AreLogs = record {
  size = refl;
  sources = two_sources;
  records = (first-IsRecord, (third-IsRecord, tt));
  fresh = (refl, (refl, tt));
  found = (refl, (refl, tt));
}

open_database-AreLogs_example :
    Returns
      (open_database (directory two_histories two_commits) (pos 2))
      λ d. Models d (committed_maps two_histories two_commits)
open_database-AreLogs_example =
    open_database-AreLogs 2 (omega arith) two_histories two_commits two-AreLogs

abbrev whole_writes : CommitOutcome
whole_writes =
    let w : WriteOutcome = record { written = 40; write_fails = false; sync_fails = false } in
    record { source_write = w; fusion_write = w }

-- The record gets into the source's log alone.
abbrev half_writes : CommitOutcome
half_writes = record {
  source_write = record { written = 40; write_fails = false; sync_fails = false };
  fusion_write = record { written = 0; write_fails = false; sync_fails = false };
}

abbrev some_commands : List Command
some_commands =
    put_command 7 3 whole_writes
    ∷ put_command 8 4 half_writes
    ∷ put_command 12 1 whole_writes
    ∷ crash_command (pos 1)
    ∷ delete_command 12 whole_writes
    ∷ []

open_database-run_example :
    Returns (open_database (directory two_histories two_commits) (pos 2)) λ d.
      Returns
        (open_database (files (run some_commands d)) (pos 2))
        λ d'. Models d' (effects some_commands d (committed_maps two_histories two_commits))
open_database-run_example =
    open_database-run 2 (omega arith) two_histories two_commits two-AreLogs 4 some_commands
      (omega arith) (omega arith) (omega arith) (omega arith, (omega arith, (omega arith, tt)))
      (omega arith, (omega arith, tt))
      (
        (omega arith, omega arith, inr (omega arith), inr (omega arith, refl, refl)),
        (
          (omega arith, omega arith, inr (omega arith), inl refl),
          (
            (omega arith, omega arith, inr (omega arith), inr (omega arith, refl, refl)),
            (tt, ((omega arith, inr (omega arith), inr (omega arith, refl, refl)), tt)),
          ),
        ),
      )
