-- ===== src/Tests/Databases.antt =====
-- Three shards, some writes, a crash and a recovery.
use vada_db.Common.{
  ℕ, take, zero, suc, set, ◌%◌, ◌<◌, ◌≡◌, refl, true, false, none, some, List, [], ◌∷◌,
  if◌then◌else◌, replicate, arith,
}
use vada_db.Common.Int.{pos}
use vada_db.Result.{ok, err, Returns, Returns-value, shard_unavailable}
use vada_db.KvBucket
use vada_db.KvMap
use vada_db.KvMap.{KvMap}
use vada_db.KvTable
use vada_db.Wal.{WriteOutcome, put_op, delete_op}
use vada_db.Database.{
  scan, Database, CommitOutcome, new, new_shards, get, put, route, shard_of, bucket_index, commit,
  delete, commit_wal,
}
use vada_db.Database.Failure.{crash_shard, recover_shard}
use vada_db.Database.Models.{Models, shard, new-Models}
use vada_db.Database.Refinement.{
  Command, put_command, crash_command, step, effect, step-Models, get-Models,
}
use vada_db.Database.Scanning.{scan-Models}
use vada_db.Database.Opening.{rebuild_fusion}
use vada_db.Database.Rebuilding.{rebuild_fusion-Fuses, maps_of}
use vada_db.Database.Runs.{run, effects, run-Models, recover_shard-run}
use vada_db.Database.Recovery.{recover_shard-crash_shard}
use vada_db.Database.Writes.{put-Follows, delete-Follows, logged}
use vada_db.Database.Commits.{Follows}
use vada_db.KvTable.Fused.{at, Fuses}
use mathlib.Core.Path.{subst}

abbrev no_writes : CommitOutcome
no_writes =
    let w : WriteOutcome = record { written = 0; write_fails = false; sync_fails = false } in
    record { source_write = w; fusion_write = w }

abbrev pub three_shards : Database
three_shards = record {
  shards = new_shards 0 3;
  next = 1;
  committed = 0;
  checkpoint = 0;
  has_snapshot = false;
  fusion = record {
    source_count = 3;
    buckets = replicate 16 [];
    sizes = replicate 3 (replicate 16 0);
  };
  fusion_wal = none;
}

new_three : new (pos 3) ≡ ok three_shards
unfolding new KvTable.new
new_three = refl

pub three_shards-Models : Models three_shards (replicate 3 [])
three_shards-Models = Returns-value (new-Models 3 (omega arith)) new_three

-- Keys 5, 8 and 53 go to shard 2, and 5, 53 and the key 37 of shard 1 to one bucket; key 6 goes to shard 0.
abbrev commands : List Command
commands =
    put_command 5 70 no_writes
    ∷ put_command 53 3 no_writes
    ∷ put_command 6 9 no_writes
    ∷ put_command 37 4 no_writes
    ∷ crash_command (pos 2)
    ∷ put_command 22 1 no_writes
    ∷ []

-- `commands` on new shards: shard 2 is failed.
pub after_crash : Database
after_crash = run commands three_shards

abbrev pub maps_after : List KvMap
maps_after =
    (record { key = 6; value = 9 } ∷ [])
    ∷ (record { key = 22; value = 1 } ∷ record { key = 37; value = 4 } ∷ [])
    ∷ (record { key = 5; value = 70 } ∷ record { key = 53; value = 3 } ∷ [])
    ∷ []

commands-effects : effects commands three_shards (replicate 3 []) ≡ maps_after
unfolding put shard_of route bucket_index commit commit_wal crash_shard KvTable.insert KvMap.lookup
    KvMap.put KvMap.search KvMap.sort_keys KvBucket.insert_node KvTable.valid_position
commands-effects = refl

abbrev maps_before : List KvMap
maps_before =
    (record { key = 6; value = 9 } ∷ [])
    ∷ (record { key = 37; value = 4 } ∷ [])
    ∷ (record { key = 5; value = 70 } ∷ record { key = 53; value = 3 } ∷ [])
    ∷ []

before_effects : effects (take 4 commands) three_shards (replicate 3 []) ≡ maps_before
unfolding put shard_of route bucket_index commit commit_wal crash_shard KvTable.insert KvMap.lookup
    KvMap.put KvMap.search KvMap.sort_keys KvBucket.insert_node KvTable.valid_position
before_effects = refl

before_up : (shard (run (take 4 commands) three_shards) 2).failed ≡ false
unfolding put shard_of route bucket_index commit commit_wal crash_shard KvTable.insert KvMap.lookup
    KvMap.put KvMap.search KvMap.sort_keys KvBucket.insert_node KvTable.valid_position
before_up = refl

commands_fail : (shard (run commands three_shards) 2).failed ≡ true
unfolding put shard_of route bucket_index commit commit_wal crash_shard KvTable.insert KvMap.lookup
    KvMap.put KvMap.search KvMap.sort_keys KvBucket.insert_node KvTable.valid_position
commands_fail = refl

pub after_crash-Models : Models after_crash maps_after
unfolding after_crash
after_crash-Models =
    subst (Models after_crash) commands-effects (run-Models commands three_shards-Models)

recover_shard-run_example :
    let o = recover_shard (pos 2) (run commands three_shards) in
    (o.0 ≡ ok tt)
    × (get 53 o.1 ≡ ok (KvMap.lookup (at (effects commands three_shards (replicate 3 [])) 2) 53))
recover_shard-run_example =
    recover_shard-run commands 2 53 three_shards-Models (omega arith) commands_fail refl

step-Models_example :
    let c = put_command 9 8 no_writes in
    Models (step c after_crash).1 (effect c (step c after_crash).0 maps_after)
step-Models_example = step-Models after_crash-Models (put_command 9 8 no_writes)

get-Models_example : get 37 after_crash ≡ (
    if (shard after_crash (37 % 3)).failed
    then err shard_unavailable
    else ok (KvMap.lookup (at maps_after (37 % 3)) 37))
get-Models_example = get-Models after_crash-Models 37

new-Models_example : Returns (new (pos 2)) λ d. Models d (replicate 2 [])
new-Models_example = new-Models 2 (omega arith)

three_shards_up : (i : ℕ) → i < 3 → (shard three_shards i).failed ≡ false
three_shards_up zero h = refl
three_shards_up (suc zero) h = refl
three_shards_up (suc (suc zero)) h = refl
three_shards_up (suc (suc (suc i))) h = absurd (omega arith)

recover_shard-crash_shard_example :
    recover_shard (pos 1) (crash_shard (pos 1) three_shards).1 ≡ (ok tt, three_shards)
recover_shard-crash_shard_example =
    recover_shard-crash_shard three_shards-Models 1 (omega arith) three_shards_up

put-Follows_example :
    Follows
      (put 5 70 no_writes three_shards)
      (replicate 3 [])
      (set (replicate 3 []) (5 % 3) (KvMap.put 5 70 (at (replicate 3 []) (5 % 3))))
    × ((put 5 70 no_writes three_shards).0
        ≡ (commit
            (5 % 3)
            (logged three_shards-Models 5 no_writes put_op 70)
            no_writes
            three_shards).0)
put-Follows_example = put-Follows three_shards-Models 5 no_writes 70 refl

pub five_present : KvMap.lookup (at maps_after 2) 5 ≡ some 70
unfolding KvMap.lookup
five_present = refl

-- With the four writes alone, no shard is failed.
before_crash : Database
before_crash = run (take 4 commands) three_shards

before_crash-Models : Models before_crash maps_before
unfolding before_crash
before_crash-Models =
    subst (Models before_crash) before_effects (run-Models (take 4 commands) three_shards-Models)

delete-Follows_example :
    Follows
      (delete 5 no_writes before_crash)
      maps_before
      (set maps_before (5 % 3) (KvMap.remove 5 (at maps_before (5 % 3))))
    × ((delete 5 no_writes before_crash).0
        ≡ (commit
            (5 % 3)
            (logged before_crash-Models 5 no_writes delete_op 0)
            no_writes
            before_crash).0)
unfolding before_crash
delete-Follows_example = delete-Follows before_crash-Models 5 no_writes 70 before_up five_present

scan-Models_example : Returns (scan three_shards) λ rs.
    KvMap.IsSorted rs
    × ((key : ℕ) → KvMap.lookup rs key ≡ KvMap.lookup (at (replicate 3 []) (key % 3)) key)
scan-Models_example = scan-Models three_shards-Models three_shards_up

-- Three shards with the maps of `maps_before`, and no fused table for them yet.
abbrev loaded : Database
loaded = record three_shards {
  shards =
      record { id = 0; entries = at maps_before 0; wal = none; failed = false }
      ∷ record { id = 1; entries = at maps_before 1; wal = none; failed = false }
      ∷ record { id = 2; entries = at maps_before 2; wal = none; failed = false }
      ∷ [];
}

loaded-id : (i : ℕ) → i < 3 → (shard loaded i).id ≡ i
loaded-id zero h = refl
loaded-id (suc zero) h = refl
loaded-id (suc (suc zero)) h = refl
loaded-id (suc (suc (suc i))) h = absurd (omega arith)

loaded-IsSorted : (i : ℕ) → i < 3 → KvMap.IsSorted (shard loaded i).entries
loaded-IsSorted zero h = (tt, tt)
loaded-IsSorted (suc zero) h = (tt, tt)
loaded-IsSorted (suc (suc zero)) h = ((omega arith, tt), (tt, tt))
loaded-IsSorted (suc (suc (suc i))) h = absurd (omega arith)

rebuild_fusion-Fuses_example :
    Returns
      (rebuild_fusion loaded)
      λ d'. Fuses 16 d'.fusion (maps_of loaded.shards) × (d' ≡ record loaded { fusion = d'.fusion })
rebuild_fusion-Fuses_example = rebuild_fusion-Fuses loaded (omega arith) loaded-id loaded-IsSorted
