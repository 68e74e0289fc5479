-- ===== src/Database/Runs.antt =====
-- Any sequence of calls: what the database stands for afterwards, and that a failure loses nothing.

use vada_db.Common.{ℕ, ◌%◌, ◌<◌, ◌≡◌, refl, ap, ◌∙◌, true, List, [], ◌∷◌, length, length-set, arith}
use vada_db.Common.Int.{pos}
use vada_db.Result.{Result, ok, err, panic}
use vada_db.KvMap.{KvMap, lookup}
use vada_db.KvTable.Fused.{at}
use vada_db.Database.{Database, get}
use vada_db.Database.Failure.{recover_shard}
use vada_db.Database.Models.{shard, Models}
use vada_db.Database.Commits.{home}
use vada_db.Database.Recovery.{recover_shard-Models}
use vada_db.Database.Refinement.{
  Command, put_command, delete_command, crash_command, recover_command, step, effect, step-Models,
  get-Models,
}

-- The commands, one after the other, and the maps beside them.
abbrev pub run : List Command → Database → Database
run [] d = d
run (c ∷ cs) d = run cs (step c d).1

abbrev pub effects : List Command → Database → List KvMap → List KvMap
effects [] d maps = maps
effects (c ∷ cs) d maps = effects cs (step c d).1 (effect c (step c d).0 maps)

-- After any commands the database stands for the maps with the commands' effects.
pub run-Models :
    (cs : List Command) {d : Database} {maps : List KvMap}
    → Models d maps
    → Models (run cs d) (effects cs d maps)
run-Models [] models = models
run-Models (c ∷ cs) models = run-Models cs (step-Models models c)

pub length-effect :
    (c : Command) (o : Result (Unit {0})) (maps : List KvMap)
    → length (effect c o maps) ≡ length maps
length-effect (put_command key value io) (ok _) maps = length-set maps _ _
length-effect (put_command key value io) (err e) maps = refl
length-effect (put_command key value io) panic maps = refl
length-effect (delete_command key io) (ok _) maps = length-set maps _ _
length-effect (delete_command key io) (err e) maps = refl
length-effect (delete_command key io) panic maps = refl
length-effect (crash_command id) o maps = refl
length-effect (recover_command id) o maps = refl

pub length-effects :
    (cs : List Command) (d : Database) (maps : List KvMap)
    → length (effects cs d maps) ≡ length maps
length-effects [] d maps = refl
length-effects (c ∷ cs) d maps =
    length-effects cs (step c d).1 _ ∙ length-effect c (step c d).0 maps

-- A failure loses nothing: after any calls of `Put`, `Delete`, `CrashShard` and `RecoverShard` on a
-- database that stands for some maps, if shard `m` is failed, `RecoverShard` of it succeeds, and then
-- `Get` of each key of the shard returns what the successful writes have left in its map.
pub recover_shard-run :
    {d : Database} {maps : List KvMap} (cs : List Command) (m key : ℕ)
    → Models d maps
    → m < length maps
    → (shard (run cs d) m).failed ≡ true
    → key % length maps ≡ m
    → let o = recover_shard (pos m) (run cs d) in
      (o.0 ≡ ok tt) × (get key o.1 ≡ ok (lookup (at (effects cs d maps) m) key))
recover_shard-run {d} {maps} cs m key models here failed home =
    let (_, returned, recovered) =
      recover_shard-Models (run-Models cs models) m (omega (arith, length-effects cs d maps))
        failed in
    let at_home : key % length (effects cs d maps) ≡ m =
      ap (λ n. key % n) (length-effects cs d maps) ∙ home in
    (returned, rw (get-Models recovered.0 key, at_home, recovered.1) refl)
