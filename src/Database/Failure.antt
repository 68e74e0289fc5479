-- ===== src/Database/Failure.antt =====
-- db/database.go: a shard's crash, and its recovery from the other shards and the fused table.
use vada_db.Common.{
  ℕ, Bool, true, false, ◌&&◌, ◌||◌, List, [], ◌∷◌, length, get_or, set, ◌==◌, if◌then◌else◌,
}
use mathlib.Core.Bool.{not}
use vada_db.Common.Int.{ℤ, pos, is_negative, at_least, to_ℕ}
use vada_db.Result.{
  Result, ok, err, panic, ◌>>=◌, ◌>>◌, fail_if, shard_unavailable, failure_active,
  shard_out_of_range, not_failed, wrong_shard,
}
use vada_db.KvBucket.{KvRecord}
use vada_db.KvTable
use vada_db.KvTable.{Table, Survivors, bucket, sort}
use vada_db.KvMap
use vada_db.KvMap.{KvMap, search, sort_keys}
use vada_db.Database.{Shard, Database, Outcome, no_shard, set_shard, route}

-- Is a shard failed that has another id?
unfoldable pub other_failed : ℕ → List Shard → Bool
other_failed id [] = false
other_failed id (s ∷ ss) = s.failed && not (s.id == id) || other_failed id ss

unfoldable pub crash_shard : ℤ → Database → Outcome (Unit {0})
unfolding other_failed set_shard
crash_shard id d =
    let s = get_or d.shards (to_ℕ id) no_shard in
    if is_negative id || at_least id (length d.shards)
    then (err shard_out_of_range, d)
    else if other_failed (to_ℕ id) d.shards
    then (err failure_active, d)
    else if s.failed
    then (err shard_unavailable, d)
    else (ok tt, set_shard d (to_ℕ id) (record s { entries = []; failed = true }))

unfoldable pub records_from_map : KvMap → List KvRecord
records_from_map entries = sort entries

-- `survivors[shard.ID] = recordsFromMap(shard.data)`, for the shards but one
unfoldable pub survivors_of : ℕ → List Shard → Result Survivors
unfolding records_from_map
survivors_of id [] = ok []
survivors_of id (s ∷ ss) =
    let rest = survivors_of id ss in
    if s.id == id
    then rest
    else fail_if s.failed failure_active
      >> (rest >>= λ others. ok ((pos s.id, records_from_map s.entries) ∷ others))

-- The loop that checks the recovered records and fills the new map.
unfoldable pub load_recovered : Database → ℕ → List KvRecord → KvMap → Result KvMap
unfolding route
load_recovered d id [] entries = ok entries
load_recovered d id (r ∷ rs) entries =
    let rest = load_recovered d id rs (KvMap.put r.key r.value entries) in
    if route d r.key == id then rest else err wrong_shard

unfoldable pub recovered_entries : ℤ → Database → Result KvMap
unfolding survivors_of load_recovered
recovered_entries id d = do
  survivors ← survivors_of (to_ℕ id) d.shards
  recovered ← KvTable.recover d.fusion id survivors
  load_recovered d (to_ℕ id) recovered []

abbrev pub restore : ℕ → Database → Result KvMap → Outcome (Unit {0})
restore i d (err e) = (err e, d)
restore i d panic = (panic, d)
restore i d (ok entries) = (
  ok tt,
  record d {
    shards =
        set d.shards i (record (get_or d.shards i no_shard) { entries = entries; failed = false });
  },
)

unfoldable pub recover_shard : ℤ → Database → Outcome (Unit {0})
unfolding recovered_entries
recover_shard id d =
    if is_negative id || at_least id (length d.shards)
    then (err shard_out_of_range, d)
    else if not (get_or d.shards (to_ℕ id) no_shard).failed
    then (err not_failed, d)
    else restore (to_ℕ id) d (recovered_entries id d)
