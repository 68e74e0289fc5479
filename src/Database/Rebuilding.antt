-- ===== src/Database/Rebuilding.antt =====
-- `rebuildFusion` makes a fused table of the shards' maps.
use mathlib.Core.Path.{subst}
use mathlib.Core.List.{append_assoc}
use native.Mathlib.Nat.{add-zero}
use vada_db.Common.{
  ℕ, suc, ◌+◌, ◌<◌, ◌≤◌, ◌≡◌, refl, ap, sym, ◌∙◌, List, [], ◌∷◌, ◌++◌, map, length, get_or, set,
  replicate, length-append, arith,
}
use vada_db.Result.{◌>>=◌, Returns}
use vada_db.KvBucket.{KvRecord}
use vada_db.KvMap.{KvMap, IsSorted}
use vada_db.KvTable.{Table}
use vada_db.KvTable.Fused.{Fuses, at, new-Fuses}
use vada_db.Database.{Shard, Database, no_shard}
use vada_db.Database.Opening.{fuse_records, fuse_shards, sort_by_bucket, rebuild_fusion}
use vada_db.Database.Ordering.{put_all, IsOrdered-sort, put_all-sort_by_bucket}
use vada_db.Database.Inserting.{fuse_records-Fuses, CountsColumns, counts_nil, AreLast, AreLast-nil}

abbrev pub maps_of : List Shard → List KvMap
maps_of = map (λ s. s.entries)

pub set-prefix :
    (prefix : List KvMap) (x : KvMap) (rest : List KvMap) (v : KvMap)
    → set (prefix ++ x ∷ rest) (length prefix) v ≡ prefix ++ v ∷ rest
set-prefix [] x rest v = refl
set-prefix (p ∷ prefix) x rest v = ap (λ l. p ∷ l) (set-prefix prefix x rest v)

pub at-prefix :
    (prefix : List KvMap) (x : KvMap) (rest : List KvMap)
    → at (prefix ++ x ∷ rest) (length prefix) ≡ x
at-prefix [] x rest = refl
at-prefix (p ∷ prefix) x rest = at-prefix prefix x rest

-- The shards from `length prefix` on are fused, one after the other.
fuse_shards-Fuses :
    (ss : List Shard) (prefix : List KvMap) (t : Table)
    → Fuses 16 t (prefix ++ replicate (length ss) [])
    → ((i : ℕ) → i < length ss → (get_or ss i no_shard).id ≡ length prefix + i)
    → ((i : ℕ) → i < length ss → IsSorted (get_or ss i no_shard).entries)
    → Returns (fuse_shards ss t) λ t'. Fuses 16 t' (prefix ++ maps_of ss)
unfolding fuse_shards
fuse_shards-Fuses [] prefix t f ids sorted = (t, refl, f)
fuse_shards-Fuses (s ∷ ss) prefix t f ids sorted =
    let rest : List KvMap = replicate (length ss) [] in
    let id : s.id ≡ length prefix = ids 0 (omega arith) ∙ add-zero (length prefix) in
    let here : length prefix < length (prefix ++ [] ∷ rest) =
      omega (arith, length-append prefix ([] ∷ rest)) in
    let empty : at (prefix ++ [] ∷ rest) (length prefix) ≡ [] = at-prefix prefix [] rest in
    let records : List KvRecord = sort_by_bucket t s.entries in
    let (t1, run, f1) =
      fuse_records-Fuses (length prefix) records (replicate 16 0) t (prefix ++ [] ∷ rest) f here
        (subst (CountsColumns (length prefix) (replicate 16 0)) (sym empty)
          (counts_nil (length prefix)))
        (IsOrdered-sort t f.count s.entries (sorted 0 (omega arith)))
        (subst (λ l. AreLast l records) (sym empty) (AreLast-nil records)) in
    let filled : set (prefix ++ [] ∷ rest) (length prefix)
          (put_all records (at (prefix ++ [] ∷ rest) (length prefix)))
        ≡ prefix ++ s.entries ∷ rest =
      ap (λ l. set (prefix ++ [] ∷ rest) (length prefix) (put_all records l)) empty
      ∙ ap (set (prefix ++ [] ∷ rest) (length prefix))
          (put_all-sort_by_bucket t f.count s.entries (sorted 0 (omega arith)))
      ∙ set-prefix prefix [] rest s.entries in
    let (t2, run2, f2) =
      fuse_shards-Fuses ss (prefix ++ s.entries ∷ []) t1
        (subst (λ l. Fuses 16 t1 l) (filled ∙ sym (append_assoc prefix (s.entries ∷ []) rest)) f1)
        (λ i h. ids (suc i) (omega arith) ∙ omega (arith, length-append prefix (s.entries ∷ [])))
        (λ i h. sorted (suc i) (omega arith)) in
    (
      t2,
      ap (λ n. fuse_records n (replicate 16 0) records t >>= λ t'. fuse_shards ss t') id
          ∙ ap (λ r. r >>= λ t'. fuse_shards ss t') run
          ∙ run2,
      subst (λ l. Fuses 16 t2 l) (append_assoc prefix (s.entries ∷ []) (maps_of ss)) f2,
    )

-- On a database of at least two shards, numbered in their order and with maps that are in order of
-- their keys: `rebuildFusion` succeeds, changes nothing but the fused table, and the table then fuses
-- the shards' maps.
pub rebuild_fusion-Fuses :
    (d : Database)
    → 2 ≤ length d.shards
    → ((i : ℕ) → i < length d.shards → (get_or d.shards i no_shard).id ≡ i)
    → ((i : ℕ) → i < length d.shards → IsSorted (get_or d.shards i no_shard).entries)
    → Returns
        (rebuild_fusion d)
        λ d'. Fuses 16 d'.fusion (maps_of d.shards) × (d' ≡ record d { fusion = d'.fusion })
unfolding rebuild_fusion
rebuild_fusion-Fuses d many ids sorted =
    let (t, run, f) = new-Fuses (length d.shards) 16 many (omega arith) in
    let (t', run', f') =
      fuse_shards-Fuses d.shards [] t f.0 (λ i h. ids i h ∙ omega arith) sorted in
    (record d { fusion = t' }, rw (run, run') refl, (f', refl))
