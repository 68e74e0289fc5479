-- ===== src/Database/Writes.antt =====
-- `Put` and `Delete`: on every path, the fused table keeps up with the shards' maps.
use vada_db.Common.{
  ℕ, ◌%◌, ◌^◌, ◌<◌, ◌≡◌, refl, false, Option, none, some, List, length, set, arith,
}
use vada_db.Result.{Returns}
use vada_db.KvMap
use vada_db.KvMap.{KvMap, IsSorted, lookup, search, sort_keys}
use vada_db.KvMap.Column.{rank}
use vada_db.KvTable.Fused.{Fuses, column_of, at}
use vada_db.KvTable.Update.{insert-Fuses, replace-Fuses, delete-Fuses}
use vada_db.Wal.{WalRecord, put_op, delete_op}
use vada_db.Database.{Shard, Database, CommitOutcome, commit, fuse_put, put, delete}
use vada_db.Database.Models.{IsRouted-put, IsRouted-remove, shard, Models}
use vada_db.Database.Commits.{
  bucket_index-rank, commit-fusion, commit-returns, commit-Models, after_commit-Follows,
  finish-Models, Follows, home, home-lt, route-home, shard_of-home,
}

module _ {d : Database} {maps : List KvMap} (models : Models d maps) (key : ℕ)
    (io : CommitOutcome) where
  abbrev i : ℕ
  i = home models key

  abbrev s : Shard
  s = shard d i

  abbrev m : KvMap
  m = at maps i

  abbrev index : ℕ
  index = rank (column_of 16 (key % 16) m) key

  here : i < length maps
  here = home-lt models key

  -- The record that `Put` or `Delete` commits.
  abbrev pub logged : ℕ → ℕ → WalRecord
  logged op value = record {
    op = op;
    sequence = d.next;
    shard = i % 2 ^ 32;
    key = key;
    value = value;
  }

  fuse_put-Fuses :
      (d' : Database) (value : ℕ) (o : Option ℕ)
      → d'.fusion ≡ d.fusion
      → lookup m key ≡ o
      → Returns
          (fuse_put d'.fusion i index key value o)
          λ t. Fuses 16 t (set maps i (KvMap.put key value m))
  fuse_put-Fuses d' value none e absent =
      rw e
        (insert-Fuses models.fused i key (omega (arith, here, models.fused.sources)) value absent)
  fuse_put-Fuses d' value (some old) e present = rw e (
      replace-Fuses models.fused i key (omega (arith, here, models.fused.sources)) old present
        value)

  -- `Put` on a database that stands for some maps, where the key's shard is up: its result is that
  -- of the commit, which never panics. If it succeeds, the database then stands for the maps with
  -- the value put into that of the key's shard; if it fails, for the maps as they were.
  pub put-Follows :
      (value : ℕ)
      → s.failed ≡ false
      → Follows (put key value io d) maps (set maps i (KvMap.put key value m))
        × ((put key value io d).0 ≡ (commit i (logged put_op value) io d).0)
  unfolding put
  put-Follows value e =
      rw
        (
          shard_of-home models key,
          route-home models key,
          e,
          bucket_index-rank models key e,
          models.live i here e,
          models.ids i here,
        )
        (after_commit-Follows (commit i (logged put_op value) io d) maps _ _
          (commit-returns models i here (logged put_op value) io)
          (commit-Models models i here (logged put_op value) io)
          (finish-Models (commit-Models models i here (logged put_op value) io) i here _ d.next _
            (fuse_put-Fuses (commit i (logged put_op value) io d).1 value (lookup m key)
              (commit-fusion models i here (logged put_op value) io) refl)
            (IsRouted-put (length maps) i key value m refl (models.routed i))))

  -- `Delete` on a database that stands for some maps, where the key's shard is up and its map has the
  -- key: its result is that of the commit, which never panics. If it succeeds, the database then
  -- stands for the maps without the key in that of its shard; if it fails, for the maps as they were.
  pub delete-Follows :
      (old : ℕ)
      → s.failed ≡ false
      → lookup m key ≡ some old
      → Follows (delete key io d) maps (set maps i (KvMap.remove key m))
        × ((delete key io d).0 ≡ (commit i (logged delete_op 0) io d).0)
  unfolding delete
  delete-Follows old e present =
      rw
        (
          shard_of-home models key,
          e,
          models.live i here e,
          present,
          route-home models key,
          shard_of-home models key,
          bucket_index-rank models key e,
          models.live i here e,
          models.ids i here,
        )
        (after_commit-Follows (commit i (logged delete_op 0) io d) maps _ _
          (commit-returns models i here (logged delete_op 0) io)
          (commit-Models models i here (logged delete_op 0) io)
          (finish-Models (commit-Models models i here (logged delete_op 0) io) i here _ d.next _
            (rw (commit-fusion models i here (logged delete_op 0) io) (
              delete-Fuses models.fused i key (omega (arith, here, models.fused.sources)) old
                present))
            (IsRouted-remove (length maps) i key m (models.routed i))))
