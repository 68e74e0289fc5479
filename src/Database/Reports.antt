-- ===== src/Database/Reports.antt =====
-- db/database.go: what the database reports about its shards and its storage.
use vada_db.Common.{ℕ, ◌+◌, ◌*◌, ◌%◌, ◌^◌, Bool, List, [], ◌∷◌, if◌then◌else◌}
use vada_db.KvBucket.{KvRecord}
use vada_db.KvTable.{sort, source_record_count, node_count, logical_bytes}
use vada_db.Database.{Shard, Database}

pub record ShardInfo : Type 0 where
  pub id : ℕ
  pub failed : Bool
  pub records : List KvRecord

-- The infos of the shards from index `id` on.
unfoldable pub infos_from : ℕ → List Shard → List ShardInfo
infos_from id [] = []
infos_from id (s ∷ ss) =
    record { id = id; failed = s.failed; records = if s.failed then [] else sort s.entries }
    ∷ infos_from (id + 1) ss

unfoldable pub shards : Database → List ShardInfo
unfolding infos_from
shards d = infos_from 0 d.shards

-- Without `SavingPercent`, a float for people to read, and `Assumptions`, a fixed text.
pub record StorageMetrics : Type 0 where
  pub source_records : ℕ
  pub fusion_nodes : ℕ
  pub source_storage_bytes : ℕ
  pub replication_backup_bytes : ℕ
  pub fusion_backup_bytes : ℕ

unfoldable pub storage_metrics : Database → StorageMetrics
storage_metrics d =
    let records = source_record_count d.fusion.sizes in
    let replication = records * 16 % 2 ^ 64 in
    record {
      source_records = records;
      fusion_nodes = node_count d.fusion.buckets;
      source_storage_bytes = replication;
      replication_backup_bytes = replication;
      fusion_backup_bytes = logical_bytes d.fusion;
    }
