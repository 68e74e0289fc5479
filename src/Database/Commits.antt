-- ===== src/Database/Commits.antt =====
-- The parts of `Put` and `Delete`: the shard of a key, its index in the bucket, the commit to the
-- logs, and the end.
use vada_db.Common.{
  ℕ, ◌%◌, ◌<◌, ◌≡◌, ◌≢◌, refl, ap, sym, ◌∙◌, false, Option, none, some, List, [], ◌∷◌, ◌==◌, length,
  get_or, set, set-get_or, arith,
}
use mathlib.Core.Path.{subst}
use vada_db.Result.{Result, ok, err, panic, Returns}
use vada_db.KvMap
use vada_db.KvMap.{KvMap, IsSorted, lookup, search, sort_keys}
use vada_db.KvMap.Order.{sort_keys-map, IsSorted-keep}
use vada_db.KvMap.Column.{keys, rank}
use vada_db.KvTable.{Table, bucket}
use vada_db.KvTable.Fused.{Fuses, column_of, at}
use vada_db.Wal.{WalRecord, WriteOutcome, append, encode_record, write_bytes}
use vada_db.Database.{
  Shard, Database, Outcome, CommitOutcome, no_shard, route, shard_of, keys_in, bucket_index,
  commit_wal, commit, finish, after_commit,
}
use vada_db.Database.Models.{IsRouted, shard, Models, Step, others-up, set-Models}

-- The keys of a bucket are those of the map's column.
keys_in-column :
    (n : ℕ) (t : Table) (b : ℕ) (m : KvMap)
    → length t.buckets ≡ n
    → keys_in t b m ≡ keys (column_of n b m)
unfolding keys_in bucket KvMap.keep
keys_in-column n t b [] e = refl
keys_in-column n t b (x ∷ xs) e = ground (arith, keys_in-column n t b xs, ap (λ c. x.key % c) e)

-- What a database stands for after a call: the new maps if it succeeded, and the old ones if not.
abbrev pub Follows : Outcome (Unit {0}) → List KvMap → List KvMap → Type 0
Follows (ok _, d) before after = Models d after
Follows (err _, d) before after = Models d before
Follows (panic, d) before after = ⊥

module _ {d : Database} {maps : List KvMap} (models : Models d maps) (key : ℕ) where
  -- The shard of the key.
  abbrev pub home : ℕ
  home = key % length maps

  pub home-lt : home < length maps
  home-lt = omega (arith, models.many)

  pub route-home : route d key ≡ home
  unfolding route
  route-home = ap (λ n. key % n) models.count

  pub shard_of-home : shard_of d key ≡ shard d home
  unfolding shard_of
  shard_of-home = ap (λ i. get_or d.shards i no_shard) route-home

  pub bucket_index-rank :
      (shard d home).failed ≡ false
      → bucket_index d (shard d home) key ≡ rank (column_of 16 (key % 16) (at maps home)) key
  unfolding bucket_index bucket
  bucket_index-rank up =
      let sorted : IsSorted (column_of 16 (key % 16) (at maps home)) =
        IsSorted-keep (λ x. x.key % 16 == key % 16) (at maps home) (models.fused.sorted home) in
      ap (λ l. search (sort_keys l) key)
        (ap (keys_in d.fusion (bucket d.fusion key)) (models.live home home-lt up)
          ∙ keys_in-column 16 d.fusion (bucket d.fusion key) (at maps home) models.fused.count
          ∙ ap (λ b. keys (column_of 16 b (at maps home))) (ap (λ n. key % n) models.fused.count))
      ∙ ap (λ l. search l key) (sort_keys-map (column_of 16 (key % 16) (at maps home)) sorted)

append-returns : (r : WalRecord) (io : WriteOutcome) (file : List ℕ) → (append r io file).0 ≢ panic
unfolding append encode_record write_bytes
append-returns r io file = ground arith

commit_wal-returns :
    (wal fusion_wal : Option (List ℕ)) (r : WalRecord) (io : CommitOutcome)
    → (fusion_wal ≡ none → wal ≡ none)
    → let w = commit_wal wal fusion_wal r io in
      (w.0 ≢ panic) × (w.2 ≡ none → fusion_wal ≡ none) × (w.2 ≡ none → w.1 ≡ none)
unfolding commit_wal
commit_wal-returns none fusion_wal r io h = ground arith
commit_wal-returns (some wal) none r io h = absurd (ground (arith, h refl))
commit_wal-returns (some wal) (some fusion_wal) r io h =
    ground
      (arith, append-returns r io.source_write wal, append-returns r io.fusion_write fusion_wal)

module _ {d : Database} {maps : List KvMap} (models : Models d maps) (i : ℕ)
    (here : i < length maps) (r : WalRecord) (io : CommitOutcome) where
  unchanged : set maps i (at maps i) ≡ maps
  unchanged = set-get_or maps i []

  committed_shard : Shard
  committed_shard = record (shard d i) { wal = (commit_wal (shard d i).wal d.fusion_wal r io).1 }

  -- A commit changes the logs and the next sequence number, whether it succeeds or not.
  commit-Step : Step d maps i (commit i r io d).1 committed_shard (at maps i)
  unfolding commit committed_shard
  commit-Step =
      let (returns, fusion_log, source_log) =
        commit_wal-returns (shard d i).wal d.fusion_wal r io (λ e. models.logged e i) in
      record {
        shards = refl;
        fused = subst (λ l. Fuses 16 d.fusion l) (sym unchanged) models.fused;
        routed = models.routed i;
        id = models.ids i here;
        live = models.live i here;
        single = λ e j h ne. others-up models i j here h ne e;
        logs = fusion_log;
        log = source_log;
      }

  pub commit-returns : (commit i r io d).0 ≢ panic
  unfolding commit
  commit-returns = (commit_wal-returns (shard d i).wal d.fusion_wal r io (λ e. models.logged e i)).0

  pub commit-fusion : (commit i r io d).1.fusion ≡ d.fusion
  unfolding commit
  commit-fusion = refl

  pub commit-Models : Models (commit i r io d).1 maps
  commit-Models =
      subst (λ l. Models (commit i r io d).1 l) unchanged (set-Models models here commit-Step)

-- What `finish` does with the fused table: on an error nothing, else the maps are as they should be.
pub finish-Models :
    {d : Database} {maps : List KvMap}
    → Models d maps
    → (i : ℕ) → i < length maps
    → (m : KvMap) (sequence : ℕ) (fusion : Result Table)
    → (Returns fusion λ t. Fuses 16 t (set maps i m))
    → IsRouted (length maps) i m
    → Returns
        (finish i m sequence d fusion).0
        λ _. Models (finish i m sequence d fusion).1 (set maps i m)
finish-Models {d} {maps} models i here m sequence fusion (t, run, fused) routed = rw run (
  tt,
  refl,
  set-Models models here (record {
    shards = refl;
    fused = fused;
    routed = routed;
    id = models.ids i here;
    live = λ _. refl;
    single = λ e j h ne. others-up models i j here h ne e;
    logs = λ e. e;
    log = λ e. models.logged e i;
  }),
)

Follows-ok :
    (o : Outcome (Unit {0})) (before after : List KvMap)
    → (Returns o.0 λ _. Models o.1 after)
    → Follows o before after
Follows-ok (ok _, d) before after done = done.2
Follows-ok (err e, d) before after done = absurd (ground (arith, done.1))
Follows-ok (panic, d) before after done = absurd (ground (arith, done.1))

-- A commit, and what follows it if that succeeds: the commit alone decides on the result.
pub after_commit-Follows :
    (o : Outcome (Unit {0})) (before after : List KvMap) (f : Database → Outcome (Unit {0}))
    → o.0 ≢ panic
    → Models o.1 before
    → (Returns (f o.1).0 λ _. Models (f o.1).1 after)
    → Follows (after_commit o f) before after × ((after_commit o f).0 ≡ o.0)
after_commit-Follows (ok _, d) before after f p models done =
    (Follows-ok (f d) before after done, done.1)
after_commit-Follows (err e, d) before after f p models done = (models, refl)
after_commit-Follows (panic, d) before after f p models done = absurd (p refl)
