-- ===== src/Database/Reopening.antt =====
-- `Open` of a directory without a snapshot gives back, from the logs, what is committed.
use mathlib.Core.Path.{subst}
use vada_db.Common.{
  ℕ, ◌+◌, ◌<◌, ◌≤◌, ◌≡◌, refl, ap, sym, ◌∙◌, false, none, some, List, [], map, length, get_or,
  replicate, length-replicate, length-map, ltb, Bool-cases, arith, inl, inr, not_ltb, get_or-past,
}
use vada_db.Common.Int.{pos}
use vada_db.Result.{ok, Returns}
use vada_db.KvMap.{KvMap, IsSorted}
use vada_db.KvTable.Fused.{Fuses, at, new-Fuses}
use vada_db.Wal.{WalRecord}
use vada_db.Wal.Replay.{replay-log_bytes}
use vada_db.Database.{Database, no_shard, new, new_shards}
use vada_db.Database.Models.{IsRouted, shard, Models}
use vada_db.Database.Opening.{
  redo_all, attach_logs, open_database, load_checkpoint, read_sources, check_commits, check_seen,
  rebuild_fusion,
}
use vada_db.Database.Rebuilding.{rebuild_fusion-Fuses}
use vada_db.Database.Redoing.{
  shards_of, length-shards_of, new_shards-shards_of, get_or-shards_of, redo_sources,
  IsRouted-replayed,
}
use vada_db.Database.Replaying.{
  log_of, joined, next_all, replayed, AreSource, AreLogs, read_sources-joined,
  check_commits-AreFresh, check_seen-AreFound,
}
use vada_db.Database.Files.{
  directory, committed_maps, logged_shard, get_or-attach_logs, length-attach_logs,
  maps_of-shards_of, get_or-committed_maps, IsSorted-at,
}

-- What `Open` makes of the logs, step by step.
module _ (n : ℕ) (many : 2 ≤ n) (histories : List (List WalRecord)) (commits : List WalRecord)
    (logs : AreLogs n histories commits) where
  abbrev maps : List KvMap
  maps = committed_maps histories commits

  length-maps : length maps ≡ n
  length-maps = length-map (λ h. replayed commits h []) histories ∙ logs.size

  created :
      Returns
        (new (pos n))
        λ d. (d.shards ≡ shards_of 0 (replicate n [])) × (d.checkpoint ≡ 0) × (d.next ≡ 1)
  unfolding new
  created =
      let (t, run, _) = new-Fuses n 16 many (omega arith) in
      (
        record {
          shards = new_shards 0 n;
          next = 1;
          committed = 0;
          checkpoint = 0;
          has_snapshot = false;
          fusion = t;
          fusion_wal = none;
        },
        rw (not_ltb n 2 many, run) refl,
        (new_shards-shards_of 0 n, refl, refl),
      )

  pub opened_shards :
      (d : Database)
      → d.shards ≡ attach_logs (map log_of histories) (shards_of 0 maps)
      → (i : ℕ) → i < n
      → shard d i ≡ logged_shard i (at maps i) (get_or (map log_of histories) i [])
  opened_shards d e i h =
      ap (λ l. get_or l i no_shard) e
      ∙ get_or-attach_logs 0 (map log_of histories) maps i
          (length-map log_of histories ∙ sym (length-map (λ h'. replayed commits h' []) histories))
          (omega (arith, length-maps))
      ∙ ap (λ k. logged_shard k (at maps i) (get_or (map log_of histories) i [])) {x = 0 + i}
          {y = i} (omega arith)

  pub opened-Models :
      (d : Database)
      → d.shards ≡ attach_logs (map log_of histories) (shards_of 0 maps)
      → d.fusion_wal ≡ some (log_of commits)
      → Fuses 16 d.fusion maps
      → Models d maps
  opened-Models d e w f = record {
    count =
        ap (λ l. length l) e
        ∙ length-attach_logs (map log_of histories) (shards_of 0 maps)
        ∙ length-shards_of 0 maps;
    many = omega (arith, length-maps, many);
    fused = f;
    ids = λ i h. ap (λ s. s.id) (opened_shards d e i (omega (arith, length-maps)));
    live = λ i h _. ap (λ s. s.entries) (opened_shards d e i (omega (arith, length-maps)));
    routed = λ i.
        subst (λ k. IsRouted k i (at maps i)) (sym length-maps)
          (elim (Bool-cases (ltb i n)) [
            | inl p ↦ subst (IsRouted n i) (sym (get_or-committed_maps histories commits i)) (
                IsRouted-replayed n commits i (get_or histories i []) []
                  (logs.sources i (ground arith)) tt)
            | inr p ↦
                subst (IsRouted n i) (sym (get_or-past maps i [] (ground (arith, length-maps)))) tt
          ]);
    single = λ i j h k p q.
        absurd (
          ground (arith, p, ap (λ s. s.failed) (opened_shards d e i (omega (arith, length-maps)))));
    logged = λ p. cc (p, w);
  }

  opened_ids :
      (d : Database)
      → d.shards ≡ shards_of 0 maps
      → (i : ℕ) → i < length d.shards
      → (get_or d.shards i no_shard).id ≡ i
  opened_ids d e i h =
      ap (λ l. (get_or l i no_shard).id) e
      ∙ ap (λ s. s.id)
          (get_or-shards_of 0 maps i (omega (arith, ap (λ l. length l) e, length-shards_of 0 maps)))
      ∙ omega arith

  opened-IsSorted :
      (d : Database)
      → d.shards ≡ shards_of 0 maps
      → (i : ℕ) → i < length d.shards
      → IsSorted (get_or d.shards i no_shard).entries
  opened-IsSorted d e i h =
      subst IsSorted
        (sym (
          ap (λ l. (get_or l i no_shard).entries) e
          ∙ ap (λ s. s.entries)
              (get_or-shards_of 0 maps i
                (omega (arith, ap (λ l. length l) e, length-shards_of 0 maps)))))
        (IsSorted-at commits histories i n)

  sources_at : (i : ℕ) → i < length histories → AreSource n (0 + i) commits (get_or histories i [])
  sources_at i h =
      subst (λ k. AreSource n k commits (get_or histories i [])) {x = i} {y = 0 + i} (omega arith)
        (logs.sources i (omega (arith, logs.size)))

  module _ (d0 : Database) (fresh : d0.shards ≡ shards_of 0 (replicate n [])) where
    read_all :
        Returns
          (read_sources d0 0 (map log_of histories) d0.next)
          λ r. (r.0 ≡ joined histories) × (r.1 ≡ next_all (joined histories) d0.next)
    read_all =
        read_sources-joined d0 n 0 commits histories d0.next
          (ap (λ l. length l) fresh ∙ length-shards_of 0 (replicate n []) ∙ length-replicate n [])
          sources_at

    redo_every :
        (next : ℕ)
        → Returns
            (redo_all 0 commits (joined histories) (record d0 { next = next }))
            λ d1. (d1.shards ≡ shards_of 0 maps) × (d1.next ≡ next)
    redo_every next =
        redo_sources n commits histories (record d0 { next = next }) []
          (fresh ∙ ap (λ k. shards_of 0 (replicate k [])) (sym logs.size)) sources_at

  rebuilt :
      (d1 : Database)
      → d1.shards ≡ shards_of 0 maps
      → Returns
          (rebuild_fusion d1)
          λ d2. (d2.shards ≡ shards_of 0 maps) × (d2.next ≡ d1.next) × Fuses 16 d2.fusion maps
  rebuilt d1 e =
      let (d2, run, fused) =
        rebuild_fusion-Fuses d1
          (omega (arith, ap (λ l. length l) e, length-shards_of 0 maps, length-maps, many))
          (opened_ids d1 e) (opened-IsSorted d1 e) in
      (
        d2,
        run,
        (
          ap (λ d. d.shards) fused.1 ∙ e,
          ap (λ d. d.next) fused.1,
          subst (Fuses 16 d2.fusion) (ap (map (λ s. s.entries)) e ∙ maps_of-shards_of 0 maps)
              fused.0,
        ),
      )

  abbrev opened : Database → Database
  opened d2 = record d2 {
    shards = attach_logs (map log_of histories) d2.shards;
    fusion_wal = some (log_of commits);
  }

  assembled :
      (d0 d1 d2 : Database) (sources : List WalRecord × ℕ) (next : ℕ)
      → new (pos n) ≡ ok d0
      → d0.checkpoint ≡ 0
      → read_sources d0 0 (map log_of histories) d0.next ≡ ok sources
      → sources.0 ≡ joined histories
      → check_commits [] commits sources.1 ≡ ok next
      → redo_all 0 commits (joined histories) (record d0 { next = next }) ≡ ok d1
      → rebuild_fusion d1 ≡ ok d2
      → open_database (directory histories commits) (pos n) ≡ ok (opened d2)
  unfolding open_database load_checkpoint
  assembled d0 d1 d2 sources next run0 e run1 same run2 run3 run4 =
      rw
        (
          run0,
          run1,
          replay-log_bytes commits logs.records,
          run2,
          (λ i. redo_all (e i) commits (same i) (record d0 { next = next })) ∙ run3,
          (λ i. check_seen (e i) (same i) commits)
              ∙ check_seen-AreFound (joined histories) commits logs.found,
          run4,
        )
        refl

  -- `Open`, with the database it returns.
  pub open_database-opened : Returns (open_database (directory histories commits) (pos n)) λ d.
      (d.shards ≡ attach_logs (map log_of histories) (shards_of 0 maps))
      × (d.fusion_wal ≡ some (log_of commits))
      × (d.next ≡ next_all commits (next_all (joined histories) 1))
      × Fuses 16 d.fusion maps
  open_database-opened =
      let (d0, run0, fresh) = created in
      let (sources, run1, same) = read_all d0 fresh.0 in
      let next : ℕ = next_all commits sources.1 in
      let run2 : check_commits [] commits sources.1 ≡ ok next =
        check_commits-AreFresh [] commits sources.1 logs.fresh in
      let (d1, run3, done) = redo_every d0 fresh.0 next in
      let (d2, run4, kept) = rebuilt d1 done.0 in
      (
        opened d2,
        assembled d0 d1 d2 sources next run0 fresh.1 run1 same.0 run2 run3 run4,
        (
          ap (attach_logs (map log_of histories)) kept.0,
          refl,
          kept.1
              ∙ done.1
              ∙ ap (next_all commits) (same.1 ∙ ap (next_all (joined histories)) fresh.2),
          kept.2,
        ),
      )

  -- For at least two shards, and a directory without a snapshot whose logs hold whole records, each `Put`
  -- or `Delete` with fields that fit their machine words. The records of a source's log are of its
  -- shard, both by the shard they name and by their key; their numbers are above 0; and one that has the
  -- number of a commit is equal to that commit. No two commits have one number, and the number of every
  -- commit is that of some source's record. Then `Open` succeeds, and the database stands for the maps
  -- that the committed records of the sources' logs make, in their order, whatever records that are not
  -- committed these logs have besides.
  pub open_database-AreLogs :
      Returns
        (open_database (directory histories commits) (pos n))
        λ d. Models d (committed_maps histories commits)
  open_database-AreLogs =
      let (d, run, (shards, fusion_wal, _, fused)) = open_database-opened in
      (d, run, opened-Models d shards fusion_wal fused)
