-- ===== src/Database/Recording.antt =====
-- What a commit makes of a database and its logs.
use mathlib.Core.Path.{subst}
use vada_db.Common.{
  ℕ, ◌+◌, ◌%◌, ◌^◌, ◌<◌, ◌≡◌, ◌⊎◌, refl, ap, sym, ◌∙◌, Option, List, [], ◌∷◌, ◌++◌, length, get_or,
  set, set-get_or, arith, inl, inr,
}
use vada_db.Result.{Result, ok, err, io_failed}
use vada_db.KvMap.{KvMap}
use vada_db.KvTable.Fused.{at}
use vada_db.Wal.{WalRecord}
use vada_db.Wal.Codec.{IsRecord}
use vada_db.Database.{Database, Outcome, CommitOutcome, commit_wal, commit}
use vada_db.Database.Models.{shard}
use vada_db.Database.Replaying.{applied, AreLogs}
use vada_db.Database.Files.{committed_maps}
use vada_db.Database.Logging.{AllBelow, AllBelow-le, AllBelow-snoc}
use vada_db.Database.Committing.{
  IsWhole, IsClean, Committed, nothing_committed, source_committed, both_committed,
  commit_wal-Committed,
}
use vada_db.Database.Extending.{source-AreLogs, both-AreLogs, maps-source, maps-both}
use vada_db.Database.Keeping.{Logged, written, commit-written, written-Keeps}

-- A commit of the next record, where no write is torn: it fails and commits nothing, or it commits
-- the record.
module _ {n bound : ℕ} {d : Database} {maps : List KvMap} (l : Logged n bound d maps)
    (count : length d.shards ≡ n) (i : ℕ) (here : i < n) (low : bound + 1 < 2 ^ 64) (r : WalRecord)
    (v : IsRecord r) (numbered : r.sequence ≡ d.next) (own : r.shard ≡ i)
    (routed : r.key % n ≡ i) where
  abbrev hs : List (List WalRecord)
  hs = l.histories

  abbrev h : List WalRecord
  h = get_or l.histories i []

  abbrev cs : List WalRecord
  cs = l.commits

  below_r : (j : ℕ) → j < n → AllBelow r.sequence (get_or hs j [])
  below_r j p = subst (λ k. AllBelow k (get_or hs j [])) (sym numbered) (l.keeps.below j p)

  commits_below_r : AllBelow r.sequence cs
  commits_below_r = subst (λ k. AllBelow k cs) (sym numbered) l.keeps.below_commits

  below_now : (rs : List WalRecord) → AllBelow d.next rs → AllBelow (d.next + 1) rs
  below_now rs a = AllBelow-le d.next (d.next + 1) rs (omega arith) a

  below_snoc : (rs : List WalRecord) → AllBelow d.next rs → AllBelow (d.next + 1) (rs ++ r ∷ [])
  below_snoc rs a = AllBelow-snoc (d.next + 1) rs r (below_now rs a) (omega (arith, numbered))

  started_r : 0 < r.sequence
  started_r = omega (arith, numbered, l.keeps.started)

  abbrev Committing : Outcome (Unit {0}) → Type 0
  Committing o =
      ((o.0 ≡ err io_failed) × Logged n (bound + 1) o.1 maps)
      ⊎ ((o.0 ≡ ok tt) × Logged n (bound + 1) o.1 (set maps i (applied r (at maps i))))

  committing :
      (w : Result (Unit {0}) × Option (List ℕ) × Option (List ℕ))
      → Committed h cs r w
      → Committing (written i d w)
  committing w (nothing_committed e) =
      subst (λ w. Committing (written i d w)) (sym e)
        (inl (
          refl,
          record {
            histories = set hs i h;
            commits = cs;
            keeps =
                written-Keeps l.keeps count i here low (err io_failed) h cs
                  (subst (λ x. AreLogs n x cs) (sym (set-get_or hs i [])) l.keeps.logs)
                  (below_now h (l.keeps.below i here)) (below_now cs l.keeps.below_commits);
            same = ap (λ x. committed_maps x cs) (set-get_or hs i []) ∙ l.same;
          },
        ))
  committing w (source_committed e) =
      subst (λ w. Committing (written i d w)) (sym e)
        (inl (
          refl,
          record {
            histories = set hs i (h ++ r ∷ []);
            commits = cs;
            keeps =
                written-Keeps l.keeps count i here low (err io_failed) (h ++ r ∷ []) cs
                  (source-AreLogs l.keeps.logs i here r below_r commits_below_r v own routed
                    started_r)
                  (below_snoc h (l.keeps.below i here)) (below_now cs l.keeps.below_commits);
            same =
                maps-source l.keeps.logs i here r below_r commits_below_r v own routed started_r
                ∙ l.same;
          },
        ))
  committing w (both_committed e) =
      subst (λ w. Committing (written i d w)) (sym e)
        (inr (
          refl,
          record {
            histories = set hs i (h ++ r ∷ []);
            commits = cs ++ r ∷ [];
            keeps =
                written-Keeps l.keeps count i here low (ok tt) (h ++ r ∷ []) (cs ++ r ∷ [])
                  (both-AreLogs l.keeps.logs i here r below_r commits_below_r v own routed
                    started_r)
                  (below_snoc h (l.keeps.below i here)) (below_snoc cs l.keeps.below_commits);
            same =
                maps-both l.keeps.logs i here r below_r commits_below_r v own routed started_r
                ∙ ap (λ ms. set ms i (applied r (at ms i))) l.same;
          },
        ))

  pub commit-Logged :
      (io : CommitOutcome)
      → IsWhole io.source_write
      → IsClean io.fusion_write
      → Committing (commit i r io d)
  commit-Logged io a c = subst Committing (sym (commit-written i r io d)) (
      committing (commit_wal (shard d i).wal d.fusion_wal r io) (
        subst (Committed h cs r)
          (sym (λ j. commit_wal (l.keeps.wals i here j) (l.keeps.fusion_log j) r io))
          (commit_wal-Committed h cs r io v a c)))
