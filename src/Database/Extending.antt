-- ===== src/Database/Extending.antt =====
-- The logs of a database with one record more, and the maps that they then make.

use vada_db.Common.{
  ℕ, ◌%◌, ◌<◌, ◌≡◌, refl, ap, sym, ◌∙◌, true, none, List, [], ◌∷◌, ◌++◌, length, get_or, set,
  length-set, length-map, get_or-set, get_or_ext, ◌==◌, ==_refl, ==_iff, if◌then◌else◌, Bool-cases,
  arith, inl, inr,
}
use vada_db.KvTable.Fused.{at}
use vada_db.Wal.{WalRecord}
use vada_db.Wal.Codec.{IsRecord}
use vada_db.Wal.Replay.{AllRecords-append}
use vada_db.Database.Opening.{find_sequence, is_found}
use vada_db.Database.Files.{committed_maps, get_or-committed_maps}
use vada_db.Database.Replaying.{joined, applied, replayed, AreLogs}
use vada_db.Database.Logging.{
  AllBelow, find-below, find-snoc_new, AreSource-commit, AreSource-snoc, replayed-commit,
  replayed-snoc, AreFresh-snoc, AreFound-more, AreFound-snoc, is_found-joined,
}

-- The logs with one record more.
module _ {n : ℕ} {hs : List (List WalRecord)} {commits : List WalRecord}
    (logs : AreLogs n hs commits) (i : ℕ) (hi : i < n) (r : WalRecord)
    (below : (j : ℕ) → j < n → AllBelow r.sequence (get_or hs j []))
    (below_commits : AllBelow r.sequence commits) (v : IsRecord r) (shard : r.shard ≡ i)
    (routed : r.key % n ≡ i) (numbered : 0 < r.sequence) where
  abbrev pub longer : List (List WalRecord)
  longer = set hs i (get_or hs i [] ++ r ∷ [])

  at_longer :
      (j : ℕ) → get_or longer j [] ≡ (if j == i then get_or hs i [] ++ r ∷ [] else get_or hs j [])
  at_longer j = get_or-set hs i j (get_or hs i [] ++ r ∷ []) [] (omega (arith, logs.size))

  not_yet : find_sequence r.sequence commits ≡ none
  not_yet = find-below r.sequence r.sequence commits below_commits (omega arith)

  still_found :
      (q : ℕ)
      → is_found (find_sequence q (joined hs)) ≡ true
      → is_found (find_sequence q (joined longer)) ≡ true
  still_found q e = rw (is_found-joined q i hs r (omega (arith, logs.size)), e) refl

  -- The record in its source's log alone.
  pub source-AreLogs : AreLogs n longer commits
  source-AreLogs = record {
    size = length-set hs i _ ∙ logs.size;
    sources = λ j h. elim (Bool-cases (j == i)) [
      | inl e ↦
          rw (at_longer j, e, (==_iff j i).0 e)
            (AreSource-snoc n i commits (get_or hs i []) r (logs.sources i hi)
              (v, shard, routed, numbered, inl not_yet, tt))
      | inr e ↦ rw (at_longer j, e) (logs.sources j h)
    ];
    records = logs.records;
    fresh = logs.fresh;
    found = AreFound-more (joined hs) (joined longer) commits still_found logs.found;
  }

  -- The record in both logs.
  pub both-AreLogs : AreLogs n longer (commits ++ r ∷ [])
  both-AreLogs = record {
    size = length-set hs i _ ∙ logs.size;
    sources = λ j h.
        let old = AreSource-commit commits r n j (get_or hs j []) (logs.sources j h) (below j h) in
        elim (Bool-cases (j == i)) [
          | inl e ↦
              rw (at_longer j, e, (==_iff j i).0 e)
                (AreSource-snoc n i (commits ++ r ∷ []) (get_or hs i []) r
                  (AreSource-commit commits r n i (get_or hs i []) (logs.sources i hi) (below i hi))
                  (v, shard, routed, numbered, inr (find-snoc_new commits r not_yet), tt))
          | inr e ↦ rw (at_longer j, e) old
        ];
    records = AllRecords-append commits r logs.records v;
    fresh = AreFresh-snoc [] commits r logs.fresh tt below_commits;
    found =
        AreFound-snoc (joined longer) commits r
          (AreFound-more (joined hs) (joined longer) commits still_found logs.found)
          (rw (is_found-joined r.sequence i hs r (omega (arith, logs.size)), ==_refl r.sequence)
            (ground arith));
  }

  length-committed :
      (l : List (List WalRecord)) (cs : List WalRecord) → length (committed_maps l cs) ≡ length l
  length-committed l cs = length-map (λ h. replayed cs h []) l

  -- A record that is not committed has no effect.
  pub maps-source : committed_maps longer commits ≡ committed_maps hs commits
  maps-source =
      get_or_ext [] (committed_maps longer commits) (committed_maps hs commits)
        (length-committed longer commits ∙ length-set hs i _ ∙ sym (length-committed hs commits))
        (λ j h.
          get_or-committed_maps longer commits j
          ∙ each j
          ∙ sym (get_or-committed_maps hs commits j))
    where
      each :
          (j : ℕ) → replayed commits (get_or longer j []) [] ≡ replayed commits (get_or hs j []) []
      each j = elim (Bool-cases (j == i)) [
        | inl e ↦
            rw (at_longer j, e, (==_iff j i).0 e)
              (replayed-snoc commits (get_or hs i []) r [] ∙ (rw not_yet refl))
        | inr e ↦ rw (at_longer j, e) refl
      ]

  -- One that is committed takes effect in its shard's map.
  pub maps-both :
      committed_maps longer (commits ++ r ∷ [])
      ≡ set (committed_maps hs commits) i (applied r (at (committed_maps hs commits) i))
  maps-both =
      get_or_ext [] (committed_maps longer (commits ++ r ∷ []))
        (set (committed_maps hs commits) i (applied r (at (committed_maps hs commits) i)))
        (length-committed longer (commits ++ r ∷ [])
          ∙ length-set hs i _
          ∙ sym (length-committed hs commits)
          ∙ sym (length-set (committed_maps hs commits) i _))
        (λ j h.
          get_or-committed_maps longer (commits ++ r ∷ []) j
          ∙ each j (
              omega (
                arith,
                length-committed longer (commits ++ r ∷ []),
                length-set hs i (get_or hs i [] ++ r ∷ []),
                logs.size,
              ))
          ∙ sym (
              get_or-set (committed_maps hs commits) i j
                (applied r (at (committed_maps hs commits) i)) []
                (omega (arith, length-committed hs commits, logs.size))))
    where
      each :
          (j : ℕ)
          → j < n
          → replayed (commits ++ r ∷ []) (get_or longer j []) [] ≡ (
              if j == i
              then applied r (at (committed_maps hs commits) i)
              else at (committed_maps hs commits) j)
      each j h = elim (Bool-cases (j == i)) [
        | inl e ↦
            rw (at_longer j, e, get_or-committed_maps hs commits i)
              (replayed-snoc (commits ++ r ∷ []) (get_or hs i []) r []
                ∙ (rw (find-snoc_new commits r not_yet) refl)
                ∙ ap (applied r) (replayed-commit commits r (get_or hs i []) [] (below i hi)))
        | inr e ↦
            rw (at_longer j, e, get_or-committed_maps hs commits j)
              (replayed-commit commits r (get_or hs j []) [] (below j h))
      ]
