-- ===== src/Database/Recovery.antt =====
-- A crash and a recovery leave what the database stands for as it is: a shard's map outlives the
-- shard's data in the fused table and the other shards.

use native.Mathlib.Nat.{add-zero}
use mathlib.Core.Path.{subst}
use vada_db.Common.{
  ℕ, suc, ◌+◌, ◌<◌, ◌≤◌, ◌≡◌, ◌≢◌, refl, ap, sym, ◌∙◌, true, false, List, [], ◌∷◌, ◌==◌, length,
  get_or, set, set-set, set-get_or, get_or-set_self, Bool-cases, lt→not_leb, arith, inl, inr,
}
use vada_db.Common.Int.{pos}
use vada_db.Result.{ok, Returns}
use vada_db.KvMap.{KvMap}
use vada_db.KvTable.Fused.{Fuses, at}
use vada_db.KvTable.Sorting.{sort-IsSorted}
use vada_db.KvTable.Group.{AreSurvivors}
use vada_db.KvTable.Recovery.{recover-Fuses}
use vada_db.Database.{Shard, Database, no_shard, set_shard}
use vada_db.Database.Failure.{
  other_failed, crash_shard, records_from_map, recovered_entries, recover_shard,
}
use vada_db.Database.Models.{IsRouted, shard, Models, others-up, set-Models}
use vada_db.Database.Gathering.{
  others_from, survivors_of-others, Distinct-others, IsIn-others, length-others_in,
  load_recovered-append,
}

module _ {d : Database} {maps : List KvMap} (models : Models d maps) (m : ℕ)
    (here : m < length maps) where
  AreSurvivors-others :
      (j : ℕ) (xs : List KvMap)
      → j + length xs ≤ length maps
      → ((i : ℕ) → i < length xs → get_or xs i [] ≡ at maps (j + i))
      → AreSurvivors models.fused m (others_from m j xs)
  AreSurvivors-others j [] h e = tt
  AreSurvivors-others j (x ∷ xs) h e =
      let rest =
        AreSurvivors-others (j + 1) xs (omega arith)
          (λ i p. e (suc i) (omega arith) ∙ ap (at maps) (omega arith)) in
      elim (Bool-cases (j == m)) [
        | inl q ↦ rw q rest
        | inr q ↦ rw q (
          omega (arith, models.fused.sources),
          ground arith,
          e 0 (omega arith) ∙ ap (at maps) (add-zero j),
          rest,
        )
      ]

  abbrev survivors : List (ℕ × KvMap)
  survivors = others_from m 0 maps

  -- The map of the shard is what `Recover` gives back from the other shards' maps.
  survivors-recover :
      ((i : ℕ) → i < length maps → m ≢ i → (shard d i).failed ≡ false)
      → recovered_entries (pos m) d ≡ ok (at maps m)
  unfolding recovered_entries records_from_map
  survivors-recover up =
      let held : (i : ℕ)
          → i < length maps
          → m ≢ 0 + i
          → records_from_map (shard d i).entries ≡ at maps i =
        λ i p ne.
          ap records_from_map (models.live i p (up i p (λ e. ne (omega arith))))
          ∙ sort-IsSorted (at maps i) (models.fused.sorted i) in
      let taken =
        survivors_of-others m 0 d.shards maps models.count (λ i p. models.ids i p ∙ omega arith)
          (λ i p ne. up i p (λ e. ne (omega arith))) held in
      let recovered =
        recover-Fuses models.fused m survivors (omega (arith, models.fused.sources))
          (AreSurvivors-others 0 maps (omega arith) (λ i p. ap (at maps) (omega arith)))
          (Distinct-others m 0 maps)
          (λ k p ne. IsIn-others m 0 k maps (omega arith) (omega (arith, models.fused.sources)) ne)
          (length-others_in m 0 maps (omega arith) (omega arith) ∙ models.fused.sources) in
      let loaded =
        load_recovered-append d m (at maps m) []
          (subst (λ n. IsRouted n m (at maps m)) (sym models.count) (models.routed m))
          (models.fused.sorted m) in
      rw (taken, recovered) loaded

  -- The shard's map back in its place.
  recovered : Database
  recovered = record d {
    shards = set d.shards m (record (shard d m) { entries = at maps m; failed = false });
  }

  recovered-Models : Models recovered maps
  unfolding recovered
  recovered-Models =
      subst (λ l. Models recovered l) (set-get_or maps m [])
        (set-Models models here (record {
          shards = refl;
          fused = subst (λ l. Fuses 16 d.fusion l) (sym (set-get_or maps m [])) models.fused;
          routed = models.routed m;
          id = models.ids m here;
          live = λ _. refl;
          single = λ e j h ne. absurd (ground (arith, e));
          logs = λ e. e;
          log = λ e. models.logged e m;
        }))

  recover_shard-recovered : (shard d m).failed ≡ true → recover_shard (pos m) d ≡ (ok tt, recovered)
  unfolding recover_shard recovered
  recover_shard-recovered e =
      let run = survivors-recover (λ i p ne. others-up models m i here p ne e) in
      rw (lt→not_leb (length d.shards) m (omega (arith, models.count)), e, run) refl

  -- `RecoverShard` of the failed shard succeeds: the shard is up, and the maps are what they were.
  pub recover_shard-Models :
      (shard d m).failed ≡ true
      → Returns (recover_shard (pos m) d).0 λ _.
        Models (recover_shard (pos m) d).1 maps
        × ((shard (recover_shard (pos m) d).1 m).failed ≡ false)
  unfolding recovered
  recover_shard-Models e = rw (recover_shard-recovered e) (
    tt,
    refl,
    (
      recovered-Models,
      ap (λ s. s.failed) (get_or-set_self d.shards m _ no_shard (omega (arith, models.count))),
    ),
  )

  other_failed-up :
      (j : ℕ) (ss : List Shard)
      → ((i : ℕ) → i < length ss → (get_or ss i no_shard).id ≡ j + i)
      → ((i : ℕ) → i < length ss → m ≢ j + i → (get_or ss i no_shard).failed ≡ false)
      → other_failed m ss ≡ false
  unfolding other_failed
  other_failed-up j [] ids up = refl
  other_failed-up j (s ∷ ss) ids up =
      let rest =
        other_failed-up (j + 1) ss (λ i h. ids (suc i) (omega arith) ∙ omega arith)
          (λ i h ne. up (suc i) (omega arith) (λ e. ne (omega arith))) in
      let id : s.id ≡ j = ids 0 (omega arith) ∙ add-zero j in
      elim (Bool-cases (j == m)) [
        | inl e ↦ rw (id, e, rest) (ground arith)
        | inr e ↦ rw (id, e, up 0 (omega arith) (ground arith), rest) refl
      ]

  module _ (up : (i : ℕ) → i < length maps → (shard d i).failed ≡ false) where
    none_failed : other_failed m d.shards ≡ false
    none_failed =
        other_failed-up 0 d.shards (λ i h. models.ids i (omega (arith, models.count)) ∙ omega arith)
          (λ i h _. up i (omega (arith, models.count)))

    crashed : Database
    crashed = set_shard d m (record (shard d m) { entries = []; failed = true })

    crash_shard-crashed : crash_shard (pos m) d ≡ (ok tt, crashed)
    unfolding crash_shard crashed
    crash_shard-crashed =
        rw (lt→not_leb (length d.shards) m (omega (arith, models.count)), none_failed, up m here)
          refl

    crashed-Models : Models crashed maps
    unfolding crashed set_shard
    crashed-Models =
        subst (λ l. Models crashed l) (set-get_or maps m [])
          (set-Models models here (record {
            shards = refl;
            fused = subst (λ l. Fuses 16 d.fusion l) (sym (set-get_or maps m [])) models.fused;
            routed = models.routed m;
            id = models.ids m here;
            live = λ e. absurd (ground (arith, e));
            single = λ e j h ne. up j h;
            logs = λ e. e;
            log = λ e. models.logged e m;
          }))

    crashed-failed : (shard crashed m).failed ≡ true
    unfolding crashed set_shard
    crashed-failed =
        ap (λ s. s.failed) (get_or-set_self d.shards m _ no_shard (omega (arith, models.count)))

    -- `CrashShard` on a database whose shards are all up: it succeeds, the data of the shard is
    -- gone, and the maps are what they were.
    pub crash_shard-Models : Returns (crash_shard (pos m) d).0 λ _.
        Models (crash_shard (pos m) d).1 maps
        × ((shard (crash_shard (pos m) d).1 m).failed ≡ true)
        × ((shard (crash_shard (pos m) d).1 m).entries ≡ [])
    unfolding crashed set_shard
    crash_shard-Models = rw crash_shard-crashed (
      tt,
      refl,
      (
        crashed-Models,
        ap (λ s. s.failed) (get_or-set_self d.shards m _ no_shard (omega (arith, models.count))),
        ap (λ s. s.entries) (get_or-set_self d.shards m _ no_shard (omega (arith, models.count))),
      ),
    )

    recovered-crashed :
        record crashed {
          shards =
              set crashed.shards m
                (record (shard crashed m) { entries = at maps m; failed = false });
        }
        ≡ d
    unfolding crashed set_shard
    recovered-crashed =
        rw
          (get_or-set_self d.shards m (record (shard d m) { entries = []; failed = true }) no_shard
            (omega (arith, models.count)))
          (ap (λ l. record d { shards = l })
            (set-set d.shards m _ _
              ∙ ap (set d.shards m) (λ j. record (shard d m) {
                entries = sym (models.live m here (up m here)) j;
                failed = sym (up m here) j;
              })
              ∙ set-get_or d.shards m no_shard))

-- On a database that stands for some maps and whose shards are all up: a crash and then a recovery
-- of the same shard succeed, and give the database back exactly as it was.
pub recover_shard-crash_shard :
    {d : Database} {maps : List KvMap}
    → Models d maps
    → (m : ℕ) → m < length maps
    → ((i : ℕ) → i < length maps → (shard d i).failed ≡ false)
    → recover_shard (pos m) (crash_shard (pos m) d).1 ≡ (ok tt, d)
unfolding recovered
recover_shard-crash_shard {d} models m here up = rw (crash_shard-crashed models m here up) (
    recover_shard-recovered (crashed-Models models m here up) m here
      (crashed-failed models m here up)
    ∙ ap (λ e. (ok tt, e)) (recovered-crashed models m here up))
