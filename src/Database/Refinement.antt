-- ===== src/Database/Refinement.antt =====
-- The database as a specification sees it: one map for each shard, that only a successful `Put` or
-- `Delete` changes, whatever crashes and recoveries lie between.
use native.Mathlib.Nat.{add-zero}
use mathlib.Core.Path.{subst}
use vada_db.Common.{
  ℕ, zero, suc, ◌+◌, ◌%◌, ◌<◌, ◌≡◌, ◌≢◌, refl, ap, sym, ◌∙◌, true, false, none, List, [], ◌∷◌, ◌==◌,
  if◌then◌else◌, length, get_or, set, set-get_or, leb, Bool-cases, Option-cases, ==_iff, arith, inl,
  inr,
}
use vada_db.Common.Int.{ℤ, pos, negsuc}
use vada_db.Result.{Result, ok, err, panic, shard_unavailable}
use vada_db.KvMap
use vada_db.KvMap.{KvMap, lookup}
use vada_db.KvTable.Fused.{at}
use vada_db.Database.{Shard, Database, Outcome, CommitOutcome, no_shard, put, delete, get}
use vada_db.Database.Failure.{other_failed, crash_shard, recover_shard}
use vada_db.Database.Models.{shard, Models}
use vada_db.Database.Writes.{put-Follows, delete-Follows}
use vada_db.Database.Commits.{Follows, shard_of-home, home, home-lt}
use vada_db.Database.Recovery.{recover_shard-Models, crash_shard-Models}

-- The methods that change a database in memory, with their arguments.
pub data Command : Type 0 where
  put_command : ℕ → ℕ → CommitOutcome → Command
  delete_command : ℕ → CommitOutcome → Command
  crash_command : ℤ → Command
  recover_command : ℤ → Command

abbrev pub step : Command → Database → Outcome (Unit {0})
step (put_command key value io) d = put key value io d
step (delete_command key io) d = delete key io d
step (crash_command id) d = crash_shard id d
step (recover_command id) d = recover_shard id d

-- What a command does to the maps, given what it returned.
abbrev pub effect : Command → Result (Unit {0}) → List KvMap → List KvMap
effect (put_command key value io) (ok _) maps =
    let i = key % length maps in set maps i (KvMap.put key value (at maps i))
effect (delete_command key io) (ok _) maps =
    let i = key % length maps in set maps i (KvMap.remove key (at maps i))
effect _ _ maps = maps

put_effect :
    (o : Outcome (Unit {0})) (key value : ℕ) (io : CommitOutcome) (maps : List KvMap)
    → Follows o maps (effect (put_command key value io) (ok tt) maps)
    → Models o.1 (effect (put_command key value io) o.0 maps)
put_effect (ok _, d) key value io maps f = f
put_effect (err e, d) key value io maps f = f
put_effect (panic, d) key value io maps f = absurd f

delete_effect :
    (o : Outcome (Unit {0})) (key : ℕ) (io : CommitOutcome) (maps : List KvMap)
    → Follows o maps (effect (delete_command key io) (ok tt) maps)
    → Models o.1 (effect (delete_command key io) o.0 maps)
delete_effect (ok _, d) key io maps f = f
delete_effect (err e, d) key io maps f = f
delete_effect (panic, d) key io maps f = absurd f

module _ {d : Database} {maps : List KvMap} (models : Models d maps) where
  pub put-failed :
      (key value : ℕ) (io : CommitOutcome)
      → (shard d (home models key)).failed ≡ true
      → put key value io d ≡ (err shard_unavailable, d)
  unfolding put
  put-failed key value io e = rw (shard_of-home models key, e) refl

  put-step :
      (key value : ℕ) (io : CommitOutcome)
      → Models
          (put key value io d).1
          (effect (put_command key value io) (put key value io d).0 maps)
  put-step key value io = elim (Bool-cases (shard d (home models key)).failed) [
    | inl e ↦ rw (put-failed key value io e) models
    | inr e ↦
        put_effect (put key value io d) key value io maps (put-Follows models key io value e).0
  ]

  pub delete-failed :
      (key : ℕ) (io : CommitOutcome)
      → (shard d (home models key)).failed ≡ true
      → delete key io d ≡ (err shard_unavailable, d)
  unfolding delete
  delete-failed key io e = rw (shard_of-home models key, e) refl

  pub delete-absent :
      (key : ℕ) (io : CommitOutcome)
      → (shard d (home models key)).failed ≡ false
      → lookup (at maps (home models key)) key ≡ none
      → delete key io d ≡ (ok tt, d)
  unfolding delete
  delete-absent key io e absent =
      rw (shard_of-home models key, e, models.live (home models key) (home-lt models key) e, absent)
        refl

  pub remove-absent : (key : ℕ) (m : KvMap) → lookup m key ≡ none → KvMap.remove key m ≡ m
  unfolding KvMap.remove lookup
  remove-absent key [] e = refl
  remove-absent key (x ∷ xs) e = ground (arith, remove-absent key xs)

  delete-step :
      (key : ℕ) (io : CommitOutcome)
      → Models (delete key io d).1 (effect (delete_command key io) (delete key io d).0 maps)
  delete-step key io = elim (Bool-cases (shard d (home models key)).failed) [
    | inl e ↦ rw (delete-failed key io e) models
    | inr e ↦ elim (Option-cases (lookup (at maps (home models key)) key)) [
      | inl absent ↦ rw (delete-absent key io e absent) (
          subst (λ l. Models d l)
            (sym (
              ap (set maps (home models key)) (remove-absent key (at maps (home models key)) absent)
              ∙ set-get_or maps (home models key) []))
            models)
      | inr (old, present) ↦
          delete_effect (delete key io d) key io maps (delete-Follows models key io old e present).0
    ]
  ]

  other_failed-false :
      (m j : ℕ) (ss : List Shard)
      → other_failed m ss ≡ false
      → ((i : ℕ) → i < length ss → (get_or ss i no_shard).id ≡ j + i)
      → (i : ℕ) → i < length ss
      → m ≢ j + i
      → (get_or ss i no_shard).failed ≡ false
  unfolding other_failed
  other_failed-false m j [] e ids i h ne = absurd (omega arith)
  other_failed-false m j (s ∷ ss) e ids zero h ne = ground (arith, ids 0 (omega arith), add-zero j)
  other_failed-false m j (s ∷ ss) e ids (suc i) h ne =
      other_failed-false m (j + 1) ss (ground arith)
        (λ k p. ids (suc k) (omega arith) ∙ omega arith) i (omega arith) (λ q. ne (omega arith))

  crash-up :
      (m : ℕ)
      → m < length maps
      → other_failed m d.shards ≡ false
      → (shard d m).failed ≡ false
      → Models (crash_shard (pos m) d).1 maps
  crash-up m here f g =
      (crash_shard-Models models m here (λ i h. elim (Bool-cases (m == i)) [
        | inl e ↦ subst (λ k. (shard d k).failed ≡ false) ((==_iff m i).0 e) g
        | inr e ↦
            other_failed-false m 0 d.shards f
              (λ k p. models.ids k (omega (arith, models.count)) ∙ omega arith) i
              (omega (arith, models.count)) (ground arith)
      ])).2.0

  crash-step : (id : ℤ) → Models (crash_shard id d).1 maps
  unfolding crash_shard
  crash-step (negsuc n) = models
  crash-step (pos m) = elim (Bool-cases (leb (length d.shards) m)) [
    | inl e ↦ rw e models
    | inr e ↦ elim (Bool-cases (other_failed m d.shards)) [
      | inl f ↦ rw (e, f) models
      | inr f ↦ elim (Bool-cases (shard d m).failed) [
        | inl g ↦ rw (e, f, g) models
        | inr g ↦ crash-up m (ground (arith, models.count)) f g
      ]
    ]
  ]

  recover-failed :
      (m : ℕ)
      → m < length maps
      → (shard d m).failed ≡ true
      → Models (recover_shard (pos m) d).1 maps
  recover-failed m here e = (recover_shard-Models models m here e).2.0

  recover-step : (id : ℤ) → Models (recover_shard id d).1 maps
  unfolding recover_shard
  recover-step (negsuc n) = models
  recover-step (pos m) = elim (Bool-cases (leb (length d.shards) m)) [
    | inl e ↦ rw e models
    | inr e ↦ elim (Bool-cases (shard d m).failed) [
      | inl g ↦ recover-failed m (ground (arith, models.count)) g
      | inr g ↦ rw (e, g) models
    ]
  ]

  -- On a database that stands for some maps, whatever `Put`, `Delete`, `CrashShard` or `RecoverShard`
  -- returns: the database then stands for the maps on which the call has had the effect that belongs
  -- to its result. Only a successful `Put` or `Delete` has one, on the map of the key's shard.
  pub step-Models : (c : Command) → Models (step c d).1 (effect c (step c d).0 maps)
  step-Models (put_command key value io) = put-step key value io
  step-Models (delete_command key io) = delete-step key io
  step-Models (crash_command id) = crash-step id
  step-Models (recover_command id) = recover-step id

  -- `Get` on a database that stands for some maps: it reads the map of the key's shard, or returns an
  -- error if that shard is failed.
  pub get-Models :
      (key : ℕ)
      → let i = key % length maps in
        get key d
        ≡ (if (shard d i).failed then err shard_unavailable else ok (lookup (at maps i) key))
  unfolding get
  get-Models key = elim (Bool-cases (shard d (home models key)).failed) [
    | inl e ↦ rw (shard_of-home models key, e) refl
    | inr e ↦
        rw (shard_of-home models key, e, models.live (home models key) (home-lt models key) e) refl
  ]
