-- ===== src/Database/Models.antt =====
-- What the database stands for: one map for each shard, whether the shard is failed or not.
use vada_db.Common.{
  ℕ, zero, suc, ◌+◌, ◌%◌, ◌<◌, ◌≤◌, ◌≡◌, ◌≢◌, refl, ap, sym, ◌∙◌, Bool, true, false, none, List, [],
  ◌∷◌, ◌==◌, if◌then◌else◌, length, get_or, set, length-set, get_or-set, Bool-cases, ==_iff, arith,
  inl, inr, replicate, length-replicate, get_or-replicate, not_ltb,
}
use vada_db.Common.Int.{pos}
use vada_db.Result.{Returns}
use vada_db.KvMap.{KvMap, put, remove}
use vada_db.KvTable.Fused.{Fuses, at, new-Fuses}
use vada_db.Database.{Shard, Database, no_shard, new, new_shards}

-- Every key is routed to shard `i` of `n`.
abbrev pub IsRouted : ℕ → ℕ → KvMap → Type 0
IsRouted n i [] = Unit
IsRouted n i (x ∷ xs) = (x.key % n ≡ i) × IsRouted n i xs

pub IsRouted-put : (n i k v : ℕ) (m : KvMap) → k % n ≡ i → IsRouted n i m → IsRouted n i (put k v m)
unfolding put
IsRouted-put n i k v [] e r = (e, tt)
IsRouted-put n i k v (x ∷ xs) e r = ground (arith, IsRouted-put n i k v xs)

pub IsRouted-remove : (n i k : ℕ) (m : KvMap) → IsRouted n i m → IsRouted n i (remove k m)
unfolding remove
IsRouted-remove n i k [] r = tt
IsRouted-remove n i k (x ∷ xs) r = ground (arith, IsRouted-remove n i k xs)

abbrev pub shard : Database → ℕ → Shard
shard d i = get_or d.shards i no_shard

-- Each shard that is not failed holds its map, the fused table fuses all the maps, and at most
-- one shard is failed. A database with a shard's log has the fusion's log.
pub record Models (d : Database) (maps : List KvMap) : Type 0 where
  pub count : length d.shards ≡ length maps
  pub many : 2 ≤ length maps
  pub fused : Fuses 16 d.fusion maps
  pub ids : (i : ℕ) → i < length maps → (shard d i).id ≡ i
  pub live :
      (i : ℕ) → i < length maps → (shard d i).failed ≡ false → (shard d i).entries ≡ at maps i
  pub routed : (i : ℕ) → IsRouted (length maps) i (at maps i)
  pub single :
      (i j : ℕ)
      → i < length maps
      → j < length maps
      → (shard d i).failed ≡ true
      → (shard d j).failed ≡ true
      → i ≡ j
  pub logged : d.fusion_wal ≡ none → (i : ℕ) → (shard d i).wal ≡ none

clash {ℓ} : {A : Type ℓ} {b : Bool} → b ≡ true → b ≡ false → A
clash e f = absurd (ground arith)

-- Beside a failed shard no other one is.
pub others-up :
    {d : Database} {maps : List KvMap}
    → Models d maps
    → (i j : ℕ) → i < length maps
    → j < length maps
    → i ≢ j
    → (shard d i).failed ≡ true
    → (shard d j).failed ≡ false
others-up {d} models i j h k ne e = elim (Bool-cases (shard d j).failed) [
  | inl f ↦ absurd (ne (models.single i j h k e f))
  | inr f ↦ f
]

-- A step that writes shard `i` and its map.
pub record Step (d : Database) (maps : List KvMap) (i : ℕ) (d' : Database) (s : Shard) (m : KvMap)
    : Type 0 where
  pub shards : d'.shards ≡ set d.shards i s
  pub fused : Fuses 16 d'.fusion (set maps i m)
  pub routed : IsRouted (length maps) i m
  pub id : s.id ≡ i
  pub live : s.failed ≡ false → s.entries ≡ m
  pub single : s.failed ≡ true → (j : ℕ) → j < length maps → i ≢ j → (shard d j).failed ≡ false
  pub logs : d'.fusion_wal ≡ none → d.fusion_wal ≡ none
  pub log : d'.fusion_wal ≡ none → s.wal ≡ none

module _ {d : Database} {maps : List KvMap} (models : Models d maps) {i : ℕ}
    (here : i < length maps) {d' : Database} {s : Shard} {m : KvMap}
    (step : Step d maps i d' s m) where
  shard-set : (j : ℕ) → shard d' j ≡ (if j == i then s else shard d j)
  shard-set j =
      ap (λ l. get_or l j no_shard) step.shards
      ∙ get_or-set d.shards i j s no_shard (omega (arith, models.count))

  at-set : (j : ℕ) → at (set maps i m) j ≡ (if j == i then m else at maps j)
  at-set j = get_or-set maps i j m [] here

  -- The two cases of a shard of the new database.
  pub shard_self : shard d' i ≡ s
  shard_self = shard-set i ∙ ground arith

  pub shard_other : (j : ℕ) → (j == i) ≡ false → shard d' j ≡ shard d j
  shard_other j e = rw (shard-set j, e) refl

  module _ (P : ℕ → Shard → KvMap → Type 0) where
    at_each :
        P i s m
        → ((j : ℕ) → i ≢ j → P j (shard d j) (at maps j))
        → (j : ℕ) → P j (shard d' j) (at (set maps i m) j)
    at_each p q j = elim (Bool-cases (j == i)) [
      | inl e ↦ rw (shard-set j, at-set j, e, (==_iff j i).0 e) p
      | inr e ↦ rw (shard-set j, at-set j, e) (q j (ground arith))
    ]

  single-set :
      (j k : ℕ)
      → j < length maps
      → k < length maps
      → (if j == i then s else shard d j).failed ≡ true
      → (if k == i then s else shard d k).failed ≡ true
      → j ≡ k
  single-set j k p q = elim (Bool-cases (j == i)) [
    | inl a ↦ elim (Bool-cases (k == i)) [
      | inl b ↦ ground arith
      | inr b ↦ rw (a, b) (λ e f. clash f (step.single e k q (ground arith)))
    ]
    | inr a ↦ elim (Bool-cases (k == i)) [
      | inl b ↦ rw (a, b) (λ e f. clash e (step.single f j p (ground arith)))
      | inr b ↦ rw (a, b) (λ e f. models.single j k p q e f)
    ]
  ]

  pub set-Models : Models d' (set maps i m)
  set-Models =
      let size : length (set maps i m) ≡ length maps = length-set maps i m in
      record {
        count = ap (λ l. length l) step.shards ∙ length-set d.shards i s ∙ models.count ∙ sym size;
        many = rw size models.many;
        fused = step.fused;
        ids = λ j h.
            at_each (λ k t _. k < length maps → t.id ≡ k) (λ _. step.id) (λ k _. models.ids k) j
              (omega (arith, size));
        live = λ j h.
            at_each (λ k t l. k < length maps → t.failed ≡ false → t.entries ≡ l) (λ _. step.live)
              (λ k _. models.live k) j (omega (arith, size));
        routed = λ j.
            rw size (
              at_each (λ k _ l. IsRouted (length maps) k l) step.routed (λ k _. models.routed k) j);
        single = λ j k p q.
            rw (shard-set j, shard-set k)
              (single-set j k (omega (arith, size)) (omega (arith, size)));
        logged = λ e.
            at_each (λ _ t _. t.wal ≡ none) (step.log e) (λ k _. models.logged (step.logs e) k);
      }

abbrev fresh : ℕ → Shard
fresh id = record { id = id; entries = []; wal = none; failed = false }

new_shards-get :
    (id count i : ℕ) → i < count → get_or (new_shards id count) i no_shard ≡ fresh (id + i)
new_shards-get id zero i h = absurd (omega arith)
new_shards-get id (suc count) zero h = ap fresh (omega arith)
new_shards-get id (suc count) (suc i) h =
    new_shards-get (id + 1) count i (omega arith) ∙ ap fresh (omega arith)

length-new_shards : (id count : ℕ) → length (new_shards id count) ≡ count
length-new_shards id zero = refl
length-new_shards id (suc count) = ap suc (length-new_shards (id + 1) count)

new_shards-wal : (id count i : ℕ) → (get_or (new_shards id count) i no_shard).wal ≡ none
new_shards-wal id zero i = refl
new_shards-wal id (suc count) zero = refl
new_shards-wal id (suc count) (suc i) = new_shards-wal (id + 1) count i

-- `New` with at least two shards succeeds, and the database stands for an empty map for each shard.
pub new-Models : (w : ℕ) → 2 ≤ w → Returns (new (pos w)) λ d. Models d (replicate w [])
unfolding new
new-Models w h =
    let (t, run, fused) = new-Fuses w 16 h (omega arith) in
    let size : length (replicate {A = KvMap} w []) ≡ w = length-replicate w [] in
    (
      record {
        shards = new_shards 0 w;
        next = 1;
        committed = 0;
        checkpoint = 0;
        has_snapshot = false;
        fusion = t;
        fusion_wal = none;
      },
      rw (not_ltb w 2 h, run) refl,
      record {
        count = length-new_shards 0 w ∙ sym size;
        many = rw size h;
        fused = fused.0;
        ids = λ i p. ap (λ s. s.id) (new_shards-get 0 w i (omega (arith, size))) ∙ omega arith;
        live = λ i p _.
            ap (λ s. s.entries) (new_shards-get 0 w i (omega (arith, size)))
            ∙ sym (get_or-replicate {A = KvMap} w i []);
        routed = λ i. rw (get_or-replicate {A = KvMap} w i []) tt;
        single = λ i j p q e f.
            clash e (ap (λ s. s.failed) (new_shards-get 0 w i (omega (arith, size))));
        logged = λ _ i. new_shards-wal 0 w i;
      },
    )
