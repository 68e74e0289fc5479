-- ===== src/Database/Redoing.antt =====
-- The redo loop of `Open`: what it makes of the sources' records, shard by shard.
use mathlib.Core.Path.{subst}
use mathlib.Core.List.{append_assoc}
use native.Mathlib.Nat.{add-zero}
use vada_db.Common.{
  ℕ, zero, suc, ◌+◌, ◌<◌, ◌≡◌, ◌⊎◌, refl, ap, sym, ◌∙◌, Bool, true, false, none, some, List, [],
  ◌∷◌, ◌++◌, map, length, get_or, set, replicate, length-append, ltb, ◌==◌, if◌then◌else◌,
  Bool-cases, arith, inl, inr, lt→not_leb,
}
use vada_db.Result.{Returns}
use vada_db.KvMap
use vada_db.KvMap.{KvMap, IsSorted}
use vada_db.KvMap.Order.{IsSorted-put, IsSorted-remove}
use vada_db.Wal.{WalRecord, put_op}
use vada_db.Database.{Shard, Database, no_shard, set_shard, new_shards}
use vada_db.Database.Models.{IsRouted, IsRouted-put, IsRouted-remove}
use vada_db.Database.Opening.{find_sequence, is_found, apply, redo, redo_all}
use vada_db.Database.Rebuilding.{at-prefix, set-prefix}
use vada_db.Database.Replaying.{joined, applied, replayed, AreSource, same_record_refl}

abbrev pub plain_shard : ℕ → KvMap → Shard
plain_shard id m = record { id = id; entries = m; wal = none; failed = false }

-- The shards with these maps, from shard `id` on, as `Open` has them before the logs are attached.
abbrev pub shards_of : ℕ → List KvMap → List Shard
shards_of id [] = []
shards_of id (m ∷ ms) = plain_shard id m ∷ shards_of (id + 1) ms

pub length-shards_of : (id : ℕ) (ms : List KvMap) → length (shards_of id ms) ≡ length ms
length-shards_of id [] = refl
length-shards_of id (m ∷ ms) = ap suc (length-shards_of (id + 1) ms)

pub new_shards-shards_of : (id n : ℕ) → new_shards id n ≡ shards_of id (replicate n [])
new_shards-shards_of id zero = refl
new_shards-shards_of id (suc n) = ap (λ l. plain_shard id [] ∷ l) (new_shards-shards_of (id + 1) n)

pub id_step : (id i : ℕ) → id + 1 + i ≡ id + suc i
id_step id i = omega arith

pub get_or-shards_of :
    (id : ℕ) (ms : List KvMap) (i : ℕ)
    → i < length ms
    → get_or (shards_of id ms) i no_shard ≡ plain_shard (id + i) (get_or ms i [])
get_or-shards_of id [] i h = absurd (omega arith)
get_or-shards_of id (m ∷ ms) zero h = ap (λ k. plain_shard k m) (sym (add-zero id))
get_or-shards_of id (m ∷ ms) (suc i) h =
    get_or-shards_of (id + 1) ms i (omega arith)
    ∙ ap (λ k. plain_shard k (get_or ms i [])) (id_step id i)

set-shards_of :
    (id : ℕ) (ms : List KvMap) (i : ℕ) (m : KvMap)
    → set (shards_of id ms) i (plain_shard (id + i) m) ≡ shards_of id (set ms i m)
set-shards_of id [] i m = refl
set-shards_of id (x ∷ ms) zero m = ap (λ k. plain_shard k m ∷ shards_of (id + 1) ms) (add-zero id)
set-shards_of id (x ∷ ms) (suc i) m =
    ap (λ l. plain_shard id x ∷ l)
      (ap (λ k. set (shards_of (id + 1) ms) i (plain_shard k m)) (sym (id_step id i))
        ∙ set-shards_of (id + 1) ms i m)

-- A committed record takes effect in its shard's map.
shards-apply :
    (r : WalRecord) (d : Database) (pre post : List KvMap) (m : KvMap)
    → r.shard ≡ length pre
    → d.shards ≡ shards_of 0 (pre ++ m ∷ post)
    → (apply r d).shards ≡ shards_of 0 (pre ++ applied r m ∷ post)
unfolding apply set_shard
shards-apply r d pre post m e same =
    rw
      (
        same,
        e,
        get_or-shards_of 0 (pre ++ m ∷ post) (length pre)
            (omega (arith, length-append pre (m ∷ post))),
        at-prefix pre m post,
      )
      (set-shards_of 0 (pre ++ m ∷ post) (length pre) (applied r m)
        ∙ ap (shards_of 0) (set-prefix pre m post (applied r m)))

module _ (n : ℕ) (commits : List WalRecord) where
  redo_one : WalRecord → Database → Database
  redo_one r d =
      let d' = apply r d in
      record d' { committed = if ltb d'.committed r.sequence then r.sequence else d'.committed }

  redo_all-cons :
      (r : WalRecord) (rest : List WalRecord) (d : Database)
      → 0 < r.sequence
      → ((find_sequence r.sequence commits ≡ none) ⊎ (find_sequence r.sequence commits ≡ some r))
      → redo_all 0 commits (r ∷ rest) d
        ≡ redo_all 0 commits rest
            (if is_found (find_sequence r.sequence commits) then redo_one r d else d)
  unfolding redo_all redo redo_one
  redo_all-cons r rest d h (inl e) = rw (lt→not_leb r.sequence 0 h, e) refl
  redo_all-cons r rest d h (inr e) = rw (lt→not_leb r.sequence 0 h, e, same_record_refl r) refl

  shards-redo_one :
      (r : WalRecord) (d : Database) (pre post : List KvMap) (m : KvMap)
      → r.shard ≡ length pre
      → d.shards ≡ shards_of 0 (pre ++ m ∷ post)
      → (redo_one r d).shards ≡ shards_of 0 (pre ++ applied r m ∷ post)
  unfolding redo_one
  shards-redo_one r d pre post m e same = shards-apply r d pre post m e same

  redo_one-next : (r : WalRecord) (d : Database) → (redo_one r d).next ≡ d.next
  unfolding redo_one apply set_shard
  redo_one-next r d = refl

  -- The records of one shard go into its map.
  redo_source :
      (rs rest : List WalRecord) (d : Database) (pre post : List KvMap) (m : KvMap)
      → AreSource n (length pre) commits rs
      → d.shards ≡ shards_of 0 (pre ++ m ∷ post)
      → (d' : Database) × (redo_all 0 commits (rs ++ rest) d ≡ redo_all 0 commits rest d')
        × (d'.shards ≡ shards_of 0 (pre ++ replayed commits rs m ∷ post))
        × (d'.next ≡ d.next)
  redo_source [] rest d pre post m a same = (d, refl, same, refl)
  redo_source (r ∷ rs) rest d pre post m a same =
      elim (Bool-cases (is_found (find_sequence r.sequence commits))) [
        | inl e ↦
            let (d', run, done, next) =
              redo_source rs rest (redo_one r d) pre post (applied r m) a.5
                (shards-redo_one r d pre post m a.1 same) in
            (
              d',
              redo_all-cons r (rs ++ rest) d a.3 a.4 ∙ rw e run,
              rw e done,
              next ∙ redo_one-next r d,
            )
        | inr e ↦
            let (d', run, done, next) = redo_source rs rest d pre post m a.5 same in
            (d', redo_all-cons r (rs ++ rest) d a.3 a.4 ∙ rw e run, rw e done, next)
      ]

  -- The records of all shards from `length pre` on.
  pub redo_sources :
      (hs : List (List WalRecord)) (d : Database) (pre : List KvMap)
      → d.shards ≡ shards_of 0 (pre ++ replicate (length hs) [])
      → ((i : ℕ) → i < length hs → AreSource n (length pre + i) commits (get_or hs i []))
      → Returns (redo_all 0 commits (joined hs) d) λ d'.
        (d'.shards ≡ shards_of 0 (pre ++ map (λ h. replayed commits h []) hs)) × (d'.next ≡ d.next)
  redo_sources [] d pre same a = (d, unfold redo_all in refl, (same, refl))
  redo_sources (h ∷ hs) d pre same a =
      let here : AreSource n (length pre) commits h =
        subst (λ k. AreSource n k commits h) (add-zero (length pre)) (a 0 (omega arith)) in
      let (d1, run, done, next) =
        redo_source h (joined hs) d pre (replicate (length hs) []) [] here same in
      let m : KvMap = replayed commits h [] in
      let (d2, run', done') =
        redo_sources hs d1 (pre ++ m ∷ [])
          (done ∙ ap (shards_of 0) (sym (append_assoc pre (m ∷ []) (replicate (length hs) []))))
          (λ i p.
            subst (λ k. AreSource n k commits (get_or hs i [])) {x = length pre + suc i}
              {y = length (pre ++ m ∷ []) + i} (omega (arith, length-append pre (m ∷ [])))
              (a (suc i) (omega arith))) in
      (
        d2,
        run ∙ run',
        (
          done'.0
              ∙ ap (shards_of 0)
                  (append_assoc pre (m ∷ []) (map (λ h'. replayed commits h' []) hs)),
          done'.1 ∙ next,
        ),
      )

  pub IsSorted-replayed :
      (rs : List WalRecord) (m : KvMap) → IsSorted m → IsSorted (replayed commits rs m)
  IsSorted-replayed [] m s = s
  IsSorted-replayed (r ∷ rs) m s =
      IsSorted-replayed rs _ (each (is_found (find_sequence r.sequence commits)) (r.op == put_op))
    where
      each :
          (f o : Bool)
          → IsSorted
              (if f then (if o then KvMap.put r.key r.value m else KvMap.remove r.key m) else m)
      each false o = s
      each true true = IsSorted-put r.key r.value m s
      each true false = IsSorted-remove r.key m s

  pub IsRouted-replayed :
      (i : ℕ) (rs : List WalRecord) (m : KvMap)
      → AreSource n i commits rs
      → IsRouted n i m
      → IsRouted n i (replayed commits rs m)
  IsRouted-replayed i [] m a s = s
  IsRouted-replayed i (r ∷ rs) m a s =
      IsRouted-replayed i rs _ a.5
        (each (is_found (find_sequence r.sequence commits)) (r.op == put_op))
    where
      each :
          (f o : Bool)
          → IsRouted n i
              (if f then (if o then KvMap.put r.key r.value m else KvMap.remove r.key m) else m)
      each false o = s
      each true true = IsRouted-put n i r.key r.value m a.2 s
      each true false = IsRouted-remove n i r.key m s
