-- ===== src/Database/Inserting.antt =====
-- `rebuildFusion` inserts the records of one shard, each at the end of its bucket.
use mathlib.Core.Path.{subst}
use vada_db.Common.{
  ℕ, ◌+◌, ◌%◌, ◌<◌, ◌≡◌, refl, ap, sym, ◌∙◌, inl, inr, none, List, [], ◌∷◌, length, get_or, set,
  modify, replicate, set-set, set-get_or, length-set, length-modify, length-replicate,
  get_or-replicate, get_or-set_self, get_or-modify_self, get_or-modify_ne, ◌==◌, if◌then◌else◌,
  Bool-cases, ==_iff, ==_refl, arith,
}
use vada_db.Result.{Returns}
use vada_db.KvBucket.{KvRecord}
use vada_db.KvMap.{KvMap, IsSorted, lookup, put, search, keep}
use vada_db.KvMap.Column.{rank, lookup-keep, keep-put, put-absent}
use vada_db.KvTable.{Table, bucket}
use vada_db.KvTable.Fused.{Fuses, column_of, at}
use vada_db.KvTable.Update.{insert-Fuses, length-insert_at}
use vada_db.Database.Opening.{fuse_records}
use vada_db.Database.Ordering.{AllAfter, IsOrdered, put_all}

-- Every key is below `k`.
abbrev AllBelow : ℕ → KvMap → Type 0
AllBelow k [] = Unit
AllBelow k (x ∷ xs) = (x.key < k) × AllBelow k xs

rank-AllBelow : (k : ℕ) (m : KvMap) → AllBelow k m → rank m k ≡ length m
unfolding search
rank-AllBelow k [] a = refl
rank-AllBelow k (x ∷ xs) a = ground (arith, rank-AllBelow k xs)

lookup-AllBelow : (k : ℕ) (m : KvMap) → AllBelow k m → lookup m k ≡ none
unfolding lookup
lookup-AllBelow k [] a = refl
lookup-AllBelow k (x ∷ xs) a = ground (arith, lookup-AllBelow k xs)

AllBelow-put : (k j v : ℕ) (m : KvMap) → j < k → AllBelow k m → AllBelow k (put j v m)
unfolding put
AllBelow-put k j v [] h a = (h, tt)
AllBelow-put k j v (x ∷ xs) h a = ground (arith, AllBelow-put k j v xs)

-- Each record is the last of its bucket, as far as the map goes.
abbrev pub AreLast : KvMap → List KvRecord → Type 0
AreLast m [] = Unit
AreLast m (x ∷ xs) = AllBelow x.key (column_of 16 (x.key % 16) m) × AreLast m xs

column-put :
    (k v c : ℕ) (m : KvMap)
    → IsSorted m
    → column_of 16 c (put k v m)
      ≡ (if k % 16 == c then put k v (column_of 16 c m) else column_of 16 c m)
column-put k v c m s = keep-put (λ j. j % 16 == c) k v m s

AreLast-put :
    (k v : ℕ) (m : KvMap) (xs : List KvRecord)
    → IsSorted m
    → AllAfter k xs
    → AreLast m xs
    → AreLast (put k v m) xs
AreLast-put k v m [] s a l = tt
AreLast-put k v m (x ∷ xs) s a l = (
  elim (Bool-cases (k % 16 == x.key % 16)) [
    | inl e ↦
        rw (column-put k v (x.key % 16) m s, e)
          (AllBelow-put x.key k v (column_of 16 (x.key % 16) m) (ground arith) l.0)
    | inr e ↦ rw (column-put k v (x.key % 16) m s, e) l.0
  ],
  AreLast-put k v m xs s a.1 l.1,
)

bucket-16 : (t : Table) (k : ℕ) → length t.buckets ≡ 16 → bucket t k ≡ k % 16
unfolding bucket
bucket-16 t k count = ap (λ c. k % c) count

column-absent : (m : KvMap) (k : ℕ) → AllBelow k (column_of 16 (k % 16) m) → lookup m k ≡ none
column-absent m k below =
    let kept = lookup-keep (λ j. j % 16 == k % 16) m k in
    let same : lookup (column_of 16 (k % 16) m) k ≡ lookup m k =
      kept ∙ rw (==_refl (k % 16)) refl in
    sym same ∙ lookup-AllBelow k (column_of 16 (k % 16) m) below

pub AreLast-nil : (xs : List KvRecord) → AreLast [] xs
unfolding keep
AreLast-nil [] = tt
AreLast-nil (x ∷ xs) = (tt, AreLast-nil xs)

module _ (s : ℕ) where
  -- The indices are the lengths of the columns.
  abbrev pub CountsColumns : List ℕ → KvMap → Type 0
  CountsColumns indices m =
      (length indices ≡ 16) × ((c : ℕ) → c < 16 → get_or indices c 0 ≡ length (column_of 16 c m))

  CountsColumns-put :
      (indices : List ℕ) (m : KvMap) (k v : ℕ)
      → IsSorted m
      → AllBelow k (column_of 16 (k % 16) m)
      → CountsColumns indices m
      → CountsColumns (modify indices (k % 16) (λ i. i + 1)) (put k v m)
  CountsColumns-put indices m k v sorted below counts = (
    length-modify indices (k % 16) (λ i. i + 1) ∙ counts.0,
    λ c h. elim (Bool-cases (k % 16 == c)) [
      | inl e ↦
          let same : k % 16 ≡ c = (==_iff (k % 16) c).0 e in
          let below' = subst (λ b. AllBelow k (column_of 16 b m)) same below in
          rw
            (
              column-put k v c m sorted,
              e,
              same,
              get_or-modify_self indices c (λ i. i + 1) 0 (omega (arith, counts.0)),
              put-absent (column_of 16 c m) k v (lookup-AllBelow k (column_of 16 c m) below'),
            )
            (omega (
              arith,
              counts.1 c h,
              length-insert_at (column_of 16 c m) (rank (column_of 16 c m) k)
                  (record { key = k; value = v }),
            ))
      | inr e ↦
          rw
            (
              column-put k v c m sorted,
              e,
              get_or-modify_ne indices (k % 16) c (λ i. i + 1) 0 (ground arith),
            )
            (counts.1 c h)
    ],
  )

  pub counts_nil : CountsColumns (replicate 16 0) []
  unfolding keep
  counts_nil = (length-replicate {A = ℕ} 16 0, λ c h. get_or-replicate 16 c 0)

  -- The records of one shard, inserted in their order.
  pub fuse_records-Fuses :
      (rs : List KvRecord) (indices : List ℕ) (t : Table) (maps : List KvMap)
      → Fuses 16 t maps
      → s < length maps
      → CountsColumns indices (at maps s)
      → IsOrdered rs
      → AreLast (at maps s) rs
      → Returns
          (fuse_records s indices rs t)
          λ t'. Fuses 16 t' (set maps s (put_all rs (at maps s)))
  unfolding fuse_records
  fuse_records-Fuses [] indices t maps f hs counts ordered last =
      (t, refl, subst (λ l. Fuses 16 t l) (sym (set-get_or maps s [])) f)
  fuse_records-Fuses (r ∷ rs) indices t maps f hs counts ordered last =
      let m : KvMap = at maps s in
      let home : bucket t r.key ≡ r.key % 16 = bucket-16 t r.key f.count in
      let index : get_or indices (r.key % 16) 0 ≡ rank (column_of 16 (r.key % 16) m) r.key =
        counts.1 (r.key % 16) (omega arith)
        ∙ sym (rank-AllBelow r.key (column_of 16 (r.key % 16) m) last.0) in
      let absent : lookup m r.key ≡ none = column-absent m r.key last.0 in
      let (t1, run, f1) = insert-Fuses f s r.key (omega (arith, f.sources)) r.value absent in
      let now : at (set maps s (put r.key r.value m)) s ≡ put r.key r.value m =
        get_or-set_self maps s (put r.key r.value m) [] hs in
      let (t2, rest, f2) =
        fuse_records-Fuses rs (modify indices (r.key % 16) (λ i. i + 1)) t1
          (set maps s (put r.key r.value m)) f1
          (omega (arith, length-set maps s (put r.key r.value m)))
          (subst (CountsColumns (modify indices (r.key % 16) (λ i. i + 1))) (sym now)
            (CountsColumns-put indices m r.key r.value (f.sorted s) last.0 counts))
          ordered.1
          (subst (λ l. AreLast l rs) (sym now)
            (AreLast-put r.key r.value m rs (f.sorted s) ordered.0 last.1)) in
      (
        t2,
        rw (home, index, run) rest,
        subst (λ l. Fuses 16 t2 l)
            (ap (λ l. set (set maps s (put r.key r.value m)) s (put_all rs l)) now
              ∙ set-set maps s (put r.key r.value m) (put_all rs (put r.key r.value m)))
            f2,
      )
