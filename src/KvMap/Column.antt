-- ===== src/KvMap/Column.antt =====
-- A map's operations by position: the index at which `sort.Search` finds a key is the index of its
-- entry; and they go through a test on keys.
use vada_db.Common.{
  ℕ, ◌≤◌, ◌≡◌, refl, ap, Bool, none, some, List, [], ◌∷◌, map, if◌then◌else◌, length, get_elem?,
  set, insert_at, remove_at, arith,
}
use vada_db.KvMap.{KvMap, lookup, put, remove, Above, IsSorted, keep, search}
use vada_db.KvMap.Order.{Above-trans, lookup-Above_self, lookup-Above, Above-keep}

abbrev pub keys : KvMap → List ℕ
keys = map (λ x. x.key)

-- The index of `k` in a map.
abbrev pub rank : KvMap → ℕ → ℕ
rank m k = search (keys m) k

pub rank-le : (m : KvMap) (k : ℕ) → rank m k ≤ length m
unfolding search
rank-le [] k = omega arith
rank-le (x ∷ xs) k = ground (arith, rank-le xs k)

pub put-absent :
    (m : KvMap) (k v : ℕ)
    → lookup m k ≡ none
    → put k v m ≡ insert_at m (rank m k) (record { key = k; value = v })
unfolding lookup put search
put-absent [] k v e = refl
put-absent (x ∷ xs) k v e = ground (arith, put-absent xs k v)

pub get_elem?-rank :
    (m : KvMap) (k old : ℕ)
    → IsSorted m
    → lookup m k ≡ some old
    → get_elem? m (rank m k) ≡ some (record { key = k; value = old })
unfolding lookup search
get_elem?-rank [] k old s e = cc
get_elem?-rank (x ∷ xs) k old s e =
    ground (arith, get_elem?-rank xs k old, lookup-Above_self k xs, lookup-Above k x.key xs)

pub put-present :
    (m : KvMap) (k v old : ℕ)
    → IsSorted m
    → lookup m k ≡ some old
    → put k v m ≡ set m (rank m k) (record { key = k; value = v })
unfolding lookup put search
put-present [] k v old s e = cc
put-present (x ∷ xs) k v old s e = ground (arith, put-present xs k v old, lookup-Above k x.key xs)

pub remove-present :
    (m : KvMap) (k old : ℕ)
    → IsSorted m
    → lookup m k ≡ some old
    → remove k m ≡ remove_at m (rank m k)
unfolding lookup remove search
remove-present [] k old s e = cc
remove-present (x ∷ xs) k old s e = ground (arith, remove-present xs k old, lookup-Above k x.key xs)

-- A test that depends on the key alone.
module _ (p : ℕ → Bool) where
  abbrev pub keep_keys : KvMap → KvMap
  keep_keys = keep (λ x. p x.key)

  pub lookup-keep :
      (m : KvMap) (k : ℕ) → lookup (keep_keys m) k ≡ (if p k then lookup m k else none)
  unfolding lookup keep
  lookup-keep [] k = ground arith
  lookup-keep (x ∷ xs) k = ground (arith, lookup-keep xs k, ap p {x = x.key} {y = k})

  put-first : (k v : ℕ) (m : KvMap) → Above k m → put k v m ≡ record { key = k; value = v } ∷ m
  unfolding put
  put-first k v [] a = refl
  put-first k v (x ∷ xs) a = ground arith

  pub keep-put :
      (k v : ℕ) (m : KvMap)
      → IsSorted m
      → keep_keys (put k v m) ≡ (if p k then put k v (keep_keys m) else keep_keys m)
  unfolding put keep
  keep-put k v [] s = refl
  keep-put k v (x ∷ xs) s = ground (
    arith,
    keep-put k v xs,
    put-first k v (keep_keys xs),
    Above-keep (λ x. p x.key) k xs,
    Above-trans k x.key xs,
  )

  pub keep-remove :
      (k : ℕ) (m : KvMap)
      → IsSorted m
      → keep_keys (remove k m) ≡ (if p k then remove k (keep_keys m) else keep_keys m)
  unfolding remove keep
  keep-remove k [] s = ground arith
  keep-remove k (x ∷ xs) s = ground (arith, keep-remove k xs)
