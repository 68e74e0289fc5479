-- ===== src/Database/Scanning.antt =====
-- `Scan` returns the records of all the shards' maps, in the order of their keys.
use mathlib.Core.Path.{subst}
use vada_db.Common.{
  ℕ, zero, suc, ◌+◌, ◌%◌, ◌<◌, ◌≡◌, ◌≢◌, refl, ap, ◌∙◌, false, none, List, [], ◌∷◌, ◌++◌, length,
  get_or, arith,
}
use vada_db.Result.{ok, Returns}
use vada_db.KvBucket.{KvRecord}
use vada_db.KvMap.{KvMap, lookup, put, IsSorted}
use vada_db.KvMap.Order.{IsSorted-put, lookup-put, lookup-Above_self}
use vada_db.KvTable.{insert_sorted, sort}
use vada_db.KvTable.Fused.{at}
use vada_db.Database.{Shard, Database, no_shard, scan_shards, scan}
use vada_db.Database.Models.{IsRouted, shard, Models}

abbrev joined : List KvMap → KvMap
joined [] = []
joined (m ∷ maps) = m ++ joined maps

scan_shards-joined :
    (ss : List Shard) (maps : List KvMap)
    → length ss ≡ length maps
    → ((i : ℕ) → i < length maps → (get_or ss i no_shard).failed ≡ false)
    → ((i : ℕ) → i < length maps → (get_or ss i no_shard).entries ≡ get_or maps i [])
    → scan_shards ss ≡ ok (joined maps)
unfolding scan_shards
scan_shards-joined [] [] size up held = refl
scan_shards-joined [] (m ∷ maps) size up held = absurd (omega arith)
scan_shards-joined (s ∷ ss) [] size up held = absurd (omega arith)
scan_shards-joined (s ∷ ss) (m ∷ maps) size up held =
    rw
      (
        up 0 (omega arith),
        held 0 (omega arith),
        scan_shards-joined ss maps (omega arith) (λ i h. up (suc i) (omega arith))
            (λ i h. held (suc i) (omega arith)),
      )
      refl

-- No key stands twice.
abbrev IsUnique : List KvRecord → Type 0
IsUnique [] = Unit
IsUnique (x ∷ xs) = (lookup xs x.key ≡ none) × IsUnique xs

insert_sorted-put :
    (r : KvRecord) (m : KvMap) → lookup m r.key ≡ none → insert_sorted r m ≡ put r.key r.value m
unfolding insert_sorted lookup put
insert_sorted-put r [] e = refl
insert_sorted-put r (x ∷ xs) e = ground (arith, insert_sorted-put r xs)

-- Sorting records whose keys are unique gives a map in order, with the same entries.
sort-IsUnique :
    (rs : List KvRecord)
    → IsUnique rs
    → IsSorted (sort rs) × ((k : ℕ) → lookup (sort rs) k ≡ lookup rs k)
unfolding sort lookup
sort-IsUnique [] u = (tt, λ k. refl)
sort-IsUnique (r ∷ rs) u =
    let rest = sort-IsUnique rs u.1 in
    let same = insert_sorted-put r (sort rs) (rest.1 r.key ∙ u.0) in
    rw same (
      IsSorted-put r.key r.value (sort rs) rest.0,
      λ k. rw (lookup-put (sort rs) r.key r.value k, rest.1 k) refl,
    )

lookup-append_none :
    (xs ys : KvMap) (k : ℕ) → lookup xs k ≡ none → lookup (xs ++ ys) k ≡ lookup ys k
unfolding lookup
lookup-append_none [] ys k e = refl
lookup-append_none (x ∷ xs) ys k e = ground (arith, lookup-append_none xs ys k)

lookup-append_last :
    (xs ys : KvMap) (k : ℕ) → lookup ys k ≡ none → lookup (xs ++ ys) k ≡ lookup xs k
unfolding lookup
lookup-append_last [] ys k e = e
lookup-append_last (x ∷ xs) ys k e = ground (arith, lookup-append_last xs ys k)

lookup-IsRouted : (n i : ℕ) (m : KvMap) (k : ℕ) → IsRouted n i m → k % n ≢ i → lookup m k ≡ none
unfolding lookup
lookup-IsRouted n i [] k r ne = refl
lookup-IsRouted n i (x ∷ xs) k r ne =
    ground (arith, lookup-IsRouted n i xs k, ap (λ j. j % n) {x = x.key} {y = k})

IsUnique-append :
    (n j : ℕ) (m : KvMap) (ys : List KvRecord)
    → IsSorted m
    → IsRouted n j m
    → ((k : ℕ) → k % n ≡ j → lookup ys k ≡ none)
    → IsUnique ys
    → IsUnique (m ++ ys)
IsUnique-append n j [] ys s r e u = u
IsUnique-append n j (x ∷ m) ys s r e u = (
  lookup-append_none m ys x.key (lookup-Above_self x.key m s.0) ∙ e x.key r.0,
  IsUnique-append n j m ys s.1 r.1 e u,
)

-- The maps are those of the shards from `j` on.
module _ (n : ℕ) where
  lookup-joined_below :
      (j : ℕ) (maps : List KvMap) (k : ℕ)
      → ((i : ℕ) → i < length maps → IsRouted n (j + i) (get_or maps i []))
      → k % n < j
      → lookup (joined maps) k ≡ none
  unfolding lookup
  lookup-joined_below j [] k r h = refl
  lookup-joined_below j (m ∷ maps) k r h =
      lookup-append_none m (joined maps) k
        (lookup-IsRouted n (j + 0) m k (r 0 (omega arith)) (λ e. absurd (omega arith)))
      ∙ lookup-joined_below (j + 1) maps k
          (λ i p.
            subst (λ t. IsRouted n t (get_or maps i [])) (omega arith) (r (suc i) (omega arith)))
          (omega arith)

  lookup-joined :
      (j : ℕ) (maps : List KvMap) (k i : ℕ)
      → ((i : ℕ) → i < length maps → IsRouted n (j + i) (get_or maps i []))
      → k % n ≡ j + i
      → lookup (joined maps) k ≡ lookup (get_or maps i []) k
  unfolding lookup
  lookup-joined j [] k i r h = refl
  lookup-joined j (m ∷ maps) k zero r h = lookup-append_last m (joined maps) k (
      lookup-joined_below (j + 1) maps k
        (λ i p.
          subst (λ t. IsRouted n t (get_or maps i [])) (omega arith) (r (suc i) (omega arith)))
        (omega arith))
  lookup-joined j (m ∷ maps) k (suc i) r h =
      lookup-append_none m (joined maps) k
        (lookup-IsRouted n (j + 0) m k (r 0 (omega arith)) (λ e. absurd (omega arith)))
      ∙ lookup-joined (j + 1) maps k i
          (λ i p.
            subst (λ t. IsRouted n t (get_or maps i [])) (omega arith) (r (suc i) (omega arith)))
          (omega arith)

  IsUnique-joined :
      (j : ℕ) (maps : List KvMap)
      → ((i : ℕ) → i < length maps → IsRouted n (j + i) (get_or maps i []))
      → ((i : ℕ) → IsSorted (get_or maps i []))
      → IsUnique (joined maps)
  IsUnique-joined j [] r s = tt
  IsUnique-joined j (m ∷ maps) r s =
      let routed : (i : ℕ) → i < length maps → IsRouted n (j + 1 + i) (get_or maps i []) = λ i p.
        subst (λ t. IsRouted n t (get_or maps i [])) (omega arith) (r (suc i) (omega arith)) in
      IsUnique-append n (j + 0) m (joined maps) (s 0) (r 0 (omega arith))
        (λ k e. lookup-joined_below (j + 1) maps k routed (omega arith))
        (IsUnique-joined (j + 1) maps routed (λ i. s (suc i)))

-- On a database that stands for some maps, where all shards are up: `Scan` succeeds, with records
-- in the order of their keys, each key once, and a key has a value among them just where the map of
-- its shard has it.
pub scan-Models :
    {d : Database} {maps : List KvMap}
    → Models d maps
    → ((i : ℕ) → i < length maps → (shard d i).failed ≡ false)
    → Returns
        (scan d)
        λ rs. IsSorted rs × ((key : ℕ) → lookup rs key ≡ lookup (at maps (key % length maps)) key)
unfolding scan
scan-Models {d} {maps} models up =
    let run = scan_shards-joined d.shards maps models.count up (λ i h. models.live i h (up i h)) in
    let routed : (i : ℕ) → i < length maps → IsRouted (length maps) (0 + i) (at maps i) =
      λ i h. subst (λ t. IsRouted (length maps) t (at maps i)) (omega arith) (models.routed i) in
    let sorted =
      sort-IsUnique (joined maps)
        (IsUnique-joined (length maps) 0 maps routed models.fused.sorted) in
    (
      sort (joined maps),
      rw run refl,
      (
        sorted.0,
        λ key.
            sorted.1 key
            ∙ lookup-joined (length maps) 0 maps key (key % length maps) routed (omega arith),
      ),
    )
