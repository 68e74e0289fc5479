-- ===== src/KvTable/Update.antt =====
-- `Insert`, `Replace` and `Delete` of the fused table follow the maps of the sources, where the
-- index that the caller gives is the index of the key in its bucket.
use vada_db.Common.{
  ℕ, suc, ◌+◌, ◌-◌, ◌%◌, ◌<◌, ◌≤◌, ◌≡◌, ◌≢◌, ap, ◌∙◌, true, false, none, some, List, [], ◌∷◌, ◌==◌,
  ==_refl, length, get_or, get_elem?, set, insert_at, remove_at, length-set, lt_of_get_elem?, arith,
}
use vada_db.Common.Int.{pos}
use vada_db.Result.{ok, Returns}
use vada_db.KvBucket.{insert_node}
use vada_db.KvBucket.Change.{replace_node-IsFused, delete_node-IsFused}
use vada_db.KvBucket.Insert.{insert_node-IsFused}
use vada_db.KvMap.{KvMap, IsSorted, lookup, put, remove}
use vada_db.KvMap.Order.{IsSorted-put, IsSorted-remove, IsSorted-keep}
use vada_db.KvMap.Column.{
  rank, rank-le, put-absent, put-present, remove-present, get_elem?-rank, lookup-keep, keep-put,
  keep-remove,
}
use vada_db.KvTable.{Table, bucket, size_of, valid_position, write, insert, replace, delete}
use vada_db.KvTable.Fused.{Fuses, column_of, at, write-Fuses}

valid_insert :
    (t : Table) (s b i : ℕ)
    → s < t.source_count
    → i ≤ size_of t s b
    → valid_position t (pos s) b (pos i) true ≡ ok tt
unfolding valid_position
valid_insert t s b i h k = ground arith

valid_change :
    (t : Table) (s b i : ℕ)
    → s < t.source_count
    → i < size_of t s b
    → valid_position t (pos s) b (pos i) false ≡ ok tt
unfolding valid_position
valid_change t s b i h k = ground arith

module _ {ℓ} {A : Type ℓ} where
  pub length-insert_at : (xs : List A) (i : ℕ) (v : A) → length (insert_at xs i v) ≡ length xs + 1
  length-insert_at xs ℕ.zero v = omega arith
  length-insert_at [] (suc i) v = omega arith
  length-insert_at (x ∷ xs) (suc i) v = omega (arith, length-insert_at xs i v)

  pub length-remove_at :
      (xs : List A) (i : ℕ) → i < length xs → length (remove_at xs i) ≡ length xs - 1
  length-remove_at [] i h = absurd (omega arith)
  length-remove_at (x ∷ xs) ℕ.zero h = omega arith
  length-remove_at (x ∷ xs) (suc i) h = omega (arith, length-remove_at xs i (omega arith))

module _ {n : ℕ} {t : Table} {maps : List KvMap} (f : Fuses n t maps) (s k : ℕ)
    (in_sources : s < t.source_count) where
  -- The map of the source, the bucket of the key, and the column of the map in it.
  abbrev m : KvMap
  m = at maps s

  abbrev b : ℕ
  b = k % n

  abbrev col : KvMap
  col = column_of n b m

  bucket-eq : bucket t k ≡ b
  unfolding bucket
  bucket-eq = ap (λ c. k % c) f.count

  in_buckets : b < n
  in_buckets = omega (arith, f.filled)

  lookup-col : lookup col k ≡ lookup m k
  lookup-col = rw (lookup-keep (λ j. j % n == b) m k, ==_refl b)

  IsSorted-col : IsSorted col
  IsSorted-col = IsSorted-keep (λ x. x.key % n == b) m (f.sorted s)

  size-col : size_of t s b ≡ length col
  size-col = f.sizes s b in_sources in_buckets

  column-put : (v : ℕ) → column_of n b (put k v m) ≡ put k v col
  column-put v = rw (keep-put (λ j. j % n == b) k v m (f.sorted s), ==_refl b)

  column-put_ne : (v c : ℕ) → b ≢ c → column_of n c (put k v m) ≡ column_of n c m
  column-put_ne v c ne = rw (keep-put (λ j. j % n == c) k v m (f.sorted s)) (ground arith)

  column-remove : column_of n b (remove k m) ≡ remove k col
  column-remove = rw (keep-remove (λ j. j % n == b) k m (f.sorted s), ==_refl b)

  column-remove_ne : (c : ℕ) → b ≢ c → column_of n c (remove k m) ≡ column_of n c m
  column-remove_ne c ne = rw (keep-remove (λ j. j % n == c) k m (f.sorted s)) (ground arith)

  -- For a table that fuses some maps, a source of it, and a key that the source's map lacks:
  -- `Insert` at the index of the key in its bucket succeeds, and the table then fuses the maps with
  -- the key put into that source's.
  pub insert-Fuses :
      (v : ℕ)
      → lookup m k ≡ none
      → Returns (insert t (pos s) (pos (rank col k)) k v) λ t'. Fuses n t' (set maps s (put k v m))
  unfolding insert
  insert-Fuses v absent =
      let new : column_of n b (put k v m)
          ≡ insert_at col (rank col k) (record { key = k; value = v }) =
        column-put v ∙ put-absent col k v (lookup-col ∙ absent) in
      (
        write t s b
            (insert_node t.source_count (get_or t.buckets b []) s (rank col k)
              (record { key = k; value = v }))
            (size_of t s b + 1),
        rw (
          bucket-eq,
          valid_insert t s b (rank col k) in_sources (omega (arith, size-col, rank-le col k)),
        ),
        write-Fuses f s b in_sources in_buckets (put k v m) _ _ (IsSorted-put k v m (f.sorted s))
            (λ c ne. column-put_ne v c ne)
            (rw new (
              insert_node-IsFused (f.fused b in_buckets) s (rank col k)
                (record { key = k; value = v }) in_sources (rank-le col k)))
            (rw (new, length-insert_at col (rank col k) (record { key = k; value = v }), size-col)),
      )

  module _ (old : ℕ) (present : lookup m k ≡ some old) where
    in_col : get_elem? col (rank col k) ≡ some (record { key = k; value = old })
    in_col = get_elem?-rank col k old IsSorted-col (lookup-col ∙ present)

    rank-lt : rank col k < length col
    rank-lt = lt_of_get_elem? col (rank col k) in_col

    -- For a table that fuses some maps, a source of it, and a key that the source's map has:
    -- `Replace` at the index of the key in its bucket, with the key's old value, succeeds, and the
    -- table then fuses the maps with the new value put into that source's.
    pub replace-Fuses :
        (v : ℕ)
        → Returns
            (replace t (pos s) (pos (rank col k)) k old v)
            λ t'. Fuses n t' (set maps s (put k v m))
    unfolding replace
    replace-Fuses v =
        let new : column_of n b (put k v m) ≡ set col (rank col k) (record { key = k; value = v }) =
          column-put v ∙ put-present col k v old IsSorted-col (lookup-col ∙ present) in
        let (ns, run, held) =
          replace_node-IsFused (f.fused b in_buckets) s (rank col k) in_sources
            (record { key = k; value = old }) in_col v in
        (
          write t s b ns (size_of t s b),
          rw (
            bucket-eq,
            valid_change t s b (rank col k) in_sources (omega (arith, size-col, rank-lt)),
            run,
          ),
          write-Fuses f s b in_sources in_buckets (put k v m) ns _ (IsSorted-put k v m (f.sorted s))
              (λ c ne. column-put_ne v c ne) (rw new held)
              (rw (new, length-set col (rank col k) (record { key = k; value = v }), size-col)),
        )

    -- For a table that fuses some maps, a source of it, and a key that the source's map has:
    -- `Delete` at the index of the key in its bucket, with the key's value, succeeds, and the table
    -- then fuses the maps without the key in that source's.
    pub delete-Fuses :
        Returns
          (delete t (pos s) (pos (rank col k)) k old)
          λ t'. Fuses n t' (set maps s (remove k m))
    unfolding delete
    delete-Fuses =
        let new : column_of n b (remove k m) ≡ remove_at col (rank col k) =
          column-remove ∙ remove-present col k old IsSorted-col (lookup-col ∙ present) in
        let (ns, run, held) =
          delete_node-IsFused (f.fused b in_buckets) s (rank col k) in_sources
            (record { key = k; value = old }) in_col in
        (
          write t s b ns (size_of t s b - 1),
          rw (
            bucket-eq,
            valid_change t s b (rank col k) in_sources (omega (arith, size-col, rank-lt)),
            run,
          ),
          write-Fuses f s b in_sources in_buckets (remove k m) ns _
              (IsSorted-remove k m (f.sorted s)) column-remove_ne (rw new held)
              (rw (new, length-remove_at col (rank col k) rank-lt, size-col)),
        )
