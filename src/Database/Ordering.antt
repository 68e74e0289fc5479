-- ===== src/Database/Ordering.antt =====
-- `rebuildFusion` sorts a map by bucket and then by key: the records come in an order in which each
-- is the last of its bucket so far, and together they are the map.
use mathlib.Core.List.{append_assoc, append-nil}
use mathlib.Core.Path.{subst}
use vada_db.Common.{
  ℕ, ◌%◌, ◌<◌, ◌≡◌, ◌≢◌, refl, ap, sym, ◌∙◌, ◌⊎◌, inl, inr, Bool, true, false, ◌&&◌, ◌||◌, List, [],
  ◌∷◌, ◌++◌, length, ltb, ◌==◌, Bool-cases, arith,
}
use vada_db.KvBucket.{KvRecord}
use vada_db.KvMap.{KvMap, Above, IsSorted, put}
use vada_db.KvTable.{Table, bucket}
use vada_db.Database.Opening.{insert_by_bucket, sort_by_bucket}
use vada_db.Database.Gathering.{put-last}

-- Every record comes after key `j`: in a later bucket, or in the same one with a greater key.
abbrev pub Precedes : ℕ → ℕ → Type 0
Precedes j k = (j % 16 < k % 16) ⊎ ((j % 16 ≡ k % 16) × (j < k))

abbrev pub AllAfter : ℕ → List KvRecord → Type 0
AllAfter j [] = Unit
AllAfter j (x ∷ xs) = Precedes j x.key × AllAfter j xs

abbrev pub IsOrdered : List KvRecord → Type 0
IsOrdered [] = Unit
IsOrdered (x ∷ xs) = AllAfter x.key xs × IsOrdered xs

Precedes-trans : (i j k : ℕ) → Precedes i j → Precedes j k → Precedes i k
Precedes-trans i j k p q = ground arith

AllAfter-trans : (i j : ℕ) (xs : List KvRecord) → Precedes i j → AllAfter j xs → AllAfter i xs
AllAfter-trans i j [] p a = tt
AllAfter-trans i j (x ∷ xs) p a = (Precedes-trans i j x.key p a.0, AllAfter-trans i j xs p a.1)

abbrev pub put_all : List KvRecord → KvMap → KvMap
put_all [] m = m
put_all (x ∷ xs) m = put_all xs (put x.key x.value m)

put_comm : (j v k w : ℕ) (m : KvMap) → j ≢ k → put j v (put k w m) ≡ put k w (put j v m)
unfolding put
put_comm j v k w [] ne = ground arith
put_comm j v k w (x ∷ xs) ne = ground (arith, put_comm j v k w xs)

module _ (t : Table) (count : length t.buckets ≡ 16) where
  home : (k : ℕ) → bucket t k ≡ k % 16
  unfolding bucket
  home k = ap (λ c. k % c) count

  abbrev before : KvRecord → KvRecord → Bool
  before x r =
      ltb (bucket t x.key) (bucket t r.key) || bucket t x.key == bucket t r.key && ltb x.key r.key

  before-true : (x r : KvRecord) → before x r ≡ true → Precedes x.key r.key
  before-true x r e = ground (arith, home x.key, home r.key)

  before-false : (x r : KvRecord) → r.key < x.key → before x r ≡ false → Precedes r.key x.key
  before-false x r h e = ground (arith, home x.key, home r.key)

  Above-insert :
      (k : ℕ) (r : KvRecord) (xs : List KvRecord)
      → k < r.key
      → Above k xs
      → Above k (insert_by_bucket t r xs)
  unfolding insert_by_bucket
  Above-insert k r [] h a = (h, tt)
  Above-insert k r (x ∷ xs) h a = elim (Bool-cases (before x r)) [
    | inl e ↦ rw e (a.0, Above-insert k r xs h a.1)
    | inr e ↦ rw e (h, a)
  ]

  AllAfter-insert :
      (k : ℕ) (r : KvRecord) (xs : List KvRecord)
      → Precedes k r.key
      → AllAfter k xs
      → AllAfter k (insert_by_bucket t r xs)
  unfolding insert_by_bucket
  AllAfter-insert k r [] h a = (h, tt)
  AllAfter-insert k r (x ∷ xs) h a = elim (Bool-cases (before x r)) [
    | inl e ↦ rw e (a.0, AllAfter-insert k r xs h a.1)
    | inr e ↦ rw e (h, a)
  ]

  IsOrdered-insert :
      (r : KvRecord) (xs : List KvRecord)
      → Above r.key xs
      → IsOrdered xs
      → IsOrdered (insert_by_bucket t r xs)
  unfolding insert_by_bucket
  IsOrdered-insert r [] a o = (tt, tt)
  IsOrdered-insert r (x ∷ xs) a o = elim (Bool-cases (before x r)) [
    | inl e ↦
        rw e (AllAfter-insert x.key r xs (before-true x r e) o.0, IsOrdered-insert r xs a.1 o.1)
    | inr e ↦
        let first = before-false x r a.0 e in
        rw e ((first, AllAfter-trans r.key x.key xs first o.0), o)
  ]

  put_all-insert :
      (r : KvRecord) (xs : List KvRecord) (m : KvMap)
      → Above r.key xs
      → put_all (insert_by_bucket t r xs) m ≡ put_all xs (put r.key r.value m)
  unfolding insert_by_bucket
  put_all-insert r [] m a = refl
  put_all-insert r (x ∷ xs) m a = elim (Bool-cases (before x r)) [
    | inl e ↦ rw e (
        put_all-insert r xs (put x.key x.value m) a.1
        ∙ ap (put_all xs)
            (put_comm r.key r.value x.key x.value m (λ p. absurd (omega (arith, a.0, p)))))
    | inr e ↦ rw e refl
  ]

  Above-sort : (k : ℕ) (m : KvMap) → Above k m → Above k (sort_by_bucket t m)
  unfolding sort_by_bucket
  Above-sort k [] a = tt
  Above-sort k (x ∷ xs) a = Above-insert k x (sort_by_bucket t xs) a.0 (Above-sort k xs a.1)

  pub IsOrdered-sort : (m : KvMap) → IsSorted m → IsOrdered (sort_by_bucket t m)
  unfolding sort_by_bucket
  IsOrdered-sort [] s = tt
  IsOrdered-sort (x ∷ xs) s =
      IsOrdered-insert x (sort_by_bucket t xs) (Above-sort x.key xs s.0) (IsOrdered-sort xs s.1)

  put_all-sort : (m acc : KvMap) → IsSorted m → put_all (sort_by_bucket t m) acc ≡ put_all m acc
  unfolding sort_by_bucket
  put_all-sort [] acc s = refl
  put_all-sort (x ∷ xs) acc s =
      put_all-insert x (sort_by_bucket t xs) acc (Above-sort x.key xs s.0)
      ∙ put_all-sort xs (put x.key x.value acc) s.1

put_all-append : (m done : KvMap) → IsSorted (done ++ m) → put_all m done ≡ done ++ m
put_all-append [] done s = sym (append-nil done)
put_all-append (x ∷ xs) done s =
    let assoc = append_assoc done (x ∷ []) xs in
    ap (put_all xs) (put-last done x xs s)
    ∙ put_all-append xs (done ++ x ∷ []) (subst IsSorted (sym assoc) s)
    ∙ assoc

-- The records in their order make the map again.
pub put_all-sort_by_bucket :
    (t : Table) (count : length t.buckets ≡ 16) (m : KvMap)
    → IsSorted m
    → put_all (sort_by_bucket t m) [] ≡ m
put_all-sort_by_bucket t count m s = put_all-sort t count m [] s ∙ put_all-append m [] s
