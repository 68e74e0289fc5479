-- ===== src/KvTable/Sorting.antt =====
-- Sorting by key: it leaves a map in order as it is, and puts the buckets of a map together again.
use vada_db.Common.{◌≡◌, ◌≢◌, refl, List, [], ◌∷◌, ◌++◌, arith}
use vada_db.KvBucket.{KvRecord}
use vada_db.KvMap.{KvMap, Above, IsSorted}
use vada_db.KvTable.{insert_sorted, sort}

pub insert_sorted-Above : (r : KvRecord) (m : KvMap) → Above r.key m → insert_sorted r m ≡ r ∷ m
unfolding insert_sorted
insert_sorted-Above r [] a = refl
insert_sorted-Above r (x ∷ xs) a = ground arith

-- Sorting a map that is in order changes nothing.
pub sort-IsSorted : (m : KvMap) → IsSorted m → sort m ≡ m
unfolding sort
sort-IsSorted [] s = refl
sort-IsSorted (x ∷ xs) s = rw (sort-IsSorted xs s.1) (insert_sorted-Above x xs s.0)

insert_sorted_comm :
    (a r : KvRecord) (xs : List KvRecord)
    → a.key ≢ r.key
    → insert_sorted a (insert_sorted r xs) ≡ insert_sorted r (insert_sorted a xs)
unfolding insert_sorted
insert_sorted_comm a r [] ne = ground arith
insert_sorted_comm a r (x ∷ xs) ne = ground (arith, insert_sorted_comm a r xs)

-- A record whose key is no other's can be sorted in last, wherever it stands.
pub sort_middle :
    (r : KvRecord) (xs ys : List KvRecord)
    → Above r.key xs
    → sort (xs ++ r ∷ ys) ≡ insert_sorted r (sort (xs ++ ys))
unfolding sort
sort_middle r [] ys a = refl
sort_middle r (x ∷ xs) ys a =
    rw (sort_middle r xs ys a.1) (insert_sorted_comm x r (sort (xs ++ ys)) (omega arith))
