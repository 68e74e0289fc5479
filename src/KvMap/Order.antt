-- ===== src/KvMap/Order.antt =====
-- The operations of a map keep its keys in order, and act on single keys.
use vada_db.Common.{ℕ, ◌<◌, ◌≡◌, refl, Bool, none, some, [], ◌∷◌, map, ◌==◌, if◌then◌else◌, arith}
use vada_db.KvBucket.{KvRecord}
use vada_db.KvMap.{KvMap, lookup, put, remove, Above, IsSorted, keep, insert_key, sort_keys}

pub Above-trans : (j k : ℕ) (m : KvMap) → j < k → Above k m → Above j m
Above-trans j k [] h a = tt
Above-trans j k (x ∷ xs) h a = (omega arith, Above-trans j k xs h a.1)

pub lookup-Above : (j k : ℕ) (m : KvMap) → Above k m → j < k → lookup m j ≡ none
unfolding lookup
lookup-Above j k [] a h = refl
lookup-Above j k (x ∷ xs) a h = ground (arith, lookup-Above j k xs)

pub lookup-Above_self : (k : ℕ) (m : KvMap) → Above k m → lookup m k ≡ none
unfolding lookup
lookup-Above_self k [] a = refl
lookup-Above_self k (x ∷ xs) a = ground (arith, lookup-Above_self k xs)

pub Above-put : (j k v : ℕ) (m : KvMap) → j < k → Above j m → Above j (put k v m)
unfolding put
Above-put j k v [] h a = (h, tt)
Above-put j k v (x ∷ xs) h a = ground (arith, Above-put j k v xs)

pub IsSorted-put : (k v : ℕ) (m : KvMap) → IsSorted m → IsSorted (put k v m)
unfolding put
IsSorted-put k v [] s = (tt, tt)
IsSorted-put k v (x ∷ xs) s =
    ground (arith, IsSorted-put k v xs, Above-put x.key k v xs, Above-trans k x.key xs)

pub Above-remove : (j k : ℕ) (m : KvMap) → Above j m → Above j (remove k m)
unfolding remove
Above-remove j k [] a = tt
Above-remove j k (x ∷ xs) a = ground (arith, Above-remove j k xs)

pub IsSorted-remove : (k : ℕ) (m : KvMap) → IsSorted m → IsSorted (remove k m)
unfolding remove
IsSorted-remove k [] s = tt
IsSorted-remove k (x ∷ xs) s = ground (arith, IsSorted-remove k xs, Above-remove x.key k xs)

pub Above-keep : (p : KvRecord → Bool) (j : ℕ) (m : KvMap) → Above j m → Above j (keep p m)
unfolding keep
Above-keep p j [] a = tt
Above-keep p j (x ∷ xs) a = ground (arith, Above-keep p j xs)

pub IsSorted-keep : (p : KvRecord → Bool) (m : KvMap) → IsSorted m → IsSorted (keep p m)
unfolding keep
IsSorted-keep p [] s = tt
IsSorted-keep p (x ∷ xs) s = ground (arith, IsSorted-keep p xs, Above-keep p x.key xs)

-- What a map holds after a write, and after a removal.
pub lookup-put :
    (m : KvMap) (k v j : ℕ) → lookup (put k v m) j ≡ (if k == j then some v else lookup m j)
unfolding lookup put
lookup-put [] k v j = refl
lookup-put (x ∷ xs) k v j = ground (arith, lookup-put xs k v j)

pub lookup-remove :
    (m : KvMap) (k j : ℕ)
    → IsSorted m
    → lookup (remove k m) j ≡ (if k == j then none else lookup m j)
unfolding lookup remove
lookup-remove [] k j s = ground arith
lookup-remove (x ∷ xs) k j s = ground (arith, lookup-remove xs k j, lookup-Above_self x.key xs)

insert_key-Above :
    (k : ℕ) (m : KvMap) → Above k m → insert_key k (map (λ x. x.key) m) ≡ k ∷ map (λ x. x.key) m
unfolding insert_key
insert_key-Above k [] a = refl
insert_key-Above k (x ∷ xs) a = ground arith

-- Sorting the keys of a map that is in order changes nothing.
pub sort_keys-map : (m : KvMap) → IsSorted m → sort_keys (map (λ x. x.key) m) ≡ map (λ x. x.key) m
unfolding sort_keys
sort_keys-map [] s = refl
sort_keys-map (x ∷ xs) s = rw (sort_keys-map xs s.1) (insert_key-Above x.key xs s.0)
