-- ===== src/KvMap.antt =====
-- A Go `map[uint64]uint64`, as its entries in the order of their keys. Go ranges over a map in any
-- order; here it is that of the keys, since the code sorts, by key or by bucket and key, whatever it
-- reads by ranging over a shard's map, and no two entries have one key.
pub mod Order
pub mod Column
use vada_db.Common.{
  ℕ, suc, ◌<◌, Bool, true, false, Option, none, some, List, [], ◌∷◌, ltb, ◌==◌, if◌then◌else◌,
}
use vada_db.KvBucket.{KvRecord}

abbrev pub KvMap : Type 0
KvMap = List KvRecord

-- `value, ok := data[key]`
unfoldable pub lookup : KvMap → ℕ → Option ℕ
lookup [] key = none
lookup (x ∷ xs) key = if x.key == key then some x.value else lookup xs key

-- `data[key] = value`
unfoldable pub put : ℕ → ℕ → KvMap → KvMap
put key value [] = record { key = key; value = value } ∷ []
put key value (x ∷ xs) =
    let rest = put key value xs in
    if ltb x.key key
    then x ∷ rest
    else if x.key == key
    then record { key = key; value = value } ∷ xs
    else record { key = key; value = value } ∷ x ∷ xs

-- `delete(data, key)`
unfoldable pub remove : ℕ → KvMap → KvMap
remove key [] = []
remove key (x ∷ xs) = if x.key == key then xs else x ∷ remove key xs

-- Every key is above `k`.
abbrev pub Above : ℕ → KvMap → Type 0
Above k [] = Unit
Above k (x ∷ xs) = (k < x.key) × Above k xs

abbrev pub IsSorted : KvMap → Type 0
IsSorted [] = Unit
IsSorted (x ∷ xs) = Above x.key xs × IsSorted xs

-- The entries that pass a test.
unfoldable pub keep : (KvRecord → Bool) → KvMap → KvMap
keep p [] = []
keep p (x ∷ xs) = if p x then x ∷ keep p xs else keep p xs

-- `sort.Search`: the first index at which the key is not below the one looked for.
unfoldable pub search : List ℕ → ℕ → ℕ
search [] key = 0
search (k ∷ ks) key = if ltb k key then suc (search ks key) else 0

-- `sort.Slice` on keys
unfoldable pub insert_key : ℕ → List ℕ → List ℕ
insert_key k [] = k ∷ []
insert_key k (x ∷ xs) = if ltb x k then x ∷ insert_key k xs else k ∷ x ∷ xs

unfoldable pub sort_keys : List ℕ → List ℕ
unfolding insert_key
sort_keys [] = []
sort_keys (k ∷ ks) = insert_key k (sort_keys ks)
