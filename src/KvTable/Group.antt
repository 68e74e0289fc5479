-- ===== src/KvTable/Group.antt =====
-- `Recover` groups the records of each survivor by bucket: the groups are the columns of its map.
use mathlib.Core.List.{append_assoc, append-nil}
use vada_db.Common.{
  ℕ, suc, ◌+◌, ◌%◌, ◌<◌, ◌≡◌, ◌≢◌, refl, ap, sym, ◌∙◌, List, [], ◌∷◌, ◌++◌, map, length, get_or,
  modify, replicate, length-replicate, get_or-replicate, length-modify, get_or-modify_self,
  get_or-modify_ne, get_or-map, Bool-cases, ==_iff, ==_refl, not_==, lt→not_leb, ◌==◌, arith, inl,
  inr,
}
use native.Mathlib.Nat.{add-zero}
use vada_db.Common.Int.{pos}
use vada_db.Result.{ok}
use vada_db.KvBucket.{KvRecord}
use vada_db.KvMap.{KvMap, keep}
use vada_db.KvMap.Order.{IsSorted-keep}
use vada_db.KvTable.{Table, Survivors, bucket, size_of, group, sort, check_groups, group_all}
use vada_db.KvTable.Fused.{Fuses, column_of, at}
use vada_db.KvTable.Survivors.{Grouped}
use vada_db.KvTable.Sorting.{sort-IsSorted}

module _ (n : ℕ) (t : Table) (count : length t.buckets ≡ n) where
  length-group :
      (rs : List KvRecord) (gs : List (List KvRecord)) → length (group t rs gs) ≡ length gs
  unfolding group
  length-group [] gs = refl
  length-group (r ∷ rs) gs = length-group rs _ ∙ length-modify gs _ _

  home : (k : ℕ) → bucket t k ≡ k % n
  unfolding bucket
  home k = ap (λ c. k % c) count

  -- One record goes to the end of the group of its bucket.
  get_or-add :
      (r : KvRecord) (rs : List KvRecord) (gs : List (List KvRecord)) (b : ℕ)
      → b < length gs
      → get_or (modify gs (bucket t r.key) (λ g. g ++ r ∷ [])) b [] ++ column_of n b rs
        ≡ get_or gs b [] ++ column_of n b (r ∷ rs)
  unfolding keep
  get_or-add r rs gs b h = elim (Bool-cases (r.key % n == b)) [
    | inl e ↦
        rw
          (
            e,
            home r.key ∙ (==_iff (r.key % n) b).0 e,
            get_or-modify_self gs b (λ g. g ++ r ∷ []) [] h,
          )
          (append_assoc (get_or gs b []) (r ∷ []) (column_of n b rs))
    | inr e ↦ rw (
      e,
      get_or-modify_ne gs (bucket t r.key) b (λ g. g ++ r ∷ []) []
          (λ p. ground (arith, home r.key)),
    )
  ]

  -- A group gets the records of its bucket, in the order of the records.
  get_or-group :
      (rs : List KvRecord) (gs : List (List KvRecord)) (b : ℕ)
      → b < length gs
      → get_or (group t rs gs) b [] ≡ get_or gs b [] ++ column_of n b rs
  unfolding group keep
  get_or-group [] gs b h = sym (append-nil (get_or gs b []))
  get_or-group (r ∷ rs) gs b h =
      get_or-group rs _ b (omega (arith, length-modify gs (bucket t r.key) (λ g. g ++ r ∷ [])))
      ∙ get_or-add r rs gs b h

  -- Where the lengths are right, the groups are sorted and kept.
  check_groups-sort :
      (s b : ℕ) (gs : List (List KvRecord))
      → ((i : ℕ) → i < length gs → length (sort (get_or gs i [])) ≡ size_of t s (b + i))
      → check_groups t s b gs ≡ ok (map sort gs)
  unfolding check_groups
  check_groups-sort s b [] h = refl
  check_groups-sort s b (g ∷ gs) h =
      let first : length (sort g) ≡ size_of t s b =
        h 0 (omega arith) ∙ ap (size_of t s) (add-zero b) in
      let rest : check_groups t s (b + 1) gs ≡ ok (map sort gs) =
        check_groups-sort s (b + 1) gs
          (λ i p. h (suc i) (omega arith) ∙ ap (size_of t s) (omega arith)) in
      rw (first, ==_refl (size_of t s b), rest)

-- The survivors, as the map that `Recover` ranges over.
abbrev pub as_survivors : List (ℕ × KvMap) → Survivors
as_survivors [] = []
as_survivors ((j, m) ∷ rest) = (pos j, m) ∷ as_survivors rest

pub length-as_survivors : (l : List (ℕ × KvMap)) → length (as_survivors l) ≡ length l
length-as_survivors [] = refl
length-as_survivors (x ∷ l) = ap suc (length-as_survivors l)

module _ {n : ℕ} {t : Table} {maps : List KvMap} (f : Fuses n t maps) where
  abbrev pub groups_of : KvMap → List (List KvRecord)
  groups_of m = map sort (group t m (replicate (length t.buckets) []))

  abbrev pub all_groups : List (ℕ × KvMap) → Grouped
  all_groups [] = []
  all_groups ((j, m) ∷ rest) = (j, groups_of m) ∷ all_groups rest

  -- Sources of the table other than `m`, with their maps.
  abbrev pub AreSurvivors : ℕ → List (ℕ × KvMap) → Type 0
  AreSurvivors m [] = Unit
  AreSurvivors m ((j, records) ∷ rest) =
      (j < t.source_count) × (m ≢ j) × (records ≡ at maps j) × AreSurvivors m rest

  column-sort : (j b : ℕ) → sort (column_of n b (at maps j)) ≡ column_of n b (at maps j)
  column-sort j b = sort-IsSorted _ (IsSorted-keep (λ x. x.key % n == b) (at maps j) (f.sorted j))

  group-column :
      (j b : ℕ)
      → b < n
      → get_or (group t (at maps j) (replicate (length t.buckets) [])) b []
        ≡ column_of n b (at maps j)
  group-column j b h =
      get_or-group n t f.count (at maps j) (replicate (length t.buckets) []) b
        (omega (arith, length-replicate {A = List KvRecord} (length t.buckets) [], f.count))
      ∙ ap (λ l. l ++ column_of n b (at maps j)) (get_or-replicate (length t.buckets) b [])

  length-groups : (j : ℕ) → length (group t (at maps j) (replicate (length t.buckets) [])) ≡ n
  length-groups j =
      length-group n t f.count (at maps j) (replicate (length t.buckets) [])
      ∙ length-replicate (length t.buckets) []
      ∙ f.count

  pub get_or-groups_of :
      (j b : ℕ) → b < n → get_or (groups_of (at maps j)) b [] ≡ column_of n b (at maps j)
  get_or-groups_of j b h =
      get_or-map sort _ b [] [] (omega (arith, length-groups j))
      ∙ ap sort (group-column j b h)
      ∙ column-sort j b

  check_groups-groups_of :
      (j : ℕ)
      → j < t.source_count
      → check_groups t j 0 (group t (at maps j) (replicate (length t.buckets) []))
        ≡ ok (groups_of (at maps j))
  check_groups-groups_of j h = check_groups-sort n t f.count j 0 _ (λ i p.
      let q : i < n = omega (arith, length-groups j) in
      ap (λ l. length (sort l)) (group-column j i q)
      ∙ ap (λ l. length l) (column-sort j i)
      ∙ sym (f.sizes j i h q)
      ∙ ap (size_of t j) (omega arith))

  -- No survivor is refused, and each is grouped by bucket.
  pub group_all-all_groups :
      (m : ℕ) (list : List (ℕ × KvMap))
      → AreSurvivors m list
      → group_all t (pos m) (as_survivors list) ≡ ok (all_groups list)
  unfolding group_all
  group_all-all_groups m [] a = refl
  group_all-all_groups m ((j, records) ∷ rest) a =
      rw
        (
          lt→not_leb t.source_count j a.0,
          not_== j m (λ e. a.1 (sym e)),
          a.2,
          check_groups-groups_of j a.0,
          group_all-all_groups m rest a.3,
        )
        refl
