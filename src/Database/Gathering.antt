-- ===== src/Database/Gathering.antt =====
-- What `RecoverShard` gives to `Recover`, and how it loads what that returns.
use mathlib.Core.List.{append_assoc, append-nil}
use native.Mathlib.Nat.{add-zero}
use mathlib.Core.Path.{subst}
use vada_db.Common.{
  ℕ, suc, ◌+◌, ◌<◌, ◌≤◌, ◌≡◌, ◌≢◌, refl, ap, sym, ◌∙◌, false, List, [], ◌∷◌, ◌++◌, ◌==◌,
  if◌then◌else◌, length, get_or, Bool-cases, ==_iff, ==_refl, not_==, arith, inl, inr,
}
use vada_db.Result.{ok}
use vada_db.KvBucket.{KvRecord}
use vada_db.KvMap.{KvMap, Above, IsSorted, put}
use vada_db.KvTable.Survivors.{NotIn, Distinct, IsIn}
use vada_db.KvTable.Group.{as_survivors}
use vada_db.Database.{Shard, Database, no_shard}
use vada_db.Database.Failure.{records_from_map, survivors_of, load_recovered}
use vada_db.Database.Models.{IsRouted}

-- The maps from index `j` on, but the one of `m`.
abbrev pub others_from : ℕ → ℕ → List KvMap → List (ℕ × KvMap)
others_from m j [] = []
others_from m j (x ∷ xs) =
    let rest = others_from m (j + 1) xs in if j == m then rest else (j, x) ∷ rest

pub survivors_of-others :
    (m j : ℕ) (ss : List Shard) (xs : List KvMap)
    → length ss ≡ length xs
    → ((i : ℕ) → i < length xs → (get_or ss i no_shard).id ≡ j + i)
    → ((i : ℕ) → i < length xs → m ≢ j + i → (get_or ss i no_shard).failed ≡ false)
    → ((i : ℕ)
        → i < length xs
        → m ≢ j + i
        → records_from_map (get_or ss i no_shard).entries ≡ get_or xs i [])
    → survivors_of m ss ≡ ok (as_survivors (others_from m j xs))
unfolding survivors_of
survivors_of-others m j [] [] size ids up held = refl
survivors_of-others m j [] (x ∷ xs) size ids up held = absurd (omega arith)
survivors_of-others m j (s ∷ ss) [] size ids up held = absurd (omega arith)
survivors_of-others m j (s ∷ ss) (x ∷ xs) size ids up held =
    let rest =
      survivors_of-others m (j + 1) ss xs (omega arith)
        (λ i h. ids (suc i) (omega arith) ∙ omega arith)
        (λ i h ne. up (suc i) (omega arith) (λ e. ne (omega arith)))
        (λ i h ne. held (suc i) (omega arith) (λ e. ne (omega arith))) in
    let id : s.id ≡ j = ids 0 (omega arith) ∙ add-zero j in
    elim (Bool-cases (j == m)) [
      | inl e ↦ rw (id, e, rest) refl
      | inr e ↦
          let ne : m ≢ j + 0 = ground arith in
          rw (id, e, up 0 (omega arith) ne, rest, held 0 (omega arith) ne) refl
    ]

NotIn-others : (m j k : ℕ) (xs : List KvMap) → k < j → NotIn k (others_from m j xs)
NotIn-others m j k [] h = tt
NotIn-others m j k (x ∷ xs) h = ground (arith, NotIn-others m (j + 1) k xs)

pub Distinct-others : (m j : ℕ) (xs : List KvMap) → Distinct (others_from m j xs)
Distinct-others m j [] = tt
Distinct-others m j (x ∷ xs) =
    ground (arith, Distinct-others m (j + 1) xs, NotIn-others m (j + 1) j xs)

pub IsIn-others :
    (m j k : ℕ) (xs : List KvMap) → j ≤ k → k < j + length xs → m ≢ k → IsIn k (others_from m j xs)
IsIn-others m j k [] h p ne = absurd (omega arith)
IsIn-others m j k (x ∷ xs) h p ne = elim (Bool-cases (j == m)) [
  | inl e ↦ rw e (IsIn-others m (j + 1) k xs (ground arith) (omega arith) ne)
  | inr e ↦ elim (Bool-cases (j == k)) [
    | inl q ↦ rw e (inl ((==_iff j k).0 q))
    | inr q ↦ rw e (inr (IsIn-others m (j + 1) k xs (ground arith) (omega arith) ne))
  ]
]

length-others : (m j : ℕ) (xs : List KvMap) → m < j → length (others_from m j xs) ≡ length xs
length-others m j [] h = refl
length-others m j (x ∷ xs) h =
    rw (not_== j m (λ e. absurd (omega arith))) (ap suc (length-others m (j + 1) xs (omega arith)))

pub length-others_in :
    (m j : ℕ) (xs : List KvMap)
    → j ≤ m
    → m < j + length xs
    → length (others_from m j xs) + 1 ≡ length xs
length-others_in m j [] h p = absurd (omega arith)
length-others_in m j (x ∷ xs) h p =
    ground (arith, length-others m (j + 1) xs, length-others_in m (j + 1) xs)

Above-middle :
    (k : ℕ) (xs : KvMap) (r : KvRecord) (rest : KvMap) → Above k (xs ++ r ∷ rest) → k < r.key
Above-middle k [] r rest a = a.0
Above-middle k (x ∷ xs) r rest a = Above-middle k xs r rest a.1

pub put-last :
    (xs : KvMap) (r : KvRecord) (rest : KvMap)
    → IsSorted (xs ++ r ∷ rest)
    → put r.key r.value xs ≡ xs ++ r ∷ []
unfolding put
put-last [] r rest s = refl
put-last (x ∷ xs) r rest s =
    ground (arith, put-last xs r rest s.1, Above-middle x.key xs r rest s.0)

pub load_recovered-append :
    (d : Database) (id : ℕ) (rs done : KvMap)
    → IsRouted (length d.shards) id rs
    → IsSorted (done ++ rs)
    → load_recovered d id rs done ≡ ok (done ++ rs)
unfolding load_recovered
load_recovered-append d id [] done r s = ap ok (sym (append-nil done))
load_recovered-append d id (x ∷ rs) done r s =
    let assoc = append_assoc done (x ∷ []) rs in
    rw (r.0, ==_refl id, put-last done x rs s)
      (load_recovered-append d id rs (done ++ x ∷ []) r.1 (subst IsSorted (sym assoc) s)
        ∙ ap ok assoc)
