-- ===== src/KvTable/Recovery.antt =====
-- `Recover` gives the records of the missing source back, all of them and in the order of keys.
use mathlib.Core.List.{append_assoc}
use native.Mathlib.Nat.{add-zero}
use mathlib.Core.Path.{subst}
use vada_db.Common.{
  ℕ, zero, suc, ◌+◌, ◌%◌, ◌<◌, ◌≤◌, ◌≡◌, ◌≢◌, refl, ap, sym, ◌∙◌, List, [], ◌∷◌, ◌++◌, length,
  get_or, Bool-cases, ==_refl, not_==, lt→not_leb, ◌==◌, arith, inl, inr,
}
use vada_db.Common.Int.{pos}
use vada_db.Result.{ok}
use vada_db.KvBucket.{KvRecord, Bucket}
use vada_db.KvBucket.Slots.{IsFused}
use vada_db.KvMap.{KvMap, IsSorted, Above, keep}
use vada_db.KvMap.Order.{Above-keep}
use vada_db.KvTable.{Table, sort, insert_sorted, recover_buckets, recover}
use vada_db.KvTable.Fused.{Fuses, column_of, at}
use vada_db.KvTable.Survivors.{
  Grouped, NotIn, Distinct, IsIn, HoldsColumns, Covers, bucket-recovers,
}
use vada_db.KvTable.Sorting.{sort_middle, insert_sorted-Above}
use vada_db.KvTable.Group.{
  as_survivors, length-as_survivors, AreSurvivors, all_groups, groups_of, get_or-groups_of,
  group_all-all_groups,
}

-- The columns of a map in `c` buckets, from bucket `b` on, one after the other.
abbrev joined : ℕ → KvMap → ℕ → ℕ → KvMap
joined n m b zero = []
joined n m b (suc c) = column_of n b m ++ joined n m (b + 1) c

Above-append : (k : ℕ) (xs ys : KvMap) → Above k xs → Above k ys → Above k (xs ++ ys)
Above-append k [] ys p q = q
Above-append k (x ∷ xs) ys p q = (p.0, Above-append k xs ys p.1 q)

module _ (n : ℕ) (r : KvRecord) (xs : KvMap) where
  joined-below : (b c : ℕ) → r.key % n < b → joined n (r ∷ xs) b c ≡ joined n xs b c
  unfolding keep
  joined-below b zero h = refl
  joined-below b (suc c) h =
      rw (not_== (r.key % n) b (λ e. absurd (omega arith)), joined-below (b + 1) c (omega arith))

  record Split (b c : ℕ) : Type 0 where
    front : KvMap
    back : KvMap
    with_it : joined n (r ∷ xs) b c ≡ front ++ r ∷ back
    without : joined n xs b c ≡ front ++ back
    above : Above r.key front

  joined-Split : (b c : ℕ) → Above r.key xs → b ≤ r.key % n → r.key % n < b + c → Split b c
  unfolding keep
  joined-Split b zero a h k = absurd (omega arith)
  joined-Split b (suc c) a h k = elim (Bool-cases (r.key % n == b)) [
    | inl e ↦
        let below : r.key % n < b + 1 = ground arith in
        record {
          front = [];
          back = column_of n b xs ++ joined n xs (b + 1) c;
          with_it = rw (e, joined-below (b + 1) c below);
          without = refl;
          above = tt;
        }
    | inr e ↦
        let rest = joined-Split (b + 1) c a (ground arith) (omega arith) in
        record {
          front = column_of n b xs ++ rest.front;
          back = rest.back;
          with_it =
              rw (e, rest.with_it)
                (sym (append_assoc (column_of n b xs) rest.front (r ∷ rest.back)));
          without = rw rest.without (sym (append_assoc (column_of n b xs) rest.front rest.back));
          above =
              Above-append r.key (column_of n b xs) rest.front
                (Above-keep (λ x. x.key % n == b) r.key xs a) rest.above;
        }
  ]

joined-nil : (n b c : ℕ) → joined n [] b c ≡ []
unfolding keep
joined-nil n b zero = refl
joined-nil n b (suc c) = joined-nil n (b + 1) c

-- The buckets of a map, joined and sorted, are the map.
sort-joined : (n : ℕ) (m : KvMap) → 0 < n → IsSorted m → sort (joined n m 0 n) ≡ m
unfolding sort
sort-joined n [] h s = rw (joined-nil n 0 n)
sort-joined n (r ∷ xs) h s =
    let p = joined-Split n r xs 0 n s.0 (omega arith) (omega arith) in
    ap sort p.with_it
    ∙ sort_middle r p.front p.back p.above
    ∙ ap (λ l. insert_sorted r (sort l)) (sym p.without)
    ∙ ap (insert_sorted r) (sort-joined n xs h s.1)
    ∙ insert_sorted-Above r xs s.0

module _ {n : ℕ} {t : Table} {maps : List KvMap} (f : Fuses n t maps) (m : ℕ)
    (list : List (ℕ × KvMap)) (missing : m < t.source_count) (survivors : AreSurvivors f m list)
    (distinct : Distinct list) (others : (k : ℕ) → k < t.source_count → m ≢ k → IsIn k list) where
  abbrev grouped : Grouped
  grouped = all_groups f list

  NotIn-groups : (j : ℕ) (l : List (ℕ × KvMap)) → NotIn j l → NotIn j (all_groups f l)
  NotIn-groups j [] d = tt
  NotIn-groups j ((k, _) ∷ rest) d = (d.0, NotIn-groups j rest d.1)

  Distinct-groups : (l : List (ℕ × KvMap)) → Distinct l → Distinct (all_groups f l)
  Distinct-groups [] d = tt
  Distinct-groups ((k, _) ∷ rest) d = (NotIn-groups k rest d.0, Distinct-groups rest d.1)

  IsIn-groups : (k : ℕ) (l : List (ℕ × KvMap)) → IsIn k l → IsIn k (all_groups f l)
  IsIn-groups k [] i = i
  IsIn-groups k ((j, _) ∷ rest) (inl e) = inl e
  IsIn-groups k ((j, _) ∷ rest) (inr i) = inr (IsIn-groups k rest i)

  missing-NotIn : (l : List (ℕ × KvMap)) → AreSurvivors f m l → NotIn m (all_groups f l)
  missing-NotIn [] a = tt
  missing-NotIn ((j, _) ∷ rest) a = (a.1, missing-NotIn rest a.3)

  HoldsColumns-groups :
      (b : ℕ)
      → b < n
      → (l : List (ℕ × KvMap)) → AreSurvivors f m l
      → HoldsColumns t.source_count b (λ s. column_of n b (at maps s)) (all_groups f l)
  HoldsColumns-groups b h [] a = tt
  HoldsColumns-groups b h ((j, records) ∷ rest) a = (
    a.0,
    ap (λ r. get_or (groups_of f r) b []) a.2 ∙ get_or-groups_of f j b h,
    HoldsColumns-groups b h rest a.3,
  )

  covered : (b : ℕ) → b < n → Covers t.source_count m b (λ s. column_of n b (at maps s)) grouped
  covered b h = record {
    missing = missing;
    held = HoldsColumns-groups b h list survivors;
    distinct = Distinct-groups list distinct;
    without = missing-NotIn list survivors;
    all_others = λ k p q. IsIn-groups k list (others k p q);
  }

  recover_buckets-joined :
      (b : ℕ) (bs : List Bucket)
      → b + length bs ≤ n
      → ((i : ℕ)
          → i < length bs
          → IsFused t.source_count (λ s. column_of n (b + i) (at maps s)) (get_or bs i []))
      → recover_buckets m grouped b bs ≡ ok (joined n (at maps m) b (length bs))
  unfolding recover_buckets
  recover_buckets-joined b [] h held = refl
  recover_buckets-joined b (ns ∷ bs) h held =
      let here =
        subst (λ c. IsFused t.source_count (λ s. column_of n c (at maps s)) ns) (add-zero b)
          (held 0 (omega arith)) in
      let (values, run, picked) = bucket-recovers (covered b (omega arith)) here in
      let rest = recover_buckets-joined (b + 1) bs (omega arith) (λ i p.
        subst (λ c. IsFused t.source_count (λ s. column_of n c (at maps s)) (get_or bs i []))
          (omega arith) (held (suc i) (omega arith))) in
      rw (run, rest, picked)

  -- For a table that fuses some maps, a source `m` of it, and a list, in any order, of the table's
  -- other sources, each once and with its map: `Recover` succeeds and returns the map of `m`, in
  -- the order of the keys.
  pub recover-Fuses :
      length list + 1 ≡ t.source_count → recover t (pos m) (as_survivors list) ≡ ok (at maps m)
  unfolding recover
  recover-Fuses size =
      let joined_up = recover_buckets-joined 0 t.buckets (omega (arith, f.count)) (λ i p.
        subst (λ c. IsFused t.source_count (λ s. column_of n c (at maps s)) (get_or t.buckets i []))
          (omega arith) (f.fused i (omega (arith, f.count)))) in
      rw
        (
          lt→not_leb t.source_count m missing,
          length-as_survivors list,
          size,
          ==_refl t.source_count,
          group_all-all_groups f m list survivors,
          joined_up,
          f.count,
          sort-joined n (at maps m) f.filled (f.sorted m),
        )
        refl
