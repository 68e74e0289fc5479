-- ===== src/KvTable/Fused.antt =====
-- What the fused table stands for: the maps of the sources, each cut into its buckets.
use vada_db.Common.{
  ℕ, ◌%◌, ◌<◌, ◌≤◌, ◌≡◌, ◌≢◌, refl, ap, sym, ◌∙◌, true, false, List, [], ◌==◌, if◌then◌else◌,
  length, get_or, set, replicate, length-set, get_or-set, ◌&&◌, Bool-cases, ==_iff, arith, inl, inr,
}
use vada_db.KvBucket.{Bucket}
use vada_db.KvBucket.Slots.{IsFused, IsFused-congr}
use vada_db.KvBucket.Change.{with_column}
use vada_db.KvMap.{KvMap, IsSorted}
use vada_db.KvMap.Column.{keep_keys}
use vada_db.Common.{length-replicate, get_or-replicate, get_or-replicate_in, not_ltb}
use vada_db.Common.Int.{pos}
use vada_db.Result.{Returns}
use vada_db.KvMap.{keep}
use vada_db.KvTable.{new, Table, size_of, write}

-- The records of a map in bucket `b` of `n`.
abbrev pub column_of : ℕ → ℕ → KvMap → KvMap
column_of n b = keep_keys (λ k. k % n == b)

abbrev pub at : List KvMap → ℕ → KvMap
at maps s = get_or maps s []

-- The table has `n` buckets, and fuses these maps, one for each source.
pub record Fuses (n : ℕ) (t : Table) (maps : List KvMap) : Type 0 where
  pub filled : 0 < n
  pub count : length t.buckets ≡ n
  pub sources : length maps ≡ t.source_count
  pub sorted : (s : ℕ) → IsSorted (at maps s)
  pub rows : length t.sizes ≡ t.source_count
  pub row : (s : ℕ) → s < t.source_count → length (get_or t.sizes s []) ≡ n
  pub fused :
      (b : ℕ)
      → b < n
      → IsFused t.source_count (λ s. column_of n b (at maps s)) (get_or t.buckets b [])
  pub sizes :
      (s b : ℕ) → s < t.source_count → b < n → size_of t s b ≡ length (column_of n b (at maps s))

module _ {n : ℕ} {t : Table} {maps : List KvMap} (f : Fuses n t maps) (s b : ℕ)
    (in_sources : s < t.source_count) (in_buckets : b < n) (m : KvMap) (ns : Bucket)
    (size : ℕ) where
  abbrev maps' : List KvMap
  maps' = set maps s m

  at-set : (u : ℕ) → at maps' u ≡ (if u == s then m else at maps u)
  at-set u = get_or-set maps s u m [] (omega (arith, f.sources))

  module _ (apart : (c : ℕ) → b ≢ c → column_of n c m ≡ column_of n c (at maps s)) where
    -- Only the column of `s` in `b` changes.
    column-at-set :
        (u c : ℕ)
        → column_of n c (at maps' u)
          ≡ (if u == s && c == b then column_of n b m else column_of n c (at maps u))
    column-at-set u c = elim (Bool-cases (u == s)) [
      | inl e ↦ elim (Bool-cases (c == b)) [
        | inl d ↦ rw (at-set u, e, d) (ap (λ k. column_of n k m) ((==_iff c b).0 d))
        | inr d ↦
            rw (at-set u, e, d)
              (apart c (ground arith)
                ∙ ap (λ k. column_of n c (at maps k)) (sym ((==_iff u s).0 e)))
      ]
      | inr e ↦ rw (at-set u, e)
    ]

    IsSorted-at-set : IsSorted m → (u : ℕ) → IsSorted (at maps' u)
    IsSorted-at-set sorted u = elim (Bool-cases (u == s)) [
      | inl e ↦ rw (at-set u, e) sorted
      | inr e ↦ rw (at-set u, e) (f.sorted u)
    ]

    row_set : List ℕ
    row_set = set (get_or t.sizes s []) b size

    length-row_set : length row_set ≡ n
    unfolding row_set
    length-row_set = length-set (get_or t.sizes s []) b size ∙ f.row s in_sources

    row-at-set : (u : ℕ) → u < t.source_count → length (get_or (set t.sizes s row_set) u []) ≡ n
    row-at-set u h = elim (Bool-cases (u == s)) [
      | inl e ↦ rw (get_or-set t.sizes s u row_set [] (omega (arith, f.rows)), e) length-row_set
      | inr e ↦ rw (get_or-set t.sizes s u row_set [] (omega (arith, f.rows)), e) (f.row u h)
    ]

    IsFused-at-set :
        IsFused t.source_count (with_column (λ u. column_of n b (at maps u)) s (column_of n b m)) ns
        → (c : ℕ) → c < n
        → IsFused t.source_count
            (λ u. column_of n c (at maps' u))
            (get_or (set t.buckets b ns) c [])
    IsFused-at-set fused c h = elim (Bool-cases (c == b)) [
      | inl d ↦
          rw (get_or-set t.buckets b c ns [] (omega (arith, f.count)), d)
            (IsFused-congr t.source_count _ (λ u. column_of n c (at maps' u)) ns
              (λ u. sym (column-at-set u c ∙ here u d)) fused)
      | inr d ↦
          rw (get_or-set t.buckets b c ns [] (omega (arith, f.count)), d)
            (IsFused-congr t.source_count _ (λ u. column_of n c (at maps' u))
              (get_or t.buckets c []) (λ u. sym (column-at-set u c ∙ there u d)) (f.fused c h))
    ]
      where
        here :
            (u : ℕ)
            → (c == b) ≡ true
            → (if u == s && c == b then column_of n b m else column_of n c (at maps u))
              ≡ with_column (λ u. column_of n b (at maps u)) s (column_of n b m) u
        here u d = rw (d, (==_iff c b).0 d) (ground arith)

        there :
            (u : ℕ)
            → (c == b) ≡ false
            → (if u == s && c == b then column_of n b m else column_of n c (at maps u))
              ≡ column_of n c (at maps u)
        there u d = rw d (ground arith)

    cell :
        (u c : ℕ)
        → c < n
        → (u == s) ≡ true
        → length (column_of n c (at maps' u))
          ≡ length (if u == s && c == b then column_of n b m else column_of n c (at maps u))
        → size ≡ length (column_of n b m)
        → (if c == b then size else get_or (get_or t.sizes s []) c 0)
          ≡ length (column_of n c (at maps' u))
    unfolding size_of
    cell u c k e q counted = elim (Bool-cases (c == b)) [
      | inl d ↦ rw (q, e, d) counted
      | inr d ↦
          rw (q, e, d)
            (f.sizes s c in_sources k
              ∙ ap (λ k. length (column_of n c (at maps k))) (sym ((==_iff u s).0 e)))
    ]

    sizes-at-set :
        size ≡ length (column_of n b m)
        → (u c : ℕ) → u < t.source_count
        → c < n
        → get_or (get_or (set t.sizes s row_set) u []) c 0 ≡ length (column_of n c (at maps' u))
    unfolding row_set size_of
    sizes-at-set counted u c h k = elim (Bool-cases (u == s)) [
      | inl e ↦
          rw
            (
              get_or-set t.sizes s u row_set [] (omega (arith, f.rows)),
              e,
              get_or-set (get_or t.sizes s []) b c size 0 (omega (arith, f.row s in_sources)),
            )
            (cell u c k e (ap (λ l. length l) (column-at-set u c)) counted)
      | inr e ↦
          rw (get_or-set t.sizes s u row_set [] (omega (arith, f.rows)), at-set u, e)
            (f.sizes u c h k)
    ]

  -- A write of one bucket and one size, for a map that changed in that bucket alone.
  pub write-Fuses :
      IsSorted m
      → ((c : ℕ) → b ≢ c → column_of n c m ≡ column_of n c (at maps s))
      → IsFused t.source_count (with_column (λ u. column_of n b (at maps u)) s (column_of n b m)) ns
      → size ≡ length (column_of n b m)
      → Fuses n (write t s b ns size) (set maps s m)
  unfolding write row_set size_of
  write-Fuses sorted apart fused counted = record {
    filled = f.filled;
    count = length-set t.buckets b ns ∙ f.count;
    sources = length-set maps s m ∙ f.sources;
    sorted = IsSorted-at-set apart sorted;
    rows = length-set t.sizes s _ ∙ f.rows;
    row = row-at-set apart;
    fused = IsFused-at-set apart fused;
    sizes = sizes-at-set apart counted;
  }

column-at-replicate : (n w b s : ℕ) → column_of n b (at (replicate w []) s) ≡ []
unfolding keep
column-at-replicate n w b s = ap (column_of n b) (get_or-replicate w s [])

-- A new table fuses empty maps.
pub new-Fuses :
    (w n : ℕ)
    → 2 ≤ w
    → 1 ≤ n
    → Returns (new (pos w) (pos n)) λ t. Fuses n t (replicate w []) × (t.source_count ≡ w)
unfolding new size_of
new-Fuses w n h k = (
  record { source_count = w; buckets = replicate n []; sizes = replicate w (replicate n 0) },
  rw (not_ltb w 2 h, not_ltb n 1 k),
  (
    record {
      filled = omega arith;
      count = length-replicate n [];
      sources = length-replicate w [];
      sorted = λ s. rw (get_or-replicate {A = KvMap} w s []) tt;
      rows = length-replicate w (replicate {A = ℕ} n 0);
      row = λ s p.
          rw (get_or-replicate_in w s (replicate {A = ℕ} n 0) [] p) (length-replicate {A = ℕ} n 0);
      fused = λ b p. rw (get_or-replicate {A = Bucket} n b []) (record {
        slots = [];
        nodes = refl;
        width = tt;
        columns = λ s. sym (column-at-replicate n w b s);
      });
      sizes = λ s b p q.
          rw (column-at-replicate n w b s, get_or-replicate_in w s (replicate {A = ℕ} n 0) [] p)
            (get_or-replicate {A = ℕ} n b 0);
    },
    refl,
  ),
)
