-- ===== src/FusedList/Sets.antt =====
-- structures/linkedlist.go: `FusedSet`, a fused linked list whose sources hold no value twice.
use mathlib.Core.Bool.{not}
use vada_db.Common.{
  ℕ, suc, ◌<◌, ◌≡◌, ◌⊎◌, refl, ap, sym, ◌∙◌, Bool, true, false, ◌&&◌, ◌||◌, Option, none, some,
  List, [], ◌∷◌, length, get_or, set, insert_at, remove_at, get_or-set, Bool-cases, ◌==◌, ==_iff,
  if◌then◌else◌, arith, inl, inr, lt→not_leb, get_or-past, leb,
}
use vada_db.Common.Int.{ℤ, pos, to_ℕ}
use vada_db.Result.{Result, ok, Returns, ◌>>=◌, ◌>>◌}
use vada_db.FusedList.{FusedList, valid_source, insert, delete}
use vada_db.FusedList.Recovering.{source}
use vada_db.FusedList.Passes.{IsFusedList, valid_source-lt}
use vada_db.FusedList.Invariant.{insert-IsFusedList, delete-IsFusedList}

abbrev next_index : Option ℕ → Option ℕ
next_index none = none
next_index (some i) = some (suc i)

-- The loops of `Remove` and `Contains` over the values of a source.
unfoldable pub index_of : List ℕ → ℕ → Option ℕ
index_of [] v = none
index_of (x ∷ xs) v = if x == v then some 0 else next_index (index_of xs v)

unfoldable pub has_value : List ℕ → ℕ → Bool
has_value [] v = false
has_value (x ∷ xs) v = if x == v then true else has_value xs v

unfoldable pub contains : FusedList → ℤ → ℕ → Bool
contains f i v = has_value (source f i) v

unfoldable pub add : FusedList → ℤ → ℕ → Result FusedList
add f i v = do
  valid_source f i
  if contains f i v then ok f else insert f i (pos (length (get_or f.sources (to_ℕ i) []))) v

unfoldable pub remove_found : FusedList → ℤ → Option ℕ → Result (Bool × FusedList)
remove_found f i none = valid_source f i >> ok (false, f)
remove_found f i (some k) = delete f i (pos k) >>= λ r. ok (true, r.1)

unfoldable pub remove : FusedList → ℤ → ℕ → Result (Bool × FusedList)
remove f i v = remove_found f i (index_of (source f i) v)

-- No value stands twice.
abbrev pub NoRepeats : List ℕ → Type 0
NoRepeats [] = Unit
NoRepeats (x ∷ xs) = (has_value xs x ≡ false) × NoRepeats xs

has_value-snoc :
    (xs : List ℕ) (v x : ℕ) → has_value (insert_at xs (length xs) v) x ≡ (has_value xs x || v == x)
unfolding has_value
has_value-snoc [] v x = ground arith
has_value-snoc (y ∷ xs) v x = ground (arith, has_value-snoc xs v x)

NoRepeats-snoc :
    (xs : List ℕ) (v : ℕ)
    → has_value xs v ≡ false
    → NoRepeats xs
    → NoRepeats (insert_at xs (length xs) v)
unfolding has_value
NoRepeats-snoc [] v e d = (refl, tt)
NoRepeats-snoc (y ∷ xs) v e d =
    (ground (arith, has_value-snoc xs v y, d.0), NoRepeats-snoc xs v (ground arith) d.1)

abbrev remove_first : List ℕ → ℕ → List ℕ
remove_first [] v = []
remove_first (x ∷ xs) v = if x == v then xs else x ∷ remove_first xs v

-- The index found, where a source has a value.
record FoundAt (xs : List ℕ) (v : ℕ) : Type 0 where
  index : ℕ
  at : index_of xs v ≡ some index
  held : has_value xs v ≡ true
  bound : index < length xs
  removed : remove_at xs index ≡ remove_first xs v

index_of-cases :
    (xs : List ℕ) (v : ℕ) → ((index_of xs v ≡ none) × (has_value xs v ≡ false)) ⊎ FoundAt xs v
unfolding index_of has_value
index_of-cases [] v = inl (refl, refl)
index_of-cases (x ∷ xs) v = elim (Bool-cases (x == v)) [
  | inl e ↦ inr (record {
    index = 0;
    at = rw e refl;
    held = rw e refl;
    bound = omega arith;
    removed = rw e refl;
  })
  | inr e ↦ elim (index_of-cases xs v) [
    | inl q ↦ inl (rw (e, q.0) refl, rw (e, q.1) refl)
    | inr q ↦ inr (record {
      index = suc q.index;
      at = rw (e, q.at) refl;
      held = rw (e, q.held) refl;
      bound = omega (arith, q.bound);
      removed = rw (e, q.removed) refl;
    })
  ]
]

has_value-remove_first :
    (xs : List ℕ) (v x : ℕ)
    → NoRepeats xs
    → has_value (remove_first xs v) x ≡ (has_value xs x && not (v == x))
unfolding has_value
has_value-remove_first [] v x d = refl
has_value-remove_first (y ∷ xs) v x d =
    ground (arith, has_value-remove_first xs v x d.1, d.0, ap (has_value xs) {x = y} {y = x})

NoRepeats-remove_first : (xs : List ℕ) (v : ℕ) → NoRepeats xs → NoRepeats (remove_first xs v)
unfolding has_value
NoRepeats-remove_first [] v d = tt
NoRepeats-remove_first (y ∷ xs) v d = elim (Bool-cases (y == v)) [
  | inl e ↦ rw e d.1
  | inr e ↦
      rw e (ground (arith, has_value-remove_first xs v y d.1, d.0), NoRepeats-remove_first xs v d.1)
]

-- A fused set: the list fuses its sources, and no source holds a value twice.
pub record IsFusedSet (f : FusedList) : Type 0 where
  pub fused : IsFusedList f
  pub distinct : (s : ℕ) → NoRepeats (get_or f.sources s [])

contains-pos :
    (f : FusedList) (s v : ℕ) → contains f (pos s) v ≡ has_value (get_or f.sources s []) v
unfolding contains source has_value
contains-pos f s v = elim (Bool-cases (leb (length f.sources) s)) [
  | inl e ↦ rw (e, get_or-past f.sources s [] (ground arith)) refl
  | inr e ↦ rw e refl
]

module _ (f : FusedList) (is_set : IsFusedSet f) (s : ℕ) (hs : s < length f.sources) where
  -- A list whose sources are those of `f` but for one.
  module _ (f' : FusedList) (vs : List ℕ) (changed : f'.sources ≡ set f.sources s vs) where
    NoRepeats-set : NoRepeats vs → (u : ℕ) → NoRepeats (get_or f'.sources u [])
    NoRepeats-set d u = elim (Bool-cases (u == s)) [
      | inl e ↦ rw (changed, get_or-set f.sources s u vs [] hs, e) d
      | inr e ↦ rw (changed, get_or-set f.sources s u vs [] hs, e) (is_set.distinct u)
    ]

    contains-set :
        (u x : ℕ)
        → contains f' (pos u) x
          ≡ (if u == s then has_value vs x else has_value (get_or f.sources u []) x)
    contains-set u x = elim (Bool-cases (u == s)) [
      | inl e ↦ rw (contains-pos f' u x, changed, get_or-set f.sources s u vs [] hs, e) refl
      | inr e ↦ rw (contains-pos f' u x, changed, get_or-set f.sources s u vs [] hs, e) refl
    ]

  at_source :
      (u x : ℕ)
      → (u == s) ≡ true
      → has_value (get_or f.sources u []) x ≡ has_value (get_or f.sources s []) x
  at_source u x e = ap (λ k. has_value (get_or f.sources k []) x) ((==_iff u s).0 e)

  at_value :
      (v x : ℕ)
      → (v == x) ≡ true
      → has_value (get_or f.sources s []) v ≡ has_value (get_or f.sources s []) x
  at_value v x e = ap (has_value (get_or f.sources s [])) ((==_iff v x).0 e)

  -- For a set and one of its sources: `Add` succeeds, the result is a set again, and it contains what
  -- the set contained and, in this source, the value.
  pub add-IsFusedSet :
      (v : ℕ)
      → Returns (add f (pos s) v) λ f'.
        IsFusedSet f'
        × ((u x : ℕ) → contains f' (pos u) x ≡ (contains f (pos u) x || u == s && v == x))
  unfolding add
  add-IsFusedSet v = elim (Bool-cases (contains f (pos s) v)) [
    | inl e ↦ (
      f,
      rw (valid_source-lt f s hs, e) refl,
      (
        is_set,
        λ u x.
            rw (contains-pos f u x)
              (ground (arith, at_source u x, at_value v x, contains-pos f s v, e)),
      ),
    )
    | inr e ↦
        let values : List ℕ = get_or f.sources s [] in
        let absent : has_value values v ≡ false = sym (contains-pos f s v) ∙ e in
        let (f', run, kept) =
          insert-IsFusedList f is_set.fused s (length values) hs v (omega arith) in
        let vs : List ℕ = insert_at values (length values) v in
        (
          f',
          rw (valid_source-lt f s hs, e) run,
          (
            record {
              fused = kept.0;
              distinct =
                  NoRepeats-set f' vs kept.1 (NoRepeats-snoc values v absent (is_set.distinct s));
            },
            λ u x.
                rw (contains-set f' vs kept.1 u x, contains-pos f u x)
                  (ground (arith, at_source u x, has_value-snoc values v x)),
          ),
        )
  ]

  -- For a set and one of its sources: `Remove` neither fails nor panics, it tells whether the source
  -- contained the value, the result is a set again, and it contains what the set contained less, in
  -- this source, the value.
  pub remove-IsFusedSet :
      (v : ℕ)
      → Returns (remove f (pos s) v) λ r.
        (r.0 ≡ contains f (pos s) v)
        × IsFusedSet r.1
        × ((u x : ℕ) → contains r.1 (pos u) x ≡ (contains f (pos u) x && not (u == s && v == x)))
  unfolding remove remove_found source
  remove-IsFusedSet v =
      let values : List ℕ = get_or f.sources s [] in
      elim (index_of-cases values v) [
        | inl q ↦ (
          (false, f),
          rw (lt→not_leb (length f.sources) s hs, q.0, valid_source-lt f s hs) refl,
          (
            sym (contains-pos f s v ∙ q.1),
            is_set,
            λ u x. rw (contains-pos f u x) (ground (arith, at_source u x, at_value v x, q.1)),
          ),
        )
        | inr q ↦
            let (r, run, kept) = delete-IsFusedList f is_set.fused s q.index hs q.bound in
            let vs : List ℕ = remove_first values v in
            let changed : r.1.sources ≡ set f.sources s vs =
              kept.2 ∙ ap (set f.sources s) q.removed in
            (
              (true, r.1),
              rw (lt→not_leb (length f.sources) s hs, q.at, run) refl,
              (
                sym (contains-pos f s v ∙ q.held),
                record {
                  fused = kept.1;
                  distinct =
                      NoRepeats-set r.1 vs changed
                        (NoRepeats-remove_first values v (is_set.distinct s));
                },
                λ u x.
                    rw (contains-set r.1 vs changed u x, contains-pos f u x)
                      (ground (
                        arith,
                        at_source u x,
                        has_value-remove_first values v x (is_set.distinct s),
                      )),
              ),
            )
      ]
