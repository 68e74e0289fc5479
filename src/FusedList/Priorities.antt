-- ===== src/FusedList/Priorities.antt =====
-- structures/linkedlist.go: `FusedPriorityQueue`, a fused linked list whose sources are in order.
use mathlib.Core.Path.{subst}
use vada_db.Common.{
  ℕ, suc, ◌<◌, ◌≤◌, ◌≡◌, refl, ap, sym, ◌∙◌, List, [], ◌∷◌, length, get_or, set, insert_at,
  remove_at, get_or-set, Bool-cases, ◌==◌, if◌then◌else◌, arith, inl, inr, ltb, lt→not_leb,
}
use vada_db.Common.Int.{ℤ, pos}
use vada_db.KvMap.{search}
use vada_db.Result.{Result, Returns}
use vada_db.FusedList.{FusedList, insert, delete}
use vada_db.FusedList.Recovering.{source}
use vada_db.FusedList.Passes.{IsFusedList}
use vada_db.FusedList.Invariant.{insert-IsFusedList, delete-IsFusedList}

unfoldable pub push : FusedList → ℤ → ℕ → Result FusedList
push f i v = insert f i (pos (search (source f i) v)) v

unfoldable pub pop_min : FusedList → ℤ → Result (ℕ × FusedList)
pop_min f i = delete f i (pos 0)

abbrev pub AtLeast : ℕ → List ℕ → Type 0
AtLeast v [] = Unit
AtLeast v (x ∷ xs) = (v ≤ x) × AtLeast v xs

-- The least value first.
abbrev pub IsOrdered : List ℕ → Type 0
IsOrdered [] = Unit
IsOrdered (x ∷ xs) = AtLeast x xs × IsOrdered xs

-- How often a value stands in a list.
abbrev pub count : ℕ → List ℕ → ℕ
count v [] = 0
count v (x ∷ xs) = if x == v then suc (count v xs) else count v xs

search-le : (xs : List ℕ) (v : ℕ) → search xs v ≤ length xs
unfolding search
search-le [] v = omega arith
search-le (x ∷ xs) v = ground (arith, search-le xs v)

abbrev placed : List ℕ → ℕ → List ℕ
placed xs v = insert_at xs (search xs v) v

AtLeast-trans : (u v : ℕ) (xs : List ℕ) → u ≤ v → AtLeast v xs → AtLeast u xs
AtLeast-trans u v [] h a = tt
AtLeast-trans u v (x ∷ xs) h a = (omega (arith, a.0), AtLeast-trans u v xs h a.1)

AtLeast-placed : (u v : ℕ) (xs : List ℕ) → u ≤ v → AtLeast u xs → AtLeast u (placed xs v)
unfolding search
AtLeast-placed u v [] h a = (h, tt)
AtLeast-placed u v (x ∷ xs) h a = elim (Bool-cases (ltb x v)) [
  | inl e ↦ rw e (a.0, AtLeast-placed u v xs h a.1)
  | inr e ↦ rw e (h, a)
]

IsOrdered-placed : (xs : List ℕ) (v : ℕ) → IsOrdered xs → IsOrdered (placed xs v)
unfolding search
IsOrdered-placed [] v o = (tt, tt)
IsOrdered-placed (x ∷ xs) v o = elim (Bool-cases (ltb x v)) [
  | inl e ↦ rw e (AtLeast-placed x v xs (ground arith) o.0, IsOrdered-placed xs v o.1)
  | inr e ↦ rw e ((ground arith, AtLeast-trans v x xs (ground arith) o.0), o)
]

count-placed :
    (xs : List ℕ) (v x : ℕ)
    → count x (placed xs v) ≡ (if v == x then suc (count x xs) else count x xs)
unfolding search
count-placed [] v x = refl
count-placed (y ∷ xs) v x = ground (arith, count-placed xs v x)

first-least :
    (xs : List ℕ)
    → 0 < length xs
    → IsOrdered xs
    → (xs ≡ get_or xs 0 0 ∷ remove_at xs 0)
      × AtLeast (get_or xs 0 0) (remove_at xs 0)
      × IsOrdered (remove_at xs 0)
first-least [] h o = absurd (omega arith)
first-least (x ∷ xs) h o = (refl, o.0, o.1)

-- A fused priority queue: the list fuses its sources, and each source is in order.
pub record IsPriorityQueue (f : FusedList) : Type 0 where
  pub fused : IsFusedList f
  pub ordered : (s : ℕ) → IsOrdered (get_or f.sources s [])

source-lt :
    (f : FusedList) (s : ℕ) → s < length f.sources → source f (pos s) ≡ get_or f.sources s []
unfolding source
source-lt f s h = rw (lt→not_leb (length f.sources) s h) refl

module _ (f : FusedList) (is_queue : IsPriorityQueue f) (s : ℕ) (hs : s < length f.sources) where
  IsOrdered-set :
      (f' : FusedList) (vs : List ℕ)
      → f'.sources ≡ set f.sources s vs
      → IsOrdered vs
      → (u : ℕ) → IsOrdered (get_or f'.sources u [])
  IsOrdered-set f' vs changed d u = elim (Bool-cases (u == s)) [
    | inl e ↦ rw (changed, get_or-set f.sources s u vs [] hs, e) d
    | inr e ↦ rw (changed, get_or-set f.sources s u vs [] hs, e) (is_queue.ordered u)
  ]

  -- For a priority queue and one of its sources: `Push` succeeds and the result is a priority queue
  -- again, in which this source holds what it held and the value once more, and nothing else has
  -- changed.
  pub push-IsPriorityQueue :
      (v : ℕ)
      → Returns (push f (pos s) v) λ f'.
        IsPriorityQueue f'
        × ((vs : List ℕ) × (f'.sources ≡ set f.sources s vs)
            × ((x : ℕ)
                → count x vs ≡ (
                    if v == x
                    then suc (count x (get_or f.sources s []))
                    else count x (get_or f.sources s []))))
  unfolding push
  push-IsPriorityQueue v =
      let values : List ℕ = get_or f.sources s [] in
      let (f', run, kept) =
        insert-IsFusedList f is_queue.fused s (search values v) hs v (search-le values v) in
      (
        f',
        ap (λ vs. insert f (pos s) (pos (search vs v)) v) (source-lt f s hs) ∙ run,
        (
          record {
            fused = kept.0;
            ordered =
                IsOrdered-set f' (placed values v) kept.1
                  (IsOrdered-placed values v (is_queue.ordered s));
          },
          (placed values v, kept.1, count-placed values v),
        ),
      )

  -- For a priority queue and one of its sources that is not empty: `PopMin` neither fails nor panics,
  -- it returns a value that is at most any in the source, the result is a priority queue again, and
  -- the source is that value put before what the source now holds.
  pub pop_min-IsPriorityQueue :
      0 < length (get_or f.sources s [])
      → Returns (pop_min f (pos s)) λ r.
        IsPriorityQueue r.1
        × ((rest : List ℕ) × (get_or f.sources s [] ≡ r.0 ∷ rest)
            × AtLeast r.0 rest
            × (r.1.sources ≡ set f.sources s rest))
  unfolding pop_min
  pop_min-IsPriorityQueue h =
      let (r, run, kept) = delete-IsFusedList f is_queue.fused s 0 hs h in
      let values : List ℕ = get_or f.sources s [] in
      let rest : List ℕ = remove_at values 0 in
      let (split, least, ordered) = first-least values h (is_queue.ordered s) in
      (
        r,
        run,
        (
          record { fused = kept.1; ordered = IsOrdered-set r.1 rest kept.2 ordered },
          (
            rest,
            split ∙ ap (λ v. v ∷ rest) (sym kept.0),
            subst (λ v. AtLeast v rest) (sym kept.0) least,
            kept.2,
          ),
        ),
      )
