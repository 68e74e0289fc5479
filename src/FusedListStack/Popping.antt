-- ===== src/FusedListStack/Popping.antt =====
-- `Pop` of the fused list stack: the last node goes where no source is as high any more.
use mathlib.Core.Bool.{not}
use vada_db.Common.{
  ℕ, zero, suc, ◌+◌, ◌<◌, ◌≤◌, ◌≡◌, refl, ap, sym, ◌∙◌, true, false, ◌&&◌, List, [], ◌∷◌, map,
  length, get_or, set, modify, take, length-modify, length-take, get_or-take, get_or-set, leb, ◌==◌,
  Bool-cases, arith, inl, inr,
}
use vada_db.Common.Int.{pos}
use vada_db.Xor.{◌⊕◌}
use vada_db.CoreXor.{longest}
use vada_db.CoreXor.Slices.{Sources, xor_of_all}
use vada_db.CoreXor.Fusion.{fused_slices, value_at, le-longest, length-fused_slices}
use vada_db.KvBucket.{is_position}
use vada_db.Result.{ok, Returns}
use vada_db.FusedStack.Popping.{slots-pop}
use vada_db.FusedListStack.{
  FusedListStack, split_last, previous, tail_referenced, unlink_last, pop_tail, pop,
}
use vada_db.FusedListStack.Heights.{
  fused_slices_unique, stack_of, stack_of-IsFusedStack, longest-lower, longest-kept, longest-below,
}
use vada_db.FusedListStack.Invariant.{
  tail_of, IsFusedListStack, valid_source-lt, get_or-tails, previous-suc, map-set,
}

split_last-eq :
    (values : List ℕ) (top : ℕ)
    → length values ≡ top + 1
    → split_last values ≡ ok (value_at top values, take top values)
unfolding split_last
split_last-eq [] top e = absurd (omega arith)
split_last-eq (x ∷ xs) top e =
    ap (λ k. ok (get_or (x ∷ xs) k 0, take k (x ∷ xs))) {x = length xs} {y = top} (omega arith)

tail_at :
    (values : List ℕ) (top : ℕ) → is_position (tail_of values) top ≡ (length values == top + 1)
unfolding is_position previous
tail_at [] top = ground arith
tail_at (x ∷ xs) top = ground arith

-- A tail is at a node where a source ends there.
not_referenced :
    (ss : Sources) (top : ℕ)
    → tail_referenced (map tail_of ss) top ≡ false
    → (u : ℕ) → (length (get_or ss u []) == top + 1) ≡ false
unfolding tail_referenced
not_referenced [] top e u = ground arith
not_referenced (x ∷ ss) top e zero = ground (arith, tail_at x top)
not_referenced (x ∷ ss) top e (suc u) = not_referenced ss top (ground arith) u

referenced :
    (ss : Sources) (top : ℕ)
    → tail_referenced (map tail_of ss) top ≡ true
    → (u : ℕ) × (length (get_or ss u []) ≡ top + 1)
unfolding tail_referenced
referenced [] top e = cc
referenced (x ∷ ss) top e = elim (Bool-cases (is_position (tail_of x) top)) [
  | inl h ↦ (0, ground (arith, tail_at x top, h))
  | inr h ↦ let r = referenced ss top (ground arith) in (suc r.0, r.1)
]

module _ (ss : Sources) (s : ℕ) (hs : s < length ss) (top : ℕ)
    (height : length (get_or ss s []) ≡ top + 1) where
  abbrev pub old : List ℕ
  old = get_or ss s []

  abbrev pub rest : List ℕ
  rest = take top old

  abbrev pub lowered : Sources
  lowered = set ss s rest

  abbrev pub popped : List ℕ
  popped = modify (fused_slices ss) top (λ w. w ⊕ value_at top old)

  pub length-rest : length rest ≡ top
  length-rest = length-take top old (omega arith)

  pub length-popped : length popped ≡ longest 0 ss
  length-popped =
      length-modify (fused_slices ss) top (λ w. w ⊕ value_at top old) ∙ length-fused_slices ss

  pub slots_lowered : (i : ℕ) → value_at i popped ≡ xor_of_all (value_at i) refl lowered
  slots_lowered i = slots-pop {f = stack_of ss} (stack_of-IsFusedStack ss) s hs top height i

  other : (u : ℕ) → (u == s) ≡ false → get_or lowered u [] ≡ get_or ss u []
  other u e = rw (get_or-set ss s u rest [] hs, e) refl

  here : (u : ℕ) → (u == s) ≡ true → length (get_or lowered u []) ≡ top
  here u e = rw (get_or-set ss s u rest [] hs, e) length-rest

  -- The last node goes, where no source is as high as this one was.
  unlinked :
      longest 0 ss ≤ top + 1
      → tail_referenced (map tail_of lowered) top ≡ false
      → take top popped ≡ fused_slices lowered
  unlinked h e =
      let size : longest 0 ss ≡ top + 1 = omega (arith, h, le-longest 0 ss s) in
      let cut : length (take top popped) ≡ top =
        length-take top popped (omega (arith, length-popped, size)) in
      let below : longest 0 lowered ≡ top =
        longest-lower ss s hs rest (omega (arith, length-rest, size)) (λ u d. ground (
          arith,
          length-rest,
          le-longest 0 ss u,
          not_referenced lowered top e u,
          ap length (other u d),
        ))
        ∙ length-rest in
      fused_slices_unique lowered (take top popped) (omega (arith, cut, below))
        (λ i p. get_or-take top popped i 0 (omega (arith, cut)) ∙ slots_lowered i)

  kept :
      leb (longest 0 ss) (top + 1) && not (tail_referenced (map tail_of lowered) top) ≡ false
      → popped ≡ fused_slices lowered
  kept e = fused_slices_unique lowered popped (length-popped ∙ sym same) (λ i p. slots_lowered i)
    where
      same : longest 0 lowered ≡ longest 0 ss
      same = elim (Bool-cases (leb (longest 0 ss) (top + 1))) [
        | inr high ↦ longest-below ss s hs rest (omega (arith, length-rest)) (ground arith)
        | inl low ↦
            let (u, h) = referenced lowered top (ground arith) in
            let apart : (u == s) ≡ false = elim (Bool-cases (u == s)) [
              | inr d ↦ d
              | inl d ↦ absurd (omega (arith, here u d, h))
            ] in
            longest-kept ss s hs rest (omega (arith, length-rest)) u apart
              (ground (arith, ap length (other u apart), le-longest 0 ss s))
      ]

  unlink_last-eq : unlink_last popped (map tail_of lowered) top ≡ fused_slices lowered
  unfolding unlink_last
  unlink_last-eq =
      elim (Bool-cases
        (leb (length popped) (top + 1) && not (tail_referenced (map tail_of lowered) top))) [
          | inl e ↦ rw e (unlinked (ground (arith, length-popped)) (ground arith))
          | inr e ↦ rw e (
              kept (
                sym (
                  ap (λ n. leb n (top + 1) && not (tail_referenced (map tail_of lowered) top))
                    length-popped)
                ∙ e))
        ]

  tails-pop : set (map tail_of ss) s (previous top) ≡ map tail_of lowered
  tails-pop =
      ap (λ n. set (map tail_of ss) s (previous n)) (sym length-rest)
      ∙ sym (map-set tail_of ss s rest)

-- For a fused list stack and a source of it that is not empty: `Pop` neither fails nor panics and
-- returns the source's last value, the source is without that, and the nodes and tails are again those
-- of the sources: the last node goes exactly where no source is as high.
pub pop-IsFusedListStack :
    (f : FusedListStack)
    → IsFusedListStack f
    → (s : ℕ) → s < length f.sources
    → (top : ℕ) → length (get_or f.sources s []) ≡ top + 1
    → Returns (pop f (pos s)) λ r.
      (r.0 ≡ value_at top (get_or f.sources s []))
      × IsFusedListStack r.1
      × (r.1.sources ≡ set f.sources s (take top (get_or f.sources s [])))
unfolding pop pop_tail
pop-IsFusedListStack f fused s hs top height =
    let ss : Sources = f.sources in
    (
      (
        value_at top (get_or ss s []),
        record {
          sources = lowered ss s hs top height;
          nodes = fused_slices (lowered ss s hs top height);
          tails = map tail_of (lowered ss s hs top height);
        },
      ),
      rw
          (
            valid_source-lt f s hs,
            fused.tails,
            get_or-tails ss s,
            previous-suc (length (get_or ss s [])) top height,
            split_last-eq (get_or ss s []) top height,
            fused.nodes,
            tails-pop ss s hs top height,
            unlink_last-eq ss s hs top height,
          )
          refl,
      (refl, record { nodes = refl; tails = refl }, refl),
    )
