-- ===== src/FusedListStack/Agreement.antt =====
-- structures/liststack.go against structures/stack.go: the linked list of nodes is the fusion that the
-- other keeps as a slice.

use vada_db.Common.{
  ℕ, zero, suc, ◌+◌, ◌-◌, ◌<◌, ◌≤◌, ◌≡◌, refl, ap, sym, ◌∙◌, lt→not_leb, List, [], ◌∷◌, ◌++◌, map,
  length, get_or, set, modify, take, length-take, length-append, ltb, not_==, if◌then◌else◌,
  Bool-cases, arith, inl, inr,
}
use vada_db.Common.Int.{pos}
use vada_db.CoreXor.{longest}
use vada_db.CoreXor.Slices.{Sources}
use vada_db.CoreXor.Fusion.{fused_slices, value_at, le-longest}
use vada_db.Result.{ok, Returns}
use vada_db.FusedStack
use vada_db.FusedStack.{FusedStack, max_top, shrink}
use vada_db.FusedStack.Invariant.{xor_of_all-end}
use vada_db.FusedStack.Pushing.{modify-set}
use vada_db.FusedStack.Popping.{shrink-keeps, less}
use vada_db.FusedListStack
use vada_db.FusedListStack.{FusedListStack}
use vada_db.FusedListStack.Heights.{stack_of, get_or-lengths, fused_slices_unique, longest-set-le}
use vada_db.FusedListStack.Invariant.{IsFusedListStack, map-set}
use vada_db.FusedListStack.Pushing.{grown, nodes-push, push-IsFusedListStack}
use vada_db.FusedListStack.Popping.{
  lowered, popped, rest, length-rest, length-popped, slots_lowered, pop-IsFusedListStack,
}

-- The same sources, and the fusion of both.
abbrev pub Agree : FusedListStack → FusedStack → Type 0
Agree f g = IsFusedListStack f × (g ≡ stack_of f.sources)

max_top-longest : (max : ℕ) (ss : Sources) → max_top max (map length ss) ≡ longest max ss
unfolding max_top longest
max_top-longest max [] = refl
max_top-longest max (s ∷ ss) = max_top-longest (if ltb max (length s) then length s else max) ss

value_at-take_zero : (n : ℕ) (xs : List ℕ) (i : ℕ) → value_at i xs ≡ 0 → value_at i (take n xs) ≡ 0
value_at-take_zero zero xs i e = refl
value_at-take_zero (suc n) [] i e = refl
value_at-take_zero (suc n) (x ∷ xs) zero e = e
value_at-take_zero (suc n) (x ∷ xs) (suc i) e = value_at-take_zero n xs i e

-- The loop of `Pop` stops at the highest top, where all above is 0.
length-shrink :
    (top fuel : ℕ) (fusion : List ℕ)
    → length fusion ≤ fuel
    → top ≤ length fusion
    → ((i : ℕ) → top ≤ i → value_at i fusion ≡ 0)
    → length (shrink top fuel fusion) ≡ top
unfolding shrink
length-shrink top zero fusion h k z = omega arith
length-shrink top (suc fuel) fusion h k z = elim (Bool-cases (ltb top (length fusion))) [
  | inr e ↦ ground arith
  | inl e ↦
      let less_fuel : length (take (length fusion - 1) fusion) ≡ length fusion - 1 =
        length-take (length fusion - 1) fusion (omega arith) in
      let again =
        length-shrink top fuel (take (length fusion - 1) fusion) (omega (arith, less_fuel))
          (ground (arith, less_fuel))
          (λ i p. value_at-take_zero (length fusion - 1) fusion i (z i p)) in
      ground (arith, z (length fusion - 1), again)
]

lengths-push :
    (ss : Sources) (s v : ℕ)
    → modify (map length ss) s (λ top. top + 1) ≡ map length (set ss s (get_or ss s [] ++ v ∷ []))
lengths-push [] s v = refl
lengths-push (x ∷ ss) zero v = ap (λ n. n ∷ map length ss) (sym (length-append x (v ∷ [])))
lengths-push (x ∷ ss) (suc s) v = ap (λ l. length x ∷ l) (lengths-push ss s v)

module _ (ss : Sources) (s : ℕ) (hs : s < length ss) where
  tops-grown : (v : ℕ) → modify (map length ss) s (λ top. top + 1) ≡ map length (grown ss s hs v)
  tops-grown v = lengths-push ss s v

  push-stack_of :
      (v : ℕ) → FusedStack.push (stack_of ss) (pos s) v ≡ ok (stack_of (grown ss s hs v))
  unfolding FusedStack.push FusedStack.valid_source
  push-stack_of v =
      rw
        (
          lt→not_leb (length ss) s hs,
          get_or-lengths ss s,
          nodes-push ss s hs v,
          modify-set ss s (λ values. values ++ v ∷ []),
          tops-grown v,
        )
        refl

  module _ (top : ℕ) (height : length (get_or ss s []) ≡ top + 1) where
    abbrev after : Sources
    after = lowered ss s hs top height

    abbrev nodes : List ℕ
    nodes = popped ss s hs top height

    tops-lowered : set (map length ss) s top ≡ map length after
    tops-lowered =
        ap (set (map length ss) s) (sym (length-rest ss s hs top height))
        ∙ sym (map-set length ss s (rest ss s hs top height))

    highest : max_top 0 (map length after) ≡ longest 0 after
    highest = max_top-longest 0 after

    shrunk : shrink (max_top 0 (map length after)) (length nodes) nodes ≡ fused_slices after
    shrunk =
        ap (λ n. shrink n (length nodes) nodes) highest
        ∙ fused_slices_unique after (shrink (longest 0 after) (length nodes) nodes) size (λ i h.
          (shrink-keeps (longest 0 after) (length nodes) nodes bound).2 i h
          ∙ slots_lowered ss s hs top height i)
      where
        bound : longest 0 after ≤ length nodes
        bound =
            longest-set-le ss s hs (rest ss s hs top height) (length nodes)
              (omega (
                arith,
                length-rest ss s hs top height,
                length-popped ss s hs top height,
                le-longest 0 ss s,
              ))
              (λ u _. omega (arith, length-popped ss s hs top height, le-longest 0 ss u))

        size : length (shrink (longest 0 after) (length nodes) nodes) ≡ longest 0 after
        size = length-shrink (longest 0 after) (length nodes) nodes (omega arith) bound (λ i h.
            slots_lowered ss s hs top height i
            ∙ xor_of_all-end after i (λ u. omega (arith, le-longest 0 after u)))

    pop-stack_of :
        FusedStack.pop (stack_of ss) (pos s) ≡ ok (value_at top (get_or ss s []), stack_of after)
    unfolding FusedStack.pop FusedStack.valid_source
    pop-stack_of =
        rw
          (
            lt→not_leb (length ss) s hs,
            get_or-lengths ss s,
            height,
            not_== (top + 1) 0 (λ e. absurd (omega (arith, e))),
            less top,
            tops-lowered,
            shrunk,
          )
          refl

-- For a fused list stack and a fused stack with the same sources and the same fusion, and one of the
-- sources: `Push` of a value succeeds on both, and they again have the same sources and fusion.
pub push-Agree :
    (f : FusedListStack) (g : FusedStack) (s v : ℕ)
    → Agree f g
    → s < length f.sources
    → Returns
        (FusedListStack.push f (pos s) v)
        λ f'. Returns (FusedStack.push g (pos s) v) (Agree f')
push-Agree f g s v a hs =
    let (f', run, kept) = push-IsFusedListStack f a.0 s hs v in
    (
      f',
      run,
      (
        stack_of (grown f.sources s hs v),
        ap (λ t. FusedStack.push t (pos s) v) a.1 ∙ push-stack_of f.sources s hs v,
        (kept.0, ap stack_of (sym kept.1)),
      ),
    )

-- For a fused list stack and a fused stack with the same sources and the same fusion, and one of the
-- sources that is not empty: `Pop` succeeds on both and returns one value, and they again have the
-- same sources and fusion, though one unlinks a single node and the other cuts zeros in a loop.
pub pop-Agree :
    (f : FusedListStack) (g : FusedStack) (s top : ℕ)
    → Agree f g
    → s < length f.sources
    → length (get_or f.sources s []) ≡ top + 1
    → Returns
        (FusedListStack.pop f (pos s))
        λ r. Returns (FusedStack.pop g (pos s)) λ q. (r.0 ≡ q.0) × Agree r.1 q.1
pop-Agree f g s top a hs height =
    let (r, run, kept) = pop-IsFusedListStack f a.0 s hs top height in
    (
      r,
      run,
      (
        (value_at top (get_or f.sources s []), stack_of (after f.sources s hs top height)),
        ap (λ t. FusedStack.pop t (pos s)) a.1 ∙ pop-stack_of f.sources s hs top height,
        (kept.0, (kept.1, ap stack_of (sym kept.2))),
      ),
    )
