-- ===== src/FusedListStack/Pushing.antt =====
-- `Push` of the fused list stack: a new node only where the source is higher than any before.

use vada_db.Common.{
  ℕ, ◌+◌, ◌<◌, ◌≡◌, refl, ap, sym, ◌∙◌, some, [], ◌∷◌, ◌++◌, map, length, get_or, set, modify,
  length-append, length-modify, arith,
}
use vada_db.Common.Int.{pos}
use vada_db.Xor.{◌⊕◌}
use vada_db.CoreXor.{longest}
use vada_db.CoreXor.Slices.{Sources}
use vada_db.CoreXor.Fusion.{fused_slices, length-fused_slices}
use vada_db.Result.{Returns}
use vada_db.FusedStack
use vada_db.FusedStack.Pushing.{slots-push}
use vada_db.FusedListStack.{FusedListStack, with_node, node_for, push}
use vada_db.FusedListStack.Heights.{
  fits, fused_slices_unique, stack_of, stack_of-IsFusedStack, longest-longer,
}
use vada_db.FusedListStack.Invariant.{
  tail_of, IsFusedListStack, valid_source-lt, get_or-tails, place_after-previous, previous-suc,
  map-set,
}

module _ (ss : Sources) (s : ℕ) (hs : s < length ss) (v : ℕ) where
  abbrev pub grown : Sources
  grown = set ss s (get_or ss s [] ++ v ∷ [])

  pub length-old : length (get_or ss s [] ++ v ∷ []) ≡ length (get_or ss s []) + 1
  length-old = length-append (get_or ss s []) (v ∷ [])

  with_node-grow :
      with_node (fused_slices ss) (length (get_or ss s []))
      ≡ FusedStack.grow (length (get_or ss s [])) (fused_slices ss)
  unfolding with_node FusedStack.grow
  with_node-grow = ground (arith, fits ss s)

  node_for-old : node_for (fused_slices ss) (length (get_or ss s [])) ≡ length (get_or ss s [])
  unfolding node_for
  node_for-old = ground (arith, fits ss s)

  length-grown :
      length (FusedStack.grow (length (get_or ss s [])) (fused_slices ss)) ≡ longest 0 grown
  unfolding FusedStack.grow
  length-grown = ground (
    arith,
    longest-longer ss s hs (get_or ss s [] ++ v ∷ []) length-old,
    length-fused_slices ss,
    length-append (fused_slices ss) (0 ∷ []),
  )

  pub nodes-push :
      modify
        (FusedStack.grow (length (get_or ss s [])) (fused_slices ss))
        (length (get_or ss s []))
        (λ w. w ⊕ v)
      ≡ fused_slices grown
  nodes-push =
      fused_slices_unique grown _
        (length-modify (FusedStack.grow (length (get_or ss s [])) (fused_slices ss))
            (length (get_or ss s [])) (λ w. w ⊕ v)
          ∙ length-grown)
        (λ i h. slots-push {f = stack_of ss} (stack_of-IsFusedStack ss) s hs v i)

  tails-push : set (map tail_of ss) s (some (length (get_or ss s []))) ≡ map tail_of grown
  tails-push =
      ap (set (map tail_of ss) s) (sym (previous-suc _ _ length-old))
      ∙ sym (map-set tail_of ss s (get_or ss s [] ++ v ∷ []))

-- For a fused list stack and one of its sources: `Push` succeeds, the source has the value on top, and
-- the nodes and tails are again those of the sources, so that there is a new node only where the
-- source is now higher than any.
pub push-IsFusedListStack :
    (f : FusedListStack)
    → IsFusedListStack f
    → (s : ℕ) → s < length f.sources
    → (v : ℕ)
    → Returns
        (push f (pos s) v)
        λ f'. IsFusedListStack f' × (f'.sources ≡ set f.sources s (get_or f.sources s [] ++ v ∷ []))
unfolding push
push-IsFusedListStack f fused s hs v =
    let ss : Sources = f.sources in
    let d : ℕ = length (get_or ss s []) in
    (
      record {
        nodes = fused_slices (grown ss s hs v);
        tails = map tail_of (grown ss s hs v);
        sources = grown ss s hs v;
      },
      rw
          (
            valid_source-lt f s hs,
            fused.nodes,
            fused.tails,
            get_or-tails ss s,
            place_after-previous d,
            node_for-old ss s hs v,
            with_node-grow ss s hs v,
            nodes-push ss s hs v,
            tails-push ss s hs v,
          )
          refl,
      (record { nodes = refl; tails = refl }, refl),
    )
