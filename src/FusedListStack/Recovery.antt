-- ===== src/FusedListStack/Recovery.antt =====
-- The fused list stack gives a missing source back from the others.
use vada_db.Common.{
  ℕ, zero, suc, ◌+◌, ◌<◌, ◌≤◌, ◌≡◌, refl, ap, sym, ◌∙◌, List, [], ◌∷◌, length, get_or, take,
  length-take, get_or-take, get_or_ext, not_==, lt→not_leb, arith,
}
use vada_db.Common.Int.{pos}
use vada_db.Result.{ok, Returns}
use vada_db.CoreXor.{xor_into}
use vada_db.CoreXor.Slices.{Others, AreOthers, AllOthers, xor_of_others, xor_of_others-single}
use vada_db.CoreXor.Fusion.{
  fused_slices, value_at, length-xor_into, get_or-xor_into, get_or-fused_slices,
}
use vada_db.FusedStack.Recovery.{as_survivors, length-as_survivors, enough}
use vada_db.FusedListStack.{FusedListStack, copy_nodes, recover_from, recover}
use vada_db.FusedListStack.Heights.{fits}
use vada_db.FusedListStack.Invariant.{IsFusedListStack, valid_source-lt}

recover_from-eq :
    (f : FusedListStack) (m : ℕ) (out : List ℕ) (others : Others)
    → AreOthers m f.sources others
    → Returns (recover_from f (pos m) out (as_survivors others)) λ r.
      (length r ≡ length out)
      × ((i : ℕ)
          → i < length out
          → value_at i r ≡ xor_of_others (value_at i) refl (value_at i out) others)
unfolding recover_from
recover_from-eq f m out [] a = (out, refl, (refl, λ i h. refl))
recover_from-eq f m out ((j, values) ∷ rest) a =
    let (r, run, kept) = recover_from-eq f m (xor_into out values) rest a.3 in
    (
      r,
      rw (lt→not_leb (length f.sources) j a.0, not_== j m (λ e. a.1 (sym e))) run,
      (
        kept.0 ∙ length-xor_into out values,
        λ i h.
            kept.1 i (omega (arith, length-xor_into out values))
            ∙ ap (λ t. xor_of_others (value_at i) refl t rest) (get_or-xor_into out values i h),
      ),
    )

-- There is a node for every element.
copy_nodes-take :
    (n : ℕ) (nodes : List ℕ) → n ≤ length nodes → copy_nodes n nodes ≡ ok (take n nodes)
unfolding copy_nodes
copy_nodes-take zero nodes h = refl
copy_nodes-take (suc n) [] h = absurd (omega arith)
copy_nodes-take (suc n) (v ∷ nodes) h = rw (copy_nodes-take n nodes (omega arith)) refl

-- For a fused list stack, a source of it, and a list, in any order, of all the other sources: `Recover`
-- succeeds, so no node is missing, and returns that source.
pub recover-IsFusedListStack :
    (f : FusedListStack) (m : ℕ) (others : Others)
    → IsFusedListStack f
    → AllOthers m f.sources others
    → length others + 1 ≡ length f.sources
    → recover f (pos m) (as_survivors others) ≡ ok (get_or f.sources m [])
unfolding recover
recover-IsFusedListStack f m others fused all size =
    let missing : List ℕ = get_or f.sources m [] in
    let n : ℕ = length missing in
    let out : List ℕ = take n (fused_slices f.sources) in
    let (r, run, kept) = recover_from-eq f m out others all.are in
    let copied = length-take n (fused_slices f.sources) (fits f.sources m) in
    let same = get_or_ext 0 r missing (kept.0 ∙ copied) (λ i h.
      kept.1 i (omega (arith, kept.0))
      ∙ ap (λ t. xor_of_others (value_at i) refl t others)
          (get_or-take n (fused_slices f.sources) i 0 (omega (arith, kept.0, copied))
            ∙ get_or-fused_slices f.sources i (omega (arith, kept.0, copied, fits f.sources m)))
      ∙ xor_of_others-single (value_at i) refl m f.sources others all) in
    rw
      (
        valid_source-lt f m all.missing,
        length-as_survivors others,
        enough (length others) (length f.sources) size,
        fused.nodes,
        copy_nodes-take n (fused_slices f.sources) (fits f.sources m),
        run,
        same,
      )
      refl
