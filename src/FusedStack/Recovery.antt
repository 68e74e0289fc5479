-- ===== src/FusedStack/Recovery.antt =====
-- The fused stack gives a missing stack back from the others.
use vada_db.Common.{
  ℕ, zero, suc, ◌+◌, ◌-◌, ◌<◌, ◌≡◌, refl, ap, sym, ◌∙◌, true, List, [], ◌∷◌, length, get_or,
  get_or_ext, ◌==◌, not_==, lt→not_leb, arith,
}
use vada_db.Common.Int.{pos}
use vada_db.Result.{ok, Returns}
use vada_db.CoreXor.{xor_into}
use vada_db.CoreXor.Slices.{Others, AreOthers, AllOthers, xor_of_others, xor_of_others-single}
use vada_db.CoreXor.Fusion.{value_at, length-xor_into, get_or-xor_into}
use vada_db.FusedStack.{FusedStack, Survivors, copy_into, recover_from, recover}
use vada_db.FusedStack.Invariant.{IsFusedStack, valid_source-lt}

abbrev pub as_survivors : Others → Survivors
as_survivors [] = []
as_survivors ((j, values) ∷ rest) = (pos j, values) ∷ as_survivors rest

pub length-as_survivors : (others : Others) → length (as_survivors others) ≡ length others
length-as_survivors [] = refl
length-as_survivors (x ∷ others) = ap suc (length-as_survivors others)

-- The passes over the other stacks: the length stays, and each slot gets their elements.
recover_from-eq :
    (f : FusedStack) (m : ℕ) (out : List ℕ) (others : Others)
    → AreOthers m f.sources others
    → Returns (recover_from f (pos m) out (as_survivors others)) λ r.
      (length r ≡ length out)
      × ((i : ℕ)
          → i < length out
          → value_at i r ≡ xor_of_others (value_at i) refl (value_at i out) others)
unfolding recover_from
recover_from-eq f m out [] a = (out, refl, (refl, λ i h. refl))
recover_from-eq f m out ((j, values) ∷ rest) a =
    let (r, run, kept) = recover_from-eq f m (xor_into out values) rest a.3 in
    (
      r,
      rw (lt→not_leb (length f.sources) j a.0, not_== j m (λ e. a.1 (sym e))) run,
      (
        kept.0 ∙ length-xor_into out values,
        λ i h.
            kept.1 i (omega (arith, length-xor_into out values))
            ∙ ap (λ t. xor_of_others (value_at i) refl t rest) (get_or-xor_into out values i h),
      ),
    )

length-copy_into : (n : ℕ) (fusion : List ℕ) → length (copy_into n fusion) ≡ n
unfolding copy_into
length-copy_into zero fusion = refl
length-copy_into (suc n) [] = ap suc (length-copy_into n [])
length-copy_into (suc n) (v ∷ fusion) = ap suc (length-copy_into n fusion)

get_or-copy_into :
    (n : ℕ) (fusion : List ℕ) (i : ℕ) → i < n → value_at i (copy_into n fusion) ≡ value_at i fusion
unfolding copy_into
get_or-copy_into zero fusion i h = absurd (omega arith)
get_or-copy_into (suc n) [] zero h = refl
get_or-copy_into (suc n) [] (suc i) h = get_or-copy_into n [] i (omega arith)
get_or-copy_into (suc n) (v ∷ fusion) zero h = refl
get_or-copy_into (suc n) (v ∷ fusion) (suc i) h = get_or-copy_into n fusion i (omega arith)

pub enough : (a b : ℕ) → a + 1 ≡ b → (a == b - 1) ≡ true
enough a b e = ground arith

-- `Recover` of a source of a fused stack from all the other sources, in any order, succeeds and
-- returns that source.
pub recover-IsFusedStack :
    (f : FusedStack) (m : ℕ) (others : Others)
    → IsFusedStack f
    → AllOthers m f.sources others
    → length others + 1 ≡ length f.sources
    → recover f (pos m) (as_survivors others) ≡ ok (get_or f.sources m [])
unfolding recover
recover-IsFusedStack f m others fused all size =
    let missing : List ℕ = get_or f.sources m [] in
    let (r, run, kept) = recover_from-eq f m (copy_into (length missing) f.fusion) others all.are in
    let copied = length-copy_into (length missing) f.fusion in
    let same = get_or_ext 0 r missing (kept.0 ∙ copied) (λ i h.
      let hi : i < length missing = omega (arith, kept.0, copied) in
      kept.1 i (omega (arith, copied))
      ∙ ap (λ t. xor_of_others (value_at i) refl t others)
          (get_or-copy_into (length missing) f.fusion i hi
            ∙ fused.slots i (omega (arith, fused.fits m)))
      ∙ xor_of_others-single (value_at i) refl m f.sources others all) in
    rw
      (
        valid_source-lt f m all.missing,
        length-as_survivors others,
        enough (length others) (length f.sources) size,
        fused.tops m,
        run,
        same,
      )
      refl
