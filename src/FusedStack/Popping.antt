-- ===== src/FusedStack/Popping.antt =====
-- `Pop` keeps the fused stack fused: its loop drops only slots above the highest top.
use vada_db.Common.{
  length-take, get_or-take, ℕ, zero, suc, ◌+◌, ◌-◌, ◌<◌, ◌≤◌, ◌≡◌, refl, sym, ◌∙◌, ◌&&◌, List, [],
  ◌∷◌, length, get_or, set, take, modify, length-set, length-modify, get_or-set, ltb, ◌==◌,
  if◌then◌else◌, Bool-cases, ==_iff, not_==, arith, inl, inr,
}
use vada_db.Common.Int.{pos}
use vada_db.Xor.{◌⊕◌, xor-zero, xor_cancel_right}
use vada_db.Result.{Returns}
use vada_db.CoreXor.Slices.{xor_of_all}
use vada_db.CoreXor.Fusion.{value_at}
use vada_db.FusedStack.{FusedStack, max_top, shrink, pop}
use vada_db.FusedStack.Invariant.{
  IsFusedStack, valid_source-lt, value_at-modify, changed_xor, fits-set,
}

value_at-take :
    (values : List ℕ) (top i : ℕ)
    → length values ≡ top + 1
    → value_at i (take top values) ≡ (if i == top then 0 else value_at i values)
value_at-take [] top i e = absurd (omega arith)
value_at-take (x ∷ []) zero zero e = refl
value_at-take (x ∷ []) zero (suc i) e = ground arith
value_at-take (x ∷ y ∷ values) zero i e = absurd (omega arith)
value_at-take (x ∷ values) (suc top) zero e = ground arith
value_at-take (x ∷ values) (suc top) (suc i) e =
    ground (arith, value_at-take values top i (omega arith))

le-max_top_start : (max : ℕ) (tops : List ℕ) → max ≤ max_top max tops
unfolding max_top
le-max_top_start max [] = omega arith
le-max_top_start max (top ∷ tops) =
    ground (arith, le-max_top_start max tops, le-max_top_start top tops)

le-max_top : (max : ℕ) (tops : List ℕ) (s : ℕ) → get_or tops s 0 ≤ max_top max tops
unfolding max_top
le-max_top max [] s = omega arith
le-max_top max (top ∷ tops) zero =
    ground (arith, le-max_top_start max tops, le-max_top_start top tops)
le-max_top max (top ∷ tops) (suc s) = le-max_top (if ltb max top then top else max) tops s

max_top-le :
    (max : ℕ) (tops : List ℕ) (n : ℕ)
    → max ≤ n
    → ((s : ℕ) → get_or tops s 0 ≤ n)
    → max_top max tops ≤ n
unfolding max_top
max_top-le max [] n h k = h
max_top-le max (top ∷ tops) n h k =
    let first : top ≤ n = k 0 in
    ground (
      arith,
      first,
      max_top-le max tops n h (λ s. k (suc s)),
      max_top-le top tops n first (λ s. k (suc s)),
    )

pub less : (top : ℕ) → top + 1 - 1 ≡ top
less top = omega arith

-- What the loop of `Pop` leaves: all slots up to the highest top, unchanged.
pub shrink-keeps :
    (top fuel : ℕ) (fusion : List ℕ)
    → top ≤ length fusion
    → (top ≤ length (shrink top fuel fusion))
      × (length (shrink top fuel fusion) ≤ length fusion)
      × ((i : ℕ)
          → i < length (shrink top fuel fusion)
          → value_at i (shrink top fuel fusion) ≡ value_at i fusion)
unfolding shrink
shrink-keeps top zero fusion h = (h, omega arith, λ i p. refl)
shrink-keeps top (suc fuel) fusion h =
    elim (Bool-cases (
      ltb 0 (length fusion)
      && get_or fusion (length fusion - 1) 0 == 0
      && ltb top (length fusion))) [
        | inl e ↦
            let above : top < length fusion = ground arith in
            let size = length-take (length fusion - 1) fusion (omega arith) in
            let rest =
              shrink-keeps top fuel (take (length fusion - 1) fusion) (omega (arith, size)) in
            rw e (
              rest.0,
              omega (arith, rest.1, size),
              λ i p.
                  rest.2 i p
                  ∙ get_or-take (length fusion - 1) fusion i 0 (omega (arith, rest.1, size)),
            )
        | inr e ↦ rw e (h, omega arith, λ i p. refl)
      ]

module _ {f : FusedStack} (fused : IsFusedStack f) (s : ℕ) (hs : s < length f.sources) where
  abbrev old : List ℕ
  old = get_or f.sources s []

  module _ (top : ℕ) (height : length old ≡ top + 1) where
    abbrev tops' : List ℕ
    tops' = set f.tops s top

    abbrev pub popped : List ℕ
    popped = modify f.fusion top (λ w. w ⊕ value_at top old)

    pub slots-pop :
        (i : ℕ) → value_at i popped ≡ xor_of_all (value_at i) refl (set f.sources s (take top old))
    slots-pop i = elim (Bool-cases (i == top)) [
      | inl e ↦
          rw
            (
              value_at-modify f.fusion top (value_at top old) i (omega (arith, fused.fits s)),
              e,
              changed_xor fused s hs (take top old) i,
              value_at-take old top i height,
              e,
              (==_iff i top).0 e,
            )
            (sym (xor-zero (value_at top f.fusion ⊕ value_at top old)))
      | inr e ↦
          rw
            (
              value_at-modify f.fusion top (value_at top old) i (omega (arith, fused.fits s)),
              e,
              changed_xor fused s hs (take top old) i,
              value_at-take old top i height,
              e,
              xor_cancel_right (value_at i f.fusion) (value_at i old),
            )
            refl
    ]

    tops-pop : (u : ℕ) → get_or tops' u 0 ≡ length (get_or (set f.sources s (take top old)) u [])
    tops-pop u = elim (Bool-cases (u == s)) [
      | inl e ↦
          rw
            (
              get_or-set f.sources s u (take top old) [] hs,
              e,
              get_or-set f.tops s u top 0 (omega (arith, fused.heights)),
              e,
            )
            (sym (length-take top old (omega arith)))
      | inr e ↦
          rw
            (
              get_or-set f.sources s u (take top old) [] hs,
              e,
              get_or-set f.tops s u top 0 (omega (arith, fused.heights)),
              e,
            )
            (fused.tops u)
    ]

    below_top : (u : ℕ) → get_or tops' u 0 ≤ length popped
    below_top u = omega (
      arith,
      tops-pop u,
      length-modify f.fusion top (λ w. w ⊕ value_at top old),
      fits-set fused s hs (take top old) (length f.fusion)
          (omega (arith, length-take top old (omega arith), fused.fits s)) fused.fits u,
    )

    -- On a fused stack: `Pop` of a source that is not empty succeeds and returns its last value, the
    -- source is without that, and the stack is fused.
    pub pop-IsFusedStack : Returns (pop f (pos s)) λ r.
        (r.0 ≡ value_at top (get_or f.sources s []))
        × IsFusedStack r.1
        × (r.1.sources ≡ set f.sources s (take top (get_or f.sources s [])))
    unfolding pop
    pop-IsFusedStack =
        let kept =
          shrink-keeps (max_top 0 tops') (length popped) popped
            (max_top-le 0 tops' (length popped) (omega arith) below_top) in
        (
          (
            value_at top old,
            record {
              sources = set f.sources s (take top old);
              fusion = shrink (max_top 0 tops') (length popped) popped;
              tops = tops';
            },
          ),
          rw
              (
                valid_source-lt f s hs,
                fused.tops s ∙ height,
                not_== (top + 1) 0 (λ e. absurd (omega (arith, e))),
                less top,
              )
              refl,
          (
            refl,
            record {
              heights = length-set f.tops s top ∙ fused.heights ∙ sym (length-set f.sources s _);
              tops = tops-pop;
              fits = λ u. omega (arith, sym (tops-pop u), le-max_top 0 tops' u, kept.0);
              slots = λ i h. kept.2 i h ∙ slots-pop i;
            },
            refl,
          ),
        )
