-- ===== src/FusedStack/Pushing.antt =====
-- `Push` keeps the fused stack fused.
use vada_db.Common.{
  ℕ, zero, suc, ◌+◌, ◌<◌, ◌≤◌, ◌≡◌, refl, ap, sym, ◌∙◌, List, [], ◌∷◌, ◌++◌, length, get_or, set,
  modify, length-set, length-append, length-modify, get_or-set, get_or-modify_self,
  get_or-modify_ne, ◌==◌, if◌then◌else◌, Bool-cases, ==_iff, arith, inl, inr,
}
use vada_db.Common.Int.{pos}
use vada_db.Xor.{◌⊕◌, xor-zero, xor_cancel_right}
use vada_db.Result.{Returns}
use vada_db.CoreXor.Slices.{Sources, xor_of_all}
use vada_db.CoreXor.Fusion.{value_at}
use vada_db.FusedStack.{FusedStack, grow, push}
use vada_db.FusedStack.Invariant.{
  IsFusedStack, valid_source-lt, value_at-end, value_at-modify, changed_xor, fits-set,
}

pub modify-set :
    (xs : Sources) (i : ℕ) (g : List ℕ → List ℕ) → modify xs i g ≡ set xs i (g (get_or xs i []))
modify-set [] i g = refl
modify-set (x ∷ xs) zero g = refl
modify-set (x ∷ xs) (suc i) g = ap (λ l. x ∷ l) (modify-set xs i g)

pub value_at-snoc :
    (values : List ℕ) (v i : ℕ)
    → value_at i (values ++ v ∷ []) ≡ (if i == length values then v else value_at i values)
value_at-snoc [] v zero = refl
value_at-snoc [] v (suc i) = ground arith
value_at-snoc (x ∷ values) v zero = ground arith
value_at-snoc (x ∷ values) v (suc i) = ground (arith, value_at-snoc values v i)

length-grow :
    (depth : ℕ) (fusion : List ℕ)
    → depth ≤ length fusion
    → (depth < length (grow depth fusion)) × (length fusion ≤ length (grow depth fusion))
unfolding grow
length-grow depth fusion h = ground (arith, length-append fusion (0 ∷ []))

value_at-grow :
    (depth : ℕ) (fusion : List ℕ) (i : ℕ) → value_at i (grow depth fusion) ≡ value_at i fusion
unfolding grow
value_at-grow depth fusion i = ground (arith, value_at-snoc fusion 0 i, value_at-end fusion i)

module _ {f : FusedStack} (fused : IsFusedStack f) (s : ℕ) (hs : s < length f.sources) where
  abbrev old : List ℕ
  old = get_or f.sources s []

  pub slots-push :
      (v i : ℕ)
      → value_at i (modify (grow (length old) f.fusion) (length old) (λ w. w ⊕ v))
        ≡ xor_of_all (value_at i) refl (set f.sources s (old ++ v ∷ []))
  slots-push v i =
      let deep = length-grow (length old) f.fusion (fused.fits s) in
      elim (Bool-cases (i == length old)) [
        | inl e ↦
            rw
              (
                value_at-modify (grow (length old) f.fusion) (length old) v i deep.0,
                e,
                value_at-grow (length old) f.fusion i,
                changed_xor fused s hs (old ++ v ∷ []) i,
                value_at-snoc old v i,
                e,
                value_at-end old i (ground arith),
                xor-zero (value_at i f.fusion),
              )
              refl
        | inr e ↦
            rw
              (
                value_at-modify (grow (length old) f.fusion) (length old) v i deep.0,
                e,
                value_at-grow (length old) f.fusion i,
                changed_xor fused s hs (old ++ v ∷ []) i,
                value_at-snoc old v i,
                e,
                xor_cancel_right (value_at i f.fusion) (value_at i old),
              )
              refl
      ]

  tops-push :
      (v u : ℕ)
      → get_or (modify f.tops s (λ top. top + 1)) u 0
        ≡ length (get_or (set f.sources s (old ++ v ∷ [])) u [])
  tops-push v u = elim (Bool-cases (u == s)) [
    | inl e ↦
        rw
          (
            get_or-set f.sources s u (old ++ v ∷ []) [] hs,
            e,
            (==_iff u s).0 e,
            get_or-modify_self f.tops s (λ top. top + 1) 0 (omega (arith, fused.heights)),
            fused.tops s,
          )
          (omega (arith, length-append old (v ∷ [])))
    | inr e ↦
        rw
          (
            get_or-set f.sources s u (old ++ v ∷ []) [] hs,
            e,
            get_or-modify_ne f.tops s u (λ top. top + 1) 0 (ground arith),
          )
          (fused.tops u)
  ]

  -- On a fused stack: `Push` to a source of it succeeds, the source has the value on top, and the
  -- stack is fused.
  pub push-IsFusedStack :
      (v : ℕ)
      → Returns
          (push f (pos s) v)
          λ f'. IsFusedStack f' × (f'.sources ≡ set f.sources s (get_or f.sources s [] ++ v ∷ []))
  unfolding push
  push-IsFusedStack v = (
    record {
      fusion = modify (grow (length old) f.fusion) (length old) (λ w. w ⊕ v);
      sources = set f.sources s (old ++ v ∷ []);
      tops = modify f.tops s (λ top. top + 1);
    },
    rw (valid_source-lt f s hs, fused.tops s, modify-set f.sources s (λ values. values ++ v ∷ []))
        refl,
    (
      record {
        heights =
            length-modify f.tops s (λ top. top + 1)
            ∙ fused.heights
            ∙ sym (length-set f.sources s _);
        tops = λ u. tops-push v u;
        fits = λ u.
            let deep = length-grow (length old) f.fusion (fused.fits s) in
            let size = length-modify (grow (length old) f.fusion) (length old) (λ w. w ⊕ v) in
            fits-set fused s hs (old ++ v ∷ [])
              (length (modify (grow (length old) f.fusion) (length old) (λ w. w ⊕ v)))
              (omega (arith, deep.0, size, length-append old (v ∷ [])))
              (λ k. omega (arith, fused.fits k, deep.1, size)) u;
        slots = λ i h. slots-push v i;
      },
      refl,
    ),
  )
