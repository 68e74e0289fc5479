-- ===== src/FusedStack/Invariant.antt =====
-- The fused stack holds the XOR of its stacks, depth by depth, and their heights.
use vada_db.Common.{
  ℕ, zero, suc, ◌<◌, ◌≤◌, ◌≡◌, refl, ap, sym, ◌∙◌, List, [], ◌∷◌, length, get_or, set, modify,
  replicate, length-replicate, get_or-replicate, get_or-set, get_or-modify_self, get_or-modify_ne,
  ltb, ◌==◌, if◌then◌else◌, Bool-cases, ==_iff, not_ltb, lt→not_leb, arith, inl, inr,
}
use vada_db.Common.Int.{pos}
use vada_db.Xor.{◌⊕◌, xor-zero}
use vada_db.Result.{ok, Returns}
use vada_db.CoreXor.Slices.{Sources, xor_of_all, xor_of_all-set}
use vada_db.CoreXor.Fusion.{value_at}
use vada_db.FusedStack.{FusedStack, new, valid_source}

-- The tops are the heights of the stacks, every stack fits into the fusion, and the fusion has the
-- XOR of their elements at each depth.
pub record IsFusedStack (f : FusedStack) : Type 0 where
  pub heights : length f.tops ≡ length f.sources
  pub tops : (s : ℕ) → get_or f.tops s 0 ≡ length (get_or f.sources s [])
  pub fits : (s : ℕ) → length (get_or f.sources s []) ≤ length f.fusion
  pub slots :
      (i : ℕ) → i < length f.fusion → value_at i f.fusion ≡ xor_of_all (value_at i) refl f.sources

pub valid_source-lt :
    (f : FusedStack) (s : ℕ) → s < length f.sources → valid_source f (pos s) ≡ ok tt
unfolding valid_source
valid_source-lt f s h = rw (lt→not_leb (length f.sources) s h) refl

pub value_at-end : (values : List ℕ) (i : ℕ) → length values ≤ i → value_at i values ≡ 0
value_at-end [] i h = refl
value_at-end (x ∷ values) zero h = absurd (omega arith)
value_at-end (x ∷ values) (suc i) h = value_at-end values i (omega arith)

pub value_at-modify :
    (xs : List ℕ) (i : ℕ) (v j : ℕ)
    → i < length xs
    → value_at j (modify xs i (λ w. w ⊕ v)) ≡ (if j == i then value_at j xs ⊕ v else value_at j xs)
value_at-modify xs i v j h = elim (Bool-cases (j == i)) [
  | inl e ↦ rw (e, (==_iff j i).0 e) (get_or-modify_self xs i (λ w. w ⊕ v) 0 h)
  | inr e ↦ rw e (get_or-modify_ne xs i j (λ w. w ⊕ v) 0 (ground arith))
]

pub xor_of_all-end :
    (ss : Sources) (i : ℕ)
    → ((s : ℕ) → length (get_or ss s []) ≤ i)
    → xor_of_all (value_at i) refl ss ≡ 0
xor_of_all-end [] i h = refl
xor_of_all-end (s ∷ ss) i h =
    rw (value_at-end s i (h 0), xor_of_all-end ss i (λ k. h (suc k))) (xor-zero 0)

module _ {f : FusedStack} (fused : IsFusedStack f) where
  -- Past the end of the fusion there is nothing.
  slots_all : (i : ℕ) → value_at i f.fusion ≡ xor_of_all (value_at i) refl f.sources
  slots_all i = elim (Bool-cases (ltb i (length f.fusion))) [
    | inl e ↦ fused.slots i (ground arith)
    | inr e ↦
        let past : length f.fusion ≤ i = ground arith in
        value_at-end f.fusion i past
        ∙ sym (xor_of_all-end f.sources i (λ s. omega (arith, fused.fits s)))
  ]

  module _ (s : ℕ) (hs : s < length f.sources) where
    abbrev old : List ℕ
    old = get_or f.sources s []

    pub changed_xor :
        (values : List ℕ) (i : ℕ)
        → xor_of_all (value_at i) refl (set f.sources s values)
          ≡ value_at i f.fusion ⊕ value_at i old ⊕ value_at i values
    changed_xor values i =
        xor_of_all-set (value_at i) refl f.sources s values hs
        ∙ ap (λ x. x ⊕ value_at i old ⊕ value_at i values) (sym (slots_all i))

    pub fits-set :
        (values : List ℕ) (n : ℕ)
        → length values ≤ n
        → ((u : ℕ) → length (get_or f.sources u []) ≤ n)
        → (u : ℕ) → length (get_or (set f.sources s values) u []) ≤ n
    fits-set values n h others u = elim (Bool-cases (u == s)) [
      | inl e ↦ rw (get_or-set f.sources s u values [] hs, e) h
      | inr e ↦ rw (get_or-set f.sources s u values [] hs, e) (others u)
    ]

-- `NewFusedStack` of at least two sources succeeds, with empty stacks that are fused.
new-IsFusedStack :
    (w : ℕ) → 2 ≤ w → Returns (new (pos w)) λ f. IsFusedStack f × (f.sources ≡ replicate w [])
unfolding new
new-IsFusedStack w h = (
  record { sources = replicate w []; fusion = []; tops = replicate w 0 },
  rw (not_ltb w 2 h) refl,
  (
    record {
      heights = length-replicate w 0 ∙ sym (length-replicate {A = List ℕ} w []);
      tops = λ s. rw (get_or-replicate {A = List ℕ} w s []) (get_or-replicate w s 0);
      fits = λ s. rw (get_or-replicate {A = List ℕ} w s []) (omega arith);
      slots = λ i h. absurd (omega (arith, h));
    },
    refl,
  ),
)
