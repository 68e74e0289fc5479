-- ===== src/FusedListStack/Heights.antt =====
-- The fusion by depth is a function of the sources: `XORSlices` of them, as long as the highest.
use vada_db.Common.{
  ℕ, zero, suc, ◌+◌, ◌<◌, ◌≤◌, ◌≡◌, refl, ap, sym, ◌∙◌, List, [], ◌∷◌, map, length, get_or, set,
  length-map, get_or-set, get_or_ext, leb, ◌==◌, if◌then◌else◌, Bool-cases, ==_iff, false, true,
  arith, inl, inr,
}
use vada_db.CoreXor.{longest}
use vada_db.CoreXor.Slices.{Sources, xor_of_all}
use vada_db.CoreXor.Fusion.{
  longest-le, fused_slices, value_at, le-longest, length-fused_slices, get_or-fused_slices,
}
use vada_db.FusedStack.{FusedStack}
use vada_db.FusedStack.Invariant.{IsFusedStack}

pub fits : (ss : Sources) (s : ℕ) → length (get_or ss s []) ≤ length (fused_slices ss)
fits ss s = omega (arith, length-fused_slices ss, le-longest 0 ss s)

-- A list as long as the highest source, with the XOR at each depth, is the fusion.
pub fused_slices_unique :
    (ss : Sources) (nodes : List ℕ)
    → length nodes ≡ longest 0 ss
    → ((i : ℕ) → i < length nodes → value_at i nodes ≡ xor_of_all (value_at i) refl ss)
    → nodes ≡ fused_slices ss
fused_slices_unique ss nodes e h =
    get_or_ext 0 nodes (fused_slices ss) (e ∙ sym (length-fused_slices ss))
      (λ i p. h i p ∙ sym (get_or-fused_slices ss i (omega (arith, e, length-fused_slices ss))))

-- The fused stack of these sources.
abbrev pub stack_of : Sources → FusedStack
stack_of ss = record { sources = ss; fusion = fused_slices ss; tops = map length ss }

pub get_or-lengths : (ss : Sources) (s : ℕ) → get_or (map length ss) s 0 ≡ length (get_or ss s [])
get_or-lengths [] s = refl
get_or-lengths (x ∷ ss) zero = refl
get_or-lengths (x ∷ ss) (suc s) = get_or-lengths ss s

pub stack_of-IsFusedStack : (ss : Sources) → IsFusedStack (stack_of ss)
stack_of-IsFusedStack ss = record {
  heights = length-map length ss;
  tops = get_or-lengths ss;
  fits = fits ss;
  slots = λ i h. get_or-fused_slices ss i h;
}

module _ (ss : Sources) (s : ℕ) (hs : s < length ss) where
  abbrev pub old : List ℕ
  old = get_or ss s []

  height-set :
      (values : List ℕ) (u : ℕ)
      → length (get_or (set ss s values) u [])
        ≡ (if u == s then length values else length (get_or ss u []))
  height-set values u = elim (Bool-cases (u == s)) [
    | inl e ↦ rw (get_or-set ss s u values [] hs, e) refl
    | inr e ↦ rw (get_or-set ss s u values [] hs, e) refl
  ]

  le-longest-set : (values : List ℕ) → length values ≤ longest 0 (set ss s values)
  le-longest-set values = ground (arith, height-set values s, le-longest 0 (set ss s values) s)

  pub longest-set-le :
      (values : List ℕ) (n : ℕ)
      → length values ≤ n
      → ((u : ℕ) → (u == s) ≡ false → length (get_or ss u []) ≤ n)
      → longest 0 (set ss s values) ≤ n
  longest-set-le values n h k = longest-le 0 (set ss s values) n (omega arith) each
    where
      each : (u : ℕ) → length (get_or (set ss s values) u []) ≤ n
      each u = ground (arith, height-set values u, k u)

  longest-le-set :
      (values : List ℕ) (n : ℕ)
      → length old ≤ n
      → longest 0 (set ss s values) ≤ n
      → longest 0 ss ≤ n
  longest-le-set values n h k = longest-le 0 ss n (omega arith) each
    where
      old_height : (u : ℕ) → (u == s) ≡ true → length (get_or ss u []) ≡ length old
      old_height u e = ap (λ j. length (get_or ss j [])) ((==_iff u s).0 e)

      each : (u : ℕ) → length (get_or ss u []) ≤ n
      each u = ground (arith, height-set values u, le-longest 0 (set ss s values) u, old_height u)

  -- A source grows by one element.
  pub longest-longer :
      (values : List ℕ)
      → length values ≡ length old + 1
      → longest 0 (set ss s values)
        ≡ (if length old == longest 0 ss then longest 0 ss + 1 else longest 0 ss)
  longest-longer values h =
      let grown =
        longest-le-set values (longest 0 (set ss s values)) (omega (arith, le-longest-set values))
          (omega arith) in
      let bound =
        longest-set-le values
          (if length old == longest 0 ss then longest 0 ss + 1 else longest 0 ss)
          (ground (arith, le-longest 0 ss s)) (λ u e. ground (arith, le-longest 0 ss u)) in
      ground (arith, grown, bound, le-longest-set values)

  -- The highest source loses its last element, and no other is as high.
  pub longest-lower :
      (values : List ℕ)
      → length values + 1 ≡ longest 0 ss
      → ((u : ℕ) → (u == s) ≡ false → length (get_or ss u []) ≤ length values)
      → longest 0 (set ss s values) ≡ length values
  longest-lower values h k =
      omega (arith, longest-set-le values (length values) (omega arith) k, le-longest-set values)

  -- A source is made lower, and another is as high as any.
  pub longest-kept :
      (values : List ℕ)
      → length values ≤ length old
      → (u : ℕ) → (u == s) ≡ false
      → length (get_or ss u []) ≡ longest 0 ss
      → longest 0 (set ss s values) ≡ longest 0 ss
  longest-kept values h u e k = ground (
    arith,
    longest-set-le values (longest 0 ss) (omega (arith, le-longest 0 ss s))
        (λ j _. le-longest 0 ss j),
    height-set values u,
    le-longest 0 (set ss s values) u,
  )

  -- A source that is not the highest is made lower.
  pub longest-below :
      (values : List ℕ)
      → length values ≤ length old
      → length old < longest 0 ss
      → longest 0 (set ss s values) ≡ longest 0 ss
  longest-below values h k =
      let down =
        longest-set-le values (longest 0 ss) (omega (arith, le-longest 0 ss s))
          (λ j _. le-longest 0 ss j) in
      let up = longest-le-set values in
      elim (Bool-cases (leb (length old) (longest 0 (set ss s values)))) [
        | inl e ↦ omega (arith, down, up (longest 0 (set ss s values)) (ground arith) (omega arith))
        | inr e ↦ absurd (omega (arith, k, up (length old) (omega arith) (ground arith)))
      ]
