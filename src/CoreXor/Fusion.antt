-- ===== src/CoreXor/Fusion.antt =====
-- `XORSlices`: the fusion of slices of any lengths, slot by slot.

use vada_db.Common.{
  ℕ, zero, suc, ◌<◌, ◌≤◌, ◌≡◌, refl, ap, sym, ◌∙◌, List, [], ◌∷◌, length, get_or, replicate,
  length-replicate, get_or-replicate, ltb, Bool-cases, get_or-past, if◌then◌else◌, arith, inl, inr,
}
use vada_db.Xor.{◌⊕◌, xor_assoc, xor-zero, zero-xor}
use vada_db.CoreXor.{longest, xor_into, xor_slice, xor_slices_into, xor_slices}
use vada_db.Result.{ok, Returns}
use vada_db.CoreXor.Slices.{Sources, xor_of_all}

-- The element of a source at an index, and 0 past its end.
abbrev pub value_at : ℕ → List ℕ → ℕ
value_at i values = get_or values i 0

pub length-xor_into : (out values : List ℕ) → length (xor_into out values) ≡ length out
unfolding xor_into
length-xor_into [] values = refl
length-xor_into (v ∷ out) [] = refl
length-xor_into (v ∷ out) (w ∷ values) = ap suc (length-xor_into out values)

pub get_or-xor_into :
    (out values : List ℕ) (i : ℕ)
    → i < length out
    → value_at i (xor_into out values) ≡ value_at i out ⊕ value_at i values
unfolding xor_into
get_or-xor_into [] values i h = absurd (omega arith)
get_or-xor_into (v ∷ out) [] i h = sym (xor-zero (value_at i (v ∷ out)))
get_or-xor_into (v ∷ out) (w ∷ values) zero h = refl
get_or-xor_into (v ∷ out) (w ∷ values) (suc i) h = get_or-xor_into out values i (omega arith)

le-longest_start : (max : ℕ) (ss : Sources) → max ≤ longest max ss
unfolding longest
le-longest_start max [] = omega arith
le-longest_start max (s ∷ ss) =
    ground (arith, le-longest_start max ss, le-longest_start (length s) ss)

pub le-longest : (max : ℕ) (ss : Sources) (k : ℕ) → length (get_or ss k []) ≤ longest max ss
unfolding longest
le-longest max [] k = omega arith
le-longest max (s ∷ ss) zero =
    ground (arith, le-longest_start max ss, le-longest_start (length s) ss)
le-longest max (s ∷ ss) (suc k) = le-longest (if ltb max (length s) then length s else max) ss k

pub longest-le :
    (max : ℕ) (ss : Sources) (n : ℕ)
    → max ≤ n
    → ((k : ℕ) → length (get_or ss k []) ≤ n)
    → longest max ss ≤ n
unfolding longest
longest-le max [] n h k = h
longest-le max (s ∷ ss) n h k =
    let first : length s ≤ n = k 0 in
    ground (
      arith,
      first,
      longest-le max ss n h (λ i. k (suc i)),
      longest-le (length s) ss n first (λ i. k (suc i)),
    )

-- The fusion of the sources: as long as the longest, with the XOR of them all in each slot.
unfoldable xor_all_into : List ℕ → List (List ℕ) → List ℕ
unfolding xor_into
xor_all_into out [] = out
xor_all_into out (source ∷ sources) = xor_all_into (xor_into out source) sources

unfoldable pub fused_slices : List (List ℕ) → List ℕ
unfolding longest xor_all_into
fused_slices sources = xor_all_into (replicate (longest 0 sources) 0) sources

length-xor_all_into : (out : List ℕ) (ss : Sources) → length (xor_all_into out ss) ≡ length out
unfolding xor_all_into
length-xor_all_into out [] = refl
length-xor_all_into out (s ∷ ss) = length-xor_all_into (xor_into out s) ss ∙ length-xor_into out s

get_or-xor_all_into :
    (out : List ℕ) (ss : Sources) (i : ℕ)
    → i < length out
    → value_at i (xor_all_into out ss) ≡ value_at i out ⊕ xor_of_all (value_at i) refl ss
unfolding xor_all_into
get_or-xor_all_into out [] i h = sym (xor-zero (value_at i out))
get_or-xor_all_into out (s ∷ ss) i h =
    get_or-xor_all_into (xor_into out s) ss i (omega (arith, length-xor_into out s))
    ∙ ap (λ t. t ⊕ xor_of_all (value_at i) refl ss) (get_or-xor_into out s i h)
    ∙ xor_assoc (value_at i out) (value_at i s) (xor_of_all (value_at i) refl ss)

pub length-fused_slices : (ss : Sources) → length (fused_slices ss) ≡ longest 0 ss
unfolding fused_slices
length-fused_slices ss =
    length-xor_all_into (replicate (longest 0 ss) 0) ss ∙ length-replicate (longest 0 ss) 0

pub get_or-fused_slices :
    (ss : Sources) (i : ℕ)
    → i < length (fused_slices ss)
    → value_at i (fused_slices ss) ≡ xor_of_all (value_at i) refl ss
unfolding fused_slices
get_or-fused_slices ss i h =
    get_or-xor_all_into (replicate (longest 0 ss) 0) ss i
      (omega (arith, length-xor_all_into (replicate (longest 0 ss) 0) ss))
    ∙ ap (λ t. t ⊕ xor_of_all (value_at i) refl ss) (get_or-replicate (longest 0 ss) i 0)
    ∙ zero-xor (xor_of_all (value_at i) refl ss)

-- A source that is not longer than `out` is XORed into it without a panic.
xor_slice-fits :
    (out values : List ℕ)
    → length values ≤ length out
    → xor_slice out values ≡ ok (xor_into out values)
unfolding xor_slice xor_into
xor_slice-fits [] [] h = refl
xor_slice-fits (v ∷ out) [] h = refl
xor_slice-fits [] (w ∷ values) h = absurd (omega arith)
xor_slice-fits (v ∷ out) (w ∷ values) h = rw (xor_slice-fits out values (omega arith)) refl

xor_slices_into-fits :
    (out : List ℕ) (ss : Sources)
    → ((k : ℕ) → length (get_or ss k []) ≤ length out)
    → xor_slices_into out ss ≡ ok (xor_all_into out ss)
unfolding xor_slices_into xor_all_into
xor_slices_into-fits out [] h = refl
xor_slices_into-fits out (s ∷ ss) h = rw (xor_slice-fits out s (h 0)) (
    xor_slices_into-fits (xor_into out s) ss (λ k. omega (arith, h (suc k), length-xor_into out s)))

pub xor_slices-fused_slices : (ss : Sources) → xor_slices ss ≡ ok (fused_slices ss)
unfolding xor_slices fused_slices
xor_slices-fused_slices ss =
    xor_slices_into-fits (replicate (longest 0 ss) 0) ss
      (λ k. omega (arith, le-longest 0 ss k, length-replicate {A = ℕ} (longest 0 ss) 0))

-- Past the end of every source there is nothing to fuse.
xor_of_all-past :
    (ss : Sources) (i : ℕ)
    → ((k : ℕ) → length (get_or ss k []) ≤ i)
    → xor_of_all (value_at i) refl ss ≡ 0
xor_of_all-past [] i h = refl
xor_of_all-past (s ∷ ss) i h =
    rw (get_or-past s i 0 (h 0), xor_of_all-past ss i (λ k. h (suc k))) (zero-xor 0)

-- `out` is as long as the longest source, and has at every index the XOR of the sources' elements there,
-- where a source counts as 0 past its end.
pub record IsFusion (ss : Sources) (out : List ℕ) : Type 0 where
  pub fits : (k : ℕ) → length (get_or ss k []) ≤ length out
  pub tight : (n : ℕ) → ((k : ℕ) → length (get_or ss k []) ≤ n) → length out ≤ n
  pub slots : (i : ℕ) → value_at i out ≡ xor_of_all (value_at i) refl ss

fused_slices-IsFusion : (ss : Sources) → IsFusion ss (fused_slices ss)
fused_slices-IsFusion ss = record {
  fits = fits_all;
  tight = λ n h. omega (arith, length-fused_slices ss, longest-le 0 ss n (omega arith) h);
  slots = λ i. elim (Bool-cases (ltb i (length (fused_slices ss)))) [
    | inl e ↦ get_or-fused_slices ss i (ground arith)
    | inr e ↦
        let past : length (fused_slices ss) ≤ i = ground arith in
        get_or-past (fused_slices ss) i 0 past
        ∙ sym (xor_of_all-past ss i (λ k. omega (arith, fits_all k, past)))
  ];
}
  where
    fits_all : (k : ℕ) → length (get_or ss k []) ≤ length (fused_slices ss)
    fits_all k = omega (arith, le-longest 0 ss k, length-fused_slices ss)

-- `XORSlices` of any sources does not panic. Its result is no shorter than any source and no longer than
-- they need, and has at every index the XOR of the sources' elements there, where a source counts as 0
-- past its end.
pub xor_slices-IsFusion : (ss : Sources) → Returns (xor_slices ss) λ out. IsFusion ss out
xor_slices-IsFusion ss = (fused_slices ss, xor_slices-fused_slices ss, fused_slices-IsFusion ss)
