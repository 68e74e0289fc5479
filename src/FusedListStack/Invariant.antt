-- ===== src/FusedListStack/Invariant.antt =====
-- What the nodes and tails of the fused list stack stand for.

use vada_db.Common.{
  ℕ, zero, suc, ◌+◌, ◌<◌, ◌≤◌, ◌≡◌, refl, ap, sym, ◌∙◌, Option, none, some, List, [], ◌∷◌, map,
  length, get_or, set, replicate, not_ltb, lt→not_leb, arith,
}
use vada_db.Common.Int.{pos}
use vada_db.CoreXor.{longest}
use vada_db.CoreXor.Slices.{Sources}
use vada_db.CoreXor.Fusion.{fused_slices}
use vada_db.Result.{ok, Returns}
use vada_db.FusedListStack.{FusedListStack, new, valid_source, place_after, previous}
use vada_db.FusedListStack.Heights.{fused_slices_unique}

-- The node at the top of a stack.
abbrev pub tail_of : List ℕ → Option ℕ
tail_of values = previous (length values)

-- The nodes are the XOR of the sources by depth, as many as the highest source has elements, and the
-- tails are the tops of the sources.
pub record IsFusedListStack (f : FusedListStack) : Type 0 where
  pub nodes : f.nodes ≡ fused_slices f.sources
  pub tails : f.tails ≡ map tail_of f.sources

pub valid_source-lt :
    (f : FusedListStack) (s : ℕ) → s < length f.sources → valid_source f (pos s) ≡ ok tt
unfolding valid_source
valid_source-lt f s h = rw (lt→not_leb (length f.sources) s h) refl

module _ {A B : Type 0} (f : A → B) where
  pub map-set : (xs : List A) (i : ℕ) (a : A) → map f (set xs i a) ≡ set (map f xs) i (f a)
  map-set [] i a = refl
  map-set (x ∷ xs) zero a = refl
  map-set (x ∷ xs) (suc i) a = ap (λ l. f x ∷ l) (map-set xs i a)

  map-replicate : (n : ℕ) (a : A) → map f (replicate n a) ≡ replicate n (f a)
  map-replicate zero a = refl
  map-replicate (suc n) a = ap (λ l. f a ∷ l) (map-replicate n a)

pub get_or-tails :
    (ss : Sources) (s : ℕ) → get_or (map tail_of ss) s none ≡ tail_of (get_or ss s [])
unfolding previous
get_or-tails [] s = refl
get_or-tails (x ∷ ss) zero = refl
get_or-tails (x ∷ ss) (suc s) = get_or-tails ss s

pub place_after-previous : (n : ℕ) → place_after (previous n) ≡ n
unfolding place_after previous
place_after-previous zero = refl
place_after-previous (suc n) = omega arith

pub previous-suc : (n k : ℕ) → n ≡ k + 1 → previous n ≡ some k
unfolding previous
previous-suc zero k e = absurd (omega arith)
previous-suc (suc n) k e = ap some (omega arith)

pub longest-empty : (n : ℕ) → longest 0 (replicate n []) ≡ 0
unfolding longest
longest-empty zero = refl
longest-empty (suc n) = longest-empty n

pub fused_slices-empty : (n : ℕ) → fused_slices (replicate n []) ≡ []
fused_slices-empty n = sym (
    fused_slices_unique (replicate n []) [] (sym (longest-empty n))
      (λ i h. absurd (omega (arith, h))))

-- For at least two sources: the new stack has as many empty sources, and no node.
pub new-IsFusedListStack :
    (n : ℕ) → 2 ≤ n → Returns (new (pos n)) λ f. IsFusedListStack f × (f.sources ≡ replicate n [])
unfolding new
new-IsFusedListStack n h = (
  record { sources = replicate n []; nodes = []; tails = replicate n none },
  rw (not_ltb n 2 h) refl,
  (
    record {
      nodes = sym (fused_slices-empty n);
      tails = sym (map-replicate tail_of n [] ∙ (unfold previous in refl));
    },
    refl,
  ),
)
