-- ===== src/Tests/Structures.antt =====
-- Fused arrays and stacks of three sources.
use vada_db.Common.{
  ℕ, zero, suc, ◌<◌, ◌≤◌, ◌≡◌, ◌≢◌, refl, List, [], ◌∷◌, ◌++◌, set, get_or, length, take, inl, inr,
  arith,
}
use vada_db.Common.Int.{pos}
use vada_db.Result.{ok, Returns, Returns-value}
use vada_db.KvTable.Survivors.{IsIn}
use vada_db.CoreXor
use vada_db.CoreXor.Slices.{Others, AllOthers, xor_of_all}
use vada_db.CoreXor.Fusion.{value_at, IsFusion, xor_slices-IsFusion}
use vada_db.FusedArray
use vada_db.FusedArray.{FusedArray}
use vada_db.FusedArray.Invariant.{
  new-IsFusedArray, IsFusedArray, set_value-IsFusedArray, recover-IsFusedArray,
}
use vada_db.FusedStack
use vada_db.FusedStack.{FusedStack}
use vada_db.FusedStack.Invariant.{IsFusedStack}
use vada_db.FusedStack.Pushing.{push-IsFusedStack}
use vada_db.FusedStack.Popping.{pop-IsFusedStack}
use vada_db.FusedStack.Recovery.{recover-IsFusedStack}

abbrev arrays : List (List ℕ)
arrays = (1 ∷ 2 ∷ 3 ∷ []) ∷ (4 ∷ []) ∷ (250 ∷ 9 ∷ []) ∷ []

abbrev an_array : FusedArray
an_array = record { sources = arrays; fusion = 255 ∷ 11 ∷ 3 ∷ []; length_parity = 0 }

arrays-new : FusedArray.new arrays ≡ ok an_array
unfolding FusedArray.new CoreXor.xor_slices
arrays-new = refl

an_array-IsFusedArray : IsFusedArray an_array
an_array-IsFusedArray = (Returns-value (new-IsFusedArray arrays (omega arith)) arrays-new).0

set_value-IsFusedArray_example :
    Returns
      (FusedArray.set_value an_array (pos 2) (pos 1) 8)
      λ f'. IsFusedArray f' × (f'.sources ≡ set arrays 2 (set (250 ∷ 9 ∷ []) 1 8))
set_value-IsFusedArray_example =
    set_value-IsFusedArray an_array-IsFusedArray 2 1 8 (omega arith) (omega arith)

-- The other sources of 1, in the order 2, 0.
abbrev pub others : List (List ℕ) → Others
others sources = (2, get_or sources 2 []) ∷ (0, get_or sources 0 []) ∷ []

pub others-AllOthers : (x y z : List ℕ) → AllOthers 1 (x ∷ y ∷ z ∷ []) (others (x ∷ y ∷ z ∷ []))
others-AllOthers x y z = record {
  missing = omega arith;
  are = (
    omega arith,
    (λ e. omega (arith, e)),
    refl,
    (omega arith, (λ e. omega (arith, e)), refl, tt),
  );
  distinct = (((λ e. omega (arith, e)), tt), (tt, tt));
  all = every;
}
  where
    every : (k : ℕ) → k < 3 → 1 ≢ k → IsIn k (others (x ∷ y ∷ z ∷ []))
    every zero h ne = inr (inl refl)
    every (suc zero) h ne = absurd (ne refl)
    every (suc (suc zero)) h ne = inl refl
    every (suc (suc (suc k))) h ne = absurd (omega arith)

recover-IsFusedArray_example :
    FusedArray.recover an_array (pos 1) (FusedArray.Invariant.as_survivors (others arrays))
    ≡ ok (4 ∷ [])
recover-IsFusedArray_example =
    recover-IsFusedArray an_array 1 (others arrays) an_array-IsFusedArray
      (others-AllOthers (1 ∷ 2 ∷ 3 ∷ []) (4 ∷ []) (250 ∷ 9 ∷ [])) refl

xor_slices-IsFusion_example : Returns (CoreXor.xor_slices arrays) λ out. IsFusion arrays out
xor_slices-IsFusion_example = xor_slices-IsFusion arrays

abbrev a_stack : FusedStack
a_stack = record {
  sources = (7 ∷ 5 ∷ []) ∷ (2 ∷ []) ∷ [] ∷ [];
  fusion = 5 ∷ 5 ∷ [];
  tops = 2 ∷ 1 ∷ 0 ∷ [];
}

a_stack-tops : (s : ℕ) → get_or a_stack.tops s 0 ≡ length (get_or a_stack.sources s [])
a_stack-tops zero = refl
a_stack-tops (suc zero) = refl
a_stack-tops (suc (suc zero)) = refl
a_stack-tops (suc (suc (suc s))) = refl

a_stack-fits : (s : ℕ) → length (get_or a_stack.sources s []) ≤ 2
a_stack-fits zero = omega arith
a_stack-fits (suc zero) = omega arith
a_stack-fits (suc (suc zero)) = omega arith
a_stack-fits (suc (suc (suc s))) = omega arith

a_stack-slots :
    (i : ℕ) → i < 2 → value_at i a_stack.fusion ≡ xor_of_all (value_at i) refl a_stack.sources
a_stack-slots zero h = refl
a_stack-slots (suc zero) h = refl
a_stack-slots (suc (suc i)) h = absurd (omega arith)

a_stack-IsFusedStack : IsFusedStack a_stack
a_stack-IsFusedStack = record {
  heights = refl;
  tops = a_stack-tops;
  fits = a_stack-fits;
  slots = a_stack-slots;
}

push-IsFusedStack_example :
    Returns
      (FusedStack.push a_stack (pos 1) 9)
      λ f'. IsFusedStack f' × (f'.sources ≡ set a_stack.sources 1 ((2 ∷ []) ++ 9 ∷ []))
push-IsFusedStack_example = push-IsFusedStack a_stack-IsFusedStack 1 (omega arith) 9

pop-IsFusedStack_example :
    Returns (FusedStack.pop a_stack (pos 0)) λ r.
      (r.0 ≡ 5) × IsFusedStack r.1 × (r.1.sources ≡ set a_stack.sources 0 (take 1 (7 ∷ 5 ∷ [])))
pop-IsFusedStack_example = pop-IsFusedStack a_stack-IsFusedStack 0 (omega arith) 1 refl

recover-IsFusedStack_example :
    FusedStack.recover a_stack (pos 1) (FusedStack.Recovery.as_survivors (others a_stack.sources))
    ≡ ok (2 ∷ [])
recover-IsFusedStack_example =
    recover-IsFusedStack a_stack 1 (others a_stack.sources) a_stack-IsFusedStack
      (others-AllOthers (7 ∷ 5 ∷ []) (2 ∷ []) []) refl
