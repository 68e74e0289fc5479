-- ===== src/FusedStack.antt =====
-- structures/stack.go: stacks that are fused by depth.
pub mod Invariant
pub mod Pushing
pub mod Popping
pub mod Recovery
use vada_db.Common.{
  ℕ, zero, suc, ◌+◌, ◌-◌, Bool, true, false, ◌&&◌, ◌||◌, List, [], ◌∷◌, ◌++◌, length, get_or, set,
  replicate, take, modify, ltb, ◌==◌, if◌then◌else◌,
}
use mathlib.Core.Bool.{not}
use vada_db.Common.Int.{ℤ, is_negative, at_least, below, to_ℕ}
use vada_db.Xor.{◌⊕◌}
use vada_db.CoreXor.{xor_into}
use vada_db.Result.{
  Result, ok, ◌>>=◌, ◌>>◌, fail_if, too_few_sources, source_out_of_range, survivor_count,
  invalid_survivor, is_empty,
}

pub record FusedStack : Type 0 where
  pub sources : List (List ℕ)
  pub fusion : List ℕ
  pub tops : List ℕ

unfoldable pub new : ℤ → Result FusedStack
new source_count = do
  fail_if (below source_count 2) too_few_sources
  ok (record {
    sources = replicate (to_ℕ source_count) [];
    fusion = [];
    tops = replicate (to_ℕ source_count) 0;
  })

unfoldable pub valid_source : FusedStack → ℤ → Result (Unit {0})
valid_source f source =
    fail_if (is_negative source || at_least source (length f.sources)) source_out_of_range

-- `if depth == len(f.fusion) { f.fusion = append(f.fusion, 0) }`
unfoldable pub grow : ℕ → List ℕ → List ℕ
grow depth fusion = if depth == length fusion then fusion ++ 0 ∷ [] else fusion

unfoldable pub push : FusedStack → ℤ → ℕ → Result FusedStack
unfolding valid_source grow
push f source value = do
  valid_source f source
  let s = to_ℕ source
  let depth = get_or f.tops s 0
  ok (record f {
    fusion = modify (grow depth f.fusion) depth (λ v. v ⊕ value);
    sources = modify f.sources s (λ values. values ++ value ∷ []);
    tops = modify f.tops s (λ top. top + 1);
  })

unfoldable pub max_top : ℕ → List ℕ → ℕ
max_top max [] = max
max_top max (top ∷ tops) = max_top (if ltb max top then top else max) tops

-- The loop of `Pop` that drops the zeros above the highest top. Each round makes the fusion shorter,
-- so its length is fuel enough.
unfoldable pub shrink : ℕ → ℕ → List ℕ → List ℕ
shrink top zero fusion = fusion
shrink top (suc fuel) fusion =
    let last = length fusion - 1 in
    let rest = shrink top fuel (take last fusion) in
    if ltb 0 (length fusion) && get_or fusion last 0 == 0 && ltb top (length fusion)
    then rest
    else fusion

unfoldable pub pop : FusedStack → ℤ → Result (ℕ × FusedStack)
unfolding valid_source max_top shrink
pop f source = do
  valid_source f source
  let s = to_ℕ source
  fail_if (get_or f.tops s 0 == 0) is_empty
  let top = get_or f.tops s 0 - 1
  let tops = set f.tops s top
  let values = get_or f.sources s []
  let value = get_or values top 0
  let fusion = modify f.fusion top (λ v. v ⊕ value)
  ok (
    value,
    record {
      sources = set f.sources s (take top values);
      fusion = shrink (max_top 0 tops) (length fusion) fusion;
      tops = tops;
    },
  )

-- A Go map from sources to stacks, in the order in which the loop ranges over it.
abbrev pub Survivors : Type 0
Survivors = List (ℤ × List ℕ)

-- `copy(out, f.fusion)`, into `n` zeros
unfoldable pub copy_into : ℕ → List ℕ → List ℕ
copy_into zero fusion = []
copy_into (suc n) [] = 0 ∷ copy_into n []
copy_into (suc n) (v ∷ fusion) = v ∷ copy_into n fusion

unfoldable pub recover_from : FusedStack → ℤ → List ℕ → Survivors → Result (List ℕ)
recover_from f missing out [] = ok out
recover_from f missing out ((i, source) ∷ rest) = do
  fail_if (is_negative i || at_least i (length f.sources) || to_ℕ i == to_ℕ missing)
      invalid_survivor
  recover_from f missing (xor_into out source) rest

unfoldable pub recover : FusedStack → ℤ → Survivors → Result (List ℕ)
unfolding valid_source copy_into recover_from
recover f missing survivors = do
  valid_source f missing
  fail_if (not (length survivors == length f.sources - 1)) survivor_count
  recover_from f missing (copy_into (get_or f.tops (to_ℕ missing) 0) f.fusion) survivors
