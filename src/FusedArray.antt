-- ===== src/FusedArray.antt =====
-- structures/array.go: arrays that are fused slot by slot.
pub mod Invariant
use vada_db.Common.{
  ℕ, ◌+◌, ◌-◌, Bool, ◌||◌, List, [], ◌∷◌, length, get_or, set, take, ltb, ◌==◌, if◌then◌else◌,
}
use mathlib.Core.Bool.{not}
use vada_db.Common.Int.{ℤ, is_negative, at_least, to_ℕ}
use vada_db.Xor.{◌⊕◌}
use vada_db.Result.{
  Result, ok, ◌>>=◌, ◌>>◌, fail_if, too_few_sources, source_out_of_range, index_out_of_range,
  survivor_count, invalid_survivor, length_exceeds_fusion,
}
use vada_db.CoreXor
use vada_db.CoreXor.{xor_slices, xor_into}

pub record FusedArray : Type 0 where
  pub sources : List (List ℕ)
  pub fusion : List ℕ
  pub length_parity : ℕ

-- `lengthParity ^= uint(len(source))`, for all sources
unfoldable pub parity : ℕ → List (List ℕ) → ℕ
parity p [] = p
parity p (source ∷ sources) = parity (p ⊕ length source) sources

unfoldable pub new : List (List ℕ) → Result FusedArray
unfolding parity
new sources = do
  fail_if (ltb (length sources) 2) too_few_sources
  fusion ← xor_slices sources
  ok (record { sources = sources; fusion = fusion; length_parity = parity 0 sources })

unfoldable pub set_value : FusedArray → ℤ → ℤ → ℕ → Result FusedArray
set_value f source index value = do
  fail_if (is_negative source || at_least source (length f.sources)) source_out_of_range
  let values = get_or f.sources (to_ℕ source) []
  fail_if (is_negative index || at_least index (length values)) index_out_of_range
  let i = to_ℕ index
  ok (record f {
    sources = set f.sources (to_ℕ source) (set values i value);
    fusion = set f.fusion i (CoreXor.replace (get_or f.fusion i 0) (get_or values i 0) value);
  })

-- A Go map from sources to arrays, in the order in which the loops range over it. Go may take
-- another order for each loop; here one order, whatever it is, serves both.
abbrev pub Survivors : Type 0
Survivors = List (ℤ × List ℕ)

unfoldable pub recovered_length : FusedArray → ℤ → ℕ → Survivors → Result ℕ
recovered_length f missing n [] = ok n
recovered_length f missing n ((i, source) ∷ rest) = do
  fail_if (is_negative i || at_least i (length f.sources) || to_ℕ i == to_ℕ missing)
      invalid_survivor
  recovered_length f missing (n ⊕ length source) rest

unfoldable pub xor_survivors : List ℕ → Survivors → List ℕ
xor_survivors out [] = out
xor_survivors out ((i, source) ∷ rest) = xor_survivors (xor_into out source) rest

unfoldable pub recover : FusedArray → ℤ → Survivors → Result (List ℕ)
unfolding recovered_length xor_survivors
recover f missing survivors = do
  fail_if (is_negative missing || at_least missing (length f.sources)) source_out_of_range
  fail_if (not (length survivors == length f.sources - 1)) survivor_count
  n ← recovered_length f missing f.length_parity survivors
  fail_if (ltb (length f.fusion) n) length_exceeds_fusion
  ok (xor_survivors (take n f.fusion) survivors)
