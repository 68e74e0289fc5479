-- ===== src/CoreXor.antt =====
-- core/xor.go: the XOR operator of the fusion paper, on words of any width.
pub mod Slices
pub mod Fusion
use vada_db.Common.{ℕ, zero, suc, List, [], ◌∷◌, length, get_or, replicate, ltb, if◌then◌else◌}
use vada_db.Xor.{◌⊕◌}
use vada_db.Result.{Result, ok, err, panic, ◌>>=◌}

-- `out ^= value`, for all values
unfoldable pub xor_from : ℕ → List ℕ → ℕ
xor_from out [] = out
xor_from out (value ∷ values) = xor_from (out ⊕ value) values

unfoldable pub xor : List ℕ → ℕ
unfolding xor_from
xor values = xor_from 0 values

unfoldable pub replace : ℕ → ℕ → ℕ → ℕ
replace fusion old_value new_value = fusion ⊕ old_value ⊕ new_value

unfoldable pub recover : ℕ → List ℕ → ℕ
unfolding xor
recover fusion survivors = fusion ⊕ xor survivors

-- `if len(source) > max { max = len(source) }`, for all sources
unfoldable pub longest : ℕ → List (List ℕ) → ℕ
longest max [] = max
longest max (source ∷ sources) =
    longest (if ltb max (length source) then length source else max) sources

-- `for i, value := range source { out[i] ^= value }`: an index past the end of `out` panics.
unfoldable pub xor_slice : List ℕ → List ℕ → Result (List ℕ)
xor_slice out [] = ok out
xor_slice [] (value ∷ source) = panic
xor_slice (v ∷ out) (value ∷ source) = xor_slice out source >>= λ rest. ok ((v ⊕ value) ∷ rest)

unfoldable pub xor_slices_into : List ℕ → List (List ℕ) → Result (List ℕ)
unfolding xor_slice
xor_slices_into out [] = ok out
xor_slices_into out (source ∷ sources) =
    xor_slice out source >>= λ out'. xor_slices_into out' sources

unfoldable pub xor_slices : List (List ℕ) → Result (List ℕ)
unfolding longest xor_slices_into
xor_slices sources = xor_slices_into (replicate (longest 0 sources) 0) sources

-- The loops of the array and the stacks, which stop where `source` or `out` ends:
-- `for i := 0; i < len(source) && i < len(out); i++ { out[i] ^= source[i] }`
unfoldable pub xor_into : List ℕ → List ℕ → List ℕ
xor_into [] source = []
xor_into (v ∷ out) [] = v ∷ out
xor_into (v ∷ out) (value ∷ source) = (v ⊕ value) ∷ xor_into out source
