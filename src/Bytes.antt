-- ===== src/Bytes.antt =====
-- encoding/binary's big-endian words, as the storage files use them. A byte slice is a list of
-- numbers below 256.
use vada_db.Common.{
  ℕ, zero, suc, ◌+◌, ◌*◌, ◌/◌, ◌%◌, ◌^◌, ◌<◌, ◌≡◌, List, [], ◌∷◌, take, drop, arith,
}

-- `binary.BigEndian.PutUint64` and `PutUint32`, for words of `n` bytes
unfoldable pub be_bytes : ℕ → ℕ → List ℕ
be_bytes zero v = []
be_bytes (suc n) v = v / 256 ^ n % 256 ∷ be_bytes n v

-- `binary.BigEndian.Uint64` and `Uint32`
unfoldable pub be_value : ℕ → List ℕ → ℕ
be_value acc [] = acc
be_value acc (b ∷ bs) = be_value (acc * 256 + b) bs

-- `data[lo:hi]`, with the length in place of `hi`
abbrev pub slice : ℕ → ℕ → List ℕ → List ℕ
slice lo n bytes = take n (drop lo bytes)

pub be_value-be_bytes_8 : (v : ℕ) → v < 2 ^ 64 → be_value 0 (be_bytes 8 v) ≡ v
unfolding be_value be_bytes
be_value-be_bytes_8 v h = omega arith

pub be_value-be_bytes_4 : (v : ℕ) → v < 2 ^ 32 → be_value 0 (be_bytes 4 v) ≡ v
unfolding be_value be_bytes
be_value-be_bytes_4 v h = omega arith
