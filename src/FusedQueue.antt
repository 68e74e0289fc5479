-- ===== src/FusedQueue.antt =====
-- structures/queue.go: circular queues that are fused slot by slot.
pub mod Slots
pub mod Invariant
pub mod Steps
pub mod Recovery
use vada_db.Common.{
  ℕ, zero, suc, ◌+◌, ◌-◌, ◌%◌, Bool, true, false, ◌||◌, List, [], ◌∷◌, length, get_or, set,
  replicate, modify, leb, ◌==◌, if◌then◌else◌,
}
use mathlib.Core.Bool.{not}
use vada_db.Common.Int.{ℤ, is_negative, at_least, below, to_ℕ}
use vada_db.Xor.{◌⊕◌}
use vada_db.Result.{
  Result, ok, ◌>>=◌, ◌>>◌, fail_if, too_few_sources, no_capacity, source_out_of_range,
  survivor_count, invalid_survivor, survivor_length, is_empty, is_full,
}

pub record FusedQueue : Type 0 where
  pub sources : List (List ℕ)
  pub fusion : List ℕ
  pub heads : List ℕ
  pub tails : List ℕ
  pub counts : List ℕ

unfoldable pub new : ℤ → ℤ → Result FusedQueue
new source_count capacity = do
  fail_if (below source_count 2) too_few_sources
  fail_if (below capacity 1) no_capacity
  ok (record {
    sources = replicate (to_ℕ source_count) (replicate (to_ℕ capacity) 0);
    fusion = replicate (to_ℕ capacity) 0;
    heads = replicate (to_ℕ source_count) 0;
    tails = replicate (to_ℕ source_count) 0;
    counts = replicate (to_ℕ source_count) 0;
  })

unfoldable pub valid_source : FusedQueue → ℤ → Result (Unit {0})
valid_source f source =
    fail_if (is_negative source || at_least source (length f.sources)) source_out_of_range

unfoldable pub enqueue : FusedQueue → ℤ → ℕ → Result FusedQueue
enqueue f source value = do
  valid_source f source
  let s = to_ℕ source
  fail_if (get_or f.counts s 0 == length f.fusion) is_full
  let index = get_or f.tails s 0
  ok (record f {
    sources = set f.sources s (set (get_or f.sources s []) index value);
    fusion = modify f.fusion index (λ v. v ⊕ value);
    tails = set f.tails s ((index + 1) % length f.fusion);
    counts = set f.counts s (get_or f.counts s 0 + 1);
  })

unfoldable pub dequeue : FusedQueue → ℤ → Result (ℕ × FusedQueue)
dequeue f source = do
  valid_source f source
  let s = to_ℕ source
  fail_if (get_or f.counts s 0 == 0) is_empty
  let index = get_or f.heads s 0
  let value = get_or (get_or f.sources s []) index 0
  ok (
    value,
    record f {
      sources = set f.sources s (set (get_or f.sources s []) index 0);
      fusion = modify f.fusion index (λ v. v ⊕ value);
      heads = set f.heads s ((index + 1) % length f.fusion);
      counts = set f.counts s (get_or f.counts s 0 - 1);
    },
  )

-- `physical[(head+i)%n] ^= value`, for all values from index `i` on
unfoldable pub scatter : ℕ → ℕ → ℕ → List ℕ → List ℕ → List ℕ
scatter n head i [] physical = physical
scatter n head i (value ∷ values) physical =
    scatter n head (i + 1) values (modify physical ((head + i) % n) (λ v. v ⊕ value))

-- `out[i] = physical[(head+i)%n]`, for `count` indices from `i` on
unfoldable pub gather : ℕ → ℕ → ℕ → ℕ → List ℕ → List ℕ
gather n head i zero physical = []
gather n head i (suc count) physical =
    get_or physical ((head + i) % n) 0 ∷ gather n head (i + 1) count physical

-- A Go map from sources to queues, in the order in which the loop ranges over it.
abbrev pub Survivors : Type 0
Survivors = List (ℤ × List ℕ)

unfoldable pub take_out : FusedQueue → ℤ → List ℕ → Survivors → Result (List ℕ)
take_out f missing physical [] = ok physical
take_out f missing physical ((source, values) ∷ rest) = do
  fail_if (is_negative source || at_least source (length f.sources) || to_ℕ source == to_ℕ missing)
      invalid_survivor
  fail_if (not (length values == get_or f.counts (to_ℕ source) 0)) survivor_length
  take_out f missing (scatter (length physical) (get_or f.heads (to_ℕ source) 0) 0 values physical)
      rest

unfoldable pub recover : FusedQueue → ℤ → Survivors → Result (List ℕ)
recover f missing survivors = do
  valid_source f missing
  fail_if (not (length survivors == length f.sources - 1)) survivor_count
  physical ← take_out f missing f.fusion survivors
  let m = to_ℕ missing
  ok (gather (length physical) (get_or f.heads m 0) 0 (get_or f.counts m 0) physical)

-- The values of a source from the head on, and none if the source is out of range.
unfoldable pub source : FusedQueue → ℤ → List ℕ
source f i =
    if is_negative i || at_least i (length f.sources)
    then []
    else gather (length f.fusion) (get_or f.heads (to_ℕ i) 0) 0 (get_or f.counts (to_ℕ i) 0)
        (get_or f.sources (to_ℕ i) [])
