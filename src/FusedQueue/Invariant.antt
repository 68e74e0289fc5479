-- ===== src/FusedQueue/Invariant.antt =====
-- What the rows of the fused queue hold, and the fusion of the rows.

use native.Mathlib.Nat.{zero-mod}
use vada_db.Common.{
  ℕ, zero, suc, ◌+◌, ◌%◌, ◌<◌, ◌≤◌, ◌≡◌, refl, sym, ◌∙◌, List, [], length, get_or, replicate,
  length-replicate, get_or-replicate, get_or-replicate_in, not_ltb, lt→not_leb, arith,
}
use vada_db.Common.Int.{pos}
use vada_db.Xor.{zero-xor}
use vada_db.Result.{ok, Returns}
use vada_db.CoreXor.Slices.{xor_of_all}
use vada_db.CoreXor.Fusion.{value_at}
use vada_db.FusedQueue.{FusedQueue, new, valid_source}
use vada_db.FusedQueue.Slots.{Holds, Holds-nil}

-- The rows hold the queues, with the heads, tails and counts that go with them, and the fusion has the
-- XOR of the rows slot by slot.
pub record FusesQueues (f : FusedQueue) (queues : List (List ℕ)) : Type 0 where
  pub size : length queues ≡ length f.sources
  pub heads : length f.heads ≡ length f.sources
  pub tails : length f.tails ≡ length f.sources
  pub counts : length f.counts ≡ length f.sources
  pub rows :
      (s : ℕ)
      → s < length f.sources
      → Holds (length f.fusion) (get_or f.heads s 0) (get_or f.sources s []) (get_or queues s [])
  pub tail_at :
      (s : ℕ)
      → s < length f.sources
      → get_or f.tails s 0 ≡ (get_or f.heads s 0 + length (get_or queues s [])) % length f.fusion
  pub count_at : (s : ℕ) → s < length f.sources → get_or f.counts s 0 ≡ length (get_or queues s [])
  pub slots :
      (i : ℕ) → i < length f.fusion → value_at i f.fusion ≡ xor_of_all (value_at i) refl f.sources

pub valid_source-lt :
    (f : FusedQueue) (s : ℕ) → s < length f.sources → valid_source f (pos s) ≡ ok tt
unfolding valid_source
valid_source-lt f s h = rw (lt→not_leb (length f.sources) s h) refl

pub xor_of_all-zeros : (w n i : ℕ) → xor_of_all (value_at i) refl (replicate w (replicate n 0)) ≡ 0
xor_of_all-zeros zero n i = refl
xor_of_all-zeros (suc w) n i =
    rw (get_or-replicate {A = ℕ} n i 0, xor_of_all-zeros w n i) (zero-xor 0)

-- For at least two sources and a capacity of at least one: the new queues are empty.
pub new-FusesQueues :
    (w n : ℕ) → 2 ≤ w → 1 ≤ n → Returns (new (pos w) (pos n)) λ f. FusesQueues f (replicate w [])
unfolding new
new-FusesQueues w n hw hn = (
  record {
    sources = replicate w (replicate n 0);
    fusion = replicate n 0;
    heads = replicate w 0;
    tails = replicate w 0;
    counts = replicate w 0;
  },
  rw (not_ltb w 2 hw, not_ltb n 1 hn) refl,
  record {
    size = same [];
    heads = same 0;
    tails = same 0;
    counts = same 0;
    rows = λ s h.
        rw
          (
            length-replicate {A = ℕ} n 0,
            get_or-replicate {A = ℕ} w s 0,
            get_or-replicate {A = List ℕ} w s [],
            get_or-replicate_in w s (replicate {A = ℕ} n 0) []
                (omega (arith, h, length-replicate w (replicate {A = ℕ} n 0))),
          )
          (Holds-nil n (omega arith));
    tail_at = λ s h.
        rw
          (
            length-replicate {A = ℕ} n 0,
            get_or-replicate {A = ℕ} w s 0,
            get_or-replicate {A = List ℕ} w s [],
          )
          (sym (zero-mod n));
    count_at =
        λ s h. rw (get_or-replicate {A = ℕ} w s 0, get_or-replicate {A = List ℕ} w s []) refl;
    slots = λ i h. get_or-replicate {A = ℕ} n i 0 ∙ sym (xor_of_all-zeros w n i);
  },
)
  where
    same :
        {A : Type 0} (a : A) → length (replicate w a) ≡ length (replicate w (replicate {A = ℕ} n 0))
    same a = length-replicate w a ∙ sym (length-replicate w (replicate {A = ℕ} n 0))
