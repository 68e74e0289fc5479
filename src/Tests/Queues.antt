-- ===== src/Tests/Queues.antt =====
-- Fused queues of three sources with two slots each.
use vada_db.Common.{ℕ, ◌<◌, ◌≡◌, ◌⊎◌, refl, List, [], ◌∷◌, ◌++◌, set, replicate, arith, inl, inr}
use vada_db.Common.Int.{pos}
use vada_db.Result.{ok, err, Returns, Returns-value, is_full, is_empty}
use vada_db.FusedStack.Recovery.{as_survivors}
use vada_db.FusedQueue
use vada_db.FusedQueue.{FusedQueue}
use vada_db.FusedQueue.Invariant.{FusesQueues, new-FusesQueues}
use vada_db.FusedQueue.Steps.{enqueue-FusesQueues, dequeue-FusesQueues}
use vada_db.FusedQueue.Recovery.{recover-FusesQueues}
use vada_db.Tests.Structures.{others, others-AllOthers}

abbrev empty_queue : FusedQueue
empty_queue = record {
  sources = (0 ∷ 0 ∷ []) ∷ (0 ∷ 0 ∷ []) ∷ (0 ∷ 0 ∷ []) ∷ [];
  fusion = 0 ∷ 0 ∷ [];
  heads = 0 ∷ 0 ∷ 0 ∷ [];
  tails = 0 ∷ 0 ∷ 0 ∷ [];
  counts = 0 ∷ 0 ∷ 0 ∷ [];
}

new_runs : FusedQueue.new (pos 3) (pos 2) ≡ ok empty_queue
unfolding FusedQueue.new
new_runs = refl

empty-FusesQueues : FusesQueues empty_queue (replicate 3 [])
empty-FusesQueues = Returns-value (new-FusesQueues 3 2 (omega arith) (omega arith)) new_runs

new-FusesQueues_example :
    Returns (FusedQueue.new (pos 3) (pos 2)) λ f. FusesQueues f (replicate 3 [])
new-FusesQueues_example = new-FusesQueues 3 2 (omega arith) (omega arith)

enqueue-FusesQueues_example :
    ((◌≡◌ {A = ℕ} 0 2) × (FusedQueue.enqueue empty_queue (pos 1) 6 ≡ err is_full))
    ⊎ ((0 < 2)
        × Returns
            (FusedQueue.enqueue empty_queue (pos 1) 6)
            λ f'. FusesQueues f' (set (replicate 3 []) 1 ([] ++ 6 ∷ [])))
enqueue-FusesQueues_example = enqueue-FusesQueues empty-FusesQueues 1 (omega arith) 6

abbrev one_queue : FusedQueue
one_queue = record empty_queue {
  sources = (0 ∷ 0 ∷ []) ∷ (6 ∷ 0 ∷ []) ∷ (0 ∷ 0 ∷ []) ∷ [];
  fusion = 6 ∷ 0 ∷ [];
  tails = 0 ∷ 1 ∷ 0 ∷ [];
  counts = 0 ∷ 1 ∷ 0 ∷ [];
}

enqueue_runs : FusedQueue.enqueue empty_queue (pos 1) 6 ≡ ok one_queue
unfolding FusedQueue.enqueue FusedQueue.valid_source
enqueue_runs = refl

one-FusesQueues : FusesQueues one_queue ([] ∷ (6 ∷ []) ∷ [] ∷ [])
one-FusesQueues = elim enqueue-FusesQueues_example [
  | inl (e, _) ↦ absurd (omega (arith, e))
  | inr (_, r) ↦ Returns-value r enqueue_runs
]

dequeue-FusesQueues_example :
    ((◌≡◌ {A = List ℕ} (6 ∷ []) []) × (FusedQueue.dequeue one_queue (pos 1) ≡ err is_empty))
    ⊎ ((rest : List ℕ) × Returns (FusedQueue.dequeue one_queue (pos 1)) λ r.
          (◌≡◌ {A = List ℕ} (6 ∷ []) (r.0 ∷ rest))
          × FusesQueues r.1 (set ([] ∷ (6 ∷ []) ∷ [] ∷ []) 1 rest))
dequeue-FusesQueues_example = dequeue-FusesQueues one-FusesQueues 1 (omega arith)

recover-FusesQueues_example :
    FusedQueue.recover one_queue (pos 1) (as_survivors (others ([] ∷ (6 ∷ []) ∷ [] ∷ [])))
    ≡ ok (6 ∷ [])
recover-FusesQueues_example =
    recover-FusesQueues one_queue ([] ∷ (6 ∷ []) ∷ [] ∷ []) 1 (others ([] ∷ (6 ∷ []) ∷ [] ∷ []))
      one-FusesQueues (others-AllOthers [] (6 ∷ []) []) refl
