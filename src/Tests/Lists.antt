-- ===== src/Tests/Lists.antt =====
-- Fused lists, sets, priority queues and list stacks of three sources.
use mathlib.Core.Bool.{not}
use vada_db.Common.{
  ℕ, zero, suc, ◌≡◌, refl, Bool, true, false, ◌&&◌, ◌||◌, List, [], ◌∷◌, set, get_or, replicate,
  none, some, arith, ◌==◌, if◌then◌else◌,
}
use vada_db.Common.Int.{pos}
use vada_db.Result.{ok, Returns, Returns-value}
use vada_db.CoreXor.Fusion.{fused_slices}
use vada_db.FusedList
use vada_db.FusedList.{FusedList, ListNode}
use vada_db.FusedList.Recovering
use vada_db.FusedList.Passes.{IsFusedList, recover-IsFusedList, as_survivors}
use vada_db.FusedList.Invariant.{new-IsFusedList, insert-IsFusedList, delete-IsFusedList}
use vada_db.FusedList.Sets
use vada_db.FusedList.Sets.{IsFusedSet, NoRepeats, add-IsFusedSet, remove-IsFusedSet}
use vada_db.FusedList.Priorities
use vada_db.FusedList.Priorities.{
  IsPriorityQueue, IsOrdered, AtLeast, count, push-IsPriorityQueue, pop_min-IsPriorityQueue,
}
use vada_db.FusedStack
use vada_db.FusedStack.Recovery
use vada_db.FusedListStack
use vada_db.FusedListStack.{FusedListStack}
use vada_db.FusedListStack.Heights.{stack_of}
use vada_db.FusedListStack.Invariant.{IsFusedListStack, new-IsFusedListStack}
use vada_db.FusedListStack.Pushing.{push-IsFusedListStack}
use vada_db.FusedListStack.Popping.{pop-IsFusedListStack}
use vada_db.FusedListStack.Recovery.{recover-IsFusedListStack}
use vada_db.FusedListStack.Agreement.{Agree, push-Agree, pop-Agree}
use vada_db.Tests.Structures.{others, others-AllOthers}

abbrev no_list : FusedList
no_list = record { sources = replicate 3 []; nodes = [] }

abbrev node : ℕ → Bool → Bool → Bool → ListNode
node v a b c = record { value = v; bits = a ∷ b ∷ c ∷ [] }

abbrev list1 : FusedList
list1 = record { sources = (5 ∷ []) ∷ [] ∷ [] ∷ []; nodes = node 5 true false false ∷ [] }

abbrev list2 : FusedList
list2 = record { sources = (5 ∷ []) ∷ (6 ∷ []) ∷ [] ∷ []; nodes = node 3 true true false ∷ [] }

abbrev list3 : FusedList
list3 = record {
  sources = (5 ∷ []) ∷ (4 ∷ 6 ∷ []) ∷ [] ∷ [];
  nodes = node 4 false true false ∷ node 3 true true false ∷ [];
}

new-IsFusedList_example :
    Returns (FusedList.new (pos 3)) λ f. IsFusedList f × (f.sources ≡ replicate 3 [])
new-IsFusedList_example = new-IsFusedList 3 (omega arith)

no_list-IsFusedList : IsFusedList no_list
no_list-IsFusedList = (Returns-value (new-IsFusedList 3 (omega arith)) new_runs).0
  where
    new_runs : FusedList.new (pos 3) ≡ ok no_list
    new_runs = unfold FusedList.new in refl

insert_runs : FusedList.insert no_list (pos 0) (pos 0) 5 ≡ ok list1
unfolding FusedList.insert
insert_runs = refl

list1-IsFusedList : IsFusedList list1
list1-IsFusedList =
    (Returns-value
      (insert-IsFusedList no_list no_list-IsFusedList 0 0 (omega arith) 5 (omega arith))
      insert_runs).0

insert_runs_shared : FusedList.insert list1 (pos 1) (pos 0) 6 ≡ ok list2
unfolding FusedList.insert
insert_runs_shared = refl

list2-IsFusedList : IsFusedList list2
list2-IsFusedList =
    (Returns-value (insert-IsFusedList list1 list1-IsFusedList 1 0 (omega arith) 6 (omega arith))
      insert_runs_shared).0

insert_runs_before : FusedList.insert list2 (pos 1) (pos 0) 4 ≡ ok list3
unfolding FusedList.insert
insert_runs_before = refl

list3-IsFusedList : IsFusedList list3
list3-IsFusedList =
    (Returns-value (insert-IsFusedList list2 list2-IsFusedList 1 0 (omega arith) 4 (omega arith))
      insert_runs_before).0

insert-IsFusedList_example :
    Returns
      (FusedList.insert list3 (pos 2) (pos 0) 9)
      λ f'. IsFusedList f' × (f'.sources ≡ set list3.sources 2 (9 ∷ []))
insert-IsFusedList_example =
    insert-IsFusedList list3 list3-IsFusedList 2 0 (omega arith) 9 (omega arith)

delete-IsFusedList_example :
    Returns
      (FusedList.delete list3 (pos 1) (pos 1))
      λ r. (r.0 ≡ 6) × IsFusedList r.1 × (r.1.sources ≡ set list3.sources 1 (4 ∷ []))
delete-IsFusedList_example =
    delete-IsFusedList list3 list3-IsFusedList 1 1 (omega arith) (omega arith)

delete_runs :
    FusedList.delete list3 (pos 1) (pos 1)
    ≡ ok
        (6, record { sources = (5 ∷ []) ∷ (4 ∷ []) ∷ [] ∷ []; nodes = node 1 true true false ∷ [] })
unfolding FusedList.delete
delete_runs = refl

recover-IsFusedList_example :
    FusedList.Recovering.recover list3 (pos 1) (as_survivors (others list3.sources))
    ≡ ok (4 ∷ 6 ∷ [])
recover-IsFusedList_example =
    recover-IsFusedList list3 1 (others list3.sources) list3-IsFusedList
      (others-AllOthers (5 ∷ []) (4 ∷ 6 ∷ []) []) refl

list3-NoRepeats : (s : ℕ) → NoRepeats (get_or list3.sources s [])
unfolding FusedList.Sets.has_value
list3-NoRepeats zero = (refl, tt)
list3-NoRepeats (suc zero) = (refl, (refl, tt))
list3-NoRepeats (suc (suc zero)) = tt
list3-NoRepeats (suc (suc (suc s))) = tt

list3-IsFusedSet : IsFusedSet list3
list3-IsFusedSet = record { fused = list3-IsFusedList; distinct = list3-NoRepeats }

add-IsFusedSet_example : Returns (FusedList.Sets.add list3 (pos 0) 6) λ f'.
    IsFusedSet f'
    × ((u x : ℕ)
        → FusedList.Sets.contains f' (pos u) x
          ≡ (FusedList.Sets.contains list3 (pos u) x || u == 0 && 6 == x))
add-IsFusedSet_example = add-IsFusedSet list3 list3-IsFusedSet 0 (omega arith) 6

remove-IsFusedSet_example : Returns (FusedList.Sets.remove list3 (pos 1) 4) λ r.
    (r.0 ≡ FusedList.Sets.contains list3 (pos 1) 4)
    × IsFusedSet r.1
    × ((u x : ℕ)
        → FusedList.Sets.contains r.1 (pos u) x
          ≡ (FusedList.Sets.contains list3 (pos u) x && not (u == 1 && 4 == x)))
remove-IsFusedSet_example = remove-IsFusedSet list3 list3-IsFusedSet 1 (omega arith) 4

list3-IsOrdered : (s : ℕ) → IsOrdered (get_or list3.sources s [])
list3-IsOrdered zero = (tt, tt)
list3-IsOrdered (suc zero) = ((omega arith, tt), (tt, tt))
list3-IsOrdered (suc (suc zero)) = tt
list3-IsOrdered (suc (suc (suc s))) = tt

list3-IsPriorityQueue : IsPriorityQueue list3
list3-IsPriorityQueue = record { fused = list3-IsFusedList; ordered = list3-IsOrdered }

push-IsPriorityQueue_example : Returns (FusedList.Priorities.push list3 (pos 1) 5) λ f'.
    IsPriorityQueue f'
    × ((vs : List ℕ) × (f'.sources ≡ set list3.sources 1 vs)
        × ((x : ℕ)
            → count x vs ≡ (if 5 == x then suc (count x (4 ∷ 6 ∷ [])) else count x (4 ∷ 6 ∷ []))))
push-IsPriorityQueue_example = push-IsPriorityQueue list3 list3-IsPriorityQueue 1 (omega arith) 5

pop_min-IsPriorityQueue_example : Returns (FusedList.Priorities.pop_min list3 (pos 1)) λ r.
    IsPriorityQueue r.1
    × ((rest : List ℕ) × (4 ∷ 6 ∷ [] ≡ r.0 ∷ rest)
        × AtLeast r.0 rest
        × (r.1.sources ≡ set list3.sources 1 rest))
pop_min-IsPriorityQueue_example =
    pop_min-IsPriorityQueue list3 list3-IsPriorityQueue 1 (omega arith) (omega arith)

abbrev a_stack : FusedListStack
a_stack = record {
  sources = (7 ∷ 5 ∷ []) ∷ (2 ∷ []) ∷ [] ∷ [];
  nodes = 5 ∷ 5 ∷ [];
  tails = some 1 ∷ some 0 ∷ none ∷ [];
}

a_stack-IsFusedListStack : IsFusedListStack a_stack
a_stack-IsFusedListStack = record {
  nodes = unfold fused_slices in refl;
  tails = unfold FusedListStack.previous in refl;
}

new-IsFusedListStack_example :
    Returns (FusedListStack.new (pos 3)) λ f. IsFusedListStack f × (f.sources ≡ replicate 3 [])
new-IsFusedListStack_example = new-IsFusedListStack 3 (omega arith)

push-IsFusedListStack_example :
    Returns
      (FusedListStack.push a_stack (pos 0) 9)
      λ f'. IsFusedListStack f' × (f'.sources ≡ set a_stack.sources 0 (7 ∷ 5 ∷ 9 ∷ []))
push-IsFusedListStack_example =
    push-IsFusedListStack a_stack a_stack-IsFusedListStack 0 (omega arith) 9

pop-IsFusedListStack_example :
    Returns
      (FusedListStack.pop a_stack (pos 0))
      λ r. (r.0 ≡ 5) × IsFusedListStack r.1 × (r.1.sources ≡ set a_stack.sources 0 (7 ∷ []))
pop-IsFusedListStack_example =
    pop-IsFusedListStack a_stack a_stack-IsFusedListStack 0 (omega arith) 1 refl

recover-IsFusedListStack_example :
    FusedListStack.recover a_stack
      (pos 1)
      (FusedStack.Recovery.as_survivors (others a_stack.sources))
    ≡ ok (2 ∷ [])
recover-IsFusedListStack_example =
    recover-IsFusedListStack a_stack 1 (others a_stack.sources) a_stack-IsFusedListStack
      (others-AllOthers (7 ∷ 5 ∷ []) (2 ∷ []) []) refl

push-Agree_example :
    Returns
      (FusedListStack.push a_stack (pos 0) 9)
      λ f'. Returns (FusedStack.push (stack_of a_stack.sources) (pos 0) 9) (Agree f')
push-Agree_example =
    push-Agree a_stack (stack_of a_stack.sources) 0 9 (a_stack-IsFusedListStack, refl) (omega arith)

pop-Agree_example : Returns (FusedListStack.pop a_stack (pos 0)) λ r.
    Returns (FusedStack.pop (stack_of a_stack.sources) (pos 0)) λ q. (r.0 ≡ q.0) × Agree r.1 q.1
pop-Agree_example =
    pop-Agree a_stack (stack_of a_stack.sources) 0 1 (a_stack-IsFusedListStack, refl) (omega arith)
      refl
