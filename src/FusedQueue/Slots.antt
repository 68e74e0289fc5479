-- ===== src/FusedQueue/Slots.antt =====
-- A row of circular slots and the queue that it holds.
use native.Mathlib.Nat.{add-mod_right, mod-eq_of_lt, mod-lt}
use vada_db.Common.{
  ℕ, zero, suc, ◌+◌, ◌-◌, ◌%◌, ◌<◌, ◌≤◌, ◌≡◌, refl, ap, sym, ◌∙◌, List, [], ◌∷◌, ◌++◌, length,
  get_or, set, modify, length-set, replicate, length-replicate, get_or-replicate, drop,
  length-append, length-modify, get_or-set, get_or-past, ltb, leb, ◌==◌, if◌then◌else◌, Bool-cases,
  not_ltb, lt→ltb, arith, inl, inr,
}
use vada_db.Xor.{◌⊕◌, xor-zero}
use vada_db.CoreXor.Fusion.{value_at}
use vada_db.FusedStack.Invariant.{value_at-modify}
use vada_db.FusedStack.Pushing.{value_at-snoc}
use vada_db.FusedQueue.{scatter, gather}

-- How far an index is from the head, going round.
abbrev pub offset : ℕ → ℕ → ℕ → ℕ
offset n head i = if leb head i then i - head else i + n - head

abbrev wrap : ℕ → ℕ → ℕ
wrap n k = if ltb k n then k else k - n

mod-wrap : (n k : ℕ) → 0 < n → k < n + n → k % n ≡ wrap n k
mod-wrap n k h p = elim (Bool-cases (ltb k n)) [
  | inl e ↦ rw e (mod-eq_of_lt (ground arith))
  | inr e ↦ rw e (
      ap (λ j. j % n) {x = k} {y = k - n + n} (ground arith)
      ∙ add-mod_right (k - n) n
      ∙ mod-eq_of_lt (ground arith))
]

-- The row holds the queue: from the head on its values, and zeros in all other slots.
pub record Holds (n head : ℕ) (row queue : List ℕ) : Type 0 where
  pub slots : (i : ℕ) → i < n → value_at i row ≡ get_or queue (offset n head i) 0
  pub width : length row ≡ n
  pub head_in : head < n
  pub room : length queue ≤ n

module _ (n head : ℕ) (row queue : List ℕ) (h : Holds n head row queue) where
  -- The slot of the queue's element at an index.
  pub slot_of : (k : ℕ) → k < n → value_at ((head + k) % n) row ≡ get_or queue k 0
  slot_of k p =
      rw (mod-wrap n (head + k) (omega (arith, h.head_in)) (omega (arith, h.head_in)))
        (ground (arith, h.slots (wrap n (head + k)), h.head_in))

  -- A value goes into the slot behind the last.
  pub Holds-enqueue :
      (v : ℕ)
      → length queue < n
      → Holds n head (set row ((head + length queue) % n) v) (queue ++ v ∷ [])
  Holds-enqueue v p = record {
    slots = λ i q.
        let t : (head + length queue) % n ≡ wrap n (head + length queue) =
          mod-wrap n (head + length queue) (omega arith) (omega (arith, h.head_in)) in
        rw
          (
            t,
            get_or-set row (wrap n (head + length queue)) i v 0
                (ground (arith, h.width, h.head_in)),
            value_at-snoc queue v (offset n head i),
          )
          (ground (arith, h.slots i q, h.head_in));
    width = length-set row ((head + length queue) % n) v ∙ h.width;
    head_in = h.head_in;
    room = omega (arith, length-append queue (v ∷ []));
  }

module _ (n head : ℕ) (row : List ℕ) (x : ℕ) (queue : List ℕ)
    (h : Holds n head row (x ∷ queue)) where
  pub head_value : value_at head row ≡ x
  head_value =
      h.slots head h.head_in
      ∙ ap (λ k. get_or (x ∷ queue) k 0) {x = offset n head head} {y = 0} (ground arith)

  -- The value at the head goes out.
  pub Holds-dequeue : Holds n ((head + 1) % n) (set row head 0) queue
  Holds-dequeue = record {
    slots = λ i q.
        rw
          (
            mod-wrap n (head + 1) (omega arith) (omega (arith, h.head_in)),
            get_or-set row head i 0 0 (omega (arith, h.width, h.head_in)),
          )
          (elim (Bool-cases (i == head)) [
            | inl e ↦ rw e (
                sym (
                  get_or-past queue (offset n (wrap n (head + 1)) i) 0
                    (ground (arith, h.room, h.head_in))))
            | inr e ↦ rw e (
                h.slots i q
                ∙ ap (λ k. get_or (x ∷ queue) k 0) {x = offset n head i}
                    {y = suc (offset n (wrap n (head + 1)) i)} (ground (arith, h.head_in)))
          ]);
    width = length-set row head 0 ∙ h.width;
    head_in = mod-lt (head + 1) (omega (arith, h.head_in));
    room = omega (arith, h.room);
  }

pub Holds-nil : (n : ℕ) → 0 < n → Holds n 0 (replicate n 0) []
Holds-nil n p = record {
  slots = λ i q. get_or-replicate n i 0;
  width = length-replicate n 0;
  head_in = p;
  room = omega arith;
}

drop-past : (i : ℕ) (xs : List ℕ) → length xs ≤ i → drop i xs ≡ []
drop-past zero [] h = refl
drop-past zero (x ∷ xs) h = absurd (omega arith)
drop-past (suc i) [] h = refl
drop-past (suc i) (x ∷ xs) h = drop-past i xs (omega arith)

drop-get_or : (i : ℕ) (xs : List ℕ) → i < length xs → drop i xs ≡ get_or xs i 0 ∷ drop (suc i) xs
drop-get_or i [] h = absurd (omega arith)
drop-get_or zero (x ∷ xs) h = refl
drop-get_or (suc i) (x ∷ xs) h = drop-get_or i xs (omega arith)

gather-queue :
    (n head : ℕ) (row queue : List ℕ)
    → Holds n head row queue
    → (k i : ℕ) → i + k ≡ length queue
    → gather n head i k row ≡ drop i queue
unfolding gather
gather-queue n head row queue h zero i e = sym (drop-past i queue (omega arith))
gather-queue n head row queue h (suc k) i e =
    ap (λ v. v ∷ gather n head (i + 1) k row) (slot_of n head row queue h i (omega (arith, h.room)))
    ∙ ap (λ l. get_or queue i 0 ∷ l)
        (gather-queue n head row queue h k (i + 1) (omega arith)
          ∙ ap (λ j. drop j queue) {x = i + 1} {y = suc i} (omega arith))
    ∙ sym (drop-get_or i queue (omega arith))

-- The values of a queue are read from its row.
pub gather-Holds :
    (n head count : ℕ) (row queue : List ℕ)
    → Holds n head row queue
    → count ≡ length queue
    → gather n head 0 count row ≡ queue
gather-Holds n head count row queue h e = gather-queue n head row queue h count 0 (omega arith)

-- What a pass adds to a slot: the value for it, if the pass has got there.
abbrev part : ℕ → List ℕ → ℕ → ℕ
part i vs k = if ltb k i then 0 else get_or vs (k - i) 0

pub length-scatter :
    (n head i : ℕ) (vs physical : List ℕ) → length (scatter n head i vs physical) ≡ length physical
unfolding scatter
length-scatter n head i [] physical = refl
length-scatter n head i (v ∷ vs) physical =
    length-scatter n head (i + 1) vs (modify physical ((head + i) % n) (λ w. w ⊕ v))
    ∙ length-modify physical ((head + i) % n) (λ w. w ⊕ v)

part-nil : (i k : ℕ) → part i [] k ≡ 0
part-nil i k = ground arith

part_step :
    (v : ℕ) (vs : List ℕ) (i k : ℕ) → part i (v ∷ vs) k ≡ (if k == i then v else part (i + 1) vs k)
part_step v vs i k = elim (Bool-cases (k == i)) [
  | inl e ↦
      rw (e, not_ltb k i (ground arith))
        (ap (λ d. get_or (v ∷ vs) d 0) {x = k - i} {y = 0} (ground arith))
  | inr e ↦ rw e (elim (Bool-cases (ltb k i)) [
    | inl d ↦ rw (d, lt→ltb k (i + 1) (ground arith)) refl
    | inr d ↦
        rw (d, not_ltb k (i + 1) (ground arith))
          (ap (λ d. get_or (v ∷ vs) d 0) {x = k - i} {y = suc (k - (i + 1))} (ground arith))
  ])
]

scatter-part :
    (n head i : ℕ) (vs physical : List ℕ) (j : ℕ)
    → length physical ≡ n
    → head < n
    → i + length vs ≤ n
    → j < n
    → value_at j (scatter n head i vs physical) ≡ value_at j physical ⊕ part i vs (offset n head j)
unfolding scatter
scatter-part n head i [] physical j e h r q =
    sym (ap (λ z. value_at j physical ⊕ z) (part-nil i (offset n head j)) ∙ xor-zero _)
scatter-part n head i (v ∷ vs) physical j e h r q =
    scatter-part n head (i + 1) vs (modify physical ((head + i) % n) (λ w. w ⊕ v)) j
      (length-modify physical ((head + i) % n) (λ w. w ⊕ v) ∙ e) h (omega arith) q
    ∙ here
  where
    t : (head + i) % n ≡ wrap n (head + i)
    t = mod-wrap n (head + i) (omega (arith, h)) (omega (arith, h, r))

    met : (j == wrap n (head + i)) ≡ (offset n head j == i)
    met = ground (arith, h, r, q)

    here :
        value_at j (modify physical ((head + i) % n) (λ w. w ⊕ v))
          ⊕ part (i + 1) vs (offset n head j)
        ≡ value_at j physical ⊕ part i (v ∷ vs) (offset n head j)
    here =
        rw
          (
            t,
            value_at-modify physical (wrap n (head + i)) v j (ground (arith, h, r, e)),
            met,
            part_step v vs i (offset n head j),
          )
          (elim (Bool-cases (offset n head j == i)) [
            | inl d ↦ rw d (
                ap (λ z. value_at j physical ⊕ v ⊕ z) {x = part (i + 1) vs (offset n head j)}
                  {y = 0} (rw (lt→ltb (offset n head j) (i + 1) (ground arith)) refl)
                ∙ xor-zero _)
            | inr d ↦ rw d refl
          ])

-- A pass over the slots adds to each what the queue's row has there.
pub scatter-Holds :
    (n head : ℕ) (row queue physical : List ℕ) (j : ℕ)
    → Holds n head row queue
    → length physical ≡ n
    → j < n
    → value_at j (scatter n head 0 queue physical) ≡ value_at j physical ⊕ value_at j row
scatter-Holds n head row queue physical j h e q =
    scatter-part n head 0 queue physical j e h.head_in (omega (arith, h.room)) q
    ∙ ap (λ z. value_at j physical ⊕ z)
        (rw (not_ltb (offset n head j) 0 (omega arith)) (
            ap (λ k. get_or queue k 0) {x = offset n head j - 0} {y = offset n head j}
              (omega arith))
          ∙ sym (h.slots j q))
