-- ===== src/FusedQueue/Steps.antt =====
-- The fused queue refines a list of queues, and keeps the fusion of their rows.
use mathlib.Core.Path.{subst}
use native.Mathlib.Nat.{mod-lt, mod-add-mod}
use vada_db.Common.{
  ℕ, suc, ◌+◌, ◌-◌, ◌%◌, ◌<◌, ◌≡◌, ◌⊎◌, refl, ap, sym, ◌∙◌, List, [], ◌∷◌, ◌++◌, length, get_or,
  set, modify, length-set, length-append, length-modify, get_or-set, set-get_or, get_or-past, ◌==◌,
  not_==, if◌then◌else◌, Bool-cases, ==_iff, lt→not_leb, arith, inl, inr,
}
use vada_db.Common.Int.{pos}
use vada_db.Xor.{◌⊕◌, xor-zero, zero-xor, xor_assoc, xor_cancel_right}
use vada_db.Result.{err, Returns, is_full, is_empty}
use vada_db.CoreXor.Slices.{xor_of_all-set}
use vada_db.CoreXor.Fusion.{value_at}
use vada_db.FusedStack.Invariant.{value_at-modify}
use vada_db.FusedQueue.{FusedQueue, enqueue, dequeue, source}
use vada_db.FusedQueue.Slots.{
  Holds, Holds-enqueue, Holds-dequeue, head_value, slot_of, gather-Holds,
}
use vada_db.FusedQueue.Invariant.{FusesQueues, valid_source-lt}

list_cases : (xs : List ℕ) → (xs ≡ []) ⊎ ((x : ℕ) × (rest : List ℕ) × (xs ≡ x ∷ rest))
list_cases [] = inl refl
list_cases (x ∷ rest) = inr (x, rest, refl)

module _ {f : FusedQueue} {queues : List (List ℕ)} (h : FusesQueues f queues) (s : ℕ)
    (hs : s < length f.sources) where
  abbrev queue : List ℕ
  queue = get_or queues s []

  abbrev row : List ℕ
  row = get_or f.sources s []

  abbrev capacity : ℕ
  capacity = length f.fusion

  pub source-FusesQueues : source f (pos s) ≡ queue
  unfolding source
  source-FusesQueues = rw (lt→not_leb (length f.sources) s hs) (
      gather-Holds capacity (get_or f.heads s 0) (get_or f.counts s 0) row queue (h.rows s hs)
        (h.count_at s hs))

  -- A state in which one source has another row and queue.
  module _ (head' tail' count' : ℕ) (row' queue' fusion' : List ℕ) where
    abbrev changed : FusedQueue
    changed = record {
      sources = set f.sources s row';
      fusion = fusion';
      heads = set f.heads s head';
      tails = set f.tails s tail';
      counts = set f.counts s count';
    }

    changed-FusesQueues :
        length fusion' ≡ capacity
        → Holds capacity head' row' queue'
        → tail' ≡ (head' + length queue') % capacity
        → count' ≡ length queue'
        → ((i : ℕ)
            → i < capacity
            → value_at i fusion' ≡ value_at i f.fusion ⊕ value_at i row ⊕ value_at i row')
        → FusesQueues changed (set queues s queue')
    changed-FusesQueues e k t c x = record {
      size = length-set queues s queue' ∙ h.size ∙ sym (length-set f.sources s row');
      heads = length-set f.heads s head' ∙ h.heads ∙ sym (length-set f.sources s row');
      tails = length-set f.tails s tail' ∙ h.tails ∙ sym (length-set f.sources s row');
      counts = length-set f.counts s count' ∙ h.counts ∙ sym (length-set f.sources s row');
      rows = λ u p. elim (Bool-cases (u == s)) [
        | inl d ↦ rw (e, at_heads u, at_sources u, at_queues u, d) k
        | inr d ↦ rw (e, at_heads u, at_sources u, at_queues u, d) (h.rows u (within u p))
      ];
      tail_at = λ u p. elim (Bool-cases (u == s)) [
        | inl d ↦ rw (e, at_heads u, at_tails u, at_queues u, d) t
        | inr d ↦ rw (e, at_heads u, at_tails u, at_queues u, d) (h.tail_at u (within u p))
      ];
      count_at = λ u p. elim (Bool-cases (u == s)) [
        | inl d ↦ rw (at_counts u, at_queues u, d) c
        | inr d ↦ rw (at_counts u, at_queues u, d) (h.count_at u (within u p))
      ];
      slots = λ i p.
          x i (omega (arith, e))
          ∙ ap (λ z. z ⊕ value_at i row ⊕ value_at i row') (h.slots i (omega (arith, e)))
          ∙ sym (xor_of_all-set (value_at i) refl f.sources s row' hs);
    }
      where
        within : (u : ℕ) → u < length (set f.sources s row') → u < length f.sources
        within u p = omega (arith, length-set f.sources s row')

        at_sources :
            (u : ℕ)
            → get_or (set f.sources s row') u [] ≡ (if u == s then row' else get_or f.sources u [])
        at_sources u = get_or-set f.sources s u row' [] hs

        at_queues :
            (u : ℕ)
            → get_or (set queues s queue') u [] ≡ (if u == s then queue' else get_or queues u [])
        at_queues u = get_or-set queues s u queue' [] (omega (arith, h.size))

        at_heads :
            (u : ℕ)
            → get_or (set f.heads s head') u 0 ≡ (if u == s then head' else get_or f.heads u 0)
        at_heads u = get_or-set f.heads s u head' 0 (omega (arith, h.heads))

        at_tails :
            (u : ℕ)
            → get_or (set f.tails s tail') u 0 ≡ (if u == s then tail' else get_or f.tails u 0)
        at_tails u = get_or-set f.tails s u tail' 0 (omega (arith, h.tails))

        at_counts :
            (u : ℕ)
            → get_or (set f.counts s count') u 0 ≡ (if u == s then count' else get_or f.counts u 0)
        at_counts u = get_or-set f.counts s u count' 0 (omega (arith, h.counts))

  -- A slot of the row and of the fusion are written.
  swapped :
      (index v new_value i : ℕ)
      → index < capacity
      → length row ≡ capacity
      → value_at index row ⊕ new_value ≡ v
      → value_at i (modify f.fusion index (λ w. w ⊕ v))
        ≡ value_at i f.fusion ⊕ value_at i row ⊕ value_at i (set row index new_value)
  swapped index v new_value i inside width e =
      rw
        (
          value_at-modify f.fusion index v i inside,
          get_or-set row index i new_value 0 (omega (arith, width)),
        )
        (elim (Bool-cases (i == index)) [
          | inl d ↦ rw (d, (==_iff i index).0 d, sym e) (sym (xor_assoc _ _ _))
          | inr d ↦ rw d (sym (xor_cancel_right (value_at i f.fusion) (value_at i row)))
        ])

  -- The slot behind the last value is free.
  free :
      Holds capacity (get_or f.heads s 0) row queue
      → length queue < capacity
      → value_at ((get_or f.heads s 0 + length queue) % capacity) row ≡ 0
  free k room =
      slot_of capacity (get_or f.heads s 0) row queue k (length queue) room
      ∙ get_or-past queue (length queue) 0 (omega arith)

  -- For queues that are fused and one of them: `Enqueue` refuses a queue that has as many values as the
  -- capacity, and else succeeds, with the value behind the last of this queue; the queues are fused.
  pub enqueue-FusesQueues :
      (v : ℕ)
      → ((length queue ≡ capacity) × (enqueue f (pos s) v ≡ err is_full))
        ⊎ ((length queue < capacity)
            × Returns (enqueue f (pos s) v) λ f'. FusesQueues f' (set queues s (queue ++ v ∷ [])))
  unfolding enqueue
  enqueue-FusesQueues v = elim (Bool-cases (length queue == capacity)) [
    | inl e ↦
        inl (
          (==_iff (length queue) capacity).0 e,
          rw (valid_source-lt f s hs, h.count_at s hs, e) refl,
        )
    | inr e ↦
        let k = h.rows s hs in
        let room : length queue < capacity = ground (arith, k.room) in
        let head : ℕ = get_or f.heads s 0 in
        let index : ℕ = (head + length queue) % capacity in
        let inside : index < capacity = mod-lt (head + length queue) (omega arith) in
        let row' : List ℕ = set row index v in
        inr (
          room,
          (
            changed head ((index + 1) % capacity) (length queue + 1) row' (queue ++ v ∷ [])
                (modify f.fusion index (λ w. w ⊕ v)),
            rw (valid_source-lt f s hs, h.count_at s hs, e, h.tail_at s hs, set-get_or f.heads s 0)
                refl,
            changed-FusesQueues head ((index + 1) % capacity) (length queue + 1) row'
                (queue ++ v ∷ []) (modify f.fusion index (λ w. w ⊕ v))
                (length-modify f.fusion index (λ w. w ⊕ v))
                (Holds-enqueue capacity head row queue k v room)
                (mod-add-mod (head + length queue) capacity 1
                  ∙ ap (λ j. j % capacity) {x = head + length queue + 1}
                      {y = head + length (queue ++ v ∷ [])}
                      (omega (arith, length-append queue (v ∷ []))))
                (omega (arith, length-append queue (v ∷ [])))
                (λ i p.
                  swapped index v v i inside k.width (ap (λ z. z ⊕ v) (free k room) ∙ zero-xor v)),
          ),
        )
  ]

  -- For queues that are fused and one of them: `Dequeue` refuses an empty queue, and else succeeds and
  -- returns the first value of this queue, which loses it; the queues are fused.
  pub dequeue-FusesQueues :
      ((queue ≡ []) × (dequeue f (pos s) ≡ err is_empty))
      ⊎ ((rest : List ℕ) × Returns
            (dequeue f (pos s))
            λ r. (queue ≡ r.0 ∷ rest) × FusesQueues r.1 (set queues s rest))
  unfolding dequeue
  dequeue-FusesQueues = elim (list_cases queue) [
    | inl e ↦ inl (e, rw (valid_source-lt f s hs, h.count_at s hs, e) refl)
    | inr (x, rest, e) ↦
        let head : ℕ = get_or f.heads s 0 in
        let k : Holds capacity head row (x ∷ rest) =
          subst (Holds capacity head row) e (h.rows s hs) in
        let row' : List ℕ = set row head 0 in
        let count : get_or f.counts s 0 ≡ length rest + 1 =
          h.count_at s hs ∙ ap length e ∙ omega arith in
        inr (
          rest,
          (
            (
              value_at head row,
              changed ((head + 1) % capacity) (get_or f.tails s 0) (get_or f.counts s 0 - 1) row'
                  rest (modify f.fusion head (λ w. w ⊕ value_at head row)),
            ),
            rw
                (
                  valid_source-lt f s hs,
                  not_== (get_or f.counts s 0) 0 (λ z. absurd (omega (arith, count, z))),
                  set-get_or f.tails s 0,
                )
                refl,
            (
              e ∙ ap (λ y. y ∷ rest) (sym (head_value capacity head row x rest k)),
              changed-FusesQueues ((head + 1) % capacity) (get_or f.tails s 0)
                  (get_or f.counts s 0 - 1) row' rest
                  (modify f.fusion head (λ w. w ⊕ value_at head row))
                  (length-modify f.fusion head (λ w. w ⊕ value_at head row))
                  (Holds-dequeue capacity head row x rest k)
                  (h.tail_at s hs
                    ∙ ap (λ q. (head + length q) % capacity) e
                    ∙ ap (λ j. j % capacity) {x = head + suc (length rest)}
                        {y = head + 1 + length rest} (omega arith)
                    ∙ sym (mod-add-mod (head + 1) capacity (length rest)))
                  (omega (arith, count))
                  (λ i p. swapped head (value_at head row) 0 i k.head_in k.width (xor-zero _)),
            ),
          ),
        )
  ]
