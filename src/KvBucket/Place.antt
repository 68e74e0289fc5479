-- ===== src/KvBucket/Place.antt =====
-- The loop of `Insert` with its two pointers, as one structural recursion.
use mathlib.Core.List.{append-nil, append_assoc}
use vada_db.Common.{
  ℕ, zero, suc, ◌+◌, ◌≤◌, ◌<◌, ◌≡◌, refl, ap, sym, ◌∙◌, Option, none, some, [], ◌∷◌, ◌++◌, length,
  leb_refl, ==_refl, lt→not_leb, length-append, modify-append, insert_at-append, Bool-cases, true,
  false, if◌then◌else◌, arith, inl, inr,
}
use vada_db.KvBucket.{
  KvRecord, KvNode, Bucket, has_bit, find_neighbours, candidate_after, is_position, empty_node,
  add_record, add_between, insert_node,
}

-- Past the `i`-th node of `s`: a record goes into the next node if that has no bit of `s`, and else
-- into a new one.
unfoldable pub place : ℕ → Bucket → ℕ → ℕ → KvRecord → Bucket
place w [] s i r = add_record s r (empty_node w) ∷ []
place w (n ∷ ns) s zero r =
    if has_bit n s then add_record s r (empty_node w) ∷ n ∷ ns else add_record s r n ∷ ns
place w (n ∷ ns) s (suc i) r = n ∷ place w ns s (if has_bit n s then i else suc i) r

-- How many nodes have the bit of `s`.
unfoldable pub bit_count : ℕ → Bucket → ℕ
bit_count s [] = 0
bit_count s (n ∷ ns) = if has_bit n s then suc (bit_count s ns) else bit_count s ns

module _ (s : ℕ) where
  find-zero :
      (ns : Bucket) (position k index seen : ℕ) (previous : Option ℕ)
      → k < position
      → seen ≡ index
      → ((find_neighbours ns position s index seen previous).0 ≡ previous)
        × (is_position (find_neighbours ns position s index seen previous).1 k ≡ false)
  unfolding find_neighbours is_position
  find-zero [] position k index seen previous h q = (refl, refl)
  find-zero (n ∷ ns) position k index seen previous h q =
      ground (arith, find-zero ns (position + 1) k index seen previous)

  find-skip :
      (n : KvNode) (ns : Bucket) (position index seen : ℕ) (previous : Option ℕ)
      → has_bit n s ≡ false
      → find_neighbours (n ∷ ns) position s index seen previous
        ≡ find_neighbours ns (position + 1) s index seen previous
  unfolding find_neighbours
  find-skip n ns position index seen previous e = rw (e, find_neighbours)

  find-here :
      (n : KvNode) (ns : Bucket) (position index seen : ℕ) (previous : Option ℕ)
      → has_bit n s ≡ true
      → seen ≡ index
      → find_neighbours (n ∷ ns) position s index seen previous ≡ (previous, some position)
  unfolding find_neighbours
  find-here n ns position index seen previous e q = ground arith

  find-pass :
      (n : KvNode) (ns : Bucket) (position index seen : ℕ) (previous : Option ℕ)
      → has_bit n s ≡ true
      → seen < index
      → find_neighbours (n ∷ ns) position s index seen previous
        ≡ find_neighbours ns (position + 1) s index (seen + 1) (some position)
  unfolding find_neighbours
  find-pass n ns position index seen previous e h = ground arith

  module _ (w : ℕ) (r : KvRecord) where
    add_between_end :
        (pre : Bucket) (previous : Option ℕ)
        → candidate_after previous ≡ length pre
        → add_between w pre s r (previous, none) ≡ pre ++ add_record s r (empty_node w) ∷ []
    unfolding add_between
    add_between_end pre previous e =
        rw (e, leb_refl (length pre)) (modify-append pre (empty_node w) [] (add_record s r))

    add_between_new :
        (pre ns : Bucket) (previous : Option ℕ)
        → candidate_after previous ≡ length pre
        → add_between w (pre ++ ns) s r (previous, some (length pre))
          ≡ pre ++ add_record s r (empty_node w) ∷ ns
    unfolding add_between
    add_between_new pre ns previous e =
        rw (e, ==_refl (length pre), insert_at-append pre ns (empty_node w))
          (modify-append pre (empty_node w) ns (add_record s r))

    add_between_old :
        (pre : Bucket) (n : KvNode) (ns : Bucket) (found : Option ℕ × Option ℕ)
        → candidate_after found.0 ≡ length pre
        → is_position found.1 (length pre) ≡ false
        → add_between w (pre ++ n ∷ ns) s r found ≡ pre ++ add_record s r n ∷ ns
    unfolding add_between
    add_between_old pre n ns found e d =
        rw
          (
            e,
            d,
            lt→not_leb (length (pre ++ n ∷ ns)) (length pre)
                (omega (arith, length-append pre (n ∷ ns))),
          )
          (modify-append pre n ns (add_record s r))

    -- One more node passed over.
    longer : (pre : Bucket) (n : KvNode) → length (pre ++ n ∷ []) ≡ length pre + 1
    longer pre n = omega (arith, length-append pre (n ∷ []))

    -- What holds with one more node passed over, read with the node in its place.
    regroup :
        (pre : Bucket) (n : KvNode) (ns : Bucket) (i index seen : ℕ) (previous : Option ℕ)
        → add_between w
            ((pre ++ n ∷ []) ++ ns)
            s
            r
            (find_neighbours ns (length (pre ++ n ∷ [])) s index seen previous)
          ≡ (pre ++ n ∷ []) ++ place w ns s i r
        → add_between w
            (pre ++ n ∷ ns)
            s
            r
            (find_neighbours ns (length pre + 1) s index seen previous)
          ≡ pre ++ n ∷ place w ns s i r
    regroup pre n ns i index seen previous h =
        rw
          (
            ← append_assoc pre (n ∷ []) ns,
            ← append_assoc pre (n ∷ []) (place w ns s i r),
            ← longer pre n,
          )
          h

    find_neighbours-place :
        (ns pre : Bucket) (i seen index : ℕ) (previous : Option ℕ)
        → seen + i ≡ index
        → i ≤ bit_count s ns
        → (i ≡ 0 → candidate_after previous ≡ length pre)
        → add_between w (pre ++ ns) s r (find_neighbours ns (length pre) s index seen previous)
          ≡ pre ++ place w ns s i r
    unfolding place bit_count candidate_after
    find_neighbours-place [] pre zero seen index previous e c p =
        rw append-nil (unfold find_neighbours in add_between_end pre previous (p refl))
    find_neighbours-place [] pre (suc i) seen index previous e c p = absurd (omega arith)
    find_neighbours-place (n ∷ ns) pre zero seen index previous e c p =
        elim (Bool-cases (has_bit n s)) [
          | inl b ↦
              rw (find-here n ns (length pre) index seen previous b (omega arith), b)
                (add_between_new pre (n ∷ ns) previous (p refl))
          | inr b ↦
              let z =
                find-zero ns (length pre + 1) (length pre) index seen previous (omega arith)
                  (omega arith) in
              rw (find-skip n ns (length pre) index seen previous b, b)
                (add_between_old pre n ns
                  (find_neighbours ns (length pre + 1) s index seen previous)
                  (ap candidate_after z.0 ∙ p refl) z.1)
        ]
    find_neighbours-place (n ∷ ns) pre (suc i) seen index previous e c p =
        elim (Bool-cases (has_bit n s)) [
          | inl b ↦
              rw (find-pass n ns (length pre) index seen previous b (omega arith), b)
                (regroup pre n ns i index (seen + 1) (some (length pre)) (
                  find_neighbours-place ns (pre ++ n ∷ []) i (seen + 1) index (some (length pre))
                    (omega arith) (ground arith) (λ _. sym (longer pre n))))
          | inr b ↦
              rw (find-skip n ns (length pre) index seen previous b, b)
                (regroup pre n ns (suc i) index seen previous (
                  find_neighbours-place ns (pre ++ n ∷ []) (suc i) seen index previous (omega arith)
                    (ground arith) (λ q. absurd (omega arith))))
        ]

-- `Insert` on a bucket is `place`, where the source has at least `i` records.
pub insert_node-place :
    (w : ℕ) (ns : Bucket) (s i : ℕ) (r : KvRecord)
    → i ≤ bit_count s ns
    → insert_node w ns s i r ≡ place w ns s i r
unfolding insert_node candidate_after
insert_node-place w ns s i r h =
    find_neighbours-place s w r ns [] i 0 i none (omega arith) h (λ _. refl)
