-- ===== src/FusedList/Nodes.antt =====
-- A list node is a node of a hash table's bucket whose key is 0, and the two files' loops agree on
-- them. So the theorems on buckets hold of lists.
use mathlib.Core.Bool.{not}
use mathlib.Core.Path.{subst}
use vada_db.Common.{
  ℕ, zero, suc, ◌+◌, ◌≡◌, ◌≢◌, ◌⊎◌, refl, ap, sym, ◌∙◌, Bool, true, false, ◌&&◌, ◌||◌, Option, none,
  some, List, [], ◌∷◌, ◌++◌, map, length, get_or, insert_at, modify, drop, leb, ◌==◌, Bool-cases,
  length-map, arith, inl, inr,
}
use vada_db.KvBucket
use vada_db.KvBucket.{
  KvRecord, KvNode, candidate_after, is_position, unwind, any_bit, disjoint, join_bits,
}
use vada_db.FusedList.{
  ListNode, has_bit, find_neighbours, skip_own, empty_node, insert_before, position_of_new,
  add_value, add_between, insert_node,
}

abbrev pub as_record : ℕ → KvRecord
as_record v = record { key = 0; value = v }

abbrev pub as_kv : ListNode → KvNode
as_kv n = record { key = 0; value = n.value; bits = n.bits }

abbrev pub as_bucket : List ListNode → List KvNode
as_bucket = map as_kv

pub has_bit-as_kv : (n : ListNode) (s : ℕ) → KvBucket.has_bit (as_kv n) s ≡ has_bit n s
unfolding has_bit KvBucket.has_bit
has_bit-as_kv n s = refl

-- One round of the loop of `Insert`.
module _ (n : ListNode) (ns : List ListNode) (p s i seen : ℕ) (prev : Option ℕ) where
  find-skip :
      has_bit n s ≡ false
      → find_neighbours (n ∷ ns) p s i seen prev ≡ find_neighbours ns (p + 1) s i seen prev
  unfolding find_neighbours
  find-skip e = rw (e, find_neighbours) refl

  find-pass :
      has_bit n s ≡ true
      → (seen == i) ≡ false
      → find_neighbours (n ∷ ns) p s i seen prev
        ≡ find_neighbours ns (p + 1) s i (seen + 1) (some p)
  unfolding find_neighbours
  find-pass e d = rw (e, d, find_neighbours) refl

  find-here :
      has_bit n s ≡ true
      → (seen == i) ≡ true
      → find_neighbours (n ∷ ns) p s i seen prev ≡ (prev, some p)
  unfolding find_neighbours
  find-here e d = rw (e, d, find_neighbours) refl

pub find_neighbours-as_bucket :
    (ns : List ListNode) (p s i seen : ℕ) (prev : Option ℕ)
    → KvBucket.find_neighbours (as_bucket ns) p s i seen prev ≡ find_neighbours ns p s i seen prev
unfolding find_neighbours KvBucket.find_neighbours KvBucket.has_bit has_bit
find_neighbours-as_bucket [] p s i seen prev = refl
find_neighbours-as_bucket (n ∷ ns) p s i seen prev = elim (Bool-cases (get_or n.bits s false)) [
  | inr e ↦
      rw (e, find_neighbours, KvBucket.find_neighbours)
        (find_neighbours-as_bucket ns (p + 1) s i seen prev)
  | inl e ↦ elim (Bool-cases (seen == i)) [
    | inl d ↦ rw (e, d, find_neighbours, KvBucket.find_neighbours) refl
    | inr d ↦
        rw (e, d, find_neighbours, KvBucket.find_neighbours)
          (find_neighbours-as_bucket ns (p + 1) s i (seen + 1) (some p))
  ]
]

-- Whether a walk along the list starts at a node of the source itself.
abbrev starts_own : List ListNode → ℕ → Bool
starts_own [] s = false
starts_own (n ∷ ns) s = has_bit n s

skip_own_stay :
    (ns : List ListNode) (c s : ℕ) (next : Option ℕ)
    → not (is_position next c) && starts_own ns s ≡ false
    → skip_own ns c s next ≡ c
unfolding skip_own
skip_own_stay [] c s next e = refl
skip_own_stay (n ∷ ns) c s next e = rw e refl

-- Between the node found before the place and the position reached no node is of the source.
abbrev Passed : List ListNode → ℕ → ℕ → Option ℕ → Type 0
Passed all p s prev =
    (candidate_after prev ≡ p) ⊎ (starts_own (drop (candidate_after prev) all) s ≡ false)

drop-suc :
    (all : List ListNode) (p : ℕ) (n : ListNode) (ns : List ListNode)
    → drop p all ≡ n ∷ ns
    → drop (suc p) all ≡ ns
drop-suc [] zero n ns e = absurd (cons_nil (sym e))
  where
    cons_nil : n ∷ ns ≢ []
    cons_nil h = cc
drop-suc [] (suc p) n ns e = cc
drop-suc (x ∷ all) zero n ns e = cc
drop-suc (x ∷ all) (suc p) n ns e = drop-suc all p n ns e

drop_next :
    (all : List ListNode) (p : ℕ) (n : ListNode) (ns : List ListNode)
    → drop p all ≡ n ∷ ns
    → drop (p + 1) all ≡ ns
drop_next all p n ns e =
    ap (λ k. drop k all) {x = p + 1} {y = suc p} (omega arith) ∙ drop-suc all p n ns e

-- The result of the loop is a place where `skip_own` stays.
abbrev Stays : List ListNode → ℕ → Option ℕ × Option ℕ → Type 0
Stays all s r =
    skip_own (drop (candidate_after r.0) all) (candidate_after r.0) s r.1 ≡ candidate_after r.0

module _ (all : List ListNode) (s : ℕ) where
  stays_free :
      (p : ℕ) (prev next : Option ℕ)
      → Passed all p s prev
      → starts_own (drop p all) s ≡ false
      → starts_own (drop (candidate_after prev) all) s ≡ false
  stays_free p prev next (inl e) h = ap (λ k. starts_own (drop k all) s) e ∙ h
  stays_free p prev next (inr e) h = e

  Stays-here : (p : ℕ) (prev : Option ℕ) → Passed all p s prev → Stays all s (prev, some p)
  unfolding is_position
  Stays-here p prev (inl e) = skip_own_stay _ _ s (some p) (ground arith)
  Stays-here p prev (inr e) = skip_own_stay _ _ s (some p) (ground arith)

  find_neighbours-Stays :
      (ns : List ListNode) (p i seen : ℕ) (prev : Option ℕ)
      → drop p all ≡ ns
      → Passed all p s prev
      → Stays all s (find_neighbours ns p s i seen prev)
  unfolding find_neighbours is_position
  find_neighbours-Stays [] p i seen prev d q =
      skip_own_stay _ _ s none (stays_free p prev none q (ap (λ l. starts_own l s) d))
  find_neighbours-Stays (n ∷ ns) p i seen prev d q = elim (Bool-cases (has_bit n s)) [
    | inr e ↦ subst (Stays all s) (sym (find-skip n ns p s i seen prev e)) (
        find_neighbours-Stays ns (p + 1) i seen prev (drop_next all p n ns d)
          (inr (stays_free p prev none q (ap (λ l. starts_own l s) d ∙ e))))
    | inl e ↦ elim (Bool-cases (seen == i)) [
      | inl h ↦ subst (Stays all s) (sym (find-here n ns p s i seen prev e h)) (Stays-here p prev q)
      | inr h ↦ subst (Stays all s) (sym (find-pass n ns p s i seen prev e h)) (
          find_neighbours-Stays ns (p + 1) i (seen + 1) (some p) (drop_next all p n ns d)
            (inl (unfold candidate_after in refl)))
    ]
  ]

pub insert-Stays : (ns : List ListNode) (s i : ℕ) → Stays ns s (find_neighbours ns 0 s i 0 none)
insert-Stays ns s i =
    find_neighbours-Stays ns s ns 0 i 0 none refl (inl (unfold candidate_after in refl))

module _ {A B : Type 0} (f : A → B) where
  pub map-insert_at :
      (xs : List A) (i : ℕ) (a : A) → map f (insert_at xs i a) ≡ insert_at (map f xs) i (f a)
  map-insert_at xs zero a = refl
  map-insert_at [] (suc i) a = refl
  map-insert_at (x ∷ xs) (suc i) a = ap (λ l. f x ∷ l) (map-insert_at xs i a)

  map-modify :
      (xs : List A) (i : ℕ) (g : A → A) (h : B → B)
      → ((a : A) → f (g a) ≡ h (f a))
      → map f (modify xs i g) ≡ modify (map f xs) i h
  map-modify [] i g h e = refl
  map-modify (x ∷ xs) zero g h e = ap (λ y. y ∷ map f xs) (e x)
  map-modify (x ∷ xs) (suc i) g h e = ap (λ l. f x ∷ l) (map-modify xs i g h e)

  map-snoc : (xs : List A) (a : A) → map f (xs ++ a ∷ []) ≡ map f xs ++ f a ∷ []
  map-snoc [] a = refl
  map-snoc (x ∷ xs) a = ap (λ l. f x ∷ l) (map-snoc xs a)

insert_before-as_bucket :
    (w : ℕ) (ns : List ListNode) (next : Option ℕ)
    → as_bucket (insert_before w ns next) ≡ KvBucket.insert_before w (as_bucket ns) next
unfolding insert_before KvBucket.insert_before
insert_before-as_bucket w ns none = map-snoc as_kv ns (empty_node w)
insert_before-as_bucket w ns (some p) = map-insert_at as_kv ns p (empty_node w)

position_of_new-as_bucket :
    (ns : List ListNode) (next : Option ℕ)
    → KvBucket.position_of_new (as_bucket ns) next ≡ position_of_new ns next
unfolding position_of_new KvBucket.position_of_new
position_of_new-as_bucket ns none = length-map as_kv ns
position_of_new-as_bucket ns (some p) = refl

add_value-as_kv :
    (s v : ℕ) (n : ListNode)
    → as_kv (add_value s v n) ≡ KvBucket.add_record s (as_record v) (as_kv n)
unfolding add_value KvBucket.add_record
add_value-as_kv s v n = refl

modify-as_bucket :
    (ns : List ListNode) (p s v : ℕ)
    → as_bucket (modify ns p (add_value s v))
      ≡ modify (as_bucket ns) p (KvBucket.add_record s (as_record v))
modify-as_bucket ns p s v = map-modify as_kv ns p _ _ (add_value-as_kv s v)

add_between-as_bucket :
    (w : ℕ) (ns : List ListNode) (s v : ℕ) (r : Option ℕ × Option ℕ)
    → Stays ns s r
    → as_bucket (add_between w ns s v r) ≡ KvBucket.add_between w (as_bucket ns) s (as_record v) r
unfolding add_between KvBucket.add_between
add_between-as_bucket w ns s v (prev, next) q =
    rw (q, length-map as_kv ns, position_of_new-as_bucket ns next)
      (elim (Bool-cases
        (is_position next (candidate_after prev) || leb (length ns) (candidate_after prev))) [
          | inl e ↦ rw e (
              modify-as_bucket (insert_before w ns next) (position_of_new ns next) s v
              ∙ ap (λ l. modify l (position_of_new ns next) (KvBucket.add_record s (as_record v)))
                  (insert_before-as_bucket w ns next))
          | inr e ↦ rw e (modify-as_bucket ns (candidate_after prev) s v)
        ])

pub insert_node-as_bucket :
    (w : ℕ) (ns : List ListNode) (s i v : ℕ)
    → as_bucket (insert_node w ns s i v) ≡ KvBucket.insert_node w (as_bucket ns) s i (as_record v)
unfolding insert_node KvBucket.insert_node
insert_node-as_bucket w ns s i v =
    add_between-as_bucket w ns s v (find_neighbours ns 0 s i 0 none) (insert-Stays ns s i)
    ∙ ap (KvBucket.add_between w (as_bucket ns) s (as_record v))
        (sym (find_neighbours-as_bucket ns 0 s i 0 none))
