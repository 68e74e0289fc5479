-- ===== src/KvBucket/Insert.antt =====
-- `Insert` on a bucket puts one record into the column of its source, at its index.
use mathlib.Core.Path.{subst}
use vada_db.Common.{
  ℕ, zero, suc, ◌≤◌, ◌<◌, ◌≡◌, ◌≢◌, refl, ap, sym, ◌∙◌, Option, none, some, List, [], ◌∷◌, map,
  length, set, replicate, insert_at, length-set, length-replicate, get_or-replicate, Option-cases,
  true, false, if◌then◌else◌, arith, inl, inr,
}
use vada_db.Xor.{◌⊕◌, zero-xor}
use vada_db.KvBucket.{KvRecord, Bucket, empty_node, add_record, insert_node}
use vada_db.KvBucket.Slots.{
  Slot, is_some, key_of, value_of, xor_of, fuse, entry, put_entry, column, AllWidth, IsFused,
  has_bit-fuse, column-set_ne, entry-set_self, fuse-set,
}
use vada_db.KvBucket.Place.{place, bit_count, insert_node-place}
use vada_db.KvBucket.Change.{with_column, with_column-eq}

abbrev empty_slot : ℕ → Slot
empty_slot w = replicate w none

xor_of-replicate : (f : Option KvRecord → ℕ) (w : ℕ) → f none ≡ 0 → xor_of f (replicate w none) ≡ 0
xor_of-replicate f zero z = refl
xor_of-replicate f (suc w) z = rw (z, xor_of-replicate f w z) (zero-xor 0)

map-replicate : (w : ℕ) → map is_some (empty_slot w) ≡ replicate w false
map-replicate zero = refl
map-replicate (suc w) = ap (λ l. false ∷ l) (map-replicate w)

fuse-empty : (w : ℕ) → fuse (empty_slot w) ≡ empty_node w
fuse-empty w = λ i. record {
  key = xor_of-replicate key_of w refl i;
  value = xor_of-replicate value_of w refl i;
  bits = map-replicate w i;
}

add_record-fuse :
    (g : Slot) (s : ℕ) (r : KvRecord)
    → s < length g
    → entry g s ≡ none
    → add_record s r (fuse g) ≡ fuse (set g s (some r))
unfolding add_record
add_record-fuse g s r h e = sym (
    fuse-set g s (some r) h ∙ λ i. record {
      key = xor_of key_of g ⊕ ((ap (λ o. key_of o ⊕ r.key) e ∙ zero-xor r.key) i);
      value = xor_of value_of g ⊕ ((ap (λ o. value_of o ⊕ r.value) e ∙ zero-xor r.value) i);
      bits = set (map is_some g) s true;
    })

pub bit_count-fuse : (s : ℕ) (gs : List Slot) → bit_count s (map fuse gs) ≡ length (column s gs)
unfolding bit_count
bit_count-fuse s [] = refl
bit_count-fuse s (g ∷ gs) = rw (has_bit-fuse g s, bit_count-fuse s gs) (counted (entry g s))
  where
    counted :
        (o : Option KvRecord)
        → (if is_some o then suc (length (column s gs)) else length (column s gs))
          ≡ length (put_entry o (column s gs))
    counted none = refl
    counted (some r) = refl

-- Slots for the bucket `ns`, with `r` put into the column of `s`.
record Placed (w s i : ℕ) (r : KvRecord) (gs : List Slot) (ns : Bucket) : Type 0 where
  slots : List Slot
  nodes : ns ≡ map fuse slots
  width : AllWidth w slots
  same : column s slots ≡ insert_at (column s gs) i r
  others : (u : ℕ) → s ≢ u → column u slots ≡ column u gs

module _ (w s : ℕ) (in_slot : s < w) (r : KvRecord) where
  abbrev fresh : Slot
  fresh = set (empty_slot w) s (some r)

  in_empty : s < length (empty_slot w)
  in_empty = omega (arith, length-replicate {A = Option KvRecord} w none)

  fresh-width : length fresh ≡ w
  fresh-width = length-set (empty_slot w) s (some r) ∙ length-replicate w none

  fresh-node : add_record s r (empty_node w) ≡ fuse fresh
  fresh-node =
      ap (add_record s r) (sym (fuse-empty w))
      ∙ add_record-fuse (empty_slot w) s r in_empty (get_or-replicate w s none)

  column-fresh : (gs : List Slot) → column s (fresh ∷ gs) ≡ r ∷ column s gs
  column-fresh gs =
      ap (λ o. put_entry o (column s gs)) (entry-set_self (empty_slot w) s (some r) in_empty)

  column-fresh_ne : (gs : List Slot) (u : ℕ) → s ≢ u → column u (fresh ∷ gs) ≡ column u gs
  column-fresh_ne gs u ne =
      column-set_ne (empty_slot w) s u (some r) gs ne
      ∙ ap (λ o. put_entry o (column u gs)) (get_or-replicate w u none)

  fresh-Placed :
      (gs : List Slot)
      → AllWidth w gs
      → Placed w s 0 r gs (add_record s r (empty_node w) ∷ map fuse gs)
  fresh-Placed gs p = record {
    slots = fresh ∷ gs;
    nodes = ap (λ n. n ∷ map fuse gs) fresh-node;
    width = (fresh-width, p);
    same = column-fresh gs;
    others = column-fresh_ne gs;
  }

  shared-Placed :
      (g : Slot) (gs : List Slot)
      → length g ≡ w
      → AllWidth w gs
      → entry g s ≡ none
      → Placed w s 0 r (g ∷ gs) (add_record s r (fuse g) ∷ map fuse gs)
  shared-Placed g gs q p e = record {
    slots = set g s (some r) ∷ gs;
    nodes = ap (λ n. n ∷ map fuse gs) (add_record-fuse g s r (omega arith) e);
    width = (length-set g s (some r) ∙ q, p);
    same =
        ap (λ o. put_entry o (column s gs)) (entry-set_self g s (some r) (omega arith))
        ∙ ap (λ o. r ∷ put_entry o (column s gs)) (sym e);
    others = λ u ne. column-set_ne g s u (some r) gs ne;
  }

  -- A slot before the place stays, and counts if it has a record of the source.
  step-Placed :
      (g : Slot) (gs : List Slot) (i j : ℕ) {ns : Bucket} (o : Option KvRecord)
      → length g ≡ w
      → entry g s ≡ o
      → insert_at (put_entry o (column s gs)) i r ≡ put_entry o (insert_at (column s gs) j r)
      → Placed w s j r gs ns
      → Placed w s i r (g ∷ gs) (fuse g ∷ ns)
  step-Placed g gs i j o q e d t = record {
    slots = g ∷ t.slots;
    nodes = ap (λ l. fuse g ∷ l) t.nodes;
    width = (q, t.width);
    same =
        ap (put_entry (entry g s)) t.same
        ∙ ap (λ x. put_entry x (insert_at (column s gs) j r)) e
        ∙ sym d
        ∙ ap (λ x. insert_at (put_entry x (column s gs)) i r) (sym e);
    others = λ u ne. ap (put_entry (entry g u)) (t.others u ne);
  }

  place-Placed :
      (gs : List Slot) (i : ℕ)
      → AllWidth w gs
      → i ≤ length (column s gs)
      → Placed w s i r gs (place w (map fuse gs) s i r)
  unfolding place
  place-Placed [] zero p h = fresh-Placed [] tt
  place-Placed [] (suc i) p h = absurd (omega arith)
  place-Placed (g ∷ gs) zero p h = elim (Option-cases (entry g s)) [
    | inl e ↦ rw (has_bit-fuse g s, e) (shared-Placed g gs p.0 p.1 e)
    | inr (x, e) ↦ rw (has_bit-fuse g s, e) (fresh-Placed (g ∷ gs) p)
  ]
  place-Placed (g ∷ gs) (suc i) p h = elim (Option-cases (entry g s)) [
    | inl e ↦
        rw (has_bit-fuse g s, e)
          (step-Placed g gs (suc i) (suc i) none p.0 e refl (
            place-Placed gs (suc i) p.1
              (subst (λ o. suc i ≤ length (put_entry o (column s gs))) e h)))
    | inr (x, e) ↦
        rw (has_bit-fuse g s, e)
          (step-Placed g gs (suc i) i (some x) p.0 e refl (
            place-Placed gs i p.1
              (le_down (subst (λ o. suc i ≤ length (put_entry o (column s gs))) e h))))
  ]
    where
      le_down : {n m : ℕ} → suc n ≤ suc m → n ≤ m
      le_down k = omega arith

module _ {w : ℕ} {cols : ℕ → List KvRecord} {ns : Bucket} (f : IsFused w cols ns) (s i : ℕ)
    (r : KvRecord) where
  -- `Insert` on a bucket puts the record at its index, and keeps the records of all other sources.
  pub insert_node-IsFused :
      s < w
      → i ≤ length (cols s)
      → IsFused w (with_column cols s (insert_at (cols s) i r)) (insert_node w ns s i r)
  insert_node-IsFused in_slot h =
      let room : i ≤ length (column s f.slots) = subst (λ l. i ≤ length l) (sym (f.columns s)) h in
      let t = place-Placed w s in_slot r f.slots i f.width room in
      record {
        slots = t.slots;
        nodes =
            ap (λ l. insert_node w l s i r) f.nodes
            ∙ insert_node-place w (map fuse f.slots) s i r (omega (arith, bit_count-fuse s f.slots))
            ∙ t.nodes;
        width = t.width;
        columns = λ u.
            with_column-eq cols s u (insert_at (cols s) i r) (column u t.slots)
              (λ p.
                subst (λ k. column k t.slots ≡ insert_at (cols s) i r) p
                  (t.same ∙ ap (λ l. insert_at l i r) (f.columns s)))
              (λ ne. t.others u ne ∙ f.columns u);
      }
