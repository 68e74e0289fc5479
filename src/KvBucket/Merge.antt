-- ===== src/KvBucket/Merge.antt =====
-- Merging nodes keeps what a bucket stands for: `mergeNodes` and its two loops.
use vada_db.Common.{
  ℕ, zero, suc, ◌≡◌, refl, ap, sym, ◌∙◌, true, false, Option, none, some, List, [], ◌∷◌, map,
  length, ◌&&◌, Bool-cases, inl, inr,
}
use vada_db.KvBucket.{
  KvRecord, KvNode, Bucket, unwind, disjoint, any_bit, merge, merge_previous, merge_next,
  merge_around, merge_removed, merge_nodes,
}
use vada_db.KvBucket.Slots.{
  Slot, is_some, fuse, entry, put_entry, column, AllWidth, union, either, length-union, entry-union,
  disjoint-entry, merge-fuse,
}

pub column-unwind :
    (s : ℕ) (bs gs hs : List Slot)
    → column s gs ≡ column s hs
    → column s (unwind bs gs) ≡ column s (unwind bs hs)
column-unwind s [] gs hs e = e
column-unwind s (b ∷ bs) gs hs e =
    column-unwind s bs (b ∷ gs) (b ∷ hs) (ap (put_entry (entry b s)) e)

pub map-unwind : (bs gs : List Slot) → map fuse (unwind bs gs) ≡ unwind (map fuse bs) (map fuse gs)
map-unwind [] gs = refl
map-unwind (b ∷ bs) gs = map-unwind bs (b ∷ gs)

pub AllWidth-unwind :
    (w : ℕ) (bs gs : List Slot) → AllWidth w bs → AllWidth w gs → AllWidth w (unwind bs gs)
AllWidth-unwind w [] gs p q = q
AllWidth-unwind w (b ∷ bs) gs p q = AllWidth-unwind w bs (b ∷ gs) p.1 (p.0, q)

put_entry-either :
    (o p : Option KvRecord) (rs : List KvRecord)
    → is_some o && is_some p ≡ false
    → put_entry (either o p) rs ≡ put_entry o (put_entry p rs)
put_entry-either none p rs d = refl
put_entry-either (some r) none rs d = refl
put_entry-either (some r) (some q) rs d = cc

column-union :
    (s : ℕ) (g h : Slot) (gs : List Slot)
    → disjoint (map is_some g) (map is_some h) ≡ true
    → length g ≡ length h
    → column s (union g h ∷ gs) ≡ column s (g ∷ h ∷ gs)
column-union s g h gs d e =
    rw (entry-union g h s e)
      (put_entry-either (entry g s) (entry h s) (column s gs) (disjoint-entry g h s d e))

-- One round of each loop, or its end.
merge_previous-cons :
    (p : KvNode) (before : Bucket) (node : KvNode)
    → disjoint p.bits node.bits ≡ true
    → merge_previous (p ∷ before) node ≡ merge_previous before (merge p node)
unfolding merge_previous
merge_previous-cons p before node d = rw (d, merge_previous)

merge_previous_stop :
    (p : KvNode) (before : Bucket) (node : KvNode)
    → disjoint p.bits node.bits ≡ false
    → merge_previous (p ∷ before) node ≡ (p ∷ before, node)
unfolding merge_previous
merge_previous_stop p before node d = rw (d, merge_previous)

merge_next-cons :
    (node n : KvNode) (after : Bucket)
    → disjoint node.bits n.bits ≡ true
    → merge_next node (n ∷ after) ≡ merge_next (merge node n) after
unfolding merge_next
merge_next-cons node n after d = rw (d, merge_next)

merge_next_stop :
    (node n : KvNode) (after : Bucket)
    → disjoint node.bits n.bits ≡ false
    → merge_next node (n ∷ after) ≡ node ∷ n ∷ after
unfolding merge_next
merge_next_stop node n after d = rw (d, merge_next)

-- A list of slots whose nodes are `ns`, with the width and the columns of `gs`.
pub record Keeps (w : ℕ) (gs : List Slot) (ns : Bucket) : Type 0 where
  pub slots : List Slot
  pub nodes : ns ≡ map fuse slots
  pub width : AllWidth w slots
  pub columns : (s : ℕ) → column s slots ≡ column s gs

record KeepsPrevious (w : ℕ) (bs : List Slot) (g : Slot) (result : Bucket × KvNode) : Type 0 where
  before : List Slot
  slot : Slot
  nodes : result ≡ (map fuse before, fuse slot)
  width : AllWidth w before
  slot_width : length slot ≡ w
  columns :
      (s : ℕ) (gs : List Slot)
      → column s (unwind before (slot ∷ gs)) ≡ column s (unwind bs (g ∷ gs))

module _ (w : ℕ) where
  merge_previous-Keeps :
      (bs : List Slot) (g : Slot)
      → AllWidth w bs
      → length g ≡ w
      → KeepsPrevious w bs g (merge_previous (map fuse bs) (fuse g))
  unfolding merge_previous
  merge_previous-Keeps [] g p q = record {
    before = [];
    slot = g;
    nodes = refl;
    width = tt;
    slot_width = q;
    columns = λ s gs. refl;
  }
  merge_previous-Keeps (b ∷ bs) g p q =
      elim (Bool-cases (disjoint (map is_some b) (map is_some g))) [
        | inl d ↦
            let same : length b ≡ length g = p.0 ∙ sym q in
            let rest = merge_previous-Keeps bs (union b g) p.1 (length-union b g ∙ p.0) in
            record {
              before = rest.before;
              slot = rest.slot;
              nodes =
                  merge_previous-cons (fuse b) (map fuse bs) (fuse g) d
                  ∙ ap (merge_previous (map fuse bs)) (merge-fuse b g d same)
                  ∙ rest.nodes;
              width = rest.width;
              slot_width = rest.slot_width;
              columns = λ s gs.
                  rest.columns s gs
                  ∙ column-unwind s bs (union b g ∷ gs) (b ∷ g ∷ gs) (column-union s b g gs d same);
            }
        | inr d ↦ record {
          before = b ∷ bs;
          slot = g;
          nodes = merge_previous_stop (fuse b) (map fuse bs) (fuse g) d;
          width = p;
          slot_width = q;
          columns = λ s gs. refl;
        }
      ]

  merge_next-Keeps :
      (g : Slot) (gs : List Slot)
      → length g ≡ w
      → AllWidth w gs
      → Keeps w (g ∷ gs) (merge_next (fuse g) (map fuse gs))
  unfolding merge_next
  merge_next-Keeps g [] q p = record {
    slots = g ∷ [];
    nodes = refl;
    width = (q, tt);
    columns = λ s. refl;
  }
  merge_next-Keeps g (h ∷ gs) q p = elim (Bool-cases (disjoint (map is_some g) (map is_some h))) [
    | inl d ↦
        let same : length g ≡ length h = q ∙ sym p.0 in
        let rest = merge_next-Keeps (union g h) gs (length-union g h ∙ q) p.1 in
        record {
          slots = rest.slots;
          nodes =
              merge_next-cons (fuse g) (fuse h) (map fuse gs) d
              ∙ ap (λ t. merge_next t (map fuse gs)) (merge-fuse g h d same)
              ∙ rest.nodes;
          width = rest.width;
          columns = λ s. rest.columns s ∙ column-union s g h gs d same;
        }
    | inr d ↦ record {
      slots = g ∷ h ∷ gs;
      nodes = merge_next_stop (fuse g) (fuse h) (map fuse gs) d;
      width = (q, p);
      columns = λ s. refl;
    }
  ]

  merge_around-Keeps :
      (bs : List Slot) (g : Slot) (gs : List Slot)
      → AllWidth w bs
      → length g ≡ w
      → AllWidth w gs
      → Keeps w (unwind bs (g ∷ gs)) (merge_around (map fuse bs) (fuse g) (map fuse gs))
  unfolding merge_around
  merge_around-Keeps bs g gs p q r =
      let first = merge_previous-Keeps bs g p q in
      let second = merge_next-Keeps first.slot gs first.slot_width r in
      record {
        slots = unwind first.before second.slots;
        nodes = rw (first.nodes, second.nodes) (sym (map-unwind first.before second.slots));
        width = AllWidth-unwind w first.before second.slots first.width second.width;
        columns = λ s.
            column-unwind s first.before second.slots (first.slot ∷ gs) (second.columns s)
            ∙ first.columns s gs;
      }

  merge_removed-Keeps :
      (bs gs : List Slot)
      → AllWidth w bs
      → AllWidth w gs
      → Keeps w (unwind bs gs) (merge_removed (map fuse bs) (map fuse gs))
  unfolding merge_removed
  merge_removed-Keeps (b ∷ bs) gs p q = merge_around-Keeps bs b gs p.1 p.0 q
  merge_removed-Keeps [] (g ∷ gs) p q = merge_around-Keeps [] g gs p q.0 q.1
  merge_removed-Keeps [] [] p q = record {
    slots = [];
    nodes = refl;
    width = tt;
    columns = λ s. refl;
  }

  entry-no_bit : (g : Slot) (s : ℕ) → any_bit (map is_some g) ≡ false → entry g s ≡ none
  unfolding any_bit
  entry-no_bit [] s e = refl
  entry-no_bit (none ∷ g) zero e = refl
  entry-no_bit (some r ∷ g) s e = cc
  entry-no_bit (none ∷ g) (suc s) e = entry-no_bit g s e

  pub merge_nodes-Keeps :
      (bs : List Slot) (g : Slot) (gs : List Slot)
      → AllWidth w bs
      → length g ≡ w
      → AllWidth w gs
      → Keeps w
          (unwind bs (g ∷ gs))
          (merge_nodes (record { before = map fuse bs; node = fuse g; after = map fuse gs }))
  unfolding merge_nodes
  merge_nodes-Keeps bs g gs p q r = elim (Bool-cases (any_bit (map is_some g))) [
    | inl some_bit ↦ rw some_bit (merge_around-Keeps bs g gs p q r)
    | inr no_bit ↦
        let rest = merge_removed-Keeps bs gs p r in
        rw no_bit (record {
          slots = rest.slots;
          nodes = rest.nodes;
          width = rest.width;
          columns =
              λ s. rest.columns s ∙ column-unwind s bs gs (g ∷ gs) (rw (entry-no_bit g s no_bit));
        })
  ]
