-- ===== src/KvBucket/Locate.antt =====
-- `nodeAt` finds the node of a source's record, and `Replace` and `Delete` change that record.
use vada_db.Common.{
  ℕ, zero, suc, ◌<◌, ◌≡◌, refl, ap, sym, ◌∙◌, Option, none, some, List, [], ◌∷◌, ◌++◌, map, length,
  set, get_or, set-get_or, remove_at, Option-cases, true, false, arith, inl, inr,
}
use vada_db.Xor.{◌⊕◌, xor_self, xor-zero}
use vada_db.KvBucket.{
  KvRecord, KvNode, Bucket, has_bit, unwind, node_at, replace_value, drop_record,
}
use vada_db.KvBucket.Slots.{
  Slot, is_some, key_of, value_of, xor_of, fuse, entry, put_entry, column, AllWidth, has_bit-fuse,
  column-append, fuse-set,
}

-- The nodes passed over, from the nearest on.
abbrev pub back : List Slot → List Slot → List Slot
back [] bs = bs
back (m ∷ ms) bs = back ms (m ∷ bs)

pub unwind-back : (ms bs gs : List Slot) → unwind (back ms bs) gs ≡ unwind bs (ms ++ gs)
unwind-back [] bs gs = refl
unwind-back (m ∷ ms) bs gs = unwind-back ms (m ∷ bs) gs

pub AllWidth-back :
    (w : ℕ) (ms bs : List Slot) → AllWidth w ms → AllWidth w bs → AllWidth w (back ms bs)
AllWidth-back w [] bs p q = q
AllWidth-back w (m ∷ ms) bs p q = AllWidth-back w ms (m ∷ bs) p.1 (p.0, q)

-- The `i`-th record of source `s`, in its slot, with the slots around it.
pub record Found (w s i : ℕ) (bs gs : List Slot) : Type 0 where
  pub passed : List Slot
  pub slot : Slot
  pub rest : List Slot
  pub item : KvRecord
  pub split : gs ≡ passed ++ slot ∷ rest
  pub passed_width : AllWidth w passed
  pub slot_width : length slot ≡ w
  pub rest_width : AllWidth w rest
  pub count : length (column s passed) ≡ i
  pub holds : entry slot s ≡ some item
  pub cursor :
      node_at (map fuse bs) (map fuse gs) s i
      ≡ some
          (record { before = map fuse (back passed bs); node = fuse slot; after = map fuse rest })

-- One round of the loop of `nodeAt`.
node_at-skip :
    (before : Bucket) (n : KvNode) (ns : Bucket) (s i : ℕ)
    → has_bit n s ≡ false
    → node_at before (n ∷ ns) s i ≡ node_at (n ∷ before) ns s i
unfolding node_at
node_at-skip before n ns s i h = rw (h, node_at)

node_at-zero :
    (before : Bucket) (n : KvNode) (ns : Bucket) (s : ℕ)
    → has_bit n s ≡ true
    → node_at before (n ∷ ns) s 0 ≡ some (record { before = before; node = n; after = ns })
unfolding node_at
node_at-zero before n ns s h = rw (h, node_at)

node_at-suc :
    (before : Bucket) (n : KvNode) (ns : Bucket) (s i : ℕ)
    → has_bit n s ≡ true
    → node_at before (n ∷ ns) s (suc i) ≡ node_at (n ∷ before) ns s i
unfolding node_at
node_at-suc before n ns s i h = rw (h, node_at)

module _ {w s i : ℕ} {bs gs : List Slot} (g : Slot) (width : length g ≡ w) where
  Found-skip : entry g s ≡ none → Found w s i (g ∷ bs) gs → Found w s i bs (g ∷ gs)
  Found-skip e t = record {
    passed = g ∷ t.passed;
    slot = t.slot;
    rest = t.rest;
    item = t.item;
    split = ap (λ l. g ∷ l) t.split;
    passed_width = (width, t.passed_width);
    slot_width = t.slot_width;
    rest_width = t.rest_width;
    count = ap (λ o. length (put_entry o (column s t.passed))) e ∙ t.count;
    holds = t.holds;
    cursor =
        node_at-skip (map fuse bs) (fuse g) (map fuse gs) s i (has_bit-fuse g s ∙ ap is_some e)
        ∙ t.cursor;
  }

  Found-suc :
      {r : KvRecord} → entry g s ≡ some r → Found w s i (g ∷ bs) gs → Found w s (suc i) bs (g ∷ gs)
  Found-suc e t = record {
    passed = g ∷ t.passed;
    slot = t.slot;
    rest = t.rest;
    item = t.item;
    split = ap (λ l. g ∷ l) t.split;
    passed_width = (width, t.passed_width);
    slot_width = t.slot_width;
    rest_width = t.rest_width;
    count = ap (λ o. length (put_entry o (column s t.passed))) e ∙ ap suc t.count;
    holds = t.holds;
    cursor =
        node_at-suc (map fuse bs) (fuse g) (map fuse gs) s i (has_bit-fuse g s ∙ ap is_some e)
        ∙ t.cursor;
  }

module _ {w s : ℕ} {bs gs : List Slot} (g : Slot) (width : length g ≡ w) where
  Found-here : {r : KvRecord} → entry g s ≡ some r → AllWidth w gs → Found w s 0 bs (g ∷ gs)
  Found-here {r = r} e p = record {
    passed = [];
    slot = g;
    rest = gs;
    item = r;
    split = refl;
    passed_width = tt;
    slot_width = width;
    rest_width = p;
    count = refl;
    holds = e;
    cursor = node_at-zero (map fuse bs) (fuse g) (map fuse gs) s (has_bit-fuse g s ∙ ap is_some e);
  }

-- The records of a source, where the first slot is known.
column-at :
    (s : ℕ) (g : Slot) (gs : List Slot) {o : Option KvRecord}
    → entry g s ≡ o
    → length (column s (g ∷ gs)) ≡ length (put_entry o (column s gs))
column-at s g gs e = ap (λ o. length (put_entry o (column s gs))) e

module _ (w s : ℕ) where
  -- A source with more than `i` records has an `i`-th node.
  pub node_at-Found :
      (i : ℕ) (bs gs : List Slot) → AllWidth w gs → i < length (column s gs) → Found w s i bs gs
  node_at-Found i bs [] p h = absurd (omega arith)
  node_at-Found zero bs (g ∷ gs) p h = elim (Option-cases (entry g s)) [
    | inl e ↦
        Found-skip g p.0 e (node_at-Found zero (g ∷ bs) gs p.1 (omega (arith, column-at s g gs e)))
    | inr (r, e) ↦ Found-here g p.0 e p.1
  ]
  node_at-Found (suc i) bs (g ∷ gs) p h = elim (Option-cases (entry g s)) [
    | inl e ↦
        Found-skip g p.0 e
          (node_at-Found (suc i) (g ∷ bs) gs p.1 (omega (arith, column-at s g gs e)))
    | inr (r, e) ↦
        Found-suc g p.0 e (node_at-Found i (g ∷ bs) gs p.1 (omega (arith, column-at s g gs e)))
  ]

has_bit-fuse-get :
    (g : Slot) (s : ℕ) (r : KvRecord) → entry g s ≡ some r → get_or (map is_some g) s false ≡ true
unfolding has_bit
has_bit-fuse-get g s r e = has_bit-fuse g s ∙ ap is_some e

bits-kept :
    (g : Slot) (s : ℕ) (r : KvRecord)
    → entry g s ≡ some r
    → set (map is_some g) s true ≡ map is_some g
bits-kept g s r e =
    ap (set (map is_some g) s) (sym (has_bit-fuse-get g s r e)) ∙ set-get_or (map is_some g) s false

pub replace_value-fuse :
    (g : Slot) (s : ℕ) (r : KvRecord) (v : ℕ)
    → s < length g
    → entry g s ≡ some r
    → replace_value (fuse g) r.value v ≡ fuse (set g s (some (record { key = r.key; value = v })))
unfolding replace_value
replace_value-fuse g s r v h e = sym (
    fuse-set g s (some (record { key = r.key; value = v })) h ∙ λ i. record {
      key =
          (ap (λ o. xor_of key_of g ⊕ (key_of o ⊕ r.key)) e
              ∙ ap (λ t. xor_of key_of g ⊕ t) (xor_self r.key)
              ∙ xor-zero _)
            i;
      value = xor_of value_of g ⊕ (value_of (e i) ⊕ v);
      bits = bits-kept g s r e i;
    })

pub drop_record-fuse :
    (g : Slot) (s : ℕ) (r : KvRecord)
    → s < length g
    → entry g s ≡ some r
    → drop_record s r (fuse g) ≡ fuse (set g s none)
unfolding drop_record
drop_record-fuse g s r h e = sym (
    fuse-set g s none h ∙ λ i. record {
      key = xor_of key_of g ⊕ ((ap (λ o. key_of o ⊕ 0) e ∙ xor-zero r.key) i);
      value = xor_of value_of g ⊕ ((ap (λ o. value_of o ⊕ 0) e ∙ xor-zero r.value) i);
      bits = set (map is_some g) s false;
    })

-- Setting the entry of the found slot sets the record in the column.
column-split :
    (s : ℕ) (ms : List Slot) (g : Slot) (gs : List Slot)
    → column s (ms ++ g ∷ gs) ≡ column s ms ++ put_entry (entry g s) (column s gs)
column-split s ms g gs = column-append s ms (g ∷ gs)

set-split :
    {A : Type 0} (xs : List A) (x y : A) (ys : List A)
    → set (xs ++ x ∷ ys) (length xs) y ≡ xs ++ y ∷ ys
set-split [] x y ys = refl
set-split (z ∷ xs) x y ys = ap (λ l. z ∷ l) (set-split xs x y ys)

remove_at-split :
    {A : Type 0} (xs : List A) (x : A) (ys : List A)
    → remove_at (xs ++ x ∷ ys) (length xs) ≡ xs ++ ys
remove_at-split [] x ys = refl
remove_at-split (z ∷ xs) x ys = ap (λ l. z ∷ l) (remove_at-split xs x ys)
