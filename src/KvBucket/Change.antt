-- ===== src/KvBucket/Change.antt =====
-- `Replace` and `Delete` on a bucket: they change the one record and keep all others.
use vada_db.Common.{
  ℕ, ◌<◌, ◌≡◌, ◌≢◌, refl, ap, sym, ◌∙◌, Option, none, some, List, [], ◌∷◌, ◌++◌, map, length, set,
  get_elem?, remove_at, length-set, lt_of_get_elem?, Bool-cases, ==_iff, ◌==◌, if◌then◌else◌, arith,
  inl, inr,
}
use mathlib.Core.Path.{subst}
use vada_db.Result.{ok, Returns}
use vada_db.KvBucket.{
  KvRecord, Bucket, unwind, node_at, replace_value, replace_node, delete_node, merge_nodes,
}
use vada_db.KvBucket.Slots.{
  Slot, fuse, entry, put_entry, column, AllWidth, IsFused, column-append, column-set_ne,
  entry-set_self,
}
use vada_db.KvBucket.Merge.{map-unwind, merge_nodes-Keeps}
use vada_db.KvBucket.Locate.{
  Found, back, unwind-back, AllWidth-back, node_at-Found, replace_value-fuse, drop_record-fuse,
}

-- The columns with another one for `s`.
abbrev pub with_column : (ℕ → List KvRecord) → ℕ → List KvRecord → ℕ → List KvRecord
with_column cols s col t = if t == s then col else cols t

module _ {ℓ} {A : Type ℓ} where
  set-split :
      (xs : List A) (x y : A) (ys : List A) → set (xs ++ x ∷ ys) (length xs) y ≡ xs ++ y ∷ ys
  set-split [] x y ys = refl
  set-split (z ∷ xs) x y ys = ap (λ l. z ∷ l) (set-split xs x y ys)

  remove_at-split :
      (xs : List A) (x : A) (ys : List A) → remove_at (xs ++ x ∷ ys) (length xs) ≡ xs ++ ys
  remove_at-split [] x ys = refl
  remove_at-split (z ∷ xs) x ys = ap (λ l. z ∷ l) (remove_at-split xs x ys)

  get_elem?-split :
      (xs : List A) (x : A) (ys : List A) → get_elem? (xs ++ x ∷ ys) (length xs) ≡ some x
  get_elem?-split [] x ys = refl
  get_elem?-split (z ∷ xs) x ys = get_elem?-split xs x ys

AllWidth-append :
    (w : ℕ) (ms gs : List Slot) → AllWidth w ms → AllWidth w gs → AllWidth w (ms ++ gs)
AllWidth-append w [] gs p q = q
AllWidth-append w (m ∷ ms) gs p q = (p.0, AllWidth-append w ms gs p.1 q)

module _ {w s i : ℕ} {gs : List Slot} (t : Found w s i [] gs) where
  column-Found : column s gs ≡ column s t.passed ++ t.item ∷ column s t.rest
  column-Found =
      ap (column s) t.split
      ∙ column-append s t.passed (t.slot ∷ t.rest)
      ∙ ap (λ o. column s t.passed ++ put_entry o (column s t.rest)) t.holds

  -- The record found is the `i`-th of its source.
  pub item-Found : get_elem? (column s gs) i ≡ some t.item
  item-Found =
      ap (λ l. get_elem? l i) column-Found
      ∙ ap (get_elem? (column s t.passed ++ t.item ∷ column s t.rest)) (sym t.count)
      ∙ get_elem?-split (column s t.passed) t.item (column s t.rest)

  -- The slots with another entry for `s` in the one found.
  abbrev changed : Option KvRecord → List Slot
  changed o = t.passed ++ set t.slot s o ∷ t.rest

  changed-AllWidth : (o : Option KvRecord) → AllWidth w (changed o)
  changed-AllWidth o =
      AllWidth-append w t.passed (set t.slot s o ∷ t.rest) t.passed_width
        (length-set t.slot s o ∙ t.slot_width, t.rest_width)

  column-changed_ne : (o : Option KvRecord) (u : ℕ) → s ≢ u → column u (changed o) ≡ column u gs
  column-changed_ne o u ne =
      column-append u t.passed (set t.slot s o ∷ t.rest)
      ∙ ap (λ l. column u t.passed ++ l) (column-set_ne t.slot s u o t.rest ne)
      ∙ sym (column-append u t.passed (t.slot ∷ t.rest))
      ∙ sym (ap (column u) t.split)

  module _ (in_slot : s < w) where
    column-changed :
        (o : Option KvRecord)
        → column s (changed o) ≡ column s t.passed ++ put_entry o (column s t.rest)
    column-changed o =
        column-append s t.passed (set t.slot s o ∷ t.rest)
        ∙ ap (λ e. column s t.passed ++ put_entry e (column s t.rest))
            (entry-set_self t.slot s o (omega (arith, t.slot_width)))

    column-replaced : (r : KvRecord) → column s (changed (some r)) ≡ set (column s gs) i r
    column-replaced r =
        column-changed (some r)
        ∙ sym (set-split (column s t.passed) t.item r (column s t.rest))
        ∙ ap (λ k. set (column s t.passed ++ t.item ∷ column s t.rest) k r) t.count
        ∙ ap (λ l. set l i r) (sym column-Found)

    column-removed : column s (changed none) ≡ remove_at (column s gs) i
    column-removed =
        column-changed none
        ∙ sym (remove_at-split (column s t.passed) t.item (column s t.rest))
        ∙ ap (remove_at (column s t.passed ++ t.item ∷ column s t.rest)) t.count
        ∙ ap (λ l. remove_at l i) (sym column-Found)

pub with_column-eq :
    (cols : ℕ → List KvRecord) (s u : ℕ) (col other : List KvRecord)
    → (s ≡ u → other ≡ col)
    → (s ≢ u → other ≡ cols u)
    → other ≡ with_column cols s col u
with_column-eq cols s u col other same apart = elim (Bool-cases (u == s)) [
  | inl e ↦ rw e (same (sym ((==_iff u s).0 e)))
  | inr e ↦ rw e (apart (λ p. ground arith))
]

module _ {w : ℕ} {cols : ℕ → List KvRecord} {ns : Bucket} (f : IsFused w cols ns) (s i : ℕ)
    (in_slot : s < w) (r : KvRecord) (at : get_elem? (cols s) i ≡ some r) where
  at_column : get_elem? (column s f.slots) i ≡ some r
  at_column = ap (λ l. get_elem? l i) (f.columns s) ∙ at

  found : Found w s i [] f.slots
  found = node_at-Found w s i [] f.slots f.width (lt_of_get_elem? (column s f.slots) i at_column)

  item-eq : found.item ≡ r
  item-eq = cc (item-Found found, at_column)

  holds : entry found.slot s ≡ some r
  holds = found.holds ∙ ap some item-eq

  in_found : s < length found.slot
  in_found = omega (arith, found.slot_width)

  located :
      node_at [] ns s i
      ≡ some (record {
        before = map fuse (back found.passed []);
        node = fuse found.slot;
        after = map fuse found.rest;
      })
  located = ap (λ l. node_at [] l s i) f.nodes ∙ found.cursor

  -- The columns of the changed slots, where `col` is the new column of `s`.
  columns-changed :
      (o : Option KvRecord) (col : List KvRecord)
      → column s (changed found o) ≡ col
      → (u : ℕ) → column u (changed found o) ≡ with_column cols s col u
  columns-changed o col e u =
      with_column-eq cols s u col (column u (changed found o))
        (λ p. subst (λ k. column k (changed found o) ≡ col) p e)
        (λ ne. column-changed_ne found o u ne ∙ f.columns u)

  unwound :
      (o : Option KvRecord)
      → unwind (back found.passed []) (set found.slot s o ∷ found.rest) ≡ changed found o
  unwound o = unwind-back found.passed [] (set found.slot s o ∷ found.rest)

  -- `Replace` on a bucket does not panic, and changes the value of the `i`-th record of `s`.
  pub replace_node-IsFused :
      (v : ℕ)
      → Returns
          (replace_node (node_at [] ns s i) r.value v)
          (IsFused w (with_column cols s (set (cols s) i (record { key = r.key; value = v }))))
  unfolding replace_node
  replace_node-IsFused v =
      let r' : KvRecord = record { key = r.key; value = v } in
      (
        unwind (map fuse (back found.passed []))
            (replace_value (fuse found.slot) r.value v ∷ map fuse found.rest),
        ap (λ c. replace_node c r.value v) located,
        record {
          slots = changed found (some r');
          nodes =
              ap (λ n. unwind (map fuse (back found.passed [])) (n ∷ map fuse found.rest))
                (replace_value-fuse found.slot s r v in_found holds)
              ∙ sym (map-unwind (back found.passed []) (set found.slot s (some r') ∷ found.rest))
              ∙ ap (map fuse) (unwound (some r'));
          width = changed-AllWidth found (some r');
          columns =
              columns-changed (some r') (set (cols s) i r')
                (column-replaced found in_slot r' ∙ ap (λ l. set l i r') (f.columns s));
        },
      )

  -- `Delete` on a bucket does not panic, and takes the `i`-th record of `s` away.
  pub delete_node-IsFused :
      Returns
        (delete_node (node_at [] ns s i) s r)
        (IsFused w (with_column cols s (remove_at (cols s) i)))
  unfolding delete_node
  delete_node-IsFused =
      let before = back found.passed [] in
      let dropped = set found.slot s none in
      let merged =
        merge_nodes-Keeps w before dropped found.rest
          (AllWidth-back w found.passed [] found.passed_width tt)
          (length-set found.slot s none ∙ found.slot_width) found.rest_width in
      (
        merge_nodes
            (record { before = map fuse before; node = fuse dropped; after = map fuse found.rest }),
        ap (λ c. delete_node c s r) located
            ∙ ap
                (λ n. ok (
                  merge_nodes
                    (record { before = map fuse before; node = n; after = map fuse found.rest })))
                (drop_record-fuse found.slot s r in_found holds),
        record {
          slots = merged.slots;
          nodes = merged.nodes;
          width = merged.width;
          columns = λ u.
              merged.columns u
              ∙ ap (column u) (unwound none)
              ∙ columns-changed none (remove_at (cols s) i)
                  (column-removed found in_slot ∙ ap (λ l. remove_at l i) (f.columns s)) u;
        },
      )
