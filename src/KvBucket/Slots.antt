-- ===== src/KvBucket/Slots.antt =====
-- What a bucket stands for. A slot holds, for each source, the record that the source put into a
-- node, and the node is the slot fused: only the exclusive or of the records is kept.
use vada_db.Common.{
  ℕ, zero, suc, ◌<◌, ◌≡◌, refl, ap, sym, ◌∙◌, Bool, true, false, Option, none, some, List, [], ◌∷◌,
  ◌++◌, map, length, get_or, set, get_or-set_self, get_or-set_ne, ◌≢◌, arith, ◌&&◌,
}
use vada_db.Xor.{◌⊕◌, xor_assoc, xor_medial, xor_exchange, xor-zero, zero-xor}
use vada_db.KvBucket.{KvRecord, KvNode, Bucket, has_bit, join_bits, disjoint, merge}

abbrev pub Slot : Type 0
Slot = List (Option KvRecord)

abbrev pub is_some : Option KvRecord → Bool
is_some none = false
is_some (some r) = true

abbrev pub key_of : Option KvRecord → ℕ
key_of none = 0
key_of (some r) = r.key

abbrev pub value_of : Option KvRecord → ℕ
value_of none = 0
value_of (some r) = r.value

abbrev pub xor_of : (Option KvRecord → ℕ) → Slot → ℕ
xor_of f [] = 0
xor_of f (o ∷ g) = f o ⊕ xor_of f g

abbrev pub fuse : Slot → KvNode
fuse g = record { key = xor_of key_of g; value = xor_of value_of g; bits = map is_some g }

abbrev pub entry : Slot → ℕ → Option KvRecord
entry g s = get_or g s none

abbrev pub put_entry : Option KvRecord → List KvRecord → List KvRecord
put_entry none rs = rs
put_entry (some r) rs = r ∷ rs

-- The records of one source, in the order of the nodes.
abbrev pub column : ℕ → List Slot → List KvRecord
column s [] = []
column s (g ∷ gs) = put_entry (entry g s) (column s gs)

abbrev pub AllWidth : ℕ → List Slot → Type 0
AllWidth w [] = Unit
AllWidth w (g ∷ gs) = (length g ≡ w) × AllWidth w gs

-- The nodes are slots fused, and the slots hold these records of each source.
pub record IsFused (w : ℕ) (cols : ℕ → List KvRecord) (ns : Bucket) : Type 0 where
  pub slots : List Slot
  pub nodes : ns ≡ map fuse slots
  pub width : AllWidth w slots
  pub columns : (s : ℕ) → column s slots ≡ cols s

pub IsFused-congr :
    (w : ℕ) (cols others : ℕ → List KvRecord) (ns : Bucket)
    → ((s : ℕ) → cols s ≡ others s)
    → IsFused w cols ns
    → IsFused w others ns
IsFused-congr w cols others ns e f = record {
  slots = f.slots;
  nodes = f.nodes;
  width = f.width;
  columns = λ s. f.columns s ∙ e s;
}

pub has_bit-fuse : (g : Slot) (s : ℕ) → has_bit (fuse g) s ≡ is_some (entry g s)
unfolding has_bit
has_bit-fuse [] s = refl
has_bit-fuse (o ∷ g) zero = refl
has_bit-fuse (o ∷ g) (suc s) = has_bit-fuse g s

put_entry-append :
    (o : Option KvRecord) (rs qs : List KvRecord) → put_entry o (rs ++ qs) ≡ put_entry o rs ++ qs
put_entry-append none rs qs = refl
put_entry-append (some r) rs qs = refl

pub column-append : (s : ℕ) (gs hs : List Slot) → column s (gs ++ hs) ≡ column s gs ++ column s hs
column-append s [] hs = refl
column-append s (g ∷ gs) hs =
    rw (column-append s gs hs) (put_entry-append (entry g s) (column s gs) (column s hs))

pub xor_of-set :
    (f : Option KvRecord → ℕ) (g : Slot) (s : ℕ) (o : Option KvRecord)
    → s < length g
    → xor_of f (set g s o) ≡ xor_of f g ⊕ (f (entry g s) ⊕ f o)
xor_of-set f [] s o h = absurd (omega arith)
xor_of-set f (p ∷ g) zero o h = sym (xor_exchange (f p) (xor_of f g) (f o))
xor_of-set f (p ∷ g) (suc s) o h = rw (xor_of-set f g s o (omega arith)) (sym (xor_assoc _ _ _))

pub map-set :
    (g : Slot) (s : ℕ) (o : Option KvRecord)
    → map is_some (set g s o) ≡ set (map is_some g) s (is_some o)
map-set [] s o = refl
map-set (p ∷ g) zero o = refl
map-set (p ∷ g) (suc s) o = ap (λ t. is_some p ∷ t) (map-set g s o)

pub fuse-set :
    (g : Slot) (s : ℕ) (o : Option KvRecord)
    → s < length g
    → fuse (set g s o) ≡ record {
      key = xor_of key_of g ⊕ (key_of (entry g s) ⊕ key_of o);
      value = xor_of value_of g ⊕ (value_of (entry g s) ⊕ value_of o);
      bits = set (map is_some g) s (is_some o);
    }
fuse-set g s o h = λ i. record {
  key = xor_of-set key_of g s o h i;
  value = xor_of-set value_of g s o h i;
  bits = map-set g s o i;
}

pub entry-set_self :
    (g : Slot) (s : ℕ) (o : Option KvRecord) → s < length g → entry (set g s o) s ≡ o
entry-set_self g s o h = get_or-set_self g s o none h

pub entry-set_ne :
    (g : Slot) (s t : ℕ) (o : Option KvRecord) → s ≢ t → entry (set g s o) t ≡ entry g t
entry-set_ne g s t o ne = get_or-set_ne g s t o none ne

-- Where a slot changes at one source, the columns of the others stay.
pub column-set_ne :
    (g : Slot) (s t : ℕ) (o : Option KvRecord) (gs : List Slot)
    → s ≢ t
    → column t (set g s o ∷ gs) ≡ column t (g ∷ gs)
column-set_ne g s t o gs ne = ap (λ e. put_entry e (column t gs)) (entry-set_ne g s t o ne)

-- Two slots with no source in common, put together.
abbrev pub either : Option KvRecord → Option KvRecord → Option KvRecord
either none o = o
either (some r) o = some r

abbrev pub union : Slot → Slot → Slot
union [] h = []
union (o ∷ g) [] = o ∷ g
union (o ∷ g) (p ∷ h) = either o p ∷ union g h

pub length-union : (g h : Slot) → length (union g h) ≡ length g
length-union [] h = refl
length-union (o ∷ g) [] = refl
length-union (o ∷ g) (p ∷ h) = ap suc (length-union g h)

disjoint-tail :
    (o p : Option KvRecord) (g h : Slot)
    → disjoint (map is_some (o ∷ g)) (map is_some (p ∷ h)) ≡ true
    → (is_some o && is_some p ≡ false) × (disjoint (map is_some g) (map is_some h) ≡ true)
unfolding disjoint
disjoint-tail o p g h d = ground arith

pub entry-union :
    (g h : Slot) (s : ℕ)
    → length g ≡ length h
    → entry (union g h) s ≡ either (entry g s) (entry h s)
entry-union [] [] s e = refl
entry-union [] (p ∷ h) s e = absurd (omega arith)
entry-union (o ∷ g) [] s e = absurd (omega arith)
entry-union (o ∷ g) (p ∷ h) zero e = refl
entry-union (o ∷ g) (p ∷ h) (suc s) e = entry-union g h s (omega arith)

pub disjoint-entry :
    (g h : Slot) (s : ℕ)
    → disjoint (map is_some g) (map is_some h) ≡ true
    → length g ≡ length h
    → is_some (entry g s) && is_some (entry h s) ≡ false
disjoint-entry [] [] s d e = refl
disjoint-entry [] (p ∷ h) s d e = absurd (omega arith)
disjoint-entry (o ∷ g) [] s d e = absurd (omega arith)
disjoint-entry (o ∷ g) (p ∷ h) zero d e = (disjoint-tail o p g h d).0
disjoint-entry (o ∷ g) (p ∷ h) (suc s) d e =
    disjoint-entry g h s (disjoint-tail o p g h d).1 (omega arith)

xor_either :
    (f : Option KvRecord → ℕ) (o p : Option KvRecord)
    → f none ≡ 0
    → is_some o && is_some p ≡ false
    → f (either o p) ≡ f o ⊕ f p
xor_either f none p z d = rw (z, zero-xor (f p))
xor_either f (some r) none z d = rw (z, xor-zero (f (some r)))
xor_either f (some r) (some q) z d = cc

xor_of-union :
    (f : Option KvRecord → ℕ) (g h : Slot)
    → f none ≡ 0
    → disjoint (map is_some g) (map is_some h) ≡ true
    → length g ≡ length h
    → xor_of f (union g h) ≡ xor_of f g ⊕ xor_of f h
xor_of-union f [] [] z d e = sym (xor-zero 0)
xor_of-union f [] (p ∷ h) z d e = absurd (omega arith)
xor_of-union f (o ∷ g) [] z d e = absurd (omega arith)
xor_of-union f (o ∷ g) (p ∷ h) z d e =
    let t = disjoint-tail o p g h d in
    rw (xor_either f o p z t.0, xor_of-union f g h z t.1 (omega arith)) (xor_medial _ _ _ _)

join_bits-union : (g h : Slot) → join_bits (map is_some g) (map is_some h) ≡ map is_some (union g h)
unfolding join_bits
join_bits-union [] h = refl
join_bits-union (o ∷ g) [] = refl
join_bits-union (none ∷ g) (p ∷ h) = ap (λ t. is_some p ∷ t) (join_bits-union g h)
join_bits-union (some r ∷ g) (p ∷ h) = ap (λ t. true ∷ t) (join_bits-union g h)

-- `merge` of two nodes with no source in common is the node of the two slots put together.
pub merge-fuse :
    (g h : Slot)
    → disjoint (map is_some g) (map is_some h) ≡ true
    → length g ≡ length h
    → merge (fuse g) (fuse h) ≡ fuse (union g h)
unfolding merge
merge-fuse g h d e =
    rw (xor_of-union key_of g h refl d e, xor_of-union value_of g h refl d e, join_bits-union g h)
