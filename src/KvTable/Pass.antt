-- ===== src/KvTable/Pass.antt =====
-- The passes of `Recover` over a bucket: each takes the records of one survivor out of the nodes,
-- and the records of the missing source are what stays.

use vada_db.Common.{
  ℕ, ◌<◌, ◌≡◌, ◌≢◌, refl, ap, sym, ◌∙◌, none, some, List, [], ◌∷◌, map, length, set, set-get_or,
  length-set, Option-cases, true, false, arith, inl, inr,
}
use vada_db.Xor.{◌⊕◌, xor-zero}
use vada_db.Result.{ok, ◌>>=◌}
use vada_db.KvBucket.{KvRecord, KvNode, Bucket, has_bit}
use vada_db.KvBucket.Slots.{
  Slot, is_some, key_of, value_of, xor_of, fuse, entry, put_entry, column, AllWidth, has_bit-fuse,
  fuse-set, entry-set_ne,
}
use vada_db.KvTable.{xor_record, xor_source, values_of}

-- The value of a node as `Recover` keeps it.
abbrev pub plain : Slot → KvRecord
plain g = record { key = xor_of key_of g; value = xor_of value_of g }

pub values_of-fuse : (gs : List Slot) → values_of (map fuse gs) ≡ map plain gs
unfolding values_of
values_of-fuse [] = refl
values_of-fuse (g ∷ gs) = ap (λ l. plain g ∷ l) (values_of-fuse gs)

-- A slot without the record of `j`.
abbrev pub clear : ℕ → Slot → Slot
clear j g = set g j none

clear-none : (j : ℕ) (g : Slot) → entry g j ≡ none → clear j g ≡ g
clear-none j g e = ap (set g j) (sym e) ∙ set-get_or g j none

xor_record-plain :
    (j : ℕ) (g : Slot) (r : KvRecord)
    → j < length g
    → entry g j ≡ some r
    → xor_record (plain g) r ≡ plain (clear j g)
unfolding xor_record
xor_record-plain j g r h e = sym (
    ap strip (fuse-set g j none h) ∙ λ i. record {
      key = xor_of key_of g ⊕ ((ap (λ o. key_of o ⊕ 0) e ∙ xor-zero r.key) i);
      value = xor_of value_of g ⊕ ((ap (λ o. value_of o ⊕ 0) e ∙ xor-zero r.value) i);
    })
  where
    strip : KvNode → KvRecord
    strip n = record { key = n.key; value = n.value }

-- The slots `hs` still hold what `gs` hold for `j`.
abbrev pub Agree : ℕ → List Slot → List Slot → Type 0
Agree j [] [] = Unit
Agree j [] (h ∷ hs) = ⊥
Agree j (g ∷ gs) [] = ⊥
Agree j (g ∷ gs) (h ∷ hs) = (entry h j ≡ entry g j) × Agree j gs hs

-- One node of a pass.
xor_source-skip :
    (j : ℕ) (n : KvNode) (ns : Bucket) (v : KvRecord) (vs rs : List KvRecord)
    → has_bit n j ≡ false
    → xor_source j (n ∷ ns) (v ∷ vs) rs ≡ xor_source j ns vs rs >>= (λ rest. ok (v ∷ rest))
unfolding xor_source
xor_source-skip j n ns v vs rs h = rw (h, xor_source)

xor_source-cons :
    (j : ℕ) (n : KvNode) (ns : Bucket) (v : KvRecord) (vs : List KvRecord) (r : KvRecord)
    (rs : List KvRecord)
    → has_bit n j ≡ true
    → xor_source j (n ∷ ns) (v ∷ vs) (r ∷ rs)
      ≡ xor_source j ns vs rs >>= (λ rest. ok (xor_record v r ∷ rest))
unfolding xor_source
xor_source-cons j n ns v vs r rs h = rw (h, xor_source)

module _ (w j : ℕ) (in_slot : j < w) where
  -- One survivor's pass: its records leave the nodes, none is missing and none is left over.
  pub xor_source-clear :
      (gs hs : List Slot)
      → AllWidth w hs
      → Agree j gs hs
      → xor_source j (map fuse gs) (map plain hs) (column j gs) ≡ ok (map plain (map (clear j) hs))
  xor_source-clear [] [] p a = unfold xor_source in refl
  xor_source-clear [] (h ∷ hs) p a = elim a [ ]
  xor_source-clear (g ∷ gs) [] p a = elim a [ ]
  xor_source-clear (g ∷ gs) (h ∷ hs) p a = elim (Option-cases (entry g j)) [
    | inl e ↦
        ap (λ o. xor_source j (map fuse (g ∷ gs)) (map plain (h ∷ hs)) (put_entry o (column j gs)))
          e
        ∙ xor_source-skip j (fuse g) (map fuse gs) (plain h) (map plain hs) (column j gs)
            (has_bit-fuse g j ∙ ap is_some e)
        ∙ ap (λ m. m >>= λ rest. ok (plain h ∷ rest)) (xor_source-clear gs hs p.1 a.1)
        ∙ ap (λ x. ok (plain x ∷ map plain (map (clear j) hs))) (sym (clear-none j h (a.0 ∙ e)))
    | inr (r, e) ↦
        ap (λ o. xor_source j (map fuse (g ∷ gs)) (map plain (h ∷ hs)) (put_entry o (column j gs)))
          e
        ∙ xor_source-cons j (fuse g) (map fuse gs) (plain h) (map plain hs) r (column j gs)
            (has_bit-fuse g j ∙ ap is_some e)
        ∙ ap (λ m. m >>= λ rest. ok (xor_record (plain h) r ∷ rest))
            (xor_source-clear gs hs p.1 a.1)
        ∙ ap (λ x. ok (x ∷ map plain (map (clear j) hs)))
            (xor_record-plain j h r (omega (arith, p.0)) (a.0 ∙ e))
  ]

  pub AllWidth-clear : (hs : List Slot) → AllWidth w hs → AllWidth w (map (clear j) hs)
  AllWidth-clear [] p = tt
  AllWidth-clear (h ∷ hs) p = (length-set h j none ∙ p.0, AllWidth-clear hs p.1)

-- Taking one source out leaves the others as they were.
pub Agree-clear :
    (j k : ℕ) (gs hs : List Slot) → j ≢ k → Agree k gs hs → Agree k gs (map (clear j) hs)
Agree-clear j k [] [] ne a = tt
Agree-clear j k [] (h ∷ hs) ne a = a
Agree-clear j k (g ∷ gs) [] ne a = a
Agree-clear j k (g ∷ gs) (h ∷ hs) ne a =
    (entry-set_ne h j k none ne ∙ a.0, Agree-clear j k gs hs ne a.1)

pub Agree-refl : (j : ℕ) (gs : List Slot) → Agree j gs gs
Agree-refl j [] = tt
Agree-refl j (g ∷ gs) = (refl, Agree-refl j gs)
