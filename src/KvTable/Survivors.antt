-- ===== src/KvTable/Survivors.antt =====
-- All the passes of `Recover` over one bucket, in whatever order the survivors come.
use mathlib.Core.List.{map-id, map-map}
use mathlib.Core.Path.{subst}
use vada_db.Common.{
  ℕ, zero, suc, ◌<◌, ◌≡◌, ◌≢◌, refl, ap, sym, ◌∙◌, ◌⊎◌, Option, none, some, List, [], ◌∷◌, map,
  length, get_or, length-set, Bool-cases, Option-cases, ==_iff, ◌==◌, arith, inl, inr,
}
use vada_db.Xor.{xor-zero, zero-xor}
use vada_db.Result.{ok, Returns}
use vada_db.KvBucket.{KvRecord, Bucket}
use vada_db.KvBucket.Slots.{
  Slot, key_of, value_of, xor_of, fuse, entry, column, AllWidth, IsFused, has_bit-fuse,
  entry-set_self, entry-set_ne,
}
use vada_db.KvTable.{xor_survivors, pick, values_of}
use vada_db.KvTable.Pass.{
  plain, values_of-fuse, clear, Agree, Agree-refl, Agree-clear, AllWidth-clear, xor_source-clear,
}

-- The survivors' groups: sources apart from one another, each with its records in bucket `b`.
abbrev pub Grouped : Type 0
Grouped = List (ℕ × List (List KvRecord))

module _ {A : Type 0} where
  abbrev pub NotIn : ℕ → List (ℕ × A) → Type 0
  NotIn j [] = Unit
  NotIn j ((k, _) ∷ rest) = (j ≢ k) × NotIn j rest

  abbrev pub Distinct : List (ℕ × A) → Type 0
  Distinct [] = Unit
  Distinct ((j, _) ∷ rest) = NotIn j rest × Distinct rest

  abbrev pub IsIn : ℕ → List (ℕ × A) → Type 0
  IsIn k [] = ⊥
  IsIn k ((j, _) ∷ rest) = (j ≡ k) ⊎ IsIn k rest

abbrev pub HoldsColumns : ℕ → ℕ → (ℕ → List KvRecord) → Grouped → Type 0
HoldsColumns w b cols [] = Unit
HoldsColumns w b cols ((j, groups) ∷ rest) =
    (j < w) × (get_or groups b [] ≡ cols j) × HoldsColumns w b cols rest

abbrev pub AgreeAll : Grouped → List Slot → List Slot → Type 0
AgreeAll [] gs hs = Unit
AgreeAll ((j, _) ∷ rest) gs hs = Agree j gs hs × AgreeAll rest gs hs

AgreeAll-clear :
    (j : ℕ) (rest : Grouped) (gs hs : List Slot)
    → NotIn j rest
    → AgreeAll rest gs hs
    → AgreeAll rest gs (map (clear j) hs)
AgreeAll-clear j [] gs hs d a = tt
AgreeAll-clear j ((k, x) ∷ rest) gs hs d a =
    (Agree-clear j k gs hs d.0 a.0, AgreeAll-clear j rest gs hs d.1 a.1)

abbrev pub clear_all : Grouped → Slot → Slot
clear_all [] g = g
clear_all ((j, _) ∷ rest) g = clear_all rest (clear j g)

xor_survivors-clear :
    (w b : ℕ) (gs : List Slot) (grouped : Grouped) (hs : List Slot)
    → AllWidth w hs
    → HoldsColumns w b (λ j. column j gs) grouped
    → Distinct grouped
    → AgreeAll grouped gs hs
    → xor_survivors (map fuse gs) b grouped (map plain hs)
      ≡ ok (map plain (map (clear_all grouped) hs))
unfolding xor_survivors
xor_survivors-clear w b gs [] hs p c d a = ap (λ l. ok (map plain l)) (sym (map-id hs))
xor_survivors-clear w b gs ((j, groups) ∷ rest) hs p c d a =
    rw (c.1, xor_source-clear w j c.0 gs hs p a.0)
      (xor_survivors-clear w b gs rest (map (clear j) hs) (AllWidth-clear w j c.0 hs p) c.2 d.1
          (AgreeAll-clear j rest gs hs d.0 a.1)
        ∙ ap (λ l. ok (map plain l)) (map-map (clear_all rest) (clear j) hs))

entry-clear_all_ne :
    (m : ℕ) (grouped : Grouped) (h : Slot)
    → NotIn m grouped
    → entry (clear_all grouped h) m ≡ entry h m
entry-clear_all_ne m [] h d = refl
entry-clear_all_ne m ((j, _) ∷ rest) h d =
    entry-clear_all_ne m rest (clear j h) d.1 ∙ entry-set_ne h j m none (λ e. d.0 (sym e))

entry-clear_all-none :
    (k : ℕ) (grouped : Grouped) (h : Slot)
    → k < length h
    → entry h k ≡ none
    → entry (clear_all grouped h) k ≡ none
entry-clear_all-none k [] h q e = e
entry-clear_all-none k ((j, _) ∷ rest) h q e =
    entry-clear_all-none k rest (clear j h) (omega (arith, length-set h j none))
      (elim (Bool-cases (k == j)) [
        | inl d ↦
            subst (λ t. entry (clear t h) k ≡ none) ((==_iff k j).0 d) (entry-set_self h k none q)
        | inr d ↦ entry-set_ne h j k none (ground arith) ∙ e
      ])

entry-clear_all_in :
    (k : ℕ) (grouped : Grouped) (h : Slot)
    → k < length h
    → IsIn k grouped
    → entry (clear_all grouped h) k ≡ none
entry-clear_all_in k [] h q i = absurd i
entry-clear_all_in k ((j, x) ∷ rest) h q (inl e) =
    entry-clear_all-none k rest (clear j h) (omega (arith, length-set h j none))
      (subst (λ t. entry (clear t h) k ≡ none) (sym e) (entry-set_self h k none q))
entry-clear_all_in k ((j, x) ∷ rest) h q (inr i) =
    entry-clear_all_in k rest (clear j h) (omega (arith, length-set h j none)) i

xor_of-none :
    (f : Option KvRecord → ℕ) (h : Slot)
    → f none ≡ 0
    → ((k : ℕ) → k < length h → entry h k ≡ none)
    → xor_of f h ≡ 0
xor_of-none f [] z e = refl
xor_of-none f (o ∷ h) z e =
    rw (e 0 (omega arith), z, xor_of-none f h z (λ k q. e (suc k) (omega arith))) (zero-xor 0)

-- Where one record is left in a slot, the node holds that record in the clear.
xor_of-single :
    (f : Option KvRecord → ℕ) (h : Slot) (m : ℕ)
    → f none ≡ 0
    → m < length h
    → ((k : ℕ) → k < length h → m ≢ k → entry h k ≡ none)
    → xor_of f h ≡ f (entry h m)
xor_of-single f [] m z q e = absurd (omega arith)
xor_of-single f (o ∷ h) zero z q e =
    rw (xor_of-none f h z (λ k q. e (suc k) (omega arith) (omega arith))) (xor-zero (f o))
xor_of-single f (o ∷ h) (suc m) z q e =
    rw (e 0 (omega arith) (omega arith), z, zero-xor (xor_of f h))
      (xor_of-single f h m z (omega arith)
        (λ k q d. e (suc k) (omega arith) (λ p. d (omega arith))))

length-clear_all : (grouped : Grouped) (h : Slot) → length (clear_all grouped h) ≡ length h
length-clear_all [] h = refl
length-clear_all ((j, _) ∷ rest) h = length-clear_all rest (clear j h) ∙ length-set h j none

AgreeAll-refl : (grouped : Grouped) (gs : List Slot) → AgreeAll grouped gs gs
AgreeAll-refl [] gs = tt
AgreeAll-refl ((j, _) ∷ rest) gs = (Agree-refl j gs, AgreeAll-refl rest gs)

-- Every source but `m` has its records among the groups, once.
pub record Covers (w m b : ℕ) (cols : ℕ → List KvRecord) (grouped : Grouped) : Type 0 where
  pub missing : m < w
  pub held : HoldsColumns w b cols grouped
  pub distinct : Distinct grouped
  pub without : NotIn m grouped
  pub all_others : (k : ℕ) → k < w → m ≢ k → IsIn k grouped

HoldsColumns-congr :
    (w b : ℕ) (cols others : ℕ → List KvRecord) (grouped : Grouped)
    → ((s : ℕ) → cols s ≡ others s)
    → HoldsColumns w b cols grouped
    → HoldsColumns w b others grouped
HoldsColumns-congr w b cols others [] e h = tt
HoldsColumns-congr w b cols others ((j, _) ∷ rest) e h =
    (h.0, h.1 ∙ e j, HoldsColumns-congr w b cols others rest e h.2)

module _ {w m b : ℕ} {cols : ℕ → List KvRecord} {grouped : Grouped}
    (c : Covers w m b cols grouped) where
  plain-clear_all :
      (g : Slot) (r : KvRecord)
      → length g ≡ w
      → entry g m ≡ some r
      → plain (clear_all grouped g) ≡ r
  plain-clear_all g r q e = λ i. record {
    key = (alone key_of refl ∙ ap key_of here) i;
    value = (alone value_of refl ∙ ap value_of here) i;
  }
    where
      here : entry (clear_all grouped g) m ≡ some r
      here = entry-clear_all_ne m grouped g c.without ∙ e

      alone :
          (f : Option KvRecord → ℕ)
          → f none ≡ 0
          → xor_of f (clear_all grouped g) ≡ f (entry (clear_all grouped g) m)
      alone f z =
          xor_of-single f (clear_all grouped g) m z
            (omega (arith, length-clear_all grouped g, c.missing))
            (λ k h ne.
              entry-clear_all_in k grouped g (omega (arith, length-clear_all grouped g))
                (c.all_others k (omega (arith, length-clear_all grouped g)) ne))

  pick-clear_all :
      (gs : List Slot)
      → AllWidth w gs
      → pick m (map fuse gs) (map plain (map (clear_all grouped) gs)) ≡ column m gs
  unfolding pick
  pick-clear_all [] p = refl
  pick-clear_all (g ∷ gs) p = elim (Option-cases (entry g m)) [
    | inl e ↦ rw (has_bit-fuse g m, e) (pick-clear_all gs p.1)
    | inr (r, e) ↦
        rw (has_bit-fuse g m, e, plain-clear_all g r p.0 e)
          (ap (λ l. r ∷ l) (pick-clear_all gs p.1))
  ]

  -- After all the passes the nodes of `m` hold its records in the clear, in order.
  pub bucket-recovers :
      {ns : Bucket}
      → IsFused w cols ns
      → Returns (xor_survivors ns b grouped (values_of ns)) λ values. pick m ns values ≡ cols m
  bucket-recovers {ns} f = (
    map plain (map (clear_all grouped) f.slots),
    rw (f.nodes, values_of-fuse f.slots)
        (xor_survivors-clear w b f.slots grouped f.slots f.width
          (HoldsColumns-congr w b cols (λ j. column j f.slots) grouped (λ s. sym (f.columns s))
            c.held)
          c.distinct (AgreeAll-refl grouped f.slots)),
    rw f.nodes (pick-clear_all f.slots f.width ∙ f.columns m),
  )
