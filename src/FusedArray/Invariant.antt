-- ===== src/FusedArray/Invariant.antt =====
-- The fused array holds the XOR of its sources, slot by slot, and of their lengths; from the other
-- sources it gives the missing one back.
use vada_db.Common.{
  length-take, get_or-take, ℕ, suc, ◌+◌, ◌-◌, ◌<◌, ◌≤◌, ◌≡◌, refl, ap, sym, ◌∙◌, true, List, [],
  ◌∷◌, length, get_or, set, take, length-set, get_or-set, get_or-set_self, get_or_ext, ◌==◌,
  Bool-cases, ==_iff, not_==, not_ltb, lt→not_leb, arith, inl, inr,
}
use vada_db.Common.Int.{pos}
use vada_db.Xor.{◌⊕◌, xor_assoc, xor-zero, zero-xor, xor_cancel_right}
use vada_db.Result.{ok, Returns}
use vada_db.CoreXor.{xor_into, longest}
use vada_db.CoreXor
use vada_db.CoreXor.Slices.{
  Sources, Others, AreOthers, AllOthers, xor_of_all, xor_of_others, xor_of_all-set,
  xor_of_others-single,
}
use vada_db.CoreXor.Fusion.{
  xor_slices-fused_slices, fused_slices, value_at, length-xor_into, get_or-xor_into,
  length-fused_slices, get_or-fused_slices, le-longest,
}
use vada_db.FusedArray.{
  FusedArray, Survivors, parity, new, set_value, recovered_length, xor_survivors, recover,
}

-- Every source fits into the fusion, which has the XOR of their elements in each slot.
pub record IsFusedArray (f : FusedArray) : Type 0 where
  pub fits : (s : ℕ) → length (get_or f.sources s []) ≤ length f.fusion
  pub slots :
      (i : ℕ) → i < length f.fusion → value_at i f.fusion ≡ xor_of_all (value_at i) refl f.sources
  pub lengths : f.length_parity ≡ xor_of_all (λ s. length s) refl f.sources

parity-eq : (p : ℕ) (ss : Sources) → parity p ss ≡ p ⊕ xor_of_all (λ s. length s) refl ss
unfolding parity
parity-eq p [] = sym (xor-zero p)
parity-eq p (s ∷ ss) =
    parity-eq (p ⊕ length s) ss ∙ xor_assoc p (length s) (xor_of_all (λ v. length v) refl ss)

-- `NewFusedArray` of at least two sources succeeds, and keeps them with their fusion.
pub new-IsFusedArray :
    (sources : Sources)
    → 2 ≤ length sources
    → Returns (new sources) λ f. IsFusedArray f × (f.sources ≡ sources)
unfolding new
new-IsFusedArray sources h = (
  record { sources = sources; fusion = fused_slices sources; length_parity = parity 0 sources },
  rw (not_ltb (length sources) 2 h, xor_slices-fused_slices sources) refl,
  (
    record {
      fits = λ s. omega (arith, le-longest 0 sources s, length-fused_slices sources);
      slots = λ i h. get_or-fused_slices sources i h;
      lengths = parity-eq 0 sources ∙ zero-xor (xor_of_all (λ v. length v) refl sources);
    },
    refl,
  ),
)

module _ {f : FusedArray} (fused : IsFusedArray f) (s i value : ℕ) (hs : s < length f.sources)
    (hi : i < length (get_or f.sources s [])) where
  abbrev old : List ℕ
  old = get_or f.sources s []

  abbrev changed : List ℕ
  changed = set old i value

  abbrev old_xor : ℕ → ℕ
  old_xor j = xor_of_all (value_at j) refl f.sources

  fits-set : (u : ℕ) → length (get_or (set f.sources s changed) u []) ≤ length f.fusion
  fits-set u = elim (Bool-cases (u == s)) [
    | inl e ↦ rw (get_or-set f.sources s u changed [] hs, e, length-set old i value) (fused.fits s)
    | inr e ↦ rw (get_or-set f.sources s u changed [] hs, e) (fused.fits u)
  ]

  changed_xor :
      (j : ℕ)
      → xor_of_all (value_at j) refl (set f.sources s changed)
        ≡ old_xor j ⊕ value_at j old ⊕ value_at j changed
  changed_xor j = xor_of_all-set (value_at j) refl f.sources s changed hs

  new_slot : ℕ
  new_slot = CoreXor.replace (value_at i f.fusion) (value_at i old) value

  in_fusion : i < length f.fusion
  in_fusion = omega (arith, fused.fits s)

  slots-set :
      (j : ℕ)
      → j < length f.fusion
      → value_at j (set f.fusion i new_slot)
        ≡ xor_of_all (value_at j) refl (set f.sources s changed)
  unfolding new_slot CoreXor.replace
  slots-set j h = elim (Bool-cases (j == i)) [
    | inl e ↦
        rw
          (
            get_or-set f.fusion i j new_slot 0 in_fusion,
            e,
            changed_xor j,
            (==_iff j i).0 e,
            get_or-set_self old i value 0 hi,
            fused.slots i in_fusion,
          )
          refl
    | inr e ↦
        rw
          (
            get_or-set f.fusion i j new_slot 0 in_fusion,
            e,
            changed_xor j,
            get_or-set old i j value 0 hi,
            e,
            xor_cancel_right (old_xor j) (value_at j old),
          )
          (fused.slots j h)
  ]

  lengths-set : f.length_parity ≡ xor_of_all (λ v. length v) refl (set f.sources s changed)
  lengths-set =
      rw
        (
          xor_of_all-set (λ v. length v) refl f.sources s changed hs,
          length-set old i value,
          xor_cancel_right (xor_of_all (λ v. length v) refl f.sources) (length old),
        )
        fused.lengths

  -- On a fused array: `Set` of an element that a source has succeeds, the source has the new value,
  -- and the array is fused.
  pub set_value-IsFusedArray :
      Returns
        (set_value f (pos s) (pos i) value)
        λ f'. IsFusedArray f' × (f'.sources ≡ set f.sources s (set (get_or f.sources s []) i value))
  unfolding set_value new_slot
  set_value-IsFusedArray = (
    record f { sources = set f.sources s changed; fusion = set f.fusion i new_slot },
    rw (lt→not_leb (length f.sources) s hs, lt→not_leb (length old) i hi) refl,
    (
      record {
        fits = λ u. omega (arith, fits-set u, length-set f.fusion i new_slot);
        slots = λ j h. slots-set j (omega (arith, length-set f.fusion i new_slot));
        lengths = lengths-set;
      },
      refl,
    ),
  )

abbrev pub as_survivors : Others → Survivors
as_survivors [] = []
as_survivors ((j, values) ∷ rest) = (pos j, values) ∷ as_survivors rest

length-as_survivors : (others : Others) → length (as_survivors others) ≡ length others
length-as_survivors [] = refl
length-as_survivors (x ∷ others) = ap suc (length-as_survivors others)

recovered_length-eq :
    (f : FusedArray) (m n : ℕ) (others : Others)
    → AreOthers m f.sources others
    → recovered_length f (pos m) n (as_survivors others)
      ≡ ok (xor_of_others (λ s. length s) refl n others)
unfolding recovered_length
recovered_length-eq f m n [] a = refl
recovered_length-eq f m n ((j, values) ∷ rest) a =
    rw (lt→not_leb (length f.sources) j a.0, not_== j m (λ e. a.1 (sym e)))
      (recovered_length-eq f m (n ⊕ length values) rest a.3)

length-xor_survivors :
    (out : List ℕ) (others : Others) → length (xor_survivors out (as_survivors others)) ≡ length out
unfolding xor_survivors
length-xor_survivors out [] = refl
length-xor_survivors out ((j, values) ∷ rest) =
    length-xor_survivors (xor_into out values) rest ∙ length-xor_into out values

get_or-xor_survivors :
    (out : List ℕ) (others : Others) (i : ℕ)
    → i < length out
    → value_at i (xor_survivors out (as_survivors others))
      ≡ xor_of_others (value_at i) refl (value_at i out) others
unfolding xor_survivors
get_or-xor_survivors out [] i h = refl
get_or-xor_survivors out ((j, values) ∷ rest) i h =
    get_or-xor_survivors (xor_into out values) rest i (omega (arith, length-xor_into out values))
    ∙ ap (λ t. xor_of_others (value_at i) refl t rest) (get_or-xor_into out values i h)

enough : (a b : ℕ) → a + 1 ≡ b → (a == b - 1) ≡ true
enough a b e = ground arith

-- `Recover` of a source of a fused array from all the other sources, in any order, succeeds and
-- returns that source: its elements, and no more of them than it had.
pub recover-IsFusedArray :
    (f : FusedArray) (m : ℕ) (others : Others)
    → IsFusedArray f
    → AllOthers m f.sources others
    → length others + 1 ≡ length f.sources
    → recover f (pos m) (as_survivors others) ≡ ok (get_or f.sources m [])
unfolding recover
recover-IsFusedArray f m others fused all size =
    let length_found : recovered_length f (pos m) f.length_parity (as_survivors others)
        ≡ ok (length (get_or f.sources m [])) =
      recovered_length-eq f m f.length_parity others all.are
      ∙ ap ok (
          ap (λ n. xor_of_others (λ s. length s) refl n others) fused.lengths
          ∙ xor_of_others-single (λ s. length s) refl m f.sources others all) in
    let missing : List ℕ = get_or f.sources m [] in
    let cut : length (take (length missing) f.fusion) ≡ length missing =
      length-take (length missing) f.fusion (fused.fits m) in
    let same =
      get_or_ext 0 (xor_survivors (take (length missing) f.fusion) (as_survivors others)) missing
        (length-xor_survivors (take (length missing) f.fusion) others ∙ cut)
        (λ i h.
          let hi : i < length missing =
            omega (arith, cut, length-xor_survivors (take (length missing) f.fusion) others) in
          get_or-xor_survivors (take (length missing) f.fusion) others i (omega (arith, cut))
          ∙ ap (λ t. xor_of_others (value_at i) refl t others)
              (get_or-take (length missing) f.fusion i 0 hi
                ∙ fused.slots i (omega (arith, fused.fits m)))
          ∙ xor_of_others-single (value_at i) refl m f.sources others all) in
    rw
      (
        lt→not_leb (length f.sources) m all.missing,
        length-as_survivors others,
        enough (length others) (length f.sources) size,
        length_found,
        not_ltb (length f.fusion) (length missing) (fused.fits m),
        same,
      )
      refl
