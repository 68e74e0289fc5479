-- ===== src/FusedList/Passes.antt =====
-- What the fused linked list keeps: its nodes are the sources fused, and `Recover` undoes that.

use vada_db.Common.{
  ℕ, suc, ◌+◌, ◌-◌, ◌<◌, ◌≡◌, refl, ap, sym, ◌∙◌, true, false, List, [], ◌∷◌, map, length, get_or,
  Bool-cases, inl, inr, length-map, arith, not_==, lt→not_leb, ◌==◌,
}
use vada_db.Common.Int.{pos}
use vada_db.KvBucket
use vada_db.KvBucket.{KvRecord, KvNode, Bucket}
use vada_db.KvBucket.Slots.{IsFused}
use vada_db.KvBucket.Place.{bit_count}
use vada_db.KvBucket.Insert.{bit_count-fuse}
use vada_db.KvTable
use vada_db.KvTable.Survivors.{
  Grouped, NotIn, Distinct, IsIn, HoldsColumns, Covers, bucket-recovers,
}
use vada_db.CoreXor.Slices.{Others, AreOthers, AllOthers}
use vada_db.Result.{ok, Returns, Returns-value}
use vada_db.Xor.{◌⊕◌}
use vada_db.FusedList.{ListNode, FusedList, has_bit, valid_source}
use vada_db.FusedList.Nodes.{as_record, as_bucket}
use vada_db.FusedList.Recovering.{values_of, take_out, take_out_all, pick, recover, Survivors}

abbrev pub records_of : List (List ℕ) → ℕ → List KvRecord
records_of sources s = map as_record (get_or sources s [])

-- The nodes fuse the sources: some slots have the nodes as their XOR and the sources as their
-- columns.
abbrev pub IsFusedList : FusedList → Type 0
IsFusedList f = IsFused (length f.sources) (records_of f.sources) (as_bucket f.nodes)

pub valid_source-lt :
    (f : FusedList) (s : ℕ) → s < length f.sources → valid_source f (pos s) ≡ ok tt
unfolding valid_source
valid_source-lt f s h = rw (lt→not_leb (length f.sources) s h) refl

-- A pass reads each value of a survivor once, and agrees with a pass over the bucket.
record TakesOut (s : ℕ) (ns : List ListNode) (vs own : List ℕ) (r : List ℕ × List ℕ) : Type 0 where
  same :
      KvTable.xor_source s (as_bucket ns) (map as_record vs) (map as_record own)
      ≡ ok (map as_record r.0)
  empty : r.1 ≡ []
  size : length r.0 ≡ length ns

bit_count-nil : (s : ℕ) → bit_count s [] ≡ 0
unfolding bit_count
bit_count-nil s = refl

bit_count-own :
    (s : ℕ) (n : ListNode) (ns : List ListNode)
    → get_or n.bits s false ≡ true
    → bit_count s (as_bucket (n ∷ ns)) ≡ suc (bit_count s (as_bucket ns))
unfolding bit_count KvBucket.has_bit
bit_count-own s n ns e = rw e refl

bit_count-other :
    (s : ℕ) (n : ListNode) (ns : List ListNode)
    → get_or n.bits s false ≡ false
    → bit_count s (as_bucket (n ∷ ns)) ≡ bit_count s (as_bucket ns)
unfolding bit_count KvBucket.has_bit
bit_count-other s n ns e = rw e refl

take_out-TakesOut :
    (s : ℕ) (ns : List ListNode) (vs own : List ℕ)
    → length vs ≡ length ns
    → bit_count s (as_bucket ns) ≡ length own
    → Returns (take_out s ns vs own) (TakesOut s ns vs own)
unfolding take_out KvTable.xor_source KvTable.xor_record has_bit KvBucket.has_bit
take_out-TakesOut s [] [] [] e c =
    (([], []), refl, record { same = refl; empty = refl; size = refl })
take_out-TakesOut s [] [] (x ∷ own) e c = absurd (omega (arith, bit_count-nil s))
take_out-TakesOut s [] (v ∷ vs) own e c = absurd (omega arith)
take_out-TakesOut s (n ∷ ns) [] own e c = absurd (omega arith)
take_out-TakesOut s (n ∷ ns) (v ∷ vs) [] e c = elim (Bool-cases (get_or n.bits s false)) [
  | inl b ↦ absurd (omega (arith, bit_count-own s n ns b))
  | inr b ↦
      let (r, run, t) =
        take_out-TakesOut s ns vs [] (omega arith) (omega (arith, bit_count-other s n ns b)) in
      (
        (v ∷ r.0, r.1),
        rw (b, take_out, run) refl,
        record {
          same = rw (b, KvTable.xor_source, t.same) refl;
          empty = t.empty;
          size = omega (arith, t.size);
        },
      )
]
take_out-TakesOut s (n ∷ ns) (v ∷ vs) (x ∷ own) e c = elim (Bool-cases (get_or n.bits s false)) [
  | inl b ↦
      let (r, run, t) =
        take_out-TakesOut s ns vs own (omega arith) (omega (arith, bit_count-own s n ns b)) in
      (
        ((v ⊕ x) ∷ r.0, r.1),
        rw (b, take_out, run) refl,
        record {
          same = rw (b, KvTable.xor_source, t.same) refl;
          empty = t.empty;
          size = omega (arith, t.size);
        },
      )
  | inr b ↦
      let (r, run, t) =
        take_out-TakesOut s ns vs (x ∷ own) (omega arith)
          (omega (arith, bit_count-other s n ns b)) in
      (
        (v ∷ r.0, r.1),
        rw (b, take_out, run) refl,
        record {
          same = rw (b, KvTable.xor_source, t.same) refl;
          empty = t.empty;
          size = omega (arith, t.size);
        },
      )
]

abbrev grouped_of : Others → Grouped
grouped_of [] = []
grouped_of ((j, values) ∷ rest) = (j, map as_record values ∷ []) ∷ grouped_of rest

-- The other sources as the map that `Recover` takes.
abbrev pub as_survivors : Others → Survivors
as_survivors [] = []
as_survivors ((j, values) ∷ rest) = (pos j, values) ∷ as_survivors rest

length-as_survivors : (others : Others) → length (as_survivors others) ≡ length others
length-as_survivors [] = refl
length-as_survivors (x ∷ others) = ap suc (length-as_survivors others)

module _ (f : FusedList) (m : ℕ) (fused : IsFusedList f) where
  bit_count-source : (s : ℕ) → bit_count s (as_bucket f.nodes) ≡ length (get_or f.sources s [])
  bit_count-source s =
      ap (bit_count s) fused.nodes
      ∙ bit_count-fuse s fused.slots
      ∙ ap length (fused.columns s)
      ∙ length-map as_record (get_or f.sources s [])

  take_out_all-eq :
      (others : Others) (vs : List ℕ)
      → AreOthers m f.sources others
      → length vs ≡ length f.nodes
      → Returns (take_out_all f (pos m) (as_survivors others) vs) λ ws.
        KvTable.xor_survivors (as_bucket f.nodes) 0 (grouped_of others) (map as_record vs)
        ≡ ok (map as_record ws)
  unfolding take_out_all KvTable.xor_survivors
  take_out_all-eq [] vs a e = (vs, refl, refl)
  take_out_all-eq ((j, values) ∷ rest) vs a e =
      let (r, run, t) =
        take_out-TakesOut j f.nodes vs values e (bit_count-source j ∙ ap length (sym a.2)) in
      let (ws, all, same) = take_out_all-eq rest r.0 a.3 t.size in
      (
        ws,
        rw (lt→not_leb (length f.sources) j a.0, not_== j m (λ q. a.1 (sym q)), run, t.empty) all,
        rw t.same same,
      )

  NotIn-grouped_of : (j : ℕ) (others : Others) → NotIn j others → NotIn j (grouped_of others)
  NotIn-grouped_of j [] d = tt
  NotIn-grouped_of j ((k, _) ∷ rest) d = (d.0, NotIn-grouped_of j rest d.1)

  Distinct-grouped_of : (others : Others) → Distinct others → Distinct (grouped_of others)
  Distinct-grouped_of [] d = tt
  Distinct-grouped_of ((k, _) ∷ rest) d =
      (NotIn-grouped_of k rest d.0, Distinct-grouped_of rest d.1)

  IsIn-grouped_of : (k : ℕ) (others : Others) → IsIn k others → IsIn k (grouped_of others)
  IsIn-grouped_of k [] i = i
  IsIn-grouped_of k ((j, _) ∷ rest) (inl e) = inl e
  IsIn-grouped_of k ((j, _) ∷ rest) (inr i) = inr (IsIn-grouped_of k rest i)

  missing-NotIn : (others : Others) → AreOthers m f.sources others → NotIn m (grouped_of others)
  missing-NotIn [] a = tt
  missing-NotIn ((j, _) ∷ rest) a = (a.1, missing-NotIn rest a.3)

  HoldsColumns-grouped_of :
      (others : Others)
      → AreOthers m f.sources others
      → HoldsColumns (length f.sources) 0 (records_of f.sources) (grouped_of others)
  HoldsColumns-grouped_of [] a = tt
  HoldsColumns-grouped_of ((j, values) ∷ rest) a =
      (a.0, ap (map as_record) a.2, HoldsColumns-grouped_of rest a.3)

  covered :
      (others : Others)
      → AllOthers m f.sources others
      → Covers (length f.sources) m 0 (records_of f.sources) (grouped_of others)
  covered others all = record {
    missing = all.missing;
    held = HoldsColumns-grouped_of others all.are;
    distinct = Distinct-grouped_of others all.distinct;
    without = missing-NotIn others all.are;
    all_others = λ k p ne. IsIn-grouped_of k others (all.all k p ne);
  }

values_of-as_bucket :
    (ns : List ListNode) → KvTable.values_of (as_bucket ns) ≡ map as_record (values_of ns)
unfolding values_of KvTable.values_of
values_of-as_bucket [] = refl
values_of-as_bucket (n ∷ ns) = ap (λ l. as_record n.value ∷ l) (values_of-as_bucket ns)

length-values_of : (ns : List ListNode) → length (values_of ns) ≡ length ns
unfolding values_of
length-values_of [] = refl
length-values_of (n ∷ ns) = ap suc (length-values_of ns)

pick-as_bucket :
    (m : ℕ) (ns : List ListNode) (vs : List ℕ)
    → KvTable.pick m (as_bucket ns) (map as_record vs) ≡ map as_record (pick m ns vs)
unfolding pick KvTable.pick has_bit KvBucket.has_bit
pick-as_bucket m [] vs = refl
pick-as_bucket m (n ∷ ns) [] = refl
pick-as_bucket m (n ∷ ns) (v ∷ vs) = elim (Bool-cases (get_or n.bits m false)) [
  | inl e ↦ rw e (ap (λ l. as_record v ∷ l) (pick-as_bucket m ns vs))
  | inr e ↦ rw e (pick-as_bucket m ns vs)
]

map-as_record_injective : (vs ws : List ℕ) → map as_record vs ≡ map as_record ws → vs ≡ ws
map-as_record_injective vs ws e = sym (back vs) ∙ ap (map value_of) e ∙ back ws
  where
    value_of : KvRecord → ℕ
    value_of r = r.value

    back : (us : List ℕ) → map value_of (map as_record us) ≡ us
    back [] = refl
    back (u ∷ us) = ap (λ l. u ∷ l) (back us)

-- For a list that fuses its sources, a source `m` of it, and a list, in any order, of the other
-- sources, each once and with its values: `Recover` succeeds and returns the values of `m` in their
-- order.
pub recover-IsFusedList :
    (f : FusedList) (m : ℕ) (others : Others)
    → IsFusedList f
    → AllOthers m f.sources others
    → length others + 1 ≡ length f.sources
    → recover f (pos m) (as_survivors others) ≡ ok (get_or f.sources m [])
unfolding recover
recover-IsFusedList f m others fused all size =
    let (ws, run, same) =
      take_out_all-eq f m fused others (values_of f.nodes) all.are (length-values_of f.nodes) in
    let picked = Returns-value (bucket-recovers (covered f m fused others all) fused) (
      ap (KvTable.xor_survivors (as_bucket f.nodes) 0 (grouped_of others))
        (values_of-as_bucket f.nodes)
      ∙ same) in
    rw
      (
        valid_source-lt f m all.missing,
        length-as_survivors others,
        enough (length others) (length f.sources) size,
        run,
        map-as_record_injective (pick m f.nodes ws) (get_or f.sources m [])
            (sym (pick-as_bucket m f.nodes ws) ∙ picked),
      )
      refl
  where
    enough : (k n : ℕ) → k + 1 ≡ n → (k == n - 1) ≡ true
    enough k n e = ground arith
