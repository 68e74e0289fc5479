-- ===== src/FusedQueue/Recovery.antt =====
-- The fused queue gives a missing queue back from the others.
use mathlib.Core.Path.{subst}
use vada_db.Common.{
  ℕ, ◌+◌, ◌<◌, ◌≡◌, refl, ap, sym, ◌∙◌, List, [], ◌∷◌, length, get_or, not_==, ==_refl, lt→not_leb,
  arith, inl, inr,
}
use vada_db.Common.Int.{pos}
use vada_db.Result.{ok, Returns}
use vada_db.KvTable.Survivors.{NotIn, Distinct, IsIn}
use vada_db.CoreXor.Slices.{Others, AreOthers, AllOthers, xor_of_others, xor_of_others-single}
use vada_db.CoreXor.Fusion.{value_at}
use vada_db.FusedStack.Recovery.{as_survivors, length-as_survivors, enough}
use vada_db.FusedQueue.{FusedQueue, scatter, gather, take_out, recover}
use vada_db.FusedQueue.Slots.{Holds, scatter-Holds, length-scatter, gather-Holds}
use vada_db.FusedQueue.Invariant.{FusesQueues, valid_source-lt}

module _ (f : FusedQueue) (queues : List (List ℕ)) (h : FusesQueues f queues) (m : ℕ) where
  -- The rows of the other queues.
  abbrev rows_of : Others → Others
  rows_of [] = []
  rows_of ((j, _) ∷ rest) = (j, get_or f.sources j []) ∷ rows_of rest

  AreOthers-rows_of :
      (others : Others) → AreOthers m queues others → AreOthers m f.sources (rows_of others)
  AreOthers-rows_of [] a = tt
  AreOthers-rows_of ((j, _) ∷ rest) a =
      (omega (arith, a.0, h.size), a.1, refl, AreOthers-rows_of rest a.3)

  NotIn-rows_of : (j : ℕ) (others : Others) → NotIn j others → NotIn j (rows_of others)
  NotIn-rows_of j [] d = tt
  NotIn-rows_of j ((k, _) ∷ rest) d = (d.0, NotIn-rows_of j rest d.1)

  Distinct-rows_of : (others : Others) → Distinct others → Distinct (rows_of others)
  Distinct-rows_of [] d = tt
  Distinct-rows_of ((k, _) ∷ rest) d = (NotIn-rows_of k rest d.0, Distinct-rows_of rest d.1)

  IsIn-rows_of : (k : ℕ) (others : Others) → IsIn k others → IsIn k (rows_of others)
  IsIn-rows_of k [] i = i
  IsIn-rows_of k ((j, _) ∷ rest) (inl e) = inl e
  IsIn-rows_of k ((j, _) ∷ rest) (inr i) = inr (IsIn-rows_of k rest i)

  AllOthers-rows_of :
      (others : Others) → AllOthers m queues others → AllOthers m f.sources (rows_of others)
  AllOthers-rows_of others all = record {
    missing = omega (arith, all.missing, h.size);
    are = AreOthers-rows_of others all.are;
    distinct = Distinct-rows_of others all.distinct;
    all = λ k p ne. IsIn-rows_of k others (all.all k (omega (arith, h.size)) ne);
  }

  take_out-eq :
      (physical : List ℕ) (others : Others)
      → AreOthers m queues others
      → length physical ≡ length f.fusion
      → Returns (take_out f (pos m) physical (as_survivors others)) λ r.
        (length r ≡ length f.fusion)
        × ((i : ℕ)
            → i < length f.fusion
            → value_at i r ≡ xor_of_others (value_at i) refl (value_at i physical) (rows_of others))
  unfolding take_out
  take_out-eq physical [] a e = (physical, refl, (e, λ i p. refl))
  take_out-eq physical ((j, values) ∷ rest) a e =
      let hj : j < length f.sources = omega (arith, a.0, h.size) in
      let n : ℕ = length physical in
      let head : ℕ = get_or f.heads j 0 in
      let k =
        subst (λ c. Holds c head (get_or f.sources j []) (get_or queues j [])) (sym e)
          (h.rows j hj) in
      let next : List ℕ = scatter n head 0 values physical in
      let (r, run, kept) =
        take_out-eq next rest a.3 (length-scatter n head 0 values physical ∙ e) in
      (
        r,
        rw
            (
              lt→not_leb (length f.sources) j hj,
              not_== j m (λ q. a.1 (sym q)),
              a.2,
              h.count_at j hj,
              ==_refl (length (get_or queues j [])),
              sym a.2,
            )
            run,
        (
          kept.0,
          λ i p.
              kept.1 i p
              ∙ ap (λ t. xor_of_others (value_at i) refl t (rows_of rest))
                  (ap (λ q. value_at i (scatter n head 0 q physical)) a.2
                    ∙ scatter-Holds n head (get_or f.sources j []) (get_or queues j []) physical i k
                        refl (omega (arith, e))),
        ),
      )

  row_back :
      (r row queue : List ℕ) (head count : ℕ)
      → Holds (length f.fusion) head row queue
      → length r ≡ length f.fusion
      → ((i : ℕ) → i < length f.fusion → value_at i r ≡ value_at i row)
      → count ≡ length queue
      → gather (length r) head 0 count r ≡ queue
  row_back r row queue head count k e same c =
      ap (λ n. gather n head 0 count r) e
      ∙ gather-Holds (length f.fusion) head count r queue
          (record {
            slots = λ i p. same i p ∙ k.slots i p;
            width = e;
            head_in = k.head_in;
            room = k.room;
          })
          c

-- For queues that are fused, one of them, and a list, in any order, of all the others: `Recover`
-- succeeds and returns the queue, wherever in its slots each of them begins.
pub recover-FusesQueues :
    (f : FusedQueue) (queues : List (List ℕ)) (m : ℕ) (others : Others)
    → FusesQueues f queues
    → AllOthers m queues others
    → length others + 1 ≡ length queues
    → recover f (pos m) (as_survivors others) ≡ ok (get_or queues m [])
unfolding recover
recover-FusesQueues f queues m others h all size =
    let hm : m < length f.sources = omega (arith, all.missing, h.size) in
    let (r, run, kept) = take_out-eq f queues h m f.fusion others all.are refl in
    let back =
      row_back f queues h m r (get_or f.sources m []) (get_or queues m []) (get_or f.heads m 0)
        (get_or f.counts m 0) (h.rows m hm) kept.0
        (λ i p.
          kept.1 i p
          ∙ ap (λ t. xor_of_others (value_at i) refl t (rows_of f queues h m others)) (h.slots i p)
          ∙ xor_of_others-single (value_at i) refl m f.sources (rows_of f queues h m others)
              (AllOthers-rows_of f queues h m others all))
        (h.count_at m hm) in
    rw
      (
        valid_source-lt f m hm,
        length-as_survivors others,
        enough (length others) (length f.sources) (omega (arith, size, h.size)),
        run,
        back,
      )
      refl
