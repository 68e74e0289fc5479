-- ===== src/Tests/Tables.antt =====
-- The fused tables of the databases in Tests/Databases: an insertion, a replacement, a deletion and a
-- recovery.
use vada_db.Common.{
  ℕ, zero, suc, set, ◌≢◌, inl, inr, ◌%◌, ◌<◌, ◌≡◌, refl, none, [], ◌∷◌, replicate, arith,
}
use vada_db.Common.Int.{pos}
use vada_db.Result.{ok, Returns}
use vada_db.KvMap
use vada_db.KvMap.{KvMap}
use vada_db.KvTable
use vada_db.KvTable.Fused.{at, column_of, Fuses}
use vada_db.KvTable.Update.{insert-Fuses, replace-Fuses, delete-Fuses}
use vada_db.KvTable.Group.{as_survivors}
use vada_db.KvTable.Recovery.{recover-Fuses}
use vada_db.KvMap.Column.{rank}
use vada_db.KvTable.Survivors.{IsIn}
use vada_db.Tests.Databases.{
  three_shards, three_shards-Models, after_crash, maps_after, after_crash-Models, five_present,
}

others-IsIn : (k : ℕ) → k < 3 → 2 ≢ k → IsIn k ((1, at maps_after 1) ∷ (0, at maps_after 0) ∷ [])
others-IsIn zero h ne = inr (inl refl)
others-IsIn (suc zero) h ne = inl refl
others-IsIn (suc (suc zero)) h ne = absurd (ne refl)
others-IsIn (suc (suc (suc k))) h ne = absurd (omega arith)

-- The survivors in the order 1, 0.
recover-Fuses_example :
    KvTable.recover after_crash.fusion
      (pos 2)
      (as_survivors ((1, at maps_after 1) ∷ (0, at maps_after 0) ∷ []))
    ≡ ok (at maps_after 2)
recover-Fuses_example =
    let f = after_crash-Models.fused in
    recover-Fuses f 2 ((1, at maps_after 1) ∷ (0, at maps_after 0) ∷ []) (omega (arith, f.sources))
      (
        omega (arith, f.sources),
        (λ e. omega (arith, e)),
        refl,
        (omega (arith, f.sources), (λ e. omega (arith, e)), refl, tt),
      )
      (((λ e. omega (arith, e)), tt), (tt, tt))
      (λ k h ne. others-IsIn k (omega (arith, f.sources)) ne) f.sources

seven_absent : KvMap.lookup [] 7 ≡ none
unfolding KvMap.lookup
seven_absent = refl

insert-Fuses_example :
    Returns
      (KvTable.insert three_shards.fusion
        (pos 1)
        (pos (rank (column_of 16 (7 % 16) (at (replicate 3 []) 1)) 7))
        7
        9)
      λ t. Fuses 16 t (set (replicate 3 []) 1 (KvMap.put 7 9 (at (replicate 3 []) 1)))
insert-Fuses_example = insert-Fuses three_shards-Models.fused 1 7 (omega arith) 9 seven_absent

replace-Fuses_example :
    Returns
      (KvTable.replace after_crash.fusion
        (pos 2)
        (pos (rank (column_of 16 (5 % 16) (at maps_after 2)) 5))
        5
        70
        71)
      λ t. Fuses 16 t (set maps_after 2 (KvMap.put 5 71 (at maps_after 2)))
replace-Fuses_example =
    replace-Fuses after_crash-Models.fused 2 5 (omega (arith, after_crash-Models.fused.sources)) 70
      five_present 71

delete-Fuses_example :
    Returns
      (KvTable.delete after_crash.fusion
        (pos 2)
        (pos (rank (column_of 16 (5 % 16) (at maps_after 2)) 5))
        5
        70)
      λ t. Fuses 16 t (set maps_after 2 (KvMap.remove 5 (at maps_after 2)))
delete-Fuses_example =
    delete-Fuses after_crash-Models.fused 2 5 (omega (arith, after_crash-Models.fused.sources)) 70
      five_present
