-- ===== src/Database/Stepping.antt =====
-- The logs stay those of the maps under every call, where no write is torn.
use mathlib.Core.Path.{subst}
use vada_db.Common.{
  ℕ, ◌+◌, ◌%◌, ◌^◌, ◌<◌, ◌≤◌, ◌≡◌, ◌⊎◌, refl, ap, sym, ◌∙◌, false, some, List, [], length, set,
  set-get_or, Bool-cases, Option-cases, arith, inl, inr,
}
use vada_db.KvMap.{KvMap, lookup}
use vada_db.KvTable.Fused.{at}
use vada_db.Wal.{put_op, delete_op}
use vada_db.Wal.Codec.{IsRecord}
use vada_db.Database.{Database, CommitOutcome, put, delete}
use vada_db.Database.Models.{shard, Models}
use vada_db.Database.Commits.{home, home-lt}
use vada_db.Database.Writes.{put-Follows, delete-Follows, logged}
use vada_db.Database.Refinement.{
  Command, put_command, delete_command, crash_command, recover_command, step, effect, put-failed,
  delete-failed, delete-absent, remove-absent,
}
use vada_db.Database.Committing.{IsWhole, IsClean}
use vada_db.Database.Keeping.{Logged, Logged-same, Logged-later}
use vada_db.Database.Recording.{commit-Logged}
use vada_db.Database.Unchanged.{
  crash_shard-SameLogs, recover_shard-SameLogs, put-SameLogs, delete-SameLogs,
}

-- The arguments fit their machine words, and what the file system makes of the writes is not torn.
abbrev pub IsSound : Command → Type 0
IsSound (put_command key value io) =
    (key < 2 ^ 64) × (value < 2 ^ 64) × IsWhole io.source_write × IsClean io.fusion_write
IsSound (delete_command key io) = (key < 2 ^ 64) × IsWhole io.source_write × IsClean io.fusion_write
IsSound (crash_command id) = Unit
IsSound (recover_command id) = Unit

module _ {d : Database} {maps : List KvMap} (models : Models d maps) {bound : ℕ}
    (l : Logged (length maps) bound d maps) (few : length maps ≤ 2 ^ 32)
    (low : bound + 1 < 2 ^ 64) where
  word_shard : (key : ℕ) → home models key % 2 ^ 32 ≡ home models key
  word_shard key = omega (arith, few, home-lt models key)

  logged-IsRecord :
      (key : ℕ) (io : CommitOutcome) (op value : ℕ)
      → (op ≡ 1) ⊎ (op ≡ 2)
      → key < 2 ^ 64
      → value < 2 ^ 64
      → IsRecord (logged models key io op value)
  logged-IsRecord key io op value o k v = record {
    op = o;
    sequence = omega (arith, l.keeps.bounded, low);
    shard = omega (arith, few, home-lt models key);
    key = k;
    value = v;
  }

  abbrev pub After : Command → Type 0
  After c = Logged (length maps) (bound + 1) (step c d).1 (effect c (step c d).0 maps)

  put-Logged :
      (key value : ℕ) (io : CommitOutcome)
      → IsSound (put_command key value io)
      → After (put_command key value io)
  put-Logged key value io s = elim (Bool-cases (shard d (home models key)).failed) [
    | inl e ↦ rw (put-failed models key value io e) (Logged-later l)
    | inr e ↦
        let same = put-SameLogs models key io value e in
        let returned = (put-Follows models key io value e).1 in
        elim (commit-Logged l models.count (home models key) (home-lt models key) low
          (logged models key io put_op value)
          (logged-IsRecord key io put_op value (inl refl) s.0 s.1) refl (word_shard key) refl io s.2
          s.3) [
            | inl (e', l') ↦
                subst
                  (λ x.
                    Logged (length maps) (bound + 1) (put key value io d).1
                      (effect (put_command key value io) x maps))
                  (sym (returned ∙ e')) (Logged-same same l')
            | inr (e', l') ↦
                subst
                  (λ x.
                    Logged (length maps) (bound + 1) (put key value io d).1
                      (effect (put_command key value io) x maps))
                  (sym (returned ∙ e')) (Logged-same same l')
          ]
  ]

  delete_found-Logged :
      (key : ℕ) (io : CommitOutcome) (old : ℕ)
      → IsSound (delete_command key io)
      → (shard d (home models key)).failed ≡ false
      → lookup (at maps (home models key)) key ≡ some old
      → After (delete_command key io)
  delete_found-Logged key io old s e present =
      let same = delete-SameLogs models key io old e present in
      let returned = (delete-Follows models key io old e present).1 in
      elim (commit-Logged l models.count (home models key) (home-lt models key) low
        (logged models key io delete_op 0)
        (logged-IsRecord key io delete_op 0 (inr refl) s.0 (omega arith)) refl (word_shard key) refl
        io s.1 s.2) [
          | inl (e', l') ↦
              subst
                (λ x.
                  Logged (length maps) (bound + 1) (delete key io d).1
                    (effect (delete_command key io) x maps))
                (sym (returned ∙ e')) (Logged-same same l')
          | inr (e', l') ↦
              subst
                (λ x.
                  Logged (length maps) (bound + 1) (delete key io d).1
                    (effect (delete_command key io) x maps))
                (sym (returned ∙ e')) (Logged-same same l')
        ]

  delete-Logged :
      (key : ℕ) (io : CommitOutcome)
      → IsSound (delete_command key io)
      → After (delete_command key io)
  delete-Logged key io s = elim (Bool-cases (shard d (home models key)).failed) [
    | inl e ↦ rw (delete-failed models key io e) (Logged-later l)
    | inr e ↦ elim (Option-cases (lookup (at maps (home models key)) key)) [
      | inl absent ↦ rw (delete-absent models key io e absent) (
          subst (Logged (length maps) (bound + 1) d)
            (sym (
              ap (set maps (home models key))
                (remove-absent models key (at maps (home models key)) absent)
              ∙ set-get_or maps (home models key) []))
            (Logged-later l))
      | inr (old, present) ↦ delete_found-Logged key io old s e present
    ]
  ]

  pub step-Logged : (c : Command) → IsSound c → After c
  step-Logged (put_command key value io) s = put-Logged key value io s
  step-Logged (delete_command key io) s = delete-Logged key io s
  step-Logged (crash_command id) s = Logged-same (crash_shard-SameLogs id d) (Logged-later l)
  step-Logged (recover_command id) s = Logged-same (recover_shard-SameLogs id d) (Logged-later l)
