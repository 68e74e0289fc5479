-- ===== src/Database/Logging.antt =====
-- One commit more: what it adds to the logs, and what `Open` will make of them.
use mathlib.Core.Path.{subst}
use vada_db.Common.{
  ℕ, zero, suc, ◌<◌, ◌≤◌, ◌≡◌, ◌≢◌, ◌⊎◌, refl, sym, ◌∙◌, true, false, ◌||◌, none, some, List, [],
  ◌∷◌, ◌++◌, length, get_or, set, ◌==◌, ==_refl, Bool-cases, arith, inl, inr,
}
use vada_db.KvMap.{KvMap}
use vada_db.Wal.{WalRecord}
use vada_db.Database.Opening.{find_sequence, is_found}
use vada_db.Database.Replaying.{joined, replayed, AreSource, AreFresh, AreFound}

-- All records have numbers below `k`.
abbrev pub AllBelow : ℕ → List WalRecord → Type 0
AllBelow k [] = Unit
AllBelow k (r ∷ rs) = (r.sequence < k) × AllBelow k rs

pub AllBelow-le : (k j : ℕ) (rs : List WalRecord) → k ≤ j → AllBelow k rs → AllBelow j rs
AllBelow-le k j [] h a = tt
AllBelow-le k j (r ∷ rs) h a = (omega (arith, a.0), AllBelow-le k j rs h a.1)

pub AllBelow-snoc :
    (k : ℕ) (rs : List WalRecord) (r : WalRecord)
    → AllBelow k rs
    → r.sequence < k
    → AllBelow k (rs ++ r ∷ [])
AllBelow-snoc k [] r a h = (h, tt)
AllBelow-snoc k (x ∷ rs) r a h = (a.0, AllBelow-snoc k rs r a.1 h)

pub find-below : (k q : ℕ) (rs : List WalRecord) → AllBelow k rs → k ≤ q → find_sequence q rs ≡ none
unfolding find_sequence
find-below k q [] a h = refl
find-below k q (r ∷ rs) a h = ground (arith, a.0, find-below k q rs a.1 h)

find-snoc_ne :
    (q : ℕ) (rs : List WalRecord) (r : WalRecord)
    → (r.sequence == q) ≡ false
    → find_sequence q (rs ++ r ∷ []) ≡ find_sequence q rs
unfolding find_sequence
find-snoc_ne q [] r e = rw e refl
find-snoc_ne q (x ∷ rs) r e = elim (Bool-cases (x.sequence == q)) [
  | inl d ↦ rw d refl
  | inr d ↦ rw d (find-snoc_ne q rs r e)
]

pub find-snoc_new :
    (rs : List WalRecord) (r : WalRecord)
    → find_sequence r.sequence rs ≡ none
    → find_sequence r.sequence (rs ++ r ∷ []) ≡ some r
unfolding find_sequence
find-snoc_new [] r e = rw (==_refl r.sequence) refl
find-snoc_new (x ∷ rs) r e = elim (Bool-cases (x.sequence == r.sequence)) [
  | inl d ↦ absurd (some_none (sym (rw d refl) ∙ e))
  | inr d ↦ rw d (find-snoc_new rs r (sym (rw d refl) ∙ e))
]
  where
    some_none : some x ≢ none
    some_none h = cc

is_found-append :
    (q : ℕ) (xs ys : List WalRecord)
    → is_found (find_sequence q (xs ++ ys))
      ≡ (is_found (find_sequence q xs) || is_found (find_sequence q ys))
unfolding find_sequence
is_found-append q [] ys = refl
is_found-append q (x ∷ xs) ys = elim (Bool-cases (x.sequence == q)) [
  | inl d ↦ rw d refl
  | inr d ↦ rw d (is_found-append q xs ys)
]

-- A commit that is new changes nothing for older records.
module _ (commits : List WalRecord) (r : WalRecord) where
  find-commit :
      (x : WalRecord)
      → x.sequence < r.sequence
      → find_sequence x.sequence (commits ++ r ∷ []) ≡ find_sequence x.sequence commits
  find-commit x h = find-snoc_ne x.sequence commits r (ground arith)

  pub AreSource-commit :
      (n i : ℕ) (rs : List WalRecord)
      → AreSource n i commits rs
      → AllBelow r.sequence rs
      → AreSource n i (commits ++ r ∷ []) rs
  AreSource-commit n i [] a b = tt
  AreSource-commit n i (x ∷ rs) a b = (
    a.0,
    a.1,
    a.2,
    a.3,
    subst (λ o. (o ≡ none) ⊎ (o ≡ some x)) (sym (find-commit x b.0)) a.4,
    AreSource-commit n i rs a.5 b.1,
  )

  pub replayed-commit :
      (rs : List WalRecord) (m : KvMap)
      → AllBelow r.sequence rs
      → replayed (commits ++ r ∷ []) rs m ≡ replayed commits rs m
  replayed-commit [] m b = refl
  replayed-commit (x ∷ rs) m b = rw (find-commit x b.0) (replayed-commit rs _ b.1)

pub AreSource-snoc :
    (n i : ℕ) (commits rs : List WalRecord) (r : WalRecord)
    → AreSource n i commits rs
    → AreSource n i commits (r ∷ [])
    → AreSource n i commits (rs ++ r ∷ [])
AreSource-snoc n i commits [] r a b = b
AreSource-snoc n i commits (x ∷ rs) r a b =
    (a.0, a.1, a.2, a.3, a.4, AreSource-snoc n i commits rs r a.5 b)

pub replayed-snoc :
    (commits rs : List WalRecord) (r : WalRecord) (m : KvMap)
    → replayed commits (rs ++ r ∷ []) m ≡ replayed commits (r ∷ []) (replayed commits rs m)
replayed-snoc commits [] r m = refl
replayed-snoc commits (x ∷ rs) r m = replayed-snoc commits rs r _

pub AreFresh-snoc :
    (seen rs : List WalRecord) (r : WalRecord)
    → AreFresh seen rs
    → AllBelow r.sequence seen
    → AllBelow r.sequence rs
    → AreFresh seen (rs ++ r ∷ [])
AreFresh-snoc seen [] r a b c = (find-below r.sequence r.sequence seen b (omega arith), tt)
AreFresh-snoc seen (x ∷ rs) r a b c = (a.0, AreFresh-snoc (x ∷ seen) rs r a.1 (c.0, b) c.1)

pub AreFound-more :
    (sources more rs : List WalRecord)
    → ((q : ℕ) → is_found (find_sequence q sources) ≡ true → is_found (find_sequence q more) ≡ true)
    → AreFound sources rs
    → AreFound more rs
AreFound-more sources more [] h a = tt
AreFound-more sources more (x ∷ rs) h a = (h x.sequence a.0, AreFound-more sources more rs h a.1)

pub AreFound-snoc :
    (sources rs : List WalRecord) (r : WalRecord)
    → AreFound sources rs
    → is_found (find_sequence r.sequence sources) ≡ true
    → AreFound sources (rs ++ r ∷ [])
AreFound-snoc sources [] r a h = (h, tt)
AreFound-snoc sources (x ∷ rs) r a h = (a.0, AreFound-snoc sources rs r a.1 h)

-- The sources' records with one more in the log of shard `i`.
pub is_found-joined :
    (q i : ℕ) (hs : List (List WalRecord)) (r : WalRecord)
    → i < length hs
    → is_found (find_sequence q (joined (set hs i (get_or hs i [] ++ r ∷ []))))
      ≡ (is_found (find_sequence q (joined hs)) || r.sequence == q)
unfolding find_sequence
is_found-joined q i [] r h = absurd (omega arith)
is_found-joined q zero (x ∷ hs) r h =
    rw
      (
        is_found-append q (x ++ r ∷ []) (joined hs),
        is_found-append q x (r ∷ []),
        is_found-append q x (joined hs),
      )
      (ground arith)
is_found-joined q (suc i) (x ∷ hs) r h =
    rw
      (
        is_found-append q x (joined (set hs i (get_or hs i [] ++ r ∷ []))),
        is_found-append q x (joined hs),
        is_found-joined q i hs r (omega arith),
      )
      (ground arith)
