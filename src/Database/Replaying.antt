-- ===== src/Database/Replaying.antt =====
-- What `Open` reads from the logs: the sources' records in order, and which of them are committed.
use mathlib.Core.Path.{subst}
use native.Mathlib.Nat.{add-zero}
use vada_db.Common.{
  ℕ, suc, ◌+◌, ◌%◌, ◌<◌, ◌≡◌, ◌⊎◌, refl, ap, sym, ◌∙◌, true, none, some, List, [], ◌∷◌, ◌++◌, map,
  length, get_or, ltb, ◌==◌, ==_refl, if◌then◌else◌, Bool-cases, arith, inl, inr,
}
use vada_db.Result.{ok, Returns}
use vada_db.KvMap
use vada_db.KvMap.{KvMap}
use vada_db.Wal.{WalRecord, put_op}
use vada_db.Wal.Codec.{IsRecord}
use vada_db.Wal.Replay.{AllRecords, log_then, replay-log_bytes}
use vada_db.Database.{Database, route}
use vada_db.Database.Opening.{
  find_sequence, is_found, check_source, read_sources, check_commits, check_seen, same_record,
  next_after,
}

-- A log of whole records.
abbrev pub log_of : List WalRecord → List ℕ
log_of rs = log_then rs []

abbrev pub joined : List (List WalRecord) → List WalRecord
joined [] = []
joined (h ∷ hs) = h ++ joined hs

-- What a record does to its shard's map.
abbrev pub applied : WalRecord → KvMap → KvMap
applied r m = if r.op == put_op then KvMap.put r.key r.value m else KvMap.remove r.key m

-- The records that are committed, one after the other.
abbrev pub replayed : List WalRecord → List WalRecord → KvMap → KvMap
replayed commits [] m = m
replayed commits (r ∷ rs) m =
    replayed commits rs (if is_found (find_sequence r.sequence commits) then applied r m else m)

-- The log of shard `id` of `n`: its records are of this shard, with numbers above 0, and if one has the
-- number of a commit, it is that commit.
abbrev pub AreSource : ℕ → ℕ → List WalRecord → List WalRecord → Type 0
AreSource n id commits [] = Unit
AreSource n id commits (r ∷ rs) =
    IsRecord r
    × (r.shard ≡ id)
    × (r.key % n ≡ id)
    × (0 < r.sequence)
    × ((find_sequence r.sequence commits ≡ none) ⊎ (find_sequence r.sequence commits ≡ some r))
    × AreSource n id commits rs

-- No record has the number of one before it.
abbrev pub AreFresh : List WalRecord → List WalRecord → Type 0
AreFresh seen [] = Unit
AreFresh seen (r ∷ rs) = (find_sequence r.sequence seen ≡ none) × AreFresh (r ∷ seen) rs

abbrev pub AreFound : List WalRecord → List WalRecord → Type 0
AreFound sources [] = Unit
AreFound sources (r ∷ rs) =
    (is_found (find_sequence r.sequence sources) ≡ true) × AreFound sources rs

-- The logs of `n` shards and the log of the fusion.
pub record AreLogs (n : ℕ) (histories : List (List WalRecord)) (commits : List WalRecord)
    : Type 0 where
  pub size : length histories ≡ n
  pub sources : (i : ℕ) → i < n → AreSource n i commits (get_or histories i [])
  pub records : AllRecords commits
  pub fresh : AreFresh [] commits
  pub found : AreFound (joined histories) commits

AllRecords-AreSource :
    (n id : ℕ) (commits rs : List WalRecord) → AreSource n id commits rs → AllRecords rs
AllRecords-AreSource n id commits [] a = tt
AllRecords-AreSource n id commits (r ∷ rs) a = (a.0, AllRecords-AreSource n id commits rs a.5)

-- The number after the highest of these records, or `next`.
abbrev pub next_all : List WalRecord → ℕ → ℕ
next_all [] next = next
next_all (r ∷ rs) next = next_all rs (next_after r.sequence next)

next_all-append :
    (rs ts : List WalRecord) (next : ℕ) → next_all (rs ++ ts) next ≡ next_all ts (next_all rs next)
next_all-append [] ts next = refl
next_all-append (r ∷ rs) ts next = next_all-append rs ts (next_after r.sequence next)

check_source-AreSource :
    (d : Database) (n id : ℕ) (commits rs : List WalRecord) (next : ℕ)
    → length d.shards ≡ n
    → AreSource n id commits rs
    → check_source d id rs next ≡ ok (next_all rs next)
unfolding check_source route
check_source-AreSource d n id commits [] next e a = refl
check_source-AreSource d n id commits (r ∷ rs) next e a =
    rw (e, a.1, a.2, ==_refl id)
      (check_source-AreSource d n id commits rs (next_after r.sequence next) e a.5)

-- `Open` reads all the sources' records, those of each shard in order.
pub read_sources-joined :
    (d : Database) (n id : ℕ) (commits : List WalRecord) (hs : List (List WalRecord)) (next : ℕ)
    → length d.shards ≡ n
    → ((i : ℕ) → i < length hs → AreSource n (id + i) commits (get_or hs i []))
    → Returns
        (read_sources d id (map log_of hs) next)
        λ r. (r.0 ≡ joined hs) × (r.1 ≡ next_all (joined hs) next)
unfolding read_sources
read_sources-joined d n id commits [] next e a = (([], next), refl, (refl, refl))
read_sources-joined d n id commits (h ∷ hs) next e a =
    let here : AreSource n id commits h =
      subst (λ k. AreSource n k commits h) (add-zero id) (a 0 (omega arith)) in
    let run : check_source d id h next ≡ ok (next_all h next) =
      check_source-AreSource d n id commits h next e here in
    let (rest, run', same) = read_sources-joined d n (id + 1) commits hs (next_all h next) e (λ i p.
      subst (λ k. AreSource n k commits (get_or hs i [])) {x = id + suc i} {y = id + 1 + i}
        (omega arith) (a (suc i) (omega arith))) in
    (
      (h ++ rest.0, rest.1),
      rw (replay-log_bytes h (AllRecords-AreSource n id commits h here), run, run') refl,
      (ap (λ l. h ++ l) same.0, same.1 ∙ sym (next_all-append h (joined hs) next)),
    )

pub check_commits-AreFresh :
    (seen rs : List WalRecord) (next : ℕ)
    → AreFresh seen rs
    → check_commits seen rs next ≡ ok (next_all rs next)
unfolding check_commits
check_commits-AreFresh seen [] next a = refl
check_commits-AreFresh seen (r ∷ rs) next a =
    rw a.0 (check_commits-AreFresh (r ∷ seen) rs (next_after r.sequence next) a.1)

pub check_seen-AreFound :
    (sources rs : List WalRecord) → AreFound sources rs → check_seen 0 sources rs ≡ ok tt
unfolding check_seen
check_seen-AreFound sources [] a = refl
check_seen-AreFound sources (r ∷ rs) a = rw a.0 (elim (Bool-cases (ltb 0 r.sequence)) [
  | inl e ↦ rw e (check_seen-AreFound sources rs a.1)
  | inr e ↦ rw e (check_seen-AreFound sources rs a.1)
])

pub same_record_refl : (r : WalRecord) → same_record r r ≡ true
unfolding same_record
same_record_refl r =
    rw (==_refl r.op, ==_refl r.sequence, ==_refl r.shard, ==_refl r.key, ==_refl r.value) refl
