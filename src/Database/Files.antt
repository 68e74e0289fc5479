-- ===== src/Database/Files.antt =====
-- The files that `Open` reads, and the shards with their logs attached.
use mathlib.Core.Path.{subst}
use native.Mathlib.Nat.{add-zero}
use vada_db.Common.{
  ℕ, zero, suc, ◌+◌, ◌<◌, ◌≡◌, refl, ap, sym, ◌∙◌, false, none, some, List, [], ◌∷◌, map, length,
  get_or, arith,
}
use vada_db.Result.{ok}
use vada_db.KvMap.{KvMap, IsSorted}
use vada_db.KvTable.Fused.{at}
use vada_db.Wal.{WalRecord}
use vada_db.Database.{Shard, no_shard}
use vada_db.Database.Opening.{Directory, attach_logs}
use vada_db.Database.Redoing.{shards_of, id_step, IsSorted-replayed}
use vada_db.Database.Replaying.{log_of, replayed}

-- The directory with these logs and no snapshot.
abbrev pub directory : List (List WalRecord) → List WalRecord → Directory
directory histories commits = record {
  checkpoint = ok none;
  snapshots = [];
  logs = map log_of histories;
  fusion_log = log_of commits;
}

-- The maps that are committed.
abbrev pub committed_maps : List (List WalRecord) → List WalRecord → List KvMap
committed_maps histories commits = map (λ h. replayed commits h []) histories

abbrev pub logged_shard : ℕ → KvMap → List ℕ → Shard
logged_shard id m log = record { id = id; entries = m; wal = some log; failed = false }

pub get_or-attach_logs :
    (id : ℕ) (logs : List (List ℕ)) (ms : List KvMap) (i : ℕ)
    → length logs ≡ length ms
    → i < length ms
    → get_or (attach_logs logs (shards_of id ms)) i no_shard
      ≡ logged_shard (id + i) (get_or ms i []) (get_or logs i [])
unfolding attach_logs
get_or-attach_logs id logs [] i e h = absurd (omega arith)
get_or-attach_logs id [] (m ∷ ms) i e h = absurd (omega arith)
get_or-attach_logs id (log ∷ logs) (m ∷ ms) zero e h =
    ap (λ k. logged_shard k m log) (sym (add-zero id))
get_or-attach_logs id (log ∷ logs) (m ∷ ms) (suc i) e h =
    get_or-attach_logs (id + 1) logs ms i (omega arith) (omega arith)
    ∙ ap (λ k. logged_shard k (get_or ms i []) (get_or logs i [])) (id_step id i)

pub length-attach_logs :
    (logs : List (List ℕ)) (ss : List Shard) → length (attach_logs logs ss) ≡ length ss
unfolding attach_logs
length-attach_logs logs [] = refl
length-attach_logs [] (s ∷ ss) = refl
length-attach_logs (log ∷ logs) (s ∷ ss) = ap suc (length-attach_logs logs ss)

pub maps_of-shards_of : (id : ℕ) (ms : List KvMap) → map (λ s. s.entries) (shards_of id ms) ≡ ms
maps_of-shards_of id [] = refl
maps_of-shards_of id (m ∷ ms) = ap (λ l. m ∷ l) (maps_of-shards_of (id + 1) ms)

pub get_or-committed_maps :
    (hs : List (List WalRecord)) (commits : List WalRecord) (i : ℕ)
    → at (committed_maps hs commits) i ≡ replayed commits (get_or hs i []) []
get_or-committed_maps [] commits i = refl
get_or-committed_maps (h ∷ hs) commits zero = refl
get_or-committed_maps (h ∷ hs) commits (suc i) = get_or-committed_maps hs commits i

pub IsSorted-at :
    (commits : List WalRecord) (hs : List (List WalRecord)) (i : ℕ) (n : ℕ)
    → IsSorted (at (committed_maps hs commits) i)
IsSorted-at commits hs i n =
    subst IsSorted (sym (get_or-committed_maps hs commits i))
      (IsSorted-replayed n commits (get_or hs i []) [] tt)
