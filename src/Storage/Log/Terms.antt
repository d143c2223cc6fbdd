-- ===== src/Storage/Log/Terms.antt =====
-- Reads of the log after appends and truncations (src/storage/log.h).
use raft_rsm.Prelude.{
  zero, suc, ◌-◌, ◌≤◌, ◌<◌, ◌≡◌, refl, List, [], ◌∷◌, ◌++◌, arith, length, take, drop,
  get_elem?-take, get_elem?-append_left, get_elem?-none, take-all, drop-all,
}
use raft_rsm.Rpc.Types.{LogEntry, LogIndex}
use raft_rsm.Storage.Log.{Log, term_at, entries_from, truncate_suffix_from, last_term}

-- Truncation keeps exactly the entries before the index.
pub truncate_eq : (log : Log) (i : LogIndex) → truncate_suffix_from log i ≡ take (i - 1) log
unfolding truncate_suffix_from
truncate_eq log i = ground (arith, take-all (i - 1) log, take-all 0 log)

-- The entries from an index are what `drop` leaves.
pub entries_from_eq : (log : Log) (i : LogIndex) → entries_from log i ≡ drop (i - 1) log
unfolding entries_from
entries_from_eq log i = ground (arith, drop-all (i - 1) log, drop-all 0 log)

pub term_at_past : (log : Log) (i : LogIndex) → length log < i → term_at log i ≡ 0
unfolding term_at
term_at_past log zero h = absurd (omega arith)
term_at_past log (suc i) h = rw (get_elem?-none i log (omega arith))

-- A read before the truncation point is as before the truncation.
pub term_at-truncate :
    (log : Log) (i n : LogIndex) → i < n → term_at (truncate_suffix_from log n) i ≡ term_at log i
unfolding term_at
term_at-truncate log zero n h = refl
term_at-truncate log (suc i) n h =
    rw (truncate_eq log n, get_elem?-take i (n - 1) log (omega arith))

-- A read of the old part is as before an append.
pub term_at-append :
    (log : Log) (es : List LogEntry) (i : LogIndex)
    → i ≤ length log
    → term_at (log ++ es) i ≡ term_at log i
unfolding term_at
term_at-append log es zero h = refl
term_at-append log es (suc i) h = rw (get_elem?-append_left i log es (omega arith))

-- The last term is the term at the last index.
pub last_term_eq : (log : Log) → last_term log ≡ term_at log (length log)
unfolding last_term term_at
last_term_eq [] = refl
last_term_eq (e ∷ []) = refl
last_term_eq (e ∷ f ∷ log) = last_term_eq (f ∷ log)
