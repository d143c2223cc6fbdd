-- ===== src/Storage/Log.antt =====
-- src/storage/log.h: the log's indexing convention and `InMemoryLog`. Indices are 1-based; index 0
-- is the sentinel of the empty log. A log is the vector `entries_`.
pub mod Terms
use raft_rsm.Prelude.{
  ℕ, zero, suc, ◌-◌, Option, none, some, List, [], ◌∷◌, ◌++◌, leb, ltb, if◌then◌else◌, length,
  get_elem?, take, drop,
}
use raft_rsm.Rpc.Types.{LogEntry, LogIndex, Term}

abbrev pub Log : Type 0
Log = List LogEntry

-- `append`: at `lastIndex() + 1` onward.
abbrev pub append : Log → List LogEntry → Log
append log entries = log ++ entries

abbrev pub last_index : Log → LogIndex
last_index log = length log

abbrev pub term_or_zero : Option LogEntry → Term
term_or_zero none = 0
term_or_zero (some e) = e.term

-- `termAt`, as a release build runs it: 0 at index 0 and past the end.
unfoldable pub term_at : Log → LogIndex → Term
term_at log zero = 0
term_at log (suc i) = term_or_zero (get_elem? log i)

-- `entryAt`; a read outside 1 .. lastIndex() is undefined in the source, `none` here.
unfoldable pub entry_at : Log → LogIndex → Option LogEntry
entry_at log zero = none
entry_at log (suc i) = get_elem? log i

-- `entriesFrom` and `entriesSpan`: all entries from index i, an index 0 counting as 1.
unfoldable pub entries_from : Log → LogIndex → List LogEntry
entries_from log i =
    let i' = if ltb i 1 then 1 else i in if ltb (length log) i' then [] else drop (i' - 1) log

-- `truncateSuffixFrom`: deletes the entries from index i on.
unfoldable pub truncate_suffix_from : Log → LogIndex → Log
truncate_suffix_from log i =
    let i' = if ltb i 1 then 1 else i in if ltb (length log) i' then log else take (i' - 1) log

-- `lastTerm`: 0 for the empty log, else the term of the last entry.
unfoldable pub last_term : Log → Term
last_term [] = 0
last_term (e ∷ []) = e.term
last_term (e ∷ f ∷ log) = last_term (f ∷ log)
