-- ===== src/Raft/Merge.antt =====
-- The conflict resolution of `onAppendEntries` (src/raft/raft_core.cpp) against a description by
-- recursion on the two suffixes after `prevLogIndex`.
pub mod Laws
use raft_rsm.Prelude.{
  ℕ, zero, suc, ◌+◌, ◌-◌, ◌≤◌, ◌<◌, ◌≡◌, refl, sym, ap, ◌∙◌, inl, inr, Bool, true, false, Option,
  none, some, List, [], ◌∷◌, ◌++◌, arith, ◌==◌, if◌then◌else◌, length, take, drop, append_assoc,
  append-nil, length-append, get_elem?-append_length, take-append_length, length-drop, length-take,
  u64_mod, take-append-drop, Bool-cases, drop-all, add64, lt→ltb, ltb, le→ltb,
}
use raft_rsm.Rpc.Types.{LogEntry, LogIndex, AppendEntries}
use raft_rsm.Storage.Log.{Log, term_at, truncate_suffix_from}
use raft_rsm.Storage.Log.Terms.{truncate_eq}
use raft_rsm.Raft.State.{Core, append_log}
use raft_rsm.Raft.Follower.{Walk, walk, truncate_log, append_new, merge_entries}

-- What the log holds after the previous entry, merged with what the leader sent: equal terms keep
-- the old entry, the first difference takes all the new ones, and an exhausted message keeps the
-- rest of the old ones.
unfoldable pub merge_suffix : List LogEntry → List LogEntry → List LogEntry
merge_suffix old [] = old
merge_suffix [] (n ∷ new) = n ∷ new
merge_suffix (o ∷ old) (n ∷ new) = if o.term == n.term then o ∷ merge_suffix old new else n ∷ new

abbrev truncated : Log → Option LogIndex → Log
truncated log none = log
truncated log (some i) = truncate_suffix_from log i

walk-skipped : (log : Log) (prev i : ℕ) (es : List LogEntry) → i ≤ (walk log prev i es).skipped
unfolding walk
walk-skipped log prev i [] = omega arith
walk-skipped log prev i (e ∷ es) = ground (arith, walk-skipped log prev (suc i) es)

term_at-here :
    (pre old : List LogEntry) (o : LogEntry) (n : ℕ)
    → n ≡ length pre + 1
    → term_at (pre ++ o ∷ old) n ≡ o.term
unfolding term_at
term_at-here pre old o zero h = absurd (omega arith)
term_at-here pre old o (suc n) h =
    let e : n ≡ length pre = omega arith in rw (e, get_elem?-append_length pre old o)

truncate-here :
    (pre old : List LogEntry) (n : ℕ)
    → n ≡ length pre + 1
    → truncate_suffix_from (pre ++ old) n ≡ pre
truncate-here pre old n h =
    let e : n - 1 ≡ length pre = omega arith in
    rw (truncate_eq (pre ++ old) n, e, take-append_length pre old)

-- The index of the i-th entry, which does not wrap.
index_eq :
    (n prev i k : ℕ) → n ≡ prev + i → prev + i + k + 1 < u64_mod → add64 (add64 prev 1) i ≡ n + 1
index_eq n prev i k h b = omega arith

-- The walk from its i-th entry, where `pre` is the part of the log before it.
walk-merge :
    (pre old es : List LogEntry) (prev i : ℕ)
    → length pre ≡ prev + i
    → prev + i + length es + 1 < u64_mod
    → let w = walk (pre ++ old) prev i es in
      truncated (pre ++ old) w.truncate_at ++ drop (w.skipped - i) es ≡ pre ++ merge_suffix old es
unfolding walk merge_suffix
walk-merge pre old [] prev i h b = let same : i - i ≡ 0 = omega arith in rw (same, append-nil)
walk-merge pre [] (e ∷ es) prev i h b =
    let index : add64 (add64 prev 1) i ≡ length pre + 1 = index_eq _ prev i (suc (length es)) h b in
    let test : ltb (length (pre ++ [])) (length pre + 1) ≡ true =
      lt→ltb _ _ (omega (arith, length-append pre [])) in
    let same : i - i ≡ 0 = omega arith in rw (index, test, same, append-nil)
walk-merge pre (o ∷ old) (e ∷ es) prev i h b =
    let index : add64 (add64 prev 1) i ≡ length pre + 1 = index_eq _ prev i (suc (length es)) h b in
    let test : ltb (length (pre ++ o ∷ old)) (length pre + 1) ≡ false =
      le→ltb _ _ (omega (arith, length-append pre (o ∷ old))) in
    let here : term_at (pre ++ o ∷ old) (length pre + 1) ≡ o.term = term_at-here pre old o _ refl in
    rw (index, test, here)
      (elim (Bool-cases (o.term == e.term)) [
        | inl eq ↦
            let log = pre ++ o ∷ old in
            let skip : (walk log prev (suc i) es).skipped - i
                ≡ suc ((walk log prev (suc i) es).skipped - suc i) =
              omega (arith, walk-skipped log prev (suc i) es) in
            rw (eq, skip)
              (simp append_assoc at (
                walk-merge (pre ++ o ∷ []) old es prev (suc i)
                  (omega (arith, length-append pre (o ∷ []))) (omega arith)))
        | inr ne ↦
            let same : i - i ≡ 0 = omega arith in rw (ne, same, truncate-here pre (o ∷ old) _ refl)
      ])

log-truncate_log :
    {S : Type 0} (c : Core S) (i : Option LogIndex) → (truncate_log c i).log ≡ truncated c.log i
unfolding truncate_log
log-truncate_log c none = refl
log-truncate_log c (some i) = refl

log-append_new :
    {S : Type 0} (c : Core S) (es : List LogEntry) → (append_new c es).log ≡ c.log ++ es
unfolding append_new append_log
log-append_new c [] = sym (append-nil c.log)
log-append_new c (e ∷ es) = refl

-- The entries that a message carries fit behind its previous index.
abbrev pub InRange : Log → AppendEntries → Type 0
InRange log ae =
    (ae.prev_log_index ≤ length log) × (ae.prev_log_index + length ae.entries + 1 < u64_mod)

-- If the previous index lies in the log and the last index of the message is a 64-bit number, the
-- log after `mergeEntries` is the part up to the previous index, unchanged, and behind it the merge
-- of the two suffixes.
pub log-merge_entries :
    {S : Type 0} (c : Core S) (ae : AppendEntries)
    → InRange c.log ae
    → (merge_entries c ae).log
      ≡ take ae.prev_log_index c.log ++ merge_suffix (drop ae.prev_log_index c.log) ae.entries
unfolding merge_entries
log-merge_entries c ae h =
    let prev = ae.prev_log_index in
    let w = walk c.log prev 0 ae.entries in
    let whole = take-append-drop prev c.log in
    let same : w.skipped - 0 ≡ w.skipped = omega arith in
    log-append_new (truncate_log c w.truncate_at) (drop w.skipped ae.entries)
    ∙ rw log-truncate_log (
        rw (whole, same) at
          (walk-merge (take prev c.log) (drop prev c.log) ae.entries prev 0
            (omega (arith, length-take prev c.log)) (omega arith)))
