-- ===== src/Raft/Follower.antt =====
-- src/raft/raft_core.cpp: `onAppendEntries`, the receiver of the leader's entries.
use raft_rsm.Prelude.{
  ℕ, zero, suc, min, Bool, true, false, not, ◌&&◌, Option, none, some, List, [], ◌∷◌, ltb, ◌==◌,
  if◌then◌else◌, length, drop, add64,
}
use raft_rsm.Rpc.Types.{LogEntry, LogIndex, NodeId, Term, AppendEntries, append_entries_reply}
use raft_rsm.Storage.Log.{Log, last_index, term_at, truncate_suffix_from}
use raft_rsm.Raft.State.{
  Host, Core, leader_discovered, log_truncate, send, emit, append_log, is_leader, is_candidate,
}
use raft_rsm.Raft.Apply.{apply_committed}
use raft_rsm.Raft.Roles.{reset_election_timer, become_follower}

-- `while (first > 1 && termAt(first - 1) == conflictTerm) --first;`
unfoldable pub first_of_term : Log → Term → LogIndex → LogIndex
first_of_term log t zero = 0
first_of_term log t (suc n) =
    let below = first_of_term log t n in
    if ltb 1 (suc n) && (term_at log n == t) then below else suc n

-- Where the walk over the incoming entries stopped: how many entries the log holds already, and the
-- index from which it is truncated, if an entry conflicts.
pub record Walk : Type 0 where
  pub skipped : ℕ
  pub truncate_at : Option LogIndex

unfoldable pub walk : Log → LogIndex → ℕ → List LogEntry → Walk
walk log prev i [] = record { skipped = i; truncate_at = none }
walk log prev i (e ∷ es) =
    let index = add64 (add64 prev 1) i in
    let rest = walk log prev (suc i) es in
    if ltb (last_index log) index
    then record { skipped = i; truncate_at = none }
    else if not (term_at log index == e.term)
    then record { skipped = i; truncate_at = some index }
    else rest

-- The index that a success reply acknowledges.
abbrev pub confirmed_through : AppendEntries → LogIndex
confirmed_through ae = add64 ae.prev_log_index (length ae.entries)

module _ {S : Type 0} where
  unfoldable pub reply : Core S → NodeId → Bool → LogIndex → Term → Core S
  reply c from success index term = emit c (
      send from (
        append_entries_reply (record {
          term = c.current_term;
          success = success;
          conflict_index = index;
          conflict_term = term;
        })))

  -- The hint of a term mismatch: the conflicting term and its first index.
  unfoldable pub reply_conflict : Core S → NodeId → Term → LogIndex → Core S
  reply_conflict c from conflict_term prev =
      reply c from false (first_of_term c.log conflict_term prev) conflict_term

  unfoldable pub truncate_log : Core S → Option LogIndex → Core S
  truncate_log c none = c
  truncate_log c (some i) = record (emit c (log_truncate i)) { log = truncate_suffix_from c.log i }

  -- `if (i < ae.entries.size())`: the new suffix is appended in one call.
  unfoldable pub append_new : Core S → List LogEntry → Core S
  append_new c [] = c
  append_new c (e ∷ es) = append_log c (e ∷ es)

  -- The conflict resolution: truncate at the first conflict, append what is new.
  unfoldable pub merge_entries : Core S → AppendEntries → Core S
  merge_entries c ae =
      let w = walk c.log ae.prev_log_index 0 ae.entries in
      append_new (truncate_log c w.truncate_at) (drop w.skipped ae.entries)

module _ {S : Type 0} (host : Host S) where
  -- The follower's commit, capped at the last index that the message vouches for.
  unfoldable pub follow_commit : Core S → AppendEntries → Core S
  follow_commit c ae =
      if ltb c.commit_index ae.leader_commit
      then apply_committed host
          (record c { commit_index = min ae.leader_commit (confirmed_through ae) })
      else c

  -- The sender is the leader of the term: a candidate gives way, and the election timer is armed.
  unfoldable pub recognise : Core S → AppendEntries → Core S
  recognise c ae =
      let c' = record c { leader_id = some ae.leader_id } in
      reset_election_timer host (
        if is_candidate c.role
        then become_follower host c' c.current_term leader_discovered
        else c')

  -- From the consistency check on.
  unfoldable pub check_and_merge : Core S → NodeId → AppendEntries → Core S
  check_and_merge c from ae =
      if ltb (last_index c.log) ae.prev_log_index
      then reply c from false (add64 (last_index c.log) 1) 0
      else if not (term_at c.log ae.prev_log_index == ae.prev_log_term)
      then reply_conflict c from (term_at c.log ae.prev_log_index) ae.prev_log_index
      else reply (follow_commit (merge_entries c ae) ae) from true (confirmed_through ae) 0

  unfoldable pub on_append_entries : Core S → NodeId → AppendEntries → Core S
  on_append_entries c from ae =
      if ltb ae.term c.current_term
      then reply c from false 0 0
      else if is_leader c.role
      then c
      else check_and_merge (recognise c ae) from ae
