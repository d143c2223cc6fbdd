-- ===== src/Raft/Leader.antt =====
-- src/raft/raft_core.cpp, the leader's side: `sendAppendEntries`, `sendHeartbeats`,
-- `becomeLeader`, `advanceCommit`, `propose`, `proposeBatch`, `onAppendEntriesReply`.
use raft_rsm.Prelude.{
  ℕ, zero, suc, ◌+◌, min, max, Bool, true, false, not, ◌||◌, Option, none, some, List, [], ◌∷◌, map,
  ltb, leb, ◌==◌, if◌then◌else◌, length, add64, sub64,
}
use raft_rsm.Rpc.Types.{
  Bytes, LogEntry, LogIndex, NodeId, Term, AppendEntries, AppendEntriesReply, append_entries,
}
use raft_rsm.Storage.Log.{Log, last_index, term_at, entries_from}
use raft_rsm.Raft.State.{
  Host, Core, leader, won_election, at, never, send, transition, emit, majority, IndexMap, get, put,
  touch, append_log, is_leader,
}
use raft_rsm.Raft.Apply.{apply_committed}

-- The number of replicas that hold index n, the leader's own log aside.
unfoldable pub matching : IndexMap → LogIndex → ℕ
matching [] n = 0
matching ((peer, m) ∷ rest) n = (if leb n m then 1 else 0) + matching rest n

-- The scan of `advanceCommit` from index n down: the first index of the current term that a quorum
-- holds, unless the commit index or an entry of another term comes first.
unfoldable pub commit_target : Term → LogIndex → Log → IndexMap → ℕ → LogIndex → Option LogIndex
commit_target cur commit log matches quorum zero = none
commit_target cur commit log matches quorum (suc n) =
    let below = commit_target cur commit log matches quorum n in
    if leb (suc n) commit
    then none
    else if not (term_at log (suc n) == cur)
    then none
    else if leb quorum (1 + matching matches (suc n))
    then some (suc n)
    else below

-- The scan of `onAppendEntriesReply`: the last index up to n whose entry has term t, 0 if none has.
unfoldable pub last_of_term : Log → Term → LogIndex → LogIndex
last_of_term log t zero = 0
last_of_term log t (suc n) =
    let below = last_of_term log t n in if term_at log (suc n) == t then suc n else below

abbrev pub is_empty : List Bytes → Bool
is_empty [] = true
is_empty (x ∷ xs) = false

-- The entries that a leader of term t stages for its commands.
abbrev pub stamp : Term → List Bytes → List LogEntry
stamp t = map (λ command. record { term = t; command = command })

-- `nextIndex_` and `matchIndex_` of a new leader: one value for each peer.
unfoldable pub init_indices : LogIndex → List NodeId → IndexMap → IndexMap
init_indices v [] m = m
init_indices v (peer ∷ rest) m = init_indices v rest (put m peer v)

module _ {S : Type 0} where
  -- The message of `sendAppendEntries`.
  unfoldable pub append_entries_for : Core S → NodeId → AppendEntries
  append_entries_for c peer =
      let next = get c.next_index peer in
      record {
        term = c.current_term;
        leader_id = c.self;
        prev_log_index = sub64 next 1;
        prev_log_term = term_at c.log (sub64 next 1);
        leader_commit = c.commit_index;
        entries = entries_from c.log next;
      }

  unfoldable pub send_append_entries : Core S → NodeId → Core S
  send_append_entries c peer =
      emit (record c { next_index = touch c.next_index peer })
        (send peer (append_entries (append_entries_for c peer)))

  -- `for (const NodeId peer : peers_) sendAppendEntries(peer);`
  unfoldable pub send_all : Core S → List NodeId → Core S
  send_all c [] = c
  send_all c (peer ∷ rest) = send_all (send_append_entries c peer) rest

  unfoldable pub send_heartbeats : Core S → Core S
  send_heartbeats c = record (send_all c c.peers) {
    heartbeat_deadline = at (c.now + c.cfg.heartbeat_interval);
  }

  -- `becomeLeader` up to its heartbeats.
  unfoldable pub take_lead : Core S → Core S
  take_lead c =
      let c' = record c {
        role = leader;
        leader_id = some c.self;
        next_index = init_indices (add64 (last_index c.log) 1) c.peers [];
        match_index = init_indices 0 c.peers [];
        election_deadline = never;
      } in
      emit c' (transition c'.current_term leader won_election)

  unfoldable pub become_leader : Core S → Core S
  become_leader c = send_heartbeats (take_lead c)

  -- `matchIndex_[from] = ack; nextIndex_[from] = ack + 1;`
  unfoldable pub record_ack : Core S → NodeId → LogIndex → Core S
  record_ack c from ack = record c {
    match_index = put c.match_index from ack;
    next_index = put c.next_index from (add64 ack 1);
  }

  -- The next entries follow at once if the peer's window has not reached the end of the log.
  unfoldable pub catch_up : Core S → NodeId → Core S
  catch_up c from =
      if leb (get c.next_index from) (last_index c.log) then send_append_entries c from else c

module _ {S : Type 0} (host : Host S) where
  unfoldable pub advance_commit : Core S → Core S
  advance_commit c =
      elim (commit_target c.current_term c.commit_index c.log c.match_index (majority c)
        (last_index c.log)) [
          | none ↦ c
          | some n ↦ apply_committed host (record c { commit_index = n })
        ]

  -- What follows an append on the leader: commit if the cluster is one node, and replicate.
  unfoldable pub replicate : Core S → Core S
  replicate c = send_heartbeats (advance_commit c)

  unfoldable pub propose : Core S → Bytes → Core S × Option LogIndex
  propose c command =
      if not (is_leader c.role)
      then (c, none)
      else let c' = append_log c (record { term = c.current_term; command = command } ∷ []) in
        (replicate c', some (last_index c'.log))

  unfoldable pub propose_batch : Core S → List Bytes → Core S × Option LogIndex
  propose_batch c commands =
      if is_empty commands || not (is_leader c.role)
      then (c, none)
      else let c' = append_log c (stamp c.current_term commands) in
        (replicate c', some (add64 (sub64 (last_index c'.log) (length commands)) 1))

  -- An ack that is news: both indices move, commit is tried, and catching up goes on.
  unfoldable pub take_ack : Core S → NodeId → LogIndex → Core S
  take_ack c from ack = catch_up (advance_commit (record_ack c from ack)) from

  -- `nextIndex_` after a failed consistency check, from the follower's hints.
  unfoldable pub lowered_next : Core S → NodeId → AppendEntriesReply → LogIndex
  lowered_next c from r =
      let last = last_of_term c.log r.conflict_term (last_index c.log) in
      let hint =
        if r.conflict_term == 0
        then r.conflict_index
        else if last == 0
        then r.conflict_index
        else add64 last 1 in
      max (max (min hint (get c.next_index from)) (add64 (get c.match_index from) 1)) 1

  unfoldable pub back_off : Core S → NodeId → AppendEntriesReply → Core S
  back_off c from r =
      send_append_entries
        (record c {
          next_index = put c.next_index from (lowered_next c from r);
          match_index = touch c.match_index from;
        })
        from

  unfoldable pub on_append_entries_reply : Core S → NodeId → AppendEntriesReply → Core S
  on_append_entries_reply c from r =
      if not (is_leader c.role)
      then c
      else if not (r.term == c.current_term)
      then c
      else if r.success
      then (if ltb (last_index c.log) r.conflict_index
          then c
          else if ltb (get c.match_index from) r.conflict_index
          then take_ack c from r.conflict_index
          else record c { match_index = touch c.match_index from })
      else back_off c from r
