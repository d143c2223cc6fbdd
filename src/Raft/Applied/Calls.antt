-- ===== src/Raft/Applied/Calls.antt =====
-- The order of applied entries through each call of src/raft/raft_core.cpp, and over runs.
use raft_rsm.Prelude.{◌≤◌, max, arith, not, ◌||◌, Option, List, [], ◌∷◌, ltb, ◌==◌, min}
use raft_rsm.Rpc.Types.{
  Bytes, NodeId, Message, request_vote, request_vote_reply, append_entries, LogEntry,
  append_entries_reply, client_request, client_reply, AppendEntries, AppendEntriesReply, LogIndex,
}
use raft_rsm.Storage.Log.{last_index, term_at}
use raft_rsm.Raft.State.{Host, Core, append_log, is_leader}
use raft_rsm.Raft.Roles.{reset_election_timer, start}
use raft_rsm.Raft.Leader.{
  propose, propose_batch, stamp, is_empty, send_append_entries, catch_up, advance_commit, replicate,
  take_ack, back_off, record_ack, on_append_entries_reply,
}
use raft_rsm.Raft.Election.{tick, on_request_vote, on_request_vote_reply}
use raft_rsm.Raft.Follower.{
  merge_entries, recognise, check_and_merge, on_append_entries, follow_commit, reply,
  reply_conflict, confirmed_through,
}
use raft_rsm.Raft.Handle.{
  Call, starts, ticks, pumps, receives, proposes, proposes_batch, waits, lift_term, dispatch,
  handle, step, run, term_of,
}
use raft_rsm.Raft.Rules.{if_cases, reply_cases}
use raft_rsm.Raft.Disk.{Disk}
use raft_rsm.Raft.Applied.{
  AppliedWith, InOrder, Quiet, Bounded, Quiet-Bounded, apply_committed-Bounded, commits-Bounded,
  advance_commit-Bounded,
}
use raft_rsm.Raft.Applied.Quiet.{
  send_heartbeats-Applied, append_log-Applied, merge_entries-Applied, recognise-Applied,
  lift_term-Applied, tick-Applied, on_request_vote-Applied, on_request_vote_reply-Applied,
}

module _ {S : Type 0} (host : Host S) (s0 : S) (d : Disk) (b : LogIndex) where
  -- Where nothing is applied.
  still : (c : Core S) → AppliedWith host s0 d (Quiet b) c → AppliedWith host s0 d (Bounded b) c
  still = Quiet-Bounded host s0 d b

  replicate-Bounded :
      (c : Core S)
      → AppliedWith host s0 d (Quiet b) c
      → AppliedWith host s0 d (Bounded b) (replicate host c)
  unfolding replicate
  replicate-Bounded c h =
      send_heartbeats-Applied host s0 d (Bounded b) (advance_commit host c)
        (advance_commit-Bounded host s0 d b c h)

  take_ack-Bounded :
      (c : Core S) (from : NodeId) (ack : LogIndex)
      → AppliedWith host s0 d (Quiet b) c
      → AppliedWith host s0 d (Bounded b) (take_ack host c from ack)
  unfolding take_ack catch_up record_ack send_append_entries
  take_ack-Bounded c from ack h =
      let h' = advance_commit-Bounded host s0 d b (record_ack c from ack) h in
      if_cases (AppliedWith host s0 d (Bounded b)) _ h' h'

  on_append_entries_reply-Bounded :
      (c : Core S) (from : NodeId) (r : AppendEntriesReply)
      → AppliedWith host s0 d (Quiet b) c
      → AppliedWith host s0 d (Bounded b) (on_append_entries_reply host c from r)
  unfolding back_off send_append_entries
  on_append_entries_reply-Bounded c from r h =
      reply_cases host (AppliedWith host s0 d (Bounded b)) c from r (still c h)
        (take_ack-Bounded c from r.conflict_index h) (still c h) (still c h)

  follow_commit-Bounded :
      (c : Core S) (ae : AppendEntries)
      → AppliedWith host s0 d (Quiet b) c
      → AppliedWith host s0 d (Bounded b) (follow_commit host c ae)
  unfolding follow_commit
  follow_commit-Bounded c ae h =
      if_cases (AppliedWith host s0 d (Bounded b)) (ltb c.commit_index ae.leader_commit)
        (commits-Bounded host s0 d b c (min ae.leader_commit (confirmed_through ae)) h) (still c h)

  on_append_entries-Bounded :
      (c : Core S) (from : NodeId) (ae : AppendEntries)
      → AppliedWith host s0 d (Quiet b) c
      → AppliedWith host s0 d (Bounded b) (on_append_entries host c from ae)
  unfolding on_append_entries check_and_merge reply reply_conflict
  on_append_entries-Bounded c from ae h =
      let c' = recognise host c ae in
      let q' = recognise-Applied host s0 d (Quiet b) c ae h in
      let h' = still c' q' in
      let m = merge_entries-Applied host s0 d (Quiet b) c' ae q' in
      if_cases (AppliedWith host s0 d (Bounded b)) (ltb ae.term c.current_term) (still c h) (
        if_cases (AppliedWith host s0 d (Bounded b)) (is_leader c.role) (still c h) (
          if_cases (AppliedWith host s0 d (Bounded b)) (ltb (last_index c'.log) ae.prev_log_index)
            h'
            (if_cases (AppliedWith host s0 d (Bounded b))
              (not (term_at c'.log ae.prev_log_index == ae.prev_log_term)) h'
              (follow_commit-Bounded (merge_entries c' ae) ae m))))

  dispatch-Bounded :
      (c : Core S) (from : NodeId) (m : Message)
      → AppliedWith host s0 d (Quiet b) c
      → AppliedWith host s0 d (Bounded b) (dispatch host c from m)
  unfolding dispatch
  dispatch-Bounded c from (request_vote m) h =
      still (on_request_vote host c from m) (on_request_vote-Applied host s0 d (Quiet b) c from m h)
  dispatch-Bounded c from (request_vote_reply m) h =
      still (on_request_vote_reply host c from m)
        (on_request_vote_reply-Applied host s0 d (Quiet b) c from m h)
  dispatch-Bounded c from (append_entries m) h = on_append_entries-Bounded c from m h
  dispatch-Bounded c from (append_entries_reply m) h = on_append_entries_reply-Bounded c from m h
  dispatch-Bounded c from (client_request m) h = still c h
  dispatch-Bounded c from (client_reply m) h = still c h

  propose-Bounded :
      (c : Core S) (x : Bytes)
      → AppliedWith host s0 d (Quiet b) c
      → AppliedWith host s0 d (Bounded b) (propose host c x).0
  unfolding propose
  propose-Bounded c x h =
      let es : List LogEntry = record { term = c.current_term; command = x } ∷ [] in
      if_cases (λ (p : Core S × Option LogIndex). AppliedWith host s0 d (Bounded b) p.0)
        (not (is_leader c.role)) (still c h)
        (replicate-Bounded (append_log c es) (append_log-Applied host s0 d (Quiet b) c es h))

  propose_batch-Bounded :
      (c : Core S) (xs : List Bytes)
      → AppliedWith host s0 d (Quiet b) c
      → AppliedWith host s0 d (Bounded b) (propose_batch host c xs).0
  unfolding propose_batch
  propose_batch-Bounded c xs h =
      let es = stamp c.current_term xs in
      if_cases (λ (p : Core S × Option LogIndex). AppliedWith host s0 d (Bounded b) p.0)
        (is_empty xs || not (is_leader c.role)) (still c h)
        (replicate-Bounded (append_log c es) (append_log-Applied host s0 d (Quiet b) c es h))

  step-Bounded :
      (c : Core S) (x : Call)
      → AppliedWith host s0 d (Quiet b) c
      → AppliedWith host s0 d (Bounded b) (step host c x)
  unfolding step start reset_election_timer handle
  step-Bounded c starts h = still c h
  step-Bounded c ticks h = still (tick host c) (tick-Applied host s0 d (Quiet b) c h)
  step-Bounded c pumps h = apply_committed-Bounded host s0 d b c (still c h)
  step-Bounded c (receives from m) h =
      dispatch-Bounded (lift_term host c (term_of m)) from m
        (lift_term-Applied host s0 d (Quiet b) c (term_of m) h)
  step-Bounded c (proposes x) h = propose-Bounded c x h
  step-Bounded c (proposes_batch xs) h = propose_batch-Bounded c xs h
  step-Bounded c (waits k) h = still c h

module _ {S : Type 0} (host : Host S) where
  -- The largest commit index between the calls of a run.
  abbrev pub peak : Core S → List Call → LogIndex
  peak c [] = c.commit_index
  peak c (x ∷ xs) = max c.commit_index (peak (step host c x) xs)

  peak-ge : (c : Core S) (xs : List Call) → c.commit_index ≤ peak c xs
  peak-ge c [] = omega arith
  peak-ge c (x ∷ xs) = omega arith

module _ {S : Type 0} (host : Host S) (s0 : S) (d : Disk) where
  step-InOrder :
      (c : Core S) (x : Call)
      → InOrder host s0 d c
      → InOrder host s0 d (step host c x)
        × ((step host c x).last_applied ≤ max c.last_applied (step host c x).commit_index)
  step-InOrder c x (order, state, logged, log, all) =
      let (order', state', logged', log', bound) =
        step-Bounded host s0 d c.last_applied c x (order, state, logged, log, omega arith) in
      ((order', state', logged', log', tt), bound)

  -- Over any calls, from a state of which this holds, as of one with nothing applied and no history,
  -- the entries that were applied or handed off so far have the indices from 1 to
  -- the last applied one, each once and in this order; each was the log's entry of its index when it
  -- went out; the state machine and the results are what those that were applied in place make of
  -- the first state, one after the other; and nothing new went out past the largest commit index
  -- so far.
  pub run-InOrder :
      (c : Core S) (xs : List Call)
      → InOrder host s0 d c
      → InOrder host s0 d (run host c xs)
        × ((run host c xs).last_applied ≤ max c.last_applied (peak host c xs))
  unfolding run
  run-InOrder c [] h = (h, omega arith)
  run-InOrder c (x ∷ xs) h =
      let (h', bound) = step-InOrder c x h in
      let (h'', bound') = run-InOrder (step host c x) xs h' in
      (h'', omega (arith, bound, bound', peak-ge host (step host c x) xs))
