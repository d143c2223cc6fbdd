-- ===== src/Raft/Disk/Runs.antt =====
-- The disk and the promises of a node over runs (src/raft/raft_core.cpp).
use raft_rsm.Prelude.{
  ◌+◌, ◌≤◌, ◌<◌, ◌≡◌, refl, inl, inr, true, false, not, ◌||◌, Option, none, some, List, [], ◌∷◌,
  ltb, ◌==◌, if◌then◌else◌, arith, length, Bool-cases, u64_mod, ltb→ge,
}
use raft_rsm.Rpc.Types.{
  Bytes, LogIndex, NodeId, Term, Message, request_vote, request_vote_reply, append_entries,
  append_entries_reply, client_request, client_reply, AppendEntries,
}
use raft_rsm.Storage.Log.{Log, term_at, last_index}
use raft_rsm.Raft.State.{Host, Core, higher_term_seen, persist_term_and_vote, append_log, is_leader}
use raft_rsm.Raft.Roles.{reset_election_timer, start, adopt_term, retire, become_follower}
use raft_rsm.Raft.Leader.{propose, propose_batch, stamp, is_empty}
use raft_rsm.Raft.Follower.{
  merge_entries, recognise, check_and_merge, on_append_entries, follow_commit, reply,
  reply_conflict, confirmed_through,
}
use raft_rsm.Raft.Handle.{
  Call, starts, ticks, pumps, receives, proposes, proposes_batch, waits, lift_term, dispatch,
  handle, step, run, term_of,
}
use raft_rsm.Raft.Frame.{Same, follow_commit-Same}
use raft_rsm.Raft.Merge.{InRange}
use raft_rsm.Raft.Merge.Laws.{merge_entries-Agrees}
use raft_rsm.Raft.Rules.{CanStand}
use raft_rsm.Raft.Disk.{Disk, Durable}
use raft_rsm.Raft.Disk.Steps.{
  send-Durable, append_log-Durable, merge_entries-Durable, if-Durable, become_follower-Durable,
  tick-Durable, on_request_vote-Durable, on_request_vote_reply-Durable, recognise-Durable,
  follow_commit-Durable,
}
use raft_rsm.Raft.Disk.Sends.{
  apply_committed-Durable, replicate-Durable, on_append_entries_reply-Durable,
}

-- The last index that the message reaches is a 64-bit number, as is the log's.
abbrev pub Fits : Log → Message → Type 0
Fits log (append_entries ae) = length log + length ae.entries + 1 < u64_mod
Fits log _ = Unit

module _ {S : Type 0} where
  -- A message that arrives fits the log's 64-bit indices; a tick that starts an election
  -- can count the term up.
  abbrev pub Room : Core S → Call → Type 0
  Room c ticks = CanStand c
  Room c (receives from m) = Fits c.log m
  Room c _ = Unit

module _ {S : Type 0} (host : Host S) where
  -- Each call of the run has its room.
  abbrev pub Rooms : Core S → List Call → Type 0
  Rooms c [] = Unit
  Rooms c (x ∷ xs) = Room c x × Rooms (step host c x) xs

module _ (d : Disk) {S : Type 0} (host : Host S) where
  -- What a success reply acknowledges lies in the log.
  confirmed-le :
      (c : Core S) (ae : AppendEntries)
      → InRange c.log ae
      → confirmed_through ae ≤ length (follow_commit host (merge_entries c ae) ae).log
  confirmed-le c ae h =
      let m = merge_entries c ae in
      rw (Same.log (follow_commit-Same host m ae)) (omega (arith, merge_entries-Agrees c ae h))

  fail-Durable :
      (c : Core S) (from : NodeId) (i : LogIndex) (t : Term)
      → Durable d c
      → Durable d (reply c from false i t)
  unfolding reply
  fail-Durable c from i t h = (h.0, ((λ e. cc), h.1))

  accept-Durable :
      (c : Core S) (from : NodeId) (ae : AppendEntries)
      → InRange c.log ae
      → Durable d c
      → Durable d
          (reply (follow_commit host (merge_entries c ae) ae) from true (confirmed_through ae) 0)
  unfolding reply
  accept-Durable c from ae r h =
      let f = follow_commit host (merge_entries c ae) ae in
      send-Durable d f from
        (append_entries_reply (record {
          term = f.current_term;
          success = true;
          conflict_index = confirmed_through ae;
          conflict_term = 0;
        }))
        (follow_commit-Durable d host (merge_entries c ae) ae (merge_entries-Durable d c ae h))
        (λ e. (refl, confirmed-le c ae r))

  check_and_merge-Durable :
      (c : Core S) (from : NodeId) (ae : AppendEntries)
      → Fits c.log (append_entries ae)
      → Durable d c
      → Durable d (check_and_merge host c from ae)
  unfolding check_and_merge reply_conflict
  check_and_merge-Durable c from ae fit h =
      elim (Bool-cases (ltb (last_index c.log) ae.prev_log_index)) [
        | inl short ↦ rw (short, check_and_merge) (fail-Durable c from _ 0 h)
        | inr long ↦
            rw (long, check_and_merge)
              (elim (Bool-cases (not (term_at c.log ae.prev_log_index == ae.prev_log_term))) [
                | inl other ↦ rw other (fail-Durable c from _ _ h)
                | inr same ↦
                    let inside : ae.prev_log_index ≤ length c.log = ltb→ge _ _ long in
                    rw same (accept-Durable c from ae (inside, omega arith) h)
              ])
      ]

  log-recognise : (c : Core S) (ae : AppendEntries) → (recognise host c ae).log ≡ c.log
  unfolding recognise reset_election_timer become_follower retire adopt_term persist_term_and_vote
  log-recognise c ae = ground arith

  on_append_entries-Durable :
      (c : Core S) (from : NodeId) (ae : AppendEntries)
      → Fits c.log (append_entries ae)
      → Durable d c
      → Durable d (on_append_entries host c from ae)
  unfolding on_append_entries
  on_append_entries-Durable c from ae fit h =
      let r = recognise host c ae in
      let merged = check_and_merge host r from ae in
      let stale = reply c from false 0 0 in
      let rest =
        check_and_merge-Durable r from ae (rw (log-recognise c ae) fit)
          (recognise-Durable d host c ae h) in
      if-Durable d (ltb ae.term c.current_term) stale (if is_leader c.role then c else merged)
        (fail-Durable c from 0 0 h) (if-Durable d (is_leader c.role) c merged h rest)

  log-lift_term : (c : Core S) (t : Option Term) → (lift_term host c t).log ≡ c.log
  unfolding lift_term reset_election_timer become_follower retire adopt_term persist_term_and_vote
  log-lift_term c none = refl
  log-lift_term c (some t) = ground arith

  lift_term-Durable : (c : Core S) (t : Option Term) → Durable d c → Durable d (lift_term host c t)
  unfolding lift_term
  lift_term-Durable c none h = h
  lift_term-Durable c (some t) h =
      if-Durable d (ltb c.current_term t) (become_follower host c t higher_term_seen) c
        (become_follower-Durable d host c t higher_term_seen h) h

  dispatch-Durable :
      (c : Core S) (from : NodeId) (m : Message)
      → Fits c.log m
      → Durable d c
      → Durable d (dispatch host c from m)
  unfolding dispatch
  dispatch-Durable c from (request_vote m) fit h = on_request_vote-Durable d host c from m h
  dispatch-Durable c from (request_vote_reply m) fit h =
      on_request_vote_reply-Durable d host c from m h
  dispatch-Durable c from (append_entries m) fit h = on_append_entries-Durable c from m fit h
  dispatch-Durable c from (append_entries_reply m) fit h =
      on_append_entries_reply-Durable d host c from m h
  dispatch-Durable c from (client_request m) fit h = (h.0, (tt, h.1))
  dispatch-Durable c from (client_reply m) fit h = h

  handle-Durable :
      (c : Core S) (from : NodeId) (m : Message)
      → Fits c.log m
      → Durable d c
      → Durable d (handle host c from m)
  unfolding handle
  handle-Durable c from m fit h =
      let l = lift_term host c (term_of m) in
      dispatch-Durable l from m (rw (log-lift_term c (term_of m)) fit)
        (lift_term-Durable c (term_of m) h)

  propose-Durable : (c : Core S) (x : Bytes) → Durable d c → Durable d (propose host c x).0
  unfolding propose
  propose-Durable c x h =
      let a = append_log c (record { term = c.current_term; command = x } ∷ []) in
      elim (Bool-cases (not (is_leader c.role))) [
        | inl e ↦ rw (e, propose) h
        | inr e ↦ rw (e, propose) (replicate-Durable d host a (append_log-Durable d c _ h))
      ]

  propose_batch-Durable :
      (c : Core S) (xs : List Bytes) → Durable d c → Durable d (propose_batch host c xs).0
  unfolding propose_batch
  propose_batch-Durable c xs h =
      let a = append_log c (stamp c.current_term xs) in
      elim (Bool-cases (is_empty xs || not (is_leader c.role))) [
        | inl e ↦ rw (e, propose_batch) h
        | inr e ↦ rw (e, propose_batch) (replicate-Durable d host a (append_log-Durable d c _ h))
      ]

  pub step-Durable : (c : Core S) (x : Call) → Room c x → Durable d c → Durable d (step host c x)
  unfolding step start reset_election_timer
  step-Durable c starts r h = h
  step-Durable c ticks r h = tick-Durable d host c r h
  step-Durable c pumps r h = apply_committed-Durable d host c h
  step-Durable c (receives from m) r h = handle-Durable c from m r h
  step-Durable c (proposes x) r h = propose-Durable c x h
  step-Durable c (proposes_batch xs) r h = propose_batch-Durable c xs h
  step-Durable c (waits k) r h = h

  -- Over any calls whose messages fit the log's 64-bit indices and whose elections do not start at
  -- the largest 64-bit term: the disk, written by the saves, appends and truncations in their
  -- order, always holds the term, the vote and the log of the node; each save raises the term or
  -- keeps a vote that was given; and at each send the disk held what the message promises: a
  -- candidate's own vote and its log's end, a granted vote, the previous term and the entries of a
  -- leader's message, the entries that a success reply acknowledges.
  pub run-Durable :
      (c : Core S) (xs : List Call) → Rooms host c xs → Durable d c → Durable d (run host c xs)
  unfolding run
  run-Durable c [] r h = h
  run-Durable c (x ∷ xs) r h = run-Durable (step host c x) xs r.1 (step-Durable c x r.0 h)
