-- ===== src/Raft/Elections/Calls.antt =====
-- Candidacies and elections under each call of src/raft/raft_core.cpp.
use raft_rsm.Prelude.{
  ◌≡◌, inl, inr, Bool, true, false, not, ◌||◌, Option, none, some, List, min, ltb, ◌==◌,
  if◌then◌else◌, Bool-cases,
}
use raft_rsm.Rpc.Types.{
  Bytes, NodeId, Term, Message, AppendEntries, request_vote, request_vote_reply, append_entries,
  append_entries_reply, client_request, client_reply,
}
use raft_rsm.Storage.Log.{last_index, term_at}
use raft_rsm.Raft.State.{
  Host, Core, leader_discovered, higher_term_seen, is_leader, is_candidate, append_log, client,
}
use raft_rsm.Raft.Roles.{reset_election_timer, start}
use raft_rsm.Raft.Leader.{propose, propose_batch, is_empty}
use raft_rsm.Raft.Follower.{
  merge_entries, recognise, check_and_merge, on_append_entries, follow_commit, confirmed_through,
}
use raft_rsm.Raft.Handle.{
  Call, starts, ticks, pumps, receives, proposes, proposes_batch, waits, lift_term, dispatch,
  handle, step, term_of,
}
use raft_rsm.Raft.Elections.{View, Elected, emit-Elected}
use raft_rsm.Raft.Elections.Sends.{
  append_log-Elected, merge_entries-Elected, reply-Elected, reply_conflict-Elected,
  apply_committed-Elected, replicate-Elected, on_append_entries_reply-Elected,
}
use raft_rsm.Raft.Elections.Candidacies.{tick-Elected}
use raft_rsm.Raft.Elections.Ballots.{
  become_follower-Elected, on_request_vote-Elected, on_request_vote_reply-Elected,
}

-- What a message that arrives is worth: a request names its sender, and a granted vote was saved.
abbrev pub Honest : View → NodeId → Message → Type 0
Honest view from (request_vote m) = m.candidate_id ≡ from
Honest view from (request_vote_reply m) = m.vote_granted ≡ true → view.voted m.term from
Honest view from _ = Unit

abbrev pub HonestCall : View → Call → Type 0
HonestCall view (receives from m) = Honest view from m
HonestCall view _ = Unit

module _ (view : View) {S : Type 0} (host : Host S) where
  -- `Elected` of a branch.
  if-Elected :
      (b : Bool) (x y : Core S)
      → Elected view x
      → Elected view y
      → Elected view (if b then x else y)
  if-Elected true x y p q = p
  if-Elected false x y p q = q

  recognise-Elected :
      (c : Core S) (ae : AppendEntries) → Elected view c → Elected view (recognise host c ae)
  unfolding recognise reset_election_timer
  recognise-Elected c ae h =
      let c' = record c { leader_id = some ae.leader_id } in
      if-Elected (is_candidate c.role) _ _
        (become_follower-Elected view host c' c.current_term leader_discovered h) h

  follow_commit-Elected :
      (c : Core S) (ae : AppendEntries) → Elected view c → Elected view (follow_commit host c ae)
  unfolding follow_commit
  follow_commit-Elected c ae h =
      let c' = record c { commit_index = min ae.leader_commit (confirmed_through ae) } in
      if-Elected (ltb c.commit_index ae.leader_commit) _ _ (apply_committed-Elected view host c' h)
        h

  check_and_merge-Elected :
      (c : Core S) (from : NodeId) (ae : AppendEntries)
      → Elected view c
      → Elected view (check_and_merge host c from ae)
  unfolding check_and_merge
  check_and_merge-Elected c from ae h =
      let m = merge_entries c ae in
      let f = follow_commit host m ae in
      if-Elected (ltb (last_index c.log) ae.prev_log_index) _ _
        (reply-Elected view c from false _ 0 h)
        (if-Elected (not (term_at c.log ae.prev_log_index == ae.prev_log_term)) _ _
          (reply_conflict-Elected view c from _ _ h)
          (reply-Elected view f from true (confirmed_through ae) 0
            (follow_commit-Elected m ae (merge_entries-Elected view c ae h))))

  on_append_entries-Elected :
      (c : Core S) (from : NodeId) (ae : AppendEntries)
      → Elected view c
      → Elected view (on_append_entries host c from ae)
  unfolding on_append_entries
  on_append_entries-Elected c from ae h =
      if-Elected (ltb ae.term c.current_term) _ _ (reply-Elected view c from false 0 0 h) (
        if-Elected (is_leader c.role) _ _ h
          (check_and_merge-Elected (recognise host c ae) from ae (recognise-Elected c ae h)))

  lift_term-Elected :
      (c : Core S) (t : Option Term) → Elected view c → Elected view (lift_term host c t)
  unfolding lift_term
  lift_term-Elected c none h = h
  lift_term-Elected c (some t) h =
      if-Elected (ltb c.current_term t) _ _
        (become_follower-Elected view host c t higher_term_seen h) h

  dispatch-Elected :
      (c : Core S) (from : NodeId) (m : Message)
      → Honest view from m
      → Elected view c
      → Elected view (dispatch host c from m)
  unfolding dispatch
  dispatch-Elected c from (request_vote m) w h = on_request_vote-Elected view host c from m w h
  dispatch-Elected c from (request_vote_reply m) w h =
      on_request_vote_reply-Elected view host c from m w h
  dispatch-Elected c from (append_entries m) w h = on_append_entries-Elected c from m h
  dispatch-Elected c from (append_entries_reply m) w h =
      on_append_entries_reply-Elected view host c from m h
  dispatch-Elected c from (client_request m) w h = emit-Elected view c (client from m) tt tt h
  dispatch-Elected c from (client_reply m) w h = h

  handle-Elected :
      (c : Core S) (from : NodeId) (m : Message)
      → Honest view from m
      → Elected view c
      → Elected view (handle host c from m)
  unfolding handle
  handle-Elected c from m w h =
      dispatch-Elected (lift_term host c (term_of m)) from m w (lift_term-Elected c (term_of m) h)

  propose-Elected : (c : Core S) (x : Bytes) → Elected view c → Elected view (propose host c x).0
  unfolding propose
  propose-Elected c x h = elim (Bool-cases (not (is_leader c.role))) [
    | inl e ↦ rw (e, propose) h
    | inr e ↦
        rw (e, propose)
          (replicate-Elected view host (append_log c _) (append_log-Elected view c _ h))
  ]

  propose_batch-Elected :
      (c : Core S) (xs : List Bytes) → Elected view c → Elected view (propose_batch host c xs).0
  unfolding propose_batch
  propose_batch-Elected c xs h = elim (Bool-cases (is_empty xs || not (is_leader c.role))) [
    | inl e ↦ rw (e, propose_batch) h
    | inr e ↦
        rw (e, propose_batch)
          (replicate-Elected view host (append_log c _) (append_log-Elected view c _ h))
  ]

  pub step-Elected :
      (c : Core S) (x : Call) → HonestCall view x → Elected view c → Elected view (step host c x)
  unfolding step start reset_election_timer
  step-Elected c starts w h = h
  step-Elected c ticks w h = tick-Elected view host c h
  step-Elected c pumps w h = apply_committed-Elected view host c h
  step-Elected c (receives from m) w h = handle-Elected c from m w h
  step-Elected c (proposes x) w h = propose-Elected c x h
  step-Elected c (proposes_batch xs) w h = propose_batch-Elected c xs h
  step-Elected c (waits d) w h = h
