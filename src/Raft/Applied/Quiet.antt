-- ===== src/Raft/Applied/Quiet.antt =====
-- The parts of the calls of src/raft/raft_core.cpp that apply nothing.
use raft_rsm.Prelude.{
  ℕ, ap, ◌++◌, not, ◌&&◌, ◌||◌, Option, none, some, List, [], ◌∷◌, ltb, leb, ◌==◌, drop, length,
  if◌then◌else◌,
}
use raft_rsm.Rpc.Types.{
  NodeId, Term, request_vote, LogEntry, RequestVote, RequestVoteReply, AppendEntries, LogIndex,
}
use raft_rsm.Storage.Log.{last_index, last_term, truncate_suffix_from}
use raft_rsm.Raft.State.{
  Host, Core, Event, send, leader_discovered, higher_term_seen, persist_term_and_vote, append_log,
  insert, is_leader, is_candidate, is_due, majority,
}
use raft_rsm.Raft.Roles.{reset_election_timer, adopt_term, retire, become_follower}
use raft_rsm.Raft.Leader.{take_lead, become_leader, send_append_entries, send_all, send_heartbeats}
use raft_rsm.Raft.Election.{
  ask_all, stand, count_votes, start_election, tick, grants, on_request_vote, on_request_vote_reply,
}
use raft_rsm.Raft.Follower.{truncate_log, append_new, merge_entries, recognise, walk}
use raft_rsm.Raft.Handle.{lift_term}
use raft_rsm.Raft.Rules.{if_cases}
use raft_rsm.Raft.Disk.{Disk}
use raft_rsm.Raft.Applied.{AppliedWith}

-- Q is any property of the two indices.
module _ {S : Type 0} (host : Host S) (s0 : S) (d : Disk) (Q : LogIndex → LogIndex → Type 0) where
  pub send_all-Applied :
      (c : Core S) (ps : List NodeId)
      → AppliedWith host s0 d Q c
      → AppliedWith host s0 d Q (send_all c ps)
  unfolding send_all send_append_entries
  send_all-Applied c [] h = h
  send_all-Applied c (p ∷ ps) h = send_all-Applied (send_append_entries c p) ps h

  pub send_heartbeats-Applied :
      (c : Core S) → AppliedWith host s0 d Q c → AppliedWith host s0 d Q (send_heartbeats c)
  unfolding send_heartbeats
  send_heartbeats-Applied c h = send_all-Applied c c.peers h

  pub become_follower-Applied :
      (c : Core S) (t : Term) (e : Event)
      → AppliedWith host s0 d Q c
      → AppliedWith host s0 d Q (become_follower host c t e)
  unfolding become_follower retire adopt_term persist_term_and_vote reset_election_timer
  become_follower-Applied c t e h =
      let h' : AppliedWith host s0 d Q (adopt_term c t) =
        if_cases (AppliedWith host s0 d Q) (ltb c.current_term t) h h in
      let h'' : AppliedWith host s0 d Q (retire host (adopt_term c t)) =
        if_cases (AppliedWith host s0 d Q) (is_leader (adopt_term c t).role) h' h' in
      h''

  pub count_votes-Applied :
      (c : Core S) → AppliedWith host s0 d Q c → AppliedWith host s0 d Q (count_votes c)
  unfolding count_votes become_leader take_lead
  count_votes-Applied c h =
      if_cases (AppliedWith host s0 d Q) (leb (majority c) (length c.votes_from))
        (send_heartbeats-Applied (take_lead c) h) h

  pub ask_all-Applied :
      (c : Core S) (rv : RequestVote) (ps : List NodeId)
      → AppliedWith host s0 d Q c
      → AppliedWith host s0 d Q (ask_all c rv ps)
  unfolding ask_all
  ask_all-Applied c rv [] h = h
  ask_all-Applied c rv (p ∷ ps) h =
      ask_all-Applied (record c { out = send p (request_vote rv) ∷ c.out }) rv ps h

  pub start_election-Applied :
      (c : Core S) → AppliedWith host s0 d Q c → AppliedWith host s0 d Q (start_election host c)
  unfolding start_election stand persist_term_and_vote reset_election_timer
  start_election-Applied c h =
      let c' = stand host c in
      let rv : RequestVote = record {
        term = c'.current_term;
        candidate_id = c'.self;
        last_log_index = last_index c'.log;
        last_log_term = last_term c'.log;
      } in
      count_votes-Applied (ask_all c' rv c'.peers) (ask_all-Applied c' rv c'.peers h)

  pub tick-Applied :
      (c : Core S) → AppliedWith host s0 d Q c → AppliedWith host s0 d Q (tick host c)
  unfolding tick
  tick-Applied c h =
      if_cases (AppliedWith host s0 d Q)
        (not (is_leader c.role) && is_due c.now c.election_deadline) (start_election-Applied c h)
        (if_cases (AppliedWith host s0 d Q) (is_leader c.role && is_due c.now c.heartbeat_deadline)
          (send_heartbeats-Applied c h) h)

  pub on_request_vote-Applied :
      (c : Core S) (from : NodeId) (rv : RequestVote)
      → AppliedWith host s0 d Q c
      → AppliedWith host s0 d Q (on_request_vote host c from rv)
  unfolding on_request_vote persist_term_and_vote reset_election_timer
  on_request_vote-Applied c from rv h =
      let voted =
        reset_election_timer host (persist_term_and_vote c c.current_term (some rv.candidate_id)) in
      let h' : AppliedWith host s0 d Q (if grants c rv then voted else c) =
        if_cases (AppliedWith host s0 d Q) (grants c rv) h h in
      if_cases (AppliedWith host s0 d Q) (ltb rv.term c.current_term) h h'

  pub on_request_vote_reply-Applied :
      (c : Core S) (from : NodeId) (r : RequestVoteReply)
      → AppliedWith host s0 d Q c
      → AppliedWith host s0 d Q (on_request_vote_reply host c from r)
  unfolding on_request_vote_reply
  on_request_vote_reply-Applied c from r h =
      if_cases (AppliedWith host s0 d Q) (not (is_candidate c.role)) h (
        if_cases (AppliedWith host s0 d Q) (not (r.term == c.current_term) || not r.vote_granted) h
          (count_votes-Applied (record c { votes_from = insert from c.votes_from }) h))

  pub truncate_log-Applied :
      (c : Core S) (i : Option ℕ)
      → AppliedWith host s0 d Q c
      → AppliedWith host s0 d Q (truncate_log c i)
  unfolding truncate_log
  truncate_log-Applied c none h = h
  truncate_log-Applied c (some i) h = (h.0, h.1, h.2, ap (λ l. truncate_suffix_from l i) h.3, h.4)

  pub append_log-Applied :
      (c : Core S) (es : List LogEntry)
      → AppliedWith host s0 d Q c
      → AppliedWith host s0 d Q (append_log c es)
  unfolding append_log
  append_log-Applied c es h = (h.0, h.1, h.2, ap (λ l. l ++ es) h.3, h.4)

  pub append_new-Applied :
      (c : Core S) (es : List LogEntry)
      → AppliedWith host s0 d Q c
      → AppliedWith host s0 d Q (append_new c es)
  unfolding append_new
  append_new-Applied c [] h = h
  append_new-Applied c (e ∷ es) h = append_log-Applied c (e ∷ es) h

  pub merge_entries-Applied :
      (c : Core S) (ae : AppendEntries)
      → AppliedWith host s0 d Q c
      → AppliedWith host s0 d Q (merge_entries c ae)
  unfolding merge_entries
  merge_entries-Applied c ae h =
      let w = walk c.log ae.prev_log_index 0 ae.entries in
      append_new-Applied (truncate_log c w.truncate_at) (drop w.skipped ae.entries)
        (truncate_log-Applied c w.truncate_at h)

  pub recognise-Applied :
      (c : Core S) (ae : AppendEntries)
      → AppliedWith host s0 d Q c
      → AppliedWith host s0 d Q (recognise host c ae)
  unfolding recognise reset_election_timer
  recognise-Applied c ae h =
      let c' = record c { leader_id = some ae.leader_id } in
      let h' : AppliedWith host s0 d Q (
          if is_candidate c.role
          then become_follower host c' c.current_term leader_discovered
          else c') =
        if_cases (AppliedWith host s0 d Q) (is_candidate c.role)
          (become_follower-Applied c' c.current_term leader_discovered h) h in
      h'

  pub lift_term-Applied :
      (c : Core S) (t : Option Term)
      → AppliedWith host s0 d Q c
      → AppliedWith host s0 d Q (lift_term host c t)
  unfolding lift_term
  lift_term-Applied c none h = h
  lift_term-Applied c (some t) h =
      if_cases (AppliedWith host s0 d Q) (ltb c.current_term t)
        (become_follower-Applied c t higher_term_seen h) h
