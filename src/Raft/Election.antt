-- ===== src/Raft/Election.antt =====
-- src/raft/raft_core.cpp: elections. `candidateLogAtLeastAsUpToDate`, `startElection`, `tick`,
-- `onRequestVote`, `onRequestVoteReply`.
use raft_rsm.Prelude.{
  Bool, true, false, not, ◌&&◌, ◌||◌, Option, none, some, List, [], ◌∷◌, ltb, leb, ◌==◌,
  if◌then◌else◌, length, add64,
}
use raft_rsm.Rpc.Types.{
  LogIndex, NodeId, Term, RequestVote, RequestVoteReply, request_vote, request_vote_reply,
}
use raft_rsm.Storage.Log.{last_index, last_term}
use raft_rsm.Raft.State.{
  Host, Core, candidate, election_started, never, is_due, send, transition, emit, majority, insert,
  persist_term_and_vote, is_leader, is_candidate,
}
use raft_rsm.Raft.Roles.{reset_election_timer}
use raft_rsm.Raft.Leader.{become_leader, send_heartbeats}

-- `candidateLogAtLeastAsUpToDate`.
unfoldable pub candidate_log_at_least_as_up_to_date : Term → LogIndex → Term → LogIndex → Bool
candidate_log_at_least_as_up_to_date cand_term cand_index my_term my_index =
    if not (cand_term == my_term) then ltb my_term cand_term else leb my_index cand_index

-- `!voted.has_value() || *voted == candidate`.
abbrev pub may_vote : Option NodeId → NodeId → Bool
may_vote none candidate_id = true
may_vote (some v) candidate_id = v == candidate_id

module _ {S : Type 0} where
  -- `for (const NodeId peer : peers_) send_(peer, Message{rv});`
  unfoldable pub ask_all : Core S → RequestVote → List NodeId → Core S
  ask_all c rv [] = c
  ask_all c rv (peer ∷ rest) = ask_all (emit c (send peer (request_vote rv))) rv rest

  -- Becomes leader if the votes are a majority.
  unfoldable pub count_votes : Core S → Core S
  count_votes c = if leb (majority c) (length c.votes_from) then become_leader c else c

  -- Whether the vote is given.
  unfoldable pub grants : Core S → RequestVote → Bool
  grants c rv =
      candidate_log_at_least_as_up_to_date rv.last_log_term rv.last_log_index (last_term c.log)
        (last_index c.log)
      && may_vote c.voted_for rv.candidate_id

module _ {S : Type 0} (host : Host S) where
  -- The new candidacy, before any message: the term and the own vote are saved first.
  unfoldable pub stand : Core S → Core S
  stand c =
      let c' = persist_term_and_vote c (add64 c.current_term 1) (some c.self) in
      let c'' = reset_election_timer host (record c' {
        role = candidate;
        leader_id = none;
        votes_from = c.self ∷ [];
        heartbeat_deadline = never;
      }) in
      emit c'' (transition c''.current_term candidate election_started)

  unfoldable pub start_election : Core S → Core S
  start_election c =
      let c' = stand c in
      count_votes (
        ask_all c'
          (record {
            term = c'.current_term;
            candidate_id = c'.self;
            last_log_index = last_index c'.log;
            last_log_term = last_term c'.log;
          })
          c'.peers)

  unfoldable pub tick : Core S → Core S
  tick c =
      if not (is_leader c.role) && is_due c.now c.election_deadline
      then start_election c
      else if is_leader c.role && is_due c.now c.heartbeat_deadline
      then send_heartbeats c
      else c

  unfoldable pub on_request_vote : Core S → NodeId → RequestVote → Core S
  on_request_vote c from rv =
      if ltb rv.term c.current_term
      then emit c
          (send from (request_vote_reply (record { term = c.current_term; vote_granted = false })))
      else let grant = grants c rv in
        let c' =
          if grant
          then reset_election_timer host
              (persist_term_and_vote c c.current_term (some rv.candidate_id))
          else c in
        emit c'
          (send from (request_vote_reply (record { term = c.current_term; vote_granted = grant })))

  unfoldable pub on_request_vote_reply : Core S → NodeId → RequestVoteReply → Core S
  on_request_vote_reply c from r =
      if not (is_candidate c.role)
      then c
      else if not (r.term == c.current_term) || not r.vote_granted
      then c
      else count_votes (record c { votes_from = insert from c.votes_from })
