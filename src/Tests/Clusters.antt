-- ===== src/Tests/Clusters.antt =====
-- Runs of a cluster of three (src/raft/raft_core.cpp).
use raft_rsm.Prelude.{◌≡◌, refl, inl, inr, true, none, List, [], ◌∷◌, arith, if◌then◌else◌, ◌==◌}
use raft_rsm.Rpc.Types.{Bytes, NodeId, Message, request_vote, request_vote_reply}
use raft_rsm.Raft.Roles.{adopt_term, reset_election_timer, start, retire, become_follower}
use raft_rsm.Raft.State.{get, put, insert, persist_term_and_vote, append_log}
use raft_rsm.Raft.Leader.{
  init_indices, append_entries_for, send_append_entries, send_all, send_heartbeats, take_lead,
  become_leader,
}
use raft_rsm.Raft.Election.{
  candidate_log_at_least_as_up_to_date, ask_all, count_votes, grants, stand, start_election, tick,
  on_request_vote, on_request_vote_reply,
}
use raft_rsm.Raft.Handle.{
  starts, ticks, receives, waits, term_of, lift_term, dispatch, handle, step,
}
use raft_rsm.Raft.Cluster.{
  Setup, Event, calls, restarts, construct, set, boot, restart, happen, happen_all,
}
use raft_rsm.Storage.Log.{last_term}
use raft_rsm.Raft.Cluster.Safety.{election_safety}
use raft_rsm.Tests.Fixtures.{host, config}

abbrev others : NodeId → List NodeId
others i = if i == 1 then 2 ∷ 3 ∷ [] else if i == 2 then 1 ∷ 3 ∷ [] else 1 ∷ 2 ∷ []

abbrev three : Setup (List Bytes)
three = record {
  members = 1 ∷ 2 ∷ 3 ∷ [];
  host = λ i. host;
  peers = others;
  cfg = λ i. config;
  disk = λ i. record { term = 0; vote = none; log = [] };
  sm = λ i. [];
}

abbrev question : Message
question =
    request_vote (record { term = 1; candidate_id = 1; last_log_index = 0; last_log_term = 0 })

abbrev consent : Message
consent = request_vote_reply (record { term = 1; vote_granted = true })

-- Node 1 times out, wins with the vote of node 2, and both crash.
abbrev election : List (Event (List Bytes))
election =
    calls 1 starts
    ∷ calls 1 (waits 150)
    ∷ calls 1 ticks
    ∷ calls 2 (receives 1 question)
    ∷ calls 1 (receives 2 consent)
    ∷ restarts 1 [] 7 0
    ∷ restarts 2 [] 9 0
    ∷ []

election_safety_example : ◌≡◌ {A = NodeId} 1 1
unfolding adopt_term reset_election_timer start retire become_follower get put insert
    persist_term_and_vote append_log init_indices append_entries_for send_append_entries send_all
    send_heartbeats take_lead become_leader candidate_log_at_least_as_up_to_date ask_all count_votes
    grants stand start_election tick on_request_vote on_request_vote_reply term_of lift_term
    dispatch handle step construct set boot restart happen happen_all last_term
election_safety_example =
    election_safety three election 1 1 1 (refl, (refl, (refl, tt)))
      (
        (refl, tt, tt),
        (
          (refl, tt, tt),
          (
            (refl, tt, omega arith),
            (
              (refl, inr (refl, inr (inl refl)), tt),
              ((refl, inr (refl, inl refl), tt), (refl, (refl, tt))),
            ),
          ),
        ),
      )
      refl refl (inr (inr (inl refl))) (inr (inr (inl refl)))
