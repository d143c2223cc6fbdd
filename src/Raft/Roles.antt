-- ===== src/Raft/Roles.antt =====
-- src/raft/raft_core.cpp: `start`, `resetElectionTimer`, `becomeFollower`.
use raft_rsm.Prelude.{suc, ◌+◌, none, ltb, if◌then◌else◌}
use raft_rsm.Rpc.Types.{Term}
use raft_rsm.Raft.State.{
  Host, Core, follower, Event, at, never, transition, emit, is_leader, persist_term_and_vote,
}

-- A higher term is saved with no vote, and its leader is not known yet.
unfoldable pub adopt_term : {S : Type 0} → Core S → Term → Core S
adopt_term c t =
    if ltb c.current_term t then record (persist_term_and_vote c t none) { leader_id = none } else c

module _ {S : Type 0} (host : Host S) where
  unfoldable pub reset_election_timer : Core S → Core S
  reset_election_timer c = record c {
    election_deadline =
        at (c.now + host.draw c.drawn c.cfg.election_timeout_min c.cfg.election_timeout_max);
    drawn = suc c.drawn;
  }

  -- `start`.
  unfoldable pub start : Core S → Core S
  start c = reset_election_timer c

  -- A deposed leader arms an election timer.
  unfoldable pub retire : Core S → Core S
  retire c =
      if is_leader c.role then reset_election_timer (record c { heartbeat_deadline = never }) else c

  unfoldable pub become_follower : Core S → Term → Event → Core S
  become_follower c t event =
      let c' = record (retire (adopt_term c t)) { role = follower } in
      emit c' (transition c'.current_term follower event)
