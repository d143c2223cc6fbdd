-- ===== src/Tests/Fixtures.antt =====
-- Concrete nodes for the tests of src/raft: node 1 of a cluster of three.
use raft_rsm.Prelude.{none, some, List, [], ◌∷◌, ◌++◌}
use raft_rsm.Rpc.Types.{Bytes, LogEntry, Term, AppendEntries}
use raft_rsm.Storage.Log.{Log}
use raft_rsm.Raft.State.{Host, Core, leader, follower, RaftConfig, at, never}

-- A state machine that keeps its commands and answers with each.
abbrev pub host : Host (List Bytes)
host = record { draw = λ k lo hi. lo; apply = λ s x. (x, s ++ x ∷ []); sink = none }

abbrev pub entry : Term → LogEntry
entry t = record { term = t; command = t ∷ [] }

abbrev pub three_terms : Log
three_terms = entry 1 ∷ entry 1 ∷ entry 2 ∷ []

abbrev pub config : RaftConfig
config = record { election_timeout_min = 150; election_timeout_max = 300; heartbeat_interval = 50 }

-- A follower of term 2 that voted for node 2.
abbrev pub node : Core (List Bytes)
node = record {
  self = 1;
  peers = 2 ∷ 3 ∷ [];
  cfg = config;
  current_term = 2;
  voted_for = some 2;
  log = three_terms;
  sm = [];
  now = 1000;
  drawn = 0;
  offers = 0;
  role = follower;
  leader_id = some 2;
  votes_from = [];
  election_deadline = at 1150;
  heartbeat_deadline = never;
  commit_index = 1;
  last_applied = 0;
  next_index = [];
  match_index = [];
  out = [];
}

-- The leader of term 2, with one peer that holds the whole log.
abbrev pub leading : Core (List Bytes)
leading = record node {
  role = leader;
  voted_for = some 1;
  leader_id = some 1;
  election_deadline = never;
  heartbeat_deadline = at 1050;
  next_index = (2, 4) ∷ (3, 1) ∷ [];
  match_index = (2, 3) ∷ (3, 0) ∷ [];
}

-- Index 2 is in the log with term 1, index 3 conflicts, index 4 is new.
abbrev pub conflicting : AppendEntries
conflicting = record {
  term = 3;
  leader_id = 3;
  prev_log_index = 1;
  prev_log_term = 1;
  leader_commit = 2;
  entries = entry 1 ∷ entry 3 ∷ entry 3 ∷ [];
}

-- A delayed message, whose one entry the log holds.
abbrev pub delayed : AppendEntries
delayed = record {
  term = 2;
  leader_id = 2;
  prev_log_index = 1;
  prev_log_term = 1;
  leader_commit = 1;
  entries = entry 1 ∷ [];
}
