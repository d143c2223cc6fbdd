-- ===== src/Raft/Cluster.antt =====
-- A cluster of the nodes of src/raft/raft_core.cpp, started and restarted as the constructor does
-- it, whose messages may be lost, doubled, delayed and reordered.
pub mod Sound
pub mod Safety
use raft_rsm.Prelude.{
  ℕ, ◌≡◌, ◌⊎◌, Bool, true, false, Option, none, List, [], ◌∷◌, ◌==◌, if◌then◌else◌, elem, Distinct,
}
use raft_rsm.Rpc.Types.{NodeId, Message, client_request, client_reply}
use raft_rsm.Raft.State.{Host, Core, RaftConfig, follower, never}
use raft_rsm.Raft.Handle.{Call, receives, step}
use raft_rsm.Raft.Disk.{Disk, recover}
use raft_rsm.Raft.Disk.Runs.{Room}
use raft_rsm.Raft.Elections.Wins.{Sent}

-- `RaftCore::RaftCore` and the members' initial values: term, vote and log are those on the disk.
unfoldable pub construct :
    {S : Type 0} → NodeId → List NodeId → RaftConfig → Disk → S → ℕ → ℕ → Core S
construct self peers cfg disk sm now drawn = record {
  self = self;
  peers = peers;
  cfg = cfg;
  current_term = disk.term;
  voted_for = disk.vote;
  log = disk.log;
  sm = sm;
  now = now;
  drawn = drawn;
  offers = 0;
  role = follower;
  leader_id = none;
  votes_from = [];
  election_deadline = never;
  heartbeat_deadline = never;
  commit_index = 0;
  last_applied = 0;
  next_index = [];
  match_index = [];
  out = [];
}

-- What the nodes are made from.
pub record Setup (S : Type 0) : Type 0 where
  pub members : List NodeId
  pub host : NodeId → Host S
  pub peers : NodeId → List NodeId
  pub cfg : NodeId → RaftConfig
  pub disk : NodeId → Disk
  pub sm : NodeId → S

-- A call on a node, or a crash of it and its restart with any clock and seed.
pub data Event (S : Type 0) : Type 0 where
  calls : NodeId → Call → Event S
  restarts : NodeId → S → ℕ → ℕ → Event S

abbrev pub is_client : Message → Bool
is_client (client_request m) = true
is_client (client_reply m) = true
is_client _ = false

module _ {S : Type 0} where
  unfoldable pub set : (NodeId → Core S) → NodeId → Core S → NodeId → Core S
  set nodes i c j = if i == j then c else nodes j

module _ {S : Type 0} (setup : Setup S) where
  unfoldable pub boot : NodeId → Core S
  boot j = construct j (setup.peers j) (setup.cfg j) (setup.disk j) (setup.sm j) 0 0

  -- All memory is lost, and what was written is read back; the history goes on.
  unfoldable pub restart : NodeId → Core S → S → ℕ → ℕ → Core S
  restart i c sm now drawn =
      record (construct c.self c.peers c.cfg (recover (setup.disk i) c.out) sm now drawn) {
        out = c.out;
      }

  unfoldable pub happen : (NodeId → Core S) → Event S → NodeId → Core S
  happen nodes (calls i x) = set nodes i (step (setup.host i) (nodes i) x)
  happen nodes (restarts i sm now drawn) = set nodes i (restart i (nodes i) sm now drawn)

  unfoldable pub happen_all : (NodeId → Core S) → List (Event S) → NodeId → Core S
  happen_all nodes [] = nodes
  happen_all nodes (e ∷ es) = happen_all (happen nodes e) es

  -- A message that arrives is a client's, or a member sent it to this node at some time before.
  abbrev pub Arrives : (NodeId → Core S) → NodeId → Call → Type 0
  Arrives nodes i (receives from m) =
      (is_client m ≡ true) ⊎ ((elem from setup.members ≡ true) × Sent i m (nodes from).out)
  Arrives nodes i _ = Unit

  abbrev pub Allowed : (NodeId → Core S) → Event S → Type 0
  Allowed nodes (calls i x) = (elem i setup.members ≡ true) × Arrives nodes i x × Room (nodes i) x
  Allowed nodes (restarts i sm now drawn) = elem i setup.members ≡ true

  abbrev pub AllAllowed : (NodeId → Core S) → List (Event S) → Type 0
  AllAllowed nodes [] = Unit
  AllAllowed nodes (e ∷ es) = Allowed nodes e × AllAllowed (happen nodes e) es
