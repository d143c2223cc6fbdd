-- ===== src/Raft/State.antt =====
-- The state of src/raft/raft_core.h's `RaftCore`, with the seams it is given: PersistentState
-- (src/raft/persistent_state.h), Clock (src/raft/clock.h), the generator and the callbacks.
use raft_rsm.Prelude.{
  ℕ, ◌+◌, ◌/◌, Bool, true, false, Option, none, List, [], ◌∷◌, ◌++◌, leb, ◌==◌, if◌then◌else◌,
  length,
}
use raft_rsm.Rpc.Types.{Bytes, ClientRequest, LogEntry, LogIndex, Message, NodeId, Term}
use raft_rsm.Storage.Log.{Log}

pub data Role : Type 0 where
  follower candidate leader : Role

-- The `event` strings of the transition observer.
pub data Event : Type 0 where
  higher_term_seen leader_discovered election_started won_election : Event

-- `TimePoint`: milliseconds since the clock's epoch, or `TimePoint::max()`.
pub data TimePoint : Type 0 where
  at : ℕ → TimePoint
  never : TimePoint

-- `now >= deadline`.
abbrev pub is_due : ℕ → TimePoint → Bool
is_due now (at t) = leb t now
is_due now never = false

-- `std::min` of two deadlines.
abbrev pub earlier : TimePoint → TimePoint → TimePoint
earlier (at a) (at b) = if leb a b then at a else at b
earlier (at a) never = at a
earlier never d = d

pub record RaftConfig : Type 0 where
  pub election_timeout_min : ℕ
  pub election_timeout_max : ℕ
  pub heartbeat_interval : ℕ

-- What the core does to its surroundings, kept with the latest first: saves of the persistent state, writes of the
-- log, messages, observer calls, client requests passed on, and entries applied or handed off.
pub data Output : Type 0 where
  save : Term → Option NodeId → Output
  log_append : List LogEntry → Output
  log_truncate : LogIndex → Output
  send : NodeId → Message → Output
  transition : Term → Role → Event → Output
  client : NodeId → ClientRequest → Output
  applied : LogIndex → LogEntry → Bytes → Output
  handed_off : LogIndex → LogEntry → Output

-- What the core calls and does not implement: `draw k lo hi` is the k-th value that the seeded
-- generator gives in [lo, hi]; `apply` is the state machine's; `sink`, where one is set, answers the
-- k-th offer of an entry.
pub record Host (S : Type 0) : Type 0 where
  pub draw : ℕ → ℕ → ℕ → ℕ
  pub apply : S → Bytes → Bytes × S
  pub sink : Option (ℕ → LogIndex → LogEntry → Bool)

-- `std::map<NodeId, LogIndex>`.
abbrev pub IndexMap : Type 0
IndexMap = List (NodeId × LogIndex)

-- The value at a key; `operator[]` gives 0 for a missing key.
unfoldable pub get : IndexMap → NodeId → LogIndex
get [] k = 0
get ((j, v) ∷ m) k = if j == k then v else get m k

unfoldable pub put : IndexMap → NodeId → LogIndex → IndexMap
put [] k v = (k, v) ∷ []
put ((j, w) ∷ m) k v = if j == k then (k, v) ∷ m else (j, w) ∷ put m k v

-- What reading through `operator[]` leaves: a missing key is inserted with 0.
abbrev pub touch : IndexMap → NodeId → IndexMap
touch m k = put m k (get m k)

-- `std::set<NodeId>::insert`.
unfoldable pub insert : NodeId → List NodeId → List NodeId
insert x [] = x ∷ []
insert x (y ∷ ys) = if y == x then y ∷ ys else y ∷ insert x ys

pub record Core (S : Type 0) : Type 0 where
  pub self : NodeId
  pub peers : List NodeId
  pub cfg : RaftConfig
  pub current_term : Term
  pub voted_for : Option NodeId
  pub log : Log
  pub sm : S
  pub now : ℕ
  pub drawn : ℕ
  pub offers : ℕ
  pub role : Role
  pub leader_id : Option NodeId
  pub votes_from : List NodeId
  pub election_deadline : TimePoint
  pub heartbeat_deadline : TimePoint
  pub commit_index : LogIndex
  pub last_applied : LogIndex
  pub next_index : IndexMap
  pub match_index : IndexMap
  pub out : List Output

abbrev pub is_leader : Role → Bool
is_leader leader = true
is_leader _ = false

abbrev pub is_candidate : Role → Bool
is_candidate candidate = true
is_candidate _ = false

module _ {S : Type 0} where
  abbrev pub emit : Core S → Output → Core S
  emit c o = record c { out = o ∷ c.out }

  -- `majority`.
  abbrev pub majority : Core S → ℕ
  majority c = (length c.peers + 1) / 2 + 1

  -- `nextDeadline`.
  abbrev pub next_deadline : Core S → TimePoint
  next_deadline c = earlier c.election_deadline c.heartbeat_deadline

  -- `ManualClock::advance`.
  abbrev pub advance : Core S → ℕ → Core S
  advance c d = record c { now = c.now + d }

  -- `persistTermAndVote`, which is `PersistentState::save`.
  unfoldable pub persist_term_and_vote : Core S → Term → Option NodeId → Core S
  persist_term_and_vote c t v = record (emit c (save t v)) { current_term = t; voted_for = v }

  -- `log_.append` and `log_.truncateSuffixFrom`.
  unfoldable pub append_log : Core S → List LogEntry → Core S
  append_log c es = record (emit c (log_append es)) { log = c.log ++ es }

-- The core as it is constructed, over a persistent state and a log that may hold earlier data.
unfoldable pub init :
    {S : Type 0} → NodeId → List NodeId → RaftConfig → Term → Option NodeId → Log → S → ℕ → Core S
init self peers cfg t v log sm now = record {
  self = self;
  peers = peers;
  cfg = cfg;
  current_term = t;
  voted_for = v;
  log = log;
  sm = sm;
  now = now;
  drawn = 0;
  offers = 0;
  role = follower;
  leader_id = none;
  votes_from = [];
  election_deadline = never;
  heartbeat_deadline = never;
  commit_index = 0;
  last_applied = 0;
  next_index = [];
  match_index = [];
  out = [];
}
