-- ===== src/Client/Service.antt =====
-- src/client/client_service.cpp: requests are checked, proposed one by one or in batches, and
-- answered when their entry is applied. The replies that `send_` is given are recorded, the latest
-- first. A cluster of one node, which would apply within the proposal, is excluded by the source.
pub mod Proposals
pub mod Batches
pub mod Answers
use raft_rsm.Prelude.{
  ℕ, ◌+◌, Bool, true, false, not, ◌&&◌, Option, none, some, List, [], ◌∷◌, ◌++◌, map, ltb, leb,
  ◌==◌, if◌then◌else◌, length, add64,
}
use raft_rsm.Rpc.Types.{
  Bytes, ClientReply, ClientRequest, LogEntry, LogIndex, NodeId, ok, not_leader, error,
}
use raft_rsm.Rpc.Wire.{Reader, reader, read_u64}
use raft_rsm.Raft.State.{Host, Core, TimePoint, at, never, is_due, is_leader}
use raft_rsm.Raft.Leader.{propose, propose_batch, is_empty}
use raft_rsm.Client.Pending
use raft_rsm.Client.Pending.{Pending, PendingTable}

abbrev pub session_prefix_size : ℕ
session_prefix_size = 16

-- `decodePrefix`: the client and the sequence number that a command begins with.
unfoldable pub decode_prefix : Bytes → Option (ℕ × ℕ)
decode_prefix command =
    let (client_id, r) = read_u64 (reader command) in
    let (seq_no, r') = read_u64 r in
    if ltb (length command) session_prefix_size
    then none
    else if r'.ok
    then some (client_id, seq_no)
    else none

-- The identity is the expected one.
unfoldable pub is_same : Option (ℕ × ℕ) → ℕ → ℕ → Bool
is_same none client_id seq_no = false
is_same (some (c, q)) client_id seq_no = (c == client_id) && (q == seq_no)

pub record Buffered : Type 0 where
  pub from : NodeId
  pub client_id : ℕ
  pub seq_no : ℕ
  pub command : Bytes

-- The fields, with the core and the replies sent. The linger is in the unit of the time points.
pub record ClientService (S : Type 0) : Type 0 where
  pub core : Core S
  pub max_batch : ℕ
  pub linger : ℕ
  pub buffer : List Buffered
  pub deadline_armed : Bool
  pub batch_deadline : TimePoint
  pub pending : PendingTable
  pub leader_hint : NodeId
  pub sent : List (NodeId × ClientReply)

-- `leaderId().value_or(0)`.
abbrev pub hint_of : Option NodeId → NodeId
hint_of none = 0
hint_of (some n) = n

abbrev pub pending_of : Buffered → Pending
pending_of b = record { reply_to = b.from; client_id = b.client_id; seq_no = b.seq_no }

abbrev pub commands_of : List Buffered → List Bytes
commands_of = map (λ b. b.command)

abbrev pub not_leader_reply : NodeId → ClientReply
not_leader_reply hint = record { status = not_leader; leader_hint = hint; result = [] }

-- The requests of a batch wait at consecutive indices.
unfoldable pub put_all : LogIndex → List Buffered → PendingTable → PendingTable
put_all index [] t = t
put_all index (b ∷ bs) t = put_all (add64 index 1) bs (Pending.put index (pending_of b) t)

module _ {S : Type 0} where
  unfoldable pub reply : ClientService S → NodeId → ClientReply → ClientService S
  reply s to r = record s { sent = (to, r) ∷ s.sent }

  unfoldable pub reply_each : ClientService S → List Buffered → ClientReply → ClientService S
  reply_each s [] r = s
  reply_each s (b ∷ bs) r = reply_each (reply s b.from r) bs r

  -- The end of `flushBatch`.
  unfoldable pub clear_batch : ClientService S → ClientService S
  clear_batch s = record s { buffer = []; deadline_armed = false; batch_deadline = never }

  -- `flushBatch` after the proposal.
  unfoldable pub after_batch : ClientService S → Option LogIndex → ClientService S
  after_batch s none =
      clear_batch (reply_each s s.buffer (not_leader_reply (hint_of s.core.leader_id)))
  after_batch s (some first) = clear_batch (record s { pending = put_all first s.buffer s.pending })

  -- The direct path after the proposal.
  unfoldable pub after_propose :
      ClientService S → NodeId → ClientRequest → Option LogIndex → ClientService S
  after_propose s from req none = reply s from (not_leader_reply 0)
  after_propose s from req (some index) = record s {
    pending =
        Pending.put index
          (record { reply_to = from; client_id = req.client_id; seq_no = req.seq_no }) s.pending;
  }

  -- `onApplied`, on the request that waits at the index.
  unfoldable pub answer : ClientService S → LogEntry → Bytes → Pending → ClientService S
  answer s e result p =
      if is_same (decode_prefix e.command) p.client_id p.seq_no
      then reply s p.reply_to (record { status = ok; leader_hint = s.core.self; result = result })
      else reply s p.reply_to (not_leader_reply s.leader_hint)

  unfoldable pub on_applied : ClientService S → LogIndex → LogEntry → Bytes → ClientService S
  on_applied s index e result =
      let (p, t) = Pending.take index s.pending in
      elim p [ none ↦ s | some p ↦ answer (record s { pending = t }) e result p ]

module _ {S : Type 0} (host : Host S) where
  unfoldable pub flush_batch : ClientService S → ClientService S
  flush_batch s =
      let (core, first) = propose_batch host s.core (commands_of s.buffer) in
      if is_empty (commands_of s.buffer) then s else after_batch (record s { core = core }) first

  -- The batched path: buffer, and flush at the size.
  unfoldable pub buffer_request : ClientService S → NodeId → ClientRequest → ClientService S
  buffer_request s from req =
      let b : Buffered = record {
        from = from;
        client_id = req.client_id;
        seq_no = req.seq_no;
        command = req.command;
      } in
      let s' = record s { buffer = s.buffer ++ b ∷ [] } in
      if leb s'.max_batch (length s'.buffer) then flush_batch s' else s'

  -- A request that passed the checks.
  unfoldable pub accept_request : ClientService S → NodeId → ClientRequest → ClientService S
  accept_request s from req =
      let (core, index) = propose host s.core req.command in
      if ltb 1 s.max_batch
      then buffer_request s from req
      else after_propose (record s { core = core }) from req index

  unfoldable pub on_client_request : ClientService S → NodeId → ClientRequest → ClientService S
  on_client_request s from req =
      let s' = record s { leader_hint = hint_of s.core.leader_id } in
      if not (is_leader s.core.role)
      then reply s' from (not_leader_reply (hint_of s.core.leader_id))
      else if not (is_same (decode_prefix req.command) req.client_id req.seq_no)
      then reply s' from (record { status = error; leader_hint = 0; result = [] })
      else accept_request s' from req

  -- `flushIfDue`: the deadline is armed at the first look at a batch.
  unfoldable pub flush_if_due : ClientService S → ℕ → ClientService S × TimePoint
  flush_if_due s now =
      let armed =
        if s.deadline_armed
        then s
        else record s { batch_deadline = at (now + s.linger); deadline_armed = true } in
      let s' = if is_due now armed.batch_deadline then flush_batch armed else armed in
      if is_empty (commands_of s.buffer)
      then (s, never)
      else (s', if is_empty (commands_of s'.buffer) then never else s'.batch_deadline)

  -- Requests as they arrive.
  unfoldable pub requests : ClientService S → List (NodeId × ClientRequest) → ClientService S
  requests s [] = s
  requests s ((from, req) ∷ rest) = requests (on_client_request s from req) rest
