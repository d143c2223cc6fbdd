-- ===== src/Raft/Handle.antt =====
-- src/raft/raft_core.cpp: `termOf` and `handle`; and a node's life as a sequence of calls.
use raft_rsm.Prelude.{◌∷◌, Option, none, some, List, [], ltb, if◌then◌else◌, ℕ}
use raft_rsm.Rpc.Types.{
  Bytes, NodeId, Term, Message, request_vote, request_vote_reply, append_entries,
  append_entries_reply, client_request, client_reply,
}
use raft_rsm.Raft.State.{Host, Core, higher_term_seen, client, emit, advance}
use raft_rsm.Raft.Roles.{become_follower, start}
use raft_rsm.Raft.Apply.{apply_committed}
use raft_rsm.Raft.Leader.{propose, propose_batch, on_append_entries_reply}
use raft_rsm.Raft.Election.{tick, on_request_vote, on_request_vote_reply}
use raft_rsm.Raft.Follower.{on_append_entries}

-- `termOf`: client messages carry no term.
unfoldable pub term_of : Message → Option Term
term_of (request_vote m) = some m.term
term_of (request_vote_reply m) = some m.term
term_of (append_entries m) = some m.term
term_of (append_entries_reply m) = some m.term
term_of (client_request m) = none
term_of (client_reply m) = none

-- A call into the core from the event loop, or time passing.
pub data Call : Type 0 where
  starts ticks pumps : Call
  receives : NodeId → Message → Call
  proposes : Bytes → Call
  proposes_batch : List Bytes → Call
  waits : ℕ → Call

module _ {S : Type 0} (host : Host S) where
  -- The universal term rule.
  unfoldable pub lift_term : Core S → Option Term → Core S
  lift_term c none = c
  lift_term c (some t) =
      if ltb c.current_term t then become_follower host c t higher_term_seen else c

  unfoldable pub dispatch : Core S → NodeId → Message → Core S
  dispatch c from (request_vote m) = on_request_vote host c from m
  dispatch c from (request_vote_reply m) = on_request_vote_reply host c from m
  dispatch c from (append_entries m) = on_append_entries host c from m
  dispatch c from (append_entries_reply m) = on_append_entries_reply host c from m
  dispatch c from (client_request m) = emit c (client from m)
  dispatch c from (client_reply m) = c

  unfoldable pub handle : Core S → NodeId → Message → Core S
  handle c from m = dispatch (lift_term c (term_of m)) from m

  unfoldable pub step : Core S → Call → Core S
  step c starts = start host c
  step c ticks = tick host c
  step c pumps = apply_committed host c
  step c (receives from m) = handle c from m
  step c (proposes command) = (propose host c command).0
  step c (proposes_batch commands) = (propose_batch host c commands).0
  step c (waits d) = advance c d

  unfoldable pub run : Core S → List Call → Core S
  run c [] = c
  run c (call ∷ calls) = run (step c call) calls
