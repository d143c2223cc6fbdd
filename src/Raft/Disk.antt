-- ===== src/Raft/Disk.antt =====
-- What a node has made durable (src/raft/raft_core.cpp with the seams of
-- src/raft/persistent_state.h and src/storage/log.h), and what its messages promise.
pub mod Sends
pub mod Steps
pub mod Runs
pub mod Votes
use raft_rsm.Prelude.{
  ℕ, ◌≤◌, ◌<◌, ◌≡◌, ◌⊎◌, Bool, true, Option, none, some, List, [], ◌∷◌, ◌++◌, length,
}
use raft_rsm.Rpc.Types.{
  LogIndex, NodeId, Term, Message, request_vote, request_vote_reply, append_entries,
  append_entries_reply,
}
use raft_rsm.Storage.Log.{Log, term_at, entries_from, truncate_suffix_from}
use raft_rsm.Raft.State.{Core, Output, save, log_append, log_truncate, send}

pub record Disk : Type 0 where
  pub term : Term
  pub vote : Option NodeId
  pub log : Log

-- One write of the node.
abbrev pub write : Disk → Output → Disk
write d (save t v) = record d { term = t; vote = v }
write d (log_append es) = record d { log = d.log ++ es }
write d (log_truncate i) = record d { log = truncate_suffix_from d.log i }
write d _ = d

-- The disk after a history, which is kept latest first.
abbrev pub recover : Disk → List Output → Disk
recover d [] = d
recover d (o ∷ os) = write (recover d os) o

-- What a restart after this instant would read: the part of the state that must survive.
abbrev pub disk : {S : Type 0} → Core S → Disk
disk c = record { term = c.current_term; vote = c.voted_for; log = c.log }

-- What a message tells its receiver about the sender's disk.
abbrev pub Promise : Disk → Message → Type 0
Promise d (request_vote m) =
    (d.term ≡ m.term)
    × (d.vote ≡ some m.candidate_id)
    × (m.last_log_index ≡ length d.log)
    × (m.last_log_term ≡ term_at d.log (length d.log))
Promise d (request_vote_reply m) =
    m.vote_granted ≡ true → (d.term ≡ m.term) × ((v : NodeId) × (d.vote ≡ some v))
Promise d (append_entries m) =
    (d.term ≡ m.term)
    × (m.prev_log_term ≡ term_at d.log m.prev_log_index)
    × ((i : LogIndex) × (m.entries ≡ entries_from d.log i))
Promise d (append_entries_reply m) =
    m.success ≡ true → (d.term ≡ m.term) × (m.conflict_index ≤ length d.log)
Promise d _ = Unit

-- A save raises the term, or it keeps the term and a vote that was given.
abbrev pub Raises : Disk → Term → Option NodeId → Type 0
Raises d t v = (d.term < t) ⊎ ((t ≡ d.term) × ((d.vote ≡ none) ⊎ (v ≡ d.vote)))

abbrev pub Kept : Disk → Output → Type 0
Kept d (save t v) = Raises d t v
Kept d (send to m) = Promise d m
Kept d _ = Unit

-- At every save of a history the ballot moves forward, and at every message what it promises was
-- on the disk when it was sent.
abbrev pub Backed : Disk → List Output → Type 0
Backed d [] = Unit
Backed d (o ∷ os) = Kept (recover d os) o × Backed d os

-- The disk holds the state, and every save and message so far was backed.
abbrev pub Durable : Disk → {S : Type 0} → Core S → Type 0
Durable d c = (recover d c.out ≡ disk c) × Backed d c.out
