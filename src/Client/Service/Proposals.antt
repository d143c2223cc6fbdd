-- ===== src/Client/Service/Proposals.antt =====
-- What the proposals of src/client/client_service.cpp do to a core that leads.
use raft_rsm.Prelude.{◌≡◌, refl, true, false, some, List, [], ◌∷◌, ◌++◌, length, add64, sub64}
use raft_rsm.Rpc.Types.{Bytes, LogIndex}
use raft_rsm.Storage.Log.{last_index}
use raft_rsm.Raft.State.{Host, Core, is_leader, append_log}
use raft_rsm.Raft.Leader.{propose, propose_batch, replicate, stamp, is_empty}
use raft_rsm.Raft.Frame.{replicate-Same}
use raft_rsm.Client.Service.{
  ClientService, commands_of, clear_batch, after_batch, put_all, flush_batch,
}

-- What a proposal to a leader leaves.
pub record Grown {S : Type 0} (c c' : Core S) (commands : List Bytes) : Type 0 where
  pub log : c'.log ≡ c.log ++ stamp c.current_term commands
  pub current_term : c'.current_term ≡ c.current_term
  pub role : c'.role ≡ c.role
  pub self : c'.self ≡ c.self

module _ {S : Type 0} (host : Host S) where
  replicate-Grown :
      (c : Core S) (commands : List Bytes)
      → Grown c (replicate host (append_log c (stamp c.current_term commands))) commands
  unfolding append_log
  replicate-Grown c commands =
      let same = replicate-Same host (append_log c (stamp c.current_term commands)) in
      record {
        log = same.log;
        current_term = same.current_term;
        role = same.role;
        self = same.self;
      }

  pub propose-Grown :
      (c : Core S) (command : Bytes)
      → is_leader c.role ≡ true
      → Grown c (propose host c command).0 (command ∷ [])
  unfolding propose
  propose-Grown c command h = rw (propose, h) (replicate-Grown c (command ∷ []))

  pub propose_batch-Grown :
      (c : Core S) (commands : List Bytes)
      → is_leader c.role ≡ true
      → is_empty commands ≡ false
      → Grown c (propose_batch host c commands).0 commands
  unfolding propose_batch
  propose_batch-Grown c commands h k = rw (propose_batch, h, k) (replicate-Grown c commands)

abbrev pub first_of : {S : Type 0} → Core S → List Bytes → LogIndex
first_of c commands = add64 (sub64 (last_index c.log) (length commands)) 1

module _ {S : Type 0} (host : Host S) where
  pub propose_batch-index :
      (c : Core S) (commands : List Bytes)
      → is_leader c.role ≡ true
      → is_empty commands ≡ false
      → (propose_batch host c commands).1
        ≡ some (first_of (append_log c (stamp c.current_term commands)) commands)
  unfolding propose_batch append_log
  propose_batch-index c commands h k = rw (propose_batch, h, k) refl

  -- What a flush of a leader's batch leaves.
  pub flush_batch_leader :
      (s : ClientService S)
      → is_leader s.core.role ≡ true
      → is_empty (commands_of s.buffer) ≡ false
      → flush_batch host s
        ≡ clear_batch (record s {
          core = (propose_batch host s.core (commands_of s.buffer)).0;
          pending =
              put_all
                (first_of
                  (append_log s.core (stamp s.core.current_term (commands_of s.buffer)))
                  (commands_of s.buffer))
                s.buffer
                s.pending;
        })
  unfolding flush_batch after_batch
  flush_batch_leader s h k =
      rw (flush_batch, k, propose_batch-index s.core (commands_of s.buffer) h k) refl
