-- ===== src/Tests/Clients.antt =====
-- Concrete requests for src/client/client_service.cpp.
use raft_rsm.Prelude.{ℕ, ◌≡◌, refl, false, some, List, [], ◌∷◌, ◌++◌, arith}
use raft_rsm.Rpc.Types.{Bytes, ClientRequest, LogEntry, NodeId, ok}
use raft_rsm.Rpc.Wire.{read_word, read_bytes, of_le}
use raft_rsm.Storage.Log.{entry_at}
use raft_rsm.Raft.State.{never}
use raft_rsm.Raft.Leader.{stamp}
use raft_rsm.Client.Pending.{pending_table, no_slots}
use raft_rsm.Client.Service.{
  Buffered, ClientService, decode_prefix, is_same, on_applied, flush_batch, requests,
}
use raft_rsm.Client.Service.Batches.{accepted_all, requests-log}
use raft_rsm.Client.Service.Answers.{flush_batch_answered}
use raft_rsm.Tests.Fixtures.{host, leading, entry}

-- The command with number n of client 9, whose payload is one byte.
abbrev command : ℕ → Bytes
command n = 9 ∷ 0 ∷ 0 ∷ 0 ∷ 0 ∷ 0 ∷ 0 ∷ 0 ∷ n ∷ 0 ∷ 0 ∷ 0 ∷ 0 ∷ 0 ∷ 0 ∷ 0 ∷ 42 ∷ []

abbrev request : ℕ → NodeId × ClientRequest
request n = (100, record { client_id = 9; seq_no = n; command = command n })

-- A request whose fields and command disagree.
abbrev mislabelled : NodeId × ClientRequest
mislabelled = (101, record { client_id = 9; seq_no = 7; command = command 3 })

-- The service of a leader that batches three commands.
abbrev service : ClientService (List Bytes)
service = record {
  core = leading;
  max_batch = 3;
  linger = 5;
  buffer = [];
  deadline_armed = false;
  batch_deadline = never;
  pending = pending_table 3;
  leader_hint = 0;
  sent = [];
}

abbrev buffered : ℕ → Buffered
buffered n = record { from = 100; client_id = 9; seq_no = n; command = command n }

abbrev holding : ClientService (List Bytes)
holding = record service { buffer = buffered 1 ∷ buffered 2 ∷ [] }

requests-log_example :
    let s' = flush_batch host (
      requests host
        (record service { max_batch = 2 })
        (request 1 ∷ mislabelled ∷ request 2 ∷ request 3 ∷ [])) in
    (s'.core.log
      ≡ leading.log
        ++ stamp 2 (accepted_all (request 1 ∷ mislabelled ∷ request 2 ∷ request 3 ∷ [])))
    × (s'.buffer ≡ [])
requests-log_example =
    requests-log host service 2 (request 1 ∷ mislabelled ∷ request 2 ∷ request 3 ∷ []) refl refl

accepted_all_example :
    accepted_all (request 1 ∷ mislabelled ∷ request 2 ∷ []) ≡ command 1 ∷ command 2 ∷ []
unfolding decode_prefix is_same read_word read_bytes of_le
accepted_all_example = refl

flush_batch_answered_example :
    let s' = flush_batch host holding in
    let e : LogEntry = record { term = 2; command = command 2 } in
    let s1 = on_applied s' 5 e (1 ∷ []) in
    (entry_at s'.core.log 5 ≡ some e)
    × (s1.sent ≡ (100, record { status = ok; leader_hint = s'.core.self; result = 1 ∷ [] }) ∷ [])
    × ((on_applied s1 5 (entry 3) []).sent ≡ s1.sent)
unfolding decode_prefix no_slots is_same read_word read_bytes of_le
flush_batch_answered_example =
    flush_batch_answered host holding 1 (buffered 2) (entry 3) (1 ∷ []) [] refl (omega arith)
      (omega arith) refl refl
