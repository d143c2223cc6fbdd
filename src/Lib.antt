-- ===== src/Lib.antt =====
-- A Raft replicated state machine: the consensus core, the messages and their bytes, the log, and
-- the state machines that the log drives.
--
-- The program. `RaftCore` (src/raft/raft_core.cpp) is one node's consensus state: it takes
-- messages, clock ticks and client proposals, keeps a persistent term and vote
-- (src/raft/persistent_state.h) and a log of entries (src/storage/log.h, or
-- src/storage/durable_log.cpp with its file), sends messages to its peers (src/rpc/messages.cpp
-- gives their bytes), and applies committed entries, in index order, to a state machine
-- (src/statemachine/kv_store.cpp or src/statemachine/order_book.cpp) or hands them to a sink. A
-- state machine keeps a session per client, so that a retried command acts once.
--
-- The files.
--   Prelude: numbers, tests, lists and 64-bit arithmetic that the components share.
--   Rpc/Types: src/rpc/messages.h, the message types.
--   Rpc/Wire: src/rpc/wire.h, `Writer` and `Reader`. A writer holds its capacity, the bytes
--     written and its failure flag; a reader holds the bytes that remain and its flag.
--   Rpc/Encode, Rpc/Decode: src/rpc/messages.cpp. Decoders are functions of the reader that fail
--     as the code returns false. Their child modules hold the layout and the round trip.
--   Storage/Log: src/storage/log.h, `InMemoryLog`, as the list of its entries.
--   Storage/DurableLog: src/storage/durable_log.cpp, the log with its file, over any checksum
--     below 2^32; its children hold the records, the replay, the recovery after a crash and the
--     file kept in step.
--   Storage/DurableState: src/storage/durable_state.cpp, the metadata file with the term and the
--     vote.
--   Raft/State: the fields of `RaftCore`, with what it is given (`Host`) and what it does
--     (`Output`).
--   Raft/Apply: `applyCommitted`. Raft/Roles: `becomeFollower`, `resetElectionTimer`, `start`.
--   Raft/Leader: `becomeLeader`, `sendAppendEntries`, `sendHeartbeats`, `propose`,
--     `proposeBatch`, `advanceCommit`, `onAppendEntriesReply`.
--   Raft/Election: `startElection`, `tick`, `onRequestVote`, `onRequestVoteReply`.
--   Raft/Follower: `onAppendEntries`. Raft/Handle: `handle`, and runs of calls.
--   Raft/Rules, Raft/Frame: case rules of the handlers, and the fields that applying entries leaves alone.
--   Raft/Elections: what backs a candidacy and each election won; Sends, Candidacies, Ballots and Calls follow the
--     calls, Wins reads it off a history.
--   Raft/Cluster: nodes that are built and restarted as faults/sim_harness.cpp does it, over any
--     network; Sound is what holds of every node, Safety is about leaders.
--   Raft/Ballot, Raft/Applied, Raft/Merge, Raft/Disk, Raft/Commit, Raft/Hints: proofs about the
--     core. Applied/Quiet has the parts of the calls that apply nothing, Applied/Calls the others;
--     Hints/Sent is the follower's side of a failed check, Hints/Taken the leader's.
--   StateMachine/Map, StateMachine/Kv: src/statemachine/kv_store.cpp over ordered maps, with its
--     snapshots in Snapshot.
--   StateMachine/OrderBook: src/statemachine/order_book.cpp, the two books, `match`, `rest` and
--     `remove`; its Commands holds the formats and `apply`, Queries the accessors, Weights,
--     Rounds and Fills the proofs of the matching loop, and Sorted, Uncrossed, Steps and Runs
--     those of the book under commands.
--   Transport/Frame: src/transport/frame.h and frame.cpp, the length prefix and `FrameAssembler`;
--     Split is about a stream in parts, Streams about streams of frames.
--   Client/Pending: `PendingTable` of src/client/client_service.h. Client/Service:
--     src/client/client_service.cpp with the core inside; Proposals, Batches and Answers are about
--     what it proposes and how it answers.
--   Runtime/MpscRing: src/runtime/mpsc_ring.h, the accesses of its threads as steps; Valid is what
--     holds between them, Produces, Publishes, Consumes and Steps keep it, Runs is about
--     interleavings.
--   Runtime/SpscRing: src/runtime/spsc_ring.h in the same way; Valid and Moves keep what holds between
--     its steps, Runs is about interleavings.
--   Runtime/WakeGate: src/runtime/wake_gate.h with its mutex and condition variable; Wakes is what holds
--     between the steps, Runs is about sleeping and waking.
--   Faults/Linearizability: faults/linearizability.cpp; Model sets its register beside the store,
--     Orders says what a linearization is, Loop, Sound and Exhaustive are about the search, and
--     Histories about the check by keys.
--   Tests: concrete inputs.
--
-- The model. Numbers are natural numbers; 64-bit sums and differences that can wrap go through
-- `add64` and `sub64`. A call of the core sees one clock value, the field `now`, since the clock
-- moves only between calls of the event loop under the manual clock. Draws of the generator and
-- answers of the apply sink are functions of a counter, so that they may be anything. Saves, log
-- writes, messages and observer calls are recorded in `out`, the latest first; a client handler
-- that proposes within its call is the recorded request followed by a later call `proposes`.
-- An event of a cluster is a call
-- on one node, atomic, or a crash between calls with a restart from the disk, at any clock and seed;
-- a message may arrive whenever its sender's history holds it, so it may be lost, doubled, delayed
-- or reordered.
-- The steps of the rings are their loads, their stores and the
-- compare-exchange, in any interleaving and each taking effect at once; the positions stay below 2^63, or 2^64 for one producer.
-- Assertions are off, as in a release build. The loop that applies entries runs on fuel, the
-- distance from the last applied index to the commit index, which is the number of its rounds;
-- `entryAt` out of range, undefined in the code, ends it. The loop of `match` runs on fuel, the
-- number of orders on the other side: each round fills an order there or uses up the taker. What
-- the code leaves undefined there, an empty level or a price of the index with no level, ends the
-- loop or changes nothing. The loop of `replay` runs on fuel, the length of the file: each round
-- takes a record's bytes. The loop of `feed` runs on fuel, the number of buffered bytes: each round
-- takes a prefix at least. The search for a linearization runs on fuel, the number of operations: each
-- search within another has one more operation taken.
--
-- Not modelled: failing system calls, which throw; the recycling of buffers, which changes no
-- message; text logging; sockets, threads and system calls; the rest of the fault simulator, the benchmarks
-- and the tests.
pub mod Prelude
pub mod Rpc
pub mod Storage
pub mod Raft
pub mod StateMachine
pub mod Transport
pub mod Runtime
pub mod Faults
pub mod Client
pub mod Tests
