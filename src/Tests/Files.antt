-- ===== src/Tests/Files.antt =====
-- Runs of the durable log and the durable state and instances of their theorems, with the first
-- bytes as the checksum.
use raft_rsm.Prelude.{ℕ, ◌%◌, ◌^◌, ◌<◌, ◌≡◌, refl, some, none, [], ◌∷◌, arith, take}
use raft_rsm.Rpc.Types.{Bytes, LogEntry}
use raft_rsm.Rpc.Wire.{of_le}
use raft_rsm.Storage.Log.{truncate_suffix_from}
use raft_rsm.Storage.DurableLog.{
  DurableLog, records, record_offsets, records_size, append_entries, truncate, replay,
}
use raft_rsm.Storage.DurableLog.Recovery.{Synced, replay_cut}
use raft_rsm.Storage.DurableLog.Sync.{append_entries-Synced, truncate-Synced, replay-append_entries}
use raft_rsm.Storage.DurableState.{MetaFiles, meta_bytes, write_tmp, save, open_state}
use raft_rsm.Storage.DurableState.RoundTrip.{save_atomic}

abbrev sum : Bytes → ℕ
sum bs = of_le bs % 2 ^ 32

sum_small : (bs : Bytes) → sum bs < 2 ^ 32
sum_small bs = omega arith

abbrev one : LogEntry
one = record { term = 1; command = b'a' ∷ b'b' ∷ [] }

abbrev two : LogEntry
two = record { term = 2; command = b'c' ∷ [] }

-- A log of one entry, in step with its file.
abbrev opened : DurableLog
opened = record {
  file = records sum 0 (one ∷ []);
  entries = one ∷ [];
  offsets = 0 ∷ [];
  size = 26;
  torn_bytes_discarded = 0;
}

opened-Synced : Synced sum opened
unfolding record_offsets records_size
opened-Synced = record { file = refl; offsets = refl; size = refl }

replay_cut_example :
    (log : DurableLog) × (replay sum (take 40 (records sum 0 (one ∷ two ∷ []))) ≡ some log)
    × (log.entries ≡ one ∷ [])
    × Synced sum log
replay_cut_example = replay_cut sum sum_small (one ∷ two ∷ []) 40 (omega arith) (omega arith)

append_entries-Synced_example :
    Synced sum (append_entries sum opened (two ∷ []))
    × ((append_entries sum opened (two ∷ [])).entries ≡ one ∷ two ∷ [])
append_entries-Synced_example =
    append_entries-Synced sum sum_small opened (two ∷ []) opened-Synced (omega arith)

truncate-Synced_example :
    Synced sum (truncate opened 1)
    × ((truncate opened 1).entries ≡ truncate_suffix_from (one ∷ []) 1)
truncate-Synced_example = truncate-Synced sum sum_small opened 1 opened-Synced

replay-append_entries_example :
    (log : DurableLog) × (replay sum (take 30 (append_entries sum opened (two ∷ [])).file)
      ≡ some log)
    × (log.entries ≡ one ∷ [])
    × Synced sum log
replay-append_entries_example =
    replay-append_entries sum sum_small opened (two ∷ []) 30 opened-Synced (omega arith)
      (omega arith) (omega arith)

save_atomic_example :
    let files : MetaFiles = record { meta = none; tmp = some (7 ∷ []) } in
    ((k : ℕ) → open_state sum (write_tmp sum k 5 (some 3) files) ≡ open_state sum files)
    × (open_state sum (save sum 5 (some 3) files)
        ≡ some ((5, some 3), record { meta = some (meta_bytes sum 5 (some 3)); tmp = none }))
save_atomic_example =
    save_atomic sum sum_small 5 (some 3) (record { meta = none; tmp = some (7 ∷ []) }) (omega arith)
      (omega arith)
