-- ===== src/Storage/DurableLog.antt =====
-- src/storage/durable_log.cpp: the log with its file. The file is the bytes that are durable when a
-- call returns; the checksum (src/storage/crc32c.cpp) is a parameter.
pub mod Records
pub mod Replay
pub mod Recovery
pub mod Sync
use raft_rsm.Prelude.{
  ℕ, zero, suc, ◌+◌, ◌-◌, Bool, true, false, not, ◌&&◌, Option, none, some, List, [], ◌∷◌, ◌++◌,
  ltb, ◌==◌, if◌then◌else◌, length, take, drop, get_elem?, add64,
}
use raft_rsm.Rpc.Types.{Bytes, LogEntry, LogIndex}
use raft_rsm.Rpc.Wire.{le_bytes, of_le, reader}
use raft_rsm.Rpc.Decode.{Decoder, pure, ◌>>=◌, word}
use raft_rsm.Storage.Log.{append, truncate_suffix_from}

abbrev pub header_size : ℕ
header_size = 20

abbrev pub crc_size : ℕ
crc_size = 4

-- `recordSize`.
abbrev pub record_size : LogEntry → ℕ
record_size e = header_size + length e.command + crc_size

pub record DurableLog : Type 0 where
  pub file : Bytes
  pub entries : List LogEntry
  pub offsets : List ℕ
  pub size : ℕ
  pub torn_bytes_discarded : ℕ

-- `pwriteAll` at an offset within the file.
abbrev pub pwrite : Bytes → ℕ → Bytes → Bytes
pwrite file offset bytes = take offset file ++ (bytes ++ drop (offset + length bytes) file)

pub record Header : Type 0 where
  pub index : LogIndex
  pub term : ℕ
  pub command_length : ℕ

unfoldable pub read_header : Decoder Header
read_header = do
  index ← word 8
  term ← word 8
  len ← word 4
  pure (record { index = index; term = term; command_length = len })

-- What replay makes of the bytes from an offset on.
pub data Scan : Type 0 where
  torn corrupt : Scan
  found : LogEntry → Scan

-- The offsets of records that are appended at an offset.
unfoldable pub record_offsets : ℕ → List LogEntry → List ℕ
record_offsets off [] = []
record_offsets off (e ∷ es) = off ∷ record_offsets (off + record_size e) es

unfoldable pub records_size : List LogEntry → ℕ
records_size [] = 0
records_size (e ∷ es) = record_size e + records_size es

-- `truncateSuffixFrom`: index 0 counts as 1, and past the end it does nothing.
abbrev pub offset_or_zero : Option ℕ → ℕ
offset_or_zero none = 0
offset_or_zero (some off) = off

unfoldable pub truncate : DurableLog → LogIndex → DurableLog
truncate log i =
    let i' = if ltb i 1 then 1 else i in
    let new_size = offset_or_zero (get_elem? log.offsets (i' - 1)) in
    if ltb (length log.entries) i' then log else record log {
      file = take new_size log.file;
      entries = take (i' - 1) log.entries;
      offsets = take (i' - 1) log.offsets;
      size = new_size;
    }

module _ (crc : Bytes → ℕ) where
  -- The bytes that the checksum covers, and the record.
  abbrev pub covered : LogIndex → LogEntry → Bytes
  covered index e =
      le_bytes 8 index ++ (le_bytes 8 e.term ++ (le_bytes 4 (length e.command) ++ e.command))

  abbrev pub record_bytes : LogIndex → LogEntry → Bytes
  record_bytes index e = covered index e ++ le_bytes 4 (crc (covered index e))

  -- The records of entries that follow an index, as `append` serializes them.
  unfoldable pub records : LogIndex → List LogEntry → Bytes
  records last [] = []
  records last (e ∷ es) = record_bytes (add64 last 1) e ++ records (add64 last 1) es

  unfoldable pub append_entries : DurableLog → List LogEntry → DurableLog
  append_entries log [] = log
  append_entries log (e ∷ es) = record log {
    file = pwrite log.file log.size (records (length log.entries) (e ∷ es));
    entries = append log.entries (e ∷ es);
    offsets = log.offsets ++ record_offsets log.size (e ∷ es);
    size = log.size + records_size (e ∷ es);
  }

  -- One round of the loop of `replay`: the bytes from the offset on, and the entries so far.
  unfoldable pub scan_header : Option Header → Bytes → ℕ → Scan
  scan_header none rest count = torn
  scan_header (some h) rest count =
      let n = header_size + h.command_length in
      let valid =
        of_le (take crc_size (drop n rest)) == crc (take n rest) && h.index == add64 count 1 in
      if ltb (length rest) (n + crc_size)
      then torn
      else if valid
      then found (record { term = h.term; command = take h.command_length (drop header_size rest) })
      else if n + crc_size == length rest
      then torn
      else corrupt

  unfoldable pub scan : Bytes → ℕ → Scan
  scan rest count =
      if ltb (length rest) header_size
      then torn
      else scan_header (read_header (reader rest)).0 rest count

  -- The loop, with fuel: the state at its end, and whether it ended at a torn record; none where the
  -- source throws.
  unfoldable pub replay_loop : ℕ → Bytes → DurableLog → Option (DurableLog × Bool)
  replay_loop zero rest log = some (log, false)
  replay_loop (suc fuel) [] log = some (log, false)
  replay_loop (suc fuel) (b ∷ rest) log = elim (scan (b ∷ rest) (length log.entries)) [
    | torn ↦ some (log, true)
    | corrupt ↦ none
    | found e ↦ replay_loop fuel (drop (record_size e) (b ∷ rest)) (record log {
      entries = log.entries ++ e ∷ [];
      offsets = log.offsets ++ log.size ∷ [];
      size = log.size + record_size e;
    })
  ]

  -- The torn tail is cut off the file.
  unfoldable pub cut_tail : Option (DurableLog × Bool) → Option DurableLog
  cut_tail none = none
  cut_tail (some (log, false)) = some log
  cut_tail (some (log, true)) = some (record log {
    file = take log.size log.file;
    torn_bytes_discarded = length log.file - log.size;
  })

  unfoldable pub replay : Bytes → Option DurableLog
  replay file = cut_tail (
      replay_loop (length file) file
        (record { file = file; entries = []; offsets = []; size = 0; torn_bytes_discarded = 0 }))
