-- ===== src/Storage/DurableLog/Sync.antt =====
-- The file and the entries of src/storage/durable_log.cpp under appends and truncations.
use raft_rsm.Prelude.{
  ℕ, zero, suc, ◌+◌, ◌-◌, ◌^◌, ◌≤◌, ◌<◌, ◌≡◌, refl, sym, ap, ◌∙◌, inl, inr, false, some, List, [],
  ◌∷◌, ◌++◌, arith, ltb, if◌then◌else◌, ltb→ge, le→ltb, Bool-cases, length, take, drop,
  length-append, take-append_right, take-all, drop-all, append_assoc, append-nil, All, add64,
  add64_eq, u64_mod, get_elem?,
}
use raft_rsm.Rpc.Types.{Bytes, LogEntry, LogIndex}
use raft_rsm.Rpc.Decode.Rules.{EntryFits}
use raft_rsm.Storage.Log.{truncate_suffix_from}
use raft_rsm.Storage.DurableLog.{
  DurableLog, record_size, records_size, record_offsets, record_bytes, records, replay,
  append_entries, truncate, offset_or_zero,
}
use raft_rsm.Storage.DurableLog.Records.{length-record_bytes}
use raft_rsm.Storage.DurableLog.Replay.{whole}
use raft_rsm.Storage.DurableLog.Recovery.{length-records, Synced, replay_cut}

pub records_size-append :
    (es fs : List LogEntry) → records_size (es ++ fs) ≡ records_size es + records_size fs
unfolding records_size
records_size-append [] fs = omega arith
records_size-append (e ∷ es) fs = omega (arith, records_size-append es fs)

record_offsets-append :
    (off : ℕ) (es fs : List LogEntry)
    → record_offsets off (es ++ fs)
      ≡ record_offsets off es ++ record_offsets (off + records_size es) fs
unfolding record_offsets records_size
record_offsets-append off [] fs = ap (λ o. record_offsets o fs) (omega arith)
record_offsets-append off (e ∷ es) fs =
    let z : off + record_size e + records_size es ≡ off + (record_size e + records_size es) =
      omega arith in
    ap (◌∷◌ off) (
      record_offsets-append (off + record_size e) es fs
      ∙ ap (λ o. record_offsets (off + record_size e) es ++ record_offsets o fs) z)

record_offsets-take :
    (off j : ℕ) (es : List LogEntry)
    → take j (record_offsets off es) ≡ record_offsets off (take j es)
unfolding record_offsets
record_offsets-take off zero es = refl
record_offsets-take off (suc j) [] = refl
record_offsets-take off (suc j) (e ∷ es) =
    ap (◌∷◌ off) (record_offsets-take (off + record_size e) j es)

get_elem?-record_offsets :
    (off j : ℕ) (es : List LogEntry)
    → j < length es
    → get_elem? (record_offsets off es) j ≡ some (off + records_size (take j es))
unfolding record_offsets records_size
get_elem?-record_offsets off j [] h = absurd (omega arith)
get_elem?-record_offsets off zero (e ∷ es) h = ap some (omega arith)
get_elem?-record_offsets off (suc j) (e ∷ es) h =
    get_elem?-record_offsets (off + record_size e) j es (omega (arith, h)) ∙ ap some (omega arith)

whole-append :
    (k : ℕ) (es fs : List LogEntry)
    → records_size es ≤ k
    → whole k (es ++ fs) ≡ es ++ whole (k - records_size es) fs
unfolding records_size
whole-append k [] fs h = ap (λ m. whole m fs) (omega arith)
whole-append k (e ∷ es) fs h =
    let l : ltb k (record_size e) ≡ false = le→ltb _ _ (omega (arith, h)) in
    let z : k - record_size e - records_size es ≡ k - (record_size e + records_size es) =
      omega arith in
    rw l (
      ap (◌∷◌ e)
        (whole-append (k - record_size e) es fs (omega (arith, h)) ∙ ap (λ m. es ++ whole m fs) z))

module _ (crc : Bytes → ℕ) (small : (bs : Bytes) → crc bs < 2 ^ 32) where
  records-append :
      (last : ℕ) (es fs : List LogEntry)
      → last + length es < u64_mod
      → records crc last (es ++ fs) ≡ records crc last es ++ records crc (last + length es) fs
  unfolding records
  records-append last [] fs h = ap (λ n. records crc n fs) (omega arith)
  records-append last (e ∷ es) fs h =
      let next : add64 last 1 + length es ≡ last + suc (length es) =
        omega (arith, h, add64_eq last 1) in
      ap (◌++◌ (record_bytes crc (add64 last 1) e)) (
        records-append (add64 last 1) es fs (omega (arith, h, next))
        ∙ ap (λ n. records crc (add64 last 1) es ++ records crc n fs) next)
      ∙ sym (append_assoc (record_bytes crc (add64 last 1) e) (records crc (add64 last 1) es) _)

  records-take :
      (last j : ℕ) (es : List LogEntry)
      → take (records_size (take j es)) (records crc last es) ≡ records crc last (take j es)
  unfolding records records_size
  records-take last zero es = refl
  records-take last (suc j) [] = refl
  records-take last (suc j) (e ∷ es) =
      let full = record_bytes crc (add64 last 1) e in
      let size = length-record_bytes crc small (add64 last 1) e in
      let n = record_size e + records_size (take j es) in
      let left : n - length full ≡ records_size (take j es) = omega (arith, size) in
      take-append_right n full (records crc (add64 last 1) es) (omega (arith, size))
      ∙ ap (λ m. full ++ take m (records crc (add64 last 1) es)) left
      ∙ ap (◌++◌ full) (records-take (add64 last 1) j es)

  -- An append puts the records of the new entries at the end of the file.
  pub append_entries-Synced :
      (log : DurableLog) (es : List LogEntry)
      → Synced crc log
      → length log.entries < u64_mod
      → Synced crc (append_entries crc log es)
        × ((append_entries crc log es).entries ≡ log.entries ++ es)
  unfolding append_entries
  append_entries-Synced log [] s room = (s, sym (append-nil log.entries))
  append_entries-Synced log (e ∷ es) s room =
      let new = records crc (length log.entries) (e ∷ es) in
      let long : length log.file ≡ log.size =
        ap length s.file ∙ length-records crc small 0 log.entries ∙ sym s.size in
      let head : take log.size log.file ≡ log.file =
        take-all log.size log.file (omega (arith, long)) in
      let tail : drop (log.size + length new) log.file ≡ [] =
        drop-all (log.size + length new) log.file (omega (arith, long)) in
      let zero_plus : 0 + length log.entries ≡ length log.entries = omega arith in
      let zero_off : 0 + records_size log.entries ≡ log.size = omega (arith, s.size) in
      (
        record {
          file =
              ap (λ bs. bs ++ (new ++ drop (log.size + length new) log.file)) head
              ∙ ap (λ bs. log.file ++ (new ++ bs)) tail
              ∙ ap (◌++◌ log.file) (append-nil new)
              ∙ ap (λ bs. bs ++ new) s.file
              ∙ ap (λ n. records crc 0 log.entries ++ records crc n (e ∷ es)) (sym zero_plus)
              ∙ sym (records-append 0 log.entries (e ∷ es) (omega (arith, room)));
          offsets =
              ap (λ os. os ++ record_offsets log.size (e ∷ es)) s.offsets
              ∙ ap (λ o. record_offsets 0 log.entries ++ record_offsets o (e ∷ es)) (sym zero_off)
              ∙ sym (record_offsets-append 0 log.entries (e ∷ es));
          size = omega (arith, s.size, records_size-append log.entries (e ∷ es));
        },
        refl,
      )

  -- A truncation cuts the file at the record of the index.
  pub truncate-Synced :
      (log : DurableLog) (i : LogIndex)
      → Synced crc log
      → Synced crc (truncate log i)
        × ((truncate log i).entries ≡ truncate_suffix_from log.entries i)
  unfolding truncate truncate_suffix_from
  truncate-Synced log i s =
      let i' = if ltb i 1 then 1 else i in
      let j = i' - 1 in
      let one : 1 ≤ i' = ground arith in
      elim (Bool-cases (ltb (length log.entries) i')) [
        | inl l ↦ rw l (s, refl)
        | inr g ↦
            let within : j < length log.entries =
              omega (arith, one, ltb→ge (length log.entries) i' g) in
            let off : offset_or_zero (get_elem? log.offsets j) ≡ records_size (take j log.entries) =
              ap (λ os. offset_or_zero (get_elem? os j)) s.offsets
              ∙ ap offset_or_zero (get_elem?-record_offsets 0 j log.entries within)
              ∙ omega arith in
            rw g (
              record {
                file =
                    ap (λ n. take n log.file) off
                    ∙ ap (take (records_size (take j log.entries))) s.file
                    ∙ records-take 0 j log.entries;
                offsets = ap (take j) s.offsets ∙ record_offsets-take 0 j log.entries;
                size = off;
              },
              refl,
            )
      ]

  -- A crash while entries are appended to a log that is in step with its file, after any part of
  -- their bytes has reached it: replay recovers all the old entries, and those new ones whose
  -- records are whole, and is again in step.
  pub replay-append_entries :
      (log : DurableLog) (es : List LogEntry) (k : ℕ)
      → Synced crc log
      → length log.entries + length es + 1 < u64_mod
      → All EntryFits (log.entries ++ es)
      → log.size ≤ k
      → (log' : DurableLog) × (replay crc (take k (append_entries crc log es).file) ≡ some log')
        × (log'.entries ≡ log.entries ++ whole (k - log.size) es)
        × Synced crc log'
  replay-append_entries log es k s room fits le =
      let (s', entries) = append_entries-Synced log es s (omega (arith, room)) in
      let file : (append_entries crc log es).file ≡ records crc 0 (log.entries ++ es) =
        s'.file ∙ ap (records crc 0) entries in
      let (log', opened, read, synced) =
        replay_cut crc small (log.entries ++ es) k
          (omega (arith, room, length-append log.entries es)) fits in
      (
        log',
        ap (λ bs. replay crc (take k bs)) file ∙ opened,
        read
            ∙ whole-append k log.entries es (omega (arith, le, s.size))
            ∙ ap (λ n. log.entries ++ whole (k - n) es) (sym s.size),
        synced,
      )
