-- ===== src/Storage/DurableLog/Recovery.antt =====
-- The durable log of src/storage/durable_log.cpp across crashes: what replay recovers from its file.
use raft_rsm.Prelude.{
  ℕ, ◌+◌, ◌-◌, ◌^◌, ◌<◌, ◌≡◌, refl, ap, ◌∙◌, inl, inr, false, some, List, [], ◌∷◌, ◌++◌, arith, ltb,
  ltb→ge, Bool-cases, length, take, length-append, take-append_right, All, add64, u64_mod,
}
use raft_rsm.Rpc.Types.{Bytes, LogEntry}
use raft_rsm.Rpc.Decode.Rules.{EntryFits}
use raft_rsm.Storage.DurableLog.{
  DurableLog, record_size, records_size, record_offsets, record_bytes, records, cut_tail, replay,
}
use raft_rsm.Storage.DurableLog.Records.{length-record_bytes}
use raft_rsm.Storage.DurableLog.Replay.{whole, cut, grown, take_beyond, take_nil, replay_loop-take}

module _ (crc : Bytes → ℕ) (small : (bs : Bytes) → crc bs < 2 ^ 32) where
  pub length-records :
      (last : ℕ) (es : List LogEntry) → length (records crc last es) ≡ records_size es
  unfolding records records_size
  length-records last [] = refl
  length-records last (e ∷ es) = omega (
    arith,
    length-append (record_bytes crc (add64 last 1) e) (records crc (add64 last 1) es),
    length-record_bytes crc small (add64 last 1) e,
    length-records (add64 last 1) es,
  )

  -- The whole records in the first k bytes of a file.
  whole_front :
      (es : List LogEntry) (last k : ℕ)
      → take (records_size (whole k es)) (take k (records crc last es))
        ≡ records crc last (whole k es)
  unfolding records_size records
  whole_front [] last k = refl
  whole_front (e ∷ es) last k = elim (Bool-cases (ltb k (record_size e))) [
    | inl l ↦ rw l refl
    | inr g ↦
        let rest = take (k - record_size e) (records crc (add64 last 1) es) in
        let full = record_bytes crc (add64 last 1) e in
        let size = length-record_bytes crc small (add64 last 1) e in
        let n = record_size e + records_size (whole (k - record_size e) es) in
        let left : n - length full ≡ records_size (whole (k - record_size e) es) =
          omega (arith, size) in
        rw g (
          ap (take n) (take_beyond crc small k last e es (ltb→ge k (record_size e) g))
          ∙ take-append_right n full rest (omega (arith, size))
          ∙ ap (λ m. full ++ take m rest) left
          ∙ ap (◌++◌ full) (whole_front es (add64 last 1) (k - record_size e)))
  ]

  whole_all :
      (es : List LogEntry) (last k : ℕ)
      → cut k es ≡ false
      → take k (records crc last es) ≡ records crc last (whole k es)
  unfolding records
  whole_all [] last k c = take_nil crc small k last
  whole_all (e ∷ es) last k c = elim (Bool-cases (ltb k (record_size e))) [
    | inl l ↦
        let z : k ≡ 0 = ground (arith, rw l at c) in
        rw l
          (ap (λ m. take m (record_bytes crc (add64 last 1) e ++ records crc (add64 last 1) es)) z)
    | inr g ↦ rw g (
        take_beyond crc small k last e es (ltb→ge k (record_size e) g)
        ∙ ap (◌++◌ (record_bytes crc (add64 last 1) e))
            (whole_all es (add64 last 1) (k - record_size e) (rw g at c)))
  ]

-- The file holds exactly the records of the entries, and the offsets and the size are theirs.
pub record Synced (crc : Bytes → ℕ) (log : DurableLog) : Type 0 where
  pub file : log.file ≡ records crc 0 log.entries
  pub offsets : log.offsets ≡ record_offsets 0 log.entries
  pub size : log.size ≡ records_size log.entries

module _ (crc : Bytes → ℕ) (small : (bs : Bytes) → crc bs < 2 ^ 32) where
  -- A file of records that a crash cut at any byte is opened: the log holds the entries whose
  -- records are whole, and the file is cut to them.
  pub replay_cut :
      (es : List LogEntry) (k : ℕ)
      → length es + 1 < u64_mod
      → All EntryFits es
      → (log : DurableLog) × (replay crc (take k (records crc 0 es)) ≡ some log)
        × (log.entries ≡ whole k es)
        × Synced crc log
  unfolding replay cut_tail
  replay_cut es k room fits =
      let file = take k (records crc 0 es) in
      let start : DurableLog = record {
        file = file;
        entries = [];
        offsets = [];
        size = 0;
        torn_bytes_discarded = 0;
      } in
      let n = records_size (whole k es) in
      let zero_plus : 0 + n ≡ n = omega arith in
      let r =
        replay_loop-take crc small es (length file) k start (omega (arith, room)) fits
          (omega arith) in
      elim (Bool-cases (cut k es)) [
        | inl c ↦ (
          record (grown start (whole k es)) {
            file = take (0 + n) file;
            torn_bytes_discarded = length file - (0 + n);
          },
          ap (cut_tail crc) r ∙ ap (λ b. cut_tail crc (some (grown start (whole k es), b))) c,
          refl,
          record {
            file = ap (λ m. take m file) zero_plus ∙ whole_front crc small es 0 k;
            offsets = refl;
            size = zero_plus;
          },
        )
        | inr c ↦ (
          grown start (whole k es),
          ap (cut_tail crc) r ∙ ap (λ b. cut_tail crc (some (grown start (whole k es), b))) c,
          refl,
          record { file = whole_all crc small es 0 k c; offsets = refl; size = zero_plus },
        )
      ]
