-- ===== src/Storage/DurableLog/Records.antt =====
-- The records of src/storage/durable_log.cpp: what replay makes of a whole record, and of the first
-- bytes of one.
use raft_rsm.Prelude.{
  ℕ, ◌+◌, ◌-◌, ◌^◌, ◌≤◌, ◌<◌, ◌≡◌, refl, ap, false, Option, some, ◌++◌, arith, ltb, ltb→lt, ltb→ge,
  ==_iff, Bool-cases, inl, inr, take-append_right, le→ltb, lt→ltb, length, take, drop,
  length-append, length-take, append_assoc, take-append_at, drop-append_at, ◌∙◌, take-append_length,
  add64,
}
use raft_rsm.Rpc.Types.{Bytes, LogEntry, LogIndex}
use raft_rsm.Rpc.Wire.{le_bytes, of_le, Reader, reader}
use raft_rsm.Rpc.Wire.Words.{length-le_bytes, of_le-le_bytes}
use raft_rsm.Rpc.Decode.Rules.{EntryFits, Reads, Reads-bind, Reads-last, Reads-word, Reads-pure}
use raft_rsm.Storage.DurableLog.{
  header_size, crc_size, record_size, Header, read_header, torn, found, covered, record_bytes,
  scan_header, scan,
}

abbrev pub header_bytes : LogIndex → LogEntry → Bytes
header_bytes index e = le_bytes 8 index ++ (le_bytes 8 e.term ++ le_bytes 4 (length e.command))

pub length-header_bytes : (index : ℕ) (e : LogEntry) → length (header_bytes index e) ≡ header_size
length-header_bytes index e = simp (length-append, length-le_bytes)

Reads-header :
    (index : ℕ) (e : LogEntry)
    → index < 2 ^ 64
    → EntryFits e
    → Reads read_header
        (header_bytes index e)
        (record { index = index; term = e.term; command_length = length e.command })
unfolding read_header
Reads-header index e hi h = Reads-bind _ index (Reads-word 8 index hi) (
    Reads-bind _ e.term (Reads-word 8 e.term h.0)
      (Reads-last _ (length e.command) (Reads-word 4 (length e.command) h.1) (Reads-pure _)))

module _ (crc : Bytes → ℕ) (small : (bs : Bytes) → crc bs < 2 ^ 32) where
  -- A record as the header and what follows.
  record_eq :
      (index : ℕ) (e : LogEntry) (rest : Bytes)
      → record_bytes crc index e ++ rest
        ≡ header_bytes index e ++ (e.command ++ (le_bytes 4 (crc (covered crc index e)) ++ rest))
  record_eq index e rest = simp append_assoc

  record_split :
      (index : ℕ) (e : LogEntry)
      → record_bytes crc index e
        ≡ header_bytes index e ++ (e.command ++ le_bytes 4 (crc (covered crc index e)))
  record_split index e = simp append_assoc

  covered_eq : (index : ℕ) (e : LogEntry) → covered crc index e ≡ header_bytes index e ++ e.command
  covered_eq index e = simp append_assoc

  pub length-covered :
      (index : ℕ) (e : LogEntry) → length (covered crc index e) ≡ header_size + length e.command
  length-covered index e = omega (
    arith,
    ap length (covered_eq index e),
    length-append (header_bytes index e) e.command,
    length-header_bytes index e,
  )

  pub length-record_bytes :
      (index : ℕ) (e : LogEntry) → length (record_bytes crc index e) ≡ record_size e
  length-record_bytes index e = omega (
    arith,
    length-append (covered crc index e) (le_bytes 4 (crc (covered crc index e))),
    length-covered index e,
    length-le_bytes 4 (crc (covered crc index e)),
  )

  sum_reads :
      (index : ℕ) (e : LogEntry) (rest : Bytes)
      → of_le (take crc_size (le_bytes 4 (crc (covered crc index e)) ++ rest))
        ≡ crc (covered crc index e)
  sum_reads index e rest =
      let sum = crc (covered crc index e) in
      let four : take crc_size (le_bytes 4 sum ++ rest) ≡ le_bytes 4 sum =
        take-append_at 4 (le_bytes 4 sum) rest (length-le_bytes 4 sum) in
      rw four (of_le-le_bytes 4 sum (small (covered crc index e)))

  -- The branches of `scan` by what the input holds.
  scan-found :
      (input : Bytes) (count : ℕ) (h : Header) (e : LogEntry)
      → (read_header (reader input)).0 ≡ some h
      → header_size + h.command_length + crc_size ≤ length input
      → of_le (take crc_size (drop (header_size + h.command_length) input))
        ≡ crc (take (header_size + h.command_length) input)
      → h.index ≡ add64 count 1
      → take h.command_length (drop header_size input) ≡ e.command
      → h.term ≡ e.term
      → scan crc input count ≡ found e
  unfolding scan scan_header
  scan-found input count h e read long sum index command term =
      let l1 : ltb (length input) header_size ≡ false = le→ltb _ _ (omega (arith, long)) in
      let l2 : ltb (length input) (header_size + h.command_length + crc_size) ≡ false =
        le→ltb _ _ long in
      let t = (==_iff _ _).1 sum in
      let i = (==_iff _ _).1 index in rw (l1, read, scan_header, l2, t, i, command, term) refl

  scan_short :
      (input : Bytes) (count : ℕ) → length input < header_size → scan crc input count ≡ torn
  unfolding scan
  scan_short input count short = rw (lt→ltb _ _ short) refl

  scan_cut :
      (input : Bytes) (count : ℕ) (h : Header)
      → (read_header (reader input)).0 ≡ some h
      → length input < header_size + h.command_length + crc_size
      → scan crc input count ≡ torn
  unfolding scan scan_header
  scan_cut input count h read short = elim (Bool-cases (ltb (length input) header_size)) [
    | inl e ↦ rw e refl
    | inr e ↦ rw (e, read, scan_header, lt→ltb _ _ short) refl
  ]

  -- Replay finds a whole record, whatever follows.
  pub scan_whole :
      (count : ℕ) (e : LogEntry) (rest : Bytes)
      → EntryFits e
      → scan crc (record_bytes crc (add64 count 1) e ++ rest) count ≡ found e
  scan_whole count e rest h =
      let index = add64 count 1 in
      let sum = crc (covered crc index e) in
      let input = record_bytes crc index e ++ rest in
      let n = header_size + length e.command in
      let size : length input ≡ record_size e + length rest =
        omega (arith, length-append (record_bytes crc index e) rest, length-record_bytes index e) in
      let split : input ≡ covered crc index e ++ (le_bytes 4 sum ++ rest) =
        append_assoc (covered crc index e) (le_bytes 4 sum) rest in
      let front : take n input ≡ covered crc index e =
        ap (take n) split
        ∙ take-append_at n (covered crc index e) (le_bytes 4 sum ++ rest)
            (length-covered index e) in
      let back : drop n input ≡ le_bytes 4 sum ++ rest =
        ap (drop n) split
        ∙ drop-append_at n (covered crc index e) (le_bytes 4 sum ++ rest)
            (length-covered index e) in
      let read =
        ap (λ (p : Option Header × Reader). p.0)
          ((Reads-header index e (omega arith) h).at (e.command ++ (le_bytes 4 sum ++ rest))) in
      let body : drop header_size input ≡ e.command ++ (le_bytes 4 sum ++ rest) =
        ap (drop header_size) (record_eq index e rest)
        ∙ drop-append_at header_size (header_bytes index e) (e.command ++ (le_bytes 4 sum ++ rest))
            (length-header_bytes index e) in
      scan-found input count
        (record { index = index; term = e.term; command_length = length e.command }) e
        (rw (record_eq index e rest) read) (omega (arith, size))
        (rw (front, back) (sum_reads index e rest)) refl
        (rw body (take-append_length e.command (le_bytes 4 sum ++ rest))) refl

  -- The first bytes of a record are a torn record.
  pub scan_torn :
      (count : ℕ) (e : LogEntry) (k : ℕ)
      → EntryFits e
      → k < record_size e
      → scan crc (take k (record_bytes crc (add64 count 1) e)) count ≡ torn
  scan_torn count e k h short =
      let index = add64 count 1 in
      let sum = crc (covered crc index e) in
      let size : length (take k (record_bytes crc index e)) ≡ k =
        omega (arith, length-take k (record_bytes crc index e), length-record_bytes index e) in
      elim (Bool-cases (ltb k header_size)) [
        | inl e ↦ scan_short _ count (omega (arith, size, ltb→lt k header_size e))
        | inr l ↦
            let split : take k (record_bytes crc index e)
                ≡ header_bytes index e
                  ++ take (k - length (header_bytes index e)) (e.command ++ le_bytes 4 sum) =
              ap (take k) (record_split index e)
              ∙ take-append_right k (header_bytes index e) (e.command ++ le_bytes 4 sum)
                  (omega (arith, length-header_bytes index e, ltb→ge k header_size l)) in
            scan_cut _ count
              (record { index = index; term = e.term; command_length = length e.command })
              (rw split (
                ap (λ (p : Option Header × Reader). p.0)
                  ((Reads-header index e (omega arith) h).at _)))
              (omega (arith, size))
      ]
