-- ===== src/Storage/DurableLog/Replay.antt =====
-- The replay of src/storage/durable_log.cpp on a file that a crash cut at any byte.
use raft_rsm.Prelude.{
  ℕ, zero, suc, ◌+◌, ◌-◌, ◌^◌, ◌≤◌, ◌<◌, ◌≡◌, refl, sym, ap, ◌∙◌, inl, inr, Bool, true, false, not,
  some, List, [], ◌∷◌, ◌++◌, arith, ltb, ◌==◌, if◌then◌else◌, ltb→lt, ltb→ge, Bool-cases, length,
  take, drop, length-append, length-take, take-append_left, take-append_right, drop-append_at,
  append_assoc, append-nil, All, add64, add64_eq, u64_mod,
}
use raft_rsm.Rpc.Types.{Bytes, LogEntry}
use raft_rsm.Rpc.Decode.Rules.{EntryFits}
use raft_rsm.Storage.DurableLog.{
  DurableLog, record_size, records_size, record_offsets, torn, found, record_bytes, records, scan,
  replay_loop,
}
use raft_rsm.Storage.DurableLog.Records.{length-record_bytes, scan_whole, scan_torn}

-- The entries whose records lie in the first k bytes, and whether more bytes follow them there.
abbrev pub whole : ℕ → List LogEntry → List LogEntry
whole k [] = []
whole k (e ∷ es) = if ltb k (record_size e) then [] else e ∷ whole (k - record_size e) es

abbrev pub cut : ℕ → List LogEntry → Bool
cut k [] = false
cut k (e ∷ es) = if ltb k (record_size e) then not (k == 0) else cut (k - record_size e) es

-- A log that has read further entries.
abbrev pub grown : DurableLog → List LogEntry → DurableLog
grown log es = record log {
  entries = log.entries ++ es;
  offsets = log.offsets ++ record_offsets log.size es;
  size = log.size + records_size es;
}

grown_nil : (log : DurableLog) → grown log [] ≡ log
unfolding record_offsets records_size
grown_nil log = let z : log.size + 0 ≡ log.size = omega arith in rw (append-nil, append-nil, z) refl

grown_cons :
    (log : DurableLog) (e : LogEntry) (es : List LogEntry)
    → grown (grown log (e ∷ [])) es ≡ grown log (e ∷ es)
unfolding record_offsets records_size
grown_cons log e es =
    let z : log.size + (record_size e + 0) ≡ log.size + record_size e = omega arith in
    let y : log.size + record_size e + records_size es
        ≡ log.size + (record_size e + records_size es) =
      omega arith in
    rw (z, append_assoc, append_assoc, y) refl

module _ (crc : Bytes → ℕ) (small : (bs : Bytes) → crc bs < 2 ^ 32) where
  replay_torn :
      (n : ℕ) (input : Bytes) (log : DurableLog)
      → 0 < length input
      → length input ≤ n
      → scan crc input (length log.entries) ≡ torn
      → replay_loop crc n input log ≡ some (log, true)
  unfolding replay_loop
  replay_torn n [] log h f s = absurd (omega arith)
  replay_torn zero (b ∷ input) log h f s = absurd (omega arith)
  replay_torn (suc n) (b ∷ input) log h f s = rw (s, replay_loop) refl

  replay_found :
      (n : ℕ) (input : Bytes) (log : DurableLog) (e : LogEntry)
      → 0 < length input
      → length input ≤ n
      → scan crc input (length log.entries) ≡ found e
      → replay_loop crc n input log
        ≡ replay_loop crc (n - 1) (drop (record_size e) input) (grown log (e ∷ []))
  unfolding replay_loop record_offsets records_size
  replay_found n [] log e h f s = absurd (omega arith)
  replay_found zero (b ∷ input) log e h f s = absurd (omega arith)
  replay_found (suc n) (b ∷ input) log e h f s =
      let z : log.size + (record_size e + 0) ≡ log.size + record_size e = omega arith in
      let p : suc n - 1 ≡ n = omega arith in rw (s, replay_loop, z, p) refl

  replay_done : (n : ℕ) (log : DurableLog) → replay_loop crc n [] log ≡ some (log, false)
  unfolding replay_loop
  replay_done zero log = refl
  replay_done (suc n) log = refl

  -- A file cut inside a record, and behind it.
  pub take_within :
      (k last : ℕ) (e : LogEntry) (es : List LogEntry)
      → k < record_size e
      → take k (records crc last (e ∷ es)) ≡ take k (record_bytes crc (add64 last 1) e)
  unfolding records
  take_within k last e es h =
      take-append_left k (record_bytes crc (add64 last 1) e) (records crc (add64 last 1) es)
        (omega (arith, h, length-record_bytes crc small (add64 last 1) e))

  pub take_beyond :
      (k last : ℕ) (e : LogEntry) (es : List LogEntry)
      → record_size e ≤ k
      → take k (records crc last (e ∷ es))
        ≡ record_bytes crc (add64 last 1) e
          ++ take (k - record_size e) (records crc (add64 last 1) es)
  unfolding records
  take_beyond k last e es h =
      let size = length-record_bytes crc small (add64 last 1) e in
      take-append_right k (record_bytes crc (add64 last 1) e) (records crc (add64 last 1) es)
        (omega (arith, h, size))
      ∙ ap (λ m. record_bytes crc (add64 last 1) e ++ take (k - m) (records crc (add64 last 1) es))
          size

  pub take_nil : (k last : ℕ) → take k (records crc last []) ≡ []
  unfolding records
  take_nil zero last = refl
  take_nil (suc k) last = refl

  replay_within :
      (n k : ℕ) (log : DurableLog) (e : LogEntry)
      → k < record_size e
      → EntryFits e
      → length (take k (record_bytes crc (add64 (length log.entries) 1) e)) ≤ n
      → replay_loop crc n (take k (record_bytes crc (add64 (length log.entries) 1) e)) log
        ≡ some (log, not (k == 0))
  replay_within n zero log e short fits fuel = replay_done n log
  replay_within n (suc k) log e short fits fuel =
      let full = record_bytes crc (add64 (length log.entries) 1) e in
      let nonzero : not (suc k == 0) ≡ true = ground arith in
      rw nonzero (
        replay_torn n (take (suc k) full) log
          (omega (
            arith,
            short,
            length-take (suc k) full,
            length-record_bytes crc small (add64 (length log.entries) 1) e,
          ))
          fuel (scan_torn crc small (length log.entries) e (suc k) fits short))

  pub replay_loop-take :
      (es : List LogEntry) (n k : ℕ) (log : DurableLog)
      → length log.entries + length es + 1 < u64_mod
      → All EntryFits es
      → length (take k (records crc (length log.entries) es)) ≤ n
      → replay_loop crc n (take k (records crc (length log.entries) es)) log
        ≡ some (grown log (whole k es), cut k es)
  replay_loop-take [] n k log room fits fuel =
      rw (take_nil k (length log.entries))
        (replay_done n log ∙ ap (λ l. some (l, false)) (sym (grown_nil log)))
  replay_loop-take (e ∷ es) n k log room fits fuel = elim (Bool-cases (ltb k (record_size e))) [
    | inl l ↦
        let inside = take_within k (length log.entries) e es (ltb→lt k (record_size e) l) in
        rw (l, inside)
          (replay_within n k log e (ltb→lt k (record_size e) l) fits.0 (rw inside at fuel)
            ∙ ap (λ g. some (g, not (k == 0))) (sym (grown_nil log)))
    | inr g ↦
        let past = take_beyond k (length log.entries) e es (ltb→ge k (record_size e) g) in
        let rest = take (k - record_size e) (records crc (add64 (length log.entries) 1) es) in
        let full = record_bytes crc (add64 (length log.entries) 1) e in
        let size = length-record_bytes crc small (add64 (length log.entries) 1) e in
        let next : length (log.entries ++ e ∷ []) ≡ add64 (length log.entries) 1 =
          omega
            (arith, room, length-append log.entries (e ∷ []), add64_eq (length log.entries) 1) in
        let fuel' : length (full ++ rest) ≤ n = rw past at fuel in
        let long = length-append full rest in
        let ih = rw next at (
          replay_loop-take es (n - 1) (k - record_size e) (grown log (e ∷ []))
            (omega (arith, room, length-append log.entries (e ∷ []))) fits.1
            (rw next (omega (arith, fuel', size, long)))) in
        rw (g, past)
          (replay_found n (full ++ rest) log e (omega (arith, size, long)) fuel'
              (scan_whole crc small (length log.entries) e rest fits.0)
            ∙ ap (λ input. replay_loop crc (n - 1) input (grown log (e ∷ [])))
                (drop-append_at (record_size e) full rest size)
            ∙ ih
            ∙ ap (λ g. some (g, cut (k - record_size e) es))
                (grown_cons log e (whole (k - record_size e) es)))
  ]
