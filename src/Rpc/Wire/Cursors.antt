-- ===== src/Rpc/Wire/Cursors.antt =====
-- What writers write and readers read (src/rpc/wire.h).
use raft_rsm.Prelude.{
  ℕ, ◌+◌, ◌-◌, ◌^◌, ◌≤◌, ◌<◌, ◌≡◌, sym, ap, ◌∙◌, true, false, some, [], ◌++◌, arith, ltb, le→ltb,
  length, length-append, append_assoc, append-nil, take-append_length, drop-append_length,
}
use raft_rsm.Rpc.Types.{Bytes}
use raft_rsm.Rpc.Wire.{le_bytes, Writer, put, Reader, reader, read_bytes, read_word}
use raft_rsm.Rpc.Wire.Words.{length-le_bytes, of_le-le_bytes}

-- A writer that has not failed, with the bytes added.
abbrev pub wrote : Writer → Bytes → Writer
wrote w bs = record w { buf = w.buf ++ bs }

-- The operation writes these bytes wherever they fit.
pub record Writes (f : Writer → Writer) (bs : Bytes) : Type 0 where
  pub at : (w : Writer) → w.ok ≡ true → length w.buf + length bs ≤ w.capacity → f w ≡ wrote w bs

pub put-Writes : (bs : Bytes) → Writes (put bs) bs
unfolding put
put-Writes bs = record {
  at = λ w k h.
      let room : ltb (w.capacity - length w.buf) (length bs) ≡ false = le→ltb _ _ (omega arith) in
      rw (k, room);
}

-- One operation after another writes the bytes of both.
pub Writes-then :
    {f g : Writer → Writer} {a b : Bytes} → Writes f a → Writes g b → Writes (λ w. g (f w)) (a ++ b)
Writes-then {f} {g} {a} {b} p q = record {
  at = λ w k h.
      let total = length-append a b in
      let first = p.at w k (omega (arith, total)) in
      rw first (
        q.at (wrote w a) k (omega (arith, total, length-append w.buf a))
        ∙ ap (λ bs. record w { buf = bs }) (append_assoc w.buf a b));
}

pub id-Writes : Writes (λ w. w) []
id-Writes = record { at = λ w k h. ap (λ bs. record w { buf = bs }) (sym (append-nil w.buf)) }

-- The next bytes of an input that begins with them.
pub read_bytes-append :
    (bs rest : Bytes) → read_bytes (length bs) (reader (bs ++ rest)) ≡ (some bs, reader rest)
unfolding read_bytes
read_bytes-append bs rest =
    let room : ltb (length (bs ++ rest)) (length bs) ≡ false =
      le→ltb _ _ (omega (arith, length-append bs rest)) in
    rw (room, take-append_length bs rest, drop-append_length bs rest)

-- Reading an n-byte word from an input that begins with its bytes gives the word.
pub read_word-append :
    (n v : ℕ) (rest : Bytes)
    → v < 256 ^ n
    → read_word n (reader (le_bytes n v ++ rest)) ≡ (v, reader rest)
unfolding read_word
read_word-append n v rest h =
    let e = rw length-le_bytes at (read_bytes-append (le_bytes n v) rest) in
    rw (e, of_le-le_bytes n v h)

-- After a failure every read fails.
pub read_word-failed :
    (n : ℕ) (r : Reader) → r.ok ≡ false → read_word n r ≡ (0, record r { ok = false })
unfolding read_word read_bytes
read_word-failed n r h = rw h
