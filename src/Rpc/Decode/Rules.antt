-- ===== src/Rpc/Decode/Rules.antt =====
-- How the decoders of src/rpc/messages.cpp read an input that begins with what they expect.
use raft_rsm.Prelude.{
  ℕ, ◌*◌, ◌/◌, ◌^◌, ◌≤◌, ◌<◌, ◌≡◌, refl, Bool, true, false, not, some, List, [], ◌∷◌, ◌++◌, arith,
  ltb, le→ltb, length, length-append, append_assoc, append-nil, All,
}
use raft_rsm.Rpc.Types.{Bytes, LogEntry}
use raft_rsm.Rpc.Wire.{le_bytes, exhausted, Reader, reader, remaining}
use raft_rsm.Rpc.Wire.Cursors.{read_bytes-append, read_word-append}
use raft_rsm.Rpc.Encode.{bool_code, entries_size}
use raft_rsm.Rpc.Encode.Layout.{blob_bytes, entries_bytes, length-entries_bytes}
use raft_rsm.Rpc.Decode.{
  Decoder, pure, continue, ◌>>=◌, word, require, decode_bool, decode_blob, decode_entries,
}

-- On an input that begins with these bytes, whatever follows, the decoder takes them and gives a.
pub record Reads {A : Type 0} (p : Decoder A) (bs : Bytes) (a : A) : Type 0 where
  pub at : (rest : Bytes) → p (reader (bs ++ rest)) ≡ (some a, reader rest)

module _ {A B : Type 0} where
  pub Reads-bind :
      {p : Decoder A} (f : A → Decoder B) {bs cs : Bytes} (a : A) {b : B}
      → Reads p bs a
      → Reads (f a) cs b
      → Reads (p >>= f) (bs ++ cs) b
  unfolding ◌>>=◌ continue
  Reads-bind f {bs} {cs} a p q = record {
    at = λ rest. rw (append_assoc bs cs rest, p.at (cs ++ rest)) (q.at rest);
  }

  -- The same where the last decoder takes all the bytes.
  pub Reads-last :
      {p : Decoder A} (f : A → Decoder B) {bs : Bytes} (a : A) {b : B}
      → Reads p bs a
      → Reads (f a) [] b
      → Reads (p >>= f) bs b
  unfolding ◌>>=◌ continue
  Reads-last f a p q = record { at = λ rest. rw (p.at rest) (q.at rest) }

  -- The same where the first decoder takes none.
  pub Reads-first :
      {p : Decoder A} (f : A → Decoder B) {bs : Bytes} (a : A) {b : B}
      → Reads p [] a
      → Reads (f a) bs b
      → Reads (p >>= f) bs b
  unfolding ◌>>=◌ continue
  Reads-first f {bs} a p q = record { at = λ rest. rw (p.at (bs ++ rest)) (q.at rest) }

pub Reads-pure : {A : Type 0} (a : A) → Reads (pure a) [] a
unfolding pure
Reads-pure a = record { at = λ rest. refl }

pub Reads-word : (n v : ℕ) → v < 256 ^ n → Reads (word n) (le_bytes n v) v
unfolding word
Reads-word n v h = record { at = λ rest. rw (read_word-append n v rest h) }

-- A test that holds of every good cursor takes no input.
pub Reads-require :
    (test : Reader → Bool)
    → ((rest : Bytes) → test (reader rest) ≡ true)
    → Reads (require test) [] tt
unfolding require
Reads-require test h = record { at = λ rest. rw (h rest) }

pub Reads-bool : (b : Bool) → Reads decode_bool (le_bytes 1 (bool_code b)) b
unfolding decode_bool
Reads-bool true =
    Reads-last _ 1 (Reads-word 1 1 (omega arith))
      (Reads-first _ tt (Reads-require _ (λ rest. refl)) (Reads-pure true))
Reads-bool false =
    Reads-last _ 0 (Reads-word 1 0 (omega arith))
      (Reads-first _ tt (Reads-require _ (λ rest. refl)) (Reads-pure false))

pub Reads-blob : (bs : Bytes) → length bs < 2 ^ 32 → Reads decode_blob (blob_bytes bs) bs
unfolding decode_blob ◌>>=◌ continue word require
Reads-blob bs h = record {
  at = λ rest.
      let room : ltb (length (bs ++ rest)) (length bs) ≡ false =
        le→ltb _ _ (omega (arith, length-append bs rest)) in
      rw
        (
          append_assoc (le_bytes 4 (length bs)) bs rest,
          read_word-append 4 (length bs) (bs ++ rest) h,
          room,
        )
        (read_bytes-append bs rest);
}

-- The fields of an entry fit their words.
abbrev pub EntryFits : LogEntry → Type 0
EntryFits e = (e.term < 2 ^ 64) × (length e.command < 2 ^ 32)

pub Reads-entries :
    (es : List LogEntry)
    → All EntryFits es
    → Reads (decode_entries (length es)) (entries_bytes es) es
unfolding decode_entries
Reads-entries [] h = Reads-pure []
Reads-entries (e ∷ es) h = Reads-bind _ e.term (Reads-word 8 e.term h.0.0) (
    Reads-first _ tt (Reads-require _ (λ rest. refl)) (
      Reads-bind _ e.command (Reads-blob e.command h.0.1)
        (Reads-last _ es (Reads-entries es h.1) (Reads-pure (e ∷ es)))))

entries_size-ge : (es : List LogEntry) → length es * 12 ≤ entries_size es
unfolding entries_size
entries_size-ge [] = omega arith
entries_size-ge (e ∷ es) = omega (arith, entries_size-ge es)

-- The count of a well-formed message passes the test against the remaining input.
pub Reads-counted :
    {B : Type 0} (es : List LogEntry) (k : List LogEntry → Decoder B) {b : B}
    → All EntryFits es
    → Reads (k es) [] b
    → Reads
        (require (λ r. not (ltb (remaining r / 12) (length es))) >>= λ _.
          decode_entries (length es) >>= k)
        (entries_bytes es)
        b
unfolding ◌>>=◌ continue require
Reads-counted es k h q = record {
  at = λ rest.
      let backed : ltb (length (entries_bytes es ++ rest) / 12) (length es) ≡ false = le→ltb _ _ (
        omega (
          arith,
          length-append (entries_bytes es) rest,
          length-entries_bytes es,
          entries_size-ge es,
        )) in
      rw (backed, (Reads-entries es h).at rest) (q.at rest);
}

-- The decoder accepts exactly these bytes, with nothing behind them, and gives a.
pub record Accepts {A : Type 0} (p : Decoder A) (bs : Bytes) (a : A) : Type 0 where
  pub at : (p (reader bs)).0 ≡ some a

module _ {A B : Type 0} where
  pub Accepts-bind :
      {p : Decoder A} (f : A → Decoder B) {bs cs : Bytes} (a : A) {b : B}
      → Reads p bs a
      → Accepts (f a) cs b
      → Accepts (p >>= f) (bs ++ cs) b
  unfolding ◌>>=◌ continue
  Accepts-bind f {bs} {cs} a p q = record { at = rw (p.at cs) q.at }

  pub Accepts-last :
      {p : Decoder A} (f : A → Decoder B) {bs : Bytes} (a : A) {b : B}
      → Reads p bs a
      → Accepts (f a) [] b
      → Accepts (p >>= f) bs b
  unfolding ◌>>=◌ continue
  Accepts-last f {bs} a p q = record { at = rw (rw append-nil at (p.at [])) q.at }

  pub Accepts-first :
      {p : Decoder A} (f : A → Decoder B) {bs : Bytes} (a : A) {b : B}
      → Reads p [] a
      → Accepts (f a) bs b
      → Accepts (p >>= f) bs b
  unfolding ◌>>=◌ continue
  Accepts-first f {bs} a p q = record { at = rw (p.at bs) q.at }

-- `exhausted` at the end of the input.
pub Accepts-end : {A : Type 0} (a : A) → Accepts (require exhausted >>= λ _. pure a) [] a
unfolding ◌>>=◌ continue require pure
Accepts-end a = record { at = refl }
