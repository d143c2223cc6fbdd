-- ===== src/Rpc/Encode/Layout.antt =====
-- The byte layout of each message of src/rpc/messages.cpp, against its encoder.
use raft_rsm.Prelude.{
  ℕ, ◌+◌, ◌≤◌, ◌≡◌, refl, false, some, List, [], ◌∷◌, ◌++◌, arith, ltb, le→ltb, length,
  length-append,
}
use raft_rsm.Rpc.Types.{
  Bytes, NodeId, LogEntry, Message, request_vote, request_vote_reply, append_entries,
  append_entries_reply, client_request, client_reply, Envelope, type_code, status_code,
  envelope_size, max_payload_size,
}
use raft_rsm.Rpc.Wire.{le_bytes, writer, put}
use raft_rsm.Rpc.Wire.Words.{length-le_bytes}
use raft_rsm.Rpc.Wire.Cursors.{Writes, put-Writes, Writes-then, id-Writes}
use raft_rsm.Rpc.Encode.{
  bool_code, encode_envelope, encode_blob, encode_request_vote, encode_request_vote_reply,
  encode_entries, encode_append_entries, encode_append_entries_reply, encode_client_request,
  encode_client_reply, encode_payload, entries_size, payload_size, envelope_for, encode_message,
}

abbrev pub blob_bytes : Bytes → Bytes
blob_bytes bs = le_bytes 4 (length bs) ++ bs

abbrev pub entries_bytes : List LogEntry → Bytes
entries_bytes [] = []
entries_bytes (e ∷ es) = le_bytes 8 e.term ++ (blob_bytes e.command ++ entries_bytes es)

abbrev pub payload_bytes : Message → Bytes
payload_bytes (request_vote m) =
    le_bytes 8 m.term
    ++ (le_bytes 2 m.candidate_id ++ (le_bytes 8 m.last_log_index ++ le_bytes 8 m.last_log_term))
payload_bytes (request_vote_reply m) = le_bytes 8 m.term ++ le_bytes 1 (bool_code m.vote_granted)
payload_bytes (append_entries m) =
    le_bytes 8 m.term
    ++ (le_bytes 2 m.leader_id
        ++ (le_bytes 8 m.prev_log_index
            ++ (le_bytes 8 m.prev_log_term
                ++ (le_bytes 8 m.leader_commit
                    ++ (le_bytes 4 (length m.entries) ++ entries_bytes m.entries)))))
payload_bytes (append_entries_reply m) =
    le_bytes 8 m.term
    ++ (le_bytes 1 (bool_code m.success)
        ++ (le_bytes 8 m.conflict_index ++ le_bytes 8 m.conflict_term))
payload_bytes (client_request m) =
    le_bytes 8 m.client_id ++ (le_bytes 8 m.seq_no ++ blob_bytes m.command)
payload_bytes (client_reply m) =
    le_bytes 1 (status_code m.status) ++ (le_bytes 2 m.leader_hint ++ blob_bytes m.result)

abbrev pub envelope_bytes : Envelope → Bytes
envelope_bytes e =
    le_bytes 1 e.version
    ++ (le_bytes 1 (type_code e.type)
        ++ (le_bytes 2 e.from
            ++ (le_bytes 2 e.to ++ (le_bytes 2 0 ++ le_bytes 4 e.payload_length))))

word : (n v : ℕ) → Writes (put (le_bytes n v)) (le_bytes n v)
word n v = put-Writes (le_bytes n v)

blob-Writes : (bs : Bytes) → Writes (encode_blob bs) (blob_bytes bs)
unfolding encode_blob
blob-Writes bs = Writes-then (word 4 (length bs)) (put-Writes bs)

entries-Writes : (es : List LogEntry) → Writes (encode_entries es) (entries_bytes es)
unfolding encode_entries
entries-Writes [] = id-Writes
entries-Writes (e ∷ es) =
    Writes-then (word 8 e.term) (Writes-then (blob-Writes e.command) (entries-Writes es))

payload-Writes : (m : Message) → Writes (encode_payload m) (payload_bytes m)
unfolding encode_payload encode_request_vote encode_request_vote_reply encode_append_entries
    encode_append_entries_reply encode_client_request encode_client_reply
payload-Writes (request_vote m) = Writes-then (word 8 m.term) (
    Writes-then (word 2 m.candidate_id)
      (Writes-then (word 8 m.last_log_index) (word 8 m.last_log_term)))
payload-Writes (request_vote_reply m) =
    Writes-then (word 8 m.term) (word 1 (bool_code m.vote_granted))
payload-Writes (append_entries m) = Writes-then (word 8 m.term) (
    Writes-then (word 2 m.leader_id) (
      Writes-then (word 8 m.prev_log_index) (
        Writes-then (word 8 m.prev_log_term) (
          Writes-then (word 8 m.leader_commit)
            (Writes-then (word 4 (length m.entries)) (entries-Writes m.entries))))))
payload-Writes (append_entries_reply m) = Writes-then (word 8 m.term) (
    Writes-then (word 1 (bool_code m.success))
      (Writes-then (word 8 m.conflict_index) (word 8 m.conflict_term)))
payload-Writes (client_request m) =
    Writes-then (word 8 m.client_id) (Writes-then (word 8 m.seq_no) (blob-Writes m.command))
payload-Writes (client_reply m) =
    Writes-then (word 1 (status_code m.status))
      (Writes-then (word 2 m.leader_hint) (blob-Writes m.result))

envelope-Writes : (e : Envelope) → Writes (encode_envelope e) (envelope_bytes e)
unfolding encode_envelope
envelope-Writes e = Writes-then (word 1 e.version) (
    Writes-then (word 1 (type_code e.type)) (
      Writes-then (word 2 e.from)
        (Writes-then (word 2 e.to) (Writes-then (word 2 0) (word 4 e.payload_length)))))

pub length-entries_bytes : (es : List LogEntry) → length (entries_bytes es) ≡ entries_size es
unfolding entries_size
length-entries_bytes [] = refl
length-entries_bytes (e ∷ es) =
    simp (length-append, length-le_bytes, length-entries_bytes es) (omega arith)

-- `payloadSize` is the size of the layout.
pub length-payload_bytes : (m : Message) → length (payload_bytes m) ≡ payload_size m
unfolding payload_size
length-payload_bytes (request_vote m) = simp (length-append, length-le_bytes)
length-payload_bytes (request_vote_reply m) = simp (length-append, length-le_bytes)
length-payload_bytes (append_entries m) =
    simp (length-append, length-le_bytes, length-entries_bytes m.entries) (omega arith)
length-payload_bytes (append_entries_reply m) = simp (length-append, length-le_bytes)
length-payload_bytes (client_request m) = simp (length-append, length-le_bytes) (omega arith)
length-payload_bytes (client_reply m) = simp (length-append, length-le_bytes) (omega arith)

pub length-envelope_bytes : (e : Envelope) → length (envelope_bytes e) ≡ envelope_size
length-envelope_bytes e = simp (length-append, length-le_bytes)

-- Into a buffer that `encodedSize` fits, a message of a legal size is encoded as the envelope's
-- layout followed by the payload's.
pub encode_message-layout :
    (from to : NodeId) (m : Message) (capacity : ℕ)
    → payload_size m ≤ max_payload_size
    → envelope_size + payload_size m ≤ capacity
    → encode_message from to m capacity
      ≡ some (envelope_bytes (envelope_for from to m) ++ payload_bytes m)
unfolding encode_message
encode_message-layout from to m capacity small room =
    let e = envelope_for from to m in
    let le = length-envelope_bytes e in
    let lp = length-payload_bytes m in
    let written =
      Writes.at (Writes-then (envelope-Writes e) (payload-Writes m)) (writer capacity) refl
        (omega (arith, le, lp, length-append (envelope_bytes e) (payload_bytes m))) in
    let t1 : ltb max_payload_size (payload_size m) ≡ false = le→ltb _ _ small in
    let t2 : ltb capacity (envelope_size + payload_size m) ≡ false = le→ltb _ _ room in
    rw (t1, t2, written)
