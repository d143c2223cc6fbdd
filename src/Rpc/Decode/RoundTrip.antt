-- ===== src/Rpc/Decode/RoundTrip.antt =====
-- `encodeMessage` followed by `decodeMessage` (src/rpc/messages.cpp).
use raft_rsm.Prelude.{
  ℕ, ◌+◌, ◌-◌, ◌^◌, ◌≤◌, ◌<◌, ◌≡◌, refl, true, false, not, some, [], ◌++◌, arith, ltb, ◌==◌, le→ltb,
  length, length-append, append-nil, All,
}
use raft_rsm.Rpc.Types.{
  Bytes, NodeId, ClientStatus, ok, not_leader, error, Message, request_vote, request_vote_reply,
  append_entries, append_entries_reply, client_request, client_reply, MessageType, type_of,
  type_code, status_code, envelope_size, max_payload_size,
}
use raft_rsm.Rpc.Wire.{reader}
use raft_rsm.Rpc.Encode.{payload_size, envelope_for, encode_message}
use raft_rsm.Rpc.Encode.Layout.{
  payload_bytes, envelope_bytes, length-payload_bytes, length-envelope_bytes, encode_message-layout,
}
use raft_rsm.Rpc.Decode.{
  pure, continue, ◌>>=◌, require, decode_request_vote, decode_request_vote_reply,
  decode_append_entries, decode_append_entries_reply, decode_client_request, decode_client_reply,
  decode_payload, some_type, type_of_code, decode_envelope, decode_frame, decode_message, status_of,
}
use raft_rsm.Rpc.Decode.Rules.{
  Reads, Reads-bind, Reads-last, Reads-first, Reads-pure, Reads-word, Reads-require, Reads-bool,
  Reads-blob, EntryFits, Reads-counted,
}

-- The fields of a message fit their words.
abbrev pub MessageFits : Message → Type 0
MessageFits (request_vote m) =
    (m.term < 2 ^ 64)
    × (m.candidate_id < 2 ^ 16)
    × (m.last_log_index < 2 ^ 64)
    × (m.last_log_term < 2 ^ 64)
MessageFits (request_vote_reply m) = m.term < 2 ^ 64
MessageFits (append_entries m) =
    (m.term < 2 ^ 64)
    × (m.leader_id < 2 ^ 16)
    × (m.prev_log_index < 2 ^ 64)
    × (m.prev_log_term < 2 ^ 64)
    × (m.leader_commit < 2 ^ 64)
    × (length m.entries < 2 ^ 32)
    × All EntryFits m.entries
MessageFits (append_entries_reply m) =
    (m.term < 2 ^ 64) × (m.conflict_index < 2 ^ 64) × (m.conflict_term < 2 ^ 64)
MessageFits (client_request m) =
    (m.client_id < 2 ^ 64) × (m.seq_no < 2 ^ 64) × (length m.command < 2 ^ 32)
MessageFits (client_reply m) = (m.leader_hint < 2 ^ 16) × (length m.result < 2 ^ 32)

Reads-ok : Reads (require (λ r. r.ok)) [] tt
Reads-ok = Reads-require _ (λ rest. refl)

status_laws :
    (s : ClientStatus)
    → (status_of (status_code s) ≡ s) × (not (ltb 2 (status_code s)) ≡ true) × (status_code s < 256)
status_laws ok = (refl, refl, omega arith)
status_laws not_leader = (refl, refl, omega arith)
status_laws error = (refl, refl, omega arith)

Reads-payload :
    (m : Message) → MessageFits m → Reads (decode_payload (type_of m)) (payload_bytes m) m
unfolding decode_payload decode_request_vote decode_request_vote_reply decode_append_entries
    decode_append_entries_reply decode_client_request decode_client_reply
Reads-payload (request_vote m) h = Reads-bind _ m.term (Reads-word 8 _ h.0) (
    Reads-bind _ m.candidate_id (Reads-word 2 _ h.1) (
      Reads-bind _ m.last_log_index (Reads-word 8 _ h.2) (
        Reads-last _ m.last_log_term (Reads-word 8 _ h.3)
          (Reads-first _ tt Reads-ok (Reads-pure _)))))
Reads-payload (request_vote_reply m) h = Reads-bind _ m.term (Reads-word 8 _ h) (
    Reads-first _ tt Reads-ok
      (Reads-last _ m.vote_granted (Reads-bool m.vote_granted) (Reads-pure _)))
Reads-payload (append_entries m) h = Reads-bind _ m.term (Reads-word 8 _ h.0) (
    Reads-bind _ m.leader_id (Reads-word 2 _ h.1) (
      Reads-bind _ m.prev_log_index (Reads-word 8 _ h.2) (
        Reads-bind _ m.prev_log_term (Reads-word 8 _ h.3) (
          Reads-bind _ m.leader_commit (Reads-word 8 _ h.4) (
            Reads-bind _ (length m.entries) (Reads-word 4 _ h.5)
              (Reads-first _ tt Reads-ok (Reads-counted m.entries _ h.6 (Reads-pure _))))))))
Reads-payload (append_entries_reply m) h = Reads-bind _ m.term (Reads-word 8 _ h.0) (
    Reads-first _ tt Reads-ok (
      Reads-bind _ m.success (Reads-bool m.success) (
        Reads-bind _ m.conflict_index (Reads-word 8 _ h.1) (
          Reads-last _ m.conflict_term (Reads-word 8 _ h.2)
            (Reads-first _ tt Reads-ok (Reads-pure _))))))
Reads-payload (client_request m) h = Reads-bind _ m.client_id (Reads-word 8 _ h.0) (
    Reads-bind _ m.seq_no (Reads-word 8 _ h.1) (
      Reads-first _ tt Reads-ok (Reads-last _ m.command (Reads-blob m.command h.2) (Reads-pure _))))
Reads-payload (client_reply m) h =
    let s = status_laws m.status in
    Reads-bind _ (status_code m.status) (Reads-word 1 _ s.2) (
      Reads-first _ tt (Reads-require _ (λ rest. s.1)) (
        Reads-bind _ m.leader_hint (Reads-word 2 _ h.0)
          (Reads-last _ m.result (Reads-blob m.result h.1) (rw s.0 (Reads-pure _)))))

type_laws : (t : MessageType) → (type_of_code (type_code t) ≡ some t) × (type_code t < 256)
type_laws MessageType.request_vote = (refl, omega arith)
type_laws MessageType.request_vote_reply = (refl, omega arith)
type_laws MessageType.append_entries = (refl, omega arith)
type_laws MessageType.append_entries_reply = (refl, omega arith)
type_laws MessageType.client_request = (refl, omega arith)
type_laws MessageType.client_reply = (refl, omega arith)

Reads-type : (t : MessageType) → Reads (some_type (type_of_code (type_code t))) [] t
unfolding some_type
Reads-type t = rw (type_laws t).0 (Reads-pure t)

module _ (from to : NodeId) (m : Message) (n : ℕ) where
  Reads-envelope :
      from < 2 ^ 16
      → to < 2 ^ 16
      → payload_size m < 2 ^ 32
      → n ≡ envelope_size + payload_size m
      → Reads (decode_envelope n) (envelope_bytes (envelope_for from to m)) (envelope_for from to m)
  unfolding decode_envelope envelope_for
  Reads-envelope hf ht hp hn =
      let size : (payload_size m == n - envelope_size) ≡ true = ground arith in
      Reads-bind _ 1 (Reads-word 1 1 (omega arith)) (
        Reads-bind _ (type_code (type_of m)) (Reads-word 1 _ (type_laws (type_of m)).1) (
          Reads-bind _ from (Reads-word 2 from hf) (
            Reads-bind _ to (Reads-word 2 to ht) (
              Reads-bind _ 0 (Reads-word 2 0 (omega arith)) (
                Reads-last _ (payload_size m) (Reads-word 4 _ hp) (
                  Reads-first _ tt (Reads-require _ (λ rest. refl)) (
                    Reads-first _ (type_of m) (Reads-type (type_of m))
                      (Reads-first _ tt (Reads-require _ (λ rest. size)) (Reads-pure _)))))))))

-- A frame with nothing behind the payload is accepted.
decode_frame-layout :
    (from to : NodeId) (m : Message) (n : ℕ)
    → from < 2 ^ 16
    → to < 2 ^ 16
    → payload_size m < 2 ^ 32
    → n ≡ envelope_size + payload_size m
    → MessageFits m
    → (decode_frame n (reader (envelope_bytes (envelope_for from to m) ++ payload_bytes m))).0
      ≡ some (record { envelope = envelope_for from to m; message = m })
unfolding decode_frame ◌>>=◌ continue require pure decode_payload envelope_for
decode_frame-layout from to m n hf ht hp hn fits =
    let env = Reads.at (Reads-envelope from to m n hf ht hp hn) (payload_bytes m) in
    let body = rw append-nil at (Reads.at (Reads-payload m fits) []) in rw (env, body)

-- What the encoder writes for a message whose fields fit their words and whose payload has a legal
-- size, into a buffer that it fits, the decoder accepts as exactly one frame, and gives back the
-- sender, the receiver and the message.
pub decode_message-encode_message :
    (from to : NodeId) (m : Message) (capacity : ℕ)
    → from < 2 ^ 16
    → to < 2 ^ 16
    → MessageFits m
    → payload_size m ≤ max_payload_size
    → envelope_size + payload_size m ≤ capacity
    → (frame : Bytes) × (encode_message from to m capacity ≡ some frame)
      × (length frame ≡ envelope_size + payload_size m)
      × (decode_message frame ≡ some (record { envelope = envelope_for from to m; message = m }))
unfolding decode_message
decode_message-encode_message from to m capacity hf ht fits small room =
    let frame = envelope_bytes (envelope_for from to m) ++ payload_bytes m in
    let size : length frame ≡ envelope_size + payload_size m = omega (
      arith,
      length-append (envelope_bytes (envelope_for from to m)) (payload_bytes m),
      length-envelope_bytes (envelope_for from to m),
      length-payload_bytes m,
    ) in
    let t1 : ltb (length frame) envelope_size ≡ false = le→ltb _ _ (omega arith) in
    let t2 : ltb (envelope_size + max_payload_size) (length frame) ≡ false =
      le→ltb _ _ (omega arith) in
    (
      frame,
      encode_message-layout from to m capacity small room,
      size,
      rw (t1, t2) (decode_frame-layout from to m (length frame) hf ht (omega arith) size fits),
    )
