-- ===== src/Rpc/Encode.antt =====
-- src/rpc/messages.cpp, the encoder: `encodeEnvelope`, `encodePayload`, `payloadSize`,
-- `encodeMessage`.
pub mod Layout
use raft_rsm.Prelude.{
  ℕ, ◌+◌, ◌*◌, Bool, true, false, ◌||◌, Option, none, some, List, [], ◌∷◌, ltb, if◌then◌else◌,
  length,
}
use raft_rsm.Rpc.Types.{
  Bytes, NodeId, LogEntry, Message, request_vote, request_vote_reply, append_entries,
  append_entries_reply, client_request, client_reply, Envelope, type_code, type_of, status_code,
  protocol_version, envelope_size, max_payload_size, RequestVote, RequestVoteReply, AppendEntries,
  AppendEntriesReply, ClientRequest, ClientReply,
}
use raft_rsm.Rpc.Wire.{Writer, writer, put, write_u8, write_u16, write_u32, write_u64}

-- `b ? 1 : 0`.
abbrev pub bool_code : Bool → ℕ
bool_code true = 1
bool_code false = 0

-- `encodeEnvelope`; the fifth field is reserved.
unfoldable pub encode_envelope : Envelope → Writer → Writer
encode_envelope e w = write_u32 e.payload_length (
    write_u16 0
      (write_u16 e.to (write_u16 e.from (write_u8 (type_code e.type) (write_u8 e.version w)))))

-- A length and the bytes. A cast to `std::uint32_t` keeps the four bytes that are written.
unfoldable pub encode_blob : Bytes → Writer → Writer
encode_blob bs w = put bs (write_u32 (length bs) w)

unfoldable pub encode_request_vote : RequestVote → Writer → Writer
encode_request_vote m w =
    write_u64 m.last_log_term
      (write_u64 m.last_log_index (write_u16 m.candidate_id (write_u64 m.term w)))

unfoldable pub encode_request_vote_reply : RequestVoteReply → Writer → Writer
encode_request_vote_reply m w = write_u8 (bool_code m.vote_granted) (write_u64 m.term w)

unfoldable pub encode_entries : List LogEntry → Writer → Writer
encode_entries [] w = w
encode_entries (e ∷ es) w = encode_entries es (encode_blob e.command (write_u64 e.term w))

unfoldable pub encode_append_entries : AppendEntries → Writer → Writer
encode_append_entries m w = encode_entries m.entries (
    write_u32 (length m.entries) (
      write_u64 m.leader_commit (
        write_u64 m.prev_log_term
          (write_u64 m.prev_log_index (write_u16 m.leader_id (write_u64 m.term w))))))

unfoldable pub encode_append_entries_reply : AppendEntriesReply → Writer → Writer
encode_append_entries_reply m w =
    write_u64 m.conflict_term
      (write_u64 m.conflict_index (write_u8 (bool_code m.success) (write_u64 m.term w)))

unfoldable pub encode_client_request : ClientRequest → Writer → Writer
encode_client_request m w = encode_blob m.command (write_u64 m.seq_no (write_u64 m.client_id w))

unfoldable pub encode_client_reply : ClientReply → Writer → Writer
encode_client_reply m w =
    encode_blob m.result (write_u16 m.leader_hint (write_u8 (status_code m.status) w))

-- The overloads of `encodePayload`.
unfoldable pub encode_payload : Message → Writer → Writer
encode_payload (request_vote m) = encode_request_vote m
encode_payload (request_vote_reply m) = encode_request_vote_reply m
encode_payload (append_entries m) = encode_append_entries m
encode_payload (append_entries_reply m) = encode_append_entries_reply m
encode_payload (client_request m) = encode_client_request m
encode_payload (client_reply m) = encode_client_reply m

unfoldable pub entries_size : List LogEntry → ℕ
entries_size [] = 0
entries_size (e ∷ es) = 8 + 4 + length e.command + entries_size es

-- `payloadSize`.
unfoldable pub payload_size : Message → ℕ
payload_size (request_vote m) = 8 + 2 + 8 + 8
payload_size (request_vote_reply m) = 8 + 1
payload_size (append_entries m) = 8 + 2 + 8 + 8 + 8 + 4 + entries_size m.entries
payload_size (append_entries_reply m) = 8 + 1 + 8 + 8
payload_size (client_request m) = 8 + 8 + 4 + length m.command
payload_size (client_reply m) = 1 + 2 + 4 + length m.result

unfoldable pub envelope_for : NodeId → NodeId → Message → Envelope
envelope_for from to m = record {
  version = protocol_version;
  type = type_of m;
  from = from;
  to = to;
  payload_length = payload_size m;
}

-- `encodeMessage` into a buffer of the given size: the bytes written, `none` for the result 0.
unfoldable pub encode_message : NodeId → NodeId → Message → ℕ → Option Bytes
encode_message from to m capacity =
    let w = encode_payload m (encode_envelope (envelope_for from to m) (writer capacity)) in
    if ltb max_payload_size (payload_size m) || ltb capacity (envelope_size + payload_size m)
    then none
    else if w.ok
    then some w.buf
    else none
