-- ===== src/Rpc/Decode.antt =====
-- src/rpc/messages.cpp, the decoder: `decodeBool`, `decodeBlob`, `decodePayload`,
-- `decodePayloadInto` and `decodeMessage`. The recycling of buffers (DecodePool) has no effect on
-- the decoded message and is left out.
pub mod Rules
pub mod RoundTrip
use raft_rsm.Prelude.{
  ℕ, zero, suc, ◌+◌, ◌-◌, ◌/◌, Bool, true, false, not, ◌&&◌, ◌||◌, Option, none, some, List, [],
  ◌∷◌, ltb, leb, ◌==◌, if◌then◌else◌, length,
}
use raft_rsm.Rpc.Types.{
  Bytes, ClientStatus, ok, not_leader, error, DecodedMessage, NodeId, LogEntry, Message,
  request_vote, request_vote_reply, append_entries, append_entries_reply, client_request,
  client_reply, Envelope, MessageType, protocol_version, envelope_size, max_payload_size,
}
use raft_rsm.Rpc.Wire.{Reader, reader, read_bytes, read_word, remaining, exhausted}

-- A decoder moves the cursor and gives a value, or `none` where the source returns false.
abbrev pub Decoder : Type 0 → Type 0
Decoder A = Reader → Option A × Reader

module _ {A : Type 0} where
  unfoldable pub pure : A → Decoder A
  pure a r = (some a, r)

  unfoldable pub fail : Decoder A
  fail r = (none, r)

-- What follows a decoder is skipped after a failure.
module _ {A B : Type 0} where
  unfoldable pub continue : Option A → (A → Decoder B) → Decoder B
  continue none f r = (none, r)
  continue (some a) f r = f a r

  infixl 5 ◌>>=◌
  unfoldable pub ◌>>=◌ : Decoder A → (A → Decoder B) → Decoder B
  ◌>>=◌ p f r = let (o, r') = p r in continue o f r'

infixl 5 ◌>>◌
abbrev pub ◌>>◌ : {B : Type 0} → Decoder Unit → Decoder B → Decoder B
p >> q = p >>= λ _. q

-- A word; past the end it is 0 and the flag of the cursor falls.
unfoldable pub word : ℕ → Decoder ℕ
word n r = let (v, r') = read_word n r in (some v, r')

-- `if (!test) return false;`
unfoldable pub require : (Reader → Bool) → Decoder Unit
require test r = (if test r then some tt else none, r)

-- `r.ok()`.
abbrev pub check_ok : Decoder Unit
check_ok = require (λ r. r.ok)

unfoldable pub decode_bool : Decoder Bool
decode_bool = do v ← word 1; require (λ r. r.ok && not (ltb 1 v)); pure (v == 1)

unfoldable pub decode_blob : Decoder Bytes
decode_blob = do len ← word 4; require (λ r. r.ok && not (ltb (remaining r) len)); read_bytes len

unfoldable pub decode_request_vote : Decoder Message
decode_request_vote = do
  term ← word 8
  candidate_id ← word 2
  last_log_index ← word 8
  last_log_term ← word 8
  check_ok
  pure (
      request_vote (record {
        term = term;
        candidate_id = candidate_id;
        last_log_index = last_log_index;
        last_log_term = last_log_term;
      }))

unfoldable pub decode_request_vote_reply : Decoder Message
decode_request_vote_reply = do
  term ← word 8
  check_ok
  granted ← decode_bool
  pure (request_vote_reply (record { term = term; vote_granted = granted }))

unfoldable pub decode_append_entries_reply : Decoder Message
decode_append_entries_reply = do
  term ← word 8
  check_ok
  success ← decode_bool
  conflict_index ← word 8
  conflict_term ← word 8
  check_ok
  pure (
      append_entries_reply (record {
        term = term;
        success = success;
        conflict_index = conflict_index;
        conflict_term = conflict_term;
      }))

unfoldable pub decode_client_request : Decoder Message
decode_client_request = do
  client_id ← word 8
  seq_no ← word 8
  check_ok
  command ← decode_blob
  pure (client_request (record { client_id = client_id; seq_no = seq_no; command = command }))

-- `static_cast<ClientStatus>` of a value that passed the test.
abbrev pub status_of : ℕ → ClientStatus
status_of zero = ok
status_of (suc zero) = not_leader
status_of (suc (suc n)) = error

unfoldable pub decode_client_reply : Decoder Message
decode_client_reply = do
  status ← word 1
  require (λ r. r.ok && not (ltb 2 status))
  leader_hint ← word 2
  result ← decode_blob
  pure (
      client_reply
        (record { status = status_of status; leader_hint = leader_hint; result = result }))

unfoldable pub decode_entries : ℕ → Decoder (List LogEntry)
decode_entries zero = pure []
decode_entries (suc n) = do
  term ← word 8
  check_ok
  command ← decode_blob
  rest ← decode_entries n
  pure (record { term = term; command = command } ∷ rest)

-- A count that the remaining input cannot back is refused before any entry is read.
unfoldable pub decode_append_entries : Decoder Message
decode_append_entries = do
  term ← word 8
  leader_id ← word 2
  prev_log_index ← word 8
  prev_log_term ← word 8
  leader_commit ← word 8
  count ← word 4
  check_ok
  require (λ r. not (ltb (remaining r / 12) count))
  entries ← decode_entries count
  pure (
      append_entries (record {
        term = term;
        leader_id = leader_id;
        prev_log_index = prev_log_index;
        prev_log_term = prev_log_term;
        leader_commit = leader_commit;
        entries = entries;
      }))

-- `static_cast<MessageType>` of a byte that `validType` accepts.
abbrev pub type_of_code : ℕ → Option MessageType
type_of_code (suc zero) = some MessageType.request_vote
type_of_code (suc (suc zero)) = some MessageType.request_vote_reply
type_of_code (suc (suc (suc zero))) = some MessageType.append_entries
type_of_code (suc (suc (suc (suc zero)))) = some MessageType.append_entries_reply
type_of_code (suc (suc (suc (suc (suc zero))))) = some MessageType.client_request
type_of_code (suc (suc (suc (suc (suc (suc zero)))))) = some MessageType.client_reply
type_of_code _ = none

unfoldable pub decode_payload : MessageType → Decoder Message
decode_payload MessageType.request_vote = decode_request_vote
decode_payload MessageType.request_vote_reply = decode_request_vote_reply
decode_payload MessageType.append_entries = decode_append_entries
decode_payload MessageType.append_entries_reply = decode_append_entries_reply
decode_payload MessageType.client_request = decode_client_request
decode_payload MessageType.client_reply = decode_client_reply

unfoldable pub some_type : Option MessageType → Decoder MessageType
some_type none = fail
some_type (some t) = pure t

unfoldable pub decode_envelope : ℕ → Decoder Envelope
decode_envelope frame_size = do
  version ← word 1
  raw_type ← word 1
  from ← word 2
  to ← word 2
  reserved ← word 2
  payload_length ← word 4
  require (λ r. r.ok && version == protocol_version && reserved == 0)
  type ← some_type (type_of_code raw_type)
  require (λ r. payload_length == frame_size - envelope_size)
  pure (record {
    version = version;
    type = type;
    from = from;
    to = to;
    payload_length = payload_length;
  })

-- `decodeMessage` after the test of the frame's size.
unfoldable pub decode_frame : ℕ → Decoder DecodedMessage
decode_frame frame_size = do
  env ← decode_envelope frame_size
  m ← decode_payload env.type
  require exhausted
  pure (record { envelope = env; message = m })

unfoldable pub decode_message : Bytes → Option DecodedMessage
decode_message frame =
    let decoded = (decode_frame (length frame) (reader frame)).0 in
    if ltb (length frame) envelope_size || ltb (envelope_size + max_payload_size) (length frame)
    then none
    else decoded
