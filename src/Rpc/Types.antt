-- ===== src/Rpc/Types.antt =====
-- src/rpc/messages.h: the message types. A byte is a number below 256, an id a number below 2 ^ 16,
-- a term or an index a number below 2 ^ 64.
use raft_rsm.Prelude.{ℕ, ◌*◌, Bool, List}

abbrev pub NodeId : Type 0
NodeId = ℕ

abbrev pub Term : Type 0
Term = ℕ

abbrev pub LogIndex : Type 0
LogIndex = ℕ

abbrev pub Bytes : Type 0
Bytes = List ℕ

abbrev pub protocol_version : ℕ
protocol_version = 1

abbrev pub envelope_size : ℕ
envelope_size = 12

abbrev pub max_payload_size : ℕ
max_payload_size = 16 * 1024 * 1024

pub record RequestVote : Type 0 where
  pub term : Term
  pub candidate_id : NodeId
  pub last_log_index : LogIndex
  pub last_log_term : Term

pub record RequestVoteReply : Type 0 where
  pub term : Term
  pub vote_granted : Bool

pub record LogEntry : Type 0 where
  pub term : Term
  pub command : Bytes

pub record AppendEntries : Type 0 where
  pub term : Term
  pub leader_id : NodeId
  pub prev_log_index : LogIndex
  pub prev_log_term : Term
  pub leader_commit : LogIndex
  pub entries : List LogEntry

pub record AppendEntriesReply : Type 0 where
  pub term : Term
  pub success : Bool
  pub conflict_index : LogIndex
  pub conflict_term : Term

pub data ClientStatus : Type 0 where
  ok not_leader error : ClientStatus

pub record ClientRequest : Type 0 where
  pub client_id : ℕ
  pub seq_no : ℕ
  pub command : Bytes

pub record ClientReply : Type 0 where
  pub status : ClientStatus
  pub leader_hint : NodeId
  pub result : Bytes

pub data Message : Type 0 where
  request_vote : RequestVote → Message
  request_vote_reply : RequestVoteReply → Message
  append_entries : AppendEntries → Message
  append_entries_reply : AppendEntriesReply → Message
  client_request : ClientRequest → Message
  client_reply : ClientReply → Message

pub data MessageType : Type 0 where
  request_vote request_vote_reply append_entries : MessageType
  append_entries_reply client_request client_reply : MessageType

pub record Envelope : Type 0 where
  pub version : ℕ
  pub type : MessageType
  pub from : NodeId
  pub to : NodeId
  pub payload_length : ℕ

pub record DecodedMessage : Type 0 where
  pub envelope : Envelope
  pub message : Message

-- The MessageType enumerators' values.
abbrev pub type_code : MessageType → ℕ
type_code MessageType.request_vote = 1
type_code MessageType.request_vote_reply = 2
type_code MessageType.append_entries = 3
type_code MessageType.append_entries_reply = 4
type_code MessageType.client_request = 5
type_code MessageType.client_reply = 6

-- `typeOf`.
abbrev pub type_of : Message → MessageType
type_of (Message.request_vote m) = MessageType.request_vote
type_of (Message.request_vote_reply m) = MessageType.request_vote_reply
type_of (Message.append_entries m) = MessageType.append_entries
type_of (Message.append_entries_reply m) = MessageType.append_entries_reply
type_of (Message.client_request m) = MessageType.client_request
type_of (Message.client_reply m) = MessageType.client_reply

-- The ClientStatus enumerators' values.
abbrev pub status_code : ClientStatus → ℕ
status_code ok = 0
status_code not_leader = 1
status_code error = 2
