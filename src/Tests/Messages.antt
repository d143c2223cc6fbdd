-- ===== src/Tests/Messages.antt =====
-- Runs of the codec and instances of its theorems.
use raft_rsm.Prelude.{◌+◌, ◌≡◌, refl, true, none, some, [], ◌∷◌, ◌++◌, arith, length}
use raft_rsm.Rpc.Types.{Bytes, Message, append_entries, request_vote_reply, envelope_size}
use raft_rsm.Rpc.Wire.{le_bytes, of_le, put, read_bytes, read_word}
use raft_rsm.Rpc.Encode.{
  encode_message, payload_size, envelope_for, encode_payload, encode_request_vote_reply,
  encode_envelope, entries_size,
}
use raft_rsm.Rpc.Decode.{
  decode_message, decode_frame, decode_envelope, decode_payload, decode_request_vote_reply,
  decode_bool, word, require, pure, some_type, ◌>>=◌, continue,
}
use raft_rsm.Rpc.Decode.RoundTrip.{decode_message-encode_message}
use raft_rsm.Tests.Fixtures.{conflicting}

abbrev vote : Message
vote = request_vote_reply (record { term = 258; vote_granted = true })

abbrev vote_frame : Bytes
vote_frame = 1 ∷ 2 ∷ 3 ∷ 0 ∷ 1 ∷ 0 ∷ 0 ∷ 0 ∷ 9 ∷ 0 ∷ 0 ∷ 0 ∷ 2 ∷ 1 ∷ 0 ∷ 0 ∷ 0 ∷ 0 ∷ 0 ∷ 0 ∷ 1 ∷ []

encode_runs : encode_message 3 1 vote 64 ≡ some vote_frame
unfolding encode_message encode_payload encode_request_vote_reply encode_envelope envelope_for
    payload_size put le_bytes
encode_runs = refl

encode_too_small : encode_message 3 1 vote 20 ≡ none
unfolding encode_message payload_size
encode_too_small = refl

-- A trailing byte makes the frame malformed.
decode_trailing : decode_message (vote_frame ++ 0 ∷ []) ≡ none
unfolding decode_message decode_frame decode_envelope decode_payload decode_request_vote_reply
    decode_bool word require pure some_type ◌>>=◌ continue read_word read_bytes of_le
decode_trailing = refl

decode_message-encode_message_example :
    let m : Message = append_entries conflicting in
    (frame : Bytes) × (encode_message 3 1 m 200 ≡ some frame)
    × (length frame ≡ envelope_size + payload_size m)
    × (decode_message frame ≡ some (record { envelope = envelope_for 3 1 m; message = m }))
unfolding payload_size entries_size
decode_message-encode_message_example =
    decode_message-encode_message 3 1 (append_entries conflicting) 200 (omega arith) (omega arith)
      (omega arith) (omega arith) (omega arith)
