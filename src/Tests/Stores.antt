-- ===== src/Tests/Stores.antt =====
-- Runs of the state machines and instances of their theorems.
use raft_rsm.Prelude.{◌≡◌, refl, inr, true, none, some, [], ◌∷◌, arith, if◌then◌else◌}
use raft_rsm.Rpc.Types.{Bytes}
use raft_rsm.Rpc.Wire.{le_bytes, of_le, read_bytes, read_word}
use raft_rsm.Rpc.Decode.{decode_blob, word, require, pure, fail, ◌>>=◌, continue}
use raft_rsm.StateMachine.Map.{bytes_key, word_key, bytes_eq, lookup, insert}
use raft_rsm.StateMachine.Kv.{
  KvCommand, put, append, empty_store, encode_kv_command, apply, apply_all, apply_parsed,
  apply_command, apply_op, run_op, parse_kv_command, read_string_if, some_op, cached,
}
use raft_rsm.StateMachine.Kv.Sessions.{parsed, Other, apply_again_state, apply_again_result}
use raft_rsm.StateMachine.Kv.Commands.{parsed-encode_kv_command}
use raft_rsm.StateMachine.Kv.Snapshot.{serialize, deserialize}
use raft_rsm.StateMachine.Kv.Snapshot.RoundTrip.{deserialize-apply_all}
use raft_rsm.StateMachine.Kv.Replies.{apply_fresh}

-- Client 7 appends "xy" at key "k"; client 8 puts "z" there.
abbrev grow : KvCommand
grow = record {
  client_id = 7;
  seq_no = 1;
  op = append;
  key = b'k' ∷ [];
  arg = b'x' ∷ b'y' ∷ [];
  arg2 = [];
}

abbrev replace : KvCommand
replace = record {
  client_id = 8;
  seq_no = 1;
  op = put;
  key = b'k' ∷ [];
  arg = b'z' ∷ [];
  arg2 = [];
}

parsed-encode_kv_command_example : parsed (encode_kv_command grow) ≡ some grow
parsed-encode_kv_command_example = parsed-encode_kv_command grow (omega arith)

parsed-grow : parsed (encode_kv_command grow) ≡ some grow
parsed-grow = parsed-encode_kv_command grow (omega arith)

Other-replace : Other 7 (encode_kv_command replace)
Other-replace c e = ground (arith, parsed-encode_kv_command replace (omega arith))

apply_again_state_example :
    let later =
      apply_all (encode_kv_command replace ∷ []) (apply (encode_kv_command grow) empty_store).1 in
    (apply (encode_kv_command grow) later).1 ≡ later
apply_again_state_example =
    apply_again_state (encode_kv_command grow) grow empty_store (encode_kv_command replace ∷ [])
      parsed-grow (omega arith)

apply_again_result_example :
    let first = apply (encode_kv_command grow) empty_store in
    let later = apply_all (encode_kv_command replace ∷ []) first.1 in
    apply (encode_kv_command grow) later ≡ (first.0, later)
apply_again_result_example =
    apply_again_result (encode_kv_command grow) grow empty_store (encode_kv_command replace ∷ [])
      parsed-grow (omega arith) (Other-replace, tt)

apply_fresh_example :
    let r = apply (encode_kv_command grow) empty_store in
    (r.0 ≡ b'O' ∷ b'x' ∷ b'y' ∷ [])
    × ((j : Bytes)
        → lookup j r.1.kv ≡ (if bytes_eq (b'k' ∷ []) j then some (b'x' ∷ b'y' ∷ []) else none))
unfolding lookup cached
apply_fresh_example = apply_fresh (encode_kv_command grow) grow empty_store parsed-grow (inr refl)

-- A retry is answered from the session and appends nothing.
retry_runs :
    (apply_all (encode_kv_command grow ∷ encode_kv_command grow ∷ []) empty_store).kv
    ≡ (b'k' ∷ [], b'x' ∷ b'y' ∷ []) ∷ []
unfolding apply_all apply apply_parsed apply_command run_op apply_op cached lookup insert
    encode_kv_command parse_kv_command read_string_if some_op decode_blob word require pure fail
    ◌>>=◌ continue read_word read_bytes le_bytes of_le
retry_runs = refl

-- Both clients' commands, in one store.
deserialize-apply_all_example :
    let sm = apply_all (encode_kv_command grow ∷ encode_kv_command replace ∷ []) empty_store in
    deserialize (serialize sm) empty_store ≡ (true, sm)
unfolding apply_all apply apply_parsed apply_command apply_op run_op parse_kv_command read_string_if
    some_op cached insert lookup decode_blob word require pure fail ◌>>=◌ continue encode_kv_command
    le_bytes of_le read_bytes read_word
deserialize-apply_all_example =
    deserialize-apply_all (encode_kv_command grow ∷ encode_kv_command replace ∷ []) empty_store
      (omega arith)
