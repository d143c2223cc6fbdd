-- ===== src/StateMachine/Kv.antt =====
-- src/statemachine/kv_store.cpp: the key-value store with the session table in its applied state.
-- A `std::string` is its bytes.
pub mod Sessions
pub mod Replies
pub mod Commands
pub mod Snapshot
use raft_rsm.Prelude.{
  ℕ, zero, suc, ◌+◌, Bool, true, false, not, ◌&&◌, ◌||◌, Option, none, some, List, [], ◌∷◌, ◌++◌,
  ltb, leb, ◌==◌, if◌then◌else◌, length,
}
use raft_rsm.Rpc.Types.{Bytes}
use raft_rsm.Rpc.Wire.{le_bytes, reader, exhausted}
use raft_rsm.Rpc.Decode.{Decoder, pure, fail, ◌>>=◌, ◌>>◌, word, require, decode_blob}
use raft_rsm.StateMachine.Map.{Key, bytes_key, word_key, bytes_eq, lookup, insert, erase}

pub data KvOp : Type 0 where
  put get delete cas append : KvOp

abbrev pub op_code : KvOp → ℕ
op_code put = 1
op_code get = 2
op_code delete = 3
op_code cas = 4
op_code append = 5

-- `static_cast<KvOp>` of a byte in 1 .. 5.
abbrev pub op_of_code : ℕ → Option KvOp
op_of_code (suc zero) = some put
op_of_code (suc (suc zero)) = some get
op_of_code (suc (suc (suc zero))) = some delete
op_of_code (suc (suc (suc (suc zero)))) = some cas
op_of_code (suc (suc (suc (suc (suc zero))))) = some append
op_of_code _ = none

-- The status bytes 'O', 'N', 'F' and 'E'.
abbrev pub kv_ok : ℕ
kv_ok = b'O'

abbrev pub kv_not_found : ℕ
kv_not_found = b'N'

abbrev pub kv_cas_failed : ℕ
kv_cas_failed = b'F'

abbrev pub kv_malformed : ℕ
kv_malformed = b'E'

-- `opNeedsArg`, and the test for the third string.
abbrev pub op_needs_arg : KvOp → Bool
op_needs_arg put = true
op_needs_arg cas = true
op_needs_arg append = true
op_needs_arg _ = false

abbrev pub is_cas : KvOp → Bool
is_cas cas = true
is_cas _ = false

-- A command taken apart.
pub record KvCommand : Type 0 where
  pub client_id : ℕ
  pub seq_no : ℕ
  pub op : KvOp
  pub key : Bytes
  pub arg : Bytes
  pub arg2 : Bytes

-- `putString`.
abbrev pub put_string : Bytes → Bytes
put_string s = le_bytes 4 (length s) ++ s

-- `encodeKvCommandInto`.
unfoldable pub encode_kv_command : KvCommand → Bytes
encode_kv_command c =
    le_bytes 8 c.client_id
    ++ (le_bytes 8 c.seq_no
        ++ (le_bytes 1 (op_code c.op)
            ++ (put_string c.key
                ++ ((if op_needs_arg c.op then put_string c.arg else [])
                    ++ (if is_cas c.op then put_string c.arg2 else [])))))

-- `readString` where the operation has the field, and the empty string where not.
unfoldable pub read_string_if : Bool → Decoder Bytes
read_string_if true = decode_blob
read_string_if false = pure []

unfoldable pub some_op : Option KvOp → Decoder KvOp
some_op none = fail
some_op (some op) = pure op

-- The first part of `apply`: a malformed command is a failure.
unfoldable pub parse_kv_command : Decoder KvCommand
parse_kv_command = do
  client_id ← word 8
  seq_no ← word 8
  op_byte ← word 1
  require (λ r. r.ok && not (ltb op_byte 1 || ltb 5 op_byte))
  op ← some_op (op_of_code op_byte)
  key ← decode_blob
  arg ← read_string_if (op_needs_arg op)
  arg2 ← read_string_if (is_cas op)
  require exhausted
  pure (record {
    client_id = client_id;
    seq_no = seq_no;
    op = op;
    key = key;
    arg = arg;
    arg2 = arg2;
  })

pub record Session : Type 0 where
  pub last_seq : ℕ
  pub last_result : Bytes

abbrev pub KvMap : Type 0
KvMap = List (Bytes × Bytes)

pub record KvStateMachine : Type 0 where
  pub kv : KvMap
  pub sessions : List (ℕ × Session)

abbrev pub empty_store : KvStateMachine
empty_store = record { kv = []; sessions = [] }

abbrev pub value_or_empty : Option Bytes → Bytes
value_or_empty none = []
value_or_empty (some v) = v

abbrev pub is_present : Option Bytes → Bool
is_present none = false
is_present (some v) = true

abbrev pub found : Option Bytes → Bytes
found none = kv_not_found ∷ []
found (some v) = kv_ok ∷ v

-- `applyOp`.
unfoldable pub apply_op : KvOp → Bytes → Bytes → Bytes → KvMap → Bytes × KvMap
apply_op put key arg arg2 kv = (kv_ok ∷ [], insert key arg kv)
apply_op get key arg arg2 kv = (found (lookup key kv), kv)
apply_op delete key arg arg2 kv =
    ((if is_present (lookup key kv) then kv_ok ∷ [] else kv_not_found ∷ []), erase key kv)
apply_op cas key arg arg2 kv =
    if not (bytes_eq (value_or_empty (lookup key kv)) arg)
    then (kv_cas_failed ∷ [], kv)
    else (kv_ok ∷ [], insert key arg2 kv)
apply_op append key arg arg2 kv =
    let value = value_or_empty (lookup key kv) ++ arg in (kv_ok ∷ value, insert key value kv)

-- The session's cached result, if the command is a duplicate.
unfoldable pub cached : ℕ → Option Session → Option Bytes
cached seq_no none = none
cached seq_no (some s) = if leb seq_no s.last_seq then some s.last_result else none

unfoldable pub run_op : KvCommand → KvStateMachine → Bytes × KvStateMachine
run_op c sm =
    let (result, kv') = apply_op c.op c.key c.arg c.arg2 sm.kv in
    (
      result,
      record sm {
        kv = kv';
        sessions =
            if c.client_id == 0
            then sm.sessions
            else insert c.client_id (record { last_seq = c.seq_no; last_result = result })
                sm.sessions;
      },
    )

-- `apply` of a well-formed command: a duplicate has no effect, and client 0 has no session.
unfoldable pub apply_command : KvCommand → KvStateMachine → Bytes × KvStateMachine
apply_command c sm =
    if c.client_id == 0
    then run_op c sm
    else elim (cached c.seq_no (lookup c.client_id sm.sessions)) [
      | some result ↦ (result, sm)
      | none ↦ run_op c sm
    ]

unfoldable pub apply_parsed : Option KvCommand → KvStateMachine → Bytes × KvStateMachine
apply_parsed none sm = (kv_malformed ∷ [], sm)
apply_parsed (some c) sm = apply_command c sm

unfoldable pub apply : Bytes → KvStateMachine → Bytes × KvStateMachine
apply command sm = apply_parsed (parse_kv_command (reader command)).0 sm

-- The state after a log of commands.
unfoldable pub apply_all : List Bytes → KvStateMachine → KvStateMachine
apply_all [] sm = sm
apply_all (command ∷ rest) sm = apply_all rest (apply command sm).1
