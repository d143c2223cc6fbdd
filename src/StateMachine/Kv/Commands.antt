-- ===== src/StateMachine/Kv/Commands.antt =====
-- The command format of src/statemachine/kv_store.cpp: `encodeKvCommand` and the parser of `apply`.
use raft_rsm.Prelude.{
  ◌^◌, ◌<◌, ◌≡◌, refl, Bool, true, false, not, ◌||◌, some, [], arith, ltb, if◌then◌else◌, length,
}
use raft_rsm.Rpc.Types.{Bytes}
use raft_rsm.Rpc.Decode.Rules.{
  Reads, Reads-pure, Reads-word, Reads-require, Reads-blob, Accepts, Accepts-bind, Accepts-last,
  Accepts-first, Accepts-end,
}
use raft_rsm.StateMachine.Kv.{
  KvOp, put, get, delete, cas, append, op_code, op_of_code, op_needs_arg, is_cas, KvCommand,
  put_string, encode_kv_command, read_string_if, some_op, parse_kv_command,
}
use raft_rsm.StateMachine.Kv.Sessions.{parsed}

-- The fields fit their words.
pub record CommandFits (c : KvCommand) : Type 0 where
  pub client_id : c.client_id < 2 ^ 64
  pub seq_no : c.seq_no < 2 ^ 64
  pub key : length c.key < 2 ^ 32
  pub arg : length c.arg < 2 ^ 32
  pub arg2 : length c.arg2 < 2 ^ 32

-- The command with empty strings where its operation has no field.
abbrev pub trimmed : KvCommand → KvCommand
trimmed c = record c {
  arg = if op_needs_arg c.op then c.arg else [];
  arg2 = if is_cas c.op then c.arg2 else [];
}

op_laws :
    (op : KvOp)
    → (op_of_code (op_code op) ≡ some op)
      × (op_code op < 256)
      × (not (ltb (op_code op) 1 || ltb 5 (op_code op)) ≡ true)
op_laws put = (refl, omega arith, refl)
op_laws get = (refl, omega arith, refl)
op_laws delete = (refl, omega arith, refl)
op_laws cas = (refl, omega arith, refl)
op_laws append = (refl, omega arith, refl)

Reads-op : (op : KvOp) → Reads (some_op (op_of_code (op_code op))) [] op
unfolding some_op
Reads-op op = rw (op_laws op).0 (Reads-pure op)

Reads-string_if :
    (b : Bool) (s : Bytes)
    → length s < 2 ^ 32
    → Reads (read_string_if b) (if b then put_string s else []) (if b then s else [])
unfolding read_string_if
Reads-string_if true s h = Reads-blob s h
Reads-string_if false s h = Reads-pure []

-- A command whose fields fit their words is parsed as it was built, up to the strings that its
-- operation does not carry.
pub parsed-encode_kv_command :
    (c : KvCommand) → CommandFits c → parsed (encode_kv_command c) ≡ some (trimmed c)
unfolding encode_kv_command parse_kv_command
parsed-encode_kv_command c h = Accepts.at (
    Accepts-bind _ c.client_id (Reads-word 8 _ h.client_id) (
      Accepts-bind _ c.seq_no (Reads-word 8 _ h.seq_no) (
        Accepts-bind _ (op_code c.op) (Reads-word 1 _ (op_laws c.op).1) (
          Accepts-first _ tt (Reads-require _ (λ rest. (op_laws c.op).2)) (
            Accepts-first _ c.op (Reads-op c.op) (
              Accepts-bind _ c.key (Reads-blob c.key h.key) (
                Accepts-bind _ _ (Reads-string_if (op_needs_arg c.op) c.arg h.arg) (
                  Accepts-last _ _ (Reads-string_if (is_cas c.op) c.arg2 h.arg2)
                    (Accepts-end _)))))))))
