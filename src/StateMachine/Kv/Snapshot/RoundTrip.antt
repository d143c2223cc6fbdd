-- ===== src/StateMachine/Kv/Snapshot/RoundTrip.antt =====
-- Snapshots of the store of src/statemachine/kv_store.cpp, read back.
use raft_rsm.Prelude.{
  ℕ, ◌^◌, ◌<◌, ◌≡◌, sym, ap, subst, inl, inr, true, List, [], ◌∷◌, ◌++◌, length, append_assoc,
  append-nil, All, ◌==◌, Bool-cases, Option-cases, not,
}
use raft_rsm.Rpc.Types.{Bytes}
use raft_rsm.Rpc.Wire.{reader}
use raft_rsm.Rpc.Decode.{Decoder}
use raft_rsm.Rpc.Decode.Rules.{
  Reads, Reads-bind, Reads-pure, Reads-word, Reads-blob, Accepts, Accepts-bind, Accepts-last,
  Accepts-end,
}
use raft_rsm.StateMachine.Map.{Key, bytes_key, word_key, bytes_eq, lookup}
use raft_rsm.StateMachine.Map.Order.{
  bytes_ordered, word_ordered, Before, After, Sorted, Sorted-insert, Sorted-erase, insert-last,
}
use raft_rsm.StateMachine.Kv.{
  KvOp, put, get, delete, cas, append, KvCommand, Session, KvMap, KvStateMachine, empty_store,
  value_or_empty, apply_op, cached, run_op, apply_command, apply_parsed, apply, apply_all,
  parse_kv_command,
}
use raft_rsm.StateMachine.Kv.Snapshot.{
  pairs_bytes, sessions_bytes, serialize, while_ok, decode_pairs, decode_sessions, decode_store,
  restored, deserialize,
}

-- Every length fits its 32-bit prefix, and every number its 64-bit word.
abbrev pub PairFits : Bytes × Bytes → Type 0
PairFits (key, value) = (length key < 2 ^ 32) × (length value < 2 ^ 32)

abbrev pub SessionFits : ℕ × Session → Type 0
SessionFits (client_id, s) =
    (client_id < 2 ^ 64) × (s.last_seq < 2 ^ 64) × (length s.last_result < 2 ^ 32)

abbrev pub Fits : KvStateMachine → Type 0
Fits sm =
    All PairFits sm.kv
    × All SessionFits sm.sessions
    × (length sm.kv < 2 ^ 64)
    × (length sm.sessions < 2 ^ 64)

abbrev pub InOrder : KvStateMachine → Type 0
InOrder sm = Sorted sm.kv × Sorted sm.sessions

Reads-while_ok :
    {A : Type 0} (p : Decoder A) (stop : A) (bs : Bytes) (a : A)
    → Reads p bs a
    → Reads (while_ok p stop) bs a
unfolding while_ok
Reads-while_ok p stop bs a h = record { at = λ rest. h.at rest }

module _ {K V : Type 0} ⦃key : Key K⦄ where
  Before-middle :
      (j k : K) (v : V) (xs m : List (K × V)) → Before j (xs ++ (k, v) ∷ m) → key.less j k ≡ true
  Before-middle j k v [] m b = b.0
  Before-middle j k v ((i, w) ∷ xs) m b = Before-middle j k v xs m b.1

  Sorted-After : (k : K) (v : V) (xs m : List (K × V)) → Sorted (xs ++ (k, v) ∷ m) → After k xs
  Sorted-After k v [] m s = tt
  Sorted-After k v ((j, w) ∷ xs) m s = (Before-middle j k v xs m s.0, Sorted-After k v xs m s.1)

Reads-pairs :
    (done m : KvMap)
    → Sorted (done ++ m)
    → All PairFits m
    → Reads (decode_pairs (length m) done) (pairs_bytes m) (done ++ m)
unfolding decode_pairs
Reads-pairs done [] s f = subst (Reads _ []) (sym (append-nil done)) (Reads-pure done)
Reads-pairs done ((key, value) ∷ m) s f =
    let more = append_assoc done ((key, value) ∷ []) m in
    let last = insert-last key value done (Sorted-After key value done m s) in
    let rest = Reads-pairs (done ++ (key, value) ∷ []) m (subst Sorted (sym more) s) f.1 in
    Reads-while_ok _ done _ _ (
      Reads-bind _ key (Reads-blob key f.0.0)
        (Reads-bind _ value (Reads-blob value f.0.1) (rw (last, sym more) rest)))

Reads-sessions :
    (done m : List (ℕ × Session))
    → Sorted (done ++ m)
    → All SessionFits m
    → Reads (decode_sessions (length m) done) (sessions_bytes m) (done ++ m)
unfolding decode_sessions
Reads-sessions done [] s f = subst (Reads _ []) (sym (append-nil done)) (Reads-pure done)
Reads-sessions done ((client_id, session) ∷ m) s f =
    let more = append_assoc done ((client_id, session) ∷ []) m in
    let last = insert-last client_id session done (Sorted-After client_id session done m s) in
    let rest =
      Reads-sessions (done ++ (client_id, session) ∷ []) m (subst Sorted (sym more) s) f.1 in
    Reads-while_ok _ done _ _ (
      Reads-bind _ client_id (Reads-word 8 client_id f.0.0) (
        Reads-bind _ session.last_seq (Reads-word 8 session.last_seq f.0.1) (
          Reads-bind _ session.last_result (Reads-blob session.last_result f.0.2)
            (rw (last, sym more) rest))))

deserialize-serialize :
    (sm other : KvStateMachine)
    → InOrder sm
    → Fits sm
    → deserialize (serialize sm) other ≡ (true, sm)
unfolding deserialize serialize decode_store
deserialize-serialize sm other (s, t) (f, g, m, n) =
    let accepted : Accepts decode_store (serialize sm) sm =
      Accepts-bind _ (length sm.kv) (Reads-word 8 (length sm.kv) m) (
        Accepts-bind _ sm.kv (Reads-pairs [] sm.kv s f) (
          Accepts-bind _ (length sm.sessions) (Reads-word 8 (length sm.sessions) n)
            (Accepts-last _ sm.sessions (Reads-sessions [] sm.sessions t g) (Accepts-end sm)))) in
    ap (λ o. restored o other) accepted.at

apply_op-Sorted :
    (op : KvOp) (key arg arg2 : Bytes) (kv : KvMap)
    → Sorted kv
    → Sorted (apply_op op key arg arg2 kv).1
unfolding apply_op
apply_op-Sorted put key arg arg2 kv s = Sorted-insert key arg kv s
apply_op-Sorted get key arg arg2 kv s = s
apply_op-Sorted delete key arg arg2 kv s = Sorted-erase key kv s
apply_op-Sorted cas key arg arg2 kv s =
    elim (Bool-cases (not (bytes_eq (value_or_empty (lookup key kv)) arg))) [
      | inl differs ↦ rw differs s
      | inr same ↦ rw same (Sorted-insert key arg2 kv s)
    ]
apply_op-Sorted append key arg arg2 kv s = Sorted-insert key _ kv s

run_op-InOrder : (c : KvCommand) (sm : KvStateMachine) → InOrder sm → InOrder (run_op c sm).1
unfolding run_op
run_op-InOrder c sm (s, t) = elim (Bool-cases (c.client_id == 0)) [
  | inl e ↦ rw e (apply_op-Sorted c.op c.key c.arg c.arg2 sm.kv s, t)
  | inr e ↦
      rw e
        (apply_op-Sorted c.op c.key c.arg c.arg2 sm.kv s, Sorted-insert c.client_id _ sm.sessions t)
]

apply_command-InOrder :
    (c : KvCommand) (sm : KvStateMachine) → InOrder sm → InOrder (apply_command c sm).1
unfolding apply_command
apply_command-InOrder c sm h = elim (Bool-cases (c.client_id == 0)) [
  | inl e ↦ rw (e, apply_command) (run_op-InOrder c sm h)
  | inr e ↦ elim (Option-cases (cached c.seq_no (lookup c.client_id sm.sessions))) [
    | inl n ↦ rw (e, n, apply_command) (run_op-InOrder c sm h)
    | inr (result, o) ↦ rw (e, o, apply_command) h
  ]
]

-- Every command keeps the keys of both maps in order.
pub apply_all-InOrder :
    (commands : List Bytes) (sm : KvStateMachine) → InOrder sm → InOrder (apply_all commands sm)
unfolding apply_all apply apply_parsed
apply_all-InOrder [] sm h = h
apply_all-InOrder (command ∷ rest) sm h =
    apply_all-InOrder rest (apply command sm).1
      (elim (Option-cases (parse_kv_command (reader command)).0) [
        | inl n ↦ rw (apply, n) h
        | inr (c, o) ↦ rw (apply, o) (apply_command-InOrder c sm h)
      ])

-- The snapshot of a store that ran any commands, well formed or not, in which every length fits its
-- 32-bit prefix and every number its 64-bit word, is accepted by any store, and gives it the same
-- keys, values and sessions.
pub deserialize-apply_all :
    (commands : List Bytes) (other : KvStateMachine)
    → Fits (apply_all commands empty_store)
    → deserialize (serialize (apply_all commands empty_store)) other
      ≡ (true, apply_all commands empty_store)
deserialize-apply_all commands other f =
    deserialize-serialize (apply_all commands empty_store) other
      (apply_all-InOrder commands empty_store (tt, tt)) f
