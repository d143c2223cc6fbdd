-- ===== src/StateMachine/Kv/Replies.antt =====
-- What src/statemachine/kv_store.cpp does to its map, seen as one register for each key.
use raft_rsm.Prelude.{
  ◌≡◌, refl, ◌⊎◌, inl, inr, Option, none, some, [], ◌∷◌, ◌++◌, if◌then◌else◌, Bool-cases,
  Option-cases,
}
use raft_rsm.Rpc.Types.{Bytes}
use raft_rsm.StateMachine.Map.{
  bytes_key, bytes_eq, bytes_eq_iff, lookup, lookup-insert, lookup-erase,
}
use raft_rsm.StateMachine.Kv.{
  KvOp, put, get, delete, cas, append, KvMap, KvStateMachine, KvCommand, kv_ok, kv_not_found,
  kv_cas_failed, kv_malformed, value_or_empty, apply_op, run_op, apply_command, apply_parsed, apply,
}
use raft_rsm.StateMachine.Kv.Sessions.{parsed, answer, apply_command-cases}

-- An operation on the register of its key: the reply and the new value. An absent key is compared
-- and appended to as the empty string.
abbrev pub on_register : KvOp → Bytes → Bytes → Option Bytes → Bytes × Option Bytes
on_register put arg arg2 v = (kv_ok ∷ [], some arg)
on_register get arg arg2 none = (kv_not_found ∷ [], none)
on_register get arg arg2 (some w) = (kv_ok ∷ w, some w)
on_register delete arg arg2 none = (kv_not_found ∷ [], none)
on_register delete arg arg2 (some w) = (kv_ok ∷ [], none)
on_register cas arg arg2 v =
    if bytes_eq (value_or_empty v) arg then (kv_ok ∷ [], some arg2) else (kv_cas_failed ∷ [], v)
on_register append arg arg2 none = (kv_ok ∷ arg, some arg)
on_register append arg arg2 (some w) = (kv_ok ∷ (w ++ arg), some (w ++ arg))

-- The reply and every register after an operation.
abbrev Registers : KvOp → Bytes → Bytes → Bytes → KvMap → Bytes × KvMap → Type 0
Registers op key arg arg2 kv r =
    let spec = on_register op arg arg2 (lookup key kv) in
    (r.0 ≡ spec.0) × ((j : Bytes) → lookup j r.1 ≡ (if bytes_eq key j then spec.1 else lookup j kv))

module _ (key arg arg2 : Bytes) (kv : KvMap) where
  unchanged :
      (v : Option Bytes) (j : Bytes)
      → lookup key kv ≡ v
      → lookup j kv ≡ (if bytes_eq key j then v else lookup j kv)
  unchanged v j e = elim (Bool-cases (bytes_eq key j)) [
    | inl same ↦ rw same (rw (← (bytes_eq_iff key j).0 same) e)
    | inr other ↦ rw other
  ]

  apply_op-Registers : (op : KvOp) → Registers op key arg arg2 kv (apply_op op key arg arg2 kv)
  unfolding apply_op
  apply_op-Registers put = (refl, λ j. lookup-insert key j arg kv)
  apply_op-Registers get = elim (Option-cases (lookup key kv)) [
    | inl e ↦ rw e (refl, λ j. unchanged none j e)
    | inr (v, e) ↦ rw e (refl, λ j. unchanged (some v) j e)
  ]
  apply_op-Registers delete = elim (Option-cases (lookup key kv)) [
    | inl e ↦ rw e (refl, λ j. lookup-erase key j kv)
    | inr (v, e) ↦ rw e (refl, λ j. lookup-erase key j kv)
  ]
  apply_op-Registers append = elim (Option-cases (lookup key kv)) [
    | inl e ↦ rw e (refl, λ j. lookup-insert key j _ kv)
    | inr (v, e) ↦ rw e (refl, λ j. lookup-insert key j _ kv)
  ]
  apply_op-Registers cas = elim (Bool-cases (bytes_eq (value_or_empty (lookup key kv)) arg)) [
    | inl e ↦ rw e (refl, λ j. lookup-insert key j arg2 kv)
    | inr e ↦ rw e (refl, λ j. unchanged (lookup key kv) j refl)
  ]

-- A well-formed command that is not a duplicate acts on the register of its key as its operation
-- says, answers with that operation's reply, and leaves every other key as it was.
pub apply_fresh :
    (command : Bytes) (c : KvCommand) (sm : KvStateMachine)
    → parsed command ≡ some c
    → (c.client_id ≡ 0) ⊎ (answer c.client_id c.seq_no sm ≡ none)
    → let r = apply command sm in
      let spec = on_register c.op c.arg c.arg2 (lookup c.key sm.kv) in
      (r.0 ≡ spec.0)
      × ((j : Bytes) → lookup j r.1.kv ≡ (if bytes_eq c.key j then spec.1 else lookup j sm.kv))
unfolding apply apply_parsed run_op
apply_fresh command c sm e n =
    rw e (rw (fresh_runs c sm n) (apply_op-Registers c.key c.arg c.arg2 sm.kv c.op))
  where
    fresh_runs :
        (c : KvCommand) (sm : KvStateMachine)
        → (c.client_id ≡ 0) ⊎ (answer c.client_id c.seq_no sm ≡ none)
        → apply_command c sm ≡ run_op c sm
    fresh_runs c sm n = elim (apply_command-cases c sm) [
      | inl (e, n) ↦ e
      | inr (h, (r, y, d)) ↦ elim n [ inl z ↦ absurd (h z) | inr new ↦ cc ]
    ]

-- A malformed command is refused and changes nothing.
pub apply_malformed :
    (command : Bytes) (sm : KvStateMachine)
    → parsed command ≡ none
    → apply command sm ≡ (kv_malformed ∷ [], sm)
unfolding apply apply_parsed
apply_malformed command sm e = rw e
