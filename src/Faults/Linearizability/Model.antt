-- ===== src/Faults/Linearizability/Model.antt =====
-- The one-key model of faults/linearizability.cpp beside `applyOp` of src/statemachine/kv_store.cpp.
use raft_rsm.Prelude.{
  ◌≡◌, ◌≢◌, Option, none, some, [], ◌++◌, arith, Option-cases, Bool-cases, inl, inr, refl,
}
use raft_rsm.Rpc.Types.{Bytes}
use raft_rsm.StateMachine.Map.{
  bytes_key, bytes_eq_iff, bytes_eq, lookup, lookup-insert, lookup-erase, erase, insert,
}
use raft_rsm.StateMachine.Kv.{KvOp, put, get, delete, cas, append, KvMap, apply_op}
use raft_rsm.Faults.Linearizability.{KvRegister, no_value, holds, kv_model_apply}

-- The register of a key of the store.
abbrev pub register_of : Option Bytes → KvRegister
register_of none = no_value
register_of (some v) = holds v

module _ (key other : Bytes) (v : Bytes) (kv : KvMap) where
  lookup_written : lookup key (insert key v kv) ≡ some v
  lookup_written = ground (arith, lookup-insert key key v kv, bytes_eq_iff key key)

  lookup_kept : key ≢ other → lookup other (insert key v kv) ≡ lookup other kv
  lookup_kept h = ground (arith, lookup-insert key other v kv, bytes_eq_iff key other)

  written :
      {A : Type 0} (a : A)
      → key ≢ other
      → (a ≡ a)
        × (holds v ≡ register_of (lookup key (insert key v kv)))
        × (lookup other (insert key v kv) ≡ lookup other kv)
  written a h = (refl, rw lookup_written refl, lookup_kept h)

-- The model of a key gives the result that the store gives, and goes to the register that the key
-- then has; the operation leaves every other key.
pub kv_model_apply-apply_op :
    (op : KvOp) (key arg arg2 other : Bytes) (kv : KvMap)
    → key ≢ other
    → let (result, reg) = kv_model_apply op arg arg2 (register_of (lookup key kv)) in
      let (result', kv') = apply_op op key arg arg2 kv in
      (result ≡ result')
      × (reg ≡ register_of (lookup key kv'))
      × (lookup other kv' ≡ lookup other kv)
unfolding kv_model_apply apply_op
kv_model_apply-apply_op put key arg arg2 other kv h = (written key other arg kv _ h)
kv_model_apply-apply_op get key arg arg2 other kv h = elim (Option-cases (lookup key kv)) [
  | inl e ↦ rw e (refl, refl, refl)
  | inr (v, e) ↦ rw e (refl, refl, refl)
]
kv_model_apply-apply_op delete key arg arg2 other kv h = elim (Option-cases (lookup key kv)) [
  | inl e ↦ rw e (refl, rw (gone key) refl, kept)
  | inr (v, e) ↦ rw e (refl, rw (gone key) refl, kept)
]
  where
    gone : (key : Bytes) → lookup key (erase key kv) ≡ none
    gone key = ground (arith, lookup-erase key key kv, bytes_eq_iff key key)

    kept : lookup other (erase key kv) ≡ lookup other kv
    kept = ground (arith, lookup-erase key other kv, bytes_eq_iff key other)
kv_model_apply-apply_op cas key arg arg2 other kv h = elim (Option-cases (lookup key kv)) [
  | inl e ↦ rw e (elim (Bool-cases (bytes_eq [] arg)) [
    | inl same ↦ rw same (written key other arg2 kv _ h)
    | inr differ ↦ rw differ (refl, rw e refl, refl)
  ])
  | inr (v, e) ↦ rw e (elim (Bool-cases (bytes_eq v arg)) [
    | inl same ↦ rw same (written key other arg2 kv _ h)
    | inr differ ↦ rw differ (refl, rw e refl, refl)
  ])
]
kv_model_apply-apply_op append key arg arg2 other kv h = elim (Option-cases (lookup key kv)) [
  | inl e ↦ rw e (written key other ([] ++ arg) kv _ h)
  | inr (v, e) ↦ rw e (written key other (v ++ arg) kv _ h)
]
