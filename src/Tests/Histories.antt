-- ===== src/Tests/Histories.antt =====
-- Concrete histories for faults/linearizability.cpp.
use raft_rsm.Prelude.{ℕ, ◌≡◌, ◌↔◌, refl, true, none, some, Option, List, [], ◌∷◌, arith}
use raft_rsm.Rpc.Types.{Bytes}
use raft_rsm.StateMachine.Map.{bytes_key, lookup, insert}
use raft_rsm.StateMachine.Kv.{KvOp, put, get, append, KvMap, apply_op}
use raft_rsm.Faults.Linearizability.{
  ClientOp, no_value, no_bits, linearizable, sort_ops, check_linearizable, kv_model_apply,
  check_groups, by_key, dfs, insert_op, all_completed_done, was_visited, try_ops, candidate,
  min_return, set_bit,
}
use raft_rsm.Faults.Linearizability.Model.{register_of, kv_model_apply-apply_op}
use raft_rsm.Faults.Linearizability.Orders.{Linearizes}
use raft_rsm.Faults.Linearizability.Histories.{of_key, linearizable_iff, check_linearizable_sound}

abbrev key : Bytes
key = b'k' ∷ []

abbrev client : KvOp → Bytes → ℕ → Option ℕ → Bytes → ClientOp
client op arg start end result = record {
  client_id = 1;
  seq_no = start;
  op = op;
  key = key;
  arg = arg;
  arg2 = [];
  invoke_ms = start;
  return_ms = end;
  result = result;
}

-- A read that overlaps the write that it sees, and a write that never returned.
abbrev good : List ClientOp
good =
    client get [] 1 (some 9) (b'O' ∷ 7 ∷ [])
    ∷ client put (7 ∷ []) 2 (some 5) (b'O' ∷ [])
    ∷ client put (8 ∷ []) 3 none []
    ∷ []

-- A read after the write that misses it.
abbrev stale : List ClientOp
stale = client put (7 ∷ []) 2 (some 5) (b'O' ∷ []) ∷ client get [] 6 (some 9) (b'N' ∷ []) ∷ []

good_accepted : check_linearizable good ≡ none
unfolding check_linearizable check_groups by_key insert linearizable dfs sort_ops lookup insert_op
    all_completed_done no_bits was_visited try_ops candidate min_return kv_model_apply set_bit
good_accepted = refl

stale_rejected : check_linearizable stale ≡ some key
unfolding check_linearizable check_groups by_key insert linearizable dfs sort_ops lookup insert_op
    all_completed_done no_bits was_visited try_ops candidate min_return kv_model_apply set_bit
stale_rejected = refl

check_linearizable_sound_example :
    (order : List ℕ) × Linearizes
      (sort_ops (of_key key good))
      (no_bits (sort_ops (of_key key good)))
      no_value
      order
check_linearizable_sound_example = check_linearizable_sound good key good_accepted

linearizable_iff_example :
    (linearizable stale ≡ true)
    ↔ ((order : List ℕ) × Linearizes stale (no_bits stale) no_value order)
linearizable_iff_example = linearizable_iff stale (omega arith, (omega arith, tt))

kv_model_apply-apply_op_example :
    let kv : KvMap = (key, 1 ∷ []) ∷ ([], 2 ∷ []) ∷ [] in
    let (result, reg) = kv_model_apply append (5 ∷ []) [] (register_of (lookup key kv)) in
    let (result', kv') = apply_op append key (5 ∷ []) [] kv in
    (result ≡ result') × (reg ≡ register_of (lookup key kv')) × (lookup [] kv' ≡ lookup [] kv)
kv_model_apply-apply_op_example =
    kv_model_apply-apply_op append key (5 ∷ []) [] [] ((key, 1 ∷ []) ∷ ([], 2 ∷ []) ∷ []) (λ e. cc)
