-- ===== src/Faults/Linearizability/Histories.antt =====
-- The histories that faults/linearizability.cpp accepts.
use mathlib.Core.Option.{none-ne-some}
use raft_rsm.Prelude.{
  ℕ, ◌≤◌, ◌≡◌, ◌↔◌, inl, inr, refl, ap, sym, ◌∙◌, true, none, List, [], ◌∷◌, ◌++◌, if◌then◌else◌,
  append_assoc, append-nil, All, Bool-cases,
}
use raft_rsm.Rpc.Types.{Bytes}
use raft_rsm.Raft.Rules.{if_cases}
use raft_rsm.StateMachine.Map.{bytes_key, bytes_eq, bytes_eq_iff, lookup, insert, lookup-insert}
use raft_rsm.Faults.Linearizability.{
  ClientOp, no_value, no_bits, max_ms, linearizable, dfs, all_completed_done, sort_ops, or_empty,
  by_key, check_groups, check_linearizable,
}
use raft_rsm.Faults.Linearizability.Orders.{Linearizes}
use raft_rsm.Faults.Linearizability.Sound.{linearizable-Linearizes}
use raft_rsm.Faults.Linearizability.Exhaustive.{Linearizes-linearizable}

-- The search over the operations of a key, with its mask, its test on times and its table of
-- visited states, succeeds exactly if there is an order of operations that holds every completed
-- one, in which none is placed before an operation that had returned when it was invoked, and in
-- which each result that a client saw is the one of the model; the times of invocation are those of
-- a 64-bit signed integer.
pub linearizable_iff :
    (ops : List ClientOp)
    → All (λ op. op.invoke_ms ≤ max_ms) ops
    → (linearizable ops ≡ true) ↔ ((order : List ℕ) × Linearizes ops (no_bits ops) no_value order)
linearizable_iff ops small =
    (linearizable-Linearizes ops, λ l. Linearizes-linearizable ops l.0 small l.1)

-- The operations of a key, as they stand in the history.
abbrev pub of_key : Bytes → List ClientOp → List ClientOp
of_key key [] = []
of_key key (op ∷ history) =
    let rest = of_key key history in if bytes_eq op.key key then op ∷ rest else rest

by_key-of_key :
    (key : Bytes) (history : List ClientOp) (groups : List (Bytes × List ClientOp))
    → or_empty (lookup key (by_key history groups))
      ≡ or_empty (lookup key groups) ++ of_key key history
unfolding by_key
by_key-of_key key [] groups = sym (append-nil _)
by_key-of_key key (op ∷ history) groups =
    let group = or_empty (lookup op.key groups) ++ op ∷ [] in
    by_key-of_key key history (insert op.key group groups)
    ∙ ap (λ o. or_empty o ++ of_key key history) (lookup-insert op.key key group groups)
    ∙ elim (Bool-cases (bytes_eq op.key key)) [
      | inl same ↦
          let keys : op.key ≡ key = (bytes_eq_iff op.key key).0 same in
          rw same (
            ap (λ k. (or_empty (lookup k groups) ++ op ∷ []) ++ of_key key history) keys
            ∙ append_assoc (or_empty (lookup key groups)) (op ∷ []) (of_key key history))
      | inr other ↦ rw other refl
    ]

check_groups-lookup :
    (key : Bytes) (groups : List (Bytes × List ClientOp))
    → check_groups groups ≡ none
    → linearizable (sort_ops (or_empty (lookup key groups))) ≡ true
unfolding check_groups lookup linearizable dfs sort_ops all_completed_done
check_groups-lookup key [] e = refl
check_groups-lookup key ((k, ops) ∷ groups) e = elim (Bool-cases (linearizable (sort_ops ops))) [
  | inl good ↦
      let rest = check_groups-lookup key groups (rw good at e) in
      if_cases (λ o. linearizable (sort_ops (or_empty o)) ≡ true) (bytes_eq k key) good rest
  | inr bad ↦ absurd (none-ne-some _ (sym (rw bad at e)))
]

-- When the checker accepts a history, the operations of every key have a linearization.
pub check_linearizable_sound :
    (history : List ClientOp) (key : Bytes)
    → check_linearizable history ≡ none
    → (order : List ℕ) × Linearizes
        (sort_ops (of_key key history))
        (no_bits (sort_ops (of_key key history)))
        no_value
        order
unfolding check_linearizable lookup
check_linearizable_sound history key e = linearizable-Linearizes (sort_ops (of_key key history)) (
    ap (λ ops. linearizable (sort_ops ops)) (sym (by_key-of_key key history []))
    ∙ check_groups-lookup key (by_key history []) e)
