-- ===== src/Faults/Linearizability/Sound.antt =====
-- What the search of faults/linearizability.cpp finds.
use raft_rsm.Prelude.{
  ℕ, zero, suc, ◌+◌, ◌≡◌, inl, inr, ap, sym, subst, ◌∙◌, Bool, true, List, [], ◌∷◌, length,
  get_elem?, Bool-cases, Option-cases,
}
use mathlib.Core.Bool.{false≢true}
use native.Mathlib.Nat.{zero-add}
use raft_rsm.Faults.Linearizability.Loop.{try_ops_skip, try_ops_miss, dfs_seen, dfs_try, shift}
use raft_rsm.Faults.Linearizability.{
  ClientOp, KvRegister, no_value, Mask, set_bit, no_bits, min_return, all_completed_done, Visited,
  was_visited, candidate, try_ops, dfs, linearizable,
}
use raft_rsm.Faults.Linearizability.Orders.{
  Linearizes, length-set_bit, count-no_bits, all_completed_done-AllDone, candidate-Allowed,
}

-- An order that a successful loop found: one that begins with the operation it took.
module _ (ops : List ClientOp) (search : Mask → KvRegister → Visited → Bool × Visited)
    (sound : (mask : Mask) (reg : KvRegister) (v : Visited)
      → length mask ≡ length ops
      → (search mask reg v).0 ≡ true
      → (order : List ℕ) × Linearizes ops mask reg order)
    (mask : Mask) (reg : KvRegister) (h : length mask ≡ length ops) where
  try_ops_found :
      (i : ℕ) (rest : List ClientOp) (v : Visited)
      → ((j : ℕ) → get_elem? ops (i + j) ≡ get_elem? rest j)
      → (try_ops search mask reg (min_return ops mask) i rest v).0 ≡ true
      → (order : List ℕ) × Linearizes ops mask reg order
  unfolding try_ops
  try_ops_found i [] v at e = absurd (false≢true e)
  try_ops_found i (op ∷ rest) v at e =
      let limit = min_return ops mask in
      let (here, later) = shift ops rest i op at in
      elim (Option-cases (candidate mask reg limit i op)) [
        | inl skip ↦
            try_ops_found (i + 1) rest v later
              (ap (λ r. r.0) (sym (try_ops_skip search mask reg limit i op rest v skip)) ∙ e)
        | inr (next, go) ↦
            let (allowed, is_after) = candidate-Allowed ops mask reg i op h go in
            elim (Bool-cases (search (set_bit mask i) next v).0) [
              | inl hit ↦
                  let (order, l) = sound (set_bit mask i) next v (length-set_bit mask i ∙ h) hit in
                  (
                    i ∷ order,
                    (
                      op,
                      here,
                      allowed,
                      subst (λ r. Linearizes ops (set_bit mask i) r order) is_after l,
                    ),
                  )
              | inr miss ↦
                  try_ops_found (i + 1) rest _ later (
                    ap (λ r. r.0) (sym (try_ops_miss search mask reg limit i op rest v go miss))
                    ∙ e)
            ]
      ]

dfs_found :
    (fuel : ℕ) (ops : List ClientOp) (mask : Mask) (reg : KvRegister) (v : Visited)
    → length mask ≡ length ops
    → (dfs fuel ops mask reg v).0 ≡ true
    → (order : List ℕ) × Linearizes ops mask reg order
unfolding dfs
dfs_found zero ops mask reg v h e = ([], all_completed_done-AllDone ops mask h e)
dfs_found (suc fuel) ops mask reg v h e = elim (Bool-cases (all_completed_done ops mask)) [
  | inl d ↦ ([], all_completed_done-AllDone ops mask h d)
  | inr d ↦ elim (Bool-cases (was_visited mask reg v)) [
    | inl s ↦ absurd (false≢true (ap (λ r. r.0) (sym (dfs_seen fuel ops mask reg v d s)) ∙ e))
    | inr s ↦
        try_ops_found ops (dfs fuel ops) (λ m r w. dfs_found fuel ops m r w) mask reg h 0 ops
          ((mask, reg) ∷ v) (λ j. ap (get_elem? ops) (zero-add j))
          (ap (λ r. r.0) (sym (dfs_try fuel ops mask reg v d s)) ∙ e)
  ]
]

-- Whenever the search succeeds there is a linearization.
pub linearizable-Linearizes :
    (ops : List ClientOp)
    → linearizable ops ≡ true
    → (order : List ℕ) × Linearizes ops (no_bits ops) no_value order
unfolding linearizable
linearizable-Linearizes ops e =
    dfs_found (length ops) ops (no_bits ops) no_value [] (count-no_bits ops).1 e
