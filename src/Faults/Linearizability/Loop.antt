-- ===== src/Faults/Linearizability/Loop.antt =====
-- The branches of the loop of `dfs` in faults/linearizability.cpp.
use raft_rsm.Prelude.{
  ℕ, suc, ◌+◌, ◌≡◌, refl, ap, ◌∙◌, Bool, true, false, none, some, List, ◌∷◌, arith, get_elem?,
}
use raft_rsm.Faults.Linearizability.{
  ClientOp, KvRegister, Mask, set_bit, min_return, all_completed_done, Visited, was_visited,
  candidate, try_ops, dfs,
}

module _ (search : Mask → KvRegister → Visited → Bool × Visited) (mask : Mask) (reg : KvRegister)
    (limit i : ℕ) (op : ClientOp) (rest : List ClientOp) (v : Visited) where
  pub try_ops_skip :
      candidate mask reg limit i op ≡ none
      → try_ops search mask reg limit i (op ∷ rest) v ≡ try_ops search mask reg limit (i + 1) rest v
  unfolding try_ops
  try_ops_skip e = rw (try_ops, e) refl

  pub try_ops_hit :
      {next : KvRegister}
      → candidate mask reg limit i op ≡ some next
      → (search (set_bit mask i) next v).0 ≡ true
      → try_ops search mask reg limit i (op ∷ rest) v ≡ (true, (search (set_bit mask i) next v).1)
  unfolding try_ops
  try_ops_hit e f = rw (try_ops, e, f) refl

  pub try_ops_miss :
      {next : KvRegister}
      → candidate mask reg limit i op ≡ some next
      → (search (set_bit mask i) next v).0 ≡ false
      → try_ops search mask reg limit i (op ∷ rest) v
        ≡ try_ops search mask reg limit (i + 1) rest (search (set_bit mask i) next v).1
  unfolding try_ops
  try_ops_miss e f = rw (try_ops, e, f) refl

module _ (fuel : ℕ) (ops : List ClientOp) (mask : Mask) (reg : KvRegister) (v : Visited) where
  pub dfs_done : all_completed_done ops mask ≡ true → dfs (suc fuel) ops mask reg v ≡ (true, v)
  unfolding dfs
  dfs_done d = rw (dfs, d) refl

  pub dfs_seen :
      all_completed_done ops mask ≡ false
      → was_visited mask reg v ≡ true
      → dfs (suc fuel) ops mask reg v ≡ (false, v)
  unfolding dfs
  dfs_seen d s = rw (dfs, d, s) refl

  pub dfs_try :
      all_completed_done ops mask ≡ false
      → was_visited mask reg v ≡ false
      → dfs (suc fuel) ops mask reg v
        ≡ try_ops (dfs fuel ops) mask reg (min_return ops mask) 0 ops ((mask, reg) ∷ v)
  unfolding dfs
  dfs_try d s = rw (dfs, d, s) refl

-- The rest of a list at an index.
pub shift :
    (ops rest : List ClientOp) (i : ℕ) (op : ClientOp)
    → ((j : ℕ) → get_elem? ops (i + j) ≡ get_elem? (op ∷ rest) j)
    → (get_elem? ops i ≡ some op) × ((j : ℕ) → get_elem? ops (i + 1 + j) ≡ get_elem? rest j)
shift ops rest i op at =
    let here : i ≡ i + 0 = omega arith in
    (
      ap (get_elem? ops) here ∙ at 0,
      λ j. let next : i + 1 + j ≡ i + suc j = omega arith in ap (get_elem? ops) next ∙ at (suc j),
    )
