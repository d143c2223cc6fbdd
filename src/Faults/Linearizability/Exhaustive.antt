-- ===== src/Faults/Linearizability/Exhaustive.antt =====
-- What a failed search of faults/linearizability.cpp rules out, with its table of visited states.
use mathlib.Core.Bool.{false≢true}
use mathlib.Core.Option.{none-ne-some, some_inj}
use native.Mathlib.Nat.{zero-add}
use raft_rsm.Prelude.{
  ℕ, zero, suc, ◌+◌, ◌≤◌, ◌<◌, ◌≡◌, ◌⊎◌, inl, inr, refl, ap, sym, subst, ◌∙◌, Bool, true, false,
  ◌&&◌, some, List, [], ◌∷◌, arith, length, get_elem?, get_elem?-lt, All, Bool-cases, Option-cases,
}
use raft_rsm.StateMachine.Map.{bytes_eq, bytes_eq_iff}
use raft_rsm.Faults.Linearizability.{
  ClientOp, KvRegister, no_value, Mask, set_bit, no_bits, min_return, max_ms, all_completed_done,
  Visited, bool_eq, mask_eq, was_visited, candidate, try_ops, dfs, linearizable,
}
use raft_rsm.Faults.Linearizability.Orders.{
  after, Linearizes, count, length-set_bit, count-set_bit, count-no_bits, all_taken,
  AllDone-all_completed_done, Allowed-candidate, candidate-Allowed,
}
use raft_rsm.Faults.Linearizability.Loop.{
  try_ops_skip, try_ops_hit, try_ops_miss, dfs_done, dfs_seen, dfs_try, shift,
}

All-get_elem? :
    {A : Type 0} (P : A → Type 0) (xs : List A) (i : ℕ) {x : A}
    → All P xs
    → get_elem? xs i ≡ some x
    → P x
All-get_elem? P [] i h e = absurd (none-ne-some _ e)
All-get_elem? P (y ∷ xs) zero h e = subst P (some_inj.0 e) h.0
All-get_elem? P (y ∷ xs) (suc i) h e = All-get_elem? P xs i h.1 e

bool_eq-true : (a b : Bool) → bool_eq a b ≡ true → a ≡ b
bool_eq-true true b e = sym e
bool_eq-true false true e = absurd (false≢true e)
bool_eq-true false false e = refl

mask_eq-true : (m n : Mask) → mask_eq m n ≡ true → m ≡ n
mask_eq-true [] [] e = refl
mask_eq-true [] (b ∷ n) e = absurd (false≢true e)
mask_eq-true (a ∷ m) [] e = absurd (false≢true e)
mask_eq-true (a ∷ m) (b ∷ n) e =
    let heads : a ≡ b = bool_eq-true a b (ground arith) in
    let tails : m ≡ n = mask_eq-true m n (ground arith) in cc

module _ (ops : List ClientOp) where
  -- No order linearizes what is left.
  abbrev pub Dead : Mask → KvRegister → Type 0
  Dead mask reg = (order : List ℕ) → ¬ Linearizes ops mask reg order

  -- A visited state with fewer operations taken, or a dead one.
  abbrev Old : ℕ → Mask × KvRegister → Type 0
  Old c (m, r) = (count m < c) ⊎ Dead m r

  Old-suc : (c : ℕ) (v : Visited) → All (Old c) v → All (Old (suc c)) v
  Old-suc c [] h = tt
  Old-suc c ((m, r) ∷ v) h =
      (elim h.0 [ inl lt ↦ inl (omega arith) | inr dead ↦ inr dead ], Old-suc c v h.1)

  -- A state that was visited before, with as many operations taken, is dead.
  was_visited-Dead :
      (mask : Mask) (reg : KvRegister) (v : Visited)
      → All (Old (count mask)) v
      → was_visited mask reg v ≡ true
      → Dead mask reg
  unfolding was_visited
  was_visited-Dead mask reg [] h e = absurd (false≢true e)
  was_visited-Dead mask reg ((m, r) ∷ v) h e =
      elim (Bool-cases
        (mask_eq m mask && (bool_eq r.present reg.present && bytes_eq r.value reg.value))) [
          | inl same ↦
              let masks : m ≡ mask = mask_eq-true m mask (ground arith) in
              let presents : r.present ≡ reg.present =
                bool_eq-true r.present reg.present (ground arith) in
              let values : r.value ≡ reg.value =
                (bytes_eq_iff r.value reg.value).0 (ground arith) in
              let regs : r ≡ reg = cc in
              elim h.0 [
                | inl lt ↦ absurd (omega (arith, ap count masks))
                | inr dead ↦ subst (λ m. Dead m reg) masks (subst (λ r. Dead m r) regs dead)
              ]
          | inr other ↦ was_visited-Dead mask reg v h.1 (ground arith)
        ]

  -- What a failed search from states with c operations taken leaves.
  abbrev Refutes : (Mask → KvRegister → Visited → Bool × Visited) → ℕ → Type 0
  Refutes search c =
      (mask : Mask) (reg : KvRegister) (v : Visited)
      → length mask ≡ length ops
      → count mask ≡ c
      → All (Old c) v
      → (search mask reg v).0 ≡ false
      → Dead mask reg × ((d : ℕ) → All (Old d) v → All (Old d) (search mask reg v).1)

  module _ (search : Mask → KvRegister → Visited → Bool × Visited) (mask : Mask) (reg : KvRegister)
      (h : length mask ≡ length ops) (refutes : Refutes search (suc (count mask))) where
    -- Operation i + j of the loop leads to a dead state wherever its tests let it pass.
    abbrev Refuted : ℕ → List ClientOp → Type 0
    Refuted i rest =
        (j : ℕ) (op : ClientOp) (next : KvRegister)
        → get_elem? rest j ≡ some op
        → candidate mask reg (min_return ops mask) (i + j) op ≡ some next
        → Dead (set_bit mask (i + j)) next

    Refuted-cons :
        (i : ℕ) (op : ClientOp) (rest : List ClientOp)
        → ((next : KvRegister)
            → candidate mask reg (min_return ops mask) i op ≡ some next
            → Dead (set_bit mask i) next)
        → Refuted (i + 1) rest
        → Refuted i (op ∷ rest)
    Refuted-cons i op rest first others zero x next g c =
        let at : i + 0 ≡ i = omega arith in
        let same : op ≡ x = some_inj.0 g in rw at (first next (rw (same, ← at) c))
    Refuted-cons i op rest first others (suc j) x next g c =
        let at : i + suc j ≡ i + 1 + j = omega arith in rw at (others j x next g (rw (← at) c))

    try_ops-Refuted :
        (i : ℕ) (rest : List ClientOp) (v : Visited)
        → ((j : ℕ) → get_elem? ops (i + j) ≡ get_elem? rest j)
        → All (Old (suc (count mask))) v
        → (try_ops search mask reg (min_return ops mask) i rest v).0 ≡ false
        → Refuted i rest
          × ((d : ℕ)
              → All (Old d) v
              → All (Old d) (try_ops search mask reg (min_return ops mask) i rest v).1)
    unfolding try_ops
    try_ops-Refuted i [] v at o e = (λ j op next g. absurd (none-ne-some _ g), λ d a. a)
    try_ops-Refuted i (op ∷ rest) v at o e =
        let limit = min_return ops mask in
        let (here, later) = shift ops rest i op at in
        elim (Option-cases (candidate mask reg limit i op)) [
          | inl skip ↦
              let step = try_ops_skip search mask reg limit i op rest v skip in
              let (others, kept) =
                try_ops-Refuted (i + 1) rest v later o (ap (λ r. r.0) (sym step) ∙ e) in
              (
                Refuted-cons i op rest (λ next c. absurd (none-ne-some next (sym skip ∙ c))) others,
                λ d a. subst (λ r. All (Old d) r.1) (sym step) (kept d a),
              )
          | inr (next, go) ↦ elim (Bool-cases (search (set_bit mask i) next v).0) [
            | inl hit ↦
                let step = try_ops_hit search mask reg limit i op rest v go hit in
                absurd (false≢true (sym e ∙ ap (λ r. r.0) step))
            | inr miss ↦
                let step = try_ops_miss search mask reg limit i op rest v go miss in
                let allowed = (candidate-Allowed ops mask reg i op h go).0 in
                let bound : i < length mask = omega (arith, get_elem?-lt ops i here) in
                let (dead, kept) =
                  refutes (set_bit mask i) next v (length-set_bit mask i ∙ h)
                    (count-set_bit mask i bound allowed.fresh) o miss in
                let (others, kept') =
                  try_ops-Refuted (i + 1) rest (search (set_bit mask i) next v).1 later (kept _ o)
                    (ap (λ r. r.0) (sym step) ∙ e) in
                (
                  Refuted-cons i op rest
                      (λ n c. subst (Dead (set_bit mask i)) (some_inj.0 (sym go ∙ c)) dead) others,
                  λ d a. subst (λ r. All (Old d) r.1) (sym step) (kept' d (kept d a)),
                )
          ]
        ]

  -- A state that is not done and whose candidates all lead to dead states is dead.
  Refuted-Dead :
      (search : Mask → KvRegister → Visited → Bool × Visited) (mask : Mask) (reg : KvRegister)
      (h : length mask ≡ length ops) (refutes : Refutes search (suc (count mask)))
      → All (λ op. op.invoke_ms ≤ max_ms) ops
      → all_completed_done ops mask ≡ false
      → Refuted search mask reg h refutes 0 ops
      → Dead mask reg
  Refuted-Dead search mask reg h refutes small d refuted [] done =
      false≢true (sym d ∙ AllDone-all_completed_done ops mask h done)
  Refuted-Dead search mask reg h refutes small d refuted (i ∷ order) (op, g, allowed, l) =
      let at : 0 + i ≡ i = omega arith in
      let go =
        Allowed-candidate ops mask reg i op h
          (All-get_elem? (λ op. op.invoke_ms ≤ max_ms) ops i small g) allowed in
      refuted i op (after op reg) g (rw at go) order (rw at l)

  pub dfs-Refutes :
      (fuel c : ℕ)
      → All (λ op. op.invoke_ms ≤ max_ms) ops
      → length ops ≤ fuel + c
      → Refutes (dfs fuel ops) c
  unfolding dfs
  dfs-Refutes zero c small enough mask reg v h k o e =
      absurd (false≢true (sym e ∙ all_taken ops mask (omega arith) h))
  dfs-Refutes (suc fuel) c small enough mask reg v h k o e =
      elim (Bool-cases (all_completed_done ops mask)) [
        | inl d ↦ absurd (false≢true (sym e ∙ ap (λ r. r.0) (dfs_done fuel ops mask reg v d)))
        | inr d ↦
            let old = subst (λ c. All (Old c) v) (sym k) o in
            elim (Bool-cases (was_visited mask reg v)) [
              | inl s ↦ (
                was_visited-Dead mask reg v old s,
                λ n a. subst (λ r. All (Old n) r.1) (sym (dfs_seen fuel ops mask reg v d s)) a,
              )
              | inr s ↦
                  let step = dfs_try fuel ops mask reg v d s in
                  let refutes = dfs-Refutes fuel (suc (count mask)) small (omega arith) in
                  let (refuted, kept) =
                    try_ops-Refuted (dfs fuel ops) mask reg h refutes 0 ops ((mask, reg) ∷ v)
                      (λ j. ap (get_elem? ops) (zero-add j))
                      (inl (omega arith), Old-suc (count mask) v old)
                      (ap (λ r. r.0) (sym step) ∙ e) in
                  let dead = Refuted-Dead (dfs fuel ops) mask reg h refutes small d refuted in
                  (dead, λ n a. subst (λ r. All (Old n) r.1) (sym step) (kept n (inr dead, a)))
            ]
      ]

-- Where the search fails there is no linearization.
pub Linearizes-linearizable :
    (ops : List ClientOp) (order : List ℕ)
    → All (λ op. op.invoke_ms ≤ max_ms) ops
    → Linearizes ops (no_bits ops) no_value order
    → linearizable ops ≡ true
unfolding linearizable
Linearizes-linearizable ops order small l = elim (Bool-cases (linearizable ops)) [
  | inl passed ↦ passed
  | inr failed ↦
      let (none_taken, long) = count-no_bits ops in
      absurd (
        (dfs-Refutes ops (length ops) 0 small (omega arith) (no_bits ops) no_value [] long
            none_taken tt failed).0
          order l)
]
