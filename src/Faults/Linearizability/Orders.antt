-- ===== src/Faults/Linearizability/Orders.antt =====
-- The orders that the search of faults/linearizability.cpp looks for, and what its tests decide.
use raft_rsm.Prelude.{
  ℕ, zero, suc, ◌+◌, ◌≤◌, ◌<◌, ◌≡◌, inl, inr, refl, ap, true, false, some, List, [], ◌∷◌, arith,
  if◌then◌else◌, length, get_elem?, Option-cases, le→ltb, Bool-cases,
}
use mathlib.Core.Option.{none-ne-some, some_inj}
use raft_rsm.Rpc.Types.{Bytes}
use raft_rsm.StateMachine.Map.{bytes_eq_iff}
use raft_rsm.Faults.Linearizability.{
  ClientOp, is_complete, KvRegister, kv_model_apply, Mask, taken, set_bit, no_bits, max_ms,
  min_return, all_completed_done, candidate,
}

-- The register after an operation, and its result in the model.
abbrev pub after : ClientOp → KvRegister → KvRegister
after op reg = (kv_model_apply op.op op.arg op.arg2 reg).1

abbrev pub result_in : ClientOp → KvRegister → Bytes
result_in op reg = (kv_model_apply op.op op.arg op.arg2 reg).0

module _ (ops : List ClientOp) where
  -- Operation i may come next: it is not taken, it was not invoked after the return of an operation
  -- that is not taken, and the result that its client saw, if any, is the model's.
  pub record Allowed (mask : Mask) (reg : KvRegister) (i : ℕ) (op : ClientOp) : Type 0 where
    pub fresh : taken mask i ≡ false
    pub in_time :
        (k : ℕ) (other : ClientOp) (t : ℕ)
        → get_elem? ops k ≡ some other
        → other.return_ms ≡ some t
        → taken mask k ≡ false
        → op.invoke_ms ≤ t
    pub legal : is_complete op ≡ true → result_in op reg ≡ op.result

  -- Every completed operation is taken.
  abbrev pub AllDone : Mask → Type 0
  AllDone mask =
      (k : ℕ) (op : ClientOp)
      → get_elem? ops k ≡ some op
      → is_complete op ≡ true
      → taken mask k ≡ true

  -- The operations in this order, from a register and what is taken, linearize the others.
  abbrev pub Linearizes : Mask → KvRegister → List ℕ → Type 0
  Linearizes mask reg [] = AllDone mask
  Linearizes mask reg (i ∷ order) =
      (op : ClientOp) × (get_elem? ops i ≡ some op)
      × Allowed mask reg i op
      × Linearizes (set_bit mask i) (after op reg) order

pub length-set_bit : (mask : Mask) (i : ℕ) → length (set_bit mask i) ≡ length mask
unfolding set_bit
length-set_bit [] i = refl
length-set_bit (b ∷ mask) zero = refl
length-set_bit (b ∷ mask) (suc i) = ap suc (length-set_bit mask i)

-- The number of operations taken.
abbrev pub count : Mask → ℕ
count [] = 0
count (b ∷ mask) = (if b then 1 else 0) + count mask

pub count-set_bit :
    (mask : Mask) (i : ℕ)
    → i < length mask
    → taken mask i ≡ false
    → count (set_bit mask i) ≡ suc (count mask)
unfolding set_bit
count-set_bit [] i h e = absurd (omega arith)
count-set_bit (b ∷ mask) zero h e = ground arith
count-set_bit (b ∷ mask) (suc i) h e = omega (arith, count-set_bit mask i (omega arith) e)

pub count-no_bits :
    (ops : List ClientOp) → (count (no_bits ops) ≡ 0) × (length (no_bits ops) ≡ length ops)
unfolding no_bits
count-no_bits [] = (refl, refl)
count-no_bits (op ∷ ops) = let (a, b) = count-no_bits ops in (omega arith, ap suc b)

count-le : (mask : Mask) → count mask ≤ length mask
count-le [] = omega arith
count-le (b ∷ mask) = ground (arith, count-le mask)

-- What `allCompletedDone` decides.
pub all_completed_done-AllDone :
    (ops : List ClientOp) (mask : Mask)
    → length mask ≡ length ops
    → all_completed_done ops mask ≡ true
    → AllDone ops mask
unfolding all_completed_done
all_completed_done-AllDone [] mask h d k op e c = absurd (none-ne-some _ e)
all_completed_done-AllDone (x ∷ ops) [] h d k op e c = absurd (omega arith)
all_completed_done-AllDone (x ∷ ops) (b ∷ mask) h d zero op e c = ground (arith, some_inj.0 e)
all_completed_done-AllDone (x ∷ ops) (b ∷ mask) h d (suc k) op e c =
    all_completed_done-AllDone ops mask (omega arith) (ground arith) k op e c

pub AllDone-all_completed_done :
    (ops : List ClientOp) (mask : Mask)
    → length mask ≡ length ops
    → AllDone ops mask
    → all_completed_done ops mask ≡ true
unfolding all_completed_done
AllDone-all_completed_done [] mask h d = refl
AllDone-all_completed_done (x ∷ ops) [] h d = refl
AllDone-all_completed_done (x ∷ ops) (b ∷ mask) h d =
    let rest = AllDone-all_completed_done ops mask (omega arith) (λ k. d (suc k)) in
    let first = d zero x refl in ground arith

pub all_taken :
    (ops : List ClientOp) (mask : Mask)
    → length ops ≤ count mask
    → length mask ≡ length ops
    → all_completed_done ops mask ≡ true
unfolding all_completed_done
all_taken [] mask h e = refl
all_taken (op ∷ ops) [] h e = absurd (omega arith)
all_taken (op ∷ ops) (true ∷ mask) h e = all_taken ops mask (omega arith) (omega arith)
all_taken (op ∷ ops) (false ∷ mask) h e = absurd (omega (arith, count-le mask))

-- What the earliest return bounds.
pub min_return-le :
    (ops : List ClientOp) (mask : Mask) (k : ℕ) (other : ClientOp) (t : ℕ)
    → length mask ≡ length ops
    → get_elem? ops k ≡ some other
    → other.return_ms ≡ some t
    → taken mask k ≡ false
    → min_return ops mask ≤ t
unfolding min_return
min_return-le [] mask k other t h e r f = absurd (none-ne-some _ e)
min_return-le (op ∷ ops) [] k other t h e r f = absurd (omega arith)
min_return-le (op ∷ ops) (b ∷ mask) zero other t h e r f = ground (arith, some_inj.0 e)
min_return-le (op ∷ ops) (b ∷ mask) (suc k) other t h e r f =
    ground (arith, min_return-le ops mask k other t (omega arith) e r f)

pub le-min_return :
    (ops : List ClientOp) (mask : Mask) (x : ℕ)
    → length mask ≡ length ops
    → x ≤ max_ms
    → ((k : ℕ) (other : ClientOp) (t : ℕ)
        → get_elem? ops k ≡ some other
        → other.return_ms ≡ some t
        → taken mask k ≡ false
        → x ≤ t)
    → x ≤ min_return ops mask
unfolding min_return
le-min_return [] mask x h m f = m
le-min_return (op ∷ ops) [] x h m f = m
le-min_return (op ∷ ops) (true ∷ mask) x h m f =
    le-min_return ops mask x (omega arith) m (λ k. f (suc k))
le-min_return (op ∷ ops) (false ∷ mask) x h m f =
    let rest = le-min_return ops mask x (omega arith) m (λ k. f (suc k)) in
    elim (Option-cases op.return_ms) [
      | inl e ↦ rw e rest
      | inr (t, e) ↦ let own = f zero op t refl e refl in rw e (omega arith)
    ]

-- What the tests of the loop decide.
pub candidate-Allowed :
    (ops : List ClientOp) (mask : Mask) (reg : KvRegister) (i : ℕ) (op : ClientOp)
    {next : KvRegister}
    → length mask ≡ length ops
    → candidate mask reg (min_return ops mask) i op ≡ some next
    → Allowed ops mask reg i op × (next ≡ after op reg)
unfolding candidate
candidate-Allowed ops mask reg i op {next} h e = (
  record {
    fresh = ground arith;
    in_time = λ k other t f r u.
        let early : op.invoke_ms ≤ min_return ops mask = ground arith in
        omega (arith, min_return-le ops mask k other t h f r u);
    legal = λ c. ground (arith, bytes_eq_iff (result_in op reg) op.result);
  },
  ground arith,
)

pub Allowed-candidate :
    (ops : List ClientOp) (mask : Mask) (reg : KvRegister) (i : ℕ) (op : ClientOp)
    → length mask ≡ length ops
    → op.invoke_ms ≤ max_ms
    → Allowed ops mask reg i op
    → candidate mask reg (min_return ops mask) i op ≡ some (after op reg)
unfolding candidate
Allowed-candidate ops mask reg i op h m a =
    let early =
      le→ltb (min_return ops mask) op.invoke_ms
        (le-min_return ops mask op.invoke_ms h m a.in_time) in
    elim (Bool-cases (is_complete op)) [
      | inl c ↦
          let same = (bytes_eq_iff (result_in op reg) op.result).1 (a.legal c) in
          rw (a.fresh, early, c, same) refl
      | inr c ↦ rw (a.fresh, early, c) refl
    ]
