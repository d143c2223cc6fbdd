-- ===== src/Faults/Linearizability.antt =====
-- faults/linearizability.cpp: the sequential model of one key, and the search for a linearization.
-- Times are milliseconds of the simulated clock; a pending operation has no time of return, which
-- the source writes -1.
pub mod Model
pub mod Orders
pub mod Loop
pub mod Sound
pub mod Exhaustive
pub mod Histories
use raft_rsm.Prelude.{
  ℕ, zero, suc, ◌+◌, ◌-◌, ◌^◌, min, Bool, true, false, not, ◌&&◌, ◌||◌, Option, none, some, List,
  [], ◌∷◌, ◌++◌, map, ltb, ◌==◌, if◌then◌else◌, length, get_elem?,
}
use raft_rsm.Rpc.Types.{Bytes}
use raft_rsm.StateMachine.Map.{Key, bytes_key, bytes_eq, lookup, insert}
use raft_rsm.StateMachine.Kv.{
  KvOp, put, get, delete, cas, append, kv_ok, kv_not_found, kv_cas_failed,
}

pub record ClientOp : Type 0 where
  pub client_id : ℕ
  pub seq_no : ℕ
  pub op : KvOp
  pub key : Bytes
  pub arg : Bytes
  pub arg2 : Bytes
  pub invoke_ms : ℕ
  pub return_ms : Option ℕ
  pub result : Bytes

-- `complete`.
abbrev pub is_complete : ClientOp → Bool
is_complete op = elim op.return_ms [ none ↦ false | some t ↦ true ]

pub record KvRegister : Type 0 where
  pub present : Bool
  pub value : Bytes

abbrev pub no_value : KvRegister
no_value = record { present = false; value = [] }

abbrev pub holds : Bytes → KvRegister
holds v = record { present = true; value = v }

-- `reg.present ? reg.value : ""`.
abbrev pub current : KvRegister → Bytes
current reg = if reg.present then reg.value else []

-- `kvModelApply`, with `reg` as a result.
unfoldable pub kv_model_apply : KvOp → Bytes → Bytes → KvRegister → Bytes × KvRegister
kv_model_apply put arg arg2 reg = (kv_ok ∷ [], holds arg)
kv_model_apply get arg arg2 reg =
    ((if not reg.present then kv_not_found ∷ [] else kv_ok ∷ reg.value), reg)
kv_model_apply delete arg arg2 reg =
    ((if reg.present then kv_ok ∷ [] else kv_not_found ∷ []), no_value)
kv_model_apply cas arg arg2 reg =
    if not (bytes_eq (current reg) arg) then (kv_cas_failed ∷ [], reg) else (kv_ok ∷ [], holds arg2)
kv_model_apply append arg arg2 reg =
    let value = (if not reg.present then [] else reg.value) ++ arg in (kv_ok ∷ value, holds value)

-- The bits of the mask, one for each operation.
abbrev pub Mask : Type 0
Mask = List Bool

abbrev pub or_false : Option Bool → Bool
or_false none = false
or_false (some b) = b

abbrev pub taken : Mask → ℕ → Bool
taken mask i = or_false (get_elem? mask i)

unfoldable pub set_bit : Mask → ℕ → Mask
set_bit [] i = []
set_bit (b ∷ mask) zero = true ∷ mask
set_bit (b ∷ mask) (suc i) = b ∷ set_bit mask i

-- The mask of a search that begins.
unfoldable pub no_bits : List ClientOp → Mask
no_bits [] = []
no_bits (op ∷ ops) = false ∷ no_bits ops

-- `kInf`, the greatest `std::int64_t`.
abbrev pub max_ms : ℕ
max_ms = 2 ^ 63 - 1

-- The earliest return of a completed operation that is not taken.
unfoldable pub min_return : List ClientOp → Mask → ℕ
min_return (op ∷ ops) (b ∷ mask) =
    let rest = min_return ops mask in
    if b then rest else elim op.return_ms [ none ↦ rest | some t ↦ min rest t ]
min_return _ _ = max_ms

-- `allCompletedDone`.
unfoldable pub all_completed_done : List ClientOp → Mask → Bool
all_completed_done (op ∷ ops) (b ∷ mask) =
    let rest = all_completed_done ops mask in if b || not (is_complete op) then rest else false
all_completed_done _ _ = true

-- The searches that were begun. `memoKey` is injective: the words of the mask have one length.
abbrev pub Visited : Type 0
Visited = List (Mask × KvRegister)

abbrev pub bool_eq : Bool → Bool → Bool
bool_eq true b = b
bool_eq false b = not b

abbrev pub mask_eq : Mask → Mask → Bool
mask_eq [] [] = true
mask_eq (a ∷ m) (b ∷ n) = bool_eq a b && mask_eq m n
mask_eq _ _ = false

unfoldable pub was_visited : Mask → KvRegister → Visited → Bool
was_visited mask reg [] = false
was_visited mask reg ((m, r) ∷ v) =
    (mask_eq m mask && (bool_eq r.present reg.present && bytes_eq r.value reg.value))
    || was_visited mask reg v

-- The register after operation i, unless one of the loop's tests passes over it.
unfoldable pub candidate : Mask → KvRegister → ℕ → ℕ → ClientOp → Option KvRegister
candidate mask reg limit i op =
    let (result, next) = kv_model_apply op.op op.arg op.arg2 reg in
    if taken mask i
    then none
    else if ltb limit op.invoke_ms
    then none
    else if is_complete op && not (bytes_eq result op.result)
    then none
    else some next

-- The second loop of `dfs` from operation i on, over the search that it calls.
unfoldable pub try_ops :
    (Mask → KvRegister → Visited → Bool × Visited)
    → Mask
    → KvRegister
    → ℕ
    → ℕ
    → List ClientOp
    → Visited
    → Bool × Visited
try_ops search mask reg limit i [] visited = (false, visited)
try_ops search mask reg limit i (op ∷ rest) visited = elim (candidate mask reg limit i op) [
  | none ↦ try_ops search mask reg limit (i + 1) rest visited
  | some next ↦
      let (found, visited') = search (set_bit mask i) next visited in
      let later = try_ops search mask reg limit (i + 1) rest visited' in
      if found then (true, visited') else later
]

-- `dfs`: every search within it takes one more operation, so their number is enough fuel.
unfoldable pub dfs : ℕ → List ClientOp → Mask → KvRegister → Visited → Bool × Visited
dfs zero ops mask reg visited = (all_completed_done ops mask, visited)
dfs (suc fuel) ops mask reg visited =
    let tried =
      try_ops (dfs fuel ops) mask reg (min_return ops mask) 0 ops ((mask, reg) ∷ visited) in
    if all_completed_done ops mask
    then (true, visited)
    else if was_visited mask reg visited
    then (false, visited)
    else tried

-- `KeySearch::linearizable`.
unfoldable pub linearizable : List ClientOp → Bool
linearizable ops = (dfs (length ops) ops (no_bits ops) no_value []).0

-- The order of `std::sort` within a key.
abbrev pub earlier_op : ClientOp → ClientOp → Bool
earlier_op a b =
    if not (a.invoke_ms == b.invoke_ms)
    then ltb a.invoke_ms b.invoke_ms
    else if not (a.client_id == b.client_id)
    then ltb a.client_id b.client_id
    else ltb a.seq_no b.seq_no

unfoldable pub insert_op : ClientOp → List ClientOp → List ClientOp
insert_op a [] = a ∷ []
insert_op a (b ∷ ops) =
    let later = insert_op a ops in if earlier_op b a then b ∷ later else a ∷ b ∷ ops

unfoldable pub sort_ops : List ClientOp → List ClientOp
sort_ops [] = []
sort_ops (a ∷ ops) = insert_op a (sort_ops ops)

abbrev pub or_empty : Option (List ClientOp) → List ClientOp
or_empty none = []
or_empty (some ops) = ops

-- `byKey[op.key].push_back(&op)`.
unfoldable pub by_key : List ClientOp → List (Bytes × List ClientOp) → List (Bytes × List ClientOp)
by_key [] groups = groups
by_key (op ∷ history) groups =
    by_key history (insert op.key (or_empty (lookup op.key groups) ++ op ∷ []) groups)

-- The keys in their order, up to the first that fails; the explanation is the key.
unfoldable pub check_groups : List (Bytes × List ClientOp) → Option Bytes
check_groups [] = none
check_groups ((key, ops) ∷ groups) =
    let rest = check_groups groups in if not (linearizable (sort_ops ops)) then some key else rest

-- `checkLinearizable`: none if the history is linearizable, or the key that is not.
unfoldable pub check_linearizable : List ClientOp → Option Bytes
check_linearizable history = check_groups (by_key history [])
