-- ===== src/Client/Pending/Slots.antt =====
-- Which requests the table of src/client/client_service.h holds after its operations.
use raft_rsm.Prelude.{
  ℕ, zero, suc, ◌%◌, ◌≤◌, ◌<◌, ◌≡◌, ◌≢◌, refl, ap, sym, ◌∙◌, true, false, Option, none, some, [],
  ◌∷◌, arith, ◌==◌, if◌then◌else◌, length, get_elem?, get_elem?-some, Option-cases, inl, inr,
}
use mathlib.Core.Option.{none-ne-some}
use raft_rsm.Rpc.Types.{LogIndex}
use raft_rsm.Client.Pending.{
  Pending, Slot, PendingTable, slot_of, set_slot, put, held, take, release,
}

pub length-set_slot : (t : PendingTable) (i : ℕ) (s : Slot) → length (set_slot t i s) ≡ length t
unfolding set_slot
length-set_slot [] i s = refl
length-set_slot (x ∷ t) zero s = refl
length-set_slot (x ∷ t) (suc i) s = ap suc (length-set_slot t i s)

pub get_elem?-set_slot :
    (t : PendingTable) (i j : ℕ) (s : Slot)
    → i < length t
    → get_elem? (set_slot t i s) j ≡ (if i == j then some s else get_elem? t j)
unfolding set_slot
get_elem?-set_slot [] i j s h = absurd (omega arith)
get_elem?-set_slot (x ∷ t) zero zero s h = refl
get_elem?-set_slot (x ∷ t) zero (suc j) s h = ground arith
get_elem?-set_slot (x ∷ t) (suc i) zero s h = ground arith
get_elem?-set_slot (x ∷ t) (suc i) (suc j) s h =
    get_elem?-set_slot t i j s (omega arith) ∙ ground arith

-- The request that waits at the index.
abbrev pub waiting : PendingTable → LogIndex → Option Pending
waiting t index = (take index t).0

pub waiting-held :
    (t : PendingTable) (index : LogIndex)
    → waiting t index ≡ held index (get_elem? t (slot_of t index))
unfolding take
waiting-held t index = ground arith

mod-lt : (a b : ℕ) → 1 ≤ b → a % b < b
mod-lt a b h = omega arith

-- A put registers the request at its index, evicts what shares its slot, and leaves the rest.
pub waiting-put :
    (t : PendingTable) (i j : LogIndex) (p : Pending)
    → 1 ≤ length t
    → waiting (put i p t) j
      ≡ (if i == j then some p else if slot_of t i == slot_of t j then none else waiting t j)
unfolding put held
waiting-put t i j p h =
    let s : Slot = record { index = i; p = p; used = true } in
    rw
      (
        waiting-held (set_slot t (slot_of t i) s) j,
        length-set_slot t (slot_of t i) s,
        get_elem?-set_slot t (slot_of t i) (slot_of t j) s (mod-lt i (length t) h),
        waiting-held t j,
      )
      (ground arith)

length-release : (t : PendingTable) (i : ℕ) (s : Option Slot) → length (release t i s) ≡ length t
length-release t i none = refl
length-release t i (some s) = length-set_slot t i _

pub length-take : (t : PendingTable) (i : LogIndex) → length (take i t).1 ≡ length t
unfolding take
length-take t i = ground (arith, length-release t (slot_of t i) (get_elem? t (slot_of t i)))

-- The table after an index is taken, where a request waited and where none did.
take-none :
    (t : PendingTable) (i : LogIndex) → held i (get_elem? t (slot_of t i)) ≡ none → (take i t).1 ≡ t
unfolding take
take-none t i e = rw (take, e) refl

take-some :
    (t : PendingTable) (i : LogIndex) {s : Slot} {p : Pending}
    → get_elem? t (slot_of t i) ≡ some s
    → held i (some s) ≡ some p
    → (take i t).1 ≡ set_slot t (slot_of t i) (record s { used = false })
unfolding take
take-some t i {s} e k = rw (take, e, k) (ap (release t (slot_of t i)) e)

held-index : (i : LogIndex) (s : Slot) {p : Pending} → held i (some s) ≡ some p → s.index ≡ i
unfolding held
held-index i s k = ground arith

held_other : (i j : LogIndex) (s : Slot) → s.index ≡ i → i ≢ j → held j (some s) ≡ none
unfolding held
held_other i j s e k = ground arith

-- A request is taken once, and taking it leaves the others.
pub waiting-take :
    (t : PendingTable) (i j : LogIndex)
    → 1 ≤ length t
    → waiting (take i t).1 j ≡ (if i == j then none else waiting t j)
unfolding held
waiting-take t i j h =
    let (s, e) = get_elem?-some (slot_of t i) t (mod-lt i (length t) h) in
    elim (Option-cases (held i (some s))) [
      | inl k ↦
          let gone : held i (get_elem? t (slot_of t i)) ≡ none = ap (held i) e ∙ k in
          rw (take-none t i gone) (ground (arith, waiting-held t i))
      | inr (p, k) ↦
          let freed : Slot = record s { used = false } in
          let at_i : s.index ≡ i = held-index i s k in
          rw
            (
              take-some t i e k,
              waiting-held (set_slot t (slot_of t i) freed) j,
              length-set_slot t (slot_of t i) freed,
              get_elem?-set_slot t (slot_of t i) (slot_of t j) freed (mod-lt i (length t) h),
              waiting-held t j,
            )
            (ground (arith, held_other i j s at_i))
    ]

pub length-put : (t : PendingTable) (i : LogIndex) (p : Pending) → length (put i p t) ≡ length t
unfolding put
length-put t i p = length-set_slot t (slot_of t i) _

pub waiting-room :
    (t : PendingTable) (i : LogIndex) {p : Pending} → waiting t i ≡ some p → 1 ≤ length t
unfolding held
waiting-room [] i w = absurd (none-ne-some _ (sym (waiting-held [] i) ∙ w))
waiting-room (x ∷ t) i w = omega arith
