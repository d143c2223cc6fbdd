-- ===== src/Client/Pending.antt =====
-- The `PendingTable` of src/client/client_service.h: a fixed table of slots keyed by log index.
pub mod Slots
use raft_rsm.Prelude.{
  ℕ, zero, suc, ◌+◌, ◌%◌, ◌^◌, Bool, true, false, not, ◌||◌, Option, none, some, List, [], ◌∷◌,
  ◌==◌, if◌then◌else◌, length, get_elem?,
}
use raft_rsm.Rpc.Types.{LogIndex, NodeId}

pub record Pending : Type 0 where
  pub reply_to : NodeId
  pub client_id : ℕ
  pub seq_no : ℕ

pub record Slot : Type 0 where
  pub index : LogIndex
  pub p : Pending
  pub used : Bool

abbrev pub PendingTable : Type 0
PendingTable = List Slot

abbrev pub no_slot : Slot
no_slot = record { index = 0; p = record { reply_to = 0; client_id = 0; seq_no = 0 }; used = false }

-- n slots that are not used.
unfoldable pub no_slots : ℕ → PendingTable
no_slots zero = []
no_slots (suc n) = no_slot ∷ no_slots n

-- A table of `std::bit_ceil(cap)` slots, which is 2 ^ k for the least k that is enough.
abbrev pub pending_table : ℕ → PendingTable
pending_table k = no_slots (2 ^ k)

-- `index & (slots_.size() - 1)`: the size is a power of two, so the mask takes the remainder.
abbrev pub slot_of : PendingTable → LogIndex → ℕ
slot_of t index = index % length t

-- A write to a slot.
unfoldable pub set_slot : PendingTable → ℕ → Slot → PendingTable
set_slot [] i s = []
set_slot (x ∷ t) zero s = s ∷ t
set_slot (x ∷ t) (suc i) s = x ∷ set_slot t i s

unfoldable pub put : LogIndex → Pending → PendingTable → PendingTable
put index p t = set_slot t (slot_of t index) (record { index = index; p = p; used = true })

-- The pending request of a slot, if the slot is used for the index.
unfoldable pub held : LogIndex → Option Slot → Option Pending
held index none = none
held index (some s) = if not s.used || not (s.index == index) then none else some s.p

abbrev release : PendingTable → ℕ → Option Slot → PendingTable
release t i none = t
release t i (some s) = set_slot t i (record s { used = false })

-- `take`: the request waiting at the index, whose slot is then free.
unfoldable pub take : LogIndex → PendingTable → Option Pending × PendingTable
take index t =
    let slot = get_elem? t (slot_of t index) in
    elim (held index slot) [
      | none ↦ (none, t)
      | some p ↦ (some p, release t (slot_of t index) slot)
    ]

-- `size`.
unfoldable pub size : PendingTable → ℕ
size [] = 0
size (s ∷ t) = size t + (if s.used then 1 else 0)
