-- ===== src/Raft/Rules.antt =====
-- Induction rules for the loops and the branching handlers of src/raft/raft_core.cpp: a property
-- that each of the parts keeps is kept by the whole.
use raft_rsm.Prelude.{
  ℕ, zero, suc, ◌+◌, inl, inr, Bool, true, false, not, ◌&&◌, ◌<◌, u64_mod, Option, none, some, ltb,
  ◌==◌, if◌then◌else◌, Option-cases,
}
use raft_rsm.Rpc.Types.{LogEntry, LogIndex, NodeId, Term, AppendEntriesReply}
use raft_rsm.Storage.Log.{entry_at, last_index}
use raft_rsm.Raft.State.{Host, Core, majority, get, touch, is_leader, is_due}
use raft_rsm.Raft.Apply.{apply_entry, apply_next, apply_loop, apply_committed}
use raft_rsm.Raft.Leader.{
  advance_commit, commit_target, take_ack, back_off, on_append_entries_reply,
}

-- A tick that starts an election finds a term that can be counted up.
abbrev pub FitsIf : Bool → Term → Type 0
FitsIf true t = t + 1 < u64_mod
FitsIf false t = Unit

abbrev pub CanStand : {S : Type 0} → Core S → Type 0
CanStand c = FitsIf (not (is_leader c.role) && is_due c.now c.election_deadline) c.current_term

pub if_cases {ℓ κ} :
    {A : Type ℓ} (P : A → Type κ) (b : Bool) {x y : A} → P x → P y → P (if b then x else y)
if_cases P true p q = p
if_cases P false p q = q

module _ {S : Type 0} (host : Host S) (P : Core S → Type 0)
    (entry : (c : Core S) (n : LogIndex) (e : LogEntry)
      → P c
      → P (apply_entry host host.sink c n e).1) where
  apply_next_inv :
      (c : Core S) (n : LogIndex) (e : Option LogEntry) → P c → P (apply_next host c n e).1
  unfolding apply_next
  apply_next_inv c n none h = h
  apply_next_inv c n (some e) h = entry c n e h

  apply_loop_inv : (fuel : ℕ) (c : Core S) → P c → P (apply_loop host fuel c)
  unfolding apply_loop
  apply_loop_inv zero c h = h
  apply_loop_inv (suc fuel) c h =
      let one = apply_next host c (c.last_applied + 1) (entry_at c.log (c.last_applied + 1)) in
      let h' : P one.1 = apply_next_inv c _ _ h in
      if_cases P (ltb c.last_applied c.commit_index)
        (if_cases P one.0 (apply_loop_inv fuel one.1 h') h') h

  pub apply_committed_inv : (c : Core S) → P c → P (apply_committed host c)
  unfolding apply_committed
  apply_committed_inv c h = apply_loop_inv _ c h

  pub advance_commit_inv :
      ((c : Core S) (n : LogIndex) → P c → P (record c { commit_index = n }))
      → (c : Core S) → P c
      → P (advance_commit host c)
  unfolding advance_commit
  advance_commit_inv commit c h =
      elim (Option-cases (
        commit_target c.current_term c.commit_index c.log c.match_index (majority c)
          (last_index c.log))) [
            | inl e ↦ rw (e, advance_commit) h
            | inr (n, e) ↦ rw (e, advance_commit) (apply_committed_inv _ (commit c n h))
          ]

module _ {S : Type 0} (host : Host S) (P : Core S → Type 0) where
  pub reply_cases :
      (c : Core S) (from : NodeId) (r : AppendEntriesReply)
      → P c
      → P (take_ack host c from r.conflict_index)
      → P (record c { match_index = touch c.match_index from })
      → P (back_off host c from r)
      → P (on_append_entries_reply host c from r)
  unfolding on_append_entries_reply
  reply_cases c from r h news old failed = if_cases P (not (is_leader c.role)) h (
      if_cases P (not (r.term == c.current_term)) h (
        if_cases P r.success
          (if_cases P (ltb (last_index c.log) r.conflict_index) h
            (if_cases P (ltb (get c.match_index from) r.conflict_index) news old))
          failed))
