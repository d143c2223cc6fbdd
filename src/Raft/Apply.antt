-- ===== src/Raft/Apply.antt =====
-- src/raft/raft_core.cpp: `applyCommitted`, which applies the entries in (lastApplied, commitIndex]
-- or hands them to the apply sink.
use raft_rsm.Prelude.{
  ℕ, zero, suc, ◌+◌, ◌-◌, Bool, true, false, Option, none, some, ltb, if◌then◌else◌,
}
use raft_rsm.Rpc.Types.{LogEntry, LogIndex}
use raft_rsm.Storage.Log.{entry_at}
use raft_rsm.Raft.State.{Host, Core, applied, handed_off, emit}

module _ {S : Type 0} (host : Host S) where
  -- One entry without a sink: the state machine applies it and the observer is called.
  unfoldable pub apply_inline : Core S → LogIndex → LogEntry → Core S
  apply_inline c next entry =
      let (result, sm') = host.apply c.sm entry.command in
      emit (record c { sm = sm'; last_applied = next }) (applied next entry result)

  -- One entry offered to a sink. A refusal leaves `lastApplied` and ends the loop.
  unfoldable pub offer :
      (ℕ → LogIndex → LogEntry → Bool) → Core S → LogIndex → LogEntry → Bool × Core S
  offer sink c next entry =
      let c' = record c { offers = suc c.offers } in
      if sink c.offers next entry
      then (true, emit (record c' { last_applied = next }) (handed_off next entry))
      else (false, c')

  unfoldable pub apply_entry :
      Option (ℕ → LogIndex → LogEntry → Bool) → Core S → LogIndex → LogEntry → Bool × Core S
  apply_entry none c next entry = (true, apply_inline c next entry)
  apply_entry (some sink) c next entry = offer sink c next entry

  -- The body of the loop, and whether the loop goes on. An index outside the log, undefined in the
  -- source, ends it.
  unfoldable pub apply_next : Core S → LogIndex → Option LogEntry → Bool × Core S
  apply_next c next none = (false, c)
  apply_next c next (some entry) = apply_entry host.sink c next entry

  -- The loop, with fuel.
  unfoldable pub apply_loop : ℕ → Core S → Core S
  apply_loop zero c = c
  apply_loop (suc fuel) c =
      let step = apply_next c (c.last_applied + 1) (entry_at c.log (c.last_applied + 1)) in
      let rest = apply_loop fuel step.1 in
      if ltb c.last_applied c.commit_index then (if step.0 then rest else step.1) else c

  unfoldable pub apply_committed : Core S → Core S
  apply_committed c = apply_loop (c.commit_index - c.last_applied) c
