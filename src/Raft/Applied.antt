-- ===== src/Raft/Applied.antt =====
-- The order in which src/raft/raft_core.cpp applies entries, over any calls.
pub mod Quiet
pub mod Calls
use raft_rsm.Prelude.{
  ℕ, zero, suc, ◌+◌, ◌≡◌, ap, inl, inr, Bool, not, ◌&&◌, ◌||◌, Option, none, some, List, [], ◌∷◌,
  arith, refl, ◌∙◌, ◌≤◌, ◌<◌, max, ltb→lt, Bool-cases, ltb, leb, ◌==◌, drop, length, min,
  if◌then◌else◌, Option-cases,
}
use raft_rsm.Rpc.Types.{
  Bytes, NodeId, Term, Message, request_vote, request_vote_reply, append_entries, LogEntry,
  append_entries_reply, client_request, client_reply, RequestVote, RequestVoteReply, AppendEntries,
  AppendEntriesReply, LogIndex,
}
use raft_rsm.Storage.Log.{last_index, last_term, term_at, entry_at}
use raft_rsm.Raft.State.{
  Host, Core, Event, Output, send, applied, handed_off, leader_discovered, higher_term_seen,
  persist_term_and_vote, append_log, insert, is_leader, is_candidate, is_due, majority,
}
use raft_rsm.Raft.Apply.{apply_inline, offer, apply_entry, apply_next, apply_loop, apply_committed}
use raft_rsm.Raft.Roles.{reset_election_timer, start, adopt_term, retire, become_follower}
use raft_rsm.Raft.Leader.{
  take_lead, become_leader, propose, propose_batch, stamp, is_empty, send_append_entries, send_all,
  send_heartbeats, catch_up, advance_commit, replicate, take_ack, back_off, record_ack,
  commit_target, on_append_entries_reply,
}
use raft_rsm.Raft.Election.{
  ask_all, stand, count_votes, start_election, tick, grants, on_request_vote, on_request_vote_reply,
}
use raft_rsm.Raft.Follower.{
  truncate_log, append_new, merge_entries, recognise, check_and_merge, on_append_entries,
  follow_commit, walk, reply, reply_conflict, confirmed_through,
}
use raft_rsm.Raft.Handle.{
  Call, starts, ticks, pumps, receives, proposes, proposes_batch, waits, lift_term, dispatch,
  handle, step, run, term_of,
}
use raft_rsm.Raft.Rules.{if_cases}
use raft_rsm.Raft.Disk.{Disk, recover}

-- The indices of the entries that were applied or handed off, the latest first.
abbrev pub done : List Output → List LogIndex
done [] = []
done (applied i e result ∷ out) = i ∷ done out
done (handed_off i e ∷ out) = i ∷ done out
done (_ ∷ out) = done out

abbrev pub countdown : ℕ → List LogIndex
countdown zero = []
countdown (suc n) = suc n ∷ countdown n

next_done : (n : ℕ) (is : List LogIndex) → is ≡ countdown n → (n + 1) ∷ is ≡ countdown (n + 1)
next_done n is h = let e : n + 1 ≡ suc n = omega arith in rw e (ap (◌∷◌ (suc n)) h)

module _ {S : Type 0} (host : Host S) (s0 : S) where
  -- What the applied entries, in their order, make of the first state.
  abbrev pub applied_state : List Output → S
  applied_state [] = s0
  applied_state (applied i e result ∷ out) = (host.apply (applied_state out) e.command).1
  applied_state (_ ∷ out) = applied_state out

  module _ (d : Disk) where
    -- The log as the appends and truncations before an output left it.
    abbrev pub log_before : List Output → List LogEntry
    log_before out = (recover d out).log

    -- An entry that went out is the one that the log had at its index, and its result is the state
    -- machine's.
    abbrev pub Logged : List Output → Type 0
    Logged [] = Unit
    Logged (applied i e result ∷ out) =
        (entry_at (log_before out) i ≡ some e)
        × (result ≡ (host.apply (applied_state out) e.command).0)
        × Logged out
    Logged (handed_off i e ∷ out) = (entry_at (log_before out) i ≡ some e) × Logged out
    Logged (_ ∷ out) = Logged out

    -- The entries up to the last applied index went out one by one, each once and as the log had it,
    -- and the state machine is what those that were applied in place make of it. The indices of the
    -- state satisfy Q.
    abbrev pub AppliedWith : (LogIndex → LogIndex → Type 0) → Core S → Type 0
    AppliedWith Q c =
        (done c.out ≡ countdown c.last_applied)
        × (c.sm ≡ applied_state c.out)
        × Logged c.out
        × (log_before c.out ≡ c.log)
        × Q c.last_applied c.commit_index

    abbrev pub InOrder : Core S → Type 0
    InOrder = AppliedWith (λ la ci. Unit)

-- The call has applied nothing past b yet.
abbrev pub Quiet : LogIndex → LogIndex → LogIndex → Type 0
Quiet b la ci = la ≤ b

-- The call has applied nothing past b and the commit index.
abbrev pub Bounded : LogIndex → LogIndex → LogIndex → Type 0
Bounded b la ci = la ≤ max b ci

module _ {S : Type 0} (host : Host S) (s0 : S) (d : Disk) (b : LogIndex) where
  pub Quiet-Bounded :
      (c : Core S) → AppliedWith host s0 d (Quiet b) c → AppliedWith host s0 d (Bounded b) c
  Quiet-Bounded c (order, state, logged, log, quiet) = (order, state, logged, log, omega arith)

  apply_inline-Bounded :
      (c : Core S) (e : LogEntry)
      → c.last_applied < c.commit_index
      → entry_at c.log (c.last_applied + 1) ≡ some e
      → AppliedWith host s0 d (Bounded b) c
      → AppliedWith host s0 d (Bounded b) (apply_inline host c (c.last_applied + 1) e)
  unfolding apply_inline
  apply_inline-Bounded c e lt at (order, state, logged, log, bound) = (
    next_done c.last_applied (done c.out) order,
    ap (λ s. (host.apply s e.command).1) state,
    (
      ap (λ l. entry_at l (c.last_applied + 1)) log ∙ at,
      ap (λ s. (host.apply s e.command).0) state,
      logged,
    ),
    log,
    omega arith,
  )

  apply_entry-Bounded :
      (sink : Option (ℕ → LogIndex → LogEntry → Bool)) (c : Core S) (e : LogEntry)
      → c.last_applied < c.commit_index
      → entry_at c.log (c.last_applied + 1) ≡ some e
      → AppliedWith host s0 d (Bounded b) c
      → AppliedWith host s0 d (Bounded b) (apply_entry host sink c (c.last_applied + 1) e).1
  unfolding apply_entry offer
  apply_entry-Bounded none c e lt at h = apply_inline-Bounded c e lt at h
  apply_entry-Bounded (some sink) c e lt at h =
      if_cases (λ (p : Bool × Core S). AppliedWith host s0 d (Bounded b) p.1)
        (sink c.offers (c.last_applied + 1) e)
        (
          next_done c.last_applied (done c.out) h.0,
          h.1,
          (ap (λ l. entry_at l (c.last_applied + 1)) h.3 ∙ at, h.2),
          h.3,
          omega arith,
        )
        h

  apply_next-Bounded :
      (c : Core S) (e : Option LogEntry)
      → c.last_applied < c.commit_index
      → entry_at c.log (c.last_applied + 1) ≡ e
      → AppliedWith host s0 d (Bounded b) c
      → AppliedWith host s0 d (Bounded b) (apply_next host c (c.last_applied + 1) e).1
  unfolding apply_next
  apply_next-Bounded c none lt at h = h
  apply_next-Bounded c (some e) lt at h = apply_entry-Bounded host.sink c e lt at h

  apply_loop-Bounded :
      (fuel : ℕ) (c : Core S)
      → AppliedWith host s0 d (Bounded b) c
      → AppliedWith host s0 d (Bounded b) (apply_loop host fuel c)
  unfolding apply_loop
  apply_loop-Bounded zero c h = h
  apply_loop-Bounded (suc fuel) c h = elim (Bool-cases (ltb c.last_applied c.commit_index)) [
    | inl lt ↦
        let e = entry_at c.log (c.last_applied + 1) in
        let one = apply_next host c (c.last_applied + 1) e in
        let h' = apply_next-Bounded c e (ltb→lt _ _ lt) refl h in
        rw lt
          (if_cases (AppliedWith host s0 d (Bounded b)) one.0 (apply_loop-Bounded fuel one.1 h') h')
    | inr ge ↦ rw ge h
  ]

  pub apply_committed-Bounded :
      (c : Core S)
      → AppliedWith host s0 d (Bounded b) c
      → AppliedWith host s0 d (Bounded b) (apply_committed host c)
  unfolding apply_committed
  apply_committed-Bounded c h = apply_loop-Bounded _ c h

  -- The commit index moves, wherever to, and the entries up to it go out.
  pub commits-Bounded :
      (c : Core S) (n : LogIndex)
      → AppliedWith host s0 d (Quiet b) c
      → AppliedWith host s0 d (Bounded b) (apply_committed host (record c { commit_index = n }))
  commits-Bounded c n (order, state, logged, log, quiet) =
      apply_committed-Bounded (record c { commit_index = n })
        (order, state, logged, log, omega arith)

  pub advance_commit-Bounded :
      (c : Core S)
      → AppliedWith host s0 d (Quiet b) c
      → AppliedWith host s0 d (Bounded b) (advance_commit host c)
  unfolding advance_commit
  advance_commit-Bounded c h =
      elim (Option-cases (
        commit_target c.current_term c.commit_index c.log c.match_index (majority c)
          (last_index c.log))) [
            | inl e ↦ rw (e, advance_commit) (Quiet-Bounded c h)
            | inr (n, e) ↦ rw (e, advance_commit) (commits-Bounded c n h)
          ]
