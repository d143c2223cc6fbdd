-- ===== src/Raft/Frame.antt =====
-- The fields that sending, committing and applying leave alone (src/raft/raft_core.cpp).
use raft_rsm.Prelude.{
  ℕ, zero, suc, ◌+◌, ◌≡◌, Bool, false, Option, none, some, List, [], ◌∷◌, arith, min, Option-cases,
  inl, inr,
}
use raft_rsm.Rpc.Types.{LogEntry, LogIndex, NodeId, AppendEntries, AppendEntriesReply}
use raft_rsm.Storage.Log.{entry_at, last_index}
use raft_rsm.Raft.State.{Host, Core, majority}
use raft_rsm.Raft.Apply.{apply_inline, offer, apply_entry, apply_next, apply_loop, apply_committed}
use raft_rsm.Raft.Leader.{
  send_append_entries, send_all, send_heartbeats, advance_commit, replicate, commit_target,
  take_ack, record_ack, catch_up, back_off, on_append_entries_reply,
}
use raft_rsm.Raft.Follower.{reply, reply_conflict, follow_commit, confirmed_through}

-- The second state differs from the first at most in the indices, the state machine, the heartbeat
-- deadline and the output.
pub record Same {S : Type 0} (c c' : Core S) : Type 0 where
  pub self : c'.self ≡ c.self
  pub peers : c'.peers ≡ c.peers
  pub cfg : c'.cfg ≡ c.cfg
  pub current_term : c'.current_term ≡ c.current_term
  pub voted_for : c'.voted_for ≡ c.voted_for
  pub log : c'.log ≡ c.log
  pub now : c'.now ≡ c.now
  pub drawn : c'.drawn ≡ c.drawn
  pub role : c'.role ≡ c.role
  pub leader_id : c'.leader_id ≡ c.leader_id
  pub votes_from : c'.votes_from ≡ c.votes_from
  pub election_deadline : c'.election_deadline ≡ c.election_deadline

module _ {S : Type 0} where
  pub Same-refl : (c : Core S) → Same c c
  Same-refl c = ground arith

  pub Same-trans : (a b c : Core S) → Same a b → Same b c → Same a c
  Same-trans a b c p q = ground arith

  pub send_append_entries-Same : (c : Core S) (peer : NodeId) → Same c (send_append_entries c peer)
  unfolding send_append_entries
  send_append_entries-Same c peer = ground arith

  pub send_all-Same : (c : Core S) (ps : List NodeId) → Same c (send_all c ps)
  unfolding send_all
  send_all-Same c [] = Same-refl c
  send_all-Same c (p ∷ ps) =
      Same-trans c (send_append_entries c p) _ (send_append_entries-Same c p)
        (send_all-Same (send_append_entries c p) ps)

  pub send_heartbeats-Same : (c : Core S) → Same c (send_heartbeats c)
  unfolding send_heartbeats
  send_heartbeats-Same c = ground (arith, send_all-Same c c.peers)

  pub catch_up-Same : (c : Core S) (from : NodeId) → Same c (catch_up c from)
  unfolding catch_up
  catch_up-Same c from = ground (arith, send_append_entries-Same c from)

module _ {S : Type 0} (host : Host S) where
  pub apply_next-Same :
      (c : Core S) (n : LogIndex) (e : Option LogEntry) → Same c (apply_next host c n e).1
  unfolding apply_next apply_entry apply_inline offer
  apply_next-Same c n none = Same-refl c
  apply_next-Same c n (some e) = ground arith

  pub apply_loop-Same : (fuel : ℕ) (c : Core S) → Same c (apply_loop host fuel c)
  unfolding apply_loop
  apply_loop-Same zero c = Same-refl c
  apply_loop-Same (suc fuel) c =
      let one = apply_next host c (c.last_applied + 1) (entry_at c.log (c.last_applied + 1)) in
      ground (
        arith,
        apply_next-Same c (c.last_applied + 1) (entry_at c.log (c.last_applied + 1)),
        apply_loop-Same fuel one.1,
      )

  pub apply_committed-Same : (c : Core S) → Same c (apply_committed host c)
  unfolding apply_committed
  apply_committed-Same c = apply_loop-Same _ c

  pub advance_commit-Same : (c : Core S) → Same c (advance_commit host c)
  unfolding advance_commit
  advance_commit-Same c =
      elim (Option-cases (
        commit_target c.current_term c.commit_index c.log c.match_index (majority c)
          (last_index c.log))) [
            | inl e ↦ rw (e, advance_commit) (Same-refl c)
            | inr (n, e) ↦
                rw (e, advance_commit)
                  (ground (arith, apply_committed-Same (record c { commit_index = n })))
          ]

  pub replicate-Same : (c : Core S) → Same c (replicate host c)
  unfolding replicate
  replicate-Same c =
      Same-trans c (advance_commit host c) _ (advance_commit-Same c)
        (send_heartbeats-Same (advance_commit host c))

  pub take_ack-Same :
      (c : Core S) (from : NodeId) (ack : LogIndex) → Same c (take_ack host c from ack)
  unfolding take_ack record_ack
  take_ack-Same c from ack =
      Same-trans c (advance_commit host (record_ack c from ack)) _
        (ground (arith, advance_commit-Same (record_ack c from ack)))
        (catch_up-Same (advance_commit host (record_ack c from ack)) from)

  pub back_off-Same :
      (c : Core S) (from : NodeId) (r : AppendEntriesReply) → Same c (back_off host c from r)
  unfolding back_off send_append_entries
  back_off-Same c from r = ground arith

  pub on_append_entries_reply-Same :
      (c : Core S) (from : NodeId) (r : AppendEntriesReply)
      → Same c (on_append_entries_reply host c from r)
  unfolding on_append_entries_reply
  on_append_entries_reply-Same c from r =
      ground (arith, take_ack-Same c from r.conflict_index, back_off-Same c from r)

module _ {S : Type 0} where
  pub reply-Same : (c : Core S) (from : NodeId) (b : Bool) (i t : ℕ) → Same c (reply c from b i t)
  unfolding reply
  reply-Same c from b i t = ground arith

  pub reply_conflict-Same :
      (c : Core S) (from : NodeId) (t i : ℕ) → Same c (reply_conflict c from t i)
  unfolding reply_conflict
  reply_conflict-Same c from t i = reply-Same c from false _ t

pub follow_commit-Same :
    {S : Type 0} (host : Host S) (c : Core S) (ae : AppendEntries)
    → Same c (follow_commit host c ae)
unfolding follow_commit
follow_commit-Same host c ae = ground (
  arith,
  apply_committed-Same host
      (record c { commit_index = min ae.leader_commit (confirmed_through ae) }),
)
