-- ===== src/Raft/Elections/Sends.antt =====
-- Sending, committing and applying leave candidacies and elections alone (src/raft/raft_core.cpp).
use raft_rsm.Prelude.{ℕ, inl, inr, Bool, Option, none, some, List, [], ◌∷◌, leb, Bool-cases, drop}
use raft_rsm.Rpc.Types.{
  LogEntry, LogIndex, NodeId, AppendEntries, AppendEntriesReply, append_entries,
}
use raft_rsm.Storage.Log.{last_index}
use raft_rsm.Raft.State.{
  Host, Core, get, put, touch, send, applied, handed_off, log_append, log_truncate, append_log,
}
use raft_rsm.Raft.Apply.{apply_inline, offer, apply_entry, apply_committed}
use raft_rsm.Raft.Leader.{
  append_entries_for, send_append_entries, send_all, send_heartbeats, advance_commit, replicate,
  record_ack, catch_up, take_ack, back_off, lowered_next, on_append_entries_reply,
}
use raft_rsm.Raft.Follower.{walk, truncate_log, append_new, merge_entries, reply, reply_conflict}
use raft_rsm.Raft.Rules.{advance_commit_inv, apply_committed_inv, reply_cases}
use raft_rsm.Raft.Elections.{View, Elected, emit-Elected}

module _ (view : View) {S : Type 0} where
  send_append_entries-Elected :
      (c : Core S) (peer : NodeId) → Elected view c → Elected view (send_append_entries c peer)
  unfolding send_append_entries
  send_append_entries-Elected c peer =
      emit-Elected view c (send peer (append_entries (append_entries_for c peer))) tt tt

  send_all-Elected : (c : Core S) (ps : List NodeId) → Elected view c → Elected view (send_all c ps)
  unfolding send_all
  send_all-Elected c [] h = h
  send_all-Elected c (p ∷ ps) h =
      send_all-Elected (send_append_entries c p) ps (send_append_entries-Elected c p h)

  pub send_heartbeats-Elected : (c : Core S) → Elected view c → Elected view (send_heartbeats c)
  unfolding send_heartbeats
  send_heartbeats-Elected c h = send_all-Elected c c.peers h

  catch_up-Elected : (c : Core S) (from : NodeId) → Elected view c → Elected view (catch_up c from)
  unfolding catch_up
  catch_up-Elected c from h = elim (Bool-cases (leb (get c.next_index from) (last_index c.log))) [
    | inl e ↦ rw (e, catch_up) (send_append_entries-Elected c from h)
    | inr e ↦ rw (e, catch_up) h
  ]

  pub append_log-Elected :
      (c : Core S) (es : List LogEntry) → Elected view c → Elected view (append_log c es)
  unfolding append_log
  append_log-Elected c es = emit-Elected view c (log_append es) tt tt

  truncate_log-Elected :
      (c : Core S) (i : Option LogIndex) → Elected view c → Elected view (truncate_log c i)
  unfolding truncate_log
  truncate_log-Elected c none h = h
  truncate_log-Elected c (some i) h = emit-Elected view c (log_truncate i) tt tt h

  append_new-Elected :
      (c : Core S) (es : List LogEntry) → Elected view c → Elected view (append_new c es)
  unfolding append_new
  append_new-Elected c [] h = h
  append_new-Elected c (e ∷ es) h = append_log-Elected c (e ∷ es) h

  pub merge_entries-Elected :
      (c : Core S) (ae : AppendEntries) → Elected view c → Elected view (merge_entries c ae)
  unfolding merge_entries
  merge_entries-Elected c ae h =
      let w = walk c.log ae.prev_log_index 0 ae.entries in
      append_new-Elected (truncate_log c w.truncate_at) (drop w.skipped ae.entries)
        (truncate_log-Elected c w.truncate_at h)

  pub reply-Elected :
      (c : Core S) (from : NodeId) (b : Bool) (i t : ℕ)
      → Elected view c
      → Elected view (reply c from b i t)
  unfolding reply
  reply-Elected c from b i t = emit-Elected view c _ tt tt

  pub reply_conflict-Elected :
      (c : Core S) (from : NodeId) (t i : ℕ)
      → Elected view c
      → Elected view (reply_conflict c from t i)
  unfolding reply_conflict
  reply_conflict-Elected c from t i = reply-Elected c from _ _ t

module _ (view : View) {S : Type 0} (host : Host S) where
  apply_entry-Elected :
      (sink : Option (ℕ → LogIndex → LogEntry → Bool)) (c : Core S) (n : LogIndex) (e : LogEntry)
      → Elected view c
      → Elected view (apply_entry host sink c n e).1
  unfolding apply_entry apply_inline offer
  apply_entry-Elected none c n e h = emit-Elected view c (applied n e _) tt tt h
  apply_entry-Elected (some sink) c n e h = elim (Bool-cases (sink c.offers n e)) [
    | inl t ↦ rw (t, offer) (emit-Elected view c (handed_off n e) tt tt h)
    | inr t ↦ rw (t, offer) h
  ]

  pub advance_commit-Elected : (c : Core S) → Elected view c → Elected view (advance_commit host c)
  advance_commit-Elected =
      advance_commit_inv host (λ c. Elected view c) (apply_entry-Elected host.sink) (λ c n h. h)

  pub apply_committed-Elected :
      (c : Core S) → Elected view c → Elected view (apply_committed host c)
  apply_committed-Elected =
      apply_committed_inv host (λ c. Elected view c) (apply_entry-Elected host.sink)

  pub replicate-Elected : (c : Core S) → Elected view c → Elected view (replicate host c)
  unfolding replicate
  replicate-Elected c h =
      send_heartbeats-Elected view (advance_commit host c) (advance_commit-Elected c h)

  take_ack-Elected :
      (c : Core S) (from : NodeId) (ack : LogIndex)
      → Elected view c
      → Elected view (take_ack host c from ack)
  unfolding take_ack record_ack
  take_ack-Elected c from ack h =
      catch_up-Elected view (advance_commit host (record_ack c from ack)) from
        (advance_commit-Elected (record_ack c from ack) h)

  back_off-Elected :
      (c : Core S) (from : NodeId) (r : AppendEntriesReply)
      → Elected view c
      → Elected view (back_off host c from r)
  unfolding back_off
  back_off-Elected c from r h =
      send_append_entries-Elected view
        (record c {
          next_index = put c.next_index from (lowered_next host c from r);
          match_index = touch c.match_index from;
        })
        from h

  pub on_append_entries_reply-Elected :
      (c : Core S) (from : NodeId) (r : AppendEntriesReply)
      → Elected view c
      → Elected view (on_append_entries_reply host c from r)
  unfolding on_append_entries_reply
  on_append_entries_reply-Elected c from r h =
      reply_cases host (λ c'. Elected view c') c from r h
        (take_ack-Elected c from r.conflict_index h) h (back_off-Elected c from r h)
