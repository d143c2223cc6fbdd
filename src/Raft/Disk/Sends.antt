-- ===== src/Raft/Disk/Sends.antt =====
-- The disk and the promises under sending, committing and applying (src/raft/raft_core.cpp).
use raft_rsm.Prelude.{
  ℕ, sym, ap, inl, inr, Bool, Option, none, some, List, [], ◌∷◌, leb, length, Bool-cases, sub64,
}
use raft_rsm.Rpc.Types.{LogEntry, LogIndex, NodeId, AppendEntriesReply}
use raft_rsm.Storage.Log.{term_at, entries_from, last_index}
use raft_rsm.Raft.State.{Host, Core, majority, get, put, touch}
use raft_rsm.Raft.Apply.{apply_inline, offer, apply_entry, apply_committed}
use raft_rsm.Raft.Leader.{
  append_entries_for, send_append_entries, send_all, send_heartbeats, take_lead, become_leader,
  advance_commit, replicate, record_ack, catch_up, take_ack, back_off, lowered_next,
  on_append_entries_reply,
}
use raft_rsm.Raft.Election.{count_votes}
use raft_rsm.Raft.Rules.{advance_commit_inv, apply_committed_inv, reply_cases}
use raft_rsm.Raft.Disk.{Disk, Durable}

module _ (d : Disk) {S : Type 0} where
  send_append_entries-Durable :
      (c : Core S) (peer : NodeId) → Durable d c → Durable d (send_append_entries c peer)
  unfolding send_append_entries append_entries_for
  send_append_entries-Durable c peer h =
      let next = get c.next_index peer in
      (
        h.0,
        (
          (
            ap (λ (k : Disk). k.term) h.0,
            sym (ap (λ (k : Disk). term_at k.log (sub64 next 1)) h.0),
            (next, sym (ap (λ (k : Disk). entries_from k.log next) h.0)),
          ),
          h.1,
        ),
      )

  send_all-Durable : (c : Core S) (ps : List NodeId) → Durable d c → Durable d (send_all c ps)
  unfolding send_all
  send_all-Durable c [] h = h
  send_all-Durable c (p ∷ ps) h =
      send_all-Durable (send_append_entries c p) ps (send_append_entries-Durable c p h)

  pub send_heartbeats-Durable : (c : Core S) → Durable d c → Durable d (send_heartbeats c)
  unfolding send_heartbeats
  send_heartbeats-Durable c h = send_all-Durable c c.peers h

  become_leader-Durable : (c : Core S) → Durable d c → Durable d (become_leader c)
  unfolding become_leader take_lead
  become_leader-Durable c h = send_heartbeats-Durable (take_lead c) (h.0, (tt, h.1))

  pub count_votes-Durable : (c : Core S) → Durable d c → Durable d (count_votes c)
  unfolding count_votes
  count_votes-Durable c h = elim (Bool-cases (leb (majority c) (length c.votes_from))) [
    | inl e ↦ rw (e, count_votes) (become_leader-Durable c h)
    | inr e ↦ rw (e, count_votes) h
  ]

  catch_up-Durable : (c : Core S) (from : NodeId) → Durable d c → Durable d (catch_up c from)
  unfolding catch_up
  catch_up-Durable c from h = elim (Bool-cases (leb (get c.next_index from) (last_index c.log))) [
    | inl e ↦ rw (e, catch_up) (send_append_entries-Durable c from h)
    | inr e ↦ rw (e, catch_up) h
  ]

module _ (d : Disk) {S : Type 0} (host : Host S) where
  apply_entry-Durable :
      (sink : Option (ℕ → LogIndex → LogEntry → Bool)) (c : Core S) (n : LogIndex) (e : LogEntry)
      → Durable d c
      → Durable d (apply_entry host sink c n e).1
  unfolding apply_entry apply_inline offer
  apply_entry-Durable none c n e h = (h.0, (tt, h.1))
  apply_entry-Durable (some sink) c n e h = elim (Bool-cases (sink c.offers n e)) [
    | inl t ↦ rw (t, offer) (h.0, (tt, h.1))
    | inr t ↦ rw (t, offer) h
  ]

  pub advance_commit-Durable : (c : Core S) → Durable d c → Durable d (advance_commit host c)
  advance_commit-Durable =
      advance_commit_inv host (λ c. Durable d c) (apply_entry-Durable host.sink) (λ c n h. h)

  pub apply_committed-Durable : (c : Core S) → Durable d c → Durable d (apply_committed host c)
  apply_committed-Durable =
      apply_committed_inv host (λ c. Durable d c) (apply_entry-Durable host.sink)

  pub replicate-Durable : (c : Core S) → Durable d c → Durable d (replicate host c)
  unfolding replicate
  replicate-Durable c h =
      send_heartbeats-Durable d (advance_commit host c) (advance_commit-Durable c h)

  take_ack-Durable :
      (c : Core S) (from : NodeId) (ack : LogIndex)
      → Durable d c
      → Durable d (take_ack host c from ack)
  unfolding take_ack record_ack
  take_ack-Durable c from ack h =
      catch_up-Durable d (advance_commit host (record_ack c from ack)) from
        (advance_commit-Durable (record_ack c from ack) h)

  back_off-Durable :
      (c : Core S) (from : NodeId) (r : AppendEntriesReply)
      → Durable d c
      → Durable d (back_off host c from r)
  unfolding back_off
  back_off-Durable c from r h =
      send_append_entries-Durable d
        (record c {
          next_index = put c.next_index from (lowered_next host c from r);
          match_index = touch c.match_index from;
        })
        from h

  pub on_append_entries_reply-Durable :
      (c : Core S) (from : NodeId) (r : AppendEntriesReply)
      → Durable d c
      → Durable d (on_append_entries_reply host c from r)
  unfolding on_append_entries_reply
  on_append_entries_reply-Durable c from r h =
      reply_cases host (λ c'. Durable d c') c from r h (take_ack-Durable c from r.conflict_index h)
        h (back_off-Durable c from r h)
