-- ===== src/Raft/Disk/Steps.antt =====
-- The disk and the promises of a node under each call (src/raft/raft_core.cpp).
use raft_rsm.Prelude.{
  ◌+◌, ◌<◌, ◌≡◌, refl, sym, ap, subst, ◌⊎◌, inl, inr, Bool, true, false, not, ◌&&◌, ◌||◌, Option,
  none, some, List, [], ◌∷◌, min, ltb, ◌==◌, if◌then◌else◌, arith, drop, Bool-cases, add64, u64_mod,
  ltb→lt,
}
use raft_rsm.Rpc.Types.{
  LogEntry, LogIndex, NodeId, Term, Message, request_vote, request_vote_reply, RequestVote,
  RequestVoteReply, AppendEntries,
}
use raft_rsm.Storage.Log.{last_index, last_term}
use raft_rsm.Storage.Log.Terms.{last_term_eq}
use raft_rsm.Raft.State.{
  Host, Core, Event, log_append, log_truncate, leader_discovered, save, send, emit,
  persist_term_and_vote, append_log, insert, is_leader, is_candidate, never, is_due,
}
use raft_rsm.Raft.Apply.{apply_committed}
use raft_rsm.Raft.Roles.{reset_election_timer, adopt_term, retire, become_follower}
use raft_rsm.Raft.Leader.{send_heartbeats}
use raft_rsm.Raft.Election.{
  ask_all, stand, count_votes, start_election, tick, grants, on_request_vote, on_request_vote_reply,
}
use raft_rsm.Raft.Follower.{
  walk, truncate_log, append_new, merge_entries, recognise, follow_commit, confirmed_through,
}
use raft_rsm.Raft.Rules.{FitsIf, CanStand}
use raft_rsm.Raft.Disk.{Disk, write, disk, Raises, Promise, Durable}
use raft_rsm.Raft.Disk.Sends.{send_heartbeats-Durable, count_votes-Durable, apply_committed-Durable}

module _ (d : Disk) {S : Type 0} where
  pub send-Durable :
      (c : Core S) (to : NodeId) (m : Message)
      → Durable d c
      → Promise (disk c) m
      → Durable d (emit c (send to m))
  send-Durable c to m h p = (h.0, (subst (λ (k : Disk). Promise k m) (sym h.0) p, h.1))

  pub if-Durable :
      (b : Bool) (x y : Core S) → Durable d x → Durable d y → Durable d (if b then x else y)
  if-Durable true x y p q = p
  if-Durable false x y p q = q

  persist-Durable :
      (c : Core S) (t : Term) (v : Option NodeId)
      → Raises (disk c) t v
      → Durable d c
      → Durable d (persist_term_and_vote c t v)
  unfolding persist_term_and_vote
  persist-Durable c t v r h = (
    ap (λ (k : Disk). write k (save t v)) h.0,
    (subst (λ (k : Disk). Raises k t v) (sym h.0) r, h.1),
  )

  pub append_log-Durable :
      (c : Core S) (es : List LogEntry) → Durable d c → Durable d (append_log c es)
  unfolding append_log
  append_log-Durable c es h = (ap (λ (k : Disk). write k (log_append es)) h.0, (tt, h.1))

  truncate_log-Durable :
      (c : Core S) (i : Option LogIndex) → Durable d c → Durable d (truncate_log c i)
  unfolding truncate_log
  truncate_log-Durable c none h = h
  truncate_log-Durable c (some i) h = (ap (λ (k : Disk). write k (log_truncate i)) h.0, (tt, h.1))

  append_new-Durable : (c : Core S) (es : List LogEntry) → Durable d c → Durable d (append_new c es)
  unfolding append_new
  append_new-Durable c [] h = h
  append_new-Durable c (e ∷ es) h = append_log-Durable c (e ∷ es) h

  pub merge_entries-Durable :
      (c : Core S) (ae : AppendEntries) → Durable d c → Durable d (merge_entries c ae)
  unfolding merge_entries
  merge_entries-Durable c ae h =
      let w = walk c.log ae.prev_log_index 0 ae.entries in
      append_new-Durable (truncate_log c w.truncate_at) (drop w.skipped ae.entries)
        (truncate_log-Durable c w.truncate_at h)

  ask_all-Durable :
      (c : Core S) (rv : RequestVote) (ps : List NodeId)
      → Promise (disk c) (request_vote rv)
      → Durable d c
      → Durable d (ask_all c rv ps)
  unfolding ask_all
  ask_all-Durable c rv [] p h = h
  ask_all-Durable c rv (q ∷ ps) p h =
      ask_all-Durable (emit c (send q (request_vote rv))) rv ps p
        (send-Durable c q (request_vote rv) h p)

module _ (d : Disk) {S : Type 0} (host : Host S) where
  adopt_term-Durable : (c : Core S) (t : Term) → Durable d c → Durable d (adopt_term c t)
  unfolding adopt_term
  adopt_term-Durable c t h = elim (Bool-cases (ltb c.current_term t)) [
    | inl e ↦ rw (e, adopt_term) (persist-Durable d c t none (inl (ltb→lt _ _ e)) h)
    | inr e ↦ rw (e, adopt_term) h
  ]

  retire-Durable : (c : Core S) → Durable d c → Durable d (retire host c)
  unfolding retire reset_election_timer
  retire-Durable c h =
      if-Durable d (is_leader c.role)
        (reset_election_timer host (record c { heartbeat_deadline = never })) c h h

  pub become_follower-Durable :
      (c : Core S) (t : Term) (e : Event) → Durable d c → Durable d (become_follower host c t e)
  unfolding become_follower
  become_follower-Durable c t e h =
      let h' = retire-Durable (adopt_term c t) (adopt_term-Durable c t h) in (h'.0, (tt, h'.1))

  stand-Durable :
      (c : Core S) → c.current_term + 1 < u64_mod → Durable d c → Durable d (stand host c)
  unfolding stand reset_election_timer
  stand-Durable c fit h =
      let grows : c.current_term < add64 c.current_term 1 = omega arith in
      let h' = persist-Durable d c (add64 c.current_term 1) (some c.self) (inl grows) h in
      (h'.0, (tt, h'.1))

  stand-vote : (c : Core S) → (stand host c).voted_for ≡ some (stand host c).self
  unfolding stand reset_election_timer persist_term_and_vote
  stand-vote c = refl

  start_election-Durable :
      (c : Core S) → c.current_term + 1 < u64_mod → Durable d c → Durable d (start_election host c)
  unfolding start_election
  start_election-Durable c fit h =
      let s = stand host c in
      let rv : RequestVote = record {
        term = s.current_term;
        candidate_id = s.self;
        last_log_index = last_index s.log;
        last_log_term = last_term s.log;
      } in
      count_votes-Durable d (ask_all s rv s.peers) (
        ask_all-Durable d s rv s.peers (refl, stand-vote c, refl, last_term_eq s.log)
          (stand-Durable c fit h))

  pub tick-Durable : (c : Core S) → CanStand c → Durable d c → Durable d (tick host c)
  unfolding tick
  tick-Durable c fit h =
      let beat = send_heartbeats c in
      let due = is_leader c.role && is_due c.now c.heartbeat_deadline in
      elim (Bool-cases (not (is_leader c.role) && is_due c.now c.election_deadline)) [
        | inl stands ↦
            rw (stands, tick)
              (start_election-Durable c (subst (λ b. FitsIf b c.current_term) stands fit) h)
        | inr waits ↦ rw (waits, tick) (if-Durable d due beat c (send_heartbeats-Durable d c h) h)
      ]

  -- A vote is granted where none was given, or was given to the same candidate.
  grants-free :
      (c : Core S) (rv : RequestVote)
      → grants c rv ≡ true
      → (c.voted_for ≡ none) ⊎ (some rv.candidate_id ≡ c.voted_for)
  unfolding grants
  grants-free c rv yea = ground arith

  granted-Durable :
      (c : Core S) (from : NodeId) (rv : RequestVote)
      → grants c rv ≡ true
      → Durable d c
      → Durable d (
          emit
            (reset_election_timer host
              (persist_term_and_vote c c.current_term (some rv.candidate_id)))
            (send from
              (request_vote_reply (record { term = c.current_term; vote_granted = true }))))
  unfolding reset_election_timer persist_term_and_vote
  granted-Durable c from rv yea h =
      let h' =
        persist-Durable d c c.current_term (some rv.candidate_id) (inr (refl, grants-free c rv yea))
          h in
      (h'.0, ((λ e. ballot h'.0), h'.1))
    where
      ballot :
          {k : Disk}
          → k ≡ record { term = c.current_term; vote = some rv.candidate_id; log = c.log }
          → (k.term ≡ c.current_term) × ((v : NodeId) × (k.vote ≡ some v))
      ballot e = (ap (λ (k : Disk). k.term) e, (rv.candidate_id, ap (λ (k : Disk). k.vote) e))

  pub on_request_vote-Durable :
      (c : Core S) (from : NodeId) (rv : RequestVote)
      → Durable d c
      → Durable d (on_request_vote host c from rv)
  unfolding on_request_vote
  on_request_vote-Durable c from rv h = elim (Bool-cases (ltb rv.term c.current_term)) [
    | inl stale ↦ rw (stale, on_request_vote) (h.0, ((λ e. cc), h.1))
    | inr current ↦ elim (Bool-cases (grants c rv)) [
      | inl yea ↦ rw (current, yea, on_request_vote) (granted-Durable c from rv yea h)
      | inr nay ↦ rw (current, nay, on_request_vote) (h.0, ((λ e. cc), h.1))
    ]
  ]

  pub on_request_vote_reply-Durable :
      (c : Core S) (from : NodeId) (r : RequestVoteReply)
      → Durable d c
      → Durable d (on_request_vote_reply host c from r)
  unfolding on_request_vote_reply
  on_request_vote_reply-Durable c from r h =
      let counted = count_votes (record c { votes_from = insert from c.votes_from }) in
      let other = not (r.term == c.current_term) || not r.vote_granted in
      if-Durable d (not (is_candidate c.role)) c (if other then c else counted) h (
        if-Durable d other c counted h
          (count_votes-Durable d (record c { votes_from = insert from c.votes_from }) h))

  pub recognise-Durable :
      (c : Core S) (ae : AppendEntries) → Durable d c → Durable d (recognise host c ae)
  unfolding recognise reset_election_timer
  recognise-Durable c ae h =
      let c' = record c { leader_id = some ae.leader_id } in
      let f = become_follower host c' c.current_term leader_discovered in
      if-Durable d (is_candidate c.role) f c'
        (become_follower-Durable c' c.current_term leader_discovered h) h

  pub follow_commit-Durable :
      (c : Core S) (ae : AppendEntries) → Durable d c → Durable d (follow_commit host c ae)
  unfolding follow_commit
  follow_commit-Durable c ae h =
      let c' = record c { commit_index = min ae.leader_commit (confirmed_through ae) } in
      if-Durable d (ltb c.commit_index ae.leader_commit) (apply_committed host c') c
        (apply_committed-Durable d host c' h) h
