-- ===== src/Raft/Ballot.antt =====
-- Terms and votes (src/raft/raft_core.cpp): how `currentTerm` and `votedFor` move over any calls.
use raft_rsm.Prelude.{
  ℕ, ◌+◌, ◌<◌, ◌≡◌, refl, subst, ◌⊎◌, inl, inr, not, ◌&&◌, Bool-cases, true, false, Option, none,
  some, List, [], ◌∷◌, arith, u64_mod, drop, length, ◌%◌, ◌^◌,
}
use raft_rsm.Rpc.Types.{
  Bytes, NodeId, Term, Message, request_vote, request_vote_reply, append_entries, LogEntry,
  append_entries_reply, client_request, client_reply, RequestVote, RequestVoteReply, AppendEntries,
}
use raft_rsm.Storage.Log.{last_index, last_term, term_at}
use raft_rsm.Raft.State.{
  Host, Core, Event, send, leader_discovered, higher_term_seen, persist_term_and_vote, append_log,
  insert, is_leader, is_due,
}
use raft_rsm.Raft.Rules.{FitsIf, CanStand}
use raft_rsm.Raft.Roles.{reset_election_timer, start, adopt_term, retire, become_follower}
use raft_rsm.Raft.Leader.{take_lead, become_leader, propose, propose_batch, stamp}
use raft_rsm.Raft.Election.{
  ask_all, stand, count_votes, start_election, tick, grants, on_request_vote, on_request_vote_reply,
}
use raft_rsm.Raft.Follower.{
  truncate_log, append_new, merge_entries, recognise, check_and_merge, on_append_entries,
  follow_commit, walk,
}
use raft_rsm.Raft.Handle.{
  Call, starts, ticks, pumps, receives, proposes, proposes_batch, waits, lift_term, dispatch,
  handle, step, run, term_of,
}
use raft_rsm.Raft.Frame.{
  Same, send_heartbeats-Same, apply_committed-Same, replicate-Same, on_append_entries_reply-Same,
  reply-Same, reply_conflict-Same, follow_commit-Same,
}

-- The term grows, or it stays and a vote that was given stays given.
abbrev pub Forward : {S : Type 0} → Core S → Core S → Type 0
Forward c c' =
    (c.current_term < c'.current_term)
    ⊎ ((c'.current_term ≡ c.current_term) × ((c.voted_for ≡ none) ⊎ (c'.voted_for ≡ c.voted_for)))

-- Neither moves.
abbrev pub Still : {S : Type 0} → Core S → Core S → Type 0
Still c c' = (c'.current_term ≡ c.current_term) × (c'.voted_for ≡ c.voted_for)

module _ {S : Type 0} where
  Forward-trans : (a b c : Core S) → Forward a b → Forward b c → Forward a c
  Forward-trans a b c p q = ground arith

  Still-Forward : (a b : Core S) → Still a b → Forward a b
  Still-Forward a b p = inr (p.0, inr p.1)

  Same-Still : {a b : Core S} → Same a b → Still a b
  Same-Still p = (p.current_term, p.voted_for)

  become_leader-Still : (c : Core S) → Still c (become_leader c)
  unfolding become_leader take_lead
  become_leader-Still c = ground (arith, send_heartbeats-Same (take_lead c))

  count_votes-Still : (c : Core S) → Still c (count_votes c)
  unfolding count_votes
  count_votes-Still c = ground (arith, become_leader-Still c)

  ask_all-Still : (c : Core S) (rv : RequestVote) (ps : List NodeId) → Still c (ask_all c rv ps)
  unfolding ask_all
  ask_all-Still c rv [] = (refl, refl)
  ask_all-Still c rv (p ∷ ps) =
      ask_all-Still (record c { out = send p (request_vote rv) ∷ c.out }) rv ps

  truncate_log-Still : (c : Core S) (i : Option ℕ) → Still c (truncate_log c i)
  unfolding truncate_log
  truncate_log-Still c none = (refl, refl)
  truncate_log-Still c (some i) = (refl, refl)

  append_new-Still : (c : Core S) (es : List LogEntry) → Still c (append_new c es)
  unfolding append_new append_log
  append_new-Still c [] = (refl, refl)
  append_new-Still c (e ∷ es) = (refl, refl)

  merge_entries-Still : (c : Core S) (ae : AppendEntries) → Still c (merge_entries c ae)
  unfolding merge_entries
  merge_entries-Still c ae =
      let w = walk c.log ae.prev_log_index 0 ae.entries in
      let t = truncate_log c w.truncate_at in
      ground
        (arith, truncate_log-Still c w.truncate_at, append_new-Still t (drop w.skipped ae.entries))

module _ {S : Type 0} (host : Host S) where
  -- `becomeFollower` at the own term moves neither.
  become_follower-Forward :
      (c : Core S) (t : Term) (e : Event)
      → Forward c (become_follower host c t e)
        × ((t ≡ c.current_term) → Still c (become_follower host c t e))
  unfolding become_follower retire adopt_term persist_term_and_vote reset_election_timer
  become_follower-Forward c t e = ground arith

  start_election-Forward :
      (c : Core S) → c.current_term + 1 < u64_mod → Forward c (start_election host c)
  unfolding start_election stand persist_term_and_vote reset_election_timer
  start_election-Forward c h =
      let rv : RequestVote = record {
        term = (stand host c).current_term;
        candidate_id = (stand host c).self;
        last_log_index = last_index (stand host c).log;
        last_log_term = last_term (stand host c).log;
      } in
      ground (
        arith,
        ask_all-Still (stand host c) rv (stand host c).peers,
        count_votes-Still (ask_all (stand host c) rv (stand host c).peers),
      )

  tick-Forward : (c : Core S) → CanStand c → Forward c (tick host c)
  unfolding tick
  tick-Forward c h =
      elim (Bool-cases (not (is_leader c.role) && is_due c.now c.election_deadline)) [
        | inl due ↦
            rw (due, tick) (start_election-Forward c (subst (λ b. FitsIf b c.current_term) due h))
        | inr idle ↦ rw (idle, tick) (ground (arith, send_heartbeats-Same c))
      ]

  -- A vote is given only where none was given to another.
  on_request_vote-Forward :
      (c : Core S) (from : NodeId) (rv : RequestVote) → Forward c (on_request_vote host c from rv)
  unfolding on_request_vote grants persist_term_and_vote reset_election_timer
  on_request_vote-Forward c from rv = ground arith

  on_request_vote_reply-Forward :
      (c : Core S) (from : NodeId) (r : RequestVoteReply)
      → Forward c (on_request_vote_reply host c from r)
  unfolding on_request_vote_reply
  on_request_vote_reply-Forward c from r =
      ground (arith, count_votes-Still (record c { votes_from = insert from c.votes_from }))

  recognise-Still : (c : Core S) (ae : AppendEntries) → Still c (recognise host c ae)
  unfolding recognise reset_election_timer
  recognise-Still c ae =
      let c' = record c { leader_id = some ae.leader_id } in
      ground (arith, (become_follower-Forward c' c.current_term leader_discovered).1 refl)

  check_and_merge-Still :
      (c : Core S) (from : NodeId) (ae : AppendEntries) → Still c (check_and_merge host c from ae)
  unfolding check_and_merge
  check_and_merge-Still c from ae =
      let m = merge_entries c ae in
      let f = follow_commit host m ae in
      ground (
        arith,
        reply-Same c from false ((last_index c.log + 1) % 2 ^ 64) 0,
        reply_conflict-Same c from (term_at c.log ae.prev_log_index) ae.prev_log_index,
        merge_entries-Still c ae,
        follow_commit-Same host m ae,
        reply-Same f from true ((ae.prev_log_index + length ae.entries) % 2 ^ 64) 0,
      )

  on_append_entries-Still :
      (c : Core S) (from : NodeId) (ae : AppendEntries) → Still c (on_append_entries host c from ae)
  unfolding on_append_entries
  on_append_entries-Still c from ae = ground (
    arith,
    reply-Same c from false 0 0,
    recognise-Still c ae,
    check_and_merge-Still (recognise host c ae) from ae,
  )

  lift_term-Forward : (c : Core S) (t : Option Term) → Forward c (lift_term host c t)
  unfolding lift_term
  lift_term-Forward c none = inr (refl, inr refl)
  lift_term-Forward c (some t) = ground (arith, (become_follower-Forward c t higher_term_seen).0)

  dispatch-Forward : (c : Core S) (from : NodeId) (m : Message) → Forward c (dispatch host c from m)
  unfolding dispatch
  dispatch-Forward c from (request_vote m) = on_request_vote-Forward c from m
  dispatch-Forward c from (request_vote_reply m) = on_request_vote_reply-Forward c from m
  dispatch-Forward c from (append_entries m) =
      Still-Forward c (on_append_entries host c from m) (on_append_entries-Still c from m)
  dispatch-Forward c from (append_entries_reply m) =
      ground (arith, on_append_entries_reply-Same host c from m)
  dispatch-Forward c from (client_request m) = inr (refl, inr refl)
  dispatch-Forward c from (client_reply m) = inr (refl, inr refl)

  -- No message of any peer makes the term fall or a given vote change.
  pub handle-Forward : (c : Core S) (from : NodeId) (m : Message) → Forward c (handle host c from m)
  unfolding handle
  handle-Forward c from m =
      let c' = lift_term host c (term_of m) in
      Forward-trans c c' (dispatch host c' from m) (lift_term-Forward c (term_of m))
        (dispatch-Forward c' from m)

  propose-Still : (c : Core S) (x : Bytes) → Still c (propose host c x).0
  unfolding propose append_log
  propose-Still c x = ground (
    arith,
    replicate-Same host (append_log c (record { term = c.current_term; command = x } ∷ [])),
  )

  propose_batch-Still : (c : Core S) (xs : List Bytes) → Still c (propose_batch host c xs).0
  unfolding propose_batch append_log
  propose_batch-Still c xs =
      ground (arith, replicate-Same host (append_log c (stamp c.current_term xs)))

  -- What the call asks of the term: only an election counts it up.
  abbrev pub TermFits : Core S → Call → Type 0
  TermFits c ticks = CanStand c
  TermFits c _ = Unit

  step-Forward : (c : Core S) (x : Call) → TermFits c x → Forward c (step host c x)
  unfolding step start reset_election_timer
  step-Forward c starts h = inr (refl, inr refl)
  step-Forward c ticks h = tick-Forward c h
  step-Forward c pumps h = ground (arith, apply_committed-Same host c)
  step-Forward c (receives from m) h = handle-Forward c from m
  step-Forward c (proposes x) h = ground (arith, propose-Still c x)
  step-Forward c (proposes_batch xs) h = ground (arith, propose_batch-Still c xs)
  step-Forward c (waits d) h = inr (refl, inr refl)

  -- The term can be counted up wherever the run starts an election.
  abbrev pub TermsFit : Core S → List Call → Type 0
  TermsFit c [] = Unit
  TermsFit c (x ∷ xs) = TermFits c x × TermsFit (step host c x) xs

  -- Over any sequence of calls in which no election starts at the largest 64-bit term, the term
  -- never falls, and while it stays a vote that was given stays with its candidate.
  pub run-Forward : (c : Core S) (xs : List Call) → TermsFit c xs → Forward c (run host c xs)
  unfolding run
  run-Forward c [] h = inr (refl, inr refl)
  run-Forward c (x ∷ xs) h =
      Forward-trans c (step host c x) (run host (step host c x) xs) (step-Forward c x h.0)
        (run-Forward (step host c x) xs h.1)
