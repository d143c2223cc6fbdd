-- ===== src/Raft/Elections/Candidacies.antt =====
-- Candidacies (src/raft/raft_core.cpp): standing for election and counting votes.
use mathlib.Core.Bool.{false≢true}
use raft_rsm.Prelude.{
  ◌≤◌, ◌≡◌, refl, ap, ◌∙◌, inl, inr, true, false, not, ◌&&◌, List, [], ◌∷◌, arith, leb, leb→le,
  ◌==◌, length, All, Bool-cases, Distinct, elem,
}
use raft_rsm.Rpc.Types.{NodeId, RequestVote, request_vote}
use raft_rsm.Storage.Log.{last_index, last_term}
use raft_rsm.Raft.State.{
  Host, Core, candidate, leader, won_election, send, transition, emit, majority, insert,
  persist_term_and_vote, is_leader, is_candidate, is_due,
}
use raft_rsm.Raft.Roles.{reset_election_timer}
use raft_rsm.Raft.Leader.{take_lead, become_leader}
use raft_rsm.Raft.Election.{ask_all, stand, count_votes, start_election, tick}
use raft_rsm.Raft.Rules.{if_cases}
use raft_rsm.Raft.Elections.{View, Elected, Since-more, emit-Elected}
use raft_rsm.Raft.Elections.Sends.{send_heartbeats-Elected}

elem-insert :
    (x v : NodeId) (vs : List NodeId)
    → (v == x) ≡ false
    → elem x vs ≡ false
    → elem x (insert v vs) ≡ false
unfolding insert
elem-insert x v [] h k = ground arith
elem-insert x v (w ∷ vs) h k = ground (arith, elem-insert x v vs h)

pub Distinct-insert : (v : NodeId) (vs : List NodeId) → Distinct vs → Distinct (insert v vs)
unfolding insert
Distinct-insert v [] d = (refl, tt)
Distinct-insert v (w ∷ vs) d = elim (Bool-cases (w == v)) [
  | inl same ↦ rw (same, insert) d
  | inr other ↦
      let apart : (v == w) ≡ false = ground arith in
      rw (other, insert) (elem-insert w v vs apart d.0, Distinct-insert v vs d.1)
]

pub All-insert :
    (P : NodeId → Type 0) (v : NodeId) (vs : List NodeId) → P v → All P vs → All P (insert v vs)
unfolding insert
All-insert P v [] p h = (p, tt)
All-insert P v (w ∷ vs) p h = if_cases (All P) (w == v) h (h.0, All-insert P v vs p h.1)

module _ (view : View) {S : Type 0} where
  -- The votes of a candidate are the quorum of the leader.
  become_leader-Elected :
      (c : Core S)
      → is_candidate c.role ≡ true
      → majority c ≤ length c.votes_from
      → Elected view c
      → Elected view (become_leader c)
  unfolding become_leader take_lead
  become_leader-Elected c k enough (behind, distinct, won, fair, since) =
      send_heartbeats-Elected view (take_lead c) (
        (λ e. absurd (false≢true e)),
        distinct,
        ((c.votes_from, enough, distinct, behind k), won),
        (tt, fair),
        Since-more view c (transition c.current_term leader won_election) since,
      )

  pub count_votes-Elected :
      (c : Core S) → is_candidate c.role ≡ true → Elected view c → Elected view (count_votes c)
  unfolding count_votes
  count_votes-Elected c k h = elim (Bool-cases (leb (majority c) (length c.votes_from))) [
    | inl e ↦ rw (e, count_votes) (become_leader-Elected c k (leb→le _ _ e) h)
    | inr e ↦ rw (e, count_votes) h
  ]

  ask_all-Elected :
      (c : Core S) (rv : RequestVote) (ps : List NodeId)
      → rv.candidate_id ≡ c.self
      → Elected view c
      → Elected view (ask_all c rv ps)
  unfolding ask_all
  ask_all-Elected c rv [] own h = h
  ask_all-Elected c rv (p ∷ ps) own h =
      ask_all-Elected (emit c (send p (request_vote rv))) rv ps own
        (emit-Elected view c (send p (request_vote rv)) tt own h)

  role-ask_all :
      (c : Core S) (rv : RequestVote) (ps : List NodeId) → (ask_all c rv ps).role ≡ c.role
  unfolding ask_all
  role-ask_all c rv [] = refl
  role-ask_all c rv (p ∷ ps) = role-ask_all (emit c (send p (request_vote rv))) rv ps

module _ (view : View) {S : Type 0} (host : Host S) where
  -- A new candidacy has the own vote behind it.
  stand-Elected : (c : Core S) → Elected view c → Elected view (stand host c)
  unfolding stand persist_term_and_vote reset_election_timer
  stand-Elected c (behind, distinct, won, fair, since) = (
    (λ k. (inl (refl, inr (inl refl)), tt)),
    (refl, tt),
    (tt, (tt, won)),
    (tt, (tt, fair)),
    (since.0, since.1, (λ t x v. inr (inr (since.2 t x v)))),
  )

  role-stand : (c : Core S) → (stand host c).role ≡ candidate
  unfolding stand persist_term_and_vote reset_election_timer
  role-stand c = refl

  start_election-Elected : (c : Core S) → Elected view c → Elected view (start_election host c)
  unfolding start_election
  start_election-Elected c h =
      let s = stand host c in
      let rv : RequestVote = record {
        term = s.current_term;
        candidate_id = s.self;
        last_log_index = last_index s.log;
        last_log_term = last_term s.log;
      } in
      count_votes-Elected view (ask_all s rv s.peers)
        (ap is_candidate (role-ask_all view s rv s.peers ∙ role-stand c))
        (ask_all-Elected view s rv s.peers refl (stand-Elected c h))

  pub tick-Elected : (c : Core S) → Elected view c → Elected view (tick host c)
  unfolding tick
  tick-Elected c h =
      if_cases (λ (c : Core S). Elected view c)
        (not (is_leader c.role) && is_due c.now c.election_deadline) (start_election-Elected c h)
        (if_cases (λ (c : Core S). Elected view c)
          (is_leader c.role && is_due c.now c.heartbeat_deadline) (send_heartbeats-Elected view c h)
          h)
