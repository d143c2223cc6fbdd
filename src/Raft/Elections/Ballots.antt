-- ===== src/Raft/Elections/Ballots.antt =====
-- Giving and taking votes, and stepping down (src/raft/raft_core.cpp).
use mathlib.Core.Bool.{false≢true}
use raft_rsm.Prelude.{
  ◌≡◌, refl, ap, sym, subst, ◌⊎◌, inl, inr, true, false, not, ◌||◌, none, some, ◌∷◌, arith, ltb,
  ◌==◌, ==_iff, Bool-cases, Distinct,
}
use raft_rsm.Rpc.Types.{NodeId, Term, RequestVote, RequestVoteReply, request_vote_reply}
use raft_rsm.Raft.State.{
  Host, Core, Event, follower, save, send, transition, emit, majority, insert,
  persist_term_and_vote, is_leader, is_candidate,
}
use raft_rsm.Raft.Roles.{reset_election_timer, adopt_term, retire, become_follower}
use raft_rsm.Raft.Election.{count_votes, grants, on_request_vote, on_request_vote_reply}
use raft_rsm.Raft.Rules.{if_cases}
use raft_rsm.Raft.Elections.{
  View, Backs, Won, Fair, Since, Elected, Since-more, Backs-more, emit-Elected,
}
use raft_rsm.Raft.Elections.Candidacies.{Distinct-insert, All-insert, count_votes-Elected}

module _ (view : View) {S : Type 0} (host : Host S) where
  -- What holds of a node that is no candidate.
  abbrev Aside : Core S → Type 0
  Aside c =
      Distinct c.votes_from × Won view c.self (majority c) c.out × Fair c.self c.out × Since view c

  adopt_term-Aside : (c : Core S) (t : Term) → Aside c → Aside (adopt_term c t)
  unfolding adopt_term persist_term_and_vote
  adopt_term-Aside c t (distinct, won, fair, since) =
      if_cases Aside (ltb c.current_term t)
        (distinct, (tt, won), (tt, fair), Since-more view c (save t none) since)
        (distinct, won, fair, since)

  retire-Aside : (c : Core S) → Aside c → Aside (retire host c)
  unfolding retire reset_election_timer
  retire-Aside c h = if_cases Aside (is_leader c.role) h h

  pub become_follower-Elected :
      (c : Core S) (t : Term) (e : Event)
      → Elected view c
      → Elected view (become_follower host c t e)
  unfolding become_follower
  become_follower-Elected c t e h =
      let r = retire host (adopt_term c t) in
      let (distinct, won, fair, since) =
        retire-Aside (adopt_term c t) (adopt_term-Aside c t (h.1, h.2, h.3, h.4)) in
      (
        (λ k. absurd (false≢true k)),
        distinct,
        (tt, won),
        (tt, fair),
        Since-more view r (transition r.current_term follower e) since,
      )

  -- A vote that was saved for the node that asked.
  granted-Elected :
      (c : Core S) (from : NodeId) (rv : RequestVote)
      → rv.candidate_id ≡ from
      → Elected view c
      → Elected view (
          emit
            (reset_election_timer host
              (persist_term_and_vote c c.current_term (some rv.candidate_id)))
            (send from
              (request_vote_reply (record { term = c.current_term; vote_granted = true }))))
  unfolding reset_election_timer persist_term_and_vote
  granted-Elected c from rv own (behind, distinct, won, fair, since) =
      let saved = save c.current_term (some rv.candidate_id) in
      (
        (λ k.
            Backs-more view c.self (saved ∷ c.out) _ c.current_term c.votes_from
              (Backs-more view c.self c.out saved c.current_term c.votes_from (behind k))),
        distinct,
        (tt, (tt, won)),
        ((λ g. inl (ap (λ v. save c.current_term (some v)) own)), (tt, fair)),
        (since.0, since.1, (λ t x v. inr (inr (since.2 t x v)))),
      )

  refused-Elected :
      (c : Core S) (from : NodeId) (t : Term)
      → Elected view c
      → Elected view
          (emit c (send from (request_vote_reply (record { term = t; vote_granted = false }))))
  refused-Elected c from t = emit-Elected view c _ tt (λ g. absurd (false≢true g))

  -- The branches of `onRequestVote`.
  vote_refused :
      (c : Core S) (from : NodeId) (rv : RequestVote)
      → (ltb rv.term c.current_term ≡ true) ⊎ (grants c rv ≡ false)
      → on_request_vote host c from rv
        ≡ emit c (
            send from (request_vote_reply (record { term = c.current_term; vote_granted = false })))
  unfolding on_request_vote
  vote_refused c from rv (inl stale) = rw (on_request_vote, stale) refl
  vote_refused c from rv (inr nay) = elim (Bool-cases (ltb rv.term c.current_term)) [
    | inl stale ↦ rw (on_request_vote, stale) refl
    | inr current ↦ rw (on_request_vote, current, nay) refl
  ]

  vote_granted :
      (c : Core S) (from : NodeId) (rv : RequestVote)
      → ltb rv.term c.current_term ≡ false
      → grants c rv ≡ true
      → on_request_vote host c from rv
        ≡ emit
            (reset_election_timer host
              (persist_term_and_vote c c.current_term (some rv.candidate_id)))
            (send from (request_vote_reply (record { term = c.current_term; vote_granted = true })))
  unfolding on_request_vote
  vote_granted c from rv current yea = rw (on_request_vote, current, yea) refl

  pub on_request_vote-Elected :
      (c : Core S) (from : NodeId) (rv : RequestVote)
      → rv.candidate_id ≡ from
      → Elected view c
      → Elected view (on_request_vote host c from rv)
  on_request_vote-Elected c from rv own h =
      let refused = refused-Elected c from c.current_term h in
      elim (Bool-cases (ltb rv.term c.current_term)) [
        | inl stale ↦
            subst (λ (s : Core S). Elected view s) (sym (vote_refused c from rv (inl stale)))
              refused
        | inr current ↦ elim (Bool-cases (grants c rv)) [
          | inl yea ↦
              subst (λ (s : Core S). Elected view s) (sym (vote_granted c from rv current yea))
                (granted-Elected c from rv own h)
          | inr nay ↦
              subst (λ (s : Core S). Elected view s) (sym (vote_refused c from rv (inr nay)))
                refused
        ]
      ]

  on_counted :
      (c : Core S) (from : NodeId)
      → is_candidate c.role ≡ true
      → view.voted c.current_term from
      → Elected view c
      → Elected view (count_votes (record c { votes_from = insert from c.votes_from }))
  on_counted c from k given (behind, distinct, won, fair, since) =
      count_votes-Elected view (record c { votes_from = insert from c.votes_from }) k
        (
          (λ k.
              All-insert (Backs view c.self c.out c.current_term) from c.votes_from (inr given)
                (behind k)),
          Distinct-insert from c.votes_from distinct,
          won,
          fair,
          since,
        )

  pub on_request_vote_reply-Elected :
      (c : Core S) (from : NodeId) (r : RequestVoteReply)
      → (r.vote_granted ≡ true → view.voted r.term from)
      → Elected view c
      → Elected view (on_request_vote_reply host c from r)
  unfolding on_request_vote_reply
  on_request_vote_reply-Elected c from r heard h = elim (Bool-cases (is_candidate c.role)) [
    | inr other ↦ rw (other, on_request_vote_reply) h
    | inl k ↦ elim (Bool-cases (not (r.term == c.current_term) || not r.vote_granted)) [
      | inl useless ↦ rw (k, useless, on_request_vote_reply) h
      | inr good ↦
          let same : r.term ≡ c.current_term = (==_iff r.term c.current_term).0 (ground arith) in
          let given = subst (λ t. view.voted t from) same (heard (ground arith)) in
          rw (k, good, on_request_vote_reply) (on_counted c from k given h)
    ]
  ]
