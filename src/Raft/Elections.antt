-- ===== src/Raft/Elections.antt =====
-- The votes behind a candidacy and behind each election won (src/raft/raft_core.cpp), over what the
-- other nodes have saved.
pub mod Sends
pub mod Candidacies
pub mod Ballots
pub mod Calls
pub mod Wins
use raft_rsm.Prelude.{
  ℕ, ◌≤◌, ◌≡◌, refl, ◌⊎◌, inl, inr, Bool, true, Option, none, some, List, [], ◌∷◌, length, All,
  Distinct,
}
use raft_rsm.Rpc.Types.{NodeId, Term, Message, request_vote, request_vote_reply}
use raft_rsm.Raft.State.{
  Core, Output, save, send, transition, leader, won_election, majority, is_candidate, emit,
}
use raft_rsm.Raft.Disk.Votes.{Voted}

-- What a node starts from, and the votes for it: `voted t v` when node v, which may be another, has
-- saved its vote of term t for this node.
pub record View : Type 1 where
  pub voted : Term → NodeId → Type 0
  pub self : NodeId
  pub peers : List NodeId
  pub out : List Output

-- The term of an election that was won.
abbrev pub election_won : Output → Option Term
election_won (transition t leader won_election) = some t
election_won _ = none

module _ (view : View) (self : NodeId) where
  -- The own vote is in the own history, the others are given.
  abbrev pub Backs : List Output → Term → NodeId → Type 0
  Backs out t v = ((v ≡ self) × Voted t self out) ⊎ view.voted t v

  -- A majority of different voters.
  abbrev pub Quorum : ℕ → List Output → Term → Type 0
  Quorum m out t = (vs : List NodeId) × (m ≤ length vs) × Distinct vs × All (Backs out t) vs

  abbrev pub WonAt : ℕ → List Output → Option Term → Type 0
  WonAt m out none = Unit
  WonAt m out (some t) = Quorum m out t

  -- Each election that was won had its quorum.
  abbrev pub Won : ℕ → List Output → Type 0
  Won m [] = Unit
  Won m (o ∷ out) = WonAt m out (election_won o) × Won m out

-- A request for a vote names its sender; a granted vote was saved for its receiver.
abbrev pub Claim : NodeId → List Output → Output → Type 0
Claim self out (send to (request_vote m)) = m.candidate_id ≡ self
Claim self out (send to (request_vote_reply m)) = m.vote_granted ≡ true → Voted m.term to out
Claim self out _ = Unit

abbrev pub Fair : NodeId → List Output → Type 0
Fair self [] = Unit
Fair self (o ∷ out) = Claim self out o × Fair self out

-- Self and the peers stay, and the history only grows.
abbrev pub Since : View → {S : Type 0} → Core S → Type 0
Since view c =
    (c.self ≡ view.self)
    × (c.peers ≡ view.peers)
    × ((t : Term) (x : NodeId) → Voted t x view.out → Voted t x c.out)

abbrev pub Elected : View → {S : Type 0} → Core S → Type 0
Elected view c =
    (is_candidate c.role ≡ true → All (Backs view c.self c.out c.current_term) c.votes_from)
    × Distinct c.votes_from
    × Won view c.self (majority c) c.out
    × Fair c.self c.out
    × Since view c

module _ (view : View) where
  -- One more output forgets no vote.
  pub Backs-more :
      (self : NodeId) (out : List Output) (o : Output) (t : Term) (vs : List NodeId)
      → All (Backs view self out t) vs
      → All (Backs view self (o ∷ out) t) vs
  Backs-more self out o t [] h = tt
  Backs-more self out o t (v ∷ vs) h = (
    elim h.0 [ inl (own, voted) ↦ inl (own, inr voted) | inr given ↦ inr given ],
    Backs-more self out o t vs h.1,
  )

  pub Since-more : {S : Type 0} (c : Core S) (o : Output) → Since view c → Since view (emit c o)
  Since-more c o (self, peers, out) = (self, peers, (λ t x v. inr (out t x v)))

  pub emit-Elected :
      {S : Type 0} (c : Core S) (o : Output)
      → WonAt view c.self (majority c) c.out (election_won o)
      → Claim c.self c.out o
      → Elected view c
      → Elected view (emit c o)
  emit-Elected c o w f (behind, distinct, won, fair, since) = (
    (λ k. Backs-more c.self c.out o c.current_term c.votes_from (behind k)),
    distinct,
    (w, won),
    (f, fair),
    Since-more c o since,
  )
