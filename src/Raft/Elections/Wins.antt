-- ===== src/Raft/Elections/Wins.antt =====
-- What a history of src/raft/raft_core.cpp says of the elections that were won and of the messages
-- that were sent.
use raft_rsm.Prelude.{ℕ, ◌≡◌, subst, ◌⊎◌, inl, inr, Option, none, some, List, [], ◌∷◌, All}
use raft_rsm.Rpc.Types.{
  NodeId, Term, Message, request_vote, request_vote_reply, append_entries, append_entries_reply,
  client_request, client_reply,
}
use raft_rsm.Raft.State.{Core, Output, send, transition, leader, won_election}
use raft_rsm.Raft.Elections.{
  View, Backs, Quorum, WonAt, Won, Claim, Fair, Since, Elected, Backs-more, election_won,
}

-- The node became leader of term t.
abbrev pub Leads : Term → List Output → Type 0
Leads t [] = ⊥
Leads t (o ∷ os) = (o ≡ transition t leader won_election) ⊎ Leads t os

-- The node sent the message.
abbrev pub Sent : NodeId → Message → List Output → Type 0
Sent to m [] = ⊥
Sent to m (o ∷ os) = (o ≡ send to m) ⊎ Sent to m os

module _ (view : View) (self : NodeId) where
  Quorum-more :
      (m : ℕ) (out : List Output) (o : Output) (t : Term)
      → Quorum view self m out t
      → Quorum view self m (o ∷ out) t
  Quorum-more m out o t (vs, enough, distinct, behind) =
      (vs, enough, distinct, Backs-more view self out o t vs behind)

  pub Won-Quorum :
      (m : ℕ) (out : List Output) (t : Term)
      → Won view self m out
      → Leads t out
      → Quorum view self m out t
  Won-Quorum m [] t w l = absurd l
  Won-Quorum m (o ∷ out) t w (inl e) =
      Quorum-more m out o t (subst (λ o. WonAt view self m out (election_won o)) e w.0)
  Won-Quorum m (o ∷ out) t w (inr l) = Quorum-more m out o t (Won-Quorum m out t w.1 l)

Claim-more :
    (self : NodeId) (out : List Output) (o : Output) (to : NodeId) (m : Message)
    → Claim self out (send to m)
    → Claim self (o ∷ out) (send to m)
Claim-more self out o to (request_vote m) h = h
Claim-more self out o to (request_vote_reply m) h = λ g. inr (h g)
Claim-more self out o to (append_entries m) h = h
Claim-more self out o to (append_entries_reply m) h = h
Claim-more self out o to (client_request m) h = h
Claim-more self out o to (client_reply m) h = h

pub Sent-Claim :
    (self to : NodeId) (m : Message) (out : List Output)
    → Fair self out
    → Sent to m out
    → Claim self out (send to m)
Sent-Claim self to m [] f s = absurd s
Sent-Claim self to m (o ∷ out) f (inl e) = Claim-more self out o to m (subst (Claim self out) e f.0)
Sent-Claim self to m (o ∷ out) f (inr s) =
    Claim-more self out o to m (Sent-Claim self to m out f.1 s)

-- With more votes elsewhere, all stays as it was.
module _ (v w : View) (more : (t : Term) (x : NodeId) → v.voted t x → w.voted t x) where
  Backs-map :
      (self : NodeId) (out : List Output) (t : Term) (vs : List NodeId)
      → All (Backs v self out t) vs
      → All (Backs w self out t) vs
  Backs-map self out t [] h = tt
  Backs-map self out t (x ∷ vs) h = (
    elim h.0 [ inl own ↦ inl own | inr given ↦ inr (more t x given) ],
    Backs-map self out t vs h.1,
  )

  WonAt-map :
      (self : NodeId) (m : ℕ) (out : List Output) (k : Option Term)
      → WonAt v self m out k
      → WonAt w self m out k
  WonAt-map self m out none h = h
  WonAt-map self m out (some t) (vs, enough, distinct, behind) =
      (vs, enough, distinct, Backs-map self out t vs behind)

  Won-map : (self : NodeId) (m : ℕ) (out : List Output) → Won v self m out → Won w self m out
  Won-map self m [] h = h
  Won-map self m (o ∷ out) h = (WonAt-map self m out (election_won o) h.0, Won-map self m out h.1)

  pub Elected-map : {S : Type 0} (c : Core S) → Since w c → Elected v c → Elected w c
  Elected-map c s (behind, distinct, won, fair, since) = (
    (λ k. Backs-map c.self c.out c.current_term c.votes_from (behind k)),
    distinct,
    Won-map c.self _ c.out won,
    fair,
    s,
  )
